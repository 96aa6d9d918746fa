-- ===== src/Printf/Format.antt =====
-- The loop over the format (src/stdio/printf.c, `wlibc_printf_internal`) and `wlibc_vsnprintf`.
-- The format is the list of its bytes in front of the NUL, of which the loop reads 65536 at most. A
-- round of the loop reads a byte, so there is one round more than there are bytes.
pub mod Counts
pub mod Finish
pub mod Perform
pub mod Bounded
use windows_libc.Common.{
  ℕ, zero, suc, ◌+◌, ◌-◌, ◌*◌, ◌^◌, Bool, true, false, not, ◌&&◌, ◌||◌, Option, none, some, List,
  [], ◌∷◌, ◌++◌, ltb, leb, ◌==◌, if◌then◌else◌, length, set, take, u32,
}
use windows_libc.Buffer.{Buffer, Writer}
use windows_libc.Printf.{
  PrintType, PrintConfig, Effect, write_byte, write_n, store, Printed, perform,
}
use windows_libc.Printf.Spec.{peek, skip, is_unknown, parse_print_specifier}
use windows_libc.Printf.Print.{print_arg}
use windows_libc.Varargs.{VariadicArgs, variadic_args_init}

-- The part of a format that is read.
abbrev pub capped : List ℕ → List ℕ
capped format = take 65536 format

-- The variables of the function, and what `%n` has stored: address, number of bits, value.
pub record PrintState : Type 0 where
  pub args : VariadicArgs
  pub result : ℕ
  pub buffer : Buffer
  pub stored : List (ℕ × ℕ × ℕ)

-- The answer with the last state, `none` being the -1; undefined behaviour, or a callback of the buffer
-- that does not return; and the loop with no rounds left.
pub data Answer : Type 0 where
  answered : Option ℕ → PrintState → Answer
  undefined : Answer
  unfinished : Answer

unfoldable pub stores_of : List Effect → List (ℕ × ℕ × ℕ)
stores_of [] = []
stores_of (store address bits v ∷ es) = (address, bits, v) ∷ stores_of es
stores_of (write_byte c ∷ es) = stores_of es
stores_of (write_n cs ∷ es) = stores_of es

-- What a printer does to the buffer, `result += …`, and what follows.
abbrev pub performed : (PrintState → Answer) → PrintState → Printed → Option Buffer → Answer
performed go s p none = undefined
performed go s p (some b) = go (record s {
  buffer = b;
  result = u32 (s.result + p.count);
  stored = s.stored ++ stores_of p.effects;
})

abbrev pub run_printed : Option Writer → (PrintState → Answer) → PrintState → Printed → Answer
run_printed write go s p = performed go s p (perform write p.effects s.buffer)

abbrev pub byte_printed : ℕ → Printed
byte_printed c = record { effects = write_byte c ∷ []; count = 1 }

-- `if (buffer->error) return -1;`
unfoldable pub unless_error : (PrintState → Answer) → PrintState → Answer
unless_error go s = if s.buffer.error then answered none s else go s

module _ (write : Option Writer) (float_hex : Bool → ℕ → List ℕ) (text_at : ℕ → ℕ → List ℕ) where
  abbrev pub printed_arg : (PrintState → Answer) → PrintState → Option Printed → Answer
  printed_arg go s none = undefined
  printed_arg go s (some p) = run_printed write (unless_error go) s p

  -- Behind a `%`: an unknown conversion prints the `%` and goes on behind it.
  abbrev pub specified :
      (List ℕ → PrintState → Answer)
      → List ℕ
      → PrintState
      → Option (PrintConfig × List ℕ × VariadicArgs)
      → Answer
  specified go text s none = undefined
  specified go text s (some (config, rest, a)) =
      if is_unknown config.type
      then run_printed write (go text) (record s { args = a }) (byte_printed b'%')
      else printed_arg (go rest) (record s { args = a })
          (print_arg float_hex text_at (record config { result = s.result }))

  module _ (alloc : ℕ → Bool) (source : ℕ → ℕ) where
    -- A `%` at the end, `%%`, or a specification.
    unfoldable pub percent : (List ℕ → PrintState → Answer) → List ℕ → PrintState → Answer
    unfolding print_arg
    percent go [] s = run_printed write (λ t. answered (some t.result) t) s (byte_printed b'%')
    percent go (c ∷ text) s =
        if c == b'%'
        then run_printed write (go text) s (byte_printed b'%')
        else specified go (c ∷ text) s (parse_print_specifier alloc source (c ∷ text) s.args)

    pub printf_loop : ℕ → List ℕ → PrintState → Answer
    unfolding percent
    printf_loop zero text s = unfinished
    printf_loop (suc fuel) [] s = answered (some s.result) s
    printf_loop (suc fuel) (c ∷ text) s =
        if c == b'%'
        then percent (printf_loop fuel) text s
        else run_printed write (printf_loop fuel text) s (byte_printed c)

    -- The buffer `in` has the first `strnlen(format, 65536)` bytes. The answer `some n` is the `int` with the bits of `n`.
    unfoldable pub printf_internal : List ℕ → Buffer → Answer
    unfolding printf_loop variadic_args_init
    printf_internal format b =
        let text = capped format in
        printf_loop (length text + 1) text
          (record { args = variadic_args_init; result = 0; buffer = b; stored = [] })

-- `wlibc_vsnprintf` with a format and a buffer that are not NULL: the answer and the array behind the call.
-- `none` in front of the array is the -1 with EINVAL. The `int` that is compared has the low 32 bits
-- of `size`; a negative index of the array is undefined behaviour.
abbrev pub terminated : ℕ → Answer → Option (Option ℕ × List ℕ)
terminated size undefined = none
terminated size unfinished = none
terminated size (answered none s) = none
terminated size (answered (some n) s) =
    if leb (2 ^ 31) n
    then (if ltb size (2 ^ 31) then none else some (some n, s.buffer.bytes))
    else some
        (some n, if ltb size (2 ^ 31) && ltb n size then set s.buffer.bytes n 0 else s.buffer.bytes)

unfoldable pub vsnprintf :
    (Bool → ℕ → List ℕ)
    → (ℕ → ℕ → List ℕ)
    → (ℕ → Bool)
    → (ℕ → ℕ)
    → List ℕ
    → ℕ
    → List ℕ
    → Option (Option ℕ × List ℕ)
unfolding printf_internal
vsnprintf float_hex text_at alloc source bytes size format =
    if size == 0
    then some (none, bytes)
    else terminated (u32 size) (
        printf_internal none float_hex text_at alloc source format
          (record { bytes = bytes; pos = 0; size = size; error = false }))
