-- ===== src/Tests/Output.antt =====
-- The functions of src/stdio/printf.c that hand their output on, at concrete inputs.
use windows_libc.Common.{
  ℕ, ◌+◌, ◌≡◌, refl, inl, inr, Bool, false, not, none, some, List, [], ◌∷◌, ◌++◌, arith, ◌==◌,
  length, u32,
}
use windows_libc.Buffer.{memory_buffer_write, writebyte, grow, resize}
use windows_libc.Buffer.Write.{IsValid, content}
use windows_libc.Printf.{perform}
use windows_libc.Printf.Format.{PrintState, Answer, answered, undefined, unfinished}
use windows_libc.Printf.Format.Counts.{printf_internal_counted}
use windows_libc.Printf.Callers.{print_out, vfprintf}
use windows_libc.Printf.Callers.Output.{vfprintf-Took, vfprintf_nothing}
use windows_libc.Stdio.{Stream}
use windows_libc.Stdio.Read.Ahead.{HasWindow}
use windows_libc.Stdio.Write.Loops.{output}
use windows_libc.Tests.Streams.{
  Disk, disk, disk-Writes, written_to, written_to-HasWindow, no_error, low_start,
}
use windows_libc.Varargs.{variadic_args_init}

abbrev given : ℕ → Bool
given n = not (n == 0)

abbrev no_float : Bool → ℕ → List ℕ
no_float upper v = []

abbrev no_text : ℕ → ℕ → List ℕ
no_text size address = []

abbrev numbers : ℕ → ℕ
numbers n = n + 40

abbrev start : PrintState
start = record {
  args = variadic_args_init;
  result = 0;
  buffer = record { bytes = []; pos = 0; size = 0; error = false };
  stored = [];
}

abbrev state_of : Answer → PrintState
state_of (answered r t) = t
state_of undefined = start
state_of unfinished = start

abbrev hi : List ℕ
hi = b'h' ∷ b'i' ∷ []

abbrev said : PrintState
said = state_of (print_out given no_float no_text numbers hi)

printed_text :
    (print_out given no_float no_text numbers hi ≡ answered (some 2) said)
    × (said.buffer.error ≡ false)
    × (said.buffer.pos ≡ 2)
    × (content said.buffer ≡ hi)
unfolding print_out perform writebyte memory_buffer_write grow resize
printed_text = (refl, refl, refl, refl)

printf_internal_counted_example : IsValid said.buffer × (2 ≡ u32 (length (content said.buffer)))
printf_internal_counted_example =
    printf_internal_counted given refl no_float no_text numbers hi 2 said
      (unfold print_out in printed_text.0) printed_text.1 (omega (arith, printed_text.2))

vfprintf-Took_example :
    (s' : Stream Disk) × (vfprintf given no_float no_text numbers disk none false written_to hi
      ≡ some (some 2, s'))
    × HasWindow s'
    × (output (λ (d : Disk). d.written) s'
        ≡ output (λ (d : Disk). d.written) written_to ++ content said.buffer)
    × (2 ≡ u32 (length (content said.buffer)))
unfolding print_out perform writebyte memory_buffer_write grow resize
vfprintf-Took_example =
    vfprintf-Took given no_float no_text numbers disk none false hi written_to refl
      (λ (d : Disk). d.written) disk-Writes 2 said printed_text.0 printed_text.1
      (omega (arith, printed_text.2)) (omega (arith, printed_text.2)) written_to-HasWindow no_error
      refl refl refl (λ on. inr (inl refl)) (low_start (length (content said.buffer)) (omega arith))

silent : (print_out given no_float no_text numbers [] ≡ answered (some 0) start)
unfolding print_out
silent = refl

empty_format_fails :
    (s' : Stream Disk) × (vfprintf given no_float no_text numbers disk none false written_to []
      ≡ some (none, s'))
    × (s'.device ≡ written_to.device)
    × (s'.buffer ≡ written_to.buffer)
empty_format_fails =
    vfprintf_nothing given no_float no_text numbers disk none false [] written_to (some 0) start
      silent refl
