-- ===== src/Printf.antt =====
-- The formatted output of src/stdio/printf.c: what a conversion specification says, and what the
-- functions do to the buffer that they print to. A printer is the list of its calls on the buffer,
-- in order, with the `uint32_t` that it returns: it never looks at what the writers return.
-- Pad has the numbers, Spec the conversion specifications, Print the other conversions, Format the
-- loop over the format, and Callers the functions that hand the buffer on.
pub mod Callers
pub mod Format
pub mod Pad
pub mod Print
pub mod Spec
use windows_libc.Common.{
  ℕ, zero, suc, ◌+◌, ◌*◌, ◌^◌, Bool, true, false, not, ◌&&◌, ◌||◌, Option, none, some, List, [],
  ◌∷◌, ◌++◌, ltb, leb, ◌==◌, if◌then◌else◌, length, u32,
}
use windows_libc.Buffer.{Buffer, Writer, writebyte, writen}

-- The bits of the field `flags`, from PRINT_ALTERNATE_FORM to PRINT_PRECISION.
pub record PrintFlags : Type 0 where
  pub alternate : Bool
  pub zero_padded : Bool
  pub empty_space : Bool
  pub left_justify : Bool
  pub force_sign : Bool
  pub upper_case : Bool
  pub group : Bool
  pub precise : Bool

pub data PrintModifier : Type 0 where
  mod_none mod_short_short mod_short mod_long mod_long_long : PrintModifier
  mod_max mod_size mod_ptrdiff mod_long_double : PrintModifier

pub data PrintType : Type 0 where
  int_number uint_number uint_binary uint_octal uint_hex : PrintType
  double_normal double_hex double_scientific double_scientific_short : PrintType
  print_char print_string print_pointer print_result print_unknown : PrintType

-- The argument `datum` is the word of 64 bits that was passed for the conversion; 0 is NULL.
pub record PrintConfig : Type 0 where
  pub type : PrintType
  pub modifier : PrintModifier
  pub flags : PrintFlags
  pub width : ℕ
  pub precision : ℕ
  pub result : ℕ
  pub datum : ℕ

-- What a printer does: `writebyte`, `writen`, or the store of `%n` to an address, of so many bits.
pub data Effect : Type 0 where
  write_byte : ℕ → Effect
  write_n : List ℕ → Effect
  store : ℕ → ℕ → ℕ → Effect

pub record Printed : Type 0 where
  pub effects : List Effect
  pub count : ℕ

-- The bytes that are handed to the buffer.
unfoldable pub bytes_of : List Effect → List ℕ
bytes_of [] = []
bytes_of (write_byte c ∷ es) = c ∷ bytes_of es
bytes_of (write_n cs ∷ es) = cs ++ bytes_of es
bytes_of (store a bits v ∷ es) = bytes_of es

-- The calls on a buffer, one after the other. `none`: the callback of the buffer does not return.
abbrev pub next_call : (Buffer → Option Buffer) → Option (ℕ × Buffer) → Option Buffer
next_call go none = none
next_call go (some (n, b)) = go b

unfoldable pub perform : Option Writer → List Effect → Buffer → Option Buffer
perform write [] b = some b
perform write (write_byte c ∷ es) b = next_call (perform write es) (writebyte write b c)
perform write (write_n cs ∷ es) b = next_call (perform write es) (writen write b cs)
perform write (store a bits v ∷ es) b = perform write es b
