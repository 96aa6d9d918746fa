-- ===== src/Getopt.antt =====
-- `wlibc_common_getopt` (src/getopt/getopt.c): its globals and static variables, and the options. A string
-- is the list of its bytes without the 0, `argc` is the length of `argv`, and `none` is a null pointer.
-- What it prints is a list of messages, and the writes through the `flag` of an option a list of
-- assignments, the last one first.
pub mod Long
pub mod Short
pub mod Scan
pub mod Calls
pub mod Options
pub mod Lookup
use windows_libc.Common.{
  ℕ, zero, suc, ◌+◌, ◌-◌, ◌*◌, ◌/◌, ◌%◌, ◌^◌, ◌≤◌, ◌<◌, min, max, bit_and, bit_or, bit_xor, ◌≡◌,
  refl, sym, ap, ◌∙◌, ◌≢◌, ◌↔◌, ◌⊎◌, inl, inr, Bool, true, false, ◌&&◌, ◌||◌, not, Option, none,
  some, List, [], ◌∷◌, ◌++◌, map, append-nil, append_assoc, reverse, reverse_snoc, length-reverse,
  arith, ltb, leb, ◌==◌, if◌then◌else◌, Bool-cases, Option-cases, List-cases, length, get_elem?,
  set, get_or, take, drop, replicate, length-append, length-set, length-take, length-drop,
  length-replicate, take-append, drop-append, take-take-append, take-set, drop-cons, drop-nil,
  get_elem?-set_self, get_elem?-set_ne, ==_iff, &&_true, ltb→lt, lt→ltb, leb→le, u8, u16, u32, u64,
}
use windows_libc.Common.Errno.{Errno}
use windows_libc.Common.Int.{ℤ, pos}

-- The `int` that says how an option takes a value; `other_argument` is any number but 0, 1 and 2.
pub data HasArg : Type 0 where
  no_argument required_argument optional_argument other_argument : HasArg

-- `struct option`; a `flag` is named by a number.
pub record LongOption : Type 0 where
  pub name : List ℕ
  pub has_arg : HasArg
  pub flag : Option ℕ
  pub val : ℤ

pub data Message : Type 0 where
  no_parameter needs_parameter unrecognized_long : List ℕ → Message
  requires_argument unrecognized_short : ℕ → Message

-- `exchange` starts at `argc`, and the move of an argument to the end takes one off.
pub record Getopt : Type 0 where
  pub argv : List (List ℕ)
  pub optarg : Option (List ℕ)
  pub optind : ℕ
  pub opterr : Bool
  pub optopt : ℤ
  pub index : ℕ
  pub exchange : ℕ
  pub error_return : ℕ
  pub processing_short : Bool
  pub processing_long : Bool
  pub stop_at_first_nonoption : Bool
  pub assign_nonoption_to_one : Bool
  pub skip_first_char_option : Bool
  pub initialized : Bool
  pub longindex : Option ℕ
  pub flags : List (ℕ × ℤ)
  pub messages : List Message
  pub errno : Errno

-- A byte of a string, 0 behind its end.
abbrev pub char_at : List ℕ → ℕ → ℕ
char_at string i = get_or string i 0

-- The printing of an error.
unfoldable pub report : Message → Getopt → Getopt
report message s = if s.opterr then record s { messages = message ∷ s.messages } else s

abbrev pub dash : ℕ
dash = 45

-- An argument that starts with a dash and goes on.
unfoldable pub is_option : List ℕ → Bool
is_option argument = (char_at argument 0 == dash) && not (char_at argument 1 == 0)
