-- ===== src/Getopt/Scan.antt =====
-- `wlibc_common_getopt` (src/getopt/getopt.c): the loop over the arguments, which moves those that are no
-- options to the end. `none` is a loop that ran out of fuel.
pub mod Kept
pub mod Order
pub mod Rounds
pub mod Returns
use windows_libc.Common.{
  ℕ, zero, suc, ◌+◌, ◌-◌, ◌*◌, ◌/◌, ◌%◌, ◌^◌, ◌≤◌, ◌<◌, min, max, bit_and, bit_or, bit_xor, ◌≡◌,
  refl, sym, ap, ◌∙◌, ◌≢◌, ◌↔◌, ◌⊎◌, inl, inr, Bool, true, false, ◌&&◌, ◌||◌, not, Option, none,
  some, List, [], ◌∷◌, ◌++◌, map, append-nil, append_assoc, reverse, reverse_snoc, length-reverse,
  arith, ltb, leb, ◌==◌, if◌then◌else◌, Bool-cases, Option-cases, List-cases, length, get_elem?,
  set, get_or, take, drop, replicate, length-append, length-set, length-take, length-drop,
  length-replicate, take-append, drop-append, take-take-append, take-set, drop-cons, drop-nil,
  get_elem?-set_self, get_elem?-set_ne, ==_iff, &&_true, ltb→lt, lt→ltb, leb→le, u8, u16, u32, u64,
}
use windows_libc.Common.Errno.{Errno}
use windows_libc.Common.Int.{ℤ, pos, negsuc}
use windows_libc.Getopt.{LongOption, Getopt, char_at, dash, is_option}
use windows_libc.Getopt.Long.{long_option}
use windows_libc.Getopt.Short.{short_option}

-- The start, and a restart with `optind` 0; `posix` is whether `POSIXLY_CORRECT` is set.
unfoldable pub restart : Getopt → Getopt
restart s =
    if s.optind == 0
    then record s {
      index = 0;
      optind = 1;
      processing_short = false;
      processing_long = false;
      stop_at_first_nonoption = false;
      assign_nonoption_to_one = false;
      skip_first_char_option = false;
      initialized = false;
    }
    else s

unfoldable pub initialize : List ℕ → Bool → Getopt → Getopt
initialize optstring posix s =
    let c = char_at optstring 0 in
    if s.initialized then s else record s {
      stop_at_first_nonoption = if (c == 43) || posix then true else s.stop_at_first_nonoption;
      assign_nonoption_to_one = if c == dash then true else s.assign_nonoption_to_one;
      skip_first_char_option =
          if (c == 43) || ((c == dash) || (c == 58)) then true else s.skip_first_char_option;
      error_return = if c == 58 then 58 else 63;
      exchange = length s.argv;
      initialized = true;
    }

-- The kind of a new argument; `true` is the end of the options.
unfoldable pub classify : List ℕ → Getopt → Bool × Getopt
classify argument s =
    let fresh = record s { processing_long = false; processing_short = false } in
    if not (s.index == 0)
    then (false, s)
    else if (char_at argument 0 == dash) && (char_at argument 1 == dash)
    then (if char_at argument 2 == 0
        then (true, record fresh { optind = s.optind + 1 })
        else (false, record fresh { index = 2; processing_long = true }))
    else if is_option argument
    then (false, record fresh { index = 1; processing_short = true })
    else (false, fresh)

unfoldable pub any_option : List (List ℕ) → Bool
any_option [] = false
any_option (argument ∷ rest) = is_option argument || any_option rest

-- The argument at `i` moves to the end.
unfoldable pub rotate : ℕ → List (List ℕ) → List (List ℕ)
rotate i argv = take i argv ++ (drop (i + 1) argv ++ (get_or argv i [] ∷ []))

-- A round of the loop returns, or goes on at an argument.
pub data Step : Type 0 where
  returns : ℤ → Getopt → Step
  go_on : ℕ → Getopt → Step

-- An argument that is no option; the moved argument makes place for the next one.
unfoldable pub skip_nonoption : ℕ → List ℕ → Getopt → Step
skip_nonoption i argument s =
    if s.stop_at_first_nonoption
    then returns (negsuc 0) s
    else if s.assign_nonoption_to_one
    then returns (pos 1) (record s { optarg = some argument; optind = s.optind + 1 })
    else if any_option (drop (i + 1) s.argv)
    then go_on i (record s { argv = rotate i s.argv; exchange = s.exchange - 1 })
    else go_on (suc i) s

abbrev pub return_pair : ℤ × Getopt → Step
return_pair (result, s) = returns result s

module _ (optstring : List ℕ) (longopts : Option (List LongOption)) (with_index : Bool) where
  -- The round behind the test of the kind.
  unfoldable pub on_kind : ℕ → List ℕ → Bool × Getopt → Step
  on_kind i argument (true, s) = returns (negsuc 0) s
  on_kind i argument (false, s) =
      if s.processing_long
      then return_pair (long_option longopts with_index argument s)
      else if s.processing_short
      then return_pair (short_option optstring argument s)
      else skip_nonoption i argument s

  unfoldable pub round : ℕ → Getopt → Step
  round i s =
      let argument = get_or s.argv i [] in
      if ltb i (length s.argv)
      then on_kind i argument (classify argument s)
      else returns (negsuc 0) s

  -- The loop from the argument at `i` on.
  unfoldable pub scan : ℕ → ℕ → Getopt → Option (ℤ × Getopt)
  scan zero i s = none
  scan (suc fuel) i s = elim (round i s) [
    | returns result s' ↦ some (result, s')
    | go_on j s' ↦ scan fuel j s'
  ]

-- `none` for `optstring` is a null pointer.
unfoldable pub getopt :
    Option (List ℕ) → Option (List LongOption) → Bool → Bool → Getopt → Option (ℤ × Getopt)
unfolding restart initialize
getopt none longopts with_index posix s = some (negsuc 0, record s { errno = Errno.einval })
getopt (some optstring) longopts with_index posix s =
    let s1 = initialize optstring posix (restart s) in
    let rest = scan optstring longopts with_index (suc (length s1.argv)) s1.optind s1 in
    if s1.optind == length s1.argv then some (negsuc 0, record s1 { index = 0 }) else rest
