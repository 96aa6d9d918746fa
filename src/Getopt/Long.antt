-- ===== src/Getopt/Long.antt =====
-- The long options of `wlibc_common_getopt` (src/getopt/getopt.c).
use windows_libc.Common.{
  ℕ, suc, ◌+◌, Bool, true, false, ◌&&◌, ◌||◌, Option, none, some, List, [], ◌∷◌, leb, ◌==◌,
  if◌then◌else◌, get_elem?, drop,
}
use windows_libc.Common.Int.{ℤ, pos, negsuc}
use windows_libc.Getopt.{
  HasArg, no_argument, required_argument, optional_argument, other_argument, LongOption,
  no_parameter, needs_parameter, unrecognized_long, Getopt, char_at, report, dash,
}

-- The name in front of `=`, and the value behind it.
unfoldable pub option_name : List ℕ → List ℕ
option_name [] = []
option_name (c ∷ cs) = if c == 61 then [] else c ∷ option_name cs

unfoldable pub option_value : List ℕ → Option (List ℕ)
option_value [] = none
option_value (c ∷ cs) = if c == 61 then some cs else option_value cs

-- Equality of strings.
unfoldable pub same_string : List ℕ → List ℕ → Bool
same_string [] [] = true
same_string [] (y ∷ ys) = false
same_string (x ∷ xs) [] = false
same_string (x ∷ xs) (y ∷ ys) = (x == y) && same_string xs ys

-- The first option of a name, with its place; `j` is the place of the first one of the list.
unfoldable pub find_long : List ℕ → ℕ → List LongOption → Option (ℕ × LongOption)
find_long name j [] = none
find_long name j (o ∷ os) =
    if same_string name o.name then some (j, o) else find_long name (suc j) os

-- The next argument, where an option may take it.
unfoldable pub parameter : Getopt → Option (List ℕ)
parameter s = elim (get_elem? s.argv s.optind) [
  | none ↦ none
  | some argument ↦
      if leb s.exchange s.optind || (char_at argument 0 == dash) then none else some argument
]

-- The end of an option that was found.
unfoldable pub return_val : LongOption → Getopt → ℤ × Getopt
return_val o s = elim o.flag [
  | none ↦ (o.val, s)
  | some place ↦ (pos 0, record s { flags = (place, o.val) ∷ s.flags })
]

-- An option whose parameter must be there, and one whose parameter may be missing.
unfoldable pub required_done : List ℕ → LongOption → Option (List ℕ) → Getopt → ℤ × Getopt
required_done text o none s = (pos s.error_return, report (needs_parameter text) s)
required_done text o (some argument) s =
    return_val o (record s { optarg = some argument; optind = s.optind + 1 })

unfoldable pub optional_done : LongOption → Option (List ℕ) → Getopt → ℤ × Getopt
optional_done o none s = return_val o (record s { optarg = none })
optional_done o (some argument) s =
    return_val o (record s { optarg = some argument; optind = s.optind + 1 })

-- The parameter of an option by its kind; `text` is the argument behind its dashes, `value` what stands
-- behind its `=`, and `s` the state behind the argument.
unfoldable pub take_long : List ℕ → LongOption → HasArg → Option (List ℕ) → Getopt → ℤ × Getopt
take_long text o no_argument none s = return_val o (record s { optarg = none })
take_long text o no_argument (some value) s = (pos s.error_return, report (no_parameter text) s)
take_long text o required_argument none s = required_done text o (parameter s) s
take_long text o required_argument (some value) s = return_val o (record s { optarg = some value })
take_long text o optional_argument none s = optional_done o (parameter s) s
take_long text o optional_argument (some value) s = return_val o (record s { optarg = some value })
take_long text o other_argument value s = return_val o s

-- The search for the option; `s` is the state at the argument.
unfoldable pub found_long : Bool → List ℕ → Option (ℕ × LongOption) → Getopt → ℤ × Getopt
found_long with_index text none s = (negsuc 0, report (unrecognized_long text) s)
found_long with_index text (some (j, o)) s =
    take_long text o o.has_arg (option_value text) (record s {
      longindex = if with_index then some j else s.longindex;
      index = 0;
      optind = s.optind + 1;
    })

-- `with_index` says whether the caller wants the place of the option.
unfoldable pub long_option : Option (List LongOption) → Bool → List ℕ → Getopt → ℤ × Getopt
long_option none with_index argument s =
    (pos s.error_return, record s { index = 0; optind = s.optind + 1 })
long_option (some longopts) with_index argument s =
    let text = drop s.index argument in
    found_long with_index text (find_long (option_name text) 0 longopts) s
