-- ===== src/Tests/Arguments.antt =====
-- The parser of options at small command lines.
use windows_libc.Common.{
  ℕ, ◌<◌, ◌≤◌, ◌≡◌, refl, ◌⊎◌, inl, true, false, none, some, List, [], ◌∷◌, arith, length,
}
use windows_libc.Common.Errno.{Errno}
use windows_libc.Common.Int.{ℤ, pos, negsuc}
use windows_libc.Getopt.{LongOption, required_argument, Getopt}
use windows_libc.Getopt.Long.{find_long, same_string}
use windows_libc.Getopt.Short.{strchr}
use windows_libc.Getopt.Scan.{any_option, getopt}
use windows_libc.Getopt.Scan.Order.{leading, move_front}
use windows_libc.Getopt.Scan.Rounds.{IsConsistent}
use windows_libc.Getopt.Calls.{getopt-Returns}
use windows_libc.Getopt.Lookup.{HasNone, IsFirstNamed, getopt_by_name}
use windows_libc.Getopt.Options.{IsAtLong, getopt-LongValue}

-- The strings `x`, `y`, `-a`, `--n=v`, `--n` and `--m`, then the option string `a`.
abbrev word_x : List ℕ
word_x = 120 ∷ []

abbrev word_y : List ℕ
word_y = 121 ∷ []

abbrev dash_a : List ℕ
dash_a = 45 ∷ 97 ∷ []

abbrev long_value : List ℕ
long_value = 45 ∷ 45 ∷ 110 ∷ 61 ∷ 118 ∷ []

abbrev long_name : List ℕ
long_name = 45 ∷ 45 ∷ 110 ∷ []

abbrev long_other : List ℕ
long_other = 45 ∷ 45 ∷ 109 ∷ []

abbrev options : List ℕ
options = 97 ∷ []

-- The option `n`, which must have a value.
abbrev option_n : LongOption
option_n = record { name = 110 ∷ []; has_arg = required_argument; flag = none; val = pos 5 }

-- The state at the first argument behind the program's name.
abbrev state : List (List ℕ) → Getopt
state argv = record {
  argv = argv;
  optarg = none;
  optind = 1;
  opterr = true;
  optopt = pos 63;
  index = 0;
  exchange = length argv;
  error_return = 63;
  processing_short = false;
  processing_long = false;
  stop_at_first_nonoption = false;
  assign_nonoption_to_one = false;
  skip_first_char_option = false;
  initialized = true;
  longindex = none;
  flags = [];
  messages = [];
  errno = Errno.eperm;
}

getopt-Returns_example :
    (result : ℤ) × (s' : Getopt) × (moved : ℕ) × (getopt
        (some options)
        none
        false
        false
        (state (word_x ∷ word_x ∷ word_y ∷ dash_a ∷ []))
      ≡ some (result, s'))
    × (s'.argv ≡ move_front 1 moved (word_x ∷ word_x ∷ word_y ∷ dash_a ∷ []))
    × (moved ≤ leading (word_x ∷ word_y ∷ dash_a ∷ []))
    × ((any_option (word_x ∷ word_y ∷ dash_a ∷ []) ≡ true) ⊎ (moved ≡ 0))
    × IsConsistent s'
getopt-Returns_example =
    getopt-Returns options none false false (state (word_x ∷ word_x ∷ word_y ∷ dash_a ∷ []))
      (inl refl)

at_value : IsAtLong (110 ∷ 61 ∷ 118 ∷ []) (state (word_x ∷ long_value ∷ []))
at_value = record {
  known = refl;
  on = omega arith;
  new = refl;
  below = omega arith;
  here = refl;
  filled = refl;
}

getopt-LongValue_example :
    (s' : Getopt) × (getopt
        (some options)
        (some (option_n ∷ []))
        true
        false
        (state (word_x ∷ long_value ∷ []))
      ≡ some (pos 5, s'))
    × (s'.optarg ≡ some (118 ∷ []))
    × (s'.optind ≡ 2)
    × (s'.index ≡ 0)
    × (s'.longindex ≡ some 0)
    × (s'.argv ≡ word_x ∷ long_value ∷ [])
unfolding strchr find_long same_string
getopt-LongValue_example =
    getopt-LongValue options (option_n ∷ []) true false (110 ∷ []) (118 ∷ []) 0 option_n
      (state (word_x ∷ long_value ∷ [])) at_value refl refl (inl refl) refl

at_other : IsAtLong (109 ∷ []) (state (word_x ∷ long_other ∷ dash_a ∷ []))
at_other = record {
  known = refl;
  on = omega arith;
  new = refl;
  below = omega arith;
  here = refl;
  filled = refl;
}

getopt_by_name_example :
    ((j : ℕ) × (o : LongOption) × IsFirstNamed (109 ∷ []) (option_n ∷ []) j o
      × (result : ℤ) × (s' : Getopt) × (getopt
            (some options)
            (some (option_n ∷ []))
            true
            false
            (state (word_x ∷ long_other ∷ dash_a ∷ []))
          ≡ some (result, s'))
      × (1 < s'.optind)
      × (s'.longindex ≡ some j)
      × (s'.argv ≡ word_x ∷ long_other ∷ dash_a ∷ []))
    ⊎ (HasNone (109 ∷ []) (option_n ∷ [])
        × (s' : Getopt) × (getopt
              (some options)
              (some (option_n ∷ []))
              true
              false
              (state (word_x ∷ long_other ∷ dash_a ∷ []))
            ≡ some (negsuc 0, s'))
        × (s'.optind ≡ 1)
        × (s'.argv ≡ word_x ∷ long_other ∷ dash_a ∷ []))
unfolding strchr
getopt_by_name_example =
    getopt_by_name options (option_n ∷ []) true false (109 ∷ []) none
      (state (word_x ∷ long_other ∷ dash_a ∷ [])) at_other refl
