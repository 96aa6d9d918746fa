-- ===== src/Getopt/Options.antt =====
-- Long options with a value in whole calls of `wlibc_common_getopt`.
use windows_libc.Common.{
  ℕ, ◌+◌, ◌<◌, ◌≡◌, refl, ap, ◌∙◌, ◌⊎◌, inl, inr, Bool, true, false, none, some, List, [], ◌∷◌,
  ◌++◌, arith, leb, ◌==◌, if◌then◌else◌, length, get_elem?, get_or,
}
use windows_libc.Common.Int.{ℤ}
use windows_libc.Getopt.{
  LongOption, HasArg, required_argument, optional_argument, Getopt, char_at, dash,
}
use windows_libc.Getopt.Long.{
  option_name, option_value, find_long, parameter, return_val, required_done, take_long, found_long,
}
use windows_libc.Getopt.Short.{strchr}
use windows_libc.Getopt.Scan.{getopt}
use windows_libc.Getopt.Calls.{option_name_of, option_value_of, getopt_long}

-- A state between two arguments, the next one a long option with `text` behind its dashes.
pub record IsAtLong (text : List ℕ) (s : Getopt) : Type 0 where
  pub known : s.initialized ≡ true
  pub on : 0 < s.optind
  pub new : s.index ≡ 0
  pub below : s.optind < length s.argv
  pub here : get_or s.argv s.optind [] ≡ dash ∷ (dash ∷ text)
  pub filled : (char_at text 0 == 0) ≡ false

module _ (optstring : List ℕ) (os : List LongOption) (with_index posix : Bool) where
  pub found_at :
      (text : List ℕ) (s : Getopt)
      → IsAtLong text s
      → (result : ℤ) (s' : Getopt)
      → found_long with_index text
          (find_long (option_name text) 0 os)
          (record s { processing_long = true; processing_short = false; index = 2 })
        ≡ (result, s')
      → getopt (some optstring) (some os) with_index posix s ≡ some (result, s')
  found_at text s a result s' found =
      getopt_long optstring os with_index posix s text a.new a.here a.below a.filled result s'
        a.known a.on found

  attached :
      (text value : List ℕ) (o : LongOption) (h : HasArg) (s : Getopt)
      → (h ≡ required_argument) ⊎ (h ≡ optional_argument)
      → o.flag ≡ none
      → take_long text o h (some value) s ≡ (o.val, record s { optarg = some value })
  unfolding take_long return_val
  attached text value o h s (inl must) plain = rw (must, plain, return_val) refl
  attached text value o h s (inr may) plain = rw (may, plain, return_val) refl

  -- A call between two arguments after the first call, with options, at an argument `--name=value`
  -- that has a name without `=` and without an early 0, where the first option of that name takes a
  -- value and has no flag: it returns the option's `val`, with the value as `optarg`, the place of
  -- the option where it is asked for, and the next argument to come; the arguments stay.
  pub getopt-LongValue :
      (name value : List ℕ) (j : ℕ) (o : LongOption) (s : Getopt)
      → IsAtLong (name ++ 61 ∷ value) s
      → strchr name 61 ≡ none
      → find_long name 0 os ≡ some (j, o)
      → (o.has_arg ≡ required_argument) ⊎ (o.has_arg ≡ optional_argument)
      → o.flag ≡ none
      → (s' : Getopt) × (getopt (some optstring) (some os) with_index posix s ≡ some (o.val, s'))
        × (s'.optarg ≡ some value)
        × (s'.optind ≡ s.optind + 1)
        × (s'.index ≡ 0)
        × (s'.longindex ≡ (if with_index then some j else s.longindex))
        × (s'.argv ≡ s.argv)
  unfolding found_long
  getopt-LongValue name value j o s a plain known takes no_flag =
      let text = name ++ 61 ∷ value in
      let s0 = record s { processing_long = true; processing_short = false; index = 2 } in
      let s1 = record s {
        processing_long = true;
        processing_short = false;
        longindex = if with_index then some j else s.longindex;
        index = 0;
        optind = s.optind + 1;
      } in
      (
        record s1 { optarg = some value },
        found_at text s a o.val (record s1 { optarg = some value })
            (ap (λ n. found_long with_index text (find_long n 0 os) s0)
                (option_name_of name value plain)
              ∙ ap (λ f. found_long with_index text f s0) known
              ∙ ap (λ v. take_long text o o.has_arg v s1) (option_value_of name value plain)
              ∙ attached text value o o.has_arg s1 takes no_flag),
        refl,
        refl,
        refl,
        refl,
        refl,
      )

  take_long-separate :
      (text value : List ℕ) (o : LongOption) (h : HasArg) (s : Getopt)
      → h ≡ required_argument
      → o.flag ≡ none
      → parameter s ≡ some value
      → take_long text o h none s ≡ (o.val, record s { optarg = some value; optind = s.optind + 1 })
  unfolding take_long required_done return_val
  take_long-separate text value o h s takes plain next = rw (takes, next, plain) refl

  -- A call at `--name` and an argument `value` behind it, which is in front of the arguments that were moved
  -- and starts with no dash, with a first option of that name that must have a value and has no flag: it
  -- returns the same as for `--name=value`, and goes on behind the value.
  pub getopt-LongNext :
      (name value : List ℕ) (j : ℕ) (o : LongOption) (s : Getopt)
      → IsAtLong name s
      → option_value name ≡ none
      → option_name name ≡ name
      → find_long name 0 os ≡ some (j, o)
      → o.has_arg ≡ required_argument
      → o.flag ≡ none
      → get_elem? s.argv (s.optind + 1) ≡ some value
      → s.optind + 1 < s.exchange
      → (char_at value 0 == dash) ≡ false
      → (s' : Getopt) × (getopt (some optstring) (some os) with_index posix s ≡ some (o.val, s'))
        × (s'.optarg ≡ some value)
        × (s'.optind ≡ s.optind + 2)
        × (s'.argv ≡ s.argv)
  unfolding found_long parameter
  getopt-LongNext name value j o s a plain whole known takes no_flag next free no_dash =
      let s0 = record s { processing_long = true; processing_short = false; index = 2 } in
      let s1 = record s {
        processing_long = true;
        processing_short = false;
        longindex = if with_index then some j else s.longindex;
        index = 0;
        optind = s.optind + 1;
      } in
      let s2 = record s1 { optarg = some value; optind = s.optind + 1 + 1 } in
      let test : leb s.exchange (s.optind + 1) ≡ false = ground arith in
      let there : parameter s1 ≡ some value = rw (next, test, no_dash, parameter) refl in
      (
        s2,
        found_at name s a o.val s2 (
            ap (λ n. found_long with_index name (find_long n 0 os) s0) whole
            ∙ ap (λ f. found_long with_index name f s0) known
            ∙ ap (λ v. take_long name o o.has_arg v s1) plain
            ∙ take_long-separate name value o o.has_arg s1 takes no_flag there),
        refl,
        omega arith,
        refl,
      )
