-- ===== src/Getopt/Lookup.antt =====
-- Long options by their names in whole calls of `wlibc_common_getopt`.
use windows_libc.Common.{
  ℕ, zero, suc, ◌+◌, ◌≤◌, ◌<◌, ◌≡◌, refl, sym, ap, ◌∙◌, ◌≢◌, ◌⊎◌, inl, inr, Bool, true, false,
  Option, none, some, List, [], ◌∷◌, ◌++◌, arith, ◌==◌, if◌then◌else◌, Bool-cases, get_elem?,
  &&_true, Option-cases,
}
use windows_libc.Common.Int.{ℤ, negsuc}
use windows_libc.Getopt.{
  LongOption, HasArg, no_argument, required_argument, optional_argument, other_argument, Getopt,
  Message, report, no_parameter, needs_parameter, unrecognized_long,
}
use windows_libc.Getopt.Long.{
  option_name, option_value, same_string, find_long, parameter, return_val, required_done,
  optional_done, take_long, found_long,
}
use windows_libc.Getopt.Short.{strchr}
use windows_libc.Getopt.Scan.{getopt}
use windows_libc.Getopt.Calls.{option_name_of}
use windows_libc.Getopt.Options.{IsAtLong, found_at}

-- `name`, or `name=value`.
abbrev pub with_value : List ℕ → Option (List ℕ) → List ℕ
with_value name none = name
with_value name (some value) = name ++ 61 ∷ value

some_not_none {ℓ} : {A : Type ℓ} {a : A} → some a ≢ none
some_not_none e = cc

option_name_alone : (name : List ℕ) → strchr name 61 ≡ none → option_name name ≡ name
unfolding option_name strchr
option_name_alone [] no_equal = refl
option_name_alone (c ∷ cs) no_equal = elim (Bool-cases (c == 61)) [
  | inl equal ↦ absurd (some_not_none (simp equal at no_equal))
  | inr other ↦ simp other (ap (λ ys. c ∷ ys) (option_name_alone cs (simp other at no_equal)))
]

name_of :
    (name : List ℕ) (value : Option (List ℕ))
    → strchr name 61 ≡ none
    → option_name (with_value name value) ≡ name
name_of name none plain = option_name_alone name plain
name_of name (some value) plain = option_name_of name value plain

same_string_sound : (xs ys : List ℕ) → same_string xs ys ≡ true → xs ≡ ys
unfolding same_string
same_string_sound [] [] e = refl
same_string_sound [] (y ∷ ys) e = absurd (cc)
same_string_sound (x ∷ xs) [] e = absurd (cc)
same_string_sound (x ∷ xs) (y ∷ ys) e =
    let (head, tail) = &&_true _ _ e in
    let first : x ≡ y = ground arith in rw (first, same_string_sound xs ys tail) refl

same_string_self : (xs : List ℕ) → same_string xs xs ≡ true
unfolding same_string
same_string_self [] = refl
same_string_self (x ∷ xs) =
    let first : (x == x) ≡ true = ground arith in simp (first, same_string_self xs) refl

-- No option of the list has the name.
abbrev pub HasNone : List ℕ → List LongOption → Type 0
HasNone name os = (i : ℕ) (p : LongOption) → get_elem? os i ≡ some p → p.name ≢ name

-- The first option of the list that has the name.
pub record IsFirstNamed (name : List ℕ) (os : List LongOption) (j : ℕ) (o : LongOption)
    : Type 0 where
  pub there : get_elem? os j ≡ some o
  pub named : o.name ≡ name
  pub lower : (i : ℕ) (p : LongOption) → i < j → get_elem? os i ≡ some p → p.name ≢ name

head_name :
    (o p : LongOption) (os : List LongOption) → get_elem? (o ∷ os) 0 ≡ some p → o.name ≡ p.name
head_name o p os e = ap (λ (x : Option LongOption). elim x [ none ↦ o.name | some q ↦ q.name ]) e

module _ (name : List ℕ) (o : LongOption) (os : List LongOption) (other : o.name ≢ name) where
  none_behind : HasNone name os → HasNone name (o ∷ os)
  none_behind rest zero p e = λ same. other (head_name o p os e ∙ same)
  none_behind rest (suc i) p e = rest i p e

  first_behind :
      (j : ℕ) (q : LongOption) → IsFirstNamed name os j q → IsFirstNamed name (o ∷ os) (suc j) q
  first_behind j q f = record { there = f.there; named = f.named; lower = before }
    where
      before : (i : ℕ) (p : LongOption) → i < suc j → get_elem? (o ∷ os) i ≡ some p → p.name ≢ name
      before zero p l e = λ same. other (head_name o p os e ∙ same)
      before (suc i) p l e = f.lower i p (omega arith) e

find_long_cases :
    (name : List ℕ) (k : ℕ) (os : List LongOption)
    → ((j : ℕ) × (o : LongOption) × (find_long name k os ≡ some (k + j, o))
        × IsFirstNamed name os j o)
      ⊎ ((find_long name k os ≡ none) × HasNone name os)
unfolding find_long
find_long_cases name k [] = inr (refl, λ i p e. absurd (cc))
find_long_cases name k (o ∷ os) = elim (Bool-cases (same_string name o.name)) [
  | inl same ↦
      let zero_more : k + 0 ≡ k = omega arith in
      inl (
        0,
        o,
        simp (same, zero_more) refl,
        record {
          there = refl;
          named = sym (same_string_sound name o.name same);
          lower = λ i p l e. absurd (omega arith);
        },
      )
  | inr differs ↦
      let other : o.name ≢ name = λ e.
        let off : same_string name name ≡ false = rw e at differs in
        let on = same_string_self name in absurd (cc) in
      elim (find_long_cases name (suc k) os) [
        | inl (j, q, found, first) ↦
            let next : suc k + j ≡ k + suc j = omega arith in
            inl (suc j, q, simp differs (rw next at found), first_behind name o os other j q first)
        | inr (missing, rest) ↦ inr (simp differs missing, none_behind name o os other rest)
      ]
]

-- The options go on behind the argument, and the place of the option and the arguments stay.
record GoesOn (s s' : Getopt) : Type 0 where
  forward : s.optind ≤ s'.optind
  place : s'.longindex ≡ s.longindex
  argv : s'.argv ≡ s.argv

goes_on :
    {s s' : Getopt}
    → s.optind ≤ s'.optind
    → s'.longindex ≡ s.longindex
    → s'.argv ≡ s.argv
    → GoesOn s s'
goes_on forward place argv = record { forward = forward; place = place; argv = argv }

same-GoesOn : (s : Getopt) → GoesOn s s
same-GoesOn s = goes_on (omega arith) refl refl

report-GoesOn : (m : Message) (s : Getopt) → GoesOn s (report m s)
unfolding report
report-GoesOn m s = elim (Bool-cases s.opterr) [
  | inl on ↦ simp on (goes_on (omega arith) refl refl)
  | inr off ↦ simp off (same-GoesOn s)
]

report_optind : (m : Message) (s : Getopt) → (report m s).optind ≡ s.optind
unfolding report
report_optind m s = elim (Bool-cases s.opterr) [ inl on ↦ simp on refl | inr off ↦ simp off refl ]

return_val-GoesOn : (o : LongOption) (s s' : Getopt) → GoesOn s s' → GoesOn s (return_val o s').1
unfolding return_val
return_val-GoesOn o s s' g = elim (Option-cases o.flag) [
  | inl absent ↦ rw (absent, return_val) g
  | inr (place, present) ↦ rw (present, return_val) (goes_on g.forward g.place g.argv)
]

required-GoesOn :
    (text : List ℕ) (o : LongOption) (p : Option (List ℕ)) (s : Getopt)
    → GoesOn s (required_done text o p s).1
unfolding required_done
required-GoesOn text o none s = report-GoesOn (needs_parameter text) s
required-GoesOn text o (some a) s = return_val-GoesOn o s _ (goes_on (omega arith) refl refl)

optional-GoesOn :
    (o : LongOption) (p : Option (List ℕ)) (s : Getopt) → GoesOn s (optional_done o p s).1
unfolding optional_done
optional-GoesOn o none s = return_val-GoesOn o s _ (goes_on (omega arith) refl refl)
optional-GoesOn o (some a) s = return_val-GoesOn o s _ (goes_on (omega arith) refl refl)

take_long-GoesOn :
    (text : List ℕ) (o : LongOption) (h : HasArg) (value : Option (List ℕ)) (s : Getopt)
    → GoesOn s (take_long text o h value s).1
unfolding take_long
take_long-GoesOn text o no_argument none s =
    return_val-GoesOn o s _ (goes_on (omega arith) refl refl)
take_long-GoesOn text o no_argument (some value) s = report-GoesOn (no_parameter text) s
take_long-GoesOn text o required_argument none s = required-GoesOn text o (parameter s) s
take_long-GoesOn text o required_argument (some value) s =
    return_val-GoesOn o s _ (goes_on (omega arith) refl refl)
take_long-GoesOn text o optional_argument none s = optional-GoesOn o (parameter s) s
take_long-GoesOn text o optional_argument (some value) s =
    return_val-GoesOn o s _ (goes_on (omega arith) refl refl)
take_long-GoesOn text o other_argument value s = return_val-GoesOn o s s (same-GoesOn s)

module _ (optstring : List ℕ) (os : List LongOption) (with_index posix : Bool) where
  -- A call between two arguments after the first call, with options, at an argument `--name` or
  -- `--name=value`, the name being without `=` and not starting with a 0. Where an option has the name,
  -- the call goes on behind the argument, and the first such option is the one whose place is stored
  -- for a caller that asks for it. Where no option has it, the call returns -1, as at the end of the
  -- options, and does not move on, whatever stands behind the argument. The arguments stay.
  pub getopt_by_name :
      (name : List ℕ) (value : Option (List ℕ)) (s : Getopt)
      → IsAtLong (with_value name value) s
      → strchr name 61 ≡ none
      → ((j : ℕ) × (o : LongOption) × IsFirstNamed name os j o
          × (result : ℤ) × (s' : Getopt) × (getopt (some optstring) (some os) with_index posix s
              ≡ some (result, s'))
          × (s.optind < s'.optind)
          × (s'.longindex ≡ (if with_index then some j else s.longindex))
          × (s'.argv ≡ s.argv))
        ⊎ (HasNone name os
            × (s' : Getopt) × (getopt (some optstring) (some os) with_index posix s
                ≡ some (negsuc 0, s'))
            × (s'.optind ≡ s.optind)
            × (s'.argv ≡ s.argv))
  unfolding found_long
  getopt_by_name name value s a plain =
      let text = with_value name value in
      let s0 = record s { processing_long = true; processing_short = false; index = 2 } in
      let called = found_at optstring os with_index posix text s a in
      let named =
        ap (λ n. found_long with_index text (find_long n 0 os) s0) (name_of name value plain) in
      elim (find_long_cases name 0 os) [
        | inl (j, o, found, first) ↦
            let s1 = record s0 {
              longindex = if with_index then some j else s.longindex;
              index = 0;
              optind = s.optind + 1;
            } in
            let place : 0 + j ≡ j = omega arith in
            let first_at : find_long name 0 os ≡ some (j, o) = rw place at found in
            let g = take_long-GoesOn text o o.has_arg (option_value text) s1 in
            let r = take_long text o o.has_arg (option_value text) s1 in
            inl (
              j,
              o,
              first,
              r.0,
              r.1,
              called r.0 r.1 (named ∙ ap (λ f. found_long with_index text f s0) first_at),
              omega (arith, g.forward),
              g.place,
              g.argv,
            )
        | inr (missing, nobody) ↦
            let g = report-GoesOn (unrecognized_long text) s0 in
            inr (
              nobody,
              report (unrecognized_long text) s0,
              called _ _ (named ∙ ap (λ f. found_long with_index text f s0) missing),
              report_optind (unrecognized_long text) s0,
              g.argv,
            )
      ]
