-- ===== src/Getopt/Calls.antt =====
-- Whole calls of `wlibc_common_getopt`.
use windows_libc.Common.{
  ℕ, suc, ◌≤◌, ◌<◌, ◌≡◌, refl, sym, ap, ◌∙◌, ◌≢◌, ◌⊎◌, inl, inr, Bool, true, false, Option, none,
  some, List, [], ◌∷◌, ◌++◌, arith, ltb, ◌==◌, if◌then◌else◌, Bool-cases, length, get_or, drop,
  length-drop, lt→ltb,
}
use windows_libc.Common.Int.{ℤ, negsuc}
use windows_libc.Getopt.{LongOption, Getopt, char_at, dash}
use windows_libc.Getopt.Long.{option_name, option_value, find_long, found_long, long_option}
use windows_libc.Getopt.Short.{strchr}
use windows_libc.Getopt.Scan.{
  restart, initialize, classify, on_kind, round, scan, getopt, return_pair, any_option,
}
use windows_libc.Getopt.Scan.Order.{leading, leading_le, move_front, move_none}
use windows_libc.Getopt.Scan.Rounds.{IsConsistent}
use windows_libc.Getopt.Scan.Returns.{scan_ends, scan-Returns}

-- The place where the search for the next option starts.
abbrev pub start_of : Getopt → ℕ
start_of s = if s.optind == 0 then 1 else s.optind

record Ready (s v : Getopt) : Type 0 where
  argv : v.argv ≡ s.argv
  optind : v.optind ≡ start_of s
  consistent : IsConsistent v

restart-Ready : (s : Getopt) → IsConsistent s → Ready s (restart s)
unfolding restart
restart-Ready s c = elim (Bool-cases (s.optind == 0)) [
  | inl again ↦ simp again record { argv = refl; optind = simp again refl; consistent = inl refl }
  | inr on ↦ simp on record { argv = refl; optind = simp on refl; consistent = c }
]

initialize-Ready :
    (optstring : List ℕ) (posix : Bool) (s v : Getopt)
    → Ready s v
    → Ready s (initialize optstring posix v)
unfolding initialize
initialize-Ready optstring posix s v r = elim (Bool-cases v.initialized) [
  | inl known ↦ simp known r
  | inr first ↦ simp first record { argv = r.argv; optind = r.optind; consistent = r.consistent }
]

module _ (optstring : List ℕ) (longopts : Option (List LongOption)) (with_index posix : Bool) where
  -- The state in which the loop starts.
  abbrev pub begin : Getopt → Getopt
  begin s = initialize optstring posix (restart s)

  begin-Ready : (s : Getopt) → IsConsistent s → Ready s (begin s)
  begin-Ready s c = initialize-Ready optstring posix s (restart s) (restart-Ready s c)

  getopt_over :
      (s : Getopt)
      → ((begin s).optind == length (begin s).argv) ≡ true
      → getopt (some optstring) longopts with_index posix s
        ≡ some (negsuc 0, record (begin s) { index = 0 })
  unfolding getopt
  getopt_over s over = rw over refl

  getopt_goes_on :
      (s : Getopt)
      → ((begin s).optind == length (begin s).argv) ≡ false
      → getopt (some optstring) longopts with_index posix s
        ≡ scan optstring longopts with_index
            (suc (length (begin s).argv))
            (begin s).optind
            (begin s)
  unfolding getopt
  getopt_goes_on s more = rw more refl

  -- A call with a string of options, in a state with an argument under way only with a kind: it returns,
  -- in such a state. The arguments after it are those from before, of which some that stood in front of
  -- the first option, from the start of the search on, have moved to the end in their order; none has
  -- where there is no option.
  pub getopt-Returns :
      (s : Getopt)
      → IsConsistent s
      → (result : ℤ) × (s' : Getopt) × (moved : ℕ) × (getopt
            (some optstring)
            longopts
            with_index
            posix
            s
          ≡ some (result, s'))
        × (s'.argv ≡ move_front (start_of s) moved s.argv)
        × (moved ≤ leading (drop (start_of s) s.argv))
        × ((any_option (drop (start_of s) s.argv) ≡ true) ⊎ (moved ≡ 0))
        × IsConsistent s'
  getopt-Returns s c =
      let v = begin s in
      let b = begin-Ready s c in
      let i = start_of s in
      let tail : drop v.optind v.argv ≡ drop i s.argv =
        ap (λ n. drop n v.argv) b.optind ∙ ap (drop i) b.argv in
      elim (Bool-cases (v.optind == length v.argv)) [
        | inl over ↦ (
          negsuc 0,
          record v { index = 0 },
          0,
          getopt_over s over,
          b.argv ∙ sym (move_none i s.argv),
          omega arith,
          inr refl,
          inl refl,
        )
        | inr more ↦
            let r =
              scan-Returns optstring longopts with_index (suc (length v.argv)) v.optind v
                b.consistent
                (omega (arith, leading_le (drop v.optind v.argv), length-drop v.optind v.argv)) in
            (
              r.result,
              r.after,
              r.moved,
              getopt_goes_on s more ∙ r.returned,
              r.argv
                  ∙ ap (λ n. move_front n r.moved v.argv) b.optind
                  ∙ ap (move_front i r.moved) b.argv,
              omega (arith, r.few, ap leading tail),
              elim (Bool-cases (any_option (drop i s.argv))) [
                | inl some_left ↦ inl some_left
                | inr none_left ↦ inr (r.idle (ap any_option tail ∙ none_left))
              ],
              r.consistent,
            )
      ]

some_not_none {ℓ} : {A : Type ℓ} {a : A} → some a ≢ none
some_not_none e = cc

-- The bytes in front of the first `=`, and those behind it.
pub option_name_of :
    (name value : List ℕ) → strchr name 61 ≡ none → option_name (name ++ 61 ∷ value) ≡ name
unfolding option_name strchr
option_name_of [] value no_equal = refl
option_name_of (c ∷ cs) value no_equal = elim (Bool-cases (c == 61)) [
  | inl equal ↦ absurd (some_not_none (simp equal at no_equal))
  | inr other ↦ simp other (ap (λ ys. c ∷ ys) (option_name_of cs value (simp other at no_equal)))
]

pub option_value_of :
    (name value : List ℕ) → strchr name 61 ≡ none → option_value (name ++ 61 ∷ value) ≡ some value
unfolding option_value strchr
option_value_of [] value no_equal = refl
option_value_of (c ∷ cs) value no_equal = elim (Bool-cases (c == 61)) [
  | inl equal ↦ absurd (some_not_none (simp equal at no_equal))
  | inr other ↦ simp other (option_value_of cs value (simp other at no_equal))
]

module _ (optstring : List ℕ) (os : List LongOption) (with_index posix : Bool) (s : Getopt) where
  -- Past the start, the loop begins in the state as it is.
  begin_same :
      s.initialized ≡ true → 0 < s.optind → begin optstring (some os) with_index posix s ≡ s
  unfolding restart initialize
  begin_same known on = let test : (s.optind == 0) ≡ false = ground arith in simp (test, known) refl

  module _ (text : List ℕ) (new : s.index ≡ 0)
      (here : get_or s.argv s.optind [] ≡ dash ∷ (dash ∷ text)) (below : s.optind < length s.argv)
      (filled : (char_at text 0 == 0) ≡ false) where
    -- The state at the text behind the dashes.
    abbrev at_text : Getopt
    at_text = record s { processing_long = true; processing_short = false; index = 2 }

    classify_long : classify (dash ∷ (dash ∷ text)) s ≡ (false, at_text)
    unfolding classify
    classify_long = let test : (s.index == 0) ≡ true = ground arith in simp (test, filled) refl

    round_long :
        round optstring (some os) with_index s.optind s
        ≡ return_pair (found_long with_index text (find_long (option_name text) 0 os) at_text)
    unfolding round on_kind long_option
    round_long =
        let more : ltb s.optind (length s.argv) ≡ true = lt→ltb _ _ below in
        simp more (
          rw here (
            ap (on_kind optstring (some os) with_index s.optind (dash ∷ (dash ∷ text)))
              classify_long))

    pub getopt_long :
        (result : ℤ) (s' : Getopt)
        → s.initialized ≡ true
        → 0 < s.optind
        → found_long with_index text (find_long (option_name text) 0 os) at_text ≡ (result, s')
        → getopt (some optstring) (some os) with_index posix s ≡ some (result, s')
    getopt_long result s' known on found =
        let same = begin_same known on in
        let more : (s.optind == length s.argv) ≡ false = ground arith in
        getopt_goes_on optstring (some os) with_index posix s (rw same more)
        ∙ rw same (
            scan_ends optstring (some os) with_index _ s.optind s result s'
              (round_long ∙ ap return_pair found))
