-- ===== src/Getopt/Scan/Rounds.antt =====
-- What one round of the loop of `wlibc_common_getopt` does.
use windows_libc.Common.{
  ℕ, suc, ◌+◌, ◌<◌, ◌≡◌, refl, sym, ap, ◌∙◌, ◌⊎◌, inl, inr, Bool, true, false, ◌&&◌, ◌||◌, Option,
  List, [], arith, ltb, ◌==◌, Bool-cases, length, get_or, drop, ltb→lt,
}
use windows_libc.Common.Int.{ℤ, pos, negsuc}
use windows_libc.Getopt.{LongOption, Getopt, char_at, dash, is_option}
use windows_libc.Getopt.Long.{long_option}
use windows_libc.Getopt.Short.{short_option}
use windows_libc.Getopt.Scan.{
  classify, any_option, rotate, Step, returns, go_on, skip_nonoption, on_kind, round,
}
use windows_libc.Getopt.Scan.Kept.{is_processing, long_option-Kept, short_option-Kept}

-- An argument is under way only with a kind.
abbrev pub IsConsistent : Getopt → Type 0
IsConsistent s = (s.index ≡ 0) ⊎ (is_processing s ≡ true)

-- What the kind of a new argument says of it.
record Classified (argument : List ℕ) (s : Getopt) (r : Bool × Getopt) : Type 0 where
  argv : r.1.argv ≡ s.argv
  consistent : IsConsistent s → IsConsistent r.1
  plain :
      IsConsistent s
      → (r.0 ≡ true) ⊎ (is_processing r.1 ≡ true) ⊎ ((is_option argument ≡ false) × (r.1.index ≡ 0))

classify-Classified : (argument : List ℕ) (s : Getopt) → Classified argument s (classify argument s)
unfolding classify
classify-Classified argument s = elim (Bool-cases (s.index == 0)) [
  | inr under_way ↦ simp under_way record {
    argv = refl;
    consistent = λ c. c;
    plain = λ c. elim c [ inl zero_index ↦ absurd (ground arith) | inr kind ↦ inr (inl kind) ];
  }
  | inl start ↦
      let zero_index : s.index ≡ 0 = ground arith in
      elim (Bool-cases ((char_at argument 0 == dash) && (char_at argument 1 == dash))) [
        | inl two ↦ elim (Bool-cases (char_at argument 2 == 0)) [
          | inl ended ↦
              simp (start, two, ended)
                record { argv = refl; consistent = λ c. inl zero_index; plain = λ c. inl refl }
          | inr long ↦
              simp (start, two, long)
                record { argv = refl; consistent = λ c. inr refl; plain = λ c. inr (inl refl) }
        ]
        | inr other ↦ elim (Bool-cases (is_option argument)) [
          | inl option ↦
              simp (start, other, option)
                record { argv = refl; consistent = λ c. inr refl; plain = λ c. inr (inl refl) }
          | inr no_option ↦
              simp (start, other, no_option)
                record {
                  argv = refl;
                  consistent = λ c. inl zero_index;
                  plain = λ c. inr (inr (no_option, zero_index));
                }
        ]
      ]
]

-- What a round does: it returns with the arguments as they are, moves the argument at `i`, which is no
-- option, to the end, or goes on behind it where there is no option left.
pub data Rounds (i : ℕ) (s : Getopt) (o : Step) : Type 0 where
  ends :
      (result : ℤ) (s' : Getopt)
      → o ≡ returns result s'
      → s'.argv ≡ s.argv
      → IsConsistent s'
      → Rounds i s o
  moves :
      (s' : Getopt)
      → o ≡ go_on i s'
      → s'.argv ≡ rotate i s.argv
      → s'.index ≡ 0
      → i < length s.argv
      → is_option (get_or s.argv i []) ≡ false
      → any_option (drop (i + 1) s.argv) ≡ true
      → Rounds i s o
  passes :
      (s' : Getopt)
      → o ≡ go_on (suc i) s'
      → s'.argv ≡ s.argv
      → s'.index ≡ 0
      → i < length s.argv
      → is_option (get_or s.argv i []) ≡ false
      → any_option (drop (i + 1) s.argv) ≡ false
      → Rounds i s o

module _ (i : ℕ) (s : Getopt) (below : i < length s.argv) where
  skip_nonoption-Rounds :
      (s1 : Getopt)
      → s1.argv ≡ s.argv
      → s1.index ≡ 0
      → is_option (get_or s.argv i []) ≡ false
      → Rounds i s (skip_nonoption i (get_or s.argv i []) s1)
  unfolding skip_nonoption
  skip_nonoption-Rounds s1 same start plain = elim (Bool-cases s1.stop_at_first_nonoption) [
    | inl stop ↦ simp stop (ends (negsuc 0) s1 refl same (inl start))
    | inr on ↦ elim (Bool-cases s1.assign_nonoption_to_one) [
      | inl one ↦ simp (on, one) (ends (pos 1) _ refl same (inl start))
      | inr no_one ↦ elim (Bool-cases (any_option (drop (i + 1) s1.argv))) [
        | inl more ↦
            simp (on, no_one, more)
              (moves _ refl (ap (rotate i) same) start below plain
                (ap (λ ys. any_option (drop (i + 1) ys)) (sym same) ∙ more))
        | inr none_left ↦
            simp (on, no_one, none_left)
              (passes s1 refl same start below plain
                (ap (λ ys. any_option (drop (i + 1) ys)) (sym same) ∙ none_left))
      ]
    ]
  ]

module _ (optstring : List ℕ) (longopts : Option (List LongOption)) (with_index : Bool) where
  on_kind-Rounds :
      (i : ℕ) (s : Getopt) (r : Bool × Getopt)
      → i < length s.argv
      → IsConsistent s
      → Classified (get_or s.argv i []) s r
      → Rounds i s (on_kind optstring longopts with_index i (get_or s.argv i []) r)
  unfolding on_kind
  on_kind-Rounds i s (true, s1) below c k = ends (negsuc 0) s1 refl k.argv (k.consistent c)
  on_kind-Rounds i s (false, s1) below c k = elim (Bool-cases s1.processing_long) [
    | inl long ↦
        let argument = get_or s.argv i [] in
        let l = long_option-Kept longopts with_index argument s1 in
        simp long (
          ends (long_option longopts with_index argument s1).0
            (long_option longopts with_index argument s1).1 refl (l.argv ∙ k.argv)
            (inr (l.kind ∙ simp long refl)))
    | inr no_long ↦ elim (Bool-cases s1.processing_short) [
      | inl short ↦
          let argument = get_or s.argv i [] in
          let l = short_option-Kept optstring argument s1 in
          simp (no_long, short)
            (ends (short_option optstring argument s1).0 (short_option optstring argument s1).1 refl
              (l.argv ∙ k.argv) (inr (l.kind ∙ simp (no_long, short) refl)))
      | inr no_short ↦
          simp (no_long, no_short)
            (elim (k.plain c) [
              | inl ended ↦ absurd (cc)
              | inr (inl kind) ↦ absurd (not_processing no_long no_short kind)
              | inr (inr (plain, start)) ↦ skip_nonoption-Rounds i s below s1 k.argv start plain
            ])
    ]
  ]
    where
      not_processing : {a b : Bool} → a ≡ false → b ≡ false → (a || b) ≡ true → ⊥
      not_processing x y z = let w : false ≡ true = simp (x, y) at z in cc

  pub round-Rounds :
      (i : ℕ) (s : Getopt) → IsConsistent s → Rounds i s (round optstring longopts with_index i s)
  unfolding round
  round-Rounds i s c = elim (Bool-cases (ltb i (length s.argv))) [
    | inl more ↦
        let argument = get_or s.argv i [] in
        simp more (
          on_kind-Rounds i s (classify argument s) (ltb→lt _ _ more) c
            (classify-Classified argument s))
    | inr over ↦ simp over (ends (negsuc 0) s refl refl c)
  ]
