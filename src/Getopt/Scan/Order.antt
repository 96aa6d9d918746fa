-- ===== src/Getopt/Scan/Order.antt =====
-- The order of the arguments under the moves of `wlibc_common_getopt`.
use windows_libc.Common.{
  ℕ, zero, suc, ◌+◌, ◌≤◌, ◌<◌, ◌≡◌, refl, sym, ap, ◌∙◌, ◌≢◌, inl, inr, true, false, List, [], ◌∷◌,
  ◌++◌, append-nil, append_assoc, arith, Bool-cases, length, get_or, take, drop, length-take,
  take-append, drop-append, take-append-drop, drop_append_le, take_append_le,
}
use windows_libc.Getopt.{is_option}
use windows_libc.Getopt.Scan.{any_option, rotate}

-- The number of arguments in front of the first option.
unfoldable pub leading : List (List ℕ) → ℕ
leading [] = 0
leading (argument ∷ rest) = elim (is_option argument) [ true ↦ 0 | false ↦ suc (leading rest) ]

pub leading_le : (xs : List (List ℕ)) → leading xs ≤ length xs
unfolding leading
leading_le [] = omega arith
leading_le (x ∷ xs) = elim (Bool-cases (is_option x)) [
  | inl option ↦ rw (option, leading) (omega arith)
  | inr other ↦ rw (other, leading) (omega (arith, leading_le xs))
]

pub leading_plain :
    (x : List ℕ) (xs : List (List ℕ)) → is_option x ≡ false → leading (x ∷ xs) ≡ suc (leading xs)
unfolding leading
leading_plain x xs other = rw (other, leading) refl

-- An argument behind an option changes nothing.
pub leading_snoc :
    (xs : List (List ℕ)) (y : List ℕ) → any_option xs ≡ true → leading (xs ++ (y ∷ [])) ≡ leading xs
unfolding leading any_option
leading_snoc [] y some_option = absurd (cc)
leading_snoc (x ∷ xs) y some_option = elim (Bool-cases (is_option x)) [
  | inl option ↦ rw (option, leading) refl
  | inr other ↦
      let rest : any_option xs ≡ true = simp other at some_option in
      rw (other, leading) (ap suc (leading_snoc xs y rest))
]

pub drop_get :
    (xs : List (List ℕ)) (i : ℕ) → i < length xs → drop i xs ≡ get_or xs i [] ∷ drop (i + 1) xs
drop_get [] i h = absurd (omega arith)
drop_get (x ∷ xs) zero h = refl
drop_get (x ∷ xs) (suc i) h =
    let next : suc i + 1 ≡ suc (i + 1) = omega arith in rw next (drop_get xs i (omega arith))

pub true_not_false : true ≢ false
true_not_false e = cc

pub any_option-cons :
    (x : List ℕ) (xs : List (List ℕ)) → any_option (x ∷ xs) ≡ false → any_option xs ≡ false
unfolding any_option
any_option-cons x xs none_there = elim (Bool-cases (is_option x)) [
  | inl option ↦ absurd (true_not_false (simp option at none_there))
  | inr other ↦ simp other at none_there
]

-- A move of the first `k` of the arguments from the `i`-th on behind the others.
abbrev pub move_front : ℕ → ℕ → List (List ℕ) → List (List ℕ)
move_front i k argv = take i argv ++ (drop k (drop i argv) ++ take k (drop i argv))

pub move_none : (i : ℕ) (argv : List (List ℕ)) → move_front i 0 argv ≡ argv
move_none i argv = ap (λ ys. take i argv ++ ys) (append-nil (drop i argv)) ∙ take-append-drop i argv

module _ (i : ℕ) (argv : List (List ℕ)) (below : i < length argv) where
  front : length (take i argv) ≡ i
  front = omega (arith, length-take i argv)

  pub rotated_tail : drop i (rotate i argv) ≡ drop (i + 1) argv ++ (get_or argv i [] ∷ [])
  unfolding rotate
  rotated_tail = drop-append (take i argv) _ i (sym front)

  rotated_front : take i (rotate i argv) ≡ take i argv
  unfolding rotate
  rotated_front = take-append (take i argv) _ i (sym front)

  -- A move after a rotation moves one argument more.
  pub move_rotated :
      (k : ℕ)
      → k ≤ length (drop (i + 1) argv)
      → move_front i k (rotate i argv) ≡ move_front i (suc k) argv
  move_rotated k few =
      let rest = drop (i + 1) argv in
      let a = get_or argv i [] in
      ap (λ ys. ys ++ (drop k (drop i (rotate i argv)) ++ take k (drop i (rotate i argv))))
        rotated_front
      ∙ ap (λ ys. take i argv ++ (drop k ys ++ take k ys)) rotated_tail
      ∙ ap (λ ys. take i argv ++ ys)
          (ap (λ ys. ys ++ take k (rest ++ (a ∷ []))) (drop_append_le k rest (a ∷ []) few)
            ∙ append_assoc (drop k rest) (a ∷ []) _
            ∙ ap (λ ys. drop k rest ++ (a ∷ ys)) (take_append_le k rest (a ∷ []) few))
      ∙ ap (λ ys. take i argv ++ (drop (suc k) ys ++ take (suc k) ys)) (sym (drop_get argv i below))
