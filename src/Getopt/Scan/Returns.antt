-- ===== src/Getopt/Scan/Returns.antt =====
-- The loop of `wlibc_common_getopt`: it ends, and moves arguments that are no options to the end.
use windows_libc.Common.{
  ℕ, zero, suc, ◌+◌, ◌≤◌, ◌<◌, ◌≡◌, refl, sym, ap, ◌∙◌, inl, Bool, false, Option, some, List, [],
  arith, length, get_or, drop,
}
use windows_libc.Common.Int.{ℤ}
use windows_libc.Getopt.{LongOption, Getopt, is_option}
use windows_libc.Getopt.Scan.{any_option, returns, go_on, round, scan}
use windows_libc.Getopt.Scan.Order.{
  leading, leading_le, leading_plain, leading_snoc, drop_get, true_not_false, any_option-cons,
  move_front, move_none, rotated_tail, move_rotated,
}
use windows_libc.Getopt.Scan.Rounds.{IsConsistent, ends, moves, passes, round-Rounds}

-- The loop from the argument at `i` on returned: it moved some arguments in front of the first option to
-- the end, and none where there is no option.
pub record Returns (i : ℕ) (s : Getopt) (o : Option (ℤ × Getopt)) : Type 0 where
  pub result : ℤ
  pub after : Getopt
  pub returned : o ≡ some (result, after)
  pub moved : ℕ
  pub few : moved ≤ leading (drop i s.argv)
  pub argv : after.argv ≡ move_front i moved s.argv
  pub idle : any_option (drop i s.argv) ≡ false → moved ≡ 0
  pub consistent : IsConsistent after

module _ (optstring : List ℕ) (longopts : Option (List LongOption)) (with_index : Bool) where
  pub scan_ends :
      (fuel i : ℕ) (s : Getopt) (result : ℤ) (s' : Getopt)
      → round optstring longopts with_index i s ≡ returns result s'
      → scan optstring longopts with_index (suc fuel) i s ≡ some (result, s')
  unfolding scan
  scan_ends fuel i s result s' e = rw (e, scan) refl

  scan_goes_on :
      (fuel i j : ℕ) (s s' : Getopt)
      → round optstring longopts with_index i s ≡ go_on j s'
      → scan optstring longopts with_index (suc fuel) i s
        ≡ scan optstring longopts with_index fuel j s'
  unfolding scan
  scan_goes_on fuel i j s s' e = rw (e, scan) refl

  -- The arguments from a place on, where the one at the place is no option.
  leading_at :
      (i : ℕ) (argv : List (List ℕ))
      → i < length argv
      → is_option (get_or argv i []) ≡ false
      → leading (drop i argv) ≡ suc (leading (drop (i + 1) argv))
  leading_at i argv below plain =
      ap leading (drop_get argv i below)
      ∙ leading_plain (get_or argv i []) (drop (i + 1) argv) plain

  pub scan-Returns :
      (fuel i : ℕ) (s : Getopt)
      → IsConsistent s
      → leading (drop i s.argv) < fuel
      → Returns i s (scan optstring longopts with_index fuel i s)
  scan-Returns zero i s c enough = absurd (omega (arith, enough))
  scan-Returns (suc fuel) i s c enough = elim (round-Rounds optstring longopts with_index i s c) [
    | ends result s' e same c' ↦ record {
      result = result;
      after = s';
      returned = scan_ends fuel i s result s' e;
      moved = 0;
      few = omega arith;
      argv = same ∙ sym (move_none i s.argv);
      idle = λ h. refl;
      consistent = c';
    }
    | moves s' e same start below plain more ↦
        let rest = drop (i + 1) s.argv in
        let tail : leading (drop i s'.argv) ≡ leading rest =
          ap (λ ys. leading (drop i ys)) same
          ∙ ap leading (rotated_tail i s.argv below)
          ∙ leading_snoc rest _ more in
        let one = leading_at i s.argv below plain in
        let r = scan-Returns fuel i s' (inl start) (omega (arith, enough, tail, one)) in
        record {
          result = r.result;
          after = r.after;
          returned = scan_goes_on fuel i i s s' e ∙ r.returned;
          moved = suc r.moved;
          few = omega (arith, r.few, tail, one);
          argv =
              r.argv
              ∙ ap (move_front i r.moved) same
              ∙ move_rotated i s.argv below r.moved (omega (arith, r.few, tail, leading_le rest));
          idle = λ h. absurd (
              true_not_false (
                sym more
                ∙ any_option-cons (get_or s.argv i []) rest
                    (ap any_option (sym (drop_get s.argv i below)) ∙ h)));
          consistent = r.consistent;
        }
    | passes s' e same start below plain none_left ↦
        let rest = drop (i + 1) s.argv in
        let plus : suc i ≡ i + 1 = omega arith in
        let next : drop (suc i) s'.argv ≡ rest =
          ap (λ ys. drop (suc i) ys) same ∙ ap (λ n. drop n s.argv) plus in
        let one = leading_at i s.argv below plain in
        let r =
          scan-Returns fuel (suc i) s' (inl start) (omega (arith, enough, ap leading next, one)) in
        let nothing : r.moved ≡ 0 = r.idle (ap any_option next ∙ none_left) in
        record {
          result = r.result;
          after = r.after;
          returned = scan_goes_on fuel i (suc i) s s' e ∙ r.returned;
          moved = 0;
          few = omega arith;
          argv =
              r.argv
              ∙ ap (λ n. move_front (suc i) n s'.argv) nothing
              ∙ move_none (suc i) s'.argv
              ∙ same
              ∙ sym (move_none i s.argv);
          idle = λ h. refl;
          consistent = r.consistent;
        }
  ]
