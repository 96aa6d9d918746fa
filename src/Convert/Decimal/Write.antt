-- ===== src/Convert/Decimal/Write.antt =====
-- The decimal writer: the digits it emits, seen from the reader.
use windows_libc.Common.{
  ℕ, zero, suc, ◌+◌, ◌-◌, ◌*◌, ◌/◌, ◌%◌, ◌^◌, ◌≤◌, ◌<◌, ◌≡◌, refl, ap, ◌∙◌, ◌≢◌, ◌⊎◌, inl, inr,
  Bool, true, false, ◌&&◌, Option, some, List, [], ◌∷◌, ◌++◌, reverse, reverse_snoc, arith, ◌==◌,
  Bool-cases, length, length-append, &&_true, u8, u32,
}
use native.Mathlib.Decide.{ℕ_discrete}
use native.Mathlib.Numerals.{add-one}
use native.Mathlib.Nat.{pow-suc}
use windows_libc.Convert.Decimal.{
  is_digit, comma, groups, separate, restart, push_digit, to_dec_loop,
}
use windows_libc.Convert.Decimal.Scan.{three_digits, closes, scan, scan_digit, scan-comma}

abbrev ascii : ℕ → ℕ
ascii x = u8 (x % 10 + b'0')

-- The last `s` places of `temp` are digits, so the reader meets `s` digits first.
abbrev Digits : ℕ → List ℕ → Type 0
Digits zero xs = Unit
Digits (suc s) [] = ⊥
Digits (suc s) (x ∷ xs) = (is_digit x ≡ true) × Digits s xs

-- What the reader has seen of a group of which `s` digits are to come: before the next digit, and
-- behind a digit. Without grouping it has met no comma.
abbrev Before : Bool → Bool → ℕ → ℕ → Type 0
Before true g p s = (p + s ≤ 2) × (g ≡ true → p + s ≡ 2)
Before false g p s = g ≡ false

abbrev pub Ready : Bool → Bool → ℕ → ℕ → Type 0
Ready true g p s = (p + s ≤ 3) × (g ≡ true → p + s ≡ 3) × (g ≡ false → 1 ≤ p)
Ready false g p s = g ≡ false

Ready-Before : (on g : Bool) (p s : ℕ) → Ready on g p (s + 1) → Before on g p s
Ready-Before true g p s r = ground arith
Ready-Before false g p s r = r

restart-cases : (s : ℕ) → ((s ≡ 3) × (restart s ≡ 0)) ⊎ ((s ≢ 3) × (restart s ≡ s))
restart-cases s = ground arith

Before-start : (on : Bool) (s : ℕ) → s ≤ 3 → Before on false 0 (restart s)
Before-start true s h = ground (arith, restart-cases s)
Before-start false s h = refl

Before-room : (on g : Bool) (p s : ℕ) → Before on g p s → (g && p == 3) ≡ false
Before-room true g p s r = ground arith
Before-room false g p s r = ground arith

Before-Ready : (on g : Bool) (p s : ℕ) → Before on g p s → Ready on g (u8 (p + 1)) s
Before-Ready true g p s r = ground arith
Before-Ready false g p s r = r

ascii-digit : (x : ℕ) → (is_digit (ascii x) ≡ true) × (ascii x - b'0' ≡ x % 10)
ascii-digit x = ground arith

Digits-cons : (s c : ℕ) (xs : List ℕ) → is_digit c ≡ true → Digits s xs → Digits (s + 1) (c ∷ xs)
Digits-cons s c xs e d = rw add-one (e, d)

Digits-restart : (s : ℕ) (xs : List ℕ) → Digits s xs → Digits (restart s) xs
Digits-restart s xs d = elim (restart-cases s) [ inl (e, z) ↦ rw z tt | inr (n, same) ↦ rw same d ]

Ready-plain :
    (on g : Bool) (p s : ℕ) → (s == 3 && on) ≡ false → Ready on g p (restart s) → Ready on g p s
Ready-plain true g p s e r = ground arith
Ready-plain false g p s e r = r

-- Behind a comma a group of three is to come.
Ready-comma : (g : Bool) (p : ℕ) → Ready true g p 0 → closes g p ≡ true
Ready-comma g p r = ground arith

three_of_Digits : (xs rest : List ℕ) → Digits 3 xs → three_digits (xs ++ rest) ≡ true
three_of_Digits [] rest d = elim d [ ]
three_of_Digits (a ∷ []) rest (da, d) = elim d [ ]
three_of_Digits (a ∷ b ∷ []) rest (da, (db, d)) = elim d [ ]
three_of_Digits (a ∷ b ∷ c ∷ xs) rest (da, (db, (dc, d))) = ground arith

module _ (next : ℕ → ℕ → ℕ) (flags : ℕ) where
  -- What the reader sees of one round of the writer, which took `temp` with `s` digits in its last
  -- group to `out`: it comes from `out` in one state and goes on with `temp` in another.
  record Sees (x s : ℕ) (temp out : List ℕ) (places : ℕ) (g : Bool) (p : ℕ) : Type 0 where
    seen : Bool
    period : ℕ
    ready : Ready (groups flags) seen period s
    scans :
        (rest : List ℕ) (value count : ℕ)
        → count < 64
        → scan next (groups flags) (reverse out ++ rest) g p value count
          ≡ scan next
              (groups flags)
              (reverse temp ++ rest)
              seen
              period
              (next value (x % 10))
              (count + places)

  record Round (x s : ℕ) (temp : List ℕ) (o : Option (List ℕ)) : Type 0 where
    out : List ℕ
    returns : o ≡ some out
    places : ℕ
    same_length : length out ≡ length temp + places
    few : places * 3 + restart s ≤ s + 3
    tail : List ℕ
    first : reverse out ≡ ascii x ∷ tail
    digits : Digits (restart s + 1) (reverse out)
    sees : (g : Bool) (p : ℕ) → Before (groups flags) g p (restart s) → Sees x s temp out places g p

  take_digit :
      (x : ℕ) (xs : List ℕ) (g : Bool) (p value count : ℕ)
      → count < 64
      → (g && p == 3) ≡ false
      → scan next (groups flags) (ascii x ∷ xs) g p value count
        ≡ scan next (groups flags) xs g (u8 (p + 1)) (next value (x % 10)) (count + 1)
  take_digit x xs g p value count small room =
      let e : u32 (count + 1) ≡ count + 1 = omega arith in
      scan_digit next (groups flags) (ascii x) xs g p value count (ascii-digit x).0 room
      ∙ rw ((ascii-digit x).1, e)

  take_comma :
      (xs : List ℕ) (g : Bool) (p value count : ℕ)
      → count < 128
      → groups flags ≡ true
      → closes g p ≡ true
      → three_digits xs ≡ true
      → scan next (groups flags) (comma ∷ xs) g p value count
        ≡ scan next (groups flags) xs true 0 value (count + 1)
  take_comma xs g p value count small on c t =
      let e : u32 (count + 1) ≡ count + 1 = omega arith in
      scan-comma next (groups flags) xs g p value count on c t ∙ rw e

  plain-Sees :
      (x s : ℕ) (temp : List ℕ) (g : Bool) (p : ℕ)
      → (s == 3 && groups flags) ≡ false
      → Before (groups flags) g p (restart s)
      → Sees x s temp (temp ++ ascii x ∷ []) 1 g p
  plain-Sees x s temp g p plain r = record {
    seen = g;
    period = u8 (p + 1);
    ready =
        Ready-plain (groups flags) g (u8 (p + 1)) s plain
          (Before-Ready (groups flags) g p (restart s) r);
    scans = λ rest value count small. rw (reverse_snoc temp (ascii x)) (
        take_digit x (reverse temp ++ rest) g p value count small
          (Before-room (groups flags) g p (restart s) r));
  }

  plain-Round :
      (x s : ℕ) (temp : List ℕ)
      → (s == 3 && groups flags) ≡ false
      → length temp < 32
      → s ≤ 3
      → Digits s (reverse temp)
      → Round x s temp (push_digit x (separate flags s temp))
  unfolding push_digit separate
  plain-Round x s temp plain c b d = record {
    out = temp ++ ascii x ∷ [];
    returns = simp plain (ground arith);
    places = 1;
    same_length = length-append temp (ascii x ∷ []);
    few = ground (arith, restart-cases s);
    tail = reverse temp;
    first = reverse_snoc temp (ascii x);
    digits = rw reverse_snoc (
        Digits-cons (restart s) (ascii x) (reverse temp) (ascii-digit x).0
          (Digits-restart s (reverse temp) d));
    sees = λ g p r. plain-Sees x s temp g p plain r;
  }

  comma-Sees :
      (x s : ℕ) (temp : List ℕ) (g : Bool) (p : ℕ)
      → groups flags ≡ true
      → s ≡ 3
      → Digits 3 (reverse temp)
      → Before true g p 0
      → Sees x s temp ((temp ++ comma ∷ []) ++ ascii x ∷ []) 2 g p
  comma-Sees x s temp g p on e d r = record {
    seen = true;
    period = 0;
    ready = rw (on, e) (omega arith, λ q. refl, λ q. absurd (cc));
    scans = λ rest value count small.
        let f : count + 1 + 1 ≡ count + 2 = omega arith in
        rw (reverse_snoc (temp ++ comma ∷ []) (ascii x), reverse_snoc temp comma)
          (take_digit x (comma ∷ (reverse temp ++ rest)) g p value count small
              (Before-room true g p 0 r)
            ∙ take_comma (reverse temp ++ rest) g (u8 (p + 1)) (next value (x % 10)) (count + 1)
                (omega arith) on (Ready-comma g (u8 (p + 1)) (Before-Ready true g p 0 r))
                (three_of_Digits (reverse temp) rest d)
            ∙ rw f);
  }

  comma-Round :
      (x s : ℕ) (temp : List ℕ)
      → groups flags ≡ true
      → s ≡ 3
      → length temp < 31
      → Digits 3 (reverse temp)
      → Round x s temp (push_digit x (separate flags s temp))
  unfolding push_digit separate
  comma-Round x s temp on e c d = record {
    out = (temp ++ comma ∷ []) ++ ascii x ∷ [];
    returns = ground (arith, length-append temp (comma ∷ []));
    places = 2;
    same_length =
        omega (
          arith,
          length-append (temp ++ comma ∷ []) (ascii x ∷ []),
          length-append temp (comma ∷ []),
        );
    few = ground (arith, restart-cases s);
    tail = reverse (temp ++ comma ∷ []);
    first = reverse_snoc (temp ++ comma ∷ []) (ascii x);
    digits = rw (e, reverse_snoc (temp ++ comma ∷ []) (ascii x)) ((ascii-digit x).0, tt);
    sees = λ g p r. comma-Sees x s temp g p on e d (rw (on, e) at r);
  }

  Round-Round :
      (x s : ℕ) (temp : List ℕ)
      → length temp < 31
      → s ≤ 3
      → Digits s (reverse temp)
      → Round x s temp (push_digit x (separate flags s temp))
  Round-Round x s temp c b d = elim (Bool-cases (s == 3 && groups flags)) [
    | inr plain ↦ plain-Round x s temp plain (omega arith) b d
    | inl both ↦
        let (is_three, on) = &&_true (s == 3) (groups flags) both in
        let three : s ≡ 3 = ground arith in comma-Round x s temp on three c (rw three at d)
  ]

  loop_last :
      (fuel x s : ℕ) (temp : List ℕ) {out : List ℕ}
      → push_digit x (separate flags s temp) ≡ some out
      → x / 10 ≡ 0
      → to_dec_loop flags (suc fuel) x temp s ≡ some out
  loop_last fuel x s temp e z = unfold to_dec_loop in ground arith

  loop_more :
      (fuel x s : ℕ) (temp : List ℕ) {out : List ℕ}
      → push_digit x (separate flags s temp) ≡ some out
      → x / 10 ≢ 0
      → to_dec_loop flags (suc fuel) x temp s ≡ to_dec_loop flags fuel (x / 10) out (restart s + 1)
  loop_more fuel x s temp e n = unfold to_dec_loop in ground arith

  -- `at x` is the value that the reader has when it has read the digits of `x`.
  module _ (at : ℕ → ℕ) (law : (x : ℕ) → x < 2 ^ 64 → next (at (x / 10)) (x % 10) ≡ at x) where
    -- What the writer's loop emits for a number of at most `n` digits, seen from the reader.
    pub record Emits (x n s : ℕ) (temp : List ℕ) (o : Option (List ℕ)) : Type 0 where
      pub out : List ℕ
      pub returns : o ≡ some out
      pub count : ℕ
      pub same_length : length out ≡ length temp + count
      pub bounded : length out ≤ length temp + n + (s + n) / 3
      pub first : ℕ
      pub tail : List ℕ
      pub begins : reverse out ≡ first ∷ tail
      pub is_first : is_digit first ≡ true
      pub seen : Bool
      pub period : ℕ
      pub ready : Ready (groups flags) seen period s
      pub scans :
          (rest : List ℕ) (start : ℕ)
          → start ≤ 1
          → scan next (groups flags) (reverse out ++ rest) false 0 (at 0) start
            ≡ scan next (groups flags) (reverse temp ++ rest) seen period (at x) (start + count)

    module _ (fuel x n s : ℕ) (temp : List ℕ) (w : x < 2 ^ 64) (below : s ≤ 3)
        (r : Round x s temp (push_digit x (separate flags s temp))) where
      Emits-last : 0 < n → x / 10 ≡ 0 → Emits x n s temp (to_dec_loop flags (suc fuel) x temp s)
      Emits-last pos z =
          let v = r.sees false 0 (Before-start (groups flags) s below) in
          record {
            out = r.out;
            returns = loop_last fuel x s temp r.returns z;
            count = r.places;
            same_length = r.same_length;
            bounded = omega (arith, r.same_length, r.few, restart-cases s);
            first = ascii x;
            tail = r.tail;
            begins = r.first;
            is_first = (ascii-digit x).0;
            seen = v.seen;
            period = v.period;
            ready = v.ready;
            scans =
                λ rest start h. v.scans rest (at 0) start (omega arith) ∙ rw (← ap at z, law x w);
          }

      Emits-more :
          length temp + suc n + (s + suc n) / 3 ≤ 31
          → x / 10 ≢ 0
          → Emits
              (x / 10)
              n
              (restart s + 1)
              r.out
              (to_dec_loop flags fuel (x / 10) r.out (restart s + 1))
          → Emits x (suc n) s temp (to_dec_loop flags (suc fuel) x temp s)
      Emits-more c more e =
          let v =
            r.sees e.seen e.period
              (Ready-Before (groups flags) e.seen e.period (restart s) e.ready) in
          record {
            out = e.out;
            returns = loop_more fuel x s temp r.returns more ∙ e.returns;
            count = e.count + r.places;
            same_length = omega (arith, e.same_length, r.same_length);
            bounded = omega (arith, e.bounded, r.same_length, r.few, restart-cases s);
            first = e.first;
            tail = e.tail;
            begins = e.begins;
            is_first = e.is_first;
            seen = v.seen;
            period = v.period;
            ready = v.ready;
            scans = λ rest start h.
                let regroup : start + e.count + r.places ≡ start + (e.count + r.places) =
                  omega arith in
                e.scans rest start h
                ∙ v.scans rest (at (x / 10)) (start + e.count)
                    (omega (arith, e.bounded, e.same_length, r.same_length, r.few, restart-cases s))
                ∙ rw (law x w, regroup);
          }

    pub to_dec_loop-Emits :
        (n fuel x s : ℕ) (temp : List ℕ)
        → n ≤ fuel
        → x < 10 ^ suc n
        → x < 2 ^ 64
        → length temp + suc n + (s + suc n) / 3 ≤ 31
        → s ≤ 3
        → Digits s (reverse temp)
        → Emits x (suc n) s temp (to_dec_loop flags (suc fuel) x temp s)
    to_dec_loop-Emits zero fuel x s temp f h w c b d =
        Emits-last fuel x 1 s temp w b (Round-Round x s temp (omega arith) b d) (omega arith)
          (omega arith)
    to_dec_loop-Emits (suc n) zero x s temp f h w c b d = absurd (omega arith)
    to_dec_loop-Emits (suc n) (suc fuel) x s temp f h w c b d =
        let r = Round-Round x s temp (omega arith) b d in
        elim (ℕ_discrete (x / 10) 0) [
          | yes last ↦ Emits-last (suc fuel) x (suc (suc n)) s temp w b r (omega arith) last
          | no more ↦ Emits-more (suc fuel) x (suc n) s temp w b r c more (
              to_dec_loop-Emits n fuel (x / 10) (restart s + 1) r.out (omega arith)
                (omega (arith, pow-suc 10 (suc n))) (omega arith)
                (omega (arith, r.same_length, r.few, restart-cases s))
                (omega (arith, restart-cases s)) r.digits)
        ]
