-- ===== src/CpuSet/Combine.antt =====
-- Sets as a whole: new and emptied sets, `and`, `or`, `xor`, and equality.
use windows_libc.Common.{
  ℕ, zero, suc, ◌+◌, ◌-◌, ◌*◌, ◌/◌, ◌%◌, ◌^◌, ◌≤◌, ◌<◌, min, max, bit_and, bit_or, bit_xor, ◌≡◌,
  refl, sym, ap, ◌∙◌, ◌↔◌, ◌⊎◌, inl, inr, true, Option, some, List, [], ◌∷◌, arith, ltb, ◌==◌,
  if◌then◌else◌, Bool-cases, length, get_or, ltb→lt,
}
use windows_libc.Common.Bits.{
  bit, bit-bit_and, bit-bit_or, bit-bit_xor, bit_and-lt, bit_or-lt, bit_xor-lt, bit-lt, bit_ext,
}
use Prim.Native.Nat.{differ}
use windows_libc.Common.Errno.{Errno}
use windows_libc.Common.Int.{pos}
use windows_libc.CpuSet.{
  CpuSet, cpu_alloc, zero_groups, words, cpu_zero, combine, combine_groups, equal_groups, cpu_equal,
  cpu_and, cpu_or, cpu_xor,
}
use windows_libc.CpuSet.Member.{has, IsValid}

length-zero_groups : (n : ℕ) (xs : List ℕ) → length (zero_groups n xs) ≡ length xs
unfolding zero_groups
length-zero_groups zero xs = refl
length-zero_groups (suc n) [] = refl
length-zero_groups (suc n) (x ∷ xs) = ap suc (length-zero_groups n xs)

zero_groups-zero : (n : ℕ) (xs : List ℕ) (i : ℕ) → length xs ≤ n → get_or (zero_groups n xs) i 0 ≡ 0
unfolding zero_groups
zero_groups-zero zero [] i h = refl
zero_groups-zero zero (x ∷ xs) i h = absurd (omega arith)
zero_groups-zero (suc n) [] i h = refl
zero_groups-zero (suc n) (x ∷ xs) zero h = refl
zero_groups-zero (suc n) (x ∷ xs) (suc i) h = zero_groups-zero n xs i (omega arith)

length-words : (memory : ℕ → ℕ) (i n : ℕ) → length (words memory i n) ≡ n
unfolding words
length-words memory i zero = refl
length-words memory i (suc n) = ap suc (length-words memory (i + 1) n)

zeros-IsEmpty :
    (s : CpuSet)
    → s.num_groups ≡ (s.num_cpus + 63) / 64
    → length s.group_mask ≡ s.num_groups
    → ((i : ℕ) → get_or s.group_mask i 0 ≡ 0)
    → IsValid s × ((cpu : ℕ) → has s cpu ≡ 0)
zeros-IsEmpty s sized held zeros = (
  record {
    groups = sized;
    held = held;
    fits = λ i. omega (arith, zeros i);
    beyond = λ cpu h. empty cpu;
  },
  empty,
)
  where
    empty : (cpu : ℕ) → has s cpu ≡ 0
    empty cpu = rw (zeros (cpu / 64)) (bit-lt 0 (cpu % 64) 0 (omega arith) (omega arith))

-- A set for a number of processors above 0 that the heap has room for is valid, has no member, and
-- leaves `errno`, whatever the new memory held.
pub cpu_alloc-IsEmpty :
    (memory : ℕ → ℕ) (n : ℕ) (e : Errno)
    → 0 < n
    → (r : CpuSet) × (cpu_alloc true memory (pos n) e ≡ (some r, e))
      × (r.num_cpus ≡ n)
      × (IsValid r × ((cpu : ℕ) → has r cpu ≡ 0))
unfolding cpu_alloc
cpu_alloc-IsEmpty memory n e h =
    let groups = n / 64 + (if n % 64 == 0 then 0 else 1) in
    let masks = words memory 0 (1 + (n - 1) / 64) in
    let r : CpuSet = record {
      num_groups = groups;
      num_cpus = n;
      group_mask = zero_groups groups masks;
    } in
    let sized : groups ≡ (n + 63) / 64 = ground arith in
    let held : length masks ≡ groups = length-words memory 0 (1 + (n - 1) / 64) ∙ ground arith in
    (
      r,
      ground arith,
      refl,
      zeros-IsEmpty r sized (length-zero_groups groups masks ∙ held)
          (λ i. zero_groups-zero groups masks i (omega (arith, held))),
    )

-- Emptying a valid set leaves no member and a valid set.
pub cpu_zero-IsEmpty :
    (s : CpuSet) (e : Errno)
    → IsValid s
    → (r : CpuSet) × (cpu_zero (some s) e ≡ (some r, e))
      × (r.num_cpus ≡ s.num_cpus)
      × (IsValid r × ((cpu : ℕ) → has r cpu ≡ 0))
unfolding cpu_zero
cpu_zero-IsEmpty s e valid =
    let r : CpuSet = record s { group_mask = zero_groups s.num_groups s.group_mask } in
    (
      r,
      refl,
      refl,
      zeros-IsEmpty r valid.groups (length-zero_groups s.num_groups s.group_mask ∙ valid.held)
          (λ i. zero_groups-zero s.num_groups s.group_mask i (omega (arith, valid.held))),
    )

get_or-combine :
    (f : ℕ → ℕ → ℕ) (n : ℕ) (ds xs ys : List ℕ) (i : ℕ)
    → f 0 0 ≡ 0
    → length ds ≡ n
    → length xs ≡ n
    → length ys ≡ n
    → get_or (combine_groups f n ds xs ys) i 0 ≡ f (get_or xs i 0) (get_or ys i 0)
unfolding combine_groups
get_or-combine f zero [] [] [] i z p q r = sym z
get_or-combine f zero (d ∷ ds) xs ys i z p q r = absurd (omega arith)
get_or-combine f zero [] (x ∷ xs) ys i z p q r = absurd (omega arith)
get_or-combine f zero [] [] (y ∷ ys) i z p q r = absurd (omega arith)
get_or-combine f (suc n) [] xs ys i z p q r = absurd (omega arith)
get_or-combine f (suc n) (d ∷ ds) [] ys i z p q r = absurd (omega arith)
get_or-combine f (suc n) (d ∷ ds) (x ∷ xs) [] i z p q r = absurd (omega arith)
get_or-combine f (suc n) (d ∷ ds) (x ∷ xs) (y ∷ ys) zero z p q r = refl
get_or-combine f (suc n) (d ∷ ds) (x ∷ xs) (y ∷ ys) (suc i) z p q r =
    get_or-combine f n ds xs ys i z (omega arith) (omega arith) (omega arith)

length-combine :
    (f : ℕ → ℕ → ℕ) (n : ℕ) (ds xs ys : List ℕ) → length (combine_groups f n ds xs ys) ≡ length ds
unfolding combine_groups
length-combine f zero ds xs ys = refl
length-combine f (suc n) [] xs ys = refl
length-combine f (suc n) (d ∷ ds) [] ys = refl
length-combine f (suc n) (d ∷ ds) (x ∷ xs) [] = refl
length-combine f (suc n) (d ∷ ds) (x ∷ xs) (y ∷ ys) = ap suc (length-combine f n ds xs ys)

-- The outcome is a set, of the destination's size, whose digits are `g` of the digits of the sources;
-- it is valid where neither source has more processors than the destination. `errno` is left.
pub record IsCombined (g : ℕ → ℕ → ℕ) (d a b : CpuSet) (e : Errno) (outcome : Option CpuSet × Errno)
    : Type 0 where
  pub result : CpuSet
  pub returned : outcome ≡ (some result, e)
  pub sized : result.num_cpus ≡ d.num_cpus
  pub digits : (cpu : ℕ) → has result cpu ≡ g (has a cpu) (has b cpu)
  pub valid : (d.num_cpus < a.num_cpus) ⊎ (d.num_cpus < b.num_cpus) ⊎ IsValid result

module _ (d a b : CpuSet) (e : Errno) (valid_d : IsValid d) (valid_a : IsValid a)
    (valid_b : IsValid b) (same_a : d.num_groups ≡ a.num_groups)
    (same_b : d.num_groups ≡ b.num_groups) where
  module _ (f g : ℕ → ℕ → ℕ) (law : (i x y : ℕ) → bit i (f x y) ≡ g (bit i x) (bit i y))
      (fits : (x y : ℕ) → x < 2 ^ 64 → y < 2 ^ 64 → f x y < 2 ^ 64) (none_f : f 0 0 ≡ 0)
      (none_g : g 0 0 ≡ 0) where
    combine-IsCombined : IsCombined g d a b e (combine f (some d) (some a) (some b) e)
    unfolding combine
    combine-IsCombined = record {
      result = r;
      returned = ground arith;
      sized = refl;
      digits = digits;
      valid = elim (Bool-cases (ltb d.num_cpus a.num_cpus)) [
        | inl more ↦ inl (ltb→lt _ _ more)
        | inr la ↦ elim (Bool-cases (ltb d.num_cpus b.num_cpus)) [
          | inl more ↦ inr (inl (ltb→lt _ _ more))
          | inr lb ↦ inr (inr (whole (ground arith) (ground arith)))
        ]
      ];
    }
      where
        r : CpuSet
        r = record d {
          group_mask = combine_groups f d.num_groups d.group_mask a.group_mask b.group_mask;
        }

        words_of :
            (i : ℕ)
            → get_or r.group_mask i 0 ≡ f (get_or a.group_mask i 0) (get_or b.group_mask i 0)
        words_of i =
            get_or-combine f d.num_groups d.group_mask a.group_mask b.group_mask i none_f
              valid_d.held (valid_a.held ∙ sym same_a) (valid_b.held ∙ sym same_b)

        digits : (cpu : ℕ) → has r cpu ≡ g (has a cpu) (has b cpu)
        digits cpu = ap (bit (cpu % 64)) (words_of (cpu / 64)) ∙ law (cpu % 64) _ _

        whole : a.num_cpus ≤ d.num_cpus → b.num_cpus ≤ d.num_cpus → IsValid r
        whole la lb = record {
          groups = valid_d.groups;
          held =
              length-combine f d.num_groups d.group_mask a.group_mask b.group_mask ∙ valid_d.held;
          fits = λ i. rw (words_of i) (fits _ _ (valid_a.fits i) (valid_b.fits i));
          beyond = λ cpu h.
              digits cpu
              ∙ rw (valid_a.beyond cpu (omega arith), valid_b.beyond cpu (omega arith)) none_g;
        }

  -- For valid sets of as many groups, `and` gives the destination the processors that both sources have; the
  -- destination stays valid where no source has more processors than it.
  pub cpu_and-IsCombined : IsCombined min d a b e (cpu_and (some d) (some a) (some b) e)
  cpu_and-IsCombined =
      combine-IsCombined bit_and min bit-bit_and (λ x y p q. bit_and-lt 64 x y p) refl refl

  -- For valid sets of as many groups, `or` gives the destination the processors that a source has; the
  -- destination stays valid where no source has more processors than it.
  pub cpu_or-IsCombined : IsCombined max d a b e (cpu_or (some d) (some a) (some b) e)
  cpu_or-IsCombined = combine-IsCombined bit_or max bit-bit_or (bit_or-lt 64) refl refl

  -- For valid sets of as many groups, `xor` gives the destination the processors that one source has
  -- and the other has not; the destination stays valid where no source has more processors than it.
  pub cpu_xor-IsCombined : IsCombined differ d a b e (cpu_xor (some d) (some a) (some b) e)
  cpu_xor-IsCombined = combine-IsCombined bit_xor differ bit-bit_xor (bit_xor-lt 64) refl refl

equal_groups-get_or :
    (n : ℕ) (xs ys : List ℕ) (i : ℕ)
    → length xs ≡ n
    → length ys ≡ n
    → equal_groups n xs ys ≡ true
    → get_or xs i 0 ≡ get_or ys i 0
unfolding equal_groups
equal_groups-get_or zero [] [] i p q h = refl
equal_groups-get_or zero (x ∷ xs) ys i p q h = absurd (omega arith)
equal_groups-get_or zero [] (y ∷ ys) i p q h = absurd (omega arith)
equal_groups-get_or (suc n) [] ys i p q h = absurd (omega arith)
equal_groups-get_or (suc n) (x ∷ xs) [] i p q h = absurd (omega arith)
equal_groups-get_or (suc n) (x ∷ xs) (y ∷ ys) zero p q h = ground arith
equal_groups-get_or (suc n) (x ∷ xs) (y ∷ ys) (suc i) p q h =
    equal_groups-get_or n xs ys i (omega arith) (omega arith) (ground arith)

equal_groups-same :
    (n : ℕ) (xs ys : List ℕ)
    → ((i : ℕ) → get_or xs i 0 ≡ get_or ys i 0)
    → equal_groups n xs ys ≡ true
unfolding equal_groups
equal_groups-same zero xs ys h = refl
equal_groups-same (suc n) [] ys h = refl
equal_groups-same (suc n) (x ∷ xs) [] h = refl
equal_groups-same (suc n) (x ∷ xs) (y ∷ ys) h =
    ground (arith, h 0, equal_groups-same n xs ys (λ i. h (suc i)))

same_words :
    (a b : CpuSet)
    → IsValid a
    → IsValid b
    → ((cpu : ℕ) → has a cpu ≡ has b cpu)
    → (i : ℕ) → get_or a.group_mask i 0 ≡ get_or b.group_mask i 0
same_words a b valid_a valid_b same i =
    bit_ext 64 (get_or a.group_mask i 0) (get_or b.group_mask i 0) (valid_a.fits i) (valid_b.fits i)
      (λ k low.
        let group : (i * 64 + k) / 64 ≡ i = omega arith in
        let place : (i * 64 + k) % 64 ≡ k = omega arith in rw (group, place) at (same (i * 64 + k)))

equal_outcome :
    (a b : CpuSet) (e : Errno)
    → cpu_equal (some a) (some b) e ≡ (true, e)
    → (a.num_groups ≡ b.num_groups)
      × (a.num_cpus ≡ b.num_cpus)
      × (equal_groups a.num_groups a.group_mask b.group_mask ≡ true)
unfolding cpu_equal
equal_outcome a b e h =
    let answer : (cpu_equal (some a) (some b) e).0 ≡ true = ap (λ r. r.0) h in
    (ground arith, ground arith, ground arith)

-- Two valid sets are equal by `cpu_equal` exactly when they are for as many processors and have the
-- same members; `errno` is left.
pub cpu_equal_iff :
    (a b : CpuSet) (e : Errno)
    → IsValid a
    → IsValid b
    → (cpu_equal (some a) (some b) e ≡ (true, e))
      ↔ ((a.num_cpus ≡ b.num_cpus) × ((cpu : ℕ) → has a cpu ≡ has b cpu))
unfolding cpu_equal
cpu_equal_iff a b e valid_a valid_b = (
  λ h.
      let (groups, cpus, words) = equal_outcome a b e h in
      (
        cpus,
        λ cpu. ap (bit (cpu % 64)) (
            equal_groups-get_or a.num_groups a.group_mask b.group_mask (cpu / 64) valid_a.held
              (valid_b.held ∙ sym groups) words),
      ),
  λ same.
      let words : equal_groups a.num_groups a.group_mask b.group_mask ≡ true =
        equal_groups-same a.num_groups a.group_mask b.group_mask
          (same_words a b valid_a valid_b same.1) in
      let groups : (a.num_groups == b.num_groups) ≡ true =
        ground (arith, valid_a.groups, valid_b.groups, same.0) in
      let cpus : (a.num_cpus == b.num_cpus) ≡ true = ground (arith, same.0) in
      simp (groups, cpus, words) refl,
)
