-- ===== src/CpuSet/Count.antt =====
-- The number of members, by `__popcnt64`.
use windows_libc.Common.{
  ℕ, zero, suc, ◌+◌, ◌-◌, ◌*◌, ◌/◌, ◌%◌, ◌^◌, ◌<◌, ◌≡◌, refl, sym, ap, ◌∙◌, some, List, [], ◌∷◌,
  arith, length, get_or,
}
use windows_libc.Common.Bits.{bit}
use windows_libc.Common.Errno.{Errno}
use windows_libc.CpuSet.{CpuSet, cpu_count, count_groups}
use windows_libc.CpuSet.Member.{has, IsValid}

-- The sum of the first `n` values.
abbrev pub sum : (ℕ → ℕ) → ℕ → ℕ
sum f zero = 0
sum f (suc n) = sum f n + f n

sum-ap : (f g : ℕ → ℕ) (n : ℕ) → ((i : ℕ) → i < n → f i ≡ g i) → sum f n ≡ sum g n
sum-ap f g zero h = refl
sum-ap f g (suc n) h = omega (arith, h n (omega arith), sum-ap f g n (λ i l. h i (omega arith)))

sum-front : (f : ℕ → ℕ) (n : ℕ) → sum f (suc n) ≡ f 0 + sum (λ i. f (suc i)) n
sum-front f zero = omega arith
sum-front f (suc n) = omega (arith, sum-front f n)

sum-split : (f : ℕ → ℕ) (m n : ℕ) → sum f (m + n) ≡ sum f m + sum (λ i. f (m + i)) n
sum-split f m zero = let same : m + 0 ≡ m = omega arith in rw same (omega arith)
sum-split f m (suc n) =
    let next : m + suc n ≡ suc (m + n) = omega arith in rw next (omega (arith, sum-split f m n))

sum-zero : (f : ℕ → ℕ) (n : ℕ) → ((i : ℕ) → f i ≡ 0) → sum f n ≡ 0
sum-zero f zero h = refl
sum-zero f (suc n) h = omega (arith, h n, sum-zero f n h)

sum-groups : (f : ℕ → ℕ) (n : ℕ) → sum f (n * 64) ≡ sum (λ i. sum (λ k. f (i * 64 + k)) 64) n
sum-groups f zero = refl
sum-groups f (suc n) =
    let next : suc n * 64 ≡ n * 64 + 64 = omega arith in
    rw next (sum-split f (n * 64) 64 ∙ rw (sum-groups f n) refl)

-- The digits of a word that are 1.
pub ones : ℕ → ℕ
ones m = sum (λ k. bit k m) 64

ones-has : (s : CpuSet) (i : ℕ) → sum (λ k. has s (i * 64 + k)) 64 ≡ ones (get_or s.group_mask i 0)
unfolding ones
ones-has s i =
    sum-ap (λ k. has s (i * 64 + k)) (λ k. bit k (get_or s.group_mask i 0)) 64
      (λ k low.
        let group : (i * 64 + k) / 64 ≡ i = omega arith in
        let place : (i * 64 + k) % 64 ≡ k = omega arith in rw (group, place) refl)

-- The digits of all groups are the members, those behind the last processor being 0.
members :
    (s : CpuSet)
    → IsValid s
    → sum (λ i. ones (get_or s.group_mask i 0)) s.num_groups ≡ sum (has s) s.num_cpus
members s valid =
    let spare = s.num_groups * 64 - s.num_cpus in
    let sizes : s.num_groups * 64 ≡ s.num_cpus + spare = omega (arith, valid.groups) in
    sym (
      sum-ap (λ i. sum (λ k. has s (i * 64 + k)) 64) (λ i. ones (get_or s.group_mask i 0))
        s.num_groups (λ i l. ones-has s i))
    ∙ sym (sum-groups (has s) s.num_groups)
    ∙ ap (sum (has s)) sizes
    ∙ sum-split (has s) s.num_cpus spare
    ∙ omega (
      arith,
      sum-zero (λ i. has s (s.num_cpus + i)) spare
          (λ i. valid.beyond (s.num_cpus + i) (omega arith)),
    )

module _ (popcnt : ℕ → ℕ) (counts : (m : ℕ) → m < 2 ^ 64 → popcnt m ≡ ones m) where
  count_groups-sum :
      (n : ℕ) (masks : List ℕ) (count : ℕ)
      → length masks ≡ n
      → ((i : ℕ) → get_or masks i 0 < 2 ^ 64)
      → count_groups popcnt n masks count ≡ count + sum (λ i. ones (get_or masks i 0)) n
  unfolding count_groups
  count_groups-sum zero masks count h fits = omega arith
  count_groups-sum (suc n) [] count h fits = absurd (omega arith)
  count_groups-sum (suc n) (m ∷ masks) count h fits = omega (
    arith,
    counts m (fits 0),
    count_groups-sum n masks (count + popcnt m) (omega arith) (λ i. fits (suc i)),
    sum-front (λ i. ones (get_or (m ∷ masks) i 0)) n,
  )

  -- Where `__popcnt64` counts the digits of a word that are 1, the count of a valid set is the number of
  -- the processors below its size that it has; `errno` is left.
  pub cpu_count-sum :
      (s : CpuSet) (e : Errno)
      → IsValid s
      → cpu_count popcnt (some s) e ≡ (some (sum (has s) s.num_cpus), e)
  unfolding cpu_count
  cpu_count-sum s e valid =
      let total : count_groups popcnt s.num_groups s.group_mask 0 ≡ sum (has s) s.num_cpus =
        count_groups-sum s.num_groups s.group_mask 0 valid.held valid.fits
        ∙ omega (arith, members s valid) in
      simp total refl
