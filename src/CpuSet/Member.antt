-- ===== src/CpuSet/Member.antt =====
-- The set as a function from processors to digits: what adding, removing and testing one does.
use windows_libc.Common.{
  ℕ, zero, suc, ◌+◌, ◌-◌, ◌/◌, ◌%◌, ◌^◌, ◌≤◌, ◌<◌, bit_and, bit_or, ◌≡◌, refl, ap, ◌∙◌, inl, inr,
  true, false, some, List, [], ◌∷◌, arith, ltb, leb, ◌==◌, if◌then◌else◌, Bool-cases, length, set,
  get_or, length-set,
}
use windows_libc.Common.Bits.{bit, bit_or-lt, bit_and-lt}
use windows_libc.Common.Errno.{Errno}
use windows_libc.Common.Int.{pos}
use windows_libc.CpuSet.{CpuSet, group_of, flag, include, exclude, cpu_set, cpu_clr, cpu_isset}
use windows_libc.CpuSet.Bit.{bit-set, bit-clear, test-bit, flag-pow, small-pow}

-- The digit of a processor: 1 for a member.
abbrev pub has : CpuSet → ℕ → ℕ
has s cpu = bit (cpu % 64) (group_of s cpu)

-- There is a word of 64 bits for each group, and the digits behind the last processor are 0.
pub record IsValid (s : CpuSet) : Type 0 where
  pub groups : s.num_groups ≡ (s.num_cpus + 63) / 64
  pub held : length s.group_mask ≡ s.num_groups
  pub fits : (i : ℕ) → get_or s.group_mask i 0 < 2 ^ 64
  pub beyond : (cpu : ℕ) → s.num_cpus ≤ cpu → has s cpu ≡ 0

get_or-set :
    (xs : List ℕ) (i v j : ℕ)
    → i < length xs
    → get_or (set xs i v) j 0 ≡ (if i == j then v else get_or xs j 0)
get_or-set [] i v j h = absurd (omega arith)
get_or-set (x ∷ xs) zero v zero h = refl
get_or-set (x ∷ xs) zero v (suc j) h = ground arith
get_or-set (x ∷ xs) (suc i) v zero h = ground arith
get_or-set (x ∷ xs) (suc i) v (suc j) h = get_or-set xs i v j (omega arith) ∙ ground arith

inside : {s : CpuSet} {cpu : ℕ} → IsValid s → cpu < s.num_cpus → cpu / 64 < length s.group_mask
inside valid h = omega (arith, valid.groups, valid.held)

module _ (s : CpuSet) (cpu : ℕ) (valid : IsValid s) (known : cpu < s.num_cpus) where
  -- The set with a new word for the group of the processor.
  abbrev with_group : ℕ → CpuSet
  with_group v = record s { group_mask = set s.group_mask (cpu / 64) v }

  module _ (v x : ℕ)
      (digits : (k : ℕ) → bit k v ≡ (if k == cpu % 64 then x else bit k (group_of s cpu))) where
    with_group-has : (j : ℕ) → has (with_group v) j ≡ (if j == cpu then x else has s j)
    with_group-has j =
        let group = get_or (set s.group_mask (cpu / 64) v) (j / 64) 0 in
        let now = get_or-set s.group_mask (cpu / 64) v (j / 64) (inside valid known) in
        elim (Bool-cases (cpu / 64 == j / 64)) [
          | inr elsewhere ↦
              let old : group ≡ group_of s j = now ∙ rw elsewhere refl in
              ap (bit (j % 64)) old ∙ ground arith
          | inl same ↦
              let here : group_of s j ≡ group_of s cpu =
                ap (λ i. get_or s.group_mask i 0) (ground arith) in
              let new : group ≡ v = now ∙ rw same refl in
              let old : bit (j % 64) (group_of s j) ≡ bit (j % 64) (group_of s cpu) =
                ap (bit (j % 64)) here in
              ap (bit (j % 64)) new ∙ digits (j % 64) ∙ ground (arith, old)
        ]

    with_group-IsValid : v < 2 ^ 64 → IsValid (with_group v)
    with_group-IsValid small = record {
      groups = valid.groups;
      held = length-set s.group_mask (cpu / 64) v ∙ valid.held;
      fits = λ i.
          ground (arith, get_or-set s.group_mask (cpu / 64) v i (inside valid known), valid.fits i);
      beyond = λ j h. with_group-has j ∙ ground (arith, valid.beyond j h);
    }

  flag_small : flag cpu < 2 ^ 64
  flag_small = rw (flag-pow cpu) (small-pow (cpu % 64) (omega arith))

  include-IsIncluded :
      IsValid (include cpu s)
      × ((j : ℕ) → has (include cpu s) j ≡ (if j == cpu then 1 else has s j))
  unfolding include
  include-IsIncluded =
      let v = bit_or (group_of s cpu) (flag cpu) in
      let digits : (k : ℕ) → bit k v ≡ (if k == cpu % 64 then 1 else bit k (group_of s cpu)) =
        λ k. rw (flag-pow cpu) (bit-set (group_of s cpu) (cpu % 64) k) in
      (
        with_group-IsValid v 1 digits
            (bit_or-lt 64 (group_of s cpu) (flag cpu) (valid.fits _) flag_small),
        with_group-has v 1 digits,
      )

  exclude-IsExcluded :
      IsValid (exclude cpu s)
      × ((j : ℕ) → has (exclude cpu s) j ≡ (if j == cpu then 0 else has s j))
  unfolding exclude
  exclude-IsExcluded =
      let v = bit_and (group_of s cpu) (2 ^ 64 - 1 - flag cpu) in
      let digits : (k : ℕ) → bit k v ≡ (if k == cpu % 64 then 0 else bit k (group_of s cpu)) = λ k.
        rw (flag-pow cpu) (bit-clear (group_of s cpu) (cpu % 64) k (valid.fits _) (omega arith)) in
      (
        with_group-IsValid v 0 digits
            (bit_and-lt 64 (group_of s cpu) (2 ^ 64 - 1 - flag cpu) (valid.fits _)),
        with_group-has v 0 digits,
      )

  -- Adding a processor of the set's range makes it a member, changes no other, keeps the set valid and
  -- leaves `errno`.
  pub cpu_set-has :
      (e : Errno)
      → (r : CpuSet) × (cpu_set (pos cpu) (some s) e ≡ (some r, e))
        × IsValid r
        × ((j : ℕ) → has r j ≡ (if j == cpu then 1 else has s j))
  unfolding cpu_set
  cpu_set-has e = (include cpu s, ground arith, include-IsIncluded.0, include-IsIncluded.1)

  -- Removing a processor of the set's range makes it no member, changes no other, keeps the set valid
  -- and leaves `errno`.
  pub cpu_clr-has :
      (e : Errno)
      → (r : CpuSet) × (cpu_clr (pos cpu) (some s) e ≡ (some r, e))
        × IsValid r
        × ((j : ℕ) → has r j ≡ (if j == cpu then 0 else has s j))
  unfolding cpu_clr
  cpu_clr-has e = (exclude cpu s, ground arith, exclude-IsExcluded.0, exclude-IsExcluded.1)

-- The test of a processor of a valid set answers whether it is a member; for a processor that is not
-- in the set's range it answers 0 and sets `errno` to EINVAL.
pub cpu_isset-has :
    (s : CpuSet) (cpu : ℕ) (e : Errno)
    → IsValid s
    → cpu_isset (pos cpu) (some s) e ≡ (has s cpu, if ltb cpu s.num_cpus then e else Errno.einval)
unfolding cpu_isset
cpu_isset-has s cpu e valid = elim (Bool-cases (leb s.num_cpus cpu)) [
  | inl out ↦
      let below : ltb cpu s.num_cpus ≡ false = ground arith in
      simp (out, below, valid.beyond cpu (ground arith)) refl
  | inr known ↦
      let below : ltb cpu s.num_cpus ≡ true = ground arith in
      simp (known, below, flag-pow cpu, test-bit (group_of s cpu) (cpu % 64)) refl
]
