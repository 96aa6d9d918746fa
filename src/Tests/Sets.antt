-- ===== src/Tests/Sets.antt =====
-- Sets of processors (src/sched/cpuset.c) at concrete sets.
use windows_libc.Common.{
  ℕ, zero, suc, ◌/◌, ◌%◌, ◌^◌, ◌≤◌, ◌<◌, ◌≡◌, refl, ◌↔◌, true, some, [], ◌∷◌, arith, ◌==◌,
  if◌then◌else◌, get_or,
}
use windows_libc.Common.Bits.{bit-lt}
use windows_libc.Common.Errno.{Errno}
use windows_libc.Common.Int.{pos}
use windows_libc.CpuSet.{CpuSet, cpu_set, cpu_equal}
use windows_libc.CpuSet.Member.{has, IsValid, cpu_set-has}
use windows_libc.CpuSet.Combine.{cpu_equal_iff}
use windows_libc.CpuSet.Count.{ones}

abbrev garbage : ℕ → ℕ
garbage i = 7

-- A set for 70 processors, with none or with processor 3.
abbrev nobody : CpuSet
nobody = record { num_groups = 2; num_cpus = 70; group_mask = 0 ∷ 0 ∷ [] }

nobody-IsValid : IsValid nobody
nobody-IsValid = record { groups = refl; held = refl; fits = words; beyond = empty }
  where
    zeros : (i : ℕ) → get_or nobody.group_mask i 0 ≡ 0
    zeros zero = refl
    zeros (suc zero) = refl
    zeros (suc (suc i)) = refl

    words : (i : ℕ) → get_or nobody.group_mask i 0 < 2 ^ 64
    words i = omega (arith, zeros i)

    empty : (cpu : ℕ) → 70 ≤ cpu → has nobody cpu ≡ 0
    empty cpu h = rw (zeros (cpu / 64)) (bit-lt 0 (cpu % 64) 0 (omega arith) (omega arith))

-- The set after processor 3 was added.
with_three :
    (r : CpuSet) × (cpu_set (pos 3) (some nobody) Errno.eperm ≡ (some r, Errno.eperm))
    × IsValid r
    × ((j : ℕ) → has r j ≡ (if j == 3 then 1 else has nobody j))
with_three = cpu_set-has nobody 3 nobody-IsValid (omega arith) Errno.eperm

-- The valid set that adding processor 3 gave.
abbrev three : CpuSet
three = record { num_groups = 2; num_cpus = 70; group_mask = 8 ∷ 0 ∷ [] }

three_added : cpu_set (pos 3) (some nobody) Errno.eperm ≡ (some three, Errno.eperm)
unfolding cpu_set
three_added = refl

three-IsValid : IsValid three
three-IsValid =
    let (r, returned, valid, digits) = with_three in
    let same : r ≡ three = ground (arith, returned, three_added) in rw same at valid

cpu_equal_iff_example :
    (cpu_equal (some three) (some nobody) Errno.eperm ≡ (true, Errno.eperm))
    ↔ ((three.num_cpus ≡ nobody.num_cpus) × ((cpu : ℕ) → has three cpu ≡ has nobody cpu))
cpu_equal_iff_example = cpu_equal_iff three nobody Errno.eperm three-IsValid nobody-IsValid

-- The intrinsic as a sum of digits.
counted : (m : ℕ) → m < 2 ^ 64 → ones m ≡ ones m
counted m h = refl
