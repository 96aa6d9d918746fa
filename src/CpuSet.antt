-- ===== src/CpuSet.antt =====
-- Sets of processors (src/sched/cpuset.c, `cpu_set_t` of include/sched.h). A pointer to a set is an
-- Option, `none` being NULL, and `errno` is passed on. The words of the flexible array `group_mask`
-- are a list of numbers of 64 bits. What the heap answers, what new memory holds and the intrinsic
-- `__popcnt64` are arguments.
mod Bit
pub mod Member
pub mod Combine
pub mod Count
use windows_libc.Common.{
  ℕ, zero, suc, ◌+◌, ◌-◌, ◌*◌, ◌/◌, ◌%◌, ◌^◌, ◌≤◌, ◌<◌, min, max, bit_and, bit_or, bit_xor, ◌≡◌,
  refl, sym, ap, ◌∙◌, ◌≢◌, ◌↔◌, ◌⊎◌, inl, inr, Bool, true, false, ◌&&◌, ◌||◌, not, Option, none,
  some, List, [], ◌∷◌, ◌++◌, map, append-nil, append_assoc, reverse, reverse_snoc, length-reverse,
  arith, ltb, leb, ◌==◌, if◌then◌else◌, Bool-cases, Option-cases, length, get_elem?, set, get_or,
  take, drop, replicate, length-append, length-set, length-take, length-drop, length-replicate,
  take-append, drop-append, take-take-append, take-set, drop-cons, drop-nil, get_elem?-set_self,
  get_elem?-set_ne, ==_iff, &&_true, ltb→lt, lt→ltb, leb→le, u8, u16, u32, u64,
}
use windows_libc.Common.Errno.{Errno}
use windows_libc.Common.Int.{ℤ, pos, negsuc}

pub record CpuSet : Type 0 where
  pub num_groups : ℕ
  pub num_cpus : ℕ
  pub group_mask : List ℕ

-- `sizeof(cpu_set_t)` is 16; NULL and 0 are returned with `errno` set to EINVAL.
pub cpu_alloc_size : ℤ → Errno → ℕ × Errno
cpu_alloc_size (negsuc n) e = (0, Errno.einval)
cpu_alloc_size (pos n) e = if n == 0 then (0, Errno.einval) else (16 + (n - 1) / 64 * 8, e)

-- The loop that writes 0 to `n` words.
unfoldable pub zero_groups : ℕ → List ℕ → List ℕ
zero_groups zero masks = masks
zero_groups (suc n) [] = []
zero_groups (suc n) (m ∷ masks) = 0 ∷ zero_groups n masks

-- The words of new memory.
unfoldable pub words : (ℕ → ℕ) → ℕ → ℕ → List ℕ
words memory i zero = []
words memory i (suc n) = memory i ∷ words memory (i + 1) n

-- The structure has room for one word, and a word of 8 bytes for each further group.
unfoldable pub cpu_alloc : Bool → (ℕ → ℕ) → ℤ → Errno → Option CpuSet × Errno
cpu_alloc allocated memory (negsuc n) e = (none, Errno.einval)
cpu_alloc allocated memory (pos n) e =
    let groups = n / 64 + (if n % 64 == 0 then 0 else 1) in
    let masks = words memory 0 (1 + (n - 1) / 64) in
    if n == 0
    then (none, Errno.einval)
    else if allocated
    then (
      some (record { num_groups = groups; num_cpus = n; group_mask = zero_groups groups masks }),
      e,
    )
    else (none, e)

unfoldable pub cpu_zero : Option CpuSet → Errno → Option CpuSet × Errno
cpu_zero none e = (none, Errno.einval)
cpu_zero (some s) e = (some (record s { group_mask = zero_groups s.num_groups s.group_mask }), e)

-- `group_mask[cpu / 64]`.
abbrev pub group_of : CpuSet → ℕ → ℕ
group_of s cpu = get_or s.group_mask (cpu / 64) 0

-- `1ull << (cpu % 64)`.
abbrev pub flag : ℕ → ℕ
flag cpu = u64 (1 * 2 ^ (cpu % 64))

unfoldable pub include : ℕ → CpuSet → CpuSet
include cpu s = record s {
  group_mask = set s.group_mask (cpu / 64) (bit_or (group_of s cpu) (flag cpu));
}

unfoldable pub exclude : ℕ → CpuSet → CpuSet
exclude cpu s = record s {
  group_mask = set s.group_mask (cpu / 64) (bit_and (group_of s cpu) (2 ^ 64 - 1 - flag cpu));
}

unfoldable pub cpu_set : ℤ → Option CpuSet → Errno → Option CpuSet × Errno
unfolding include
cpu_set cpu none e = (none, Errno.einval)
cpu_set (negsuc n) (some s) e = (some s, Errno.einval)
cpu_set (pos cpu) (some s) e =
    if leb s.num_cpus cpu then (some s, Errno.einval) else (some (include cpu s), e)

unfoldable pub cpu_clr : ℤ → Option CpuSet → Errno → Option CpuSet × Errno
unfolding exclude
cpu_clr cpu none e = (none, Errno.einval)
cpu_clr (negsuc n) (some s) e = (some s, Errno.einval)
cpu_clr (pos cpu) (some s) e =
    if leb s.num_cpus cpu then (some s, Errno.einval) else (some (exclude cpu s), e)

unfoldable pub cpu_isset : ℤ → Option CpuSet → Errno → ℕ × Errno
cpu_isset cpu none e = (0, Errno.einval)
cpu_isset (negsuc n) (some s) e = (0, Errno.einval)
cpu_isset (pos cpu) (some s) e =
    if leb s.num_cpus cpu
    then (0, Errno.einval)
    else (if bit_and (group_of s cpu) (flag cpu) == 0 then 0 else 1, e)

-- The loop over `n` groups with the count so far.
unfoldable pub count_groups : (ℕ → ℕ) → ℕ → List ℕ → ℕ → ℕ
count_groups popcnt zero masks count = count
count_groups popcnt (suc n) [] count = count
count_groups popcnt (suc n) (m ∷ masks) count = count_groups popcnt n masks (count + popcnt m)

-- `none` is the -1 for NULL.
unfoldable pub cpu_count : (ℕ → ℕ) → Option CpuSet → Errno → Option ℕ × Errno
cpu_count popcnt none e = (none, Errno.einval)
cpu_count popcnt (some s) e = (some (count_groups popcnt s.num_groups s.group_mask 0), e)

-- The loop of `and`, `or` and `xor` over `n` groups.
unfoldable pub combine_groups : (ℕ → ℕ → ℕ) → ℕ → List ℕ → List ℕ → List ℕ → List ℕ
combine_groups f zero ds xs ys = ds
combine_groups f (suc n) (d ∷ ds) (x ∷ xs) (y ∷ ys) = f x y ∷ combine_groups f n ds xs ys
combine_groups f (suc n) ds xs ys = ds

unfoldable pub combine :
    (ℕ → ℕ → ℕ) → Option CpuSet → Option CpuSet → Option CpuSet → Errno → Option CpuSet × Errno
combine f (some d) (some a) (some b) e =
    if d.num_groups == a.num_groups && d.num_groups == b.num_groups
    then (
      some (record d {
        group_mask = combine_groups f d.num_groups d.group_mask a.group_mask b.group_mask;
      }),
      e,
    )
    else (some d, Errno.einval)
combine f d a b e = (d, Errno.einval)

abbrev pub cpu_and : Option CpuSet → Option CpuSet → Option CpuSet → Errno → Option CpuSet × Errno
cpu_and = combine bit_and

abbrev pub cpu_or : Option CpuSet → Option CpuSet → Option CpuSet → Errno → Option CpuSet × Errno
cpu_or = combine bit_or

abbrev pub cpu_xor : Option CpuSet → Option CpuSet → Option CpuSet → Errno → Option CpuSet × Errno
cpu_xor = combine bit_xor

unfoldable pub equal_groups : ℕ → List ℕ → List ℕ → Bool
equal_groups zero xs ys = true
equal_groups (suc n) (x ∷ xs) (y ∷ ys) =
    let rest = equal_groups n xs ys in if x == y then rest else false
equal_groups (suc n) xs ys = true

unfoldable pub cpu_equal : Option CpuSet → Option CpuSet → Errno → Bool × Errno
cpu_equal (some a) (some b) e =
    if not (a.num_groups == b.num_groups)
    then (false, e)
    else if not (a.num_cpus == b.num_cpus)
    then (false, e)
    else (equal_groups a.num_groups a.group_mask b.group_mask, e)
cpu_equal a b e = (false, Errno.einval)
