-- ===== src/Buffer/Grow.antt =====
-- The growth of the buffer in `memory_buffer_write` (src/internal/buffer.c).
use native.Mathlib.Nat.{pow-succ'}
use windows_libc.Common.{
  ℕ, zero, suc, ◌+◌, ◌-◌, ◌*◌, ◌^◌, ◌≤◌, ◌<◌, ◌≡◌, ap, arith, max, ltb, Option, some, if◌then◌else◌,
  Bool-cases, inl, inr, u64,
}
use windows_libc.Buffer.{grow, rounds}

grow_step :
    (f need used size : ℕ)
    → used ≤ size
    → size < 2 ^ 63
    → grow (suc f) need used size
      ≡ (if ltb (size - used) need then grow f need used (size * 2) else some size)
unfolding grow
grow_step f need used size u h =
    let e : u64 (size + 2 ^ 64 - used) ≡ size - used = omega arith in
    let e' : u64 (size * 2) ≡ size * 2 = omega arith in rw (e, e')

-- The room that a grown size gives.
pub record Room (used need size : ℕ) (result : Option ℕ) : Type 0 where
  pub new_size : ℕ
  pub returns : result ≡ some new_size
  pub fits : used + need ≤ new_size
  pub at_least : size ≤ new_size
  pub at_most : new_size ≤ max size (2 * (used + need))

Room-double :
    {used need size : ℕ} {result : Option ℕ}
    → Room used need (size * 2) result
    → size < used + need
    → Room used need size result
Room-double r short = record {
  new_size = r.new_size;
  returns = r.returns;
  fits = r.fits;
  at_least = omega (arith, r.at_least);
  at_most = omega (arith, r.at_most);
}

-- With the target within `f` doublings, `f + 1` rounds are enough.
grow_within :
    (f need used size : ℕ)
    → used ≤ size
    → used + need ≤ size * 2 ^ f
    → used + need < 2 ^ 62
    → size < 2 ^ 63
    → Room used need size (grow (suc f) need used size)
grow_within zero need used size u t h l = record {
  new_size = size;
  returns = rw (grow_step 0 need used size u l) (ground arith);
  fits = omega arith;
  at_least = omega arith;
  at_most = omega arith;
}
grow_within (suc f) need used size u t h l = elim (Bool-cases (ltb (size - used) need)) [
  | inr stop ↦ record {
    new_size = size;
    returns = rw (grow_step (suc f) need used size u l, stop);
    fits = ground arith;
    at_least = omega arith;
    at_most = omega arith;
  }
  | inl more ↦
      let short : size < used + need = ground arith in
      let target : used + need ≤ size * 2 * 2 ^ f =
        omega (arith, ap (λ (p : ℕ). size * p) (pow-succ' 2 f)) in
      rw (grow_step (suc f) need used size u l, more)
        (Room-double (grow_within f need used (size * 2) (omega arith) target h (omega arith))
          short)
]

-- The rounds that the model allows reach every size below 2 ^ 62.
pub grow-Room :
    (need used size : ℕ)
    → 0 < size
    → used ≤ size
    → used + need < 2 ^ 62
    → size < 2 ^ 63
    → Room used need size (grow rounds need used size)
grow-Room need used size p u h l = grow_within 64 need used size u (omega arith) h l
