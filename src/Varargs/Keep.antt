-- ===== src/Varargs/Keep.antt =====
-- The state of `variadic_args` (include/internal/varargs.h) while arguments are read.
use windows_libc.Common.{
  ℕ, zero, suc, ◌+◌, ◌^◌, ◌≤◌, ◌<◌, ◌≡◌, refl, ◌∙◌, Bool, false, some, arith, u32,
}
use windows_libc.Varargs.{VariadicArgs, default_size, read_static, read_extra, read_rest}

-- The state keeps the first `read_count` arguments, has room for them, and that room is below 2 ^ 31 places.
pub record Keeps (source : ℕ → ℕ) (a : VariadicArgs) : Type 0 where
  pub taken_count : a.taken ≡ a.read_count
  pub current_le : a.current_index ≤ a.read_count
  pub static_kept : (i : ℕ) → i < default_size → i < a.read_count → a.kept i ≡ some (source i)
  pub extra_kept :
      (i : ℕ) → default_size + i < a.read_count → a.extra i ≡ some (source (default_size + i))
  pub room : a.read_count ≤ default_size + a.extra_capacity
  pub no_block : a.has_extra ≡ false → a.extra_capacity ≡ 0
  pub modest : a.extra_capacity < 2 ^ 31

-- More arguments were read, the rest is as before.
pub record Reaches (a b : VariadicArgs) (n : ℕ) : Type 0 where
  pub read_more : b.read_count ≡ n
  pub same_current : b.current_index ≡ a.current_index
  pub same_capacity : b.extra_capacity ≡ a.extra_capacity
  pub same_block : b.has_extra ≡ a.has_extra

pub Reaches-refl : (a : VariadicArgs) {n : ℕ} → a.read_count ≡ n → Reaches a a n
Reaches-refl a e = record {
  read_more = e;
  same_current = refl;
  same_capacity = refl;
  same_block = refl;
}

Reaches-trans :
    {a b c : VariadicArgs} {n m k : ℕ} → Reaches a b n → Reaches b c m → m ≡ k → Reaches a c k
Reaches-trans r q e = record {
  read_more = q.read_more ∙ e;
  same_current = q.same_current ∙ r.same_current;
  same_capacity = q.same_capacity ∙ r.same_capacity;
  same_block = q.same_block ∙ r.same_block;
}

module _ (alloc : ℕ → Bool) (source : ℕ → ℕ) where
  pub read_static-Keeps :
      (a : VariadicArgs)
      → Keeps source a
      → a.read_count < default_size
      → Keeps source (read_static alloc source a)
        × Reaches a (read_static alloc source a) (a.read_count + 1)
  unfolding read_static
  read_static-Keeps a k h =
      let next : u32 (a.read_count + 1) ≡ a.read_count + 1 = omega arith in
      (
        record {
          taken_count = omega (arith, k.taken_count);
          current_le = omega (arith, k.current_le);
          static_kept = λ i l m. rw (k.taken_count) (ground (arith, k.static_kept i));
          extra_kept = λ i m. absurd (omega arith);
          room = omega arith;
          no_block = k.no_block;
          modest = omega (arith, k.modest);
        },
        record { read_more = next; same_current = refl; same_capacity = refl; same_block = refl },
      )

  pub read_extra-Keeps :
      (a : VariadicArgs)
      → Keeps source a
      → default_size ≤ a.read_count
      → a.read_count < default_size + a.extra_capacity
      → a.read_count + 1 < 2 ^ 32
      → Keeps source (read_extra alloc source a)
        × Reaches a (read_extra alloc source a) (a.read_count + 1)
  unfolding read_extra
  read_extra-Keeps a k h r s =
      let next : u32 (a.read_count + 1) ≡ a.read_count + 1 = omega arith in
      (
        record {
          taken_count = omega (arith, k.taken_count);
          current_le = omega (arith, k.current_le);
          static_kept = λ i l m. k.static_kept i l (omega arith);
          extra_kept = λ i m. rw k.taken_count (ground (arith, k.extra_kept i));
          room = omega arith;
          no_block = k.no_block;
          modest = omega (arith, k.modest);
        },
        record { read_more = next; same_current = refl; same_capacity = refl; same_block = refl },
      )

  -- As many rounds of the first loop as there is place for.
  pub read_rest_static :
      (n : ℕ) (a : VariadicArgs)
      → Keeps source a
      → n + a.read_count ≤ default_size
      → Keeps source (read_rest alloc source (read_static alloc source) n a)
        × Reaches a (read_rest alloc source (read_static alloc source) n a) (n + a.read_count)
  unfolding read_rest
  read_rest_static zero a k h = (k, Reaches-refl a (omega arith))
  read_rest_static (suc n) a k h =
      let (k', r) = read_static-Keeps a k (omega arith) in
      let (k'', r') =
        read_rest_static n (read_static alloc source a) k' (omega (arith, r.read_more)) in
      (k'', Reaches-trans r r' (omega (arith, r.read_more)))

  pub read_rest_extra :
      (n : ℕ) (a : VariadicArgs)
      → Keeps source a
      → default_size ≤ a.read_count
      → n + a.read_count ≤ default_size + a.extra_capacity
      → n + a.read_count < 2 ^ 32
      → Keeps source (read_rest alloc source (read_extra alloc source) n a)
        × Reaches a (read_rest alloc source (read_extra alloc source) n a) (n + a.read_count)
  unfolding read_rest
  read_rest_extra zero a k l h s = (k, Reaches-refl a (omega arith))
  read_rest_extra (suc n) a k l h s =
      let (k', r) = read_extra-Keeps a k l (omega arith) (omega arith) in
      let (k'', r') =
        read_rest_extra n (read_extra alloc source a) k' (omega (arith, r.read_more))
          (omega (arith, r.read_more, r.same_capacity)) (omega (arith, r.read_more)) in
      (k'', Reaches-trans r r' (omega (arith, r.read_more)))
