-- ===== src/Common/Bits/Digits.antt =====
-- Digit `i` of a number, and the digits of `&`, `|` and `^`.
use Prim.Native.Nat.{
  ℕ, zero, suc, ◌+◌, ◌-◌, ◌*◌, ◌/◌, ◌%◌, ◌^◌, ◌≤◌, ◌<◌, min, max, differ, digits, bitwise,
}
use Prim.Native.Nat.{bit_and, bit_or, bit_xor, bit_and-bitwise, bit_or-bitwise, bit_xor-bitwise}
use mathlib.Core.Path.{◌≡◌, refl, ◌∙◌}
use native.Mathlib.Nat.{pow-suc}
use native.Mathlib.Omega.{arith}

module _ (z : ℕ → ℕ) (f : ℕ → ℕ → ℕ) where
  -- One digit to go more than is needed changes nothing.
  digits_grow : (n a b : ℕ) → a ≤ n → digits z f (suc n) a b ≡ digits z f n a b
  digits_grow zero zero b h = refl
  digits_grow zero (suc a) b h = absurd (omega arith)
  digits_grow (suc n) zero b h = refl
  digits_grow (suc n) (suc a) b h = rw (digits_grow n (suc a / 2) (b / 2) (omega arith))

  digits_settle : (k n a b : ℕ) → n ≡ k + a → digits z f n a b ≡ bitwise z f a b
  digits_settle zero n a b e = let e' : n ≡ a = omega arith in rw e'
  digits_settle (suc k) zero a b e = absurd (omega arith)
  digits_settle (suc k) (suc n) a b e =
      digits_grow n a b (omega arith) ∙ digits_settle k n a b (omega arith)

  -- An operation that means the recursion is computed from the halves and the lowest digits, from
  -- the first number 1 on.
  from_halves :
      (op : ℕ → ℕ → ℕ)
      → ((x y : ℕ) → op x y ≡ bitwise z f x y)
      → (x y : ℕ) → op (suc x) y ≡ op (suc x / 2) (y / 2) * 2 + f (suc x % 2) (y % 2)
  from_halves op means x y =
      simp means (rw (digits_settle (x - suc x / 2) x (suc x / 2) (y / 2) (omega arith)))

-- The operation `op` on words is `f` on their lowest digits and `op` on their halves.
abbrev Halves : (ℕ → ℕ → ℕ) → (ℕ → ℕ → ℕ) → Type 0
Halves op f = (x y : ℕ) → op x y ≡ op (x / 2) (y / 2) * 2 + f (x % 2) (y % 2)

pub bit_and_step : Halves bit_and min
bit_and_step zero y = simp bit_and-bitwise (omega arith)
bit_and_step (suc x) y = from_halves (λ b. 0) min bit_and bit_and-bitwise x y

pub bit_or_step : Halves bit_or max
bit_or_step zero y = simp bit_or-bitwise (omega arith)
bit_or_step (suc x) y = from_halves (λ b. b) max bit_or bit_or-bitwise x y

pub bit_xor_step : Halves bit_xor differ
bit_xor_step zero y = simp bit_xor-bitwise (omega arith)
bit_xor_step (suc x) y = from_halves (λ b. b) differ bit_xor bit_xor-bitwise x y

-- Digit `i`, the lowest being digit 0.
abbrev pub bit : ℕ → ℕ → ℕ
bit zero a = a % 2
bit (suc i) a = bit i (a / 2)

pub bit-le-one : (i a : ℕ) → bit i a ≤ 1
bit-le-one zero a = omega arith
bit-le-one (suc i) a = bit-le-one i (a / 2)

half_and : (a b : ℕ) → bit_and a b / 2 ≡ bit_and (a / 2) (b / 2)
half_and a b = omega (arith, bit_and_step a b)

half_or : (a b : ℕ) → bit_or a b / 2 ≡ bit_or (a / 2) (b / 2)
half_or a b = omega (arith, bit_or_step a b)

pub differ-le-one : (a b : ℕ) → differ (a % 2) (b % 2) ≤ 1
differ-le-one a b = go (a % 2) (b % 2) (omega arith) (omega arith)
  where
    go : (x y : ℕ) → x ≤ 1 → y ≤ 1 → differ x y ≤ 1
    go zero y p q = q
    go (suc x) zero p q = p
    go (suc x) (suc y) p q = go x y (omega arith) (omega arith)

half_xor : (a b : ℕ) → bit_xor a b / 2 ≡ bit_xor (a / 2) (b / 2)
half_xor a b = omega (arith, bit_xor_step a b, differ-le-one a b)

pub bit-bit_and : (i a b : ℕ) → bit i (bit_and a b) ≡ min (bit i a) (bit i b)
bit-bit_and zero a b = omega (arith, bit_and_step a b)
bit-bit_and (suc i) a b = rw half_and (bit-bit_and i (a / 2) (b / 2))

pub bit-bit_or : (i a b : ℕ) → bit i (bit_or a b) ≡ max (bit i a) (bit i b)
bit-bit_or zero a b = omega (arith, bit_or_step a b)
bit-bit_or (suc i) a b = rw half_or (bit-bit_or i (a / 2) (b / 2))

pub bit-bit_xor : (i a b : ℕ) → bit i (bit_xor a b) ≡ differ (bit i a) (bit i b)
bit-bit_xor zero a b = omega (arith, bit_xor_step a b, differ-le-one a b)
bit-bit_xor (suc i) a b = rw half_xor (bit-bit_xor i (a / 2) (b / 2))

-- Two words of `k` digits are equal when their digits are.
pub bit_ext : (k a b : ℕ) → a < 2 ^ k → b < 2 ^ k → ((i : ℕ) → i < k → bit i a ≡ bit i b) → a ≡ b
bit_ext zero a b p q h = omega arith
bit_ext (suc k) a b p q h = omega (
  arith,
  h 0 (omega arith),
  pow-suc 2 k,
  bit_ext k (a / 2) (b / 2) (omega (arith, pow-suc 2 k)) (omega (arith, pow-suc 2 k))
      (λ i lt. h (suc i) (omega arith)),
)

-- A word below 2 ^ k has no digit at `k` or above.
pub bit-lt : (k i a : ℕ) → a < 2 ^ k → k ≤ i → bit i a ≡ 0
bit-lt zero zero a h l = omega arith
bit-lt zero (suc i) a h l = bit-lt zero i (a / 2) (omega arith) (omega arith)
bit-lt (suc k) zero a h l = absurd (omega arith)
bit-lt (suc k) (suc i) a h l = bit-lt k i (a / 2) (omega (arith, pow-suc 2 k)) (omega arith)
