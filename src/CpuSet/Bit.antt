-- ===== src/CpuSet/Bit.antt =====
-- One digit of a word: the test, the setting and the clearing of `1ull << k`.
use windows_libc.Common.{
  ℕ, zero, suc, ◌-◌, ◌*◌, ◌/◌, ◌%◌, ◌^◌, ◌≤◌, ◌<◌, bit_and, bit_or, ◌≡◌, refl, sym, ap, ◌∙◌, inl,
  inr, arith, ltb, ◌==◌, if◌then◌else◌, Bool-cases, ltb→lt,
}
use windows_libc.Common.Bits.{
  bit, bit-bit_and, bit-bit_or, bit-pow, bit-complement, bit_and_mask, bit_and_high, bit-le-one,
  bit-lt,
}
use windows_libc.CpuSet.{flag}
use native.Mathlib.Nat.{pow-succ', div-div-eq-div-mul, one-le-pow, pow-le-pow_right, pow-suc}

pub bit-div : (i a : ℕ) → bit i a ≡ a / 2 ^ i % 2
bit-div zero a = omega arith
bit-div (suc i) a = bit-div i (a / 2) ∙ rw (pow-succ' 2 i, div-div-eq-div-mul a 2 (2 ^ i)) refl

pub small-pow : (k : ℕ) → k < 64 → 2 ^ k < 2 ^ 64
small-pow k h =
    let most : 2 ^ suc k ≤ 2 ^ 64 = pow-le-pow_right {n = 2} (omega arith) {i = suc k} {j = 64} h in
    omega (arith, pow-suc 2 k, one-le-pow k 2 (omega arith))

pub flag-pow : (cpu : ℕ) → flag cpu ≡ 2 ^ (cpu % 64)
flag-pow cpu = ground (arith, small-pow (cpu % 64) (omega arith))

only_digit : (m k : ℕ) → bit_and m (2 ^ k) ≡ m / 2 ^ k % 2 * 2 ^ k
only_digit m k =
    let one : 1 * 2 ^ k ≡ 2 ^ k = omega arith in
    let high : bit_and m (1 * 2 ^ k) ≡ bit_and (m / 2 ^ k) 1 * 2 ^ k = bit_and_high k m 1 in
    let low : bit_and (m / 2 ^ k) 1 ≡ m / 2 ^ k % 2 = bit_and_mask 1 (m / 2 ^ k) in
    ap (bit_and m) (sym one) ∙ high ∙ ap (λ x. x * 2 ^ k) low

pub test-bit : (m k : ℕ) → (if bit_and m (2 ^ k) == 0 then 0 else 1) ≡ bit k m
test-bit m k = elim (Bool-cases (m / 2 ^ k % 2 == 0)) [
  | inl off ↦
      let d : m / 2 ^ k % 2 ≡ 0 = ground arith in rw (only_digit m k, bit-div k m, d) (ground arith)
  | inr on ↦
      let d : m / 2 ^ k % 2 ≡ 1 = ground arith in
      rw (only_digit m k, bit-div k m, d) (ground (arith, one-le-pow k 2))
]

-- Digit `j` of a word after digit `k` was set.
pub bit-set : (m k j : ℕ) → bit j (bit_or m (2 ^ k)) ≡ (if j == k then 1 else bit j m)
bit-set m k j = ground (arith, bit-bit_or j m (2 ^ k), bit-pow j k, bit-le-one j m)

-- Digit `j` of a word after digit `k` was cleared.
pub bit-clear :
    (m k j : ℕ)
    → m < 2 ^ 64
    → k < 64
    → bit j (bit_and m (2 ^ 64 - 1 - 2 ^ k)) ≡ (if j == k then 0 else bit j m)
bit-clear m k j fits small = elim (Bool-cases (ltb j 64)) [
  | inl low ↦ ground (
    arith,
    bit-bit_and j m (2 ^ 64 - 1 - 2 ^ k),
    bit-complement 64 j (2 ^ k) (small-pow k small) (ltb→lt j 64 low),
    bit-pow j k,
    bit-le-one j m,
  )
  | inr high ↦
      ground (arith, bit-bit_and j m (2 ^ 64 - 1 - 2 ^ k), bit-lt 64 j m fits (ground arith))
]
