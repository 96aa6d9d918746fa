-- ===== src/Convert/Utf8/Sound.antt =====
-- What the UTF-8 decoder accepts.
use windows_libc.Common.{
  ℕ, ◌+◌, ◌*◌, ◌/◌, ◌%◌, ◌^◌, ◌≤◌, ◌<◌, ◌≡◌, refl, ◌⊎◌, inl, inr, Option, some, List, [], ◌∷◌,
  arith, leb, ◌==◌, Bool-cases, length, take, leb→le,
}
use windows_libc.Convert.Utf8.{
  utf8_encode, utf8_decode, lead4, continuation, at, decode_from, decode2, decode3, decode4,
  has_lead2, has_lead3, has_lead4,
}
use windows_libc.Convert.Utf8.Laws.{
  lead2-eq, lead3-eq, lead4-eq, continuation-eq, is_continuation-eq, has_lead2-eq, has_lead3-eq,
  has_lead4-eq, code2-eq, code3-eq, code4-eq,
}
use windows_libc.Convert.Utf8.RoundTrip.{four_bytes}
use windows_libc.Common.Bits.{bit_and_mask}

-- The code points that the decoder lets through.
abbrev IsDecoded : ℕ → Type 0
IsDecoded cp = (cp < 0x200000) × ((cp < 0xd800) ⊎ (0xdfff < cp))

-- The bytes from which the decoder got `cp`, as far as the encoder writes it.
record Accepts (xs : List ℕ) (size n cp : ℕ) : Type 0 where
  within : n ≤ size
  allowed : IsDecoded cp
  canonical : cp ≤ 0x10ffff → take n xs ≡ utf8_encode cp

take-two : (xs : List ℕ) → 2 ≤ length xs → take 2 xs ≡ at xs 0 ∷ at xs 1 ∷ []
take-two [] h = absurd (omega arith)
take-two (a ∷ []) h = absurd (omega arith)
take-two (a ∷ b ∷ xs) h = refl

take-three : (xs : List ℕ) → 3 ≤ length xs → take 3 xs ≡ at xs 0 ∷ at xs 1 ∷ at xs 2 ∷ []
take-three [] h = absurd (omega arith)
take-three (a ∷ xs) h = rw (take-two xs (omega arith))

take-four : (xs : List ℕ) → 4 ≤ length xs → take 4 xs ≡ at xs 0 ∷ at xs 1 ∷ at xs 2 ∷ at xs 3 ∷ []
take-four [] h = absurd (omega arith)
take-four (a ∷ xs) h = rw (take-three xs (omega arith))

take-one : (xs : List ℕ) → 1 ≤ length xs → take 1 xs ≡ at xs 0 ∷ []
take-one [] h = absurd (omega arith)
take-one (a ∷ xs) h = refl

encode_one : (b : ℕ) → b ≤ 0x7f → utf8_encode b ≡ b ∷ []
unfolding utf8_encode
encode_one b h = ground (arith, bit_and_mask 7 b)

encode_two :
    (a b : ℕ)
    → (a / 32) % 8 ≡ 6
    → (b / 64) % 4 ≡ 2
    → a < 256
    → b < 256
    → 0x80 ≤ a % 32 * 64 + b % 64
    → utf8_encode (a % 32 * 64 + b % 64) ≡ a ∷ b ∷ []
unfolding utf8_encode
encode_two a b ta tb ha hb l =
    let cp = a % 32 * 64 + b % 64 in ground (arith, lead2-eq (cp / 2 ^ 6), continuation-eq cp)

encode_three :
    (a b c : ℕ)
    → (a / 16) % 16 ≡ 14
    → (b / 64) % 4 ≡ 2
    → (c / 64) % 4 ≡ 2
    → a < 256
    → b < 256
    → c < 256
    → 0x800 ≤ a % 16 * 4096 + b % 64 * 64 + c % 64
    → utf8_encode (a % 16 * 4096 + b % 64 * 64 + c % 64) ≡ a ∷ b ∷ c ∷ []
unfolding utf8_encode
encode_three a b c ta tb tc ha hb hc l =
    let cp = a % 16 * 4096 + b % 64 * 64 + c % 64 in
    ground (arith, lead3-eq (cp / 2 ^ 12), continuation-eq (cp / 2 ^ 6), continuation-eq cp)

encode_four :
    (a b c d : ℕ)
    → (a / 8) % 32 ≡ 30
    → (b / 64) % 4 ≡ 2
    → (c / 64) % 4 ≡ 2
    → (d / 64) % 4 ≡ 2
    → a < 256
    → b < 256
    → c < 256
    → d < 256
    → 0x10000 ≤ a % 8 * 262144 + b % 64 * 4096 + c % 64 * 64 + d % 64
    → a % 8 * 262144 + b % 64 * 4096 + c % 64 * 64 + d % 64 ≤ 0x10ffff
    → utf8_encode (a % 8 * 262144 + b % 64 * 4096 + c % 64 * 64 + d % 64) ≡ a ∷ b ∷ c ∷ d ∷ []
unfolding utf8_encode
encode_four a b c d ta tb tc td ha hb hc hd l m =
    let cp = a % 8 * 262144 + b % 64 * 4096 + c % 64 * 64 + d % 64 in
    ground (
      arith,
      lead4-eq (cp / 2 ^ 18),
      continuation-eq (cp / 2 ^ 12),
      continuation-eq (cp / 2 ^ 6),
      continuation-eq cp,
    )

module _ (xs : List ℕ) (size : ℕ) (fits : size ≤ length xs) (bytes : (k : ℕ) → at xs k < 256)
    {n cp : ℕ} where
  decode2-Accepts :
      (at xs 0 / 32) % 8 ≡ 6 → decode2 (at xs 0) xs size ≡ some (n, cp) → Accepts xs size n cp
  unfolding decode2
  decode2-Accepts tag e = record {
    within = ground arith;
    allowed = ground (arith, code2-eq (at xs 0) xs);
    canonical = λ small. ground (
      arith,
      code2-eq (at xs 0) xs,
      is_continuation-eq (at xs 1),
      take-two xs,
      bytes 0,
      bytes 1,
      encode_two (at xs 0) (at xs 1),
    );
  }

  decode3-Accepts :
      (at xs 0 / 16) % 16 ≡ 14 → decode3 (at xs 0) xs size ≡ some (n, cp) → Accepts xs size n cp
  unfolding decode3
  decode3-Accepts tag e = record {
    within = ground arith;
    allowed = ground (arith, code3-eq (at xs 0) xs);
    canonical = λ small. ground (
      arith,
      code3-eq (at xs 0) xs,
      is_continuation-eq (at xs 1),
      is_continuation-eq (at xs 2),
      take-three xs,
      bytes 0,
      bytes 1,
      bytes 2,
      encode_three (at xs 0) (at xs 1) (at xs 2),
    );
  }

  decode4-Accepts :
      (at xs 0 / 8) % 32 ≡ 30 → decode4 (at xs 0) xs size ≡ some (n, cp) → Accepts xs size n cp
  unfolding decode4
  decode4-Accepts tag e = record {
    within = ground arith;
    allowed = ground (arith, code4-eq (at xs 0) xs);
    canonical = λ small. ground (
      arith,
      code4-eq (at xs 0) xs,
      is_continuation-eq (at xs 1),
      is_continuation-eq (at xs 2),
      is_continuation-eq (at xs 3),
      take-four xs,
      bytes 0,
      bytes 1,
      bytes 2,
      bytes 3,
      encode_four (at xs 0) (at xs 1) (at xs 2) (at xs 3),
    );
  }

  decode1-Accepts :
      at xs 0 ≤ 0x7f
      → 0 < size
      → ◌≡◌ {A = Option (ℕ × ℕ)} (some (1, at xs 0)) (some (n, cp))
      → Accepts xs size n cp
  decode1-Accepts h p e = record {
    within = ground arith;
    allowed = ground arith;
    canonical = λ small. ground (arith, encode_one (at xs 0), take-one xs);
  }

  decode_from-Accepts :
      0 < size → decode_from (at xs 0) xs size ≡ some (n, cp) → Accepts xs size n cp
  unfolding decode_from
  decode_from-Accepts p e = elim (Bool-cases (leb (at xs 0) 0x7f)) [
    | inl ascii ↦ decode1-Accepts (leb→le _ _ ascii) p (simp ascii at e)
    | inr n1 ↦ elim (Bool-cases (has_lead2 (at xs 0))) [
      | inl l2 ↦ decode2-Accepts (ground (arith, has_lead2-eq (at xs 0))) (simp (n1, l2) at e)
      | inr n2 ↦ elim (Bool-cases (has_lead3 (at xs 0))) [
        | inl l3 ↦ decode3-Accepts (ground (arith, has_lead3-eq (at xs 0))) (simp (n1, n2, l3) at e)
        | inr n3 ↦ elim (Bool-cases (has_lead4 (at xs 0))) [
          | inl l4 ↦
              decode4-Accepts (ground (arith, has_lead4-eq (at xs 0))) (simp (n1, n2, n3, l4) at e)
          | inr n4 ↦ absurd (ground arith)
        ]
      ]
    ]
  ]

  utf8_decode-Accepts : utf8_decode xs size ≡ some (n, cp) → Accepts xs size n cp
  unfolding utf8_decode
  utf8_decode-Accepts e = elim (Bool-cases (size == 0)) [
    | inl empty ↦ absurd (ground arith)
    | inr full ↦ decode_from-Accepts (ground arith) (simp full at e)
  ]

  -- What the decoder returns from a text of bytes that is at least as long as the size: a count
  -- within the size, and a code point below 2 ^ 21 that is no surrogate; and the code point is above
  -- those of Unicode, or the bytes counted are exactly those that the encoder writes for it, so an
  -- overlong form is never accepted.
  pub utf8_decode_sound :
      utf8_decode xs size ≡ some (n, cp)
      → (n ≤ size)
        × (cp < 0x200000)
        × ((cp < 0xd800) ⊎ (0xdfff < cp))
        × ((0x10ffff < cp) ⊎ (take n xs ≡ utf8_encode cp))
  utf8_decode_sound e =
      let a = utf8_decode-Accepts e in
      let spelled : (0x10ffff < cp) ⊎ (take n xs ≡ utf8_encode cp) =
        elim (Bool-cases (leb cp 0x10ffff)) [
          | inl small ↦ inr (a.canonical (leb→le _ _ small))
          | inr large ↦ inl (ground arith)
        ] in
      (a.within, a.allowed.0, a.allowed.1, spelled)

-- The decoder has no upper bound: every code point above those of Unicode that four bytes can spell
-- is returned by it from the bytes of the four-byte form, while the encoder refuses the code point.
pub utf8_decode_above :
    (cp : ℕ) (rest : List ℕ)
    → 0x10ffff < cp
    → cp < 0x200000
    → (utf8_encode cp ≡ [])
      × (utf8_decode
            (lead4 (cp / 2 ^ 18)
              ∷ continuation (cp / 2 ^ 12)
              ∷ continuation (cp / 2 ^ 6)
              ∷ continuation cp
              ∷ rest)
            4
          ≡ some (4, cp))
unfolding utf8_encode
utf8_decode_above cp rest l h =
    (ground arith, four_bytes cp rest 4 (omega arith) (omega arith) (omega arith))
