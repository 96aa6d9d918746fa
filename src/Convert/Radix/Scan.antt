-- ===== src/Convert/Radix/Scan.antt =====
-- The reading loops, over the list of unread bytes.
use windows_libc.Common.{
  ℕ, zero, suc, ◌+◌, ◌*◌, ◌^◌, ◌<◌, ◌≡◌, refl, ap, ◌≢◌, ◌⊎◌, inl, inr, true, false, Option, none,
  some, List, [], ◌∷◌, arith, ◌==◌, Bool-cases, Option-cases, length, length-drop, u32, u64,
}
use windows_libc.Buffer.{Buffer, readbyte, peekbyte}
use windows_libc.Buffer.View.{Reads, peekbyte-get_or, readbyte-Reads}
use windows_libc.Convert.Radix.{Parsed, from_loop, read_rounds}

-- What the loop makes of the unread bytes.
pub record Scanned : Type 0 where
  pub count : ℕ
  pub value : ℕ
  pub rest : List ℕ

unfoldable pub scan : (ℕ → Option ℕ) → ℕ → List ℕ → ℕ → ℕ → Scanned
scan digit shift [] value count = record { count = count; value = value; rest = [] }
scan digit shift (x ∷ xs) value count = elim (x == 0) [
  | true ↦ record { count = count; value = value; rest = x ∷ xs }
  | false ↦ elim (digit x) [
    | none ↦ record { count = count; value = value; rest = x ∷ xs }
    | some d ↦ scan digit shift xs (u64 (value * 2 ^ shift + d)) (u32 (count + 1))
  ]
]

-- A reader returned what the scan says, and the buffer is behind what was read.
pub record Returns (s : Scanned) (o : Option Parsed) : Type 0 where
  pub behind : Buffer
  pub returns : o ≡ some (record { count = s.count; value = s.value; buffer = behind })
  pub reads : Reads behind s.rest

-- A byte at which the loop ends.
abbrev pub Ends : (ℕ → Option ℕ) → ℕ → Type 0
Ends digit x = (x ≡ 0) ⊎ (digit x ≡ none)

module _ (digit : ℕ → Option ℕ) (shift : ℕ) where
  from_loop_end :
      (fuel : ℕ) (b : Buffer) (value count : ℕ)
      → Ends digit (peekbyte b 0)
      → from_loop digit shift (suc fuel) b value count
        ≡ some (record { count = count; value = value; buffer = b })
  unfolding from_loop
  from_loop_end fuel b value count e = ground arith

  from_loop_digit :
      (fuel : ℕ) (b : Buffer) (value count : ℕ) {d : ℕ}
      → peekbyte b 0 ≢ 0
      → digit (peekbyte b 0) ≡ some d
      → from_loop digit shift (suc fuel) b value count
        ≡ from_loop digit shift fuel (readbyte b).1 (u64 (value * 2 ^ shift + d)) (u32 (count + 1))
  unfolding from_loop
  from_loop_digit fuel b value count n e = ground arith

  pub scan_end :
      (x : ℕ) (xs : List ℕ) (value count : ℕ)
      → Ends digit x
      → scan digit shift (x ∷ xs) value count
        ≡ record { count = count; value = value; rest = x ∷ xs }
  unfolding scan
  scan_end x xs value count e = ground arith

  pub scan_digit :
      (x : ℕ) (xs : List ℕ) (value count : ℕ) {d : ℕ}
      → x ≢ 0
      → digit x ≡ some d
      → scan digit shift (x ∷ xs) value count
        ≡ scan digit shift xs (u64 (value * 2 ^ shift + d)) (u32 (count + 1))
  unfolding scan
  scan_digit x xs value count n e = ground arith

  pub Ends-cases : (x : ℕ) → Ends digit x ⊎ ((x ≢ 0) × ((d : ℕ) × (digit x ≡ some d)))
  Ends-cases x = elim (Bool-cases (x == 0)) [
    | inl e ↦ inl (inl (ground arith))
    | inr e ↦ elim (Option-cases (digit x)) [
      | inl absent ↦ inl (inr absent)
      | inr found ↦ inr (ground arith, found)
    ]
  ]

  -- From every buffer that can be read the loop returns, with the scan of the unread bytes.
  pub from_loop-Returns :
      (fuel : ℕ) {b : Buffer} (xs : List ℕ) (value count : ℕ)
      → Reads b xs
      → length xs < fuel
      → Returns (scan digit shift xs value count) (from_loop digit shift fuel b value count)
  from_loop-Returns zero xs value count r h = absurd (omega arith)
  from_loop-Returns (suc fuel) {b} [] value count r h = record {
    behind = b;
    returns = unfold scan in from_loop_end fuel b value count (inl (peekbyte-get_or 0 r));
    reads = unfold scan in r;
  }
  from_loop-Returns (suc fuel) {b} (x ∷ xs) value count r h =
      let e : peekbyte b 0 ≡ x = peekbyte-get_or 0 r in
      elim (Ends-cases x) [
        | inl ends ↦
            rw (scan_end x xs value count ends, from_loop_end fuel b value count (rw e ends))
              (record { behind = b; returns = refl; reads = r })
        | inr (n, (d, is_digit)) ↦
            rw
              (
                scan_digit x xs value count {d = d} n is_digit,
                from_loop_digit fuel b value count {d = d} (rw e n) (rw e is_digit),
              )
              (from_loop-Returns fuel xs (u64 (value * 2 ^ shift + d)) (u32 (count + 1))
                (readbyte-Reads r).1 (omega arith))
      ]

pub length-rest : {b : Buffer} {xs : List ℕ} → Reads b xs → length xs < read_rounds b
unfolding read_rounds
length-rest {b} r = omega (arith, ap length r.left, length-drop b.pos b.bytes, r.whole)

-- The fuel that the model gives is enough.
pub reader-Returns :
    (digit : ℕ → Option ℕ) (shift : ℕ) {b : Buffer} {xs : List ℕ}
    → Reads b xs
    → Returns (scan digit shift xs 0 0) (from_loop digit shift (read_rounds b) b 0 0)
reader-Returns digit shift {b} {xs} r =
    from_loop-Returns digit shift (read_rounds b) xs 0 0 r (length-rest r)
