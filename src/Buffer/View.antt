-- ===== src/Buffer/View.antt =====
-- Reading the buffer, seen as the list of the bytes that are left.
use windows_libc.Common.{
  ℕ, zero, suc, ◌+◌, ◌≤◌, ◌≡◌, refl, sym, ap, ◌∙◌, inl, inr, false, List, [], ◌∷◌, arith, ltb, leb,
  Bool-cases, length, get_or, drop, drop-cons,
}
use windows_libc.Buffer.{Buffer, readbyte, peekbyte}

-- The buffer `b` has no error and its unread bytes are `xs`.
pub record Reads (b : Buffer) (xs : List ℕ) : Type 0 where
  pub no_error : b.error ≡ false
  pub whole : length b.bytes ≡ b.size
  pub left : drop b.pos b.bytes ≡ xs

get_or-drop : (xs : List ℕ) (n k : ℕ) → get_or (drop n xs) k 0 ≡ get_or xs (n + k) 0
get_or-drop xs zero k = let e : 0 + k ≡ k = omega arith in rw e
get_or-drop [] (suc n) zero = refl
get_or-drop [] (suc n) (suc k) = refl
get_or-drop (x ∷ xs) (suc n) k =
    let e : suc n + k ≡ suc (n + k) = omega arith in rw e (get_or-drop xs n k)

get_or_beyond : (xs : List ℕ) (n : ℕ) → length xs ≤ n → get_or xs n 0 ≡ 0
get_or_beyond [] n h = refl
get_or_beyond (x ∷ xs) zero h = absurd (omega arith)
get_or_beyond (x ∷ xs) (suc n) h = get_or_beyond xs n (omega arith)

-- Looking ahead reads the unread bytes by index, 0 standing behind the last.
pub peekbyte-get_or : {b : Buffer} {xs : List ℕ} (k : ℕ) → Reads b xs → peekbyte b k ≡ get_or xs k 0
unfolding peekbyte
peekbyte-get_or {b} k r = elim (Bool-cases (leb b.size (b.pos + k))) [
  | inl beyond ↦
      simp (r.no_error, beyond, ← r.left, get_or-drop)
        (sym (get_or_beyond b.bytes (b.pos + k) (ground (arith, r.whole))))
  | inr inside ↦ simp (r.no_error, inside, ← r.left, get_or-drop)
]

-- Reading a buffer without error that has unread bytes takes the first of them and leaves the others.
pub readbyte-Reads :
    {b : Buffer} {x : ℕ} {xs : List ℕ}
    → Reads b (x ∷ xs)
    → ((readbyte b).0 ≡ x) × Reads (readbyte b).1 xs
unfolding readbyte
readbyte-Reads {b} {x} {xs} r =
    let (below, here, after) = drop-cons b.bytes b.pos r.left in
    let inside : ltb b.size (b.pos + 1) ≡ false = ground (arith, r.whole) in
    let e : b.pos + 1 ≡ suc b.pos = omega arith in
    let e' : b.pos + 0 ≡ b.pos = omega arith in
    let first : get_or b.bytes b.pos 0 ≡ x =
      rw e' at (sym (get_or-drop b.bytes b.pos 0) ∙ ap (λ ys. get_or ys 0 0) r.left) in
    simp (r.no_error, inside)
      (first, record { no_error = refl; whole = r.whole; left = rw e after })
