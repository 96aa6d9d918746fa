-- ===== src/Buffer/Advance.antt =====
-- How far the writers (src/internal/buffer.c and include/internal/buffer.h) move in a buffer of the memory kind.
use windows_libc.Common.{
  ℕ, ◌+◌, ◌≡◌, refl, sym, ◌∙◌, ◌⊎◌, inl, inr, Bool, true, false, Option, none, some, List, arith,
  ltb, ◌==◌, Bool-cases, length, ==_iff,
}
use windows_libc.Buffer.{
  Buffer, Writer, put, copy, grow, rounds, resize, resized, memory_buffer_write, after_room,
  writebyte, writen,
}

-- A buffer without room stands at its beginning.
abbrev pub Started : Buffer → Type 0
Started b = b.size ≡ 0 → b.pos ≡ 0

-- The buffer `c` has its error flag set, or stands `n` bytes behind `b`.
abbrev pub Advanced : Buffer → ℕ → Buffer → Type 0
Advanced b n c = (c.error ≡ true) ⊎ ((c.error ≡ false) × (c.pos ≡ b.pos + n) × Started c)

-- So it is where the writer returns.
abbrev pub Advances : Buffer → ℕ → Option (ℕ × Buffer) → Type 0
Advances b n none = Unit
Advances b n (some (m, c)) = Advanced b n c

-- What the callback leaves: the position, and no size of 0 where bytes were asked for.
abbrev Stays : Buffer → ℕ → Option Buffer → Type 0
Stays b n none = Unit
Stays b n (some c) =
    (c.error ≡ true) ⊎ ((c.error ≡ false) × (c.pos ≡ b.pos) × (c.size ≡ 0 → b.pos + n ≡ 0))

-- `realloc` to no bytes at all gives NULL.
module _ (alloc : ℕ → Bool) (frees : alloc 0 ≡ false) where
  resized-Stays :
      (b c : Buffer) (n : ℕ) (o : Option ℕ)
      → c.error ≡ false
      → c.pos ≡ b.pos
      → Stays b n (resized alloc c o)
  unfolding resize
  resized-Stays b c n none e p = tt
  resized-Stays b c n (some size) e p = elim (Bool-cases (alloc size)) [
    | inl given ↦ rw given (inr (e, p, λ z. absurd_size z given))
    | inr refused ↦ rw refused (inl refl)
  ]
    where
      absurd_size : {ℓ : ℕ} {k : ℕ} → k ≡ 0 → alloc k ≡ true → ℓ ≡ 0
      absurd_size z g = cc

  memory_buffer_write-Stays :
      (b : Buffer) (n : ℕ) → b.error ≡ false → Started b → Stays b n (memory_buffer_write alloc b n)
  unfolding memory_buffer_write
  memory_buffer_write-Stays b n e s = elim (Bool-cases (n == 0)) [
    | inl nothing ↦
        simp (e, nothing) (inr (refl, refl, λ z. omega (arith, s z, (==_iff _ _).0 nothing)))
    | inr some_bytes ↦ elim (Bool-cases (b.size == 0)) [
      | inl empty ↦
          simp (e, some_bytes, empty)
            (resized-Stays b _ n (grow rounds n 0 64) refl (sym (s ((==_iff _ _).0 empty))))
      | inr sized ↦
          simp (e, some_bytes, sized) (resized-Stays b b n (grow rounds n b.pos b.size) e refl)
    ]
  ]

  after_room-Advances :
      (b : Buffer) (act : Buffer → Buffer) (n : ℕ) (o : Option Buffer)
      → ((c : Buffer)
          → ((act c).error ≡ c.error) × ((act c).pos ≡ c.pos + n) × ((act c).size ≡ c.size))
      → Stays b n o
      → Advances b n (after_room o act n)
  after_room-Advances b act n none moves h = tt
  after_room-Advances b act n (some c) moves (inl failed) = rw failed (inl refl)
  after_room-Advances b act n (some c) moves (inr (e, p, z)) =
      let (same_error, moved, same_size) = moves c in
      simp e (
        inr (
          same_error ∙ e,
          omega (arith, moved, p),
          λ h. omega (arith, moved, p, z (sym same_size ∙ h)),
        ))

  -- A byte, or several, behind the position, unless the error flag is set.
  pub writebyte-Advances :
      (b : Buffer) (byte : ℕ)
      → b.error ≡ false
      → Started b
      → Advances b 1 (writebyte (some (memory_buffer_write alloc)) b byte)
  unfolding writebyte put
  writebyte-Advances b byte e s = elim (Bool-cases (ltb b.size (b.pos + 1))) [
    | inr room ↦ simp (e, room) (inr (refl, refl, λ z. absurd (ground arith)))
    | inl short ↦
        simp (e, short)
          (after_room-Advances b (λ c. put c byte) 1 _ (λ c. (refl, refl, refl))
            (memory_buffer_write-Stays b 1 e s))
  ]

  pub writen-Advances :
      (b : Buffer) (xs : List ℕ)
      → b.error ≡ false
      → Started b
      → Advances b (length xs) (writen (some (memory_buffer_write alloc)) b xs)
  unfolding writen copy
  writen-Advances b xs e s = elim (Bool-cases (ltb b.size (b.pos + length xs))) [
    | inr room ↦ simp (e, room) (inr (refl, refl, λ z. ground arith))
    | inl short ↦
        simp (e, short)
          (after_room-Advances b (λ c. copy c xs) (length xs) _ (λ c. (refl, refl, refl))
            (memory_buffer_write-Stays b (length xs) e s))
  ]

-- With the flag set nothing is written.
pub writebyte_failed :
    (write : Option Writer) (b : Buffer) (byte : ℕ)
    → b.error ≡ true
    → writebyte write b byte ≡ some (0, b)
unfolding writebyte
writebyte_failed write b byte e = rw e refl

pub writen_failed :
    (write : Option Writer) (b : Buffer) (xs : List ℕ)
    → b.error ≡ true
    → writen write b xs ≡ some (0, b)
unfolding writen
writen_failed write b xs e = rw e refl
