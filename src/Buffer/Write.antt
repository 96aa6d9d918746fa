-- ===== src/Buffer/Write.antt =====
-- The writers of the buffer (`writebyte`, `writen`) over `memory_buffer_write`, and the well-formed
-- buffers.
use windows_libc.Common.{
  ℕ, suc, ◌+◌, ◌-◌, ◌^◌, ◌≤◌, ◌<◌, ◌≡◌, refl, sym, ap, ◌∙◌, ◌⊎◌, inl, inr, Bool, true, false,
  Option, some, List, [], ◌∷◌, ◌++◌, append_assoc, arith, ltb, ◌==◌, Bool-cases, length, take, drop,
  replicate, length-append, length-set, length-take, length-drop, length-replicate, take-append,
  take-take-append, take-set,
}
use windows_libc.Buffer.{
  Buffer, put, copy, grow, rounds, resize, resized, memory_buffer_write, after_room, writebyte,
  writen,
}
use windows_libc.Buffer.Grow.{Room, grow-Room}

-- A buffer without error has as many bytes as it says, and its position among them.
pub record IsValid (b : Buffer) : Type 0 where
  pub no_error : b.error ≡ false
  pub whole : length b.bytes ≡ b.size
  pub within : b.pos ≤ b.size
  pub small : b.size < 2 ^ 63

-- The bytes written so far.
abbrev pub content : Buffer → List ℕ
content b = take b.pos b.bytes

-- The buffer `c` is `b` with room for `n` bytes more.
pub record HasRoom (b : Buffer) (n : ℕ) (c : Buffer) : Type 0 where
  pub valid : IsValid c
  pub kept : content c ≡ content b
  pub same_pos : c.pos ≡ b.pos
  pub room : c.pos + n ≤ c.size

-- The buffer `c` is `b` with the bytes `xs` written behind what was there.
pub record Wrote (b : Buffer) (xs : List ℕ) (c : Buffer) : Type 0 where
  pub valid : IsValid c
  pub written : content c ≡ content b ++ xs

put-Wrote : {b c : Buffer} (byte : ℕ) → HasRoom b 1 c → Wrote b (byte ∷ []) (put c byte)
unfolding put
put-Wrote {b} {c} byte r = record {
  valid = record {
    no_error = r.valid.no_error;
    whole = length-set c.bytes c.pos byte ∙ r.valid.whole;
    within = r.room;
    small = r.valid.small;
  };
  written =
      let e : c.pos + 1 ≡ suc c.pos = omega arith in
      rw (e, ← r.kept) (take-set c.bytes c.pos byte (omega (arith, r.valid.whole, r.room)));
}

copy-Wrote : {b c : Buffer} (xs : List ℕ) → HasRoom b (length xs) c → Wrote b xs (copy c xs)
unfolding copy
copy-Wrote {b} {c} xs r = record {
  valid = record {
    no_error = r.valid.no_error;
    whole = omega (
      arith,
      length-append (take c.pos c.bytes) (xs ++ drop (c.pos + length xs) c.bytes),
      length-append xs (drop (c.pos + length xs) c.bytes),
      length-take c.pos c.bytes,
      length-drop (c.pos + length xs) c.bytes,
    );
    within = r.room;
    small = r.valid.small;
  };
  written =
      let cut : length (take c.pos c.bytes) ≡ c.pos = omega (arith, length-take c.pos c.bytes) in
      rw (← r.kept, ← append_assoc (take c.pos c.bytes) xs)
        (take-append (take c.pos c.bytes ++ xs) (drop (c.pos + length xs) c.bytes)
          (c.pos + length xs) (omega (arith, cut, length-append (take c.pos c.bytes) xs)));
}

-- What the callback gives: room, or the error flag.
abbrev Granted : Buffer → ℕ → Buffer → Type 0
Granted b n c = HasRoom b n c ⊎ (c.error ≡ true)

resize-Granted :
    (alloc : ℕ → Bool) {b : Buffer} (n size : ℕ)
    → IsValid b
    → b.pos + n ≤ size
    → b.size ≤ size
    → size < 2 ^ 63
    → Granted b n (resize alloc b size)
unfolding resize
resize-Granted alloc {b} n size v room grown small = elim (Bool-cases (alloc size)) [
  | inr fails ↦ inr (rw fails)
  | inl works ↦ inl (
      rw works (record {
        valid = record {
          no_error = v.no_error;
          whole = omega (
            arith,
            v.whole,
            length-append (take b.size b.bytes) (replicate (size - b.size) 0),
            length-take b.size b.bytes,
            length-replicate {A = ℕ} (size - b.size) 0,
          );
          within = omega arith;
          small = small;
        };
        kept =
            take-take-append b.pos b.size b.bytes (replicate (size - b.size) 0) v.within
              (omega (arith, v.whole));
        same_pos = refl;
        room = room;
      }))
]

abbrev Answers : Buffer → ℕ → Option Buffer → Type 0
Answers b n o = (c : Buffer) × (o ≡ some c) × Granted b n c

resized-Answers :
    (alloc : ℕ → Bool) (b : Buffer) (n : ℕ) {size : ℕ} {o : Option ℕ}
    → IsValid b
    → b.size ≤ size
    → size < 2 ^ 63
    → b.pos + n < 2 ^ 62
    → Room b.pos n size o
    → Answers b n (resized alloc b o)
unfolding resize
resized-Answers alloc b n v grown bound small r = rw r.returns (
  resize alloc b r.new_size,
  refl,
  resize-Granted alloc n r.new_size v r.fits (omega (arith, r.at_least))
      (omega (arith, r.at_most, v.small)),
)

mbw_full :
    (alloc : ℕ → Bool) (b : Buffer) (n : ℕ)
    → b.error ≡ false
    → 0 < n
    → 0 < b.size
    → memory_buffer_write alloc b n ≡ resized alloc b (grow rounds n b.pos b.size)
unfolding memory_buffer_write
mbw_full alloc b n e p q = ground arith

abbrev emptied : Buffer → Buffer
emptied b = record b { pos = 0; bytes = []; size = 0 }

mbw_empty :
    (alloc : ℕ → Bool) (b : Buffer) (n : ℕ)
    → b.error ≡ false
    → 0 < n
    → b.size ≡ 0
    → memory_buffer_write alloc b n ≡ resized alloc (emptied b) (grow rounds n 0 64)
unfolding memory_buffer_write
mbw_empty alloc b n e p q = ground arith

emptied-IsValid : {b : Buffer} → IsValid b → IsValid (emptied b)
emptied-IsValid v = record {
  no_error = v.no_error;
  whole = refl;
  within = omega arith;
  small = omega arith;
}

emptied-Answers :
    {b : Buffer} {n : ℕ} {o : Option Buffer} → b.pos ≡ 0 → Answers (emptied b) n o → Answers b n o
emptied-Answers {b} e (c, answered, inr failed) = (c, answered, inr failed)
emptied-Answers {b} e (c, answered, inl r) = (
  c,
  answered,
  inl (record {
    valid = r.valid;
    kept = r.kept ∙ sym (ap (λ p. take p b.bytes) e);
    same_pos = r.same_pos ∙ sym e;
    room = r.room;
  }),
)

memory_buffer_write-Answers :
    (alloc : ℕ → Bool) {b : Buffer} (n : ℕ)
    → IsValid b
    → b.size < b.pos + n
    → b.pos + n < 2 ^ 62
    → Answers b n (memory_buffer_write alloc b n)
memory_buffer_write-Answers alloc {b} n v short small = elim (Bool-cases (b.size == 0)) [
  | inl empty ↦
      let no_bytes : b.size ≡ 0 = ground arith in
      let at_start : b.pos ≡ 0 = omega (arith, v.within) in
      rw (mbw_empty alloc b n v.no_error (omega arith) no_bytes) (
        emptied-Answers at_start (
          resized-Answers alloc (emptied b) n (emptied-IsValid v) (omega arith) (omega arith)
            (omega arith)
            (grow-Room n 0 64 (omega arith) (omega arith) (omega arith) (omega arith))))
  | inr full ↦
      let some_bytes : 0 < b.size = ground arith in
      rw (mbw_full alloc b n v.no_error (omega (arith, v.within)) some_bytes) (
        resized-Answers alloc b n v (omega arith) v.small small
          (grow-Room n b.pos b.size some_bytes v.within small v.small))
]

-- The end of a write: all bytes written, or none and the error flag.
abbrev pub Written : Buffer → List ℕ → Option (ℕ × Buffer) → Type 0
Written b xs o =
    (n : ℕ) × (c : Buffer) × (o ≡ some (n, c))
    × (((n ≡ length xs) × Wrote b xs c) ⊎ ((n ≡ 0) × (c.error ≡ true)))

already : {b : Buffer} {n : ℕ} → IsValid b → b.pos + n ≤ b.size → HasRoom b n b
already v r = record { valid = v; kept = refl; same_pos = refl; room = r }

after_room-Written :
    {b : Buffer} (xs : List ℕ) (act : Buffer → Buffer) {o : Option Buffer}
    → ((c : Buffer) → HasRoom b (length xs) c → Wrote b xs (act c))
    → Answers b (length xs) o
    → Written b xs (after_room o act (length xs))
after_room-Written xs act ok (c, answered, inr failed) =
    (0, c, rw (answered, failed), inr (refl, failed))
after_room-Written xs act ok (c, answered, inl r) =
    (length xs, act c, rw (answered, r.valid.no_error), inl (refl, ok c r))

-- On a well-formed buffer of the memory kind, `writebyte` always returns. It has put the byte
-- behind the bytes written so far and kept the buffer well formed, or it returned 0 with the error
-- flag set. The content has to stay below 2 ^ 62 bytes.
pub writebyte-Written :
    (alloc : ℕ → Bool) {b : Buffer} (byte : ℕ)
    → IsValid b
    → b.pos + 1 < 2 ^ 62
    → Written b (byte ∷ []) (writebyte (some (memory_buffer_write alloc)) b byte)
unfolding writebyte
writebyte-Written alloc {b} byte v small = elim (Bool-cases (ltb b.size (b.pos + 1))) [
  | inr room ↦ (
    1,
    put b byte,
    simp (v.no_error, room),
    inl (refl, put-Wrote byte (already v (ground arith))),
  )
  | inl short ↦
      simp (v.no_error, short)
        (after_room-Written (byte ∷ []) (λ c. put c byte) (λ c r. put-Wrote byte r)
          (memory_buffer_write-Answers alloc 1 v (ground arith) small))
]

-- On a well-formed buffer of the memory kind, `writen` always returns. It has put all the bytes
-- behind those written so far and kept the buffer well formed, or it returned 0 with the error flag
-- set. The content has to stay below 2 ^ 62 bytes.
pub writen-Written :
    (alloc : ℕ → Bool) {b : Buffer} (xs : List ℕ)
    → IsValid b
    → b.pos + length xs < 2 ^ 62
    → Written b xs (writen (some (memory_buffer_write alloc)) b xs)
unfolding writen
writen-Written alloc {b} xs v small = elim (Bool-cases (ltb b.size (b.pos + length xs))) [
  | inr room ↦ (
    length xs,
    copy b xs,
    simp (v.no_error, room),
    inl (refl, copy-Wrote xs (already v (ground arith))),
  )
  | inl short ↦
      simp (v.no_error, short)
        (after_room-Written xs (λ c. copy c xs) (λ c r. copy-Wrote xs r)
          (memory_buffer_write-Answers alloc (length xs) v (ground arith) small))
]
