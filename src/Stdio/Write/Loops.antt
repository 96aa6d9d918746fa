-- ===== src/Stdio/Write/Loops.antt =====
-- The output of a stream, and the direct writes of `common_fwrite` with the rest that goes into the
-- buffer.
use windows_libc.Common.{
  ℕ, zero, suc, ◌+◌, ◌-◌, ◌≤◌, ◌<◌, ◌^◌, u64_of_lt, ◌≡◌, refl, sym, ap, ◌∙◌, ◌⊎◌, inl, inr, Bool,
  true, Option, some, List, [], ◌++◌, append-nil, append_assoc, arith, ltb, if◌then◌else◌,
  Bool-cases, length, take, drop, length-append, length-take, length-drop, take-append, take_add,
  drop-drop, take-append-drop, ltb→lt, lt→ltb,
}
use windows_libc.Common.Int.{ℤ}
use windows_libc.Stdio.{Device, Stream, Whence, overwrite, bytes_at, was_write}
use windows_libc.Stdio.Write.{after, write_direct, keep_rest, write_rest}
use windows_libc.Stdio.Read.Ahead.{HasWindow}

-- What `write` and `lseek` promise of a descriptor without errors, `written` being all the bytes that
-- were written to it, in order: a write takes all its bytes, a seek none.
pub record Writes {S : Type 0} (dev : Device S) (written : S → List ℕ) : Type 0 where
  pub takes_all : (d : S) (xs : List ℕ) → (dev.write d xs).0 ≡ some (length xs)
  pub puts : (d : S) (xs : List ℕ) → written (dev.write d xs).1 ≡ written d ++ xs
  pub seeks :
      (d : S) (offset : ℤ) (whence : Whence) → written (dev.lseek d offset whence).1 ≡ written d

-- The bytes in the buffer that were not written yet.
abbrev pub pending : {S : Type 0} → Stream S → List ℕ
pending s = if was_write s.prev_op then bytes_at s.buffer 0 (s.pos - s.start) else []

-- The window of the stream is empty or is the whole buffer, or the bytes fit into it.
abbrev pub Fresh : {S : Type 0} → List ℕ → Stream S → Type 0
Fresh bytes s = (s.start ≡ s.end) ⊎ (s.end ≡ s.start + s.buf_size) ⊎ (length bytes ≤ s.end - s.pos)

module _ {S : Type 0} (written : S → List ℕ) where
  -- What the descriptor got and will get.
  abbrev pub output : Stream S → List ℕ
  output s = written s.device ++ pending s

module _ {S : Type 0} (dev : Device S) (written : S → List ℕ) (law : Writes dev written) where
  -- The loop writes whole buffers and leaves at most one.
  record Direct (bytes : List ℕ) (buf_size : ℕ) (d : S) (r : Option (ℕ × Bool × S)) : Type 0 where
    count : ℕ
    device : S
    returned : r ≡ some (count, true, device)
    put : written device ≡ written d ++ take count bytes
    within : count ≤ length bytes
    rest : length bytes ≤ count + buf_size

  write_direct-Direct :
      (fuel : ℕ) (bytes : List ℕ) (buf_size : ℕ) (d : S)
      → 0 < buf_size
      → length bytes < fuel
      → Direct bytes buf_size d (write_direct dev fuel bytes buf_size true d)
  unfolding write_direct after
  write_direct-Direct zero bytes buf_size d some_room enough = absurd (omega (arith, enough))
  write_direct-Direct (suc fuel) bytes buf_size d some_room enough =
      elim (Bool-cases (ltb buf_size (length bytes))) [
        | inr few ↦ record {
          count = 0;
          device = d;
          returned = rw (few, write_direct) refl;
          put = sym (append-nil (written d));
          within = omega arith;
          rest = ground arith;
        }
        | inl more ↦
            let big : buf_size < length bytes = ltb→lt _ _ more in
            let got : length (take buf_size bytes) ≡ buf_size =
              omega (arith, length-take buf_size bytes) in
            let some_written : ltb 0 buf_size ≡ true = lt→ltb _ _ some_room in
            let d' = (dev.write d (take buf_size bytes)).1 in
            let r =
              write_direct-Direct fuel (drop buf_size bytes) buf_size d' some_room
                (omega (arith, length-drop buf_size bytes)) in
            record {
              count = buf_size + r.count;
              device = r.device;
              returned =
                  rw
                    (
                      more,
                      law.takes_all d (take buf_size bytes) ∙ ap some got,
                      some_written,
                      r.returned,
                      write_direct,
                    )
                    refl;
              put =
                  r.put
                  ∙ ap (λ ys. ys ++ take r.count (drop buf_size bytes))
                      (law.puts d (take buf_size bytes))
                  ∙ append_assoc (written d) _ _
                  ∙ ap (λ ys. written d ++ ys) (sym (take_add buf_size r.count bytes));
              within = omega (arith, r.within, length-drop buf_size bytes);
              rest = omega (arith, r.rest, length-drop buf_size bytes);
            }
      ]

  -- The stream took all the bytes: the output grew by `out`.
  pub record Took (s : Stream S) (length_of : ℕ) (out : List ℕ) (s' : Stream S) : Type 0 where
    pub window : HasWindow s'
    pub whole : (s'.start ≡ s'.end) ⊎ (s'.end ≡ s'.start + s'.buf_size) ⊎ (s'.end ≡ s.end)
    pub put : output written s' ≡ out
    pub moved : s'.pos ≡ s.pos + length_of

  -- The direct writes, and the rest in the buffer.
  pub write_rest-Took :
      (bytes : List ℕ) (n : ℕ) (s : Stream S)
      → 0 < s.buf_size
      → length s.buffer ≡ s.buf_size
      → was_write s.prev_op ≡ true
      → n ≤ length bytes
      → s.pos + length bytes + s.buf_size < 2 ^ 64
      → (s' : Stream S) × (write_rest dev bytes n s ≡ some (length bytes, s'))
        × Took s (length bytes) (written s.device ++ drop n bytes) s'
  write_rest-Took bytes n s room whole writing within low =
      let r =
        write_direct-Direct (suc (length (drop n bytes))) (drop n bytes) s.buf_size s.device room
          (omega arith) in
      let rest = drop (n + r.count) bytes in
      let total : n + r.count + length rest ≡ length bytes =
        omega (arith, r.within, length-drop n bytes, length-drop (n + r.count) bytes) in
      let small : length rest ≤ s.buf_size =
        omega (arith, r.rest, length-drop n bytes, length-drop (n + r.count) bytes) in
      let s' = record s {
        buffer = overwrite s.buffer 0 rest;
        start = s.pos + (n + r.count);
        end = s.pos + (n + r.count) + s.buf_size;
        pos = s.pos + (n + r.count) + length rest;
        device = r.device;
      } in
      let kept : keep_rest bytes n (some (r.count, true, r.device)) s
          ≡ some (n + r.count + length rest, s') =
        unfold keep_rest in
        rw
          (
            u64_of_lt (s.pos + (n + r.count)) (omega (arith, total, low)),
            u64_of_lt (s.pos + (n + r.count) + s.buf_size) (omega (arith, total, low)),
            u64_of_lt (s.pos + (n + r.count) + length rest) (omega (arith, total, low)),
          )
          refl in
      let place : s.pos + (n + r.count) + length rest - (s.pos + (n + r.count)) ≡ length rest =
        omega arith in
      (
        s',
        ap (λ o. keep_rest bytes n o s) r.returned ∙ kept ∙ ap (λ m. some (m, s')) total,
        record {
          window = record {
            room = room;
            whole = omega (
              arith,
              length-append rest (drop (0 + length rest) s.buffer),
              length-drop (0 + length rest) s.buffer,
              whole,
              small,
            );
            from_start = omega arith;
            to_end = omega (arith, small);
            held = omega arith;
          };
          whole = inr (inl refl);
          put = rw writing (
              ap (λ k. written r.device ++ take k (rest ++ drop (0 + length rest) s.buffer)) place
              ∙ ap (λ ys. written r.device ++ ys) (take-append rest _ (length rest) refl)
              ∙ ap (λ ys. ys ++ rest) r.put
              ∙ append_assoc (written s.device) _ rest
              ∙ ap (λ ys. written s.device ++ ys)
                  (ap (λ ys. take r.count (drop n bytes) ++ ys) (sym (drop-drop n r.count bytes))
                    ∙ take-append-drop r.count (drop n bytes)));
          moved = omega (arith, total);
        },
      )
