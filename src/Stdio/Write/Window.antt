-- ===== src/Stdio/Write/Window.antt =====
-- The buffered part of `common_fwrite` by the window: the bytes fit, the window is the empty buffer, or
-- the buffer is filled and written.
use windows_libc.Common.{
  ℕ, ◌+◌, ◌-◌, ◌≤◌, ◌<◌, ◌^◌, u64_of_lt, ◌≡◌, refl, sym, ap, ◌∙◌, ◌⊎◌, inl, inr, true, false, some,
  List, [], ◌++◌, append-nil, append_assoc, arith, leb, ◌==◌, Bool-cases, length, take, drop,
  length-append, length-take, length-drop, take-append, take_all, take-append-drop, length_zero,
  leb→le,
}
use windows_libc.Stdio.{Device, Stream, minus, minus_of_le, overwrite, bytes_at, was_write}
use windows_libc.Stdio.Write.{filled, buffered}
use windows_libc.Stdio.Read.Ahead.{HasWindow}
use windows_libc.Stdio.Write.Loops.{Writes, output, Took, write_rest-Took}

module _ {S : Type 0} (dev : Device S) (written : S → List ℕ) (law : Writes dev written) where
  module _ (bytes : List ℕ) (s : Stream S) (w : HasWindow s)
      (writing : was_write s.prev_op ≡ true) where
    room : minus s.end s.pos ≡ s.end - s.pos
    room = minus_of_le _ _ w.to_end

    offset : minus s.pos s.start ≡ s.pos - s.start
    offset = minus_of_le _ _ w.from_start

    -- The bytes fit into the window.
    fit-Took :
        length bytes ≤ s.end - s.pos
        → s.pos + length bytes < 2 ^ 64
        → (s' : Stream S) × (buffered dev bytes s ≡ some (length bytes, s'))
          × Took dev written law s (length bytes) (output written s ++ bytes) s'
    unfolding buffered
    fit-Took fits low =
        let test : leb (length bytes) (s.end - s.pos) ≡ true = ground arith in
        let front : length (take (s.pos - s.start) s.buffer) ≡ s.pos - s.start = omega (
          arith,
          length-take (s.pos - s.start) s.buffer,
          w.whole,
          w.held,
          w.to_end,
          w.from_start,
        ) in
        let back = drop (s.pos - s.start + length bytes) s.buffer in
        (
          record s {
            buffer = overwrite s.buffer (s.pos - s.start) bytes;
            pos = s.pos + length bytes;
          },
          simp (room, offset, test, u64_of_lt (s.pos + length bytes) low) refl,
          record {
            window = record {
              room = w.room;
              whole = omega (
                arith,
                front,
                length-append (take (s.pos - s.start) s.buffer) (bytes ++ back),
                length-append bytes back,
                length-drop (s.pos - s.start + length bytes) s.buffer,
                w.whole,
                w.held,
                w.to_end,
                w.from_start,
              );
              from_start = omega (arith, w.from_start);
              to_end = omega (arith, w.to_end);
              held = w.held;
            };
            whole = inr (inr refl);
            put = rw writing (
                ap (λ ys. written s.device ++ ys)
                  (ap (λ ys. take (s.pos + length bytes - s.start) ys)
                      (sym (append_assoc (take (s.pos - s.start) s.buffer) bytes back))
                    ∙ take-append (take (s.pos - s.start) s.buffer ++ bytes) back _ (
                        omega (
                          arith,
                          front,
                          w.from_start,
                          length-append (take (s.pos - s.start) s.buffer) bytes,
                        )))
                ∙ sym (append_assoc (written s.device) _ bytes));
            moved = refl;
          },
        )

    -- The window is the whole, empty buffer.
    direct-Took :
        s.end ≡ s.pos + s.buf_size
        → s.pos + length bytes + s.buf_size < 2 ^ 64
        → (s' : Stream S) × (buffered dev bytes s ≡ some (length bytes, s'))
          × Took dev written law s (length bytes) (output written s ++ bytes) s'
    unfolding buffered
    direct-Took empty low = elim (Bool-cases (leb (length bytes) (s.end - s.pos))) [
      | inl fits ↦ fit-Took (leb→le _ _ fits) (omega (arith, low))
      | inr more ↦
          let whole : (s.end - s.pos == s.buf_size) ≡ true = ground arith in
          let none_pending : s.pos - s.start ≡ 0 = omega (arith, w.held, w.from_start) in
          let (s', returned, took) =
            write_rest-Took dev written law bytes 0 s w.room w.whole writing (omega arith) low in
          (
            s',
            simp (room, offset, more, whole) returned,
            record {
              window = took.window;
              whole = took.whole;
              put =
                  took.put
                  ∙ ap (λ ys. ys ++ bytes)
                      (rw (writing, none_pending) (sym (append-nil (written s.device))));
              moved = took.moved;
            },
          )
    ]

    -- The buffer is filled to the end of the window, and written as far as its own end.
    pub full-Took :
        s.end - s.pos < length bytes
        → s.end < s.pos + s.buf_size
        → s.pos + length bytes + s.buf_size < 2 ^ 64
        → (s' : Stream S) × (buffered dev bytes s ≡ some (length bytes, s'))
          × Took dev written law s
              (length bytes)
              (output written s
                ++ (take (s.end - s.pos) bytes
                    ++ (drop (s.end - s.start) s.buffer ++ drop (s.end - s.pos) bytes)))
              s'
    unfolding buffered filled
    full-Took more held low =
        let over : leb (length bytes) (s.end - s.pos) ≡ false = ground arith in
        let part : (s.end - s.pos == s.buf_size) ≡ false = ground (arith, w.to_end) in
        let front = take (s.pos - s.start) s.buffer in
        let middle = take (s.end - s.pos) bytes in
        let back = drop (s.pos - s.start + length middle) s.buffer in
        let front_length : length front ≡ s.pos - s.start = omega (
          arith,
          length-take (s.pos - s.start) s.buffer,
          w.whole,
          w.held,
          w.to_end,
          w.from_start,
        ) in
        let middle_length : length middle ≡ s.end - s.pos =
          omega (arith, length-take (s.end - s.pos) bytes) in
        let size : length (front ++ (middle ++ back)) ≡ s.buf_size = omega (
          arith,
          front_length,
          middle_length,
          length-append front (middle ++ back),
          length-append middle back,
          length-drop (s.pos - s.start + length middle) s.buffer,
          w.whole,
          w.held,
          w.to_end,
          w.from_start,
        ) in
        let stale : s.pos - s.start + length middle ≡ s.end - s.start =
          omega (arith, middle_length, w.from_start, w.to_end) in
        let block = bytes_at (front ++ (middle ++ back)) 0 s.buf_size in
        let d = (dev.write s.device block).1 in
        let (s', returned, took) =
          write_rest-Took dev written law bytes (s.end - s.pos)
            (record s { buffer = front ++ (middle ++ back); device = d }) w.room size writing
            (omega arith) low in
        (
          s',
          simp (room, offset, over, part)
              (ap
                  (λ o.
                    filled dev bytes (s.end - s.pos) (o, d)
                      (record s { buffer = front ++ (middle ++ back) }))
                  (law.takes_all s.device block)
                ∙ returned),
          record {
            window = took.window;
            whole = took.whole;
            put =
                took.put
                ∙ rw writing (
                    ap (λ ys. ys ++ drop (s.end - s.pos) bytes)
                      (law.puts s.device block
                        ∙ ap (λ ys. written s.device ++ ys)
                            (take_all s.buf_size (front ++ (middle ++ back)) (omega (arith, size))
                              ∙ ap (λ n. front ++ (middle ++ drop n s.buffer)) stale))
                    ∙ simp append_assoc refl);
            moved = took.moved;
          },
        )

    -- In a window that is the whole buffer, or has room, nothing comes between the bytes.
    pub buffered-Took :
        (s.end ≡ s.start + s.buf_size) ⊎ (length bytes ≤ s.end - s.pos)
        → s.pos + length bytes + s.buf_size < 2 ^ 64
        → (s' : Stream S) × (buffered dev bytes s ≡ some (length bytes, s'))
          × Took dev written law s (length bytes) (output written s ++ bytes) s'
    buffered-Took (inr fits) low = fit-Took fits (omega (arith, low))
    buffered-Took (inl exact) low = elim (Bool-cases (leb (length bytes) (s.end - s.pos))) [
      | inl fits ↦ fit-Took (leb→le _ _ fits) (omega (arith, low))
      | inr more ↦ elim (Bool-cases (s.end == s.pos + s.buf_size)) [
        | inl empty ↦ direct-Took (ground arith) low
        | inr held ↦
            let (s', returned, took) =
              full-Took (ground arith) (ground (arith, w.from_start)) low in
            let no_stale : drop (s.end - s.start) s.buffer ≡ [] =
              length_zero _ (omega (arith, length-drop (s.end - s.start) s.buffer, w.whole)) in
            (
              s',
              returned,
              record {
                window = took.window;
                whole = took.whole;
                put =
                    took.put
                    ∙ ap (λ ys. output written s ++ ys)
                        (ap (λ ys. take (s.end - s.pos) bytes ++ (ys ++ drop (s.end - s.pos) bytes))
                            no_stale
                          ∙ take-append-drop (s.end - s.pos) bytes);
                moved = took.moved;
              },
            )
      ]
    ]
