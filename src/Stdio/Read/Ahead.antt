-- ===== src/Stdio/Read/Ahead.antt =====
-- What a buffered read gives, against the bytes that the stream has ahead: those in its buffer behind
-- the position, and those that are left of the file.
use windows_libc.Common.{
  ℕ, ◌+◌, ◌-◌, ◌≤◌, ◌<◌, ◌≡◌, refl, ap, ◌∙◌, ◌⊎◌, inl, List, [], ◌++◌, append_assoc, arith, length,
  take, drop, length-take, length-drop, take_add, drop-drop,
}
use windows_libc.Stdio.{Device, Stream, io_eof, bytes_at}
use windows_libc.Stdio.Read.Loops.{Reads}

-- The buffer has its size and holds the bytes from `start` to `end`, the position among them.
pub record HasWindow {S : Type 0} (s : Stream S) : Type 0 where
  pub room : 0 < s.buf_size
  pub whole : length s.buffer ≡ s.buf_size
  pub from_start : s.start ≤ s.pos
  pub to_end : s.pos ≤ s.end
  pub held : s.end ≤ s.start + s.buf_size

-- The bytes in the buffer behind the position.
abbrev pub ready : {S : Type 0} → Stream S → List ℕ
ready s = bytes_at s.buffer (s.pos - s.start) (s.end - s.pos)

module _ {S : Type 0} (left : S → List ℕ) where
  abbrev pub ahead : Stream S → List ℕ
  ahead s = ready s ++ left s.device

  -- A read of `size` bytes took `xs` from the front of what was ahead: all of them, or all there was,
  -- and then it set the end-of-file flag.
  pub record Got (size : ℕ) (s : Stream S) (xs : List ℕ) (s' : Stream S) : Type 0 where
    pub window : HasWindow s'
    pub next : ahead s ≡ xs ++ ahead s'
    pub moved : s'.pos ≡ s.pos + length xs
    pub mode : s'.buf_mode ≡ s.buf_mode
    pub order : s'.prev_op ≡ s.prev_op
    pub complete :
        ((length xs ≡ size) × (s'.error ≡ s.error))
        ⊎ ((length xs < size) × (ahead s' ≡ []) × (s'.error ≡ io_eof))

module _ {S : Type 0} (dev : Device S) (left : S → List ℕ) (law : Reads dev left) where
  -- The request is in the buffer.
  pub held-Got :
      (size : ℕ) (s : Stream S)
      → HasWindow s
      → size ≤ s.end - s.pos
      → Got left size s (bytes_at s.buffer (s.pos - s.start) size) (record s { pos = s.pos + size })
  held-Got size s w enough = record {
    window = record {
      room = w.room;
      whole = w.whole;
      from_start = omega (arith, w.from_start);
      to_end = omega (arith, w.to_end);
      held = w.held;
    };
    next =
        let parts : s.end - s.pos ≡ size + (s.end - (s.pos + size)) = omega arith in
        let place : s.pos - s.start + size ≡ s.pos + size - s.start = omega (arith, w.from_start) in
        ap (λ n. bytes_at s.buffer (s.pos - s.start) n ++ left s.device) parts
        ∙ ap (λ ys. ys ++ left s.device)
            (take_add size (s.end - (s.pos + size)) (drop (s.pos - s.start) s.buffer)
              ∙ ap
                  (λ ys.
                    bytes_at s.buffer (s.pos - s.start) size ++ take (s.end - (s.pos + size)) ys)
                  (drop-drop (s.pos - s.start) size s.buffer ∙ ap (λ n. drop n s.buffer) place))
        ∙ append_assoc _ _ (left s.device);
    moved = omega (arith, count);
    mode = refl;
    order = refl;
    complete = inl (count, refl);
  }
    where
      count : length (bytes_at s.buffer (s.pos - s.start) size) ≡ size
      count = omega (
        arith,
        length-take size (drop (s.pos - s.start) s.buffer),
        length-drop (s.pos - s.start) s.buffer,
        w.whole,
        w.held,
        w.from_start,
        w.to_end,
      )
