-- ===== src/Stdio/Read/Blocks.antt =====
-- The last reads of `common_fread`, which take bytes from the descriptor, against the bytes ahead.
use windows_libc.Common.{
  ℕ, suc, ◌+◌, ◌-◌, ◌≤◌, ◌<◌, min, ◌≡◌, refl, sym, ap, ◌∙◌, inl, inr, List, [], ◌++◌, append_assoc,
  arith, ltb, Bool-cases, length, take, drop, length-append, length-take, length-drop, take-append,
  take-append-drop, drop_append_le, length_zero,
}
use windows_libc.Stdio.{Device, Stream, io_eof, overwrite}
use windows_libc.Stdio.Read.{direct, fill, unbuffer, keep_block}
use windows_libc.Stdio.Read.Loops.{Reads, Direct}
use windows_libc.Stdio.Read.Fill.{Fill}
use windows_libc.Stdio.Read.Ahead.{HasWindow, ready, ahead, Got}

module _ {S : Type 0} (dev : Device S) (left : S → List ℕ) (law : Reads dev left) where
  -- Nothing is in the buffer after the direct reads.
  unbuffer-HasWindow :
      (got : List ℕ) (s : Stream S)
      → 0 < s.buf_size
      → length s.buffer ≡ s.buf_size
      → HasWindow (unbuffer got s)
  unfolding unbuffer
  unbuffer-HasWindow got s room whole = record {
    room = room;
    whole = whole;
    from_start = omega arith;
    to_end = omega arith;
    held = omega arith;
  }

  unbuffer-ahead : (got : List ℕ) (s : Stream S) → ahead left (unbuffer got s) ≡ left s.device
  unfolding unbuffer
  unbuffer-ahead got s =
      let nothing_held : s.pos + length got - (s.pos + length got) ≡ 0 = omega arith in
      rw nothing_held refl

  -- The end of a read that takes bytes from the descriptor: `got` went to the target so far.
  module _ (size : ℕ) (s : Stream S) (w : HasWindow s)
      (d : Direct dev left law size (ready s) s (direct dev (suc size) size (ready s) s)) where
    same_buffer : d.after.buffer ≡ s.buffer
    same_buffer = ap (λ (v : Stream S). v.buffer) d.same

    same_mode : d.after.buf_mode ≡ s.buf_mode
    same_mode = ap (λ (v : Stream S). v.buf_mode) d.same

    same_order : d.after.prev_op ≡ s.prev_op
    same_order = ap (λ (v : Stream S). v.prev_op) d.same

    same_size : d.after.buf_size ≡ s.buf_size
    same_size = ap (λ (v : Stream S). v.buf_size) d.same

    same_pos : d.after.pos ≡ s.pos
    same_pos = ap (λ (v : Stream S). v.pos) d.same

    pub unbuffer-HasWindow_after : HasWindow (unbuffer d.all d.after)
    unbuffer-HasWindow_after =
        unbuffer-HasWindow d.all d.after (omega (arith, w.room, same_size))
          (ap length same_buffer ∙ w.whole ∙ sym same_size)

    -- The direct reads met the end of the file.
    pub over-Got :
        length d.all < size
        → left d.after.device ≡ []
        → d.after.error ≡ io_eof
        → Got left size s d.all (unbuffer d.all d.after)
    over-Got short over flag = record {
      window = unbuffer-HasWindow_after;
      next = d.next ∙ ap (λ ys. d.all ++ ys) (sym (unbuffer-ahead d.all d.after));
      moved = unfold unbuffer in ap (λ p. p + length d.all) same_pos;
      mode = unfold unbuffer in same_mode;
      order = unfold unbuffer in same_order;
      complete = inr (short, unbuffer-ahead d.all d.after ∙ over, unfold unbuffer in flag);
    }

    module _
        (f : Fill dev left law
          (size - length d.all)
          []
          (unbuffer d.all d.after)
          (fill dev (suc d.after.buf_size) (size - length d.all) [] (unbuffer d.all d.after)))
        (last : size ≤ length d.all + s.buf_size) (quiet : d.after.error ≡ s.error) where
      fill_size : f.after.buf_size ≡ s.buf_size
      fill_size = ap (λ (v : Stream S). v.buf_size) f.same ∙ unfold unbuffer in same_size

      fill_mode : f.after.buf_mode ≡ s.buf_mode
      fill_mode = ap (λ (v : Stream S). v.buf_mode) f.same ∙ unfold unbuffer in same_mode

      fill_order : f.after.prev_op ≡ s.prev_op
      fill_order = ap (λ (v : Stream S). v.prev_op) f.same ∙ unfold unbuffer in same_order

      fill_buffer : f.after.buffer ≡ s.buffer
      fill_buffer = ap (λ (v : Stream S). v.buffer) f.same ∙ unfold unbuffer in same_buffer

      fill_pos : f.after.pos ≡ s.pos + length d.all
      fill_pos =
          ap (λ (v : Stream S). v.pos) f.same
          ∙ unfold unbuffer in ap (λ p. p + length d.all) same_pos

      fill_start : f.after.start ≡ s.pos + length d.all
      fill_start =
          ap (λ (v : Stream S). v.start) f.same
          ∙ unfold unbuffer in ap (λ p. p + length d.all) same_pos

      fill_end : f.after.end ≡ s.pos + length d.all
      fill_end =
          ap (λ (v : Stream S). v.end) f.same
          ∙ unfold unbuffer in ap (λ p. p + length d.all) same_pos

      -- What was ahead, split behind the last block.
      split : ahead left s ≡ d.all ++ (f.block ++ left f.after.device)
      split = d.next ∙ ap (λ ys. d.all ++ ys) (unfold unbuffer in f.next)

      unbuffered_error : (unbuffer d.all d.after).error ≡ s.error
      unbuffered_error = unfold unbuffer in quiet

      -- The last block is empty.
      empty-Got : length f.block ≡ 0 → Got left size s d.all f.after
      empty-Got none_read = record {
        window = record {
          room = omega (arith, fill_size, w.room);
          whole = ap length fill_buffer ∙ w.whole ∙ sym fill_size;
          from_start = omega (arith, fill_start, fill_pos);
          to_end = omega (arith, fill_end, fill_pos);
          held = omega (arith, fill_start, fill_end);
        };
        next =
            split
            ∙ ap (λ ys. d.all ++ ys)
                (ap (λ ys. ys ++ left f.after.device) (length_zero f.block none_read)
                  ∙ sym only_left);
        moved = fill_pos;
        mode = fill_mode;
        order = fill_order;
        complete = elim f.outcome [
          | inl (inl enough, kept) ↦
              inl (omega (arith, enough, none_read, d.within), kept ∙ unbuffered_error)
          | inl (inr full, kept) ↦ absurd (omega (arith, full, none_read, w.room, unbuffered_size))
          | inr (short, over, flag) ↦ inr (omega (arith, short, none_read), only_left ∙ over, flag)
        ];
      }
        where
          only_left : ahead left f.after ≡ left f.after.device
          only_left =
              let nothing_held : f.after.end - f.after.pos ≡ 0 =
                omega (arith, fill_end, fill_pos) in
              rw nothing_held refl

          unbuffered_size : (unbuffer d.all d.after).buf_size ≡ s.buf_size
          unbuffered_size = unfold unbuffer in same_size

      -- What the target gets of the last block.
      abbrev taken : ℕ
      taken = min (size - length d.all) (length f.block)

      abbrev kept : Stream S
      kept = record f.after {
        buffer = overwrite f.after.buffer 0 f.block;
        end = f.after.pos + length f.block;
        start = f.after.pos;
        pos = f.after.pos + taken;
      }

      block_within : length f.block ≤ s.buf_size
      block_within = omega (arith, f.within, unbuffered_size)
        where
          unbuffered_size : (unbuffer d.all d.after).buf_size ≡ s.buf_size
          unbuffered_size = unfold unbuffer in same_size

      kept_ready : ready kept ≡ drop taken f.block
      kept_ready =
          let rest = drop (0 + length f.block) f.after.buffer in
          let place : f.after.pos + taken - f.after.pos ≡ taken = omega arith in
          let count : f.after.pos + length f.block - (f.after.pos + taken)
              ≡ length (drop taken f.block) =
            omega (arith, length-drop taken f.block) in
          ap (λ n. take n (drop (f.after.pos + taken - f.after.pos) (f.block ++ rest))) count
          ∙ ap (λ n. take (length (drop taken f.block)) (drop n (f.block ++ rest))) place
          ∙ ap (λ ys. take (length (drop taken f.block)) ys)
              (drop_append_le taken f.block rest (omega arith))
          ∙ take-append (drop taken f.block) rest (length (drop taken f.block)) refl

      block-Got : Got left size s (d.all ++ take taken f.block) kept
      block-Got = record {
        window = record {
          room = omega (arith, fill_size, w.room);
          whole = omega (
            arith,
            length-append f.block (drop (0 + length f.block) f.after.buffer),
            length-drop (0 + length f.block) f.after.buffer,
            ap length fill_buffer,
            w.whole,
            fill_size,
            block_within,
          );
          from_start = omega arith;
          to_end = omega arith;
          held = omega (arith, block_within, fill_size);
        };
        next =
            split
            ∙ ap (λ ys. d.all ++ (ys ++ left f.after.device)) (sym (take-append-drop taken f.block))
            ∙ ap (λ ys. d.all ++ ys) (append_assoc (take taken f.block) (drop taken f.block) _)
            ∙ sym (append_assoc d.all (take taken f.block) _)
            ∙ ap (λ ys. (d.all ++ take taken f.block) ++ (ys ++ left f.after.device))
                (sym kept_ready);
        moved =
            omega (
              arith,
              fill_pos,
              length-append d.all (take taken f.block),
              length-take taken f.block,
            );
        mode = fill_mode;
        order = fill_order;
        complete = elim f.outcome [
          | inl (inl enough, quiet') ↦
              inl (omega (arith, enough, total, d.within), quiet' ∙ unbuffered_error)
          | inl (inr full, quiet') ↦
              inl
                (omega (arith, full, total, d.within, last, unbuffered), quiet' ∙ unbuffered_error)
          | inr (short, over, flag) ↦
              let everything : length (drop taken f.block) ≡ 0 =
                omega (arith, length-drop taken f.block, short) in
              inr (
                omega (arith, total, short),
                ap (λ ys. ys ++ left f.after.device) (kept_ready ∙ length_zero _ everything) ∙ over,
                flag,
              )
        ];
      }
        where
          total : length (d.all ++ take taken f.block) ≡ length d.all + taken
          total = omega (arith, length-append d.all (take taken f.block), length-take taken f.block)

          unbuffered : (unbuffer d.all d.after).buf_size ≡ s.buf_size
          unbuffered = unfold unbuffer in same_size

      pub keep_block-Got :
          Got left size s
            (keep_block (size - length d.all) d.all f.block f.after).0
            (keep_block (size - length d.all) d.all f.block f.after).1
      unfolding keep_block
      keep_block-Got = elim (Bool-cases (ltb 0 (length f.block))) [
        | inr none_read ↦ simp none_read (empty-Got (ground arith))
        | inl some_read ↦ simp some_read block-Got
      ]
