-- ===== src/Stdio/Read/Refine.antt =====
-- `common_fread` on a buffered stream as a read of the bytes ahead.
use windows_libc.Common.{
  ℕ, suc, ◌+◌, ◌-◌, ◌*◌, ◌/◌, ◌^◌, ◌≤◌, ◌<◌, ◌≡◌, refl, ap, ◌∙◌, inl, inr, Bool, true, false,
  Option, some, List, [], arith, ltb, leb, Bool-cases, length, drop, length-append, length-take,
  length-drop, leb→le, u64,
}
use native.Mathlib.Nat.{mul-div_cancel_left}
use windows_libc.Stdio.{
  Device, Stream, clear, op_read, was_write, minus, minus_of_le, bytes_at, allocate,
}
use windows_libc.Stdio.Read.{
  direct, fill, unbuffer, keep_block, after_fill, last_block, buffered, start_reading, counted,
  buffered_read, fread,
}
use windows_libc.Stdio.Read.Loops.{Reads, direct-Direct}
use windows_libc.Stdio.Read.Fill.{fill-Fill}
use windows_libc.Stdio.Read.Ahead.{HasWindow, ready, ahead, Got, held-Got}
use windows_libc.Stdio.Read.Blocks.{over-Got, keep_block-Got}

module _ {S : Type 0} (dev : Device S) (left : S → List ℕ) (law : Reads dev left) where
  last_block_more_bytes :
      (size : ℕ) (got : List ℕ) (s : Stream S) {r : Option (List ℕ × Bool × Stream S)}
      → r ≡ some (got, true, s)
      → last_block dev size r
        ≡ after_fill
            (minus size (length got))
            got
            (fill dev (suc s.buf_size) (minus size (length got)) [] (unbuffer got s))
  unfolding last_block
  last_block_more_bytes size got s e = rw (e, last_block) refl

  last_block_more :
      (size : ℕ) (got : List ℕ) (s : Stream S) (block : List ℕ) (s' : Stream S)
      {r : Option (List ℕ × Bool × Stream S)}
      → r ≡ some (got, true, s)
      → length got ≤ size
      → fill dev (suc s.buf_size) (size - length got) [] (unbuffer got s) ≡ some (block, s')
      → last_block dev size r ≡ some (keep_block (size - length got) got block s')
  last_block_more size got s block s' e l f =
      let need : minus size (length got) ≡ size - length got = minus_of_le _ _ l in
      last_block_more_bytes size got s e ∙ rw (need, f) (unfold after_fill in refl)

  last_block_over :
      (size : ℕ) (got : List ℕ) (s : Stream S) {r : Option (List ℕ × Bool × Stream S)}
      → r ≡ some (got, false, s)
      → last_block dev size r ≡ some (got, unbuffer got s)
  unfolding last_block
  last_block_over size got s e = rw (e, last_block) refl

  module _ (size : ℕ) (s : Stream S) (w : HasWindow s) where
    held_bytes : minus s.end s.pos ≡ s.end - s.pos
    held_bytes = minus_of_le _ _ w.to_end

    offset : minus s.pos s.start ≡ s.pos - s.start
    offset = minus_of_le _ _ w.from_start

    buffered_held :
        size ≤ s.end - s.pos
        → buffered dev size s
          ≡ some (bytes_at s.buffer (s.pos - s.start) size, record s { pos = s.pos + size })
    unfolding buffered
    buffered_held enough =
        let test : leb size (s.end - s.pos) ≡ true = ground arith in
        simp (held_bytes, offset, test) refl

    buffered_beyond :
        leb size (s.end - s.pos) ≡ false
        → buffered dev size s ≡ last_block dev size (direct dev (suc size) size (ready s) s)
    unfolding buffered
    buffered_beyond short = elim (Bool-cases (ltb s.pos s.end)) [
      | inl some_held ↦ simp (held_bytes, offset, short, some_held) refl
      | inr nothing ↦
          let none_held : s.end - s.pos ≡ 0 = ground arith in
          simp (held_bytes, offset, short, nothing) (rw none_held refl)
    ]

    -- The read returns, with the next bytes.
    pub buffered-Got :
        (xs : List ℕ) × (s' : Stream S) × (buffered dev size s ≡ some (xs, s'))
        × Got left size s xs s'
    buffered-Got = elim (Bool-cases (leb size (s.end - s.pos))) [
      | inl enough ↦
          let e : size ≤ s.end - s.pos = leb→le _ _ enough in
          (
            bytes_at s.buffer (s.pos - s.start) size,
            record s { pos = s.pos + size },
            buffered_held e,
            held-Got dev left law size s w e,
          )
      | inr short ↦
          let d =
            direct-Direct dev left law (suc size) size (ready s) s w.room (few short)
              (omega arith) in
          elim d.outcome [
            | inr (over, short', at_end, flag) ↦ (
              d.all,
              unbuffer d.all d.after,
              buffered_beyond short
                  ∙ last_block_over size d.all d.after (d.returned ∙ rw over refl),
              over-Got dev left law size s w d short' at_end flag,
            )
            | inl (more, last, quiet) ↦
                let f =
                  fill-Fill dev left law (suc d.after.buf_size) (size - length d.all) []
                    (unbuffer d.all d.after) (omega arith) (unfold unbuffer in omega arith) in
                (
                  (keep_block (size - length d.all) d.all f.block f.after).0,
                  (keep_block (size - length d.all) d.all f.block f.after).1,
                  buffered_beyond short
                      ∙ last_block_more size d.all d.after f.block f.after
                          (d.returned ∙ rw more refl) d.within f.returned,
                  keep_block-Got dev left law size s w d f last quiet,
                )
          ]
    ]
      where
        few : leb size (s.end - s.pos) ≡ false → length (ready s) ≤ size
        few short = ground (arith, length-take (s.end - s.pos) (drop (s.pos - s.start) s.buffer))

-- The ways to a buffered read.
start_reading_rest :
    {S : Type 0} (dev : Device S) (s : Stream S)
    → was_write s.prev_op ≡ false
    → start_reading dev s ≡ record s { prev_op = op_read }
unfolding start_reading
start_reading_rest dev s order = rw order refl

pub allocate_kept :
    {S : Type 0} (heap : Option (List ℕ)) (s : Stream S)
    → s.buf_mode.allocated ≡ true
    → allocate heap s ≡ (true, s)
unfolding allocate
allocate_kept heap s block = elim (Bool-cases s.buf_mode.internal) [
  | inl own ↦ simp (own, block) refl
  | inr other ↦ simp (other, block) refl
]

fread_of_buffer :
    {S : Type 0} (dev : Device S) (heap : Option (List ℕ)) (size count : ℕ) (s s' : Stream S)
    → s.error ≡ clear
    → s.buf_mode.wronly ≡ false
    → s.buf_mode.unbuffered ≡ false
    → allocate heap (start_reading dev s) ≡ (true, s')
    → fread dev heap size count s
      ≡ counted
          (leb (u64 (size * count)) (minus s'.end s'.pos))
          size
          count
          (buffered dev (u64 (size * count)) s')
unfolding fread
fread_of_buffer dev heap size count s s' fine readable kind begun =
    simp (fread, fine, readable, kind)
      (ap (buffered_read dev size count) begun ∙ unfold buffered_read in refl)

-- The result is the number of whole items, also where the buffer held all the bytes.
counted_whole :
    {S : Type 0} (held : Bool) (size count : ℕ) (xs : List ℕ) (s : Stream S)
    → 0 < size
    → (held ≡ true → length xs ≡ size * count)
    → counted held size count (some (xs, s)) ≡ some (xs, length xs / size, s)
counted_whole false size count xs s positive whole = refl
counted_whole true size count xs s positive whole =
    let items : length xs / size ≡ count =
      ap (λ n. n / size) (whole refl) ∙ mul-div_cancel_left count positive in
    rw items refl

held_whole :
    {S : Type 0} (left : S → List ℕ) (size : ℕ) (s : Stream S) (xs : List ℕ) (s' : Stream S)
    → HasWindow s
    → Got left size s xs s'
    → leb size (minus s.end s.pos) ≡ true
    → length xs ≡ size
held_whole left size s xs s' w got held = elim got.complete [
  | inl (all, quiet) ↦ all
  | inr (short, over, flag) ↦ omega (
    arith,
    ap length got.next,
    length-append xs (ahead left s'),
    ap length over,
    length-append (ready s) (left s.device),
    length-take (s.end - s.pos) (drop (s.pos - s.start) s.buffer),
    length-drop (s.pos - s.start) s.buffer,
    w.whole,
    w.held,
    w.from_start,
    w.to_end,
    minus_of_le s.end s.pos w.to_end,
    leb→le _ _ held,
  )
]

-- A buffered stream that can be read, was not written to last, met no error and has its buffer.
pub record IsReadable {S : Type 0} (s : Stream S) : Type 0 where
  pub window : HasWindow s
  pub fine : s.error ≡ clear
  pub readable : s.buf_mode.wronly ≡ false
  pub kind : s.buf_mode.unbuffered ≡ false
  pub block : s.buf_mode.allocated ≡ true
  pub order : was_write s.prev_op ≡ false

-- `common_fread` of some items of one byte or more, fewer than 2 ^ 64 bytes in all, on a buffered
-- stream that can be read, was not written to last, met no error and has its buffer, over a
-- descriptor that reads without errors: it returns. The bytes that it gives are the next ones, all
-- that were asked for, or all up to the end of the file, and exactly then the end-of-file flag is
-- set; the result is the number of whole items among them, and the position moves by the bytes.
pub fread-Got :
    {S : Type 0} (dev : Device S) (left : S → List ℕ) (law : Reads dev left)
    (heap : Option (List ℕ)) (size count : ℕ) (s : Stream S)
    → IsReadable s
    → 0 < size
    → size * count < 2 ^ 64
    → (xs : List ℕ) × (s' : Stream S) × (fread dev heap size count s
        ≡ some (xs, length xs / size, s'))
      × Got left (size * count) (record s { prev_op = op_read }) xs s'
fread-Got dev left law heap size count s r positive small =
    let w = r.window in
    let reading = record s { prev_op = op_read } in
    let total : u64 (size * count) ≡ size * count = ground (arith, u64) in
    let w' : HasWindow reading = record {
      room = w.room;
      whole = w.whole;
      from_start = w.from_start;
      to_end = w.to_end;
      held = w.held;
    } in
    let (xs, s', returned, got) = buffered-Got dev left law (size * count) reading w' in
    let begun : allocate heap (start_reading dev s) ≡ (true, reading) =
      ap (allocate heap) (start_reading_rest dev s r.order) ∙ allocate_kept heap reading r.block in
    (
      xs,
      s',
      fread_of_buffer dev heap size count s reading r.fine r.readable r.kind begun
          ∙ rw (total, returned)
              (counted_whole _ size count xs s' positive (held_whole left _ reading xs s' w' got)),
      got,
    )
