-- ===== src/Stdio/Write/Begin.antt =====
-- The start of `common_fwrite` on a buffered stream: the seek, and the window.
use windows_libc.Common.{
  ℕ, ◌+◌, ◌-◌, ◌≤◌, ◌<◌, ◌^◌, u64_of_lt, ◌≡◌, refl, sym, ◌∙◌, ◌⊎◌, inl, inr, Bool, true, false,
  List, append-nil, arith, ◌==◌, Bool-cases, length,
}
use windows_libc.Common.Int.{pos}
use windows_libc.Stdio.{Device, Stream, op_write, seek_set, seek_end, was_read, was_write}
use windows_libc.Stdio.Write.{to_size, to_off_t, start_writing, open_window}
use windows_libc.Stdio.Read.Ahead.{HasWindow}
use windows_libc.Stdio.Write.Loops.{Writes, Fresh, output}

module _ {S : Type 0} (dev : Device S) (written : S → List ℕ) (law : Writes dev written) where
  -- A window that is not empty stays.
  pub open_window_kept : (v : Stream S) → (v.start == v.end) ≡ false → open_window v ≡ v
  unfolding open_window
  open_window_kept v some_window = rw some_window refl

  -- A stream on which a write begins.
  pub record Begun (bytes : List ℕ) (s v : Stream S) : Type 0 where
    pub window : HasWindow v
    pub writing : was_write v.prev_op ≡ true
    pub kept : output written v ≡ output written s
    pub fresh : (v.end ≡ v.start + v.buf_size) ⊎ (length bytes ≤ v.end - v.pos)

  -- An empty window becomes the buffer.
  open_window-Begun :
      (bytes : List ℕ) (s v : Stream S)
      → v.start ≡ v.end
      → v.pos ≡ v.start
      → 0 < v.buf_size
      → length v.buffer ≡ v.buf_size
      → v.buf_mode.allocated ≡ true
      → was_write v.prev_op ≡ true
      → written v.device ≡ output written s
      → v.pos + v.buf_size < 2 ^ 64
      → Begun bytes s (open_window v) × ((open_window v).pos ≡ v.pos)
  unfolding open_window
  open_window-Begun bytes s v empty at room whole block writing kept low =
      let test : (v.start == v.end) ≡ true = ground arith in
      let none_pending : v.pos - v.pos ≡ 0 = omega arith in
      simp (test, block, u64_of_lt (v.pos + v.buf_size) low)
        (
          record {
            window = record {
              room = room;
              whole = whole;
              from_start = omega arith;
              to_end = omega arith;
              held = omega arith;
            };
            writing = writing;
            kept = rw (writing, none_pending) (append-nil (written v.device) ∙ kept);
            fresh = inl refl;
          },
          refl,
        )

  -- The three starts: of a write after a write, of an append, and behind a read.
  pub start_writing_on :
      (appends : Bool) (s : Stream S) → was_write s.prev_op ≡ true → start_writing dev appends s ≡ s
  unfolding start_writing
  start_writing_on appends s on = rw on refl

  start_writing_append :
      (s : Stream S)
      → was_write s.prev_op ≡ false
      → start_writing dev true s ≡ (
          let (there, d) = dev.lseek s.device (pos 0) seek_end in
          record s { pos = to_size there; start = to_size there; end = to_size there; device = d })
  unfolding start_writing
  start_writing_append s first = rw first refl

  start_writing_here :
      (s : Stream S)
      → was_write s.prev_op ≡ false
      → (d : S) × (start_writing dev false s ≡ record s { start = s.pos; end = s.pos; device = d })
        × (written d ≡ written s.device)
  unfolding start_writing
  start_writing_here s first = elim (Bool-cases (was_read s.prev_op)) [
    | inl read ↦ (
      (dev.lseek s.device (to_off_t s.pos) seek_set).1,
      simp (first, read) refl,
      law.seeks s.device (to_off_t s.pos) seek_set,
    )
    | inr other ↦ (s.device, simp (first, other) refl, refl)
  ]

  -- Nothing is pending on a stream that was not written to last.
  not_pending : (s : Stream S) → was_write s.prev_op ≡ false → output written s ≡ written s.device
  not_pending s first = rw first (append-nil (written s.device))

  on-Begun :
      (bytes : List ℕ) (s : Stream S)
      → HasWindow s
      → s.buf_mode.allocated ≡ true
      → was_write s.prev_op ≡ true
      → Fresh bytes s
      → s.pos + s.buf_size < 2 ^ 64
      → let v = record s { prev_op = op_write } in
        Begun bytes s (open_window v) × ((open_window v).pos ≡ v.pos)
  unfolding open_window
  on-Begun bytes s w block on fresh low = elim (Bool-cases (s.start == s.end)) [
    | inl empty ↦
        let none_pending : s.pos - s.start ≡ 0 = ground (arith, w.from_start, w.to_end) in
        open_window-Begun bytes s (record s { prev_op = op_write }) (ground arith)
          (ground (arith, w.from_start, w.to_end)) w.room w.whole block refl
          (rw (on, none_pending) (sym (append-nil (written s.device)))) low
    | inr some_window ↦ simp some_window (
      record {
        window = record {
          room = w.room;
          whole = w.whole;
          from_start = w.from_start;
          to_end = w.to_end;
          held = w.held;
        };
        writing = refl;
        kept = rw on refl;
        fresh = elim fresh [ inl empty ↦ absurd (ground arith) | inr other ↦ other ];
      },
      refl,
    )
  ]

  pub start_writing-Begun :
      (bytes : List ℕ) (appends : Bool) (s : Stream S)
      → HasWindow s
      → s.buf_mode.allocated ≡ true
      → (was_write s.prev_op ≡ true → Fresh bytes s)
      → (start_writing dev appends s).pos + s.buf_size < 2 ^ 64
      → let v = record (start_writing dev appends s) { prev_op = op_write } in
        Begun bytes s (open_window v) × ((open_window v).pos ≡ v.pos)
  start_writing-Begun bytes appends s w block fresh low = elim (Bool-cases (was_write s.prev_op)) [
    | inl on ↦
        let begin = start_writing_on appends s on in
        rw begin (on-Begun bytes s w block on (fresh on) (rw begin at low))
    | inr first ↦ elim (Bool-cases appends) [
      | inl to_end ↦
          rw (to_end, start_writing_append s first)
            (open_window-Begun bytes s _ refl refl w.room w.whole block refl
              (law.seeks s.device (pos 0) seek_end ∙ sym (not_pending s first))
              (rw (to_end, start_writing_append s first) at low))
      | inr here ↦
          let (d, begins, same) = start_writing_here s first in
          rw (here, begins)
            (open_window-Begun bytes s _ refl refl w.room w.whole block refl
              (same ∙ sym (not_pending s first)) (rw (here, begins) at low))
    ]
  ]

pub open_window_size : {S : Type 0} (v : Stream S) → (open_window v).buf_size ≡ v.buf_size
unfolding open_window
open_window_size v = ground arith

pub start_writing_size :
    {S : Type 0} (dev : Device S) (appends : Bool) (s : Stream S)
    → (start_writing dev appends s).buf_size ≡ s.buf_size
unfolding start_writing
start_writing_size dev appends s = ground arith

pub start_writing_mode :
    {S : Type 0} (dev : Device S) (appends : Bool) (s : Stream S)
    → (start_writing dev appends s).buf_mode ≡ s.buf_mode
unfolding start_writing
start_writing_mode dev appends s = elim (Bool-cases (was_write s.prev_op)) [
  | inl on ↦ simp on refl
  | inr first ↦ elim (Bool-cases appends) [
    | inl to_end ↦ simp (first, to_end) refl
    | inr here ↦ elim (Bool-cases (was_read s.prev_op)) [
      | inl read ↦ simp (first, here, read) refl
      | inr other ↦ simp (first, here, other) refl
    ]
  ]
]
