-- ===== src/Tests/Streams.antt =====
-- The streams of stdio at a small disk.
use windows_libc.Common.{
  ℕ, ◌+◌, ◌<◌, ◌^◌, zero, suc, ◌+◌, ◌/◌, ◌<◌, ◌≡◌, refl, sym, ◌≢◌, ◌⊎◌, inl, inr, true, false,
  Option, none, some, List, [], ◌∷◌, ◌++◌, arith, length, take, drop, length-take, take-append-drop,
}
use windows_libc.Common.Errno.{Errno}
use windows_libc.Common.Int.{ℤ, pos, negsuc}
use windows_libc.Stdio.{
  Device, Stream, BufMode, clear, io_eof, io_error, nothing, op_read, op_write, Whence, seek_set,
  seek_cur, seek_end, fflush, allocate, minus,
}
use windows_libc.Stdio.Read.{
  fread, buffered_read, buffered, start_reading, direct, fill, keep_block, after_fill, last_block,
  read_done, read_wrapper, counted, unbuffer,
}
use windows_libc.Stdio.Read.Loops.{Reads}
use windows_libc.Stdio.Read.Ahead.{HasWindow, ahead, Got}
use windows_libc.Stdio.Read.Refine.{IsReadable, fread-Got}
use windows_libc.Stdio.Write.{fwrite, start_writing}
use windows_libc.Stdio.Write.Loops.{Writes, output}
use windows_libc.Stdio.Write.Refine.{fwrite-Took}
use windows_libc.Stdio.Flush.{fflush-Written, fwrite_stale}
use windows_libc.Stdio.Chars.{char_of, to_byte, fgetc, ungetc, fgets, clearerr}
use windows_libc.Stdio.Chars.Lines.{first_line, is_text, fgets-Line, fgets_at_255}
use windows_libc.Stdio.Chars.Pushed.{ungetc-fgetc}
use windows_libc.Stdio.Seek.{fseek, ftell, Seeks, rewind-Flushed, fseek_keeps_eof, fseek_from_end}

-- A disk: the bytes that are left to be read, those that were written, and the offset.
pub record Disk : Type 0 where
  pub left : List ℕ
  pub written : List ℕ
  pub at : ℕ

abbrev pub seek_on_disk : Disk → ℤ → Whence → Option ℕ × Disk
seek_on_disk d (pos n) seek_set = (some n, record d { at = n })
seek_on_disk d (pos n) seek_cur = (some (d.at + n), record d { at = d.at + n })
seek_on_disk d (pos n) seek_end = (some (length d.written), record d { at = length d.written })
seek_on_disk d (negsuc n) whence = (none, d)

abbrev pub disk : Device Disk
disk = record {
  read = λ d n. (some (take n d.left), record d { left = drop n d.left });
  write = λ d xs. (some (length xs), record d { written = d.written ++ xs });
  lseek = seek_on_disk;
}

ends : (n : ℕ) (xs : List ℕ) → (0 < length (take n xs)) ⊎ (n ≡ 0) ⊎ (xs ≡ [])
ends zero xs = inr (inl refl)
ends (suc n) [] = inr (inr refl)
ends (suc n) (x ∷ xs) = inl (omega arith)

disk-Reads : Reads disk (λ (d : Disk). d.left)
disk-Reads = record {
  answers = λ d n. (
    take n d.left,
    refl,
    sym (take-append-drop n d.left),
    omega (arith, length-take n d.left),
    ends n d.left,
  );
}

seek_on_disk-written :
    (d : Disk) (offset : ℤ) (whence : Whence) → (seek_on_disk d offset whence).1.written ≡ d.written
seek_on_disk-written d (pos n) seek_set = refl
seek_on_disk-written d (pos n) seek_cur = refl
seek_on_disk-written d (pos n) seek_end = refl
seek_on_disk-written d (negsuc n) whence = refl

pub disk-Writes : Writes disk (λ (d : Disk). d.written)
disk-Writes = record { takes_all = λ d xs. refl; puts = λ d xs. refl; seeks = seek_on_disk-written }

disk-Seeks : Seeks disk (λ (d : Disk). d.at)
disk-Seeks = record { to = λ d n. (refl, refl); by = λ d n. (refl, refl) }

abbrev mode : BufMode
mode = record {
  internal = true;
  external = false;
  allocated = true;
  rdonly = false;
  wronly = false;
  rdwr = true;
  full = true;
  line = false;
  unbuffered = false;
}

-- A stream with a buffer of 4 bytes at the start of a file of 6 bytes and a byte 255.
abbrev input : Stream Disk
input = record {
  buf_mode = mode;
  error = clear;
  buffer = 7 ∷ 7 ∷ 7 ∷ 7 ∷ [];
  buf_size = 4;
  start = 0;
  end = 0;
  pos = 0;
  prev_op = nothing;
  device = record { left = 1 ∷ 2 ∷ 10 ∷ 4 ∷ 5 ∷ 255 ∷ []; written = []; at = 0 };
  errno = Errno.eperm;
}

input-IsReadable : IsReadable input
input-IsReadable = record {
  window = record {
    room = omega arith;
    whole = refl;
    from_start = omega arith;
    to_end = omega arith;
    held = omega arith;
  };
  fine = refl;
  readable = refl;
  kind = refl;
  block = refl;
  order = refl;
}

-- The stream after 3 bytes were read.
abbrev read_on : Stream Disk
read_on = record input {
  buffer = 1 ∷ 2 ∷ 10 ∷ 4 ∷ [];
  end = 4;
  pos = 3;
  prev_op = op_read;
  device = record { left = 5 ∷ 255 ∷ []; written = []; at = 4 };
}

-- The stream after 2 bytes were written, and after they were flushed.
abbrev pub written_to : Stream Disk
written_to = record input { buffer = 1 ∷ 2 ∷ 7 ∷ 7 ∷ []; end = 4; pos = 2; prev_op = op_write }

abbrev flushed_at_2 : Stream Disk
flushed_at_2 = record written_to {
  start = 2;
  device = record { left = 1 ∷ 2 ∷ 10 ∷ 4 ∷ 5 ∷ 255 ∷ []; written = 1 ∷ 2 ∷ []; at = 0 };
}

pub written_to-HasWindow : HasWindow written_to
written_to-HasWindow = record {
  room = omega arith;
  whole = refl;
  from_start = omega arith;
  to_end = omega arith;
  held = omega arith;
}

flushed-HasWindow : HasWindow flushed_at_2
flushed-HasWindow = record {
  room = omega arith;
  whole = refl;
  from_start = omega arith;
  to_end = omega arith;
  held = omega arith;
}

pub no_error : clear ≢ io_error
no_error e = cc

fread-Got_example :
    (xs : List ℕ) × (s' : Stream Disk) × (fread disk none 2 3 input ≡ some (xs, length xs / 2, s'))
    × Got (λ (d : Disk). d.left) 6 (record input { prev_op = op_read }) xs s'
fread-Got_example =
    fread-Got disk (λ (d : Disk). d.left) disk-Reads none 2 3 input input-IsReadable (omega arith)
      (omega arith)

pub low_start :
    (n : ℕ)
    → n < 2 ^ 32
    → (start_writing disk false written_to).pos + n + written_to.buf_size < 2 ^ 64
unfolding start_writing
low_start n small = omega arith

fwrite-Took_example :
    (s' : Stream Disk) × (fwrite disk none false (3 ∷ 4 ∷ 5 ∷ 6 ∷ 8 ∷ 9 ∷ []) 2 written_to
      ≡ some (3, s'))
    × HasWindow s'
    × (output (λ (d : Disk). d.written) s' ≡ 1 ∷ 2 ∷ 3 ∷ 4 ∷ 5 ∷ 6 ∷ 8 ∷ 9 ∷ [])
    × (s'.pos ≡ (start_writing disk false written_to).pos + 6)
fwrite-Took_example =
    fwrite-Took disk (λ (d : Disk). d.written) disk-Writes none false (3 ∷ 4 ∷ 5 ∷ 6 ∷ 8 ∷ 9 ∷ []) 2
      3 written_to written_to-HasWindow no_error refl refl refl (λ on. inr (inl refl))
      (low_start 6 (omega arith)) (omega arith) refl

fflush-Written_example :
    (d : Disk) × (fflush disk written_to ≡ (true, record written_to { start = 2; device = d }))
    × (d.written ≡ 1 ∷ 2 ∷ [])
fflush-Written_example =
    fflush-Written disk (λ (d : Disk). d.written) disk-Writes written_to written_to-HasWindow refl
      refl refl

-- The bytes 7, 7 were never written to the stream.
fwrite_stale_example :
    (s' : Stream Disk) × (fwrite disk none false (3 ∷ 4 ∷ 5 ∷ []) 1 flushed_at_2 ≡ some (3, s'))
    × (output (λ (d : Disk). d.written) s' ≡ 1 ∷ 2 ∷ 3 ∷ 4 ∷ 7 ∷ 7 ∷ 5 ∷ [])
fwrite_stale_example =
    fwrite_stale disk (λ (d : Disk). d.written) disk-Writes none false (3 ∷ 4 ∷ 5 ∷ []) 1 3
      flushed_at_2 flushed-HasWindow no_error refl refl refl refl (omega arith) (omega arith)
      (omega arith) (omega arith) (omega arith) refl

fgets-Line_example :
    (s' : Stream Disk) × (fgets disk none 0 9 input ≡ some (1 ∷ 2 ∷ 10 ∷ [], s'))
    × (ahead (λ (d : Disk). d.left) input ≡ 1 ∷ 2 ∷ 10 ∷ ahead (λ (d : Disk). d.left) s')
unfolding first_line is_text
fgets-Line_example =
    fgets-Line disk (λ (d : Disk). d.left) disk-Reads none 0 9 input input-IsReadable (omega arith)
      refl

-- The stream in front of its last byte, which is 255.
abbrev at_last : Stream Disk
at_last = record input {
  pos = 5;
  start = 5;
  end = 5;
  prev_op = op_read;
  device = record { left = 255 ∷ []; written = []; at = 5 };
}

at_last-IsReadable : IsReadable at_last
at_last-IsReadable = record {
  window = record {
    room = omega arith;
    whole = refl;
    from_start = omega arith;
    to_end = omega arith;
    held = omega arith;
  };
  fine = refl;
  readable = refl;
  kind = refl;
  block = refl;
  order = refl;
}

fgets_at_255_example :
    (s' : Stream Disk) × (fgets disk none 0 9 at_last ≡ some ([], s'))
    × (ahead (λ (d : Disk). d.left) s' ≡ [])
    × (s'.error ≡ clear)
fgets_at_255_example =
    fgets_at_255 disk (λ (d : Disk). d.left) disk-Reads none 0 9 [] at_last at_last-IsReadable
      (omega arith) refl

read_on-IsReadable : IsReadable (clearerr read_on)
unfolding clearerr
read_on-IsReadable = record {
  window = record {
    room = omega arith;
    whole = refl;
    from_start = omega arith;
    to_end = omega arith;
    held = omega arith;
  };
  fine = refl;
  readable = refl;
  kind = refl;
  block = refl;
  order = refl;
}

ungetc-fgetc_example :
    (s1 : Stream Disk) × (s2 : Stream Disk) × (ungetc (pos 65) read_on ≡ some (pos 65, s1))
    × (fgetc disk none 0 s1 ≡ some (pos 65, s2))
    × (ahead (λ (d : Disk). d.left) s2 ≡ 4 ∷ 5 ∷ 255 ∷ [])
unfolding char_of to_byte
ungetc-fgetc_example =
    ungetc-fgetc disk (λ (d : Disk). d.left) disk-Reads none 0 (pos 65) read_on read_on-IsReadable
      refl refl (omega arith)

rewind-Flushed_example :
    (s' : Stream Disk) × (fseek disk (pos 0) seek_set written_to ≡ (true, s'))
    × (s'.device.written ≡ 1 ∷ 2 ∷ [])
    × (s'.device.at ≡ 0)
    × (ftell s' ≡ 0)
    × (s'.start ≡ s'.end)
    × (s'.error ≡ clear)
rewind-Flushed_example =
    rewind-Flushed disk (λ (d : Disk). d.written) disk-Writes (λ (d : Disk). d.at) disk-Seeks
      written_to written_to-HasWindow refl refl refl

-- The stream behind its last byte: a read of two bytes gave one.
abbrev at_end : Stream Disk
at_end = record at_last {
  error = io_eof;
  buffer = 255 ∷ 7 ∷ 7 ∷ 7 ∷ [];
  end = 6;
  pos = 6;
  device = record { left = []; written = []; at = 5 };
}

last_read : fread disk none 1 2 at_last ≡ some (255 ∷ [], 1, at_end)
unfolding fread buffered_read buffered start_reading direct fill keep_block after_fill last_block
    read_done read_wrapper allocate counted minus unbuffer
last_read = refl

-- The byte 255 is ahead again, and is not read.
fseek_keeps_eof_example :
    (s' : Stream Disk) × (fseek disk (negsuc 0) seek_cur at_end ≡ (true, s'))
    × (ftell s' + 1 ≡ ftell at_end)
    × (length (ahead (λ (d : Disk). d.left) s') ≡ 1)
    × (fread disk none 1 1 s' ≡ some ([], 0, s'))
fseek_keeps_eof_example =
    fseek_keeps_eof disk (λ (d : Disk). d.left) disk-Reads none 1 2 0 1 1 1 (255 ∷ []) at_last
      at_end at_last-IsReadable (omega arith) (omega arith) last_read (omega arith) (omega arith)
      (omega arith)

-- Three bytes were read; the seek by 5 goes to 9, not 8.
fseek_from_end_example :
    (s' : Stream Disk) × (fseek disk (pos 5) seek_cur read_on ≡ (true, s')) × (ftell s' ≡ 9)
fseek_from_end_example =
    fseek_from_end disk (λ (d : Disk). d.at) disk-Seeks 5 read_on refl refl (omega arith)
      (omega arith)
