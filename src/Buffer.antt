-- ===== src/Buffer.antt =====
-- `buffer_t` of include/internal/buffer.h and `memory_buffer_write` of src/internal/buffer.c: the
-- growable byte buffer that the formatted output writes to and the formatted input reads from.
-- `data` lists the bytes that the pointer `data` addresses, `[]` being NULL. `error` is a flag.
-- The function pointer `write` is an argument of the operations that call it (`none` is NULL).
-- `malloc` and `realloc` are an argument too: whether a request of so many bytes succeeds.
pub mod Advance
pub mod Fixed
pub mod Grow
pub mod View
pub mod Write
use windows_libc.Common.{
  ℕ, zero, suc, ◌+◌, ◌-◌, ◌*◌, ◌^◌, ◌≤◌, ◌≡◌, min, Bool, true, false, ltb, leb, ◌==◌, if◌then◌else◌,
  Option, none, some, List, [], ◌∷◌, ◌++◌, take, drop, length, get_or, set, replicate, u64,
}

pub record Buffer : Type 0 where
  pub bytes : List ℕ
  pub pos : ℕ
  pub size : ℕ
  pub error : Bool

-- The callback `write` of a buffer: makes room for so many bytes. `none`: it does not return.
abbrev pub Writer : Type 0
Writer = Buffer → ℕ → Option Buffer

pub advance : Buffer → ℕ → Buffer
advance b step = record b { pos = min (b.pos + step) b.size }

unfoldable pub pending : Buffer → ℕ
pending b = b.size - b.pos

-- The bytes at `data + pos`.
pub current : Buffer → List ℕ
current b = drop b.pos b.bytes

unfoldable pub readbyte : Buffer → ℕ × Buffer
readbyte b =
    if b.error
    then (0, b)
    else if ltb b.size (b.pos + 1)
    then (0, b)
    else (get_or b.bytes b.pos 0, record b { pos = b.pos + 1 })

unfoldable pub peekbyte : Buffer → ℕ → ℕ
peekbyte b offset =
    if b.error
    then 0
    else if leb b.size (b.pos + offset)
    then 0
    else get_or b.bytes (b.pos + offset) 0

-- `data[pos] = byte; pos += 1`.
pub put : Buffer → ℕ → Buffer
put b byte = record b { bytes = set b.bytes b.pos byte; pos = b.pos + 1 }

-- `memcpy(data + pos, in, n); pos += n`.
pub copy : Buffer → List ℕ → Buffer
copy b xs = record b {
  bytes = take b.pos b.bytes ++ (xs ++ drop (b.pos + length xs) b.bytes);
  pos = b.pos + length xs;
}

-- What both writers do once the callback has made room, or failed to.
abbrev pub after_room : Option Buffer → (Buffer → Buffer) → ℕ → Option (ℕ × Buffer)
after_room none act n = none
after_room (some b) act n = if b.error then some (0, b) else some (n, act b)

abbrev pub ask_room : Option Writer → Buffer → (Buffer → Buffer) → ℕ → Option (ℕ × Buffer)
ask_room none b act n = some (0, b)
ask_room (some write) b act n = after_room (write b n) act n

unfoldable pub writebyte : Option Writer → Buffer → ℕ → Option (ℕ × Buffer)
unfolding put
writebyte write b byte =
    if b.error
    then some (0, b)
    else if ltb b.size (b.pos + 1)
    then ask_room write b (λ c. put c byte) 1
    else some (1, put b byte)

unfoldable pub writen : Option Writer → Buffer → List ℕ → Option (ℕ × Buffer)
unfolding copy
writen write b xs =
    if b.error
    then some (0, b)
    else if ltb b.size (b.pos + length xs)
    then ask_room write b (λ c. copy c xs) (length xs)
    else some (length xs, copy b xs)

-- `while (need > size - used) size *= 2;`, where `size_t` has 64 bits. The doubling of a number of
-- 64 bits reaches 0 within 64 rounds, and then the loop never ends: `none`.
unfoldable pub grow : ℕ → ℕ → ℕ → ℕ → Option ℕ
grow zero need used size = none
grow (suc fuel) need used size =
    let rest = grow fuel need used (u64 (size * 2)) in
    if ltb (u64 (size + 2 ^ 64 - used)) need then rest else some size

-- `memset(data + old, 0, size - old)` after the block is `size` bytes long.
abbrev pub extend : List ℕ → ℕ → ℕ → List ℕ
extend xs old size = take old xs ++ replicate (size - old) 0

unfoldable pub resize : (ℕ → Bool) → Buffer → ℕ → Buffer
resize alloc b size =
    if alloc size
    then record b { bytes = extend b.bytes b.size size; size = size }
    else record b { bytes = []; size = size; error = true }

abbrev pub resized : (ℕ → Bool) → Buffer → Option ℕ → Option Buffer
resized alloc b none = none
resized alloc b (some size) = some (resize alloc b size)

-- The rounds that a growing buffer can take: a size of 64 bits doubles at most 64 times.
abbrev pub rounds : ℕ
rounds = 65

-- The count that the C function returns is left out: the writers above drop it.
unfoldable pub memory_buffer_write : (ℕ → Bool) → Writer
memory_buffer_write alloc b need =
    if b.error
    then some b
    else if need == 0
    then some b
    else if b.size == 0
    then resized alloc (record b { pos = 0; bytes = []; size = 0 }) (grow rounds need 0 64)
    else resized alloc b (grow rounds need b.pos b.size)
