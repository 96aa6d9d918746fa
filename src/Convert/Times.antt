-- ===== src/Convert/Times.antt =====
-- Times as `struct timespec` and as the intervals of 100 nanoseconds since 1601 that Windows counts
-- (src/internal/convert.c). Times before 1970 are left out; the sums wrap around at 64 bits.
use windows_libc.Common.{ℕ, ◌+◌, ◌-◌, ◌*◌, ◌/◌, ◌%◌, ◌^◌, ◌<◌, ◌≡◌, refl, arith, u64}

pub record Timespec : Type 0 where
  pub tv_sec : ℕ
  pub tv_nsec : ℕ

-- The intervals from 1601 to 1970.
abbrev pub epoch : ℕ
epoch = 116444736000000000

pub timespec_to_large_integer : Timespec → ℕ
timespec_to_large_integer t = u64 (u64 (t.tv_sec * 10000000 + t.tv_nsec / 100) + epoch)

pub large_integer_to_timespec : ℕ → Timespec
large_integer_to_timespec l =
    let since = l - epoch in record { tv_sec = since / 10000000; tv_nsec = since % 10000000 * 100 }

-- A time of fewer than 2 ^ 39 seconds, with less than a second in its nanoseconds, comes back from the intervals with its nanoseconds rounded down
-- to hundreds.
pub large_integer_to_timespec_to :
    (t : Timespec)
    → t.tv_sec < 2 ^ 39
    → t.tv_nsec < 1000000000
    → large_integer_to_timespec (timespec_to_large_integer t)
      ≡ record { tv_sec = t.tv_sec; tv_nsec = t.tv_nsec / 100 * 100 }
unfolding large_integer_to_timespec timespec_to_large_integer
large_integer_to_timespec_to t small nanos =
    let since : u64 (u64 (t.tv_sec * 10000000 + t.tv_nsec / 100) + epoch) - epoch
        ≡ t.tv_sec * 10000000 + t.tv_nsec / 100 =
      omega arith in
    let seconds : (t.tv_sec * 10000000 + t.tv_nsec / 100) / 10000000 ≡ t.tv_sec = omega arith in
    let rest : (t.tv_sec * 10000000 + t.tv_nsec / 100) % 10000000 ≡ t.tv_nsec / 100 = omega arith in
    rw (since, seconds, rest) refl
