-- ===== src/Tests/Locks.antt =====
-- Mutexes (src/thread/mutex.c) and times (src/internal/convert.c) at concrete states.
use windows_libc.Common.{
  ℕ, bit_and, ◌≡◌, refl, ◌≢◌, inr, Option, none, some, arith, ◌==◌, if◌then◌else◌,
}
use windows_libc.Common.Errno.{Errno}
use windows_libc.ErrorMap.{Status}
use windows_libc.Convert.Times.{Timespec}
use windows_libc.Mutex.{
  Mutex, timed, common_lock, after_wait, timeout_of, mutex_lock, mutex_trylock, mutex_timedlock,
  mutex_unlock, mutex_destroy,
}
use windows_libc.Mutex.Relock.{mutex_lock-again}
use windows_libc.Mutex.Timed.{mutex_timedlock-whole_second, mutex_unlock-lock}

-- A mutex of the default type that nobody holds, and the same mutex held by thread 7.
abbrev unlocked : Mutex
unlocked = record { owner = 0; count = 0; type = 2; handle = 40 }

abbrev locked : Mutex
locked = record { owner = 7; count = 1; type = 2; handle = 40 }

abbrev grants : Option ℕ → Status
grants t = Status.success

abbrev expires : Option ℕ → Status
expires t = Status.timeout

abbrev noon : Timespec
noon = record { tv_sec = 1700000000; tv_nsec = 0 }

locked_once : mutex_lock 7 grants (some unlocked) Errno.eperm ≡ (some 0, some locked, Errno.eperm)
unfolding mutex_lock common_lock after_wait timeout_of
locked_once = refl

mutex_lock-again_example :
    (mutex_lock 7 expires (some locked) Errno.eperm ≡ (none, some locked, Errno.edeadlk))
    × (mutex_trylock 7 expires (some locked) Errno.eperm ≡ (none, some locked, Errno.edeadlk))
    × (mutex_timedlock 7 expires (some noon) (some locked) Errno.eperm
        ≡ (none, some locked, Errno.edeadlk))
mutex_lock-again_example =
    mutex_lock-again 7 grants expires unlocked locked noon Errno.eperm Errno.eperm Errno.eperm refl
      locked_once

mutex_timedlock-whole_second_example :
    mutex_timedlock 8 expires (some noon) (some locked) Errno.eperm
    ≡ mutex_trylock 8 expires (some locked) Errno.eperm
mutex_timedlock-whole_second_example =
    mutex_timedlock-whole_second 8 expires noon (some locked) Errno.eperm (inr refl)

handle_nonzero : unlocked.handle ≢ 0
handle_nonzero = omega arith

mutex_unlock-lock_example :
    (r : Mutex) × (mutex_lock 7 grants (some unlocked) Errno.eperm ≡ (some 0, some r, Errno.eperm))
    × (mutex_unlock Status.success (some r) Errno.eperm ≡ (
      some 0,
      some (record unlocked { owner = if unlocked.count == 0 then 0 else 7 }),
      Errno.eperm,
    ))
mutex_unlock-lock_example =
    mutex_unlock-lock 7 grants unlocked Errno.eperm handle_nonzero (omega arith) refl refl

abbrev ended : Mutex
ended = record { owner = 0; count = 0; type = 2; handle = 0 }

destroyed_once :
    mutex_destroy Status.success (some unlocked) Errno.eperm ≡ (some 0, some ended, Errno.eperm)
unfolding mutex_destroy
destroyed_once = refl

kind_timed : bit_and locked.type timed ≢ 0
kind_timed = omega arith

abbrev plain : Mutex
plain = record { owner = 7; count = 1; type = 0; handle = 40 }
