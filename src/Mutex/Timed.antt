-- ===== src/Mutex/Timed.antt =====
-- Locking and unlocking in turn, and the timeouts (src/thread/mutex.c).
use windows_libc.Common.{
  ℕ, ◌+◌, ◌-◌, ◌^◌, ◌<◌, bit_and, ◌≡◌, refl, ◌≢◌, ◌⊎◌, inl, inr, false, Option, none, some, arith,
  ◌==◌, if◌then◌else◌, Bool-cases, u32,
}
use windows_libc.Common.Errno.{Errno}
use windows_libc.ErrorMap.{Status}
use windows_libc.Convert.Times.{Timespec}
use windows_libc.Mutex.{
  Mutex, timed, validated, timeout_of, after_wait, relocks, common_lock, mutex_lock, mutex_trylock,
  mutex_timedlock, release, mutex_unlock,
}

abbrev no_time : Timespec
no_time = record { tv_sec = 0; tv_nsec = 0 }

timeout_of-whole_second :
    (m : Mutex) (t : Timespec)
    → (t.tv_sec ≡ 0) ⊎ (t.tv_nsec ≡ 0)
    → timeout_of m (some t) ≡ timeout_of m (some no_time)
unfolding timeout_of
timeout_of-whole_second m t h = ground arith

common_lock-timeout :
    (thread : ℕ) (wait : Option ℕ → Status) (a b : Option Timespec) (m : Mutex) (e : Errno)
    → timeout_of m a ≡ timeout_of m b
    → common_lock thread wait a m e ≡ common_lock thread wait b m e
unfolding common_lock
common_lock-timeout thread wait a b m e same = rw same refl

-- On every mutex, a timed lock until a whole second, or until a time below one second, does what
-- `mutex_trylock` does: it does not wait for the time.
pub mutex_timedlock-whole_second :
    (thread : ℕ) (wait : Option ℕ → Status) (t : Timespec) (m : Option Mutex) (e : Errno)
    → (t.tv_sec ≡ 0) ⊎ (t.tv_nsec ≡ 0)
    → mutex_timedlock thread wait (some t) m e ≡ mutex_trylock thread wait m e
unfolding mutex_timedlock mutex_trylock validated
mutex_timedlock-whole_second thread wait t none e h = refl
mutex_timedlock-whole_second thread wait t (some m) e h = elim (Bool-cases (m.handle == 0)) [
  | inl null ↦ simp null refl
  | inr valid ↦
      simp valid (
        common_lock-timeout thread wait (some t) (some no_time) m e (timeout_of-whole_second m t h))
]

release_taken :
    (thread : ℕ) (m : Mutex)
    → m.count + 1 < 2 ^ 32
    → release (record m { owner = thread; count = u32 (m.count + 1) })
      ≡ record m { owner = if m.count == 0 then 0 else thread }
unfolding release
release_taken thread m small =
    let back : u32 (u32 (m.count + 1) + (2 ^ 32 - 1)) ≡ m.count = omega arith in rw back refl

after_wait_granted :
    (thread : ℕ) (timeout : Option ℕ) (status : Status) (m : Mutex) (e : Errno)
    → status ≡ Status.success
    → after_wait thread timeout status m e
      ≡ (some 0, some (record m { owner = thread; count = u32 (m.count + 1) }), e)
unfolding after_wait
after_wait_granted thread timeout status m e granted = rw granted refl

common_lock_free :
    (thread : ℕ) (wait : Option ℕ → Status) (m : Mutex) (e : Errno)
    → relocks thread m ≡ false
    → wait none ≡ Status.success
    → common_lock thread wait none m e
      ≡ (some 0, some (record m { owner = thread; count = u32 (m.count + 1) }), e)
unfolding common_lock timeout_of
common_lock_free thread wait m e free granted =
    simp free (after_wait_granted thread none (wait none) m e granted)

-- Locking a mutex that can be locked and unlocking it gives back its count, its type and its handle,
-- and it has no owner where the count is 0 again; both return 0 and leave `errno`. The mutex has a
-- handle, is not held by the thread or is recursive, and its count is below 2 ^ 32 - 1; the wait and the
-- release succeed.
pub mutex_unlock-lock :
    (thread : ℕ) (wait : Option ℕ → Status) (m : Mutex) (e : Errno)
    → m.handle ≢ 0
    → m.count + 1 < 2 ^ 32
    → relocks thread m ≡ false
    → wait none ≡ Status.success
    → (r : Mutex) × (mutex_lock thread wait (some m) e ≡ (some 0, some r, e))
      × (mutex_unlock Status.success (some r) e
          ≡ (some 0, some (record m { owner = if m.count == 0 then 0 else thread }), e))
unfolding mutex_lock mutex_unlock validated
mutex_unlock-lock thread wait m e valid small free granted =
    let taken : Mutex = record m { owner = thread; count = u32 (m.count + 1) } in
    let open_handle : (m.handle == 0) ≡ false = ground arith in
    let released : release taken ≡ record m { owner = if m.count == 0 then 0 else thread } =
      release_taken thread m small in
    (
      taken,
      simp open_handle (common_lock_free thread wait m e free granted),
      simp open_handle (rw released refl),
    )

timeout_of-untimed :
    (m : Mutex) → bit_and m.type timed ≡ 0 → timeout_of m (some no_time) ≡ timeout_of m none
unfolding timeout_of
timeout_of-untimed m h = ground (arith, h)

-- On a mutex that is not of the timed kind, `mutex_trylock` does what `mutex_lock` does: it asks for a
-- wait without end.
pub mutex_trylock-untimed :
    (thread : ℕ) (wait : Option ℕ → Status) (m : Mutex) (e : Errno)
    → bit_and m.type timed ≡ 0
    → mutex_trylock thread wait (some m) e ≡ mutex_lock thread wait (some m) e
unfolding mutex_trylock mutex_lock validated
mutex_trylock-untimed thread wait m e h = elim (Bool-cases (m.handle == 0)) [
  | inl null ↦ simp null refl
  | inr valid ↦
      simp valid (common_lock-timeout thread wait (some no_time) none m e (timeout_of-untimed m h))
]
