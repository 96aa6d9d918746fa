-- ===== src/Mutex/Relock.antt =====
-- Locking a mutex again that the thread holds (src/thread/mutex.c).
use windows_libc.Common.{
  ℕ, ◌+◌, bit_and, ◌≡◌, refl, sym, ap, inl, inr, true, false, Option, none, some, arith, ◌==◌,
  Bool-cases, u32,
}
use windows_libc.Common.Errno.{Errno}
use windows_libc.ErrorMap.{Status}
use windows_libc.Convert.Times.{Timespec}
use windows_libc.Mutex.{
  Mutex, recursive, validated, timeout_of, after_wait, relocks, common_lock, mutex_lock,
  mutex_trylock, mutex_timedlock,
}

after_wait-success :
    (thread : ℕ) (timeout : Option ℕ) (status : Status) (m r : Mutex) (e f : Errno)
    → after_wait thread timeout status m e ≡ (some 0, some r, f)
    → (r.owner ≡ thread) × (r.type ≡ m.type) × (r.handle ≡ m.handle)
unfolding after_wait
after_wait-success thread timeout Status.success m r e f h =
    let taken : Mutex = record m { owner = thread; count = u32 (m.count + 1) } in
    let q : taken ≡ r = ground (arith, ap (λ x. x.1) h) in
    (ap (λ x. x.owner) (sym q), ap (λ x. x.type) (sym q), ap (λ x. x.handle) (sym q))
after_wait-success thread timeout failure m r e f h = absurd (ground (arith, ap (λ x. x.0) h))

common_lock-success :
    (thread : ℕ) (wait : Option ℕ → Status) (m r : Mutex) (e f : Errno)
    → common_lock thread wait none m e ≡ (some 0, some r, f)
    → (r.owner ≡ thread) × (r.type ≡ m.type) × (r.handle ≡ m.handle)
unfolding common_lock
common_lock-success thread wait m r e f h = elim (Bool-cases (relocks thread m)) [
  | inl again ↦ absurd (ground (arith, simp again at (ap (λ x. x.0) h)))
  | inr free ↦
      after_wait-success thread (timeout_of m none) (wait (timeout_of m none)) m r e f
        (simp free at h)
]

lock_success :
    (thread : ℕ) (wait : Option ℕ → Status) (m r : Mutex) (e f : Errno)
    → mutex_lock thread wait (some m) e ≡ (some 0, some r, f)
    → (r.owner ≡ thread) × (r.type ≡ m.type) × (r.handle ≡ m.handle) × ((m.handle == 0) ≡ false)
unfolding mutex_lock validated
lock_success thread wait m r e f h = elim (Bool-cases (m.handle == 0)) [
  | inl null ↦ absurd (ground (arith, simp null at (ap (λ x. x.0) h)))
  | inr valid ↦
      let (owner, type, handle) = common_lock-success thread wait m r e f (simp valid at h) in
      (owner, type, handle, valid)
]

refused :
    (thread : ℕ) (wait : Option ℕ → Status) (abstime : Option Timespec) (m : Mutex) (e : Errno)
    → relocks thread m ≡ true
    → common_lock thread wait abstime m e ≡ (none, some m, Errno.edeadlk)
unfolding common_lock
refused thread wait abstime m e h = simp h refl

-- A thread that locked a mutex that is not recursive gets -1 and EDEADLK from each of the three ways to
-- lock it again, whatever the wait would answer, and the mutex stays as it is.
pub mutex_lock-again :
    (thread : ℕ) (wait wait' : Option ℕ → Status) (m r : Mutex) (t : Timespec) (e e' f : Errno)
    → (bit_and m.type recursive == recursive) ≡ false
    → mutex_lock thread wait (some m) e ≡ (some 0, some r, f)
    → (mutex_lock thread wait' (some r) e' ≡ (none, some r, Errno.edeadlk))
      × (mutex_trylock thread wait' (some r) e' ≡ (none, some r, Errno.edeadlk))
      × (mutex_timedlock thread wait' (some t) (some r) e' ≡ (none, some r, Errno.edeadlk))
mutex_lock-again thread wait wait' m r t e e' f plain locked =
    let (owner, type, handle, valid) = lock_success thread wait m r e f locked in
    let here : (r.handle == 0) ≡ false = rw handle valid in
    let again : relocks thread r ≡ true = ground (arith, owner, type, plain) in
    (
      unfold mutex_lock in unfold validated in simp here (refused thread wait' none r e' again),
      unfold mutex_trylock in unfold validated in simp here (refused thread wait' _ r e' again),
      unfold mutex_timedlock in
          unfold validated in simp here (refused thread wait' (some t) r e' again),
    )
