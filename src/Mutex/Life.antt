-- ===== src/Mutex/Life.antt =====
-- Trying to lock a mutex that is held, and the end of a mutex (src/thread/mutex.c).
use windows_libc.Common.{
  ℕ, bit_and, ◌≡◌, refl, sym, ap, ◌≢◌, inl, inr, true, false, Option, none, some, arith, ◌==◌,
  Bool-cases,
}
use windows_libc.Common.Errno.{Errno}
use windows_libc.ErrorMap.{Status, map_ntstatus_to_errno}
use windows_libc.Mutex.{
  Mutex, Outcome, validated, timed, timeout_of, after_wait, busy, relocks, common_lock, mutex_lock,
  mutex_trylock, mutex_unlock, mutex_destroy,
}

abbrev destroyed : Status → Mutex → Errno → Outcome
destroyed closed m e = elim closed [
  | Status.success ↦ (some 0, some (record m { handle = 0; owner = 0; count = 0 }), e)
  | failure ↦ (none, some m, map_ntstatus_to_errno failure e)
]

destroyed-handle :
    (closed : Status) (m r : Mutex) (e f : Errno)
    → destroyed closed m e ≡ (some 0, some r, f)
    → r.handle ≡ 0
destroyed-handle Status.success m r e f h =
    let ended : Mutex = record m { handle = 0; owner = 0; count = 0 } in
    let q : ended ≡ r = ground (arith, ap (λ x. x.1) h) in ap (λ x. x.handle) (sym q)
destroyed-handle failure m r e f h = absurd (ground (arith, ap (λ x. x.0) h))

mutex_destroy-handle :
    (closed : Status) (m r : Mutex) (e f : Errno)
    → mutex_destroy closed (some m) e ≡ (some 0, some r, f)
    → (r.handle == 0) ≡ true
unfolding mutex_destroy validated
mutex_destroy-handle closed m r e f h = elim (Bool-cases (m.handle == 0)) [
  | inl null ↦ absurd (ground (arith, simp null at (ap (λ x. x.0) h)))
  | inr valid ↦ ground (arith, destroyed-handle closed m r e f (simp valid at h))
]

-- After `mutex_destroy` returned 0 for a mutex, locking, trying to lock, unlocking and destroying it each return -1 with
-- EINVAL and leave it as it is.
pub mutex_destroy-ends :
    (closed : Status) (m r : Mutex) (e f : Errno) (thread : ℕ) (wait : Option ℕ → Status)
    (status : Status) (g : Errno)
    → mutex_destroy closed (some m) e ≡ (some 0, some r, f)
    → (mutex_lock thread wait (some r) g ≡ (none, some r, Errno.einval))
      × (mutex_trylock thread wait (some r) g ≡ (none, some r, Errno.einval))
      × (mutex_unlock status (some r) g ≡ (none, some r, Errno.einval))
      × (mutex_destroy status (some r) g ≡ (none, some r, Errno.einval))
mutex_destroy-ends closed m r e f thread wait status g h =
    let null = mutex_destroy-handle closed m r e f h in
    (
      unfold mutex_lock in unfold validated in simp null refl,
      unfold mutex_trylock in unfold validated in simp null refl,
      unfold mutex_unlock in unfold validated in simp null refl,
      unfold mutex_destroy in unfold validated in simp null refl,
    )

-- Where a mutex of the timed kind has a handle, is not held by the thread or is recursive, and the wait
-- of no time ends with STATUS_TIMEOUT, trying to lock it returns -1 with EBUSY and leaves the mutex as it is.
pub mutex_trylock-busy :
    (thread : ℕ) (wait : Option ℕ → Status) (m : Mutex) (e : Errno)
    → m.handle ≢ 0
    → bit_and m.type timed ≢ 0
    → relocks thread m ≡ false
    → wait (some 0) ≡ Status.timeout
    → mutex_trylock thread wait (some m) e ≡ (none, some m, Errno.ebusy)
unfolding mutex_trylock validated common_lock timeout_of
mutex_trylock-busy thread wait m e valid kind free late =
    let open_handle : (m.handle == 0) ≡ false = ground arith in
    let waits : (bit_and m.type timed == 0) ≡ false = ground arith in
    simp (open_handle, free, waits, late)
      (unfold after_wait in unfold map_ntstatus_to_errno in unfold busy in refl)
