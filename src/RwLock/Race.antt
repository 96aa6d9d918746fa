-- ===== src/RwLock/Race.antt =====
-- The end of `wlibc_rwlock_unlock` against another thread: its last test of `ptr` and the write of the field
-- `lock` are two steps.
use windows_libc.Common.{
  ℕ, ◌+◌, ◌≡◌, refl, ap, ◌∙◌, inl, inr, true, false, none, some, arith, Option-cases,
}
use windows_libc.Common.Errno.{Errno}
use windows_libc.RwLock.{
  not_locked, shared_lock, exclusive_lock, SlimLock, RwLock, validated_wait, validated_lock,
  granted, tried, rwlock_wrlock, rwlock_tryrdlock, rwlock_trywrlock, release_kind, clear_kind,
  released, rwlock_unlock, IsSlimLock,
}

module _ {K : Type 0} (kernel : SlimLock K) (readers writers : K → ℕ)
    (law : IsSlimLock kernel readers writers) where
  no_shared : (k : K) → writers k ≡ 1 → kernel.try_shared k ≡ none
  no_shared k held = elim (Option-cases (kernel.try_shared k)) [
    | inl fails ↦ fails
    | inr (k', granted') ↦ absurd (omega (arith, held, (law.shared k k' granted').0))
  ]

  no_exclusive : (k : K) → writers k ≡ 1 → kernel.try_exclusive k ≡ none
  no_exclusive k held = elim (Option-cases (kernel.try_exclusive k)) [
    | inl fails ↦ fails
    | inr (k', granted') ↦ absurd (omega (arith, held, (law.exclusive k k' granted').0))
  ]

  -- A lock that a writer holds while the field says that nobody does.
  module _ (k : K) (held : writers k ≡ 1) (e : Errno) where
    abbrev stuck : RwLock K
    stuck = record { ptr = k; lock = not_locked }

    stuck_unlock : rwlock_unlock kernel (some stuck) e ≡ (none, some stuck, Errno.eperm)
    unfolding rwlock_unlock validated_lock release_kind released
    stuck_unlock =
        let test : kernel.is_free k ≡ false = law.frees k ∙ ground arith in simp test refl

    stuck_tryrdlock : rwlock_tryrdlock kernel (some stuck) e ≡ (none, some stuck, Errno.ebusy)
    unfolding rwlock_tryrdlock validated_lock
    stuck_tryrdlock = rw (no_shared k held) (unfold tried in refl)

    stuck_trywrlock : rwlock_trywrlock kernel (some stuck) e ≡ (none, some stuck, Errno.ebusy)
    unfolding rwlock_trywrlock validated_lock
    stuck_trywrlock = rw (no_exclusive k held) (unfold tried in refl)

  -- A kernel's lock that keeps its promises is held by one reader and no writer. The reader
  -- releases it in its unlock and sees that `ptr` is 0, then a writer gets the lock, then the
  -- reader writes the field: now the unlock of the writer fails with EPERM and changes nothing, and
  -- all attempts to get the lock fail with EBUSY and change nothing.
  pub unlock_race :
      (k : K) (e : Errno)
      → readers k ≡ 1
      → writers k ≡ 0
      → let k1 = kernel.release_shared k in
        let seen = kernel.is_free k1 in
        (k2 : K) × (rwlock_wrlock kernel (some (record { ptr = k1; lock = shared_lock })) e
          ≡ some (some 0, some (record { ptr = k2; lock = exclusive_lock }), e))
        × (let r = clear_kind seen (record { ptr = k2; lock = exclusive_lock }) in
            (rwlock_unlock kernel (some r) e ≡ (none, some r, Errno.eperm))
            × (rwlock_tryrdlock kernel (some r) e ≡ (none, some r, Errno.ebusy))
            × (rwlock_trywrlock kernel (some r) e ≡ (none, some r, Errno.ebusy)))
  unfolding rwlock_wrlock validated_wait granted clear_kind
  unlock_race k e one no_writer =
      let k1 = kernel.release_shared k in
      let (less, same) = law.drops_reader k (omega (arith, one)) in
      let idle : readers k1 + writers k1 ≡ 0 = omega (arith, less, same, one, no_writer) in
      let seen : kernel.is_free k1 ≡ true = law.frees k1 ∙ ground arith in
      let (k2, grant) = law.grants k1 idle in
      let (free, empty, held, no_reader) = law.exclusive k1 k2 grant in
      (
        k2,
        ap (λ o. granted exclusive_lock o e) grant,
        simp seen (stuck_unlock k2 held e, stuck_tryrdlock k2 held e, stuck_trywrlock k2 held e),
      )
