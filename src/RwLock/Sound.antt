-- ===== src/RwLock/Sound.antt =====
-- Read-write locks under whole operations one after the other.
use windows_libc.Common.{
  ℕ, zero, suc, ◌+◌, ◌<◌, ◌≡◌, refl, ap, ◌∙◌, ◌⊎◌, inl, inr, true, false, Option, none, some, arith,
  ltb, ◌==◌, Bool-cases, ltb→lt,
}
use windows_libc.Common.Errno.{Errno}
use windows_libc.RwLock.{
  LockKind, not_locked, shared_lock, exclusive_lock, SlimLock, RwLock, Outcome, is_destroyed,
  validated_wait, validated_lock, granted, tried, rwlock_rdlock, rwlock_wrlock, rwlock_tryrdlock,
  rwlock_trywrlock, release_kind, clear_kind, released, rwlock_unlock, IsSlimLock,
}

-- The lock that an operation leaves.
abbrev pub left_by : {K : Type 0} → RwLock K → Outcome K → RwLock K
left_by r (result, none, e) = r
left_by r (result, some r', e) = r'

module _ {K : Type 0} (kernel : SlimLock K) (readers writers : K → ℕ)
    (law : IsSlimLock kernel readers writers) where
  -- The field `lock` says what the kernel's lock is held for.
  abbrev pub IsSound : RwLock K → Type 0
  IsSound r =
      ((r.lock ≡ not_locked) × (readers r.ptr + writers r.ptr ≡ 0))
      ⊎ ((r.lock ≡ shared_lock) × (0 < readers r.ptr) × (writers r.ptr ≡ 0))
      ⊎ ((r.lock ≡ exclusive_lock) × (readers r.ptr ≡ 0) × (writers r.ptr ≡ 1))

  -- An operation, whatever it returns; one that waits has no outcome.
  pub data Step (r r' : RwLock K) : Type 0 where
    rdlock :
        (e : Errno) (o : Outcome K)
        → rwlock_rdlock kernel (some r) e ≡ some o
        → r' ≡ left_by r o
        → Step r r'
    wrlock :
        (e : Errno) (o : Outcome K)
        → rwlock_wrlock kernel (some r) e ≡ some o
        → r' ≡ left_by r o
        → Step r r'
    tryrdlock : (e : Errno) → r' ≡ left_by r (rwlock_tryrdlock kernel (some r) e) → Step r r'
    trywrlock : (e : Errno) → r' ≡ left_by r (rwlock_trywrlock kernel (some r) e) → Step r r'
    unlock : (e : Errno) → r' ≡ left_by r (rwlock_unlock kernel (some r) e) → Step r r'

  pub data Reaches (r : RwLock K) : RwLock K → Type 0 where
    start : Reaches r r
    and_then : {r1 r2 : RwLock K} → Reaches r r1 → Step r1 r2 → Reaches r r2

  not_destroyed : (r : RwLock K) → IsSound r → is_destroyed r.lock ≡ false
  not_destroyed r s = elim s [
    | inl (kind, idle) ↦ rw kind refl
    | inr (inl (kind, some_reader, no_writer)) ↦ rw kind refl
    | inr (inr (kind, no_reader, one)) ↦ rw kind refl
  ]

  granted-IsSound :
      (r : RwLock K) (e : Errno) (k : Option K) (kind : LockKind) (o : Outcome K)
      → ((k' : K) → k ≡ some k' → IsSound (record { ptr = k'; lock = kind }))
      → granted kind k e ≡ some o
      → IsSound (left_by r o)
  unfolding granted
  granted-IsSound r e none kind o new outcome = absurd (cc)
  granted-IsSound r e (some k') kind o new outcome =
      let same : o ≡ (some 0, some (record { ptr = k'; lock = kind }), e) = cc in
      rw same (new k' refl)

  tried-IsSound :
      (r : RwLock K) (e : Errno) (k : Option K) (kind : LockKind)
      → IsSound r
      → ((k' : K) → k ≡ some k' → IsSound (record { ptr = k'; lock = kind }))
      → IsSound (left_by r (tried kind r k e))
  unfolding tried
  tried-IsSound r e none kind s new = s
  tried-IsSound r e (some k') kind s new = new k' refl

  shared-IsSound :
      (k k' : K) → kernel.try_shared k ≡ some k' → IsSound (record { ptr = k'; lock = shared_lock })
  shared-IsSound k k' tries =
      let (no_writer, none_now, more) = law.shared k k' tries in
      inr (inl (refl, omega (arith, more), none_now))

  exclusive-IsSound :
      (k k' : K)
      → kernel.try_exclusive k ≡ some k'
      → IsSound (record { ptr = k'; lock = exclusive_lock })
  exclusive-IsSound k k' tries =
      let (no_writer, no_reader, one, none_now) = law.exclusive k k' tries in
      inr (inr (refl, none_now, one))

  busy : (k : K) → 0 < readers k + writers k → kernel.is_free k ≡ false
  busy k held = law.frees k ∙ ground arith

  -- The end of an unlock, once the kernel's lock was released.
  unlock_released :
      (r : RwLock K) (e : Errno) (kind : LockKind) (k' : K)
      → r.lock ≡ kind
      → is_destroyed kind ≡ false
      → kernel.is_free r.ptr ≡ false
      → release_kind kernel kind r.ptr ≡ some k'
      → rwlock_unlock kernel (some r) e
        ≡ (some 0, some (clear_kind (kernel.is_free k') (record { ptr = k'; lock = kind })), e)
  unfolding rwlock_unlock validated_lock released
  unlock_released r e kind k' same alive held freed =
      simp (same, alive, held)
        (ap (λ o. released kernel r o e) freed
          ∙ ap
              (λ l.
                (some 0, some (clear_kind (kernel.is_free k') (record { ptr = k'; lock = l })), e))
              same)

  cleared-IsSound :
      (k' : K) (kind : LockKind)
      → (0 < readers k' + writers k' → IsSound (record { ptr = k'; lock = kind }))
      → IsSound (clear_kind (kernel.is_free k') (record { ptr = k'; lock = kind }))
        × ((clear_kind (kernel.is_free k') (record { ptr = k'; lock = kind })).ptr ≡ k')
  unfolding clear_kind
  cleared-IsSound k' kind s = elim (Bool-cases (readers k' + writers k' == 0)) [
    | inl free ↦
        let test : kernel.is_free k' ≡ true = law.frees k' ∙ free in
        simp test (inl (refl, ground arith), refl)
    | inr held ↦
        let test : kernel.is_free k' ≡ false = law.frees k' ∙ held in
        simp test (s (ground arith), refl)
  ]

  -- What an unlock of a held lock does.
  pub unlock-IsSound :
      (r : RwLock K) (e : Errno)
      → IsSound r
      → 0 < readers r.ptr + writers r.ptr
      → (r' : RwLock K) × (rwlock_unlock kernel (some r) e ≡ (some 0, some r', e))
        × IsSound r'
        × (readers r'.ptr + writers r'.ptr + 1 ≡ readers r.ptr + writers r.ptr)
  unfolding release_kind
  unlock-IsSound r e s held = elim s [
    | inl (kind, idle) ↦ absurd (omega (arith, idle, held))
    | inr (inl (kind, some_reader, no_writer)) ↦
        let k' = kernel.release_shared r.ptr in
        let (less, same) = law.drops_reader r.ptr some_reader in
        let (sound, there) =
          cleared-IsSound k' shared_lock
            (λ more. inr (inl (refl, omega (arith, more, same, no_writer), same ∙ no_writer))) in
        (
          clear_kind (kernel.is_free k') (record { ptr = k'; lock = shared_lock }),
          unlock_released r e shared_lock k' kind refl (busy r.ptr held) refl,
          sound,
          rw there (omega (arith, less, same)),
        )
    | inr (inr (kind, no_reader, one)) ↦
        let k' = kernel.release_exclusive r.ptr in
        let (less, same) = law.drops_writer r.ptr (omega (arith, one)) in
        let (sound, there) =
          cleared-IsSound k' exclusive_lock
            (λ more. absurd (omega (arith, more, less, same, no_reader, one))) in
        (
          clear_kind (kernel.is_free k') (record { ptr = k'; lock = exclusive_lock }),
          unlock_released r e exclusive_lock k' kind refl (busy r.ptr held) refl,
          sound,
          rw there (omega (arith, less, same)),
        )
  ]

  -- An unlock of a lock that nobody holds.
  idle-IsSound :
      (r : RwLock K) (e : Errno)
      → IsSound r
      → readers r.ptr + writers r.ptr ≡ 0
      → IsSound (left_by r (rwlock_unlock kernel (some r) e))
  unfolding rwlock_unlock validated_lock
  idle-IsSound r e s idle =
      let test : kernel.is_free r.ptr ≡ true = law.frees r.ptr ∙ ground arith in
      simp (not_destroyed r s, test) (inl (refl, idle))

  step-IsSound : (r r' : RwLock K) → IsSound r → Step r r' → IsSound r'
  unfolding rwlock_rdlock rwlock_wrlock rwlock_tryrdlock rwlock_trywrlock validated_wait
      validated_lock
  step-IsSound r r' s (rdlock e o outcome left) = rw left (
      granted-IsSound r e (kernel.try_shared r.ptr) shared_lock o (shared-IsSound r.ptr)
        (simp (not_destroyed r s) at outcome))
  step-IsSound r r' s (wrlock e o outcome left) = rw left (
      granted-IsSound r e (kernel.try_exclusive r.ptr) exclusive_lock o (exclusive-IsSound r.ptr)
        (simp (not_destroyed r s) at outcome))
  step-IsSound r r' s (tryrdlock e left) = rw left (
      simp (not_destroyed r s)
        (tried-IsSound r e (kernel.try_shared r.ptr) shared_lock s (shared-IsSound r.ptr)))
  step-IsSound r r' s (trywrlock e left) = rw left (
      simp (not_destroyed r s)
        (tried-IsSound r e (kernel.try_exclusive r.ptr) exclusive_lock s (exclusive-IsSound r.ptr)))
  step-IsSound r r' s (unlock e left) = elim (Bool-cases (ltb 0 (readers r.ptr + writers r.ptr))) [
    | inl held ↦
        let (r1, outcome, sound, less) = unlock-IsSound r e s (ltb→lt _ _ held) in
        rw (left, outcome) sound
    | inr idle ↦ rw left (idle-IsSound r e s (ground arith))
  ]

  -- After any sequence of whole operations, over a kernel's lock that keeps its promises, on a lock
  -- whose field `lock` agrees with the kernel's lock, as it does on a new one, it agrees: it is
  -- `not_locked` where nobody holds the lock, `shared_lock` where there are readers and no writer,
  -- and `exclusive_lock` where there is one writer and no reader.
  pub Reaches-IsSound : (r r' : RwLock K) → IsSound r → Reaches r r' → IsSound r'
  Reaches-IsSound r r' s start = s
  Reaches-IsSound r r' s (and_then {r1} before step) =
      step-IsSound r1 r' (Reaches-IsSound r r1 s before) step

  -- The lock after `n` unlocks.
  pub unlocks : ℕ → Errno → RwLock K → RwLock K
  unlocks zero e r = r
  unlocks (suc n) e r = unlocks n e (left_by r (rwlock_unlock kernel (some r) e))

  unlocks-IsSound :
      (n : ℕ) (e : Errno) (r : RwLock K)
      → IsSound r
      → readers r.ptr + writers r.ptr ≡ n
      → IsSound (unlocks n e r) × (readers (unlocks n e r).ptr + writers (unlocks n e r).ptr ≡ 0)
  unfolding unlocks
  unlocks-IsSound zero e r s count = (s, count)
  unlocks-IsSound (suc n) e r s count =
      let (r1, outcome, sound, less) = unlock-IsSound r e s (omega (arith, count)) in
      rw (outcome, unlocks) (unlocks-IsSound n e r1 sound (omega (arith, less, count)))

  -- After any sequence of whole operations, over a kernel's lock that keeps its promises, on a lock
  -- whose field agrees with the kernel's lock, as many unlocks as there are holders free it: the
  -- field is `not_locked`, and a writer is let in.
  pub unlocks-Free :
      (r r' : RwLock K) (e : Errno)
      → IsSound r
      → Reaches r r'
      → let r2 = unlocks (readers r'.ptr + writers r'.ptr) e r' in
        (r2.lock ≡ not_locked)
        × ((k : K) × (rwlock_wrlock kernel (some r2) e
              ≡ some (some 0, some (record { ptr = k; lock = exclusive_lock }), e)))
  unfolding rwlock_wrlock validated_wait granted
  unlocks-Free r r' e s path =
      let n = readers r'.ptr + writers r'.ptr in
      let (sound, idle) = unlocks-IsSound n e r' (Reaches-IsSound r r' s path) refl in
      let (k, grant) = law.grants (unlocks n e r').ptr idle in
      (
        elim sound [
          | inl (kind, none_left) ↦ kind
          | inr (inl (kind, some_reader, no_writer)) ↦ absurd (omega (arith, some_reader, idle))
          | inr (inr (kind, no_reader, one)) ↦ absurd (omega (arith, one, idle))
        ],
        (
          k,
          simp (not_destroyed (unlocks n e r') sound) (ap (λ o. granted exclusive_lock o e) grant),
        ),
      )
