-- ===== src/RwLock.antt =====
-- Read-write locks (src/thread/rwlock.c, `rwlock_t` of include/thread.h). The slim lock of the kernel behind
-- `ptr` is a parameter: a record of functions on a state of its own, what they promise is `IsSlimLock`.
-- `some 0` is the 0 that a function returns, `none` its -1, and `errno` is passed on. A function that waits
-- has no outcome, `none`, as long as the kernel does not grant the lock. Apart from Race, each function is
-- one step.
pub mod Sound
pub mod Race
use windows_libc.Common.{
  ℕ, zero, suc, ◌+◌, ◌-◌, ◌*◌, ◌/◌, ◌%◌, ◌^◌, ◌≤◌, ◌<◌, min, max, bit_and, bit_or, bit_xor, ◌≡◌,
  refl, sym, ap, ◌∙◌, ◌≢◌, ◌↔◌, ◌⊎◌, inl, inr, Bool, true, false, ◌&&◌, ◌||◌, not, Option, none,
  some, List, [], ◌∷◌, ◌++◌, map, append-nil, append_assoc, reverse, reverse_snoc, length-reverse,
  arith, ltb, leb, ◌==◌, if◌then◌else◌, Bool-cases, Option-cases, List-cases, length, get_elem?,
  set, get_or, take, drop, replicate, length-append, length-set, length-take, length-drop,
  length-replicate, take-append, drop-append, take-take-append, take-set, drop-cons, drop-nil,
  get_elem?-set_self, get_elem?-set_ne, ==_iff, &&_true, ltb→lt, lt→ltb, leb→le, u8, u16, u32, u64,
}
use windows_libc.Common.Errno.{Errno}

-- The field `lock`: `RWLOCK_NOT_LOCKED`, `RWLOCK_SHARED_LOCK`, `RWLOCK_EXCLUSIVE_LOCK` and
-- `RWLOCK_DESTROYED`.
pub data LockKind : Type 0 where
  not_locked shared_lock exclusive_lock destroyed : LockKind

-- The attempts to acquire the kernel's lock, which may fail, the releases, and the test of `ptr` for 0.
pub record SlimLock (K : Type 0) : Type 0 where
  pub try_shared : K → Option K
  pub try_exclusive : K → Option K
  pub release_shared : K → K
  pub release_exclusive : K → K
  pub is_free : K → Bool

pub record RwLock (K : Type 0) : Type 0 where
  pub ptr : K
  pub lock : LockKind

abbrev pub Outcome : Type 0 → Type 0
Outcome K = Option ℕ × Option (RwLock K) × Errno

abbrev pub is_destroyed : LockKind → Bool
is_destroyed destroyed = true
is_destroyed other = false

module _ {K : Type 0} where
  -- `VALIDATE_RWLOCK` in front of a function that may wait, and of one that does not.
  unfoldable pub validated_wait :
      (RwLock K → Errno → Option (Outcome K)) → Option (RwLock K) → Errno → Option (Outcome K)
  validated_wait f none e = some (none, none, Errno.einval)
  validated_wait f (some r) e =
      if is_destroyed r.lock then some (none, some r, Errno.einval) else f r e

  unfoldable pub validated_lock :
      (RwLock K → Errno → Outcome K) → Option (RwLock K) → Errno → Outcome K
  validated_lock f none e = (none, none, Errno.einval)
  validated_lock f (some r) e = if is_destroyed r.lock then (none, some r, Errno.einval) else f r e

  -- `zero_ptr` is the state of the kernel's lock at `ptr` 0.
  unfoldable pub rwlock_init : K → Option (RwLock K) → Errno → Outcome K
  rwlock_init zero_ptr none e = (none, none, Errno.einval)
  rwlock_init zero_ptr (some r) e = (some 0, some (record { ptr = zero_ptr; lock = not_locked }), e)

  unfoldable pub rwlock_destroy : Option (RwLock K) → Errno → Outcome K
  unfolding validated_lock
  rwlock_destroy = validated_lock (λ r e. (some 0, some (record r { lock = destroyed }), e))

  -- The lock was granted, with the new state of the kernel's lock; `none` is a wait.
  unfoldable pub granted : LockKind → Option K → Errno → Option (Outcome K)
  granted kind none e = none
  granted kind (some k) e = some (some 0, some (record { ptr = k; lock = kind }), e)

  -- The same for an attempt.
  unfoldable pub tried : LockKind → RwLock K → Option K → Errno → Outcome K
  tried kind r none e = (none, some r, Errno.ebusy)
  tried kind r (some k) e = (some 0, some (record { ptr = k; lock = kind }), e)

  -- The end of an unlock: the test whether `ptr` is 0, and the write that depends on it.
  unfoldable pub clear_kind : Bool → RwLock K → RwLock K
  clear_kind free r = if free then record r { lock = not_locked } else r

module _ {K : Type 0} (kernel : SlimLock K) where
  unfoldable pub rwlock_rdlock : Option (RwLock K) → Errno → Option (Outcome K)
  rwlock_rdlock = validated_wait (λ r e. granted shared_lock (kernel.try_shared r.ptr) e)

  unfoldable pub rwlock_wrlock : Option (RwLock K) → Errno → Option (Outcome K)
  rwlock_wrlock = validated_wait (λ r e. granted exclusive_lock (kernel.try_exclusive r.ptr) e)

  unfoldable pub rwlock_tryrdlock : Option (RwLock K) → Errno → Outcome K
  rwlock_tryrdlock = validated_lock (λ r e. tried shared_lock r (kernel.try_shared r.ptr) e)

  unfoldable pub rwlock_trywrlock : Option (RwLock K) → Errno → Outcome K
  rwlock_trywrlock = validated_lock (λ r e. tried exclusive_lock r (kernel.try_exclusive r.ptr) e)

  -- The release of the kernel's lock by the kind that the field has; `none` is the default of the switch.
  unfoldable pub release_kind : LockKind → K → Option K
  release_kind shared_lock k = some (kernel.release_shared k)
  release_kind exclusive_lock k = some (kernel.release_exclusive k)
  release_kind other k = none

  unfoldable pub released : RwLock K → Option K → Errno → Outcome K
  unfolding clear_kind
  released r none e = (none, some r, Errno.eperm)
  released r (some k) e = (some 0, some (clear_kind (kernel.is_free k) (record r { ptr = k })), e)

  unfoldable pub rwlock_unlock : Option (RwLock K) → Errno → Outcome K
  rwlock_unlock = validated_lock (λ r e.
      if kernel.is_free r.ptr
      then (none, some (record r { lock = not_locked }), Errno.eperm)
      else released r (release_kind r.lock r.ptr) e)

-- What the kernel's lock promises: it has some readers or one writer, `ptr` is 0 where it has neither, it
-- grants a shared lock where there is no writer, an exclusive one where there is nobody, and a release
-- takes away the one that holds it.
pub record IsSlimLock {K : Type 0} (kernel : SlimLock K) (readers : K → ℕ) (writers : K → ℕ)
    : Type 0 where
  pub shared :
      (k k' : K)
      → kernel.try_shared k ≡ some k'
      → (writers k ≡ 0) × (writers k' ≡ 0) × (readers k' ≡ readers k + 1)
  pub exclusive :
      (k k' : K)
      → kernel.try_exclusive k ≡ some k'
      → (writers k ≡ 0) × (readers k ≡ 0) × (writers k' ≡ 1) × (readers k' ≡ 0)
  pub grants : (k : K) → readers k + writers k ≡ 0 → (k' : K) × (kernel.try_exclusive k ≡ some k')
  pub drops_reader :
      (k : K)
      → 0 < readers k
      → (readers (kernel.release_shared k) + 1 ≡ readers k)
        × (writers (kernel.release_shared k) ≡ writers k)
  pub drops_writer :
      (k : K)
      → 0 < writers k
      → (writers (kernel.release_exclusive k) + 1 ≡ writers k)
        × (readers (kernel.release_exclusive k) ≡ readers k)
  pub frees : (k : K) → kernel.is_free k ≡ (readers k + writers k == 0)
