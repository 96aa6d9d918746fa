-- ===== src/Tests/ReadWrite.antt =====
-- Read-write locks with a kernel's lock that counts its readers and writers.
use windows_libc.Common.{
  ℕ, ◌+◌, ◌-◌, ◌≡◌, refl, ap, ◌≢◌, inl, inr, true, none, some, arith, ◌==◌, if◌then◌else◌,
  Bool-cases,
}
use windows_libc.Common.Errno.{Errno}
use windows_libc.RwLock.{
  not_locked, shared_lock, exclusive_lock, SlimLock, RwLock, validated_wait, validated_lock,
  granted, tried, rwlock_rdlock, rwlock_wrlock, rwlock_tryrdlock, rwlock_trywrlock, rwlock_unlock,
  clear_kind, IsSlimLock,
}
use windows_libc.RwLock.Sound.{
  IsSound, rdlock, tryrdlock, Reaches, start, and_then, Reaches-IsSound, unlocks, unlocks-Free,
}
use windows_libc.RwLock.Race.{unlock_race}

record Counts : Type 0 where
  readers : ℕ
  writers : ℕ

abbrev counting : SlimLock Counts
counting = record {
  try_shared =
      λ k. if k.writers == 0 then some (record { readers = k.readers + 1; writers = 0 }) else none;
  try_exclusive =
      λ k. if k.readers + k.writers == 0 then some (record { readers = 0; writers = 1 }) else none;
  release_shared = λ k. record k { readers = k.readers - 1 };
  release_exclusive = λ k. record k { writers = k.writers - 1 };
  is_free = λ k. k.readers + k.writers == 0;
}

abbrev count_of : Counts → ℕ
count_of k = k.readers

abbrev writers_of : Counts → ℕ
writers_of k = k.writers

counts_shared :
    (k k' : Counts)
    → counting.try_shared k ≡ some k'
    → (k.writers ≡ 0) × (k'.writers ≡ 0) × (k'.readers ≡ k.readers + 1)
counts_shared k k' e = elim (Bool-cases (k.writers == 0)) [
  | inl free ↦
      let same : k' ≡ record { readers = k.readers + 1; writers = 0 } = grows (simp free at e) in
      (ground arith, ap writers_of same, ap count_of same)
  | inr held ↦ absurd (refused (simp held at e))
]
  where
    grows :
        some (record { readers = k.readers + 1; writers = 0 }) ≡ some k'
        → k' ≡ record { readers = k.readers + 1; writers = 0 }
    grows w = cc

    refused : none ≢ some k'
    refused w = cc

counts_exclusive :
    (k k' : Counts)
    → counting.try_exclusive k ≡ some k'
    → (k.writers ≡ 0) × (k.readers ≡ 0) × (k'.writers ≡ 1) × (k'.readers ≡ 0)
counts_exclusive k k' e = elim (Bool-cases (k.readers + k.writers == 0)) [
  | inl free ↦
      let same : k' ≡ record { readers = 0; writers = 1 } = enters (simp free at e) in
      (ground arith, ground arith, ap writers_of same, ap count_of same)
  | inr held ↦ absurd (refused (simp held at e))
]
  where
    enters :
        some (record { readers = 0; writers = 1 }) ≡ some k'
        → k' ≡ record { readers = 0; writers = 1 }
    enters w = cc

    refused : none ≢ some k'
    refused w = cc

counting-IsSlimLock : IsSlimLock counting count_of writers_of
counting-IsSlimLock = record {
  shared = counts_shared;
  exclusive = counts_exclusive;
  grants = λ k idle.
      let free : (k.readers + k.writers == 0) ≡ true = ground arith in
      (record { readers = 0; writers = 1 }, simp free refl);
  drops_reader = λ k some_reader. (omega arith, refl);
  drops_writer = λ k some_writer. (omega arith, refl);
  frees = λ k. refl;
}

abbrev new_lock : RwLock Counts
new_lock = record { ptr = record { readers = 0; writers = 0 }; lock = not_locked }

abbrev read_once : RwLock Counts
read_once = record { ptr = record { readers = 1; writers = 0 }; lock = shared_lock }

abbrev read_twice : RwLock Counts
read_twice = record { ptr = record { readers = 2; writers = 0 }; lock = shared_lock }

two_readers : Reaches counting count_of writers_of counting-IsSlimLock new_lock read_twice
unfolding rwlock_rdlock rwlock_tryrdlock validated_wait validated_lock granted tried
two_readers =
    and_then (and_then start (rdlock Errno.eperm (some 0, some read_once, Errno.eperm) refl refl))
      (tryrdlock Errno.eperm refl)

Reaches-IsSound_example : IsSound counting count_of writers_of counting-IsSlimLock read_twice
Reaches-IsSound_example =
    Reaches-IsSound counting count_of writers_of counting-IsSlimLock new_lock read_twice
      (inl (refl, refl)) two_readers

unlocks-Free_example :
    let r2 = unlocks counting count_of writers_of counting-IsSlimLock 2 Errno.eperm read_twice in
    (r2.lock ≡ not_locked)
    × ((k : Counts) × (rwlock_wrlock counting (some r2) Errno.eperm
          ≡ some (some 0, some (record { ptr = k; lock = exclusive_lock }), Errno.eperm)))
unlocks-Free_example =
    unlocks-Free counting count_of writers_of counting-IsSlimLock new_lock read_twice Errno.eperm
      (inl (refl, refl)) two_readers

unlock_race_example :
    (k2 : Counts) × (rwlock_wrlock counting
        (some (record { ptr = record { readers = 0; writers = 0 }; lock = shared_lock }))
        Errno.eperm
      ≡ some (some 0, some (record { ptr = k2; lock = exclusive_lock }), Errno.eperm))
    × (let r = clear_kind true (record { ptr = k2; lock = exclusive_lock }) in
        (rwlock_unlock counting (some r) Errno.eperm ≡ (none, some r, Errno.eperm))
        × (rwlock_tryrdlock counting (some r) Errno.eperm ≡ (none, some r, Errno.ebusy))
        × (rwlock_trywrlock counting (some r) Errno.eperm ≡ (none, some r, Errno.ebusy)))
unlock_race_example =
    unlock_race counting count_of writers_of counting-IsSlimLock
      (record { readers = 1; writers = 0 }) Errno.eperm refl refl
