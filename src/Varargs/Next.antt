-- ===== src/Varargs/Next.antt =====
-- What `variadic_args_get` of include/internal/varargs.h gives for the index 0: the next argument.
use windows_libc.Common.{
  ℕ, ◌+◌, ◌-◌, ◌*◌, ◌^◌, ◌≤◌, ◌<◌, max, ◌≡◌, refl, ◌∙◌, inl, inr, Bool, true, false, ◌||◌, not,
  Option, some, arith, ◌==◌, Bool-cases, ==_iff, u32,
}
use windows_libc.Varargs.{
  VariadicArgs, with_args, default_size, Fetched, read_static, read_extra, next_static, step_extra,
  next_extra,
}
use windows_libc.Varargs.Keep.{Keeps, read_static-Keeps, read_extra-Keeps}

-- The answer `o` is argument number `n`, counted from 0; the state behind it goes on at `next`, and
-- has read as many arguments as `a` and this one need.
pub record Gives (source : ℕ → ℕ) (a : VariadicArgs) (o : Fetched) (n next : ℕ) : Type 0 where
  pub state : VariadicArgs
  pub gives : o ≡ some (source n, state)
  pub keeps : Keeps source state
  pub next_index : state.current_index ≡ next
  pub reads_once : state.taken ≡ max a.taken (n + 1)

pub answered : {b : VariadicArgs} {o : Option ℕ} {v : ℕ} → o ≡ some v → with_args b o ≡ some (v, b)
answered e = rw e

-- The test for a larger block holds just where the block is full.
is_full :
    (block : Bool) (count capacity : ℕ)
    → default_size ≤ count
    → count ≤ default_size + capacity
    → (block ≡ false → capacity ≡ 0)
    → (not block || count - default_size == capacity) ≡ true
    → count ≡ default_size + capacity
is_full true count capacity l r n e = ground arith
is_full false count capacity l r n e = omega (arith, n refl)

not_full :
    (block : Bool) (count capacity : ℕ)
    → default_size ≤ count
    → count ≤ default_size + capacity
    → (not block || count - default_size == capacity) ≡ false
    → count < default_size + capacity
not_full true count capacity l r e = ground arith
not_full false count capacity l r e = cc

module _ (alloc : ℕ → Bool) (source : ℕ → ℕ) (succeeds : (n : ℕ) → alloc n ≡ true)
    (a : VariadicArgs) (k : Keeps source a) where
  pub stepped :
      (b : VariadicArgs)
      → Keeps source b
      → b.current_index < b.read_count
      → b.current_index + 1 < 2 ^ 32
      → Keeps source (record b { current_index = u32 (b.current_index + 1) })
  stepped b kb h s = record {
    taken_count = kb.taken_count;
    current_le = omega arith;
    static_kept = kb.static_kept;
    extra_kept = kb.extra_kept;
    room = kb.room;
    no_block = kb.no_block;
    modest = kb.modest;
  }

  pub next_static-Gives :
      a.current_index < default_size
      → Gives source a (next_static alloc source a) a.current_index (a.current_index + 1)
  unfolding next_static
  next_static-Gives h = elim (Bool-cases (a.read_count == a.current_index)) [
    | inl last ↦
        let same : a.read_count ≡ a.current_index = (==_iff _ _).0 last in
        let (k', r) = read_static-Keeps alloc source a k (omega arith) in
        rw last (record {
          state = record (read_static alloc source a) {
            current_index = u32 ((read_static alloc source a).current_index + 1);
          };
          gives = answered (k'.static_kept a.current_index h (omega (arith, r.read_more)));
          keeps =
              stepped (read_static alloc source a) k' (omega (arith, r.read_more, r.same_current))
                (omega (arith, r.same_current));
          next_index = omega (arith, r.same_current);
          reads_once = omega (arith, k.taken_count, k'.taken_count, r.read_more);
        })
    | inr kept ↦
        let more : a.current_index < a.read_count = ground (arith, k.current_le) in
        rw kept (record {
          state = record a { current_index = u32 (a.current_index + 1) };
          gives = answered (k.static_kept a.current_index h more);
          keeps = stepped a k more (omega arith);
          next_index = omega arith;
          reads_once = omega (arith, k.taken_count);
        })
  ]

  -- Behind the 64th argument the place is among the extra ones.
  pub extra_place :
      (b : VariadicArgs)
      → Keeps source b
      → (i : ℕ) → default_size ≤ i
      → i < b.read_count
      → b.extra (i - default_size) ≡ some (source i)
  extra_place b kb i l h =
      let e : default_size + (i - default_size) ≡ i = omega arith in
      kb.extra_kept (i - default_size) (rw e h) ∙ rw e

  pub step_extra-Gives :
      (b : VariadicArgs)
      → Keeps source b
      → default_size ≤ a.current_index
      → b.current_index ≡ a.current_index
      → b.read_count ≡ max a.taken (a.current_index + 1)
      → b.current_index + 1 < 2 ^ 32
      → Gives source a (step_extra alloc source b) a.current_index (a.current_index + 1)
  unfolding step_extra
  step_extra-Gives b kb l same more s = record {
    state = record b { current_index = u32 (b.current_index + 1) };
    gives = answered (rw same (extra_place b kb a.current_index l (omega arith)));
    keeps = stepped b kb (omega arith) s;
    next_index = omega arith;
    reads_once = omega (arith, kb.taken_count);
  }

  -- A larger block keeps what was there.
  pub enlarge-Keeps :
      (b : VariadicArgs) (capacity : ℕ)
      → Keeps source b
      → b.read_count ≤ default_size + capacity
      → capacity < 2 ^ 31
      → Keeps source (record b { extra_capacity = capacity; has_extra = true })
  enlarge-Keeps b capacity kb r m = record {
    taken_count = kb.taken_count;
    current_le = kb.current_le;
    static_kept = kb.static_kept;
    extra_kept = kb.extra_kept;
    room = r;
    no_block = λ e. cc;
    modest = m;
  }

  pub next_extra-Gives :
      default_size ≤ a.current_index
      → a.read_count + 1 < 2 ^ 30
      → Gives source a (next_extra alloc source a) a.current_index (a.current_index + 1)
  unfolding next_extra
  next_extra-Gives l s = elim (Bool-cases (a.read_count == a.current_index)) [
    | inl last ↦
        let same : a.read_count ≡ a.current_index = (==_iff _ _).0 last in
        elim (Bool-cases (not a.has_extra || a.read_count - default_size == a.extra_capacity)) [
          | inl full ↦
              let filled : a.read_count ≡ default_size + a.extra_capacity =
                is_full a.has_extra a.read_count a.extra_capacity (omega arith) k.room k.no_block
                  full in
              let capacity : u32 (a.extra_capacity * 2) ≡ a.extra_capacity * 2 = omega arith in
              let larger =
                enlarge-Keeps a (max 4 (a.extra_capacity * 2)) k (omega arith) (omega arith) in
              let b = record a {
                extra_capacity = max 4 (a.extra_capacity * 2);
                has_extra = true;
              } in
              let (k', r) =
                read_extra-Keeps alloc source b larger (omega arith) (omega arith) (omega arith) in
              rw (last, full, capacity, succeeds (8 * max 4 (a.extra_capacity * 2)))
                (step_extra-Gives (read_extra alloc source b) k' l r.same_current
                  (omega (arith, r.read_more, k.taken_count)) (omega (arith, r.same_current)))
          | inr roomy ↦
              let place : a.read_count < default_size + a.extra_capacity =
                not_full a.has_extra a.read_count a.extra_capacity (omega arith) k.room roomy in
              let (k', r) = read_extra-Keeps alloc source a k (omega arith) place (omega arith) in
              rw (last, roomy)
                (step_extra-Gives (read_extra alloc source a) k' l r.same_current
                  (omega (arith, r.read_more, k.taken_count)) (omega (arith, r.same_current)))
        ]
    | inr kept ↦
        let more : a.current_index < a.read_count = ground (arith, k.current_le) in
        rw kept (step_extra-Gives a k l refl (omega (arith, k.taken_count)) (omega arith))
  ]
