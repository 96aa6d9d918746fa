-- ===== src/Varargs/Refine.antt =====
-- What `variadic_args_get` of include/internal/varargs.h gives: the arguments by their number.
use windows_libc.Common.{
  ℕ, ◌+◌, ◌-◌, ◌*◌, ◌^◌, ◌≤◌, ◌<◌, max, ◌≡◌, refl, ◌∙◌, inl, inr, Bool, true, false, ◌||◌, not,
  arith, ltb, leb, ◌==◌, if◌then◌else◌, Bool-cases, ltb→lt, leb→le, u32,
}
use windows_libc.Varargs.{
  VariadicArgs, variadic_args_init, default_size, round_up4, read_static, read_extra, read_rest,
  indexed_static, finish_extra, indexed_extra, variadic_args_get,
}
use windows_libc.Varargs.Keep.{Keeps, Reaches, Reaches-refl, read_rest_static, read_rest_extra}
use windows_libc.Varargs.Next.{
  Gives, answered, extra_place, enlarge-Keeps, next_static-Gives, next_extra-Gives,
}

too_small :
    (block : Bool) (count need capacity capacity' : ℕ)
    → count ≤ default_size + capacity
    → (block ≡ false → capacity ≡ 0)
    → (not block || ltb capacity need) ≡ true
    → need ≤ capacity'
    → count ≤ default_size + capacity'
too_small true count need capacity capacity' r n e l = ground arith
too_small false count need capacity capacity' r n e l = omega (arith, n refl)

large_enough :
    (block : Bool) (need capacity : ℕ) → (not block || ltb capacity need) ≡ false → need ≤ capacity
large_enough true need capacity e = ground arith
large_enough false need capacity e = cc

module _ (alloc : ℕ → Bool) (source : ℕ → ℕ) (succeeds : (n : ℕ) → alloc n ≡ true)
    (a : VariadicArgs) (k : Keeps source a) where
  indexed_static-Gives :
      (index : ℕ)
      → 0 < index
      → index ≤ default_size
      → a.read_count < 2 ^ 30
      → Gives source a (indexed_static alloc source a index) (index - 1) a.current_index
  unfolding indexed_static
  indexed_static-Gives index p l s =
      let b = read_rest alloc source (read_static alloc source) (index - a.read_count) a in
      let e : index - 1 + 1 ≡ index = omega arith in
      elim (Bool-cases (ltb a.read_count index)) [
        | inl missing ↦
            let below : a.read_count < index = ltb→lt _ _ missing in
            let (k', r) = read_rest_static alloc source (index - a.read_count) a k (omega arith) in
            record {
              state = b;
              gives =
                  answered (k'.static_kept (index - 1) (omega arith) (omega (arith, r.read_more)));
              keeps = k';
              next_index = r.same_current;
              reads_once = omega (arith, k.taken_count, k'.taken_count, r.read_more);
            }
        | inr there ↦
            let reached : index ≤ a.read_count = ground arith in
            let z : index - a.read_count ≡ 0 = omega arith in
            rw z (
              unfold read_rest in
              record {
                state = a;
                gives = answered (k.static_kept (index - 1) (omega arith) (omega arith));
                keeps = k;
                next_index = refl;
                reads_once = omega (arith, k.taken_count);
              })
      ]

  finish_extra-Gives :
      (index : ℕ) (b : VariadicArgs)
      → Keeps source b
      → default_size < index
      → index < 2 ^ 30
      → default_size ≤ b.read_count
      → b.read_count ≡ max a.taken default_size
      → index ≤ default_size + b.extra_capacity
      → b.current_index ≡ a.current_index
      → Gives source a (finish_extra alloc source index b) (index - 1) a.current_index
  unfolding finish_extra
  finish_extra-Gives index b kb g s l e r c =
      let n : index - default_size - 1 ≡ index - 1 - default_size = omega arith in
      elim (Bool-cases (ltb b.read_count index)) [
        | inl missing ↦
            let below : b.read_count < index = ltb→lt _ _ missing in
            let (k', m) =
              read_rest_extra alloc source (index - b.read_count) b kb l (omega arith)
                (omega arith) in
            record {
              state = read_rest alloc source (read_extra alloc source) (index - b.read_count) b;
              gives = answered (
                  rw n (
                    extra_place alloc source succeeds a k _ k' (index - 1) (omega arith)
                      (omega (arith, m.read_more))));
              keeps = k';
              next_index = m.same_current ∙ c;
              reads_once = omega (arith, k'.taken_count, m.read_more);
            }
        | inr there ↦
            let reached : index ≤ b.read_count = ground arith in
            let z : index - b.read_count ≡ 0 = omega arith in
            rw z (
              unfold read_rest in
              record {
                state = b;
                gives = answered (
                    rw n (
                      extra_place alloc source succeeds a k b kb (index - 1) (omega arith)
                        (omega arith)));
                keeps = kb;
                next_index = c;
                reads_once = omega (arith, kb.taken_count);
              })
      ]

  -- The arguments that the first 64 places lack.
  first_block :
      Keeps source
        (read_rest alloc source (read_static alloc source) (default_size - a.read_count) a)
      × Reaches a
          (read_rest alloc source (read_static alloc source) (default_size - a.read_count) a)
          (max a.read_count default_size)
  first_block = elim (Bool-cases (ltb a.read_count default_size)) [
    | inl fewer ↦
        let below : a.read_count < default_size = ltb→lt _ _ fewer in
        let (kb, r) =
          read_rest_static alloc source (default_size - a.read_count) a k (omega arith) in
        (
          kb,
          record {
            read_more = omega (arith, r.read_more);
            same_current = r.same_current;
            same_capacity = r.same_capacity;
            same_block = r.same_block;
          },
        )
    | inr enough ↦
        let reached : default_size ≤ a.read_count = ground arith in
        let z : default_size - a.read_count ≡ 0 = omega arith in
        rw z (unfold read_rest in (k, Reaches-refl a (omega arith)))
  ]

  indexed_extra-Gives :
      (index : ℕ)
      → default_size < index
      → index < 2 ^ 30
      → a.read_count < 2 ^ 30
      → Gives source a (indexed_extra alloc source a index) (index - 1) a.current_index
  unfolding indexed_extra
  indexed_extra-Gives index g s t =
      let b = read_rest alloc source (read_static alloc source) (default_size - a.read_count) a in
      let (kb, r) : Keeps source b × Reaches a b (max a.read_count default_size) = first_block in
      let wide : u32 (index - default_size + 3) ≡ index - default_size + 3 = omega arith in
      let capacity = max 4 (round_up4 (index - default_size)) in
      elim (Bool-cases (not b.has_extra || ltb b.extra_capacity (index - default_size))) [
        | inl small ↦
            let c = record b { extra_capacity = capacity; has_extra = true } in
            let kc =
              enlarge-Keeps alloc source succeeds a k b capacity kb
                (too_small b.has_extra b.read_count (index - default_size) b.extra_capacity capacity
                  kb.room kb.no_block small (omega arith))
                (omega arith) in
            rw (small, succeeds (8 * capacity))
              (finish_extra-Gives index c kc g s (omega (arith, r.read_more))
                (omega (arith, r.read_more, k.taken_count)) (omega arith) r.same_current)
        | inr large ↦ rw large (
            finish_extra-Gives index b kb g s (omega (arith, r.read_more))
              (omega (arith, r.read_more, k.taken_count))
              (omega
                (arith, large_enough b.has_extra (index - default_size) b.extra_capacity large))
              r.same_current)
      ]

  -- In a state that keeps the arguments it has read, where the memory for them never runs out, fewer than 2 ^ 30 - 1 of them were read and the number
  -- asked for is below 2 ^ 30: index 0 gives the argument that comes next and goes on to the one behind it, any
  -- other index gives the argument with that number, counted from 1, and the next one stays. Behind the call
  -- the state keeps its arguments as before, and `va_arg` was called as often as the highest number so far.
  pub variadic_args_get-Gives :
      (index : ℕ)
      → index < 2 ^ 30
      → a.read_count + 1 < 2 ^ 30
      → Gives source a
          (variadic_args_get alloc source a index)
          (if index == 0 then a.current_index else index - 1)
          (if index == 0 then a.current_index + 1 else a.current_index)
  unfolding variadic_args_get
  variadic_args_get-Gives index s t = elim (Bool-cases (index == 0)) [
    | inl next ↦ elim (Bool-cases (ltb a.current_index default_size)) [
      | inl early ↦
          rw (next, early) (next_static-Gives alloc source succeeds a k (ltb→lt _ _ early))
      | inr late ↦ rw (next, late) (next_extra-Gives alloc source succeeds a k (ground arith) t)
    ]
    | inr numbered ↦ elim (Bool-cases (leb index default_size)) [
      | inl low ↦
          rw (numbered, low)
            (indexed_static-Gives index (ground arith) (leb→le _ _ low) (omega arith))
      | inr high ↦ rw (numbered, high) (indexed_extra-Gives index (ground arith) s (omega arith))
    ]
  ]

-- At first nothing is kept, and the first argument comes next.
pub variadic_args_init-Keeps : (source : ℕ → ℕ) → Keeps source variadic_args_init
unfolding variadic_args_init
variadic_args_init-Keeps source = record {
  taken_count = refl;
  current_le = omega arith;
  static_kept = λ i l h. absurd (omega arith);
  extra_kept = λ i h. absurd (omega arith);
  room = omega arith;
  no_block = λ e. refl;
  modest = omega arith;
}
