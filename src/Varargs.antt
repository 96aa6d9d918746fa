-- ===== src/Varargs.antt =====
-- `variadic_args` of include/internal/varargs.h: the arguments of a call in order, read from the
-- `va_list` once each and kept, so that `%n$` can come back to them. `source` is the list of arguments:
-- the n-th `va_arg` gives the n-th word of it. `taken` counts these calls. `kept` has
-- what `args` holds by index, and `extra` what `extra_args` holds; `none` is a place that holds an
-- indeterminate pointer. (`args` is zeroed at first: reading a zero of it is `none` too.)
-- `alloc` is whether `realloc` gives so many bytes. The loops have the rounds that are left as fuel.
pub mod Keep
pub mod Next
pub mod Refine
use windows_libc.Common.{
  ℕ, zero, suc, ◌+◌, ◌-◌, ◌*◌, ◌/◌, ◌^◌, max, Bool, true, false, not, ◌&&◌, ◌||◌, Option, none,
  some, List, [], ◌∷◌, ◌++◌, ltb, leb, ◌==◌, if◌then◌else◌, length, get_elem?, u32, u64,
}

pub record VariadicArgs : Type 0 where
  pub taken : ℕ
  pub current_index : ℕ
  pub read_count : ℕ
  pub kept : ℕ → Option ℕ
  pub extra_capacity : ℕ
  pub has_extra : Bool
  pub extra : ℕ → Option ℕ

abbrev pub default_size : ℕ
default_size = 64

unfoldable pub variadic_args_init : VariadicArgs
variadic_args_init = record {
  taken = 0;
  current_index = 0;
  read_count = 0;
  kept = λ i. none;
  extra_capacity = 0;
  has_extra = false;
  extra = λ i. none;
}

-- A word, or the NULL of a failed `realloc`, with the new state.
abbrev pub Fetched : Type 0
Fetched = Option (ℕ × VariadicArgs)

abbrev pub with_args : VariadicArgs → Option ℕ → Fetched
with_args a none = none
with_args a (some v) = some (v, a)

-- `ROUND_UP(x, 4)`.
abbrev pub round_up4 : ℕ → ℕ
round_up4 x = u32 (x + 3) / 4 * 4

-- `slots[n] = v`.
abbrev pub set_slot : (ℕ → Option ℕ) → ℕ → ℕ → ℕ → Option ℕ
set_slot slots n v i = if i == n then some v else slots i

module _ (alloc : ℕ → Bool) (source : ℕ → ℕ) where
  -- `args[read_count++] = va_arg(list, void *)`.
  unfoldable pub read_static : VariadicArgs → VariadicArgs
  read_static a = record a {
    taken = a.taken + 1;
    read_count = u32 (a.read_count + 1);
    kept = set_slot a.kept a.read_count (source a.taken);
  }

  -- `extra_args[read_count++ - VARIADIC_ARGS_DEFAULT_SIZE] = va_arg(list, void *)`.
  unfoldable pub read_extra : VariadicArgs → VariadicArgs
  read_extra a = record a {
    taken = a.taken + 1;
    read_count = u32 (a.read_count + 1);
    extra = set_slot a.extra (a.read_count - default_size) (source a.taken);
  }

  -- The block of `capacity` pointers. Where it fails the old one is no longer pointed to.
  unfoldable pub enlarge : VariadicArgs → ℕ → VariadicArgs × Bool
  enlarge a capacity =
      if alloc (8 * capacity)
      then (record a { extra_capacity = capacity; has_extra = true }, true)
      else (record a { extra_capacity = capacity; has_extra = false; extra = λ i. none }, false)

  -- `for (i = read_count; i < index; ++i)`, in `args` and in `extra_args`.
  unfoldable pub read_rest : (VariadicArgs → VariadicArgs) → ℕ → VariadicArgs → VariadicArgs
  read_rest get zero a = a
  read_rest get (suc n) a = read_rest get n (get a)

  -- The argument behind the last one, among the first 64.
  unfoldable pub next_static : VariadicArgs → Fetched
  unfolding read_static
  next_static a =
      let b = if a.read_count == a.current_index then read_static a else a in
      with_args (record b { current_index = u32 (b.current_index + 1) }) (b.kept b.current_index)

  unfoldable pub step_extra : VariadicArgs → Fetched
  step_extra b =
      with_args (record b { current_index = u32 (b.current_index + 1) })
        (b.extra (b.current_index - default_size))

  abbrev pub after_enlarge : (VariadicArgs → Fetched) → VariadicArgs × Bool → Fetched
  after_enlarge go (a, true) = go a
  after_enlarge go (a, false) = some (0, a)

  -- The argument behind the last one, from the 65th on.
  unfoldable pub next_extra : VariadicArgs → Fetched
  unfolding read_extra enlarge step_extra
  next_extra a =
      if a.read_count == a.current_index
      then (if not a.has_extra || a.read_count - default_size == a.extra_capacity
          then after_enlarge (λ b. step_extra (read_extra b))
              (enlarge a (max 4 (u32 (a.extra_capacity * 2))))
          else step_extra (read_extra a))
      else step_extra a

  -- The argument number `index` among the first 64.
  unfoldable pub indexed_static : VariadicArgs → ℕ → Fetched
  unfolding read_static read_rest
  indexed_static a index =
      let b = read_rest read_static (index - a.read_count) a in with_args b (b.kept (index - 1))

  unfoldable pub finish_extra : ℕ → VariadicArgs → Fetched
  unfolding read_extra read_rest
  finish_extra index a =
      let b = read_rest read_extra (index - a.read_count) a in
      with_args b (b.extra (index - default_size - 1))

  unfoldable pub indexed_extra : VariadicArgs → ℕ → Fetched
  unfolding read_static read_rest enlarge finish_extra
  indexed_extra a index =
      let b = read_rest read_static (default_size - a.read_count) a in
      if not b.has_extra || ltb b.extra_capacity (index - default_size)
      then after_enlarge (finish_extra index) (enlarge b (max 4 (round_up4 (index - default_size))))
      else finish_extra index b

  unfoldable pub variadic_args_get : VariadicArgs → ℕ → Fetched
  unfolding next_static next_extra indexed_static indexed_extra
  variadic_args_get a index =
      if index == 0
      then (if ltb a.current_index default_size then next_static a else next_extra a)
      else if leb index default_size
      then indexed_static a index
      else indexed_extra a index
