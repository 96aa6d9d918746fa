-- ===== src/Buffer/Fixed.antt =====
-- A buffer of fixed size (include/internal/buffer.h): no callback makes room in it.
use windows_libc.Common.{
  ℕ, ◌+◌, ◌≡◌, refl, sym, ap, true, false, none, some, List, [], ◌∷◌, ◌++◌, append_assoc, arith,
  ltb, length, set, length-append,
}
use windows_libc.Buffer.{Buffer, put, writebyte}

-- The buffer has written `before`, and `rest` is left of its array.
pub record At (b : Buffer) (before rest : List ℕ) : Type 0 where
  pub no_error : b.error ≡ false
  pub array : b.bytes ≡ before ++ rest
  pub place : b.pos ≡ length before
  pub sized : b.size ≡ length before + length rest

pub set-append :
    (before rest : List ℕ) (r x : ℕ)
    → set (before ++ (r ∷ rest)) (length before) x ≡ before ++ (x ∷ rest)
set-append [] rest r x = refl
set-append (b ∷ before) rest r x = ap (λ xs. b ∷ xs) (set-append before rest r x)

put-At :
    (b : Buffer) (before rest : List ℕ) (r x : ℕ)
    → At b before (r ∷ rest)
    → At (put b x) (before ++ x ∷ []) rest
unfolding put
put-At b before rest r x a = record {
  no_error = a.no_error;
  array = rw (a.array, a.place, set-append) (sym (append_assoc before (x ∷ []) rest));
  place = omega (arith, a.place, length-append before (x ∷ []));
  sized = omega (arith, a.sized, length-append before (x ∷ []));
}

-- A byte that fits stands behind the others; one that does not is dropped, without an error.
pub writebyte_fits :
    (b : Buffer) (before rest : List ℕ) (r x : ℕ)
    → At b before (r ∷ rest)
    → (c : Buffer) × (writebyte none b x ≡ some (1, c)) × At c (before ++ x ∷ []) rest
unfolding writebyte
writebyte_fits b before rest r x a =
    let room : ltb b.size (b.pos + 1) ≡ false = ground (arith, a.place, a.sized) in
    (put b x, simp (a.no_error, room), put-At b before rest r x a)

pub writebyte_full :
    (b : Buffer) (before : List ℕ) (x : ℕ) → At b before [] → writebyte none b x ≡ some (0, b)
unfolding writebyte
writebyte_full b before x a =
    let short : ltb b.size (b.pos + 1) ≡ true = ground (arith, a.place, a.sized) in
    simp (a.no_error, short)
