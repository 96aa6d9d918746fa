-- ===== src/Printf/Format/Perform.antt =====
-- The calls of a printer (src/stdio/printf.c) on a buffer of the memory kind, one after the other.
use windows_libc.Common.{
  ℕ, suc, ◌+◌, ◌^◌, ◌<◌, ◌≡◌, refl, ap, ◌⊎◌, inl, inr, Bool, true, false, Option, none, some, List,
  [], ◌∷◌, arith, length, length-append,
}
use windows_libc.Buffer.{Buffer, Writer, memory_buffer_write}
use windows_libc.Buffer.Advance.{
  Started, Advanced, Advances, writebyte-Advances, writen-Advances, writebyte_failed, writen_failed,
}
use windows_libc.Buffer.Write.{IsValid, Written, writebyte-Written, writen-Written}
use windows_libc.Printf.{Effect, write_byte, write_n, store, bytes_of, next_call, perform}
use windows_libc.Printf.Pad.Count.{amount}

pub perform_failed :
    (write : Option Writer) (es : List Effect) (b : Buffer)
    → b.error ≡ true
    → perform write es b ≡ some b
unfolding perform
perform_failed write [] b e = refl
perform_failed write (write_byte c ∷ es) b e =
    rw (writebyte_failed write b c e) (perform_failed write es b e)
perform_failed write (write_n cs ∷ es) b e =
    rw (writen_failed write b cs e) (perform_failed write es b e)
perform_failed write (store a bits v ∷ es) b e = perform_failed write es b e

-- The calls of a printer move a buffer by the number of their bytes.
abbrev pub Moves : Buffer → ℕ → Option Buffer → Type 0
Moves b n none = Unit
Moves b n (some c) = Advanced b n c

module _ (alloc : ℕ → Bool) (frees : alloc 0 ≡ false) where
  abbrev pub memory : Option Writer
  memory = some (memory_buffer_write alloc)

  next_call-Moves :
      (b : Buffer) (n m : ℕ) (es : List Effect) (o : Option (ℕ × Buffer))
      → ((c : Buffer) → c.error ≡ false → Started c → Moves c m (perform memory es c))
      → Advances b n o
      → Moves b (n + m) (next_call (perform memory es) o)
  next_call-Moves b n m es none h a = tt
  next_call-Moves b n m es (some (k, c)) h (inl failed) =
      rw (perform_failed memory es c failed) (inl failed)
  next_call-Moves b n m es (some (k, c)) h (inr (e, p, s)) = further (perform memory es c) (h c e s)
    where
      further : (o : Option Buffer) → Moves c m o → Moves b (n + m) o
      further none q = tt
      further (some d) (inl failed) = inl failed
      further (some d) (inr (e', p', s')) = inr (e', omega (arith, p, p'), s')

  pub perform-Moves :
      (es : List Effect) (b : Buffer)
      → b.error ≡ false
      → Started b
      → Moves b (amount es) (perform memory es b)
  unfolding perform bytes_of
  perform-Moves [] b e s = inr (e, omega arith, s)
  perform-Moves (write_byte c ∷ es) b e s =
      let k : suc (amount es) ≡ 1 + amount es = omega arith in
      rw k (
        next_call-Moves b 1 (amount es) es _ (perform-Moves es)
          (writebyte-Advances alloc frees b c e s))
  perform-Moves (write_n cs ∷ es) b e s = rw (length-append cs (bytes_of es)) (
      next_call-Moves b (length cs) (amount es) es _ (perform-Moves es)
        (writen-Advances alloc frees b cs e s))
  perform-Moves (store a bits v ∷ es) b e s = perform-Moves es b e s

  -- The buffer stays well formed, or gets an error.
  abbrev pub Keeps : Option Buffer → Type 0
  Keeps none = Unit
  Keeps (some c) = (c.error ≡ true) ⊎ IsValid c

  valid-Started : {b : Buffer} → IsValid b → Started b
  valid-Started v z = omega (arith, v.within)

  next_call-Keeps :
      (b : Buffer) (xs : List ℕ) (es : List Effect) (o : Option (ℕ × Buffer))
      → ((c : Buffer) → IsValid c → c.pos + amount es < 2 ^ 62 → Keeps (perform memory es c))
      → Advances b (length xs) o
      → Written b xs o
      → b.pos + length xs + amount es < 2 ^ 62
      → Keeps (next_call (perform memory es) o)
  next_call-Keeps b xs es none h a w small = tt
  next_call-Keeps b xs es (some (k, c)) h (inl failed) w small =
      rw (perform_failed memory es c failed) (inl failed)
  next_call-Keeps b xs es (some (k, c)) h (inr (e, p, s)) (n, d, same, inr (z, failed)) small =
      let equal : d ≡ c = cc in absurd_error (ap (λ (x : Buffer). x.error) equal) failed e
    where
      absurd_error : {A : Type 0} → d.error ≡ c.error → d.error ≡ true → c.error ≡ false → A
      absurd_error q t f = cc
  next_call-Keeps b xs es (some (k, c)) h (inr (e, p, s)) (n, d, same, inl (z, wrote)) small =
      let equal : d ≡ c = cc in h c (rw equal at wrote.valid) (omega (arith, p))

  pub perform-Keeps :
      (es : List Effect) (b : Buffer)
      → IsValid b
      → b.pos + amount es < 2 ^ 62
      → Keeps (perform memory es b)
  unfolding perform bytes_of
  perform-Keeps [] b v small = inr v
  perform-Keeps (write_byte c ∷ es) b v small =
      next_call-Keeps b (c ∷ []) es _ (perform-Keeps es)
        (writebyte-Advances alloc frees b c v.no_error (valid-Started v))
        (writebyte-Written alloc c v (omega arith)) (omega arith)
  perform-Keeps (write_n cs ∷ es) b v small =
      let whole = length-append cs (bytes_of es) in
      next_call-Keeps b cs es _ (perform-Keeps es)
        (writen-Advances alloc frees b cs v.no_error (valid-Started v))
        (writen-Written alloc cs v (omega (arith, whole))) (omega (arith, whole))
  perform-Keeps (store a bits v ∷ es) b w small = perform-Keeps es b w small
