-- ===== src/Stdio/Read/Loops.antt =====
-- The reads of `common_fread` from a descriptor that keeps its word, and the loop into the target.
use windows_libc.Common.{
  ℕ, zero, suc, ◌+◌, ◌≤◌, ◌<◌, ◌≡◌, refl, sym, ap, ◌∙◌, ◌⊎◌, inl, inr, Bool, true, false, Option,
  none, some, List, [], ◌∷◌, ◌++◌, append_assoc, arith, ltb, Bool-cases, List-cases, length,
  length-append,
}
use windows_libc.Stdio.{Device, Stream, StreamError, io_eof}
use windows_libc.Stdio.Read.{read_done, read_wrapper, direct}

-- What `read` promises of a descriptor without errors, `left` being the bytes that are still to be
-- read: it returns the next ones, at most as many as are asked for, and none only at the end.
pub record Reads {S : Type 0} (dev : Device S) (left : S → List ℕ) : Type 0 where
  pub answers :
      (d : S) (n : ℕ)
      → (xs : List ℕ) × ((dev.read d n).0 ≡ some xs)
        × (left d ≡ xs ++ left (dev.read d n).1)
        × (length xs ≤ n)
        × ((0 < length xs) ⊎ (n ≡ 0) ⊎ (left d ≡ []))

module _ {S : Type 0} (dev : Device S) (left : S → List ℕ) (law : Reads dev left) where
  -- A read puts some bytes before those that are left, and changes only the descriptor and the error.
  pub record Took (n : ℕ) (s : Stream S) (xs : List ℕ) (s' : Stream S) : Type 0 where
    pub device : S
    pub error : StreamError
    pub same : s' ≡ record s { device = device; error = error }
    pub next : left s.device ≡ xs ++ left s'.device
    pub within : length xs ≤ n
    pub ended :
        ((0 < length xs) × (s'.error ≡ s.error))
        ⊎ (n ≡ 0)
        ⊎ ((length xs ≡ 0) × (left s'.device ≡ []) × (s'.error ≡ io_eof))

  read_done-Took :
      (n : ℕ) (s : Stream S) (o : Option (List ℕ)) (d : S) (xs : List ℕ)
      → o ≡ some xs
      → left s.device ≡ xs ++ left d
      → length xs ≤ n
      → (0 < length xs) ⊎ (n ≡ 0) ⊎ (left s.device ≡ [])
      → Took n s (read_done (o, d) s).0 (read_done (o, d) s).1
  unfolding read_done
  read_done-Took n s none d xs e next within ended = absurd (cc)
  read_done-Took n s (some (x ∷ ys)) d xs e next within ended =
      let all : xs ≡ x ∷ ys = cc in
      record {
        device = d;
        error = s.error;
        same = refl;
        next = rw all at next;
        within = rw all at within;
        ended = inl (omega arith, refl);
      }
  read_done-Took n s (some []) d xs e next within ended =
      let all : xs ≡ [] = cc in
      let kept : left s.device ≡ left d = rw all at next in
      record {
        device = d;
        error = io_eof;
        same = refl;
        next = kept;
        within = omega arith;
        ended = elim ended [
          | inl some_read ↦ absurd (omega (arith, ap length all))
          | inr (inl nothing) ↦ inr (inl nothing)
          | inr (inr over) ↦ inr (inr (refl, sym kept ∙ over, refl))
        ];
      }

  pub read_wrapper-Took :
      (n : ℕ) (s : Stream S) → Took n s (read_wrapper dev n s).0 (read_wrapper dev n s).1
  unfolding read_wrapper
  read_wrapper-Took n s =
      let (xs, answer, next, within, ended) = law.answers s.device n in
      read_done-Took n s (dev.read s.device n).0 (dev.read s.device n).1 xs answer next within ended

  module _ (fuel size : ℕ) (got : List ℕ) (s : Stream S) where
    direct_stop :
        ltb (length got + s.buf_size) size ≡ false
        → direct dev (suc fuel) size got s ≡ some (got, true, s)
    unfolding direct
    direct_stop h = rw (h, direct) refl

    module _ (h : ltb (length got + s.buf_size) size ≡ true) where
      direct_end :
          (read_wrapper dev s.buf_size s).0 ≡ []
          → direct dev (suc fuel) size got s ≡ some (got, false, (read_wrapper dev s.buf_size s).1)
      unfolding direct
      direct_end e = rw (h, e, direct) refl

      direct_more :
          (x : ℕ) (ys : List ℕ)
          → (read_wrapper dev s.buf_size s).0 ≡ x ∷ ys
          → direct dev (suc fuel) size got s
            ≡ direct dev fuel size (got ++ (x ∷ ys)) (read_wrapper dev s.buf_size s).1
      unfolding direct
      direct_more x ys e = rw (h, e, direct) refl

  -- The loop into the target has put bytes behind `got`, and ended at the end of the file or with at
  -- most a buffer of bytes to go.
  pub record Direct (size : ℕ) (got : List ℕ) (s : Stream S) (r : Option (List ℕ × Bool × Stream S))
      : Type 0 where
    pub all : List ℕ
    pub more : Bool
    pub after : Stream S
    pub returned : r ≡ some (all, more, after)
    pub device : S
    pub error : StreamError
    pub same : after ≡ record s { device = device; error = error }
    pub next : got ++ left s.device ≡ all ++ left after.device
    pub within : length all ≤ size
    pub outcome :
        ((more ≡ true) × (size ≤ length all + s.buf_size) × (after.error ≡ s.error))
        ⊎ ((more ≡ false) × (length all < size) × (left after.device ≡ []) × (after.error ≡ io_eof))

  Direct-extend :
      {size : ℕ} {got : List ℕ} {s s' : Stream S} {n : ℕ} (xs : List ℕ)
      {r r' : Option (List ℕ × Bool × Stream S)}
      → Took n s xs s'
      → s'.error ≡ s.error
      → r ≡ r'
      → Direct size (got ++ xs) s' r'
      → Direct size got s r
  Direct-extend {size} {got} {s} {s'} xs t quiet step d = record {
    all = d.all;
    more = d.more;
    after = d.after;
    returned = step ∙ d.returned;
    device = d.device;
    error = d.error;
    same = d.same ∙ ap (λ (v : Stream S). record v { device = d.device; error = d.error }) t.same;
    next = ap (λ zs. got ++ zs) t.next ∙ sym (append_assoc got xs (left s'.device)) ∙ d.next;
    within = d.within;
    outcome = elim d.outcome [
      | inl (more, room, kept) ↦
          inl (more, omega (arith, room, ap (λ (v : Stream S). v.buf_size) t.same), kept ∙ quiet)
      | inr over ↦ inr over
    ];
  }

  pub at_end :
      {n : ℕ} {s s' : Stream S}
      → 0 < n
      → Took n s [] s'
      → (left s'.device ≡ []) × (s'.error ≡ io_eof)
  at_end asked t = elim t.ended [
    | inl some_read ↦ absurd (omega (arith, some_read.0))
    | inr (inl nothing) ↦ absurd (omega arith)
    | inr (inr over) ↦ (over.1, over.2)
  ]

  pub quiet : {n x : ℕ} {xs : List ℕ} {s s' : Stream S} → Took n s (x ∷ xs) s' → s'.error ≡ s.error
  quiet t = elim t.ended [
    | inl some_read ↦ some_read.1
    | inr (inl nothing) ↦ absurd (omega (arith, t.within))
    | inr (inr over) ↦ absurd (omega (arith, over.0))
  ]

  pub direct-Direct :
      (fuel size : ℕ) (got : List ℕ) (s : Stream S)
      → 0 < s.buf_size
      → length got ≤ size
      → size < fuel + length got
      → Direct size got s (direct dev fuel size got s)
  direct-Direct zero size got s room l f = absurd (omega arith)
  direct-Direct (suc fuel) size got s room l f =
      elim (Bool-cases (ltb (length got + s.buf_size) size)) [
        | inr enough ↦ record {
          all = got;
          more = true;
          after = s;
          returned = direct_stop fuel size got s enough;
          device = s.device;
          error = s.error;
          same = refl;
          next = refl;
          within = l;
          outcome = inl (refl, ground arith, refl);
        }
        | inl short ↦
            let t = read_wrapper-Took s.buf_size s in
            let same_size : (read_wrapper dev s.buf_size s).1.buf_size ≡ s.buf_size =
              ap (λ (v : Stream S). v.buf_size) t.same in
            elim (List-cases (read_wrapper dev s.buf_size s).0) [
              | inl over ↦
                  let empty = rw over at t in
                  record {
                    all = got;
                    more = false;
                    after = (read_wrapper dev s.buf_size s).1;
                    returned = direct_end fuel size got s short over;
                    device = empty.device;
                    error = empty.error;
                    same = empty.same;
                    next = ap (λ zs. got ++ zs) empty.next;
                    within = l;
                    outcome =
                        let (over, flag) = at_end room empty in
                        inr (refl, ground (arith, room), over, flag);
                  }
              | inr (x, ys, some_read) ↦
                  Direct-extend (x ∷ ys) (rw some_read at t) (quiet (rw some_read at t))
                    (direct_more fuel size got s short x ys some_read)
                    (direct-Direct fuel size (got ++ (x ∷ ys)) (read_wrapper dev s.buf_size s).1
                      (omega (arith, room, same_size))
                      (ground (arith, length-append got (x ∷ ys), ap length some_read, t.within))
                      (omega (arith, length-append got (x ∷ ys))))
            ]
      ]
