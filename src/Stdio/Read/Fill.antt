-- ===== src/Stdio/Read/Fill.antt =====
-- The loop of `common_fread` into the stream's buffer.
use windows_libc.Common.{
  ℕ, zero, suc, ◌+◌, ◌-◌, ◌≤◌, ◌<◌, ◌≡◌, refl, sym, ap, ◌∙◌, ◌⊎◌, inl, inr, true, false, ◌&&◌,
  Option, some, List, [], ◌∷◌, ◌++◌, append_assoc, arith, ltb, Bool-cases, List-cases, length,
  length-append, &&_true, ltb→lt,
}
use windows_libc.Stdio.{Device, Stream, StreamError, io_eof, minus, minus_of_le}
use windows_libc.Stdio.Read.{read_wrapper, fill}
use windows_libc.Stdio.Read.Loops.{Reads, Took, read_wrapper-Took, at_end, quiet}

module _ {S : Type 0} (dev : Device S) (left : S → List ℕ) (law : Reads dev left) where
  module _ (fuel need : ℕ) (got : List ℕ) (s : Stream S) where
    fill_stop :
        (ltb (length got) s.buf_size && ltb (length got) need) ≡ false
        → fill dev (suc fuel) need got s ≡ some (got, s)
    unfolding fill
    fill_stop h = rw (h, fill) refl

    module _ (h : (ltb (length got) s.buf_size && ltb (length got) need) ≡ true) where
      fill_end :
          (read_wrapper dev (minus s.buf_size (length got)) s).0 ≡ []
          → fill dev (suc fuel) need got s
            ≡ some (got, (read_wrapper dev (minus s.buf_size (length got)) s).1)
      unfolding fill
      fill_end e = rw (h, e, fill) refl

      fill_more :
          (x : ℕ) (ys : List ℕ)
          → (read_wrapper dev (minus s.buf_size (length got)) s).0 ≡ x ∷ ys
          → fill dev (suc fuel) need got s
            ≡ fill dev fuel need
                (got ++ (x ∷ ys))
                (read_wrapper dev (minus s.buf_size (length got)) s).1
      unfolding fill
      fill_more x ys e = rw (h, e, fill) refl

  -- The loop into the stream's buffer has put bytes behind `got`, at most as many as the buffer holds, and
  -- ended with as many as are needed, with a full buffer or at the end of the file.
  pub record Fill (need : ℕ) (got : List ℕ) (s : Stream S) (r : Option (List ℕ × Stream S))
      : Type 0 where
    pub block : List ℕ
    pub after : Stream S
    pub returned : r ≡ some (block, after)
    pub device : S
    pub error : StreamError
    pub same : after ≡ record s { device = device; error = error }
    pub next : got ++ left s.device ≡ block ++ left after.device
    pub within : length block ≤ s.buf_size
    pub outcome :
        ((need ≤ length block) ⊎ (s.buf_size ≤ length block)) × (after.error ≡ s.error)
        ⊎ ((length block < need) × (left after.device ≡ []) × (after.error ≡ io_eof))

  Fill-extend :
      {need : ℕ} {got : List ℕ} {s s' : Stream S} {n : ℕ} (xs : List ℕ)
      {r r' : Option (List ℕ × Stream S)}
      → Took dev left law n s xs s'
      → s'.error ≡ s.error
      → r ≡ r'
      → Fill need (got ++ xs) s' r'
      → Fill need got s r
  Fill-extend {need} {got} {s} {s'} xs t quiet step d =
      let same_size : s'.buf_size ≡ s.buf_size = ap (λ (v : Stream S). v.buf_size) t.same in
      record {
        block = d.block;
        after = d.after;
        returned = step ∙ d.returned;
        device = d.device;
        error = d.error;
        same =
            d.same ∙ ap (λ (v : Stream S). record v { device = d.device; error = d.error }) t.same;
        next = ap (λ zs. got ++ zs) t.next ∙ sym (append_assoc got xs (left s'.device)) ∙ d.next;
        within = omega (arith, d.within, same_size);
        outcome = elim d.outcome [
          | inl (inl enough, kept) ↦ inl (inl enough, kept ∙ quiet)
          | inl (inr full, kept) ↦ inl (inr (omega (arith, full, same_size)), kept ∙ quiet)
          | inr over ↦ inr over
        ];
      }

  pub fill-Fill :
      (fuel need : ℕ) (got : List ℕ) (s : Stream S)
      → length got ≤ s.buf_size
      → s.buf_size < fuel + length got
      → Fill need got s (fill dev fuel need got s)
  fill-Fill zero need got s l f = absurd (omega arith)
  fill-Fill (suc fuel) need got s l f =
      elim (Bool-cases (ltb (length got) s.buf_size && ltb (length got) need)) [
        | inr enough ↦ record {
          block = got;
          after = s;
          returned = fill_stop fuel need got s enough;
          device = s.device;
          error = s.error;
          same = refl;
          next = refl;
          within = l;
          outcome = inl (stopped enough, refl);
        }
        | inl short ↦
            let asked = minus s.buf_size (length got) in
            let count : asked ≡ s.buf_size - length got = minus_of_le _ _ l in
            let t = read_wrapper-Took dev left law asked s in
            let same_size : (read_wrapper dev asked s).1.buf_size ≡ s.buf_size =
              ap (λ (v : Stream S). v.buf_size) t.same in
            let below : length got < s.buf_size = ltb→lt _ _ ((&&_true _ _ short).0) in
            elim (List-cases (read_wrapper dev asked s).0) [
              | inl over ↦
                  let empty = rw over at t in
                  record {
                    block = got;
                    after = (read_wrapper dev asked s).1;
                    returned = fill_end fuel need got s short over;
                    device = empty.device;
                    error = empty.error;
                    same = empty.same;
                    next = ap (λ zs. got ++ zs) empty.next;
                    within = l;
                    outcome =
                        let (over, flag) =
                          at_end dev left law (omega (arith, count, below)) empty in
                        inr (ltb→lt _ _ ((&&_true _ _ short).1), over, flag);
                  }
              | inr (x, ys, some_read) ↦
                  Fill-extend (x ∷ ys) (rw some_read at t) (quiet dev left law (rw some_read at t))
                    (fill_more fuel need got s short x ys some_read)
                    (fill-Fill fuel need (got ++ (x ∷ ys)) (read_wrapper dev asked s).1
                      (omega (
                        arith,
                        length-append got (x ∷ ys),
                        ap length some_read,
                        t.within,
                        count,
                        same_size,
                        below,
                      ))
                      (omega (arith, length-append got (x ∷ ys), same_size)))
            ]
      ]
    where
      stopped :
          (ltb (length got) s.buf_size && ltb (length got) need) ≡ false
          → (need ≤ length got) ⊎ (s.buf_size ≤ length got)
      stopped h = elim (Bool-cases (ltb (length got) need)) [
        | inl less ↦ inr (ground arith)
        | inr enough ↦ inl (ground arith)
      ]
