-- ===== src/FdTable/View.antt =====
-- The table as a map from descriptors to the entries that are open.
use windows_libc.Common.{
  ℕ, zero, suc, ◌+◌, ◌≤◌, ◌<◌, ◌≡◌, refl, ap, ◌∙◌, ◌≢◌, inl, inr, false, Option, none, some, List,
  [], ◌∷◌, ◌++◌, arith, ◌==◌, if◌then◌else◌, Bool-cases, length, get_elem?, set, get_elem?-set_self,
  get_elem?-set_ne,
}
use native.Mathlib.Decide.{ℕ_discrete}
use windows_libc.FdTable.{
  FdInfo, FdState, find_free, find_handle, blank, blanks, modify, valid_entry, invalid_handle_value,
}

-- The open entry at an index.
abbrev pub open_at : List FdInfo → ℕ → Option FdInfo
open_at t i = valid_entry (get_elem? t i)

unfoldable pub view : FdState → ℕ → Option FdInfo
view s fd = open_at s.table fd

-- A map with a new value at one descriptor.
abbrev pub update : (ℕ → Option FdInfo) → ℕ → Option FdInfo → ℕ → Option FdInfo
update m i v j = if i == j then v else m j

get_elem?-set :
    (t : List FdInfo) (i : ℕ) (e : FdInfo) (j : ℕ)
    → i < length t
    → get_elem? (set t i e) j ≡ (if i == j then some e else get_elem? t j)
get_elem?-set t i e j h = elim (Bool-cases (i == j)) [
  | inl same ↦ let q : i ≡ j = ground arith in rw (same, ← q) (get_elem?-set_self t i e h)
  | inr other ↦ rw other (get_elem?-set_ne t e (ground arith))
]

pub open_at-set :
    (t : List FdInfo) (i : ℕ) (e : FdInfo) (j : ℕ)
    → i < length t
    → open_at (set t i e) j ≡ update (open_at t) i (valid_entry (some e)) j
open_at-set t i e j h = ground (arith, get_elem?-set t i e j h)

get_elem?-blanks :
    (memory : ℕ → FdInfo) (from n i : ℕ) → valid_entry (get_elem? (blanks memory from n) i) ≡ none
unfolding blanks blank
get_elem?-blanks memory from zero i = refl
get_elem?-blanks memory from (suc n) zero = refl
get_elem?-blanks memory from (suc n) (suc i) = get_elem?-blanks memory (from + 1) n i

-- New blank entries open nothing.
pub open_at-blanks :
    (t : List FdInfo) (memory : ℕ → FdInfo) (from n i : ℕ)
    → open_at (t ++ blanks memory from n) i ≡ open_at t i
open_at-blanks [] memory from n i = get_elem?-blanks memory from n i
open_at-blanks (e ∷ t) memory from n zero = refl
open_at-blanks (e ∷ t) memory from n (suc i) = open_at-blanks t memory from n i

pub length-blanks : (memory : ℕ → FdInfo) (from n : ℕ) → length (blanks memory from n) ≡ n
unfolding blanks
length-blanks memory from zero = refl
length-blanks memory from (suc n) = ap suc (length-blanks memory (from + 1) n)

pub open_at-beyond : (t : List FdInfo) (i : ℕ) → length t ≤ i → open_at t i ≡ none
open_at-beyond [] i h = refl
open_at-beyond (e ∷ t) zero h = absurd (omega arith)
open_at-beyond (e ∷ t) (suc i) h = open_at-beyond t i (omega arith)

pub length-modify :
    (t : List FdInfo) (i : ℕ) (f : FdInfo → FdInfo) → length (modify t i f) ≡ length t
unfolding modify
length-modify [] i f = refl
length-modify (e ∷ t) zero f = refl
length-modify (e ∷ t) (suc i) f = ap suc (length-modify t i f)

abbrev pub mapped : (FdInfo → FdInfo) → Option FdInfo → Option FdInfo
mapped f none = none
mapped f (some e) = some (f e)

pub get_elem?-modify :
    (t : List FdInfo) (i : ℕ) (f : FdInfo → FdInfo) (j : ℕ)
    → get_elem? (modify t i f) j ≡ (if i == j then mapped f (get_elem? t j) else get_elem? t j)
unfolding modify
get_elem?-modify [] i f j = ground arith
get_elem?-modify (e ∷ t) zero f zero = refl
get_elem?-modify (e ∷ t) zero f (suc j) = ground arith
get_elem?-modify (e ∷ t) (suc i) f zero = ground arith
get_elem?-modify (e ∷ t) (suc i) f (suc j) = get_elem?-modify t i f j ∙ ground arith

-- The first entry that is free.
pub record IsFirstFree (t : List FdInfo) (m : ℕ) : Type 0 where
  pub inside : m < length t
  pub free : open_at t m ≡ none
  pub lower : (j : ℕ) → j < m → open_at t j ≢ none

IsFirstFree-cons :
    (e : FdInfo) {t : List FdInfo} {m : ℕ}
    → (e.handle == 0) ≡ false
    → IsFirstFree t m
    → IsFirstFree (e ∷ t) (suc m)
IsFirstFree-cons e {t} {m} taken f = record {
  inside = omega (arith, f.inside);
  free = f.free;
  lower = below;
}
  where
    below : (j : ℕ) → j < suc m → open_at (e ∷ t) j ≢ none
    below zero h = ground arith
    below (suc j) h = f.lower j (omega arith)

-- What the search for a free entry finds, counted from `i`.
pub find_free-some :
    (t : List FdInfo) (i : ℕ) {k : ℕ}
    → find_free t i ≡ some k
    → (m : ℕ) × (k ≡ i + m) × IsFirstFree t m
find_free-some [] i h = absurd (unfold find_free in cc)
find_free-some (e ∷ t) i {k} h = elim (Bool-cases (e.handle == 0)) [
  | inl free ↦ (
    0,
    unfold find_free in ground arith,
    record { inside = omega arith; free = rw free; lower = λ j l. absurd (omega arith) },
  )
  | inr taken ↦
      let (m, at, first) = find_free-some t (i + 1) {k = k} (unfold find_free in ground arith) in
      (suc m, omega arith, IsFirstFree-cons e taken first)
]

-- Where it finds none, every entry is open.
pub find_free-none :
    (t : List FdInfo) (i : ℕ) → find_free t i ≡ none → (j : ℕ) → j < length t → open_at t j ≢ none
find_free-none [] i h j l = absurd (omega arith)
find_free-none (e ∷ t) i h zero l = unfold find_free in ground arith
find_free-none (e ∷ t) i h (suc j) l =
    find_free-none t (i + 1) (unfold find_free in ground arith) j (omega arith)

-- The first entry with a handle.
pub record IsFirstHandle (h : ℕ) (t : List FdInfo) (m : ℕ) : Type 0 where
  pub entry : FdInfo
  pub there : get_elem? t m ≡ some entry
  pub same : entry.handle ≡ h
  pub lower : (j : ℕ) (e : FdInfo) → j < m → get_elem? t j ≡ some e → e.handle ≢ h

IsFirstHandle-cons :
    {h : ℕ} (e : FdInfo) {t : List FdInfo} {m : ℕ}
    → e.handle ≢ h
    → IsFirstHandle h t m
    → IsFirstHandle h (e ∷ t) (suc m)
IsFirstHandle-cons {h} e {t} {m} other f = record {
  entry = f.entry;
  there = f.there;
  same = f.same;
  lower = below;
}
  where
    below : (j : ℕ) (d : FdInfo) → j < suc m → get_elem? (e ∷ t) j ≡ some d → d.handle ≢ h
    below zero d l q = ground arith
    below (suc j) d l q = f.lower j d (omega arith) q

pub find_handle-some :
    (h : ℕ) (t : List FdInfo) (i : ℕ) {k : ℕ}
    → find_handle h t i ≡ some k
    → h ≢ invalid_handle_value
    → (m : ℕ) × (k ≡ i + m) × IsFirstHandle h t m
find_handle-some h [] i q v = absurd (unfold find_handle in cc)
find_handle-some h (e ∷ t) i {k} q v = elim (ℕ_discrete e.handle h) [
  | yes same ↦ (
    0,
    unfold find_handle in ground arith,
    record { entry = e; there = refl; same = same; lower = λ j d l r. absurd (omega arith) },
  )
  | no other ↦
      let (m, at, first) =
        find_handle-some h t (i + 1) {k = k} (unfold find_handle in ground arith) v in
      (suc m, omega arith, IsFirstHandle-cons e other first)
]

pub find_handle-none :
    (h : ℕ) (t : List FdInfo) (i : ℕ)
    → find_handle h t i ≡ none
    → h ≢ invalid_handle_value
    → (j : ℕ) (e : FdInfo) → get_elem? t j ≡ some e
    → e.handle ≢ h
find_handle-none h [] i q v j e r = absurd (cc)
find_handle-none h (d ∷ t) i q v zero e r = unfold find_handle in ground arith
find_handle-none h (d ∷ t) i q v (suc j) e r =
    find_handle-none h t (i + 1) (unfold find_handle in ground arith) v j e r
