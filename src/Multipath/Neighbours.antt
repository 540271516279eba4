-- ===== src/Multipath/Neighbours.antt =====
-- checkNeighbours of internal/multipath/reassembly.go: looking at the two neighbours is enough.
use niulang.Prelude.{
  ℕ, zero, suc, ◌-◌, ◌≤◌, ◌<◌, ◌≡◌, ap, ◌∙◌, arith, false, none, List, [], ◌∷◌, ltb, ◌==◌, length,
  get_or, Bool-cases, inl, inr, ok,
}
use mathlib.Core.Path.{subst}
use native.Mathlib.Decide.{ℕ_discrete}
use niulang.Multipath.{Segment, find, at_key, put, search, end_of, check_neighbours}
use niulang.Multipath.Buffer.{after, after-lt, IsShaped, Spread, keys}

pub at_key-skip :
    (t : Segment) (ts : List Segment) (k : ℕ) → t.sequence < k → at_key (t ∷ ts) k ≡ at_key ts k
unfolding at_key find
at_key-skip t ts k h = ground arith

pub at_key-head : (t : Segment) (ts : List Segment) → at_key (t ∷ ts) t.sequence ≡ t
unfolding at_key find
at_key-head t ts = ground arith

search-le : (os : List ℕ) (k : ℕ) → search os k ≤ length os
unfolding search
search-le [] k = omega arith
search-le (o ∷ os) k = ground (arith, search-le os k)

Spread-keys :
    (lo : ℕ) (b : List Segment) (i : ℕ)
    → Spread lo b
    → i < length (keys b)
    → lo ≤ get_or (keys b) i 0
Spread-keys lo [] i s h = absurd (omega arith)
Spread-keys lo (t ∷ ts) zero s h = s.0
Spread-keys lo (t ∷ ts) (suc i) s h =
    omega (arith, Spread-keys (after t) ts i s.2 (omega arith), after-lt t s.1, s.0)

get_or-cons : (o : ℕ) (os : List ℕ) (i : ℕ) → 0 < i → get_or (o ∷ os) i 0 ≡ get_or os (i - 1) 0
get_or-cons o os zero h = absurd (omega arith)
get_or-cons o os (suc i) h = ap (λ k. get_or os k 0) (omega arith)

-- What a passed check says of the neighbours: the one before ends in time, and so does the segment.
pub record Clear (b : List Segment) (order : List ℕ) (s : Segment) : Type 0 where
  pub before :
      0 < search order s.sequence
      → end_of (at_key b (get_or order (search order s.sequence - 1) 0)) ≤ s.sequence
  pub behind :
      search order s.sequence < length order
      → end_of s ≤ (at_key b (get_or order (search order s.sequence) 0)).sequence

pub check_neighbours-Clear :
    (b : List Segment) (order : List ℕ) (s : Segment)
    → check_neighbours b order s ≡ ok tt
    → Clear b order s
unfolding check_neighbours
check_neighbours-Clear b order s e = record {
  before = λ h. ground arith;
  behind = λ h. ground arith;
}

after-end_of :
    (t s : Segment) → end_of t ≤ s.sequence → t.sequence < s.sequence → after t ≤ s.sequence
unfolding end_of
after-end_of t s h k = ground arith

search-Spread : (lo : ℕ) (b : List Segment) (k : ℕ) → Spread lo b → 0 < search (keys b) k → lo ≤ k
unfolding search
search-Spread lo [] k s h = absurd (omega arith)
search-Spread lo (u ∷ us) k s h = ground arith

find-rest :
    (t : Segment) (ts : List Segment) (k : ℕ)
    → t.sequence < k
    → find k (t ∷ ts) ≡ none
    → find k ts ≡ none
unfolding find
find-rest t ts k h e = ground arith

find-ne :
    (t : Segment) (ts : List Segment) (k : ℕ) → find k (t ∷ ts) ≡ none → (t.sequence == k) ≡ false
unfolding find
find-ne t ts k e = ground arith

-- A segment before the first of the buffer ends before it.
head-Clear :
    (t : Segment) (ts : List Segment) (s : Segment)
    → s.sequence < t.sequence
    → Clear (t ∷ ts) (keys (t ∷ ts)) s
    → after s ≤ t.sequence
unfolding search
head-Clear t ts s h clear =
    let first : search (keys (t ∷ ts)) s.sequence ≡ 0 = ground arith in
    let c : end_of s ≤ t.sequence =
      subst (λ u. end_of s ≤ u.sequence)
        (ap (λ k. at_key (t ∷ ts) (get_or (keys (t ∷ ts)) k 0)) first ∙ at_key-head t ts)
        (clear.behind (rw first (omega arith))) in
    after-end_of s t c h

-- A segment behind the first of the buffer: without that first one the neighbours are as clear.
module _ (lo : ℕ) (t : Segment) (ts : List Segment) (s : Segment) (spread : Spread lo (t ∷ ts))
    (later : t.sequence < s.sequence) (clear : Clear (t ∷ ts) (keys (t ∷ ts)) s) where
  at' : ℕ
  at' = search (keys ts) s.sequence

  search-suc : search (keys (t ∷ ts)) s.sequence ≡ suc at'
  unfolding search at'
  search-suc = ground arith

  -- The key at a place of the rest is looked up in the rest.
  same_key :
      (i : ℕ)
      → i < length (keys ts)
      → at_key (t ∷ ts) (get_or (keys ts) i 0) ≡ at_key ts (get_or (keys ts) i 0)
  same_key i h =
      at_key-skip t ts _ (omega (arith, after-lt t spread.1, Spread-keys (after t) ts i spread.2 h))

  Clear-rest : Clear ts (keys ts) s
  unfolding at'
  Clear-rest = record {
    before = λ h.
        let e : get_or (keys (t ∷ ts)) (search (keys (t ∷ ts)) s.sequence - 1) 0
            ≡ get_or (keys ts) (at' - 1) 0 =
          ap (λ k. get_or (keys (t ∷ ts)) (k - 1) 0) search-suc
          ∙ ap (λ k. get_or (keys (t ∷ ts)) k 0) (omega arith)
          ∙ get_or-cons t.sequence (keys ts) at' h in
        let c = clear.before (rw search-suc (omega arith)) in
        subst (λ u. end_of u ≤ s.sequence)
          (ap (at_key (t ∷ ts)) e
            ∙ same_key (at' - 1) (omega (arith, search-le (keys ts) s.sequence)))
          c;
    behind = λ h.
        let c = clear.behind (rw search-suc (omega arith)) in
        subst (λ u. end_of s ≤ u.sequence)
          (ap (λ k. at_key (t ∷ ts) (get_or (keys (t ∷ ts)) k 0)) search-suc ∙ same_key at' h) c;
  }

  -- The first one ends before the segment begins.
  first-Clear : after t ≤ s.sequence
  unfolding at'
  first-Clear = elim (ℕ_discrete at' 0) [
    | yes none_before ↦
        let e : at_key (t ∷ ts) (get_or (keys (t ∷ ts)) (search (keys (t ∷ ts)) s.sequence - 1) 0)
            ≡ t =
          ap (λ k. at_key (t ∷ ts) (get_or (keys (t ∷ ts)) (k - 1) 0))
            (search-suc ∙ ap suc none_before)
          ∙ at_key-head t ts in
        let c : end_of t ≤ s.sequence =
          subst (λ u. end_of u ≤ s.sequence) e (clear.before (rw search-suc (omega arith))) in
        after-end_of t s c later
    | no some_before ↦ omega (arith, search-Spread (after t) ts s.sequence spread.2 (omega arith))
  ]

-- A segment that passed the check leaves the buffer spread.
pub put-Spread :
    (lo : ℕ) (b : List Segment) (s : Segment)
    → Spread lo b
    → lo ≤ s.sequence
    → IsShaped s
    → find s.sequence b ≡ none
    → Clear b (keys b) s
    → Spread lo (put s b)
unfolding put
put-Spread lo [] s spread l shaped absent clear = (l, shaped, tt)
put-Spread lo (t ∷ ts) s spread l shaped absent clear =
    elim (Bool-cases (ltb t.sequence s.sequence)) [
      | inl before ↦
          let later : t.sequence < s.sequence = ground arith in
          rw before (
            spread.0,
            spread.1,
            put-Spread (after t) ts s spread.2 (first-Clear lo t ts s spread later clear) shaped
                (find-rest t ts s.sequence later absent) (Clear-rest lo t ts s spread later clear),
          )
      | inr behind ↦
          let apart : (t.sequence == s.sequence) ≡ false = find-ne t ts s.sequence absent in
          rw (behind, apart)
            (l, shaped, (head-Clear t ts s (ground arith) clear, spread.1, spread.2))
    ]
