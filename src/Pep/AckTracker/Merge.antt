-- ===== src/Pep/AckTracker/Merge.antt =====
-- mergeLocked of internal/pep/acktrack.go keeps the set and puts the ranges apart.
use niulang.Prelude.{
  ℕ, ◌≤◌, ◌<◌, ◌≡◌, refl, ◌∙◌, arith, ◌||◌, List, [], ◌∷◌, ◌++◌, ltb, leb, length, if◌then◌else◌,
  All, Bool-cases, inl, inr,
}
use niulang.Protocol.AckRanges.{Range}
use niulang.Pep.AckTracker.{
  Tracker, range_less, insert_sorted, sort_ranges, coalesce, merge_sorted, merge, fresh,
}
use niulang.Pep.AckTracker.Sets.{in_ranges, acked, Apart}
use niulang.Pep.AckTracker.Compact.{Chain}

abbrev pub IsNonempty : Range → Type 0
IsNonempty r = r.0 < r.1

-- Non-empty ranges by their starts, the first from `bound` on.
abbrev Ordered : ℕ → List Range → Type 0
Ordered bound [] = Unit {0}
Ordered bound ((a, b) ∷ rs) = (bound ≤ a) × (a < b) × Ordered a rs

insert_sorted-set :
    (r : Range) (rs : List Range) (x : ℕ) → in_ranges x (insert_sorted r rs) ≡ in_ranges x (r ∷ rs)
unfolding insert_sorted
insert_sorted-set r [] x = refl
insert_sorted-set (a, b) ((c, d) ∷ rs) x = ground (arith, insert_sorted-set (a, b) rs x)

sort_ranges-set : (rs : List Range) (x : ℕ) → in_ranges x (sort_ranges rs) ≡ in_ranges x rs
unfolding sort_ranges
sort_ranges-set [] x = refl
sort_ranges-set ((a, b) ∷ rs) x =
    insert_sorted-set (a, b) (sort_ranges rs) x ∙ ground (arith, sort_ranges-set rs x)

insert_sorted-Ordered :
    (bound a b : ℕ) (rs : List Range)
    → bound ≤ a
    → a < b
    → Ordered bound rs
    → Ordered bound (insert_sorted (a, b) rs)
unfolding insert_sorted
insert_sorted-Ordered bound a b [] h k o = (h, k, tt)
insert_sorted-Ordered bound a b ((c, d) ∷ rs) h k o = elim (Bool-cases (range_less (c, d) (a, b))) [
  | inl before ↦ rw before (o.0, o.1, insert_sorted-Ordered c a b rs (ground arith) k o.2)
  | inr behind ↦ rw behind (h, k, (ground arith, o.1, o.2))
]

sort_ranges-Ordered : (rs : List Range) → All IsNonempty rs → Ordered 0 (sort_ranges rs)
unfolding sort_ranges
sort_ranges-Ordered [] h = tt
sort_ranges-Ordered ((a, b) ∷ rs) h =
    insert_sorted-Ordered 0 a b (sort_ranges rs) (omega arith) h.0 (sort_ranges-Ordered rs h.1)

Ordered-le : (c d : ℕ) (rs : List Range) → c ≤ d → Ordered d rs → Ordered c rs
Ordered-le c d [] h o = tt
Ordered-le c d ((a, b) ∷ rs) h o = (omega arith, o.1, o.2)

-- Ranges apart, the first from `bound` on.
abbrev ChainAt : ℕ → List Range → Type 0
ChainAt bound [] = Unit {0}
ChainAt bound ((a, b) ∷ rs) = (bound ≤ a) × (a < b) × Apart b rs

Apart-ChainAt : (c bound : ℕ) (rs : List Range) → c < bound → ChainAt bound rs → Apart c rs
Apart-ChainAt c bound [] h k = tt
Apart-ChainAt c bound ((a, b) ∷ rs) h k = (omega arith, k.1, k.2)

Chain-ChainAt : (bound : ℕ) (rs : List Range) → ChainAt bound rs → Chain rs
Chain-ChainAt bound [] k = tt
Chain-ChainAt bound ((a, b) ∷ rs) k = (k.1, k.2)

coalesce-set :
    (a b : ℕ) (rs : List Range) (x : ℕ)
    → a < b
    → Ordered a rs
    → in_ranges x (coalesce (a, b) rs) ≡ in_ranges x ((a, b) ∷ rs)
unfolding coalesce
coalesce-set a b [] x h o = refl
coalesce-set a b ((s, e) ∷ rs) x h o =
    let hi : ℕ = if ltb b e then e else b in
    let wide : a < hi = ground arith in
    elim (Bool-cases (leb s b)) [
      | inl joined ↦
          rw joined (coalesce-set a hi rs x wide (Ordered-le a s rs o.0 o.2) ∙ ground arith)
      | inr beyond ↦ rw beyond (ground (arith, coalesce-set s e rs x o.1 o.2))
    ]

coalesce-ChainAt :
    (a b : ℕ) (rs : List Range) → a < b → Ordered a rs → ChainAt a (coalesce (a, b) rs)
unfolding coalesce
coalesce-ChainAt a b [] h o = (omega arith, h, tt)
coalesce-ChainAt a b ((s, e) ∷ rs) h o =
    let hi : ℕ = if ltb b e then e else b in
    let wide : a < hi = ground arith in
    elim (Bool-cases (leb s b)) [
      | inl joined ↦ rw joined (coalesce-ChainAt a hi rs wide (Ordered-le a s rs o.0 o.2))
      | inr beyond ↦ rw beyond (
        omega arith,
        h,
        Apart-ChainAt b s (coalesce (s, e) rs) (ground arith) (coalesce-ChainAt s e rs o.1 o.2),
      )
    ]

merge_sorted-set :
    (rs : List Range) (x : ℕ) → Ordered 0 rs → in_ranges x (merge_sorted rs) ≡ in_ranges x rs
unfolding merge_sorted
merge_sorted-set [] x o = refl
merge_sorted-set ((a, b) ∷ rs) x o = coalesce-set a b rs x o.1 o.2

merge_sorted-Chain : (rs : List Range) → Ordered 0 rs → Chain (merge_sorted rs)
unfolding merge_sorted
merge_sorted-Chain [] o = tt
merge_sorted-Chain ((a, b) ∷ rs) o =
    Chain-ChainAt a (coalesce (a, b) rs) (coalesce-ChainAt a b rs o.1 o.2)

short-Chain : (rs : List Range) → length rs < 2 → All IsNonempty rs → Chain rs
short-Chain [] h k = tt
short-Chain ((a, b) ∷ []) h k = (k.0, tt)
short-Chain (r ∷ s ∷ rs) h k = absurd (omega arith)

-- mergeLocked changes no byte's status, on non-empty ranges in any order.
pub acked-merge : (t : Tracker) (x : ℕ) → All IsNonempty t.ranges → acked (merge t) x ≡ acked t x
unfolding merge
acked-merge t x h = elim (Bool-cases (ltb (length t.ranges) 2)) [
  | inl few ↦ rw few
  | inr many ↦ rw (
    many,
    merge_sorted-set (sort_ranges t.ranges) x (sort_ranges-Ordered t.ranges h),
    sort_ranges-set t.ranges x,
  )
]

pub merge-Chain : (t : Tracker) → All IsNonempty t.ranges → Chain (merge t).ranges
unfolding merge
merge-Chain t h = elim (Bool-cases (ltb (length t.ranges) 2)) [
  | inl few ↦ rw few (short-Chain t.ranges (ground arith) h)
  | inr many ↦ rw many (merge_sorted-Chain (sort_ranges t.ranges) (sort_ranges-Ordered t.ranges h))
]

-- What Add appends is not empty, and with the bytes below the cumulative point it covers what the
-- peer reported.
pub fresh-IsNonempty : (c : ℕ) (rs : List Range) → All IsNonempty (fresh c rs)
unfolding fresh
fresh-IsNonempty c [] = tt
fresh-IsNonempty c ((a, b) ∷ rs) = elim (Bool-cases (leb b a || leb b c)) [
  | inl dropped ↦ rw dropped (fresh-IsNonempty c rs)
  | inr kept ↦ rw kept (ground arith, fresh-IsNonempty c rs)
]

pub fresh-set :
    (c : ℕ) (rs : List Range) (x : ℕ)
    → (ltb x c || in_ranges x (fresh c rs)) ≡ (ltb x c || in_ranges x rs)
unfolding fresh
fresh-set c [] x = refl
fresh-set c ((a, b) ∷ rs) x = ground (arith, fresh-set c rs x)

pub in_ranges-append :
    (x : ℕ) (rs ss : List Range) → in_ranges x (rs ++ ss) ≡ (in_ranges x rs || in_ranges x ss)
in_ranges-append x [] ss = refl
in_ranges-append x ((a, b) ∷ rs) ss = ground (arith, in_ranges-append x rs ss)
