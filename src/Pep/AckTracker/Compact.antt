-- ===== src/Pep/AckTracker/Compact.antt =====
-- compactLocked of internal/pep/acktrack.go keeps the set, comes to an end and leaves ranges apart.
use niulang.Prelude.{
  ℕ, zero, suc, ◌+◌, ◌≤◌, ◌<◌, ◌≡◌, refl, ap, ◌∙◌, arith, Bool, true, false, ◌||◌, List, [], ◌∷◌,
  ltb, leb, length, Bool-cases, inl, inr,
}
use niulang.Protocol.AckRanges.{Range}
use niulang.Pep.AckTracker.{Tracker, compact_pass, compact_loop, compact}
use niulang.Pep.AckTracker.Sets.{in_ranges, acked, Apart, IsMerged}

-- One pass keeps the set.
pass-set :
    (c : ℕ) (rs : List Range) (x : ℕ)
    → let (c', kept, _) = compact_pass c rs in
      (ltb x c' || in_ranges x kept) ≡ (ltb x c || in_ranges x rs)
unfolding compact_pass
pass-set c [] x = refl
pass-set c ((a, b) ∷ rs) x = ground (arith, pass-set c rs x, pass-set b rs x)

loop-set :
    (fuel c : ℕ) (rs : List Range) (x : ℕ)
    → let (c', kept) = compact_loop fuel c rs in
      (ltb x c' || in_ranges x kept) ≡ (ltb x c || in_ranges x rs)
unfolding compact_loop
loop-set zero c rs x = refl
loop-set (suc fuel) c rs x =
    ground (arith, pass-set c rs x, loop-set fuel (compact_pass c rs).0 (compact_pass c rs).1 x)

-- compactLocked changes no byte's status.
pub acked-compact : (t : Tracker) (x : ℕ) → acked (compact t) x ≡ acked t x
unfolding compact
acked-compact t x =
    let p = compact_pass t.cumulative t.ranges in
    loop-set (length p.1 + 1) p.0 p.1 x ∙ pass-set t.cumulative t.ranges x

abbrev one_if : Bool → ℕ
one_if true = 1
one_if false = 0

-- A pass never adds ranges, and one that reports progress has removed one.
pass-length :
    (c : ℕ) (rs : List Range)
    → let (_, kept, progress) = compact_pass c rs in length kept + one_if progress ≤ length rs
unfolding compact_pass
pass-length c [] = omega arith
pass-length c ((a, b) ∷ rs) = ground (arith, pass-length c rs, pass-length b rs)

-- A pass without progress changes nothing.
pass-same :
    (c : ℕ) (rs : List Range) → (compact_pass c rs).2 ≡ false → compact_pass c rs ≡ (c, rs, false)
unfolding compact_pass
pass-same c [] e = refl
pass-same c ((a, b) ∷ rs) e = ground (arith, pass-same c rs)

-- With more rounds than ranges the loop ends because a pass makes no progress.
loop_settles :
    (fuel c : ℕ) (rs : List Range)
    → length rs < fuel
    → let (c', kept) = compact_loop fuel c rs in compact_pass c' kept ≡ (c', kept, false)
unfolding compact_loop
loop_settles zero c rs h = absurd (omega arith)
loop_settles (suc fuel) c rs h = elim (Bool-cases (compact_pass c rs).2) [
  | inl more ↦
      let p = compact_pass c rs in
      rw more (loop_settles fuel p.0 p.1 (ground (arith, pass-length c rs)))
  | inr done ↦
      let same = pass-same c rs done in rw done (rw (ap (λ t. t.0) same, ap (λ t. t.1) same) same)
]

-- On any ranges compactLocked goes on until another pass would change nothing.
pub compact_settles :
    (t : Tracker)
    → compact_pass (compact t).cumulative (compact t).ranges
      ≡ ((compact t).cumulative, (compact t).ranges, false)
unfolding compact
compact_settles t =
    let p = compact_pass t.cumulative t.ranges in
    loop_settles (length p.1 + 1) p.0 p.1 (omega arith)

-- Non-empty ranges that neither overlap nor touch.
abbrev pub Chain : List Range → Type 0
Chain [] = Unit {0}
Chain ((a, b) ∷ rs) = (a < b) × Apart b rs

pub Apart-le : (c d : ℕ) (rs : List Range) → c ≤ d → Apart d rs → Apart c rs
Apart-le c d [] h a = tt
Apart-le c d ((a, b) ∷ rs) h p = (omega arith, p.1, p.2)

pub Chain-Apart : (c : ℕ) (rs : List Range) → Apart c rs → Chain rs
Chain-Apart c [] h = tt
Chain-Apart c ((a, b) ∷ rs) h = (h.1, h.2)

pass-Apart : (c : ℕ) (rs : List Range) → Apart c rs → compact_pass c rs ≡ (c, rs, false)
unfolding compact_pass
pass-Apart c [] h = refl
pass-Apart c ((a, b) ∷ rs) h = ground (arith, pass-Apart c rs (Apart-le c b rs (omega arith) h.2))

pass-Chain :
    (c : ℕ) (rs : List Range) → Chain rs → let (c', kept, _) = compact_pass c rs in Apart c' kept
unfolding compact_pass
pass-Chain c [] h = tt
pass-Chain c ((a, b) ∷ rs) h = elim (Bool-cases (leb b c)) [
  | inl old ↦ rw old (pass-Chain c rs (Chain-Apart b rs h.1))
  | inr new ↦ elim (Bool-cases (leb a c)) [
    | inl joined ↦ rw (new, joined, pass-Apart b rs h.1) h.1
    | inr beyond ↦
        rw (new, beyond, pass-Apart c rs (Apart-le c b rs (ground arith) h.1))
          (ground arith, h.0, h.1)
  ]
]

loop-Apart : (fuel c : ℕ) (rs : List Range) → Apart c rs → compact_loop fuel c rs ≡ (c, rs)
unfolding compact_loop
loop-Apart zero c rs h = refl
loop-Apart (suc fuel) c rs h = rw (pass-Apart c rs h)

-- On ranges in order compactLocked leaves a merged tracker.
pub compact-IsMerged : (t : Tracker) → Chain t.ranges → IsMerged (compact t)
unfolding compact
compact-IsMerged t h =
    let p = compact_pass t.cumulative t.ranges in
    rw (loop-Apart (length p.1 + 1) p.0 p.1 (pass-Chain t.cumulative t.ranges h))
      (pass-Chain t.cumulative t.ranges h)
