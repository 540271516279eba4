-- ===== src/Pep/AckTracker/Updates.antt =====
-- Advance, Add and Touch of internal/pep/acktrack.go: what each acknowledges, and who hears of it.
use niulang.Prelude.{
  ℕ, ◌≡◌, ◌∙◌, arith, ◌||◌, List, [], ◌∷◌, ◌++◌, ltb, leb, All, All-append, Bool-cases, inl, inr,
}
use niulang.Protocol.AckRanges.{Range}
use niulang.Pep.AckTracker.{Tracker, merge, advance, fresh, add}
use niulang.Pep.AckTracker.Sets.{in_ranges, acked, Apart, IsMerged}
use niulang.Pep.AckTracker.Compact.{acked-compact, compact-IsMerged, Chain-Apart}
use niulang.Pep.AckTracker.Merge.{
  IsNonempty, acked-merge, merge-Chain, fresh-IsNonempty, fresh-set, in_ranges-append,
}

-- Advance acknowledges the bytes below its sequence, and no other.
pub acked-advance :
    (t : Tracker) (sequence x : ℕ) → acked (advance t sequence) x ≡ (acked t x || ltb x sequence)
unfolding advance
acked-advance t sequence x = elim (Bool-cases (leb sequence t.cumulative)) [
  | inl old ↦ rw old (ground arith)
  | inr new ↦ rw new (acked-compact (record t { cumulative = sequence }) x ∙ ground arith)
]

Apart-IsNonempty : (c : ℕ) (rs : List Range) → Apart c rs → All IsNonempty rs
Apart-IsNonempty c [] h = tt
Apart-IsNonempty c ((a, b) ∷ rs) h = (h.1, Apart-IsNonempty b rs h.2)

-- The tracker to which Add has appended.
abbrev appended : Tracker → List Range → Tracker
appended t rs = record t { ranges = t.ranges ++ fresh t.cumulative rs }

appended-IsNonempty :
    (t : Tracker) (rs : List Range) → IsMerged t → All IsNonempty (appended t rs).ranges
appended-IsNonempty t rs m =
    All-append IsNonempty t.ranges (fresh t.cumulative rs)
      (Apart-IsNonempty t.cumulative t.ranges m) (fresh-IsNonempty t.cumulative rs)

-- Add acknowledges the bytes of its ranges, and no other.
pub acked-add :
    (t : Tracker) (rs : List Range) (x : ℕ)
    → IsMerged t
    → acked (add t rs) x ≡ (acked t x || in_ranges x rs)
unfolding add
acked-add t [] x m = ground arith
acked-add t (r ∷ rs) x m =
    acked-compact (merge (appended t (r ∷ rs))) x
    ∙ acked-merge (appended t (r ∷ rs)) x (appended-IsNonempty t (r ∷ rs) m)
    ∙ ground (
      arith,
      in_ranges-append x t.ranges (fresh t.cumulative (r ∷ rs)),
      fresh-set t.cumulative (r ∷ rs) x,
    )

pub advance-IsMerged : (t : Tracker) (sequence : ℕ) → IsMerged t → IsMerged (advance t sequence)
unfolding advance
advance-IsMerged t sequence m = elim (Bool-cases (leb sequence t.cumulative)) [
  | inl old ↦ rw old m
  | inr new ↦
      rw new (
        compact-IsMerged (record t { cumulative = sequence }) (Chain-Apart t.cumulative t.ranges m))
]

pub add-IsMerged : (t : Tracker) (rs : List Range) → IsMerged t → IsMerged (add t rs)
unfolding add
add-IsMerged t [] m = m
add-IsMerged t (r ∷ rs) m =
    compact-IsMerged (merge (appended t (r ∷ rs)))
      (merge-Chain (appended t (r ∷ rs)) (appended-IsNonempty t (r ∷ rs) m))
