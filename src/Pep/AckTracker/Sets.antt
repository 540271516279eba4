-- ===== src/Pep/AckTracker/Sets.antt =====
-- The acknowledged bytes of internal/pep/acktrack.go as a set, and the shape of its ranges.
use niulang.Prelude.{ℕ, ◌<◌, Bool, false, ◌&&◌, ◌||◌, List, [], ◌∷◌, ltb, leb}
use niulang.Protocol.AckRanges.{Range}
use niulang.Pep.AckTracker.{Tracker, Snapshot}

-- Whether a byte lies in one of the ranges, or has been acknowledged.
abbrev pub in_ranges : ℕ → List Range → Bool
in_ranges x [] = false
in_ranges x ((a, b) ∷ rs) = leb a x && ltb x b || in_ranges x rs

abbrev pub acked : Tracker → ℕ → Bool
acked t x = ltb x t.cumulative || in_ranges x t.ranges

abbrev pub snapshot_acked : Snapshot → ℕ → Bool
snapshot_acked s x = ltb x s.cumulative || in_ranges x s.ranges

-- Non-empty ranges that neither overlap nor touch, in order, the first of them past `bound`.
abbrev pub Apart : ℕ → List Range → Type 0
Apart bound [] = Unit {0}
Apart bound ((a, b) ∷ rs) = (bound < a) × (a < b) × Apart b rs

-- What every method leaves behind.
abbrev pub IsMerged : Tracker → Type 0
IsMerged t = Apart t.cumulative t.ranges
