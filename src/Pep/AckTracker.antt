-- ===== src/Pep/AckTracker.antt =====
-- internal/pep/acktrack.go: which byte ranges of an outbound stream the peer has acknowledged.
-- Each method runs under the tracker's lock, so it is a function from a tracker to the next one;
-- cond.Broadcast wakes sleepers and changes no field.
pub mod Sets
pub mod Compact
pub mod Merge
pub mod Covered
pub mod Updates
pub mod History
mod Examples
use niulang.Prelude.{
  ℕ, zero, suc, ◌+◌, ◌%◌, ◌^◌, ◌≤◌, ◌<◌, Bool, true, false, not, ◌&&◌, ◌||◌, Option, none, some,
  List, [], ◌∷◌, ◌++◌, ltb, leb, ◌==◌, if◌then◌else◌, length,
}
use niulang.Protocol.AckRanges.{Range}

pub record Tracker : Type 0 where
  pub cumulative : ℕ
  pub ranges : List Range
  pub closed : Bool
  pub gen : ℕ

pub new_ack_tracker : Tracker
new_ack_tracker = record { cumulative = 0; ranges = []; closed = false; gen = 0 }

-- One pass of compactLocked over the ranges: the cumulative point and the ranges that it leaves,
-- and whether it removed any.
pub compact_pass : ℕ → List Range → ℕ × List Range × Bool
compact_pass cumulative [] = (cumulative, [], false)
compact_pass cumulative ((start, end) ∷ rs) =
    let dropped = compact_pass cumulative rs in
    let folded = compact_pass end rs in
    if leb end cumulative
    then (dropped.0, dropped.1, true)
    else if leb start cumulative
    then (folded.0, folded.1, true)
    else (dropped.0, (start, end) ∷ dropped.1, dropped.2)

-- `for progress := true; progress; { … }`, at most `fuel` times.
pub compact_loop : ℕ → ℕ → List Range → ℕ × List Range
compact_loop zero cumulative ranges = (cumulative, ranges)
compact_loop (suc fuel) cumulative ranges =
    let (cumulative', kept, progress) = compact_pass cumulative ranges in
    let again = compact_loop fuel cumulative' kept in
    if progress then again else (cumulative', kept)

-- Every pass but the last removes a range, so there are no more passes than ranges and one.
pub compact : Tracker → Tracker
compact t =
    let (cumulative', kept, _) = compact_pass t.cumulative t.ranges in
    let (cumulative'', kept') = compact_loop (length kept + 1) cumulative' kept in
    record t { cumulative = cumulative''; ranges = kept' }

-- The order that mergeLocked sorts by. Ranges that it does not tell apart are equal, so the sorted
-- slice does not depend on how sort.Slice sorts.
range_less : Range → Range → Bool
range_less r s = if r.0 == s.0 then ltb r.1 s.1 else ltb r.0 s.0

insert_sorted : Range → List Range → List Range
unfolding range_less
insert_sorted r [] = r ∷ []
insert_sorted r (s ∷ rs) =
    let rest = insert_sorted r rs in if range_less s r then s ∷ rest else r ∷ s ∷ rs

pub sort_ranges : List Range → List Range
sort_ranges [] = []
sort_ranges (r ∷ rs) = insert_sorted r (sort_ranges rs)

-- The loop of mergeLocked: `last` is the last range of `merged`.
pub coalesce : Range → List Range → List Range
coalesce last [] = last ∷ []
coalesce (a, b) ((start, end) ∷ rs) =
    let joined = coalesce (a, if ltb b end then end else b) rs in
    let apart = coalesce (start, end) rs in if leb start b then joined else (a, b) ∷ apart

merge_sorted : List Range → List Range
merge_sorted [] = []
merge_sorted (r ∷ rs) = coalesce r rs

pub merge : Tracker → Tracker
unfolding merge_sorted
merge t =
    if ltb (length t.ranges) 2 then t else record t { ranges = merge_sorted (sort_ranges t.ranges) }

-- `t.gen++` on a uint64.
bump : Tracker → Tracker
bump t = record t { gen = (t.gen + 1) % 2 ^ 64 }

pub advance : Tracker → ℕ → Tracker
unfolding bump
advance t sequence =
    if leb sequence t.cumulative then t else bump (compact (record t { cumulative = sequence }))

-- The ranges that Add appends: not empty, and not wholly acknowledged already.
pub fresh : ℕ → List Range → List Range
fresh cumulative [] = []
fresh cumulative ((start, end) ∷ rs) =
    let rest = fresh cumulative rs in
    if leb end start || leb end cumulative then rest else (start, end) ∷ rest

pub add : Tracker → List Range → Tracker
unfolding bump
add t [] = t
add t (r ∷ rs) =
    bump (compact (merge (record t { ranges = t.ranges ++ fresh t.cumulative (r ∷ rs) })))

-- The loop of coveredLocked.
pub covered_scan : ℕ → ℕ → List Range → Bool
covered_scan start end [] = false
covered_scan start end ((a, b) ∷ rs) =
    let past = covered_scan b end rs in
    let rest = covered_scan start end rs in
    if ltb start a then false else if ltb start b then (if leb end b then true else past) else rest

pub covered : Tracker → ℕ → ℕ → Bool
covered t start end =
    if leb end start
    then true
    else if leb end t.cumulative
    then true
    else covered_scan (if ltb start t.cumulative then t.cumulative else start) end t.ranges

-- One pass of the loops of Wait and WaitChange: what they return, or `none` for cond.Wait.
-- `ctx` is whether the context has ended.
pub data Waited : Type 0 where
  delivered tracker_closed context_ended : Waited

pub wait : Tracker → ℕ → ℕ → Bool → Option Waited
wait t start end ctx =
    if covered t start end
    then some delivered
    else if t.closed
    then some tracker_closed
    else if ctx
    then some context_ended
    else none

pub wait_change : Tracker → ℕ → Bool → Option (ℕ × Waited)
wait_change t since ctx =
    if not (t.gen == since)
    then some (t.gen, delivered)
    else if t.closed
    then some (t.gen, tracker_closed)
    else if ctx
    then some (t.gen, context_ended)
    else none

pub close : Tracker → Tracker
close t = record t { closed = true }

pub touch : Tracker → Tracker
unfolding bump
touch t = bump t

pub record Snapshot : Type 0 where
  pub cumulative : ℕ
  pub ranges : List Range

pub snapshot : Tracker → Snapshot
snapshot t = record { cumulative = t.cumulative; ranges = t.ranges }

highest_from : ℕ → List Range → ℕ
highest_from top [] = top
highest_from top (r ∷ rs) = highest_from (if ltb top r.1 then r.1 else top) rs

pub highest : Snapshot → ℕ
unfolding highest_from
highest s = highest_from s.cumulative s.ranges

-- The loop of `covers` is that of coveredLocked.
pub covers : Snapshot → ℕ → ℕ → Bool
covers s start end =
    if leb end start || leb end s.cumulative
    then true
    else covered_scan (if ltb start s.cumulative then s.cumulative else start) end s.ranges
