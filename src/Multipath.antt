-- ===== src/Multipath.antt =====
-- internal/multipath/reassembly.go: the receiver that puts the segments of a striped flow in
-- order. A Go map from sequences is the list of its segments by ascending key, and `finalAt` is an
-- option. An error leaves the reassembler as it was, so only success carries the next one.
pub mod Buffer
pub mod Neighbours
pub mod Insert
use niulang.Prelude.{
  ℕ, zero, suc, ◌+◌, ◌-◌, ◌*◌, ◌^◌, ◌%◌, Bool, true, false, not, ◌&&◌, ◌||◌, Option, none, some,
  List, [], ◌∷◌, ◌++◌, ltb, leb, ◌==◌, if◌then◌else◌, length, take, drop, get_or, replicate, Result,
  ok, err, ◌>>=◌, ◌>>◌, ensure,
}
use niulang.MemLimit.{Budget, try_acquire, release}

pub record Config : Type 0 where
  pub max_buffered_bytes : ℕ
  pub max_buffered_frames : ℕ
  pub memory : Option Budget

pub default_config : Config
default_config = record {
  max_buffered_bytes = 8 * 1024 * 1024;
  max_buffered_frames = 4096;
  memory = none;
}

pub record Segment : Type 0 where
  pub sequence : ℕ
  pub payload : List ℕ
  pub final : Bool
  pub charged : Bool

pub record Reassembler : Type 0 where
  pub cfg : Config
  pub next : ℕ
  pub buffer : List Segment
  pub order : List ℕ
  pub bytes : ℕ
  pub final_at : Option ℕ
  pub memory : Option Budget

-- `out_of_fuel` is no Go value: a loop over the chain ran out of rounds.
pub data Error : Type 0 where
  window_exceeded memory_budget invalid_sequence fin_with_payload empty_data : Error
  overlaps_cursor conflicting_duplicate overlapping fin_conflict cursor_mismatch : Error
  release_panic out_of_fuel : Error

pub new_reassembler : Config → Reassembler
unfolding default_config
new_reassembler cfg =
    let used =
      if cfg.max_buffered_bytes == 0 || cfg.max_buffered_frames == 0 then default_config else cfg in
    record {
      cfg = used;
      next = 0;
      buffer = [];
      order = [];
      bytes = 0;
      final_at = none;
      memory = used.memory;
    }

pub closed : Reassembler → Bool
closed r = elim r.final_at [ none ↦ false | some at ↦ leb at r.next ]

-- The map: lookup, lookup with Go's zero value for a missing key, assignment and `delete`.
pub find : ℕ → List Segment → Option Segment
find k [] = none
find k (s ∷ ss) = if s.sequence == k then some s else find k ss

zero_segment : Segment
zero_segment = record { sequence = 0; payload = []; final = false; charged = false }

pub at_key : List Segment → ℕ → Segment
unfolding zero_segment
at_key buffer k = elim (find k buffer) [ none ↦ zero_segment | some s ↦ s ]

pub put : Segment → List Segment → List Segment
put s [] = s ∷ []
put s (t ∷ ts) =
    let rest = put s ts in
    if ltb t.sequence s.sequence
    then t ∷ rest
    else if t.sequence == s.sequence
    then s ∷ ts
    else s ∷ t ∷ ts

pub remove : ℕ → List Segment → List Segment
remove k [] = []
remove k (s ∷ ss) = let rest = remove k ss in if s.sequence == k then ss else s ∷ rest

-- sort.Search for the first index whose sequence is not below `k`.
pub search : List ℕ → ℕ → ℕ
search [] k = 0
search (o ∷ os) k = if leb k o then 0 else suc (search os k)

pub insert_order : List ℕ → ℕ → List ℕ
insert_order order k = let at = search order k in take at order ++ (k ∷ drop at order)

pub remove_order : List ℕ → ℕ → List ℕ
remove_order order k =
    let at = search order k in
    if ltb at (length order) && get_or order at 0 == k
    then take at order ++ drop (at + 1) order
    else order

-- Where a segment ends: a FIN covers no bytes.
pub end_of : Segment → ℕ
end_of s = if s.final then s.sequence else s.sequence + length s.payload

pub check_neighbours : List Segment → List ℕ → Segment → Result Error (Unit {0})
unfolding end_of
check_neighbours buffer order s =
    let at = search order s.sequence in
    let previous = at_key buffer (get_or order (at - 1) 0) in
    let after = at_key buffer (get_or order at 0) in
    do
      ensure (not (ltb 0 at && ltb s.sequence (end_of previous))) overlapping
      ensure (not (ltb at (length order) && ltb after.sequence (end_of s))) overlapping
      ensure (not (ltb at (length order) && s.final && after.sequence == s.sequence)) fin_conflict
      ok tt
