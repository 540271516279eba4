-- ===== src/Multipath/Insert.antt =====
-- Insert, InsertOwned, consumeContiguous, Close and ReceivedRanges of
-- internal/multipath/reassembly.go. A payload is a value here, so the copies that Insert makes and
-- InsertOwned does not make are the same bytes.
pub mod Invariant
pub mod Chain
pub mod Drain
pub mod Follows
pub mod Deliver
pub mod Stream
pub mod Runs
pub mod Cursor
pub mod Ranges
pub mod Examples
use niulang.Prelude.{
  ℕ, zero, suc, ◌+◌, ◌-◌, ◌^◌, ◌%◌, Bool, true, false, not, ◌&&◌, ◌||◌, Option, none, some, List,
  [], ◌∷◌, ◌++◌, ltb, leb, ◌==◌, if◌then◌else◌, length, take, replicate, Result, ok, err, ◌>>=◌,
  ◌>>◌, ensure,
}
use niulang.MemLimit.{Budget, try_acquire, release}
use niulang.Protocol.AckRanges.{Range}
use niulang.Multipath.{
  Segment, Reassembler, Error, closed, find, at_key, put, remove, insert_order, remove_order,
  end_of, check_neighbours, window_exceeded, memory_budget, invalid_sequence, fin_with_payload,
  empty_data, overlaps_cursor, conflicting_duplicate, cursor_mismatch, release_panic, out_of_fuel,
}

-- The first loop of consumeContiguous: how many data segments the chain has, and how many bytes.
pub measure : ℕ → List Segment → Segment → ℕ → ℕ → ℕ → Result Error (ℕ × ℕ)
measure zero buffer current cursor count total = err out_of_fuel
measure (suc fuel) buffer current cursor count total =
    let len = length current.payload in
    let rest : Result Error (ℕ × ℕ) = elim (find (cursor + len) buffer) [
      | none ↦ ok (count + 1, total + len)
      | some n ↦ measure fuel buffer n (cursor + len) (count + 1) (total + len)
    ] in
    if not (current.sequence == cursor)
    then err cursor_mismatch
    else if current.final
    then ok (count, total)
    else rest

-- `output` is `total` bytes, of which `filled` have been copied so far.
pub copy_into : ℕ → List ℕ → List ℕ → List ℕ
copy_into total filled payload = filled ++ take (total - length filled) payload

pub output : ℕ → ℕ → Segment → List ℕ → List ℕ
output count total first filled =
    if count == 0
    then []
    else if count == 1
    then first.payload
    else filled ++ replicate (total - length filled) 0

pub release_charge : Option Budget → Segment → Result Error (Option Budget)
release_charge memory s =
    if s.charged
    then elim (release memory (length s.payload)) [ ok m ↦ ok m | err p ↦ err release_panic ]
    else ok memory

-- What an insertion returns: the bytes, whether the stream is complete, and the next state.
abbrev pub Inserted : Type 0
Inserted = List ℕ × Bool × Reassembler

-- The second loop of consumeContiguous.
pub drain : ℕ → ℕ → ℕ → Segment → Segment → List ℕ → Reassembler → Result Error Inserted
unfolding copy_into release_charge
drain zero count total first current filled r = err out_of_fuel
drain (suc fuel) count total first current filled r =
    let filled' =
      if not (current.sequence == first.sequence) && ltb 1 count
      then copy_into total filled current.payload
      else filled in
    let next = r.next + length current.payload in
    let out = output count total first filled' in
    let step : Result Error Inserted = elim (release_charge r.memory current) [
      | err e ↦ err e
      | ok memory ↦
          let stop = record r { next = next; memory = memory } in
          elim (find next r.buffer) [
            | none ↦ ok (out, closed stop, stop)
            | some n ↦ drain fuel count total first n filled' (record r {
              next = next;
              memory = memory;
              buffer = remove next r.buffer;
              order = remove_order r.order next;
              bytes = r.bytes - length n.payload;
            })
          ]
    ] in
    if current.final
    then ok (output count total first filled, true, record r { final_at = some current.sequence })
    else step

-- Each segment of the chain but the first is in the buffer, so `length buffer` and one rounds do.
pub consume_contiguous : Reassembler → Segment → Result Error Inserted
consume_contiguous r first =
    let fuel = length r.buffer + 1 in
    do
      ensure (first.sequence == r.next) cursor_mismatch
      (count, total) ← measure fuel r.buffer first first.sequence 0 0
      drain fuel count total first first first.payload r

-- `existing.Final == segment.Final && string(existing.Payload) == string(segment.Payload)`
same_bytes : List ℕ → List ℕ → Bool
same_bytes [] [] = true
same_bytes (x ∷ xs) (y ∷ ys) = x == y && same_bytes xs ys
same_bytes _ _ = false

same_bool : Bool → Bool → Bool
same_bool true b = b
same_bool false b = not b

-- The segment is kept for later, charged to the shared memory.
pub keep : Reassembler → Segment → Result Error Inserted
keep r s =
    let (admitted, memory) = try_acquire r.memory (length s.payload) in
    let held = record s { charged = true } in
    let r' = record r {
      buffer = put held r.buffer;
      order = insert_order r.order s.sequence;
      bytes = (r.bytes + length s.payload) % 2 ^ 64;
      final_at = if s.final then some s.sequence else r.final_at;
      memory = memory;
    } in
    do
      ensure
          (not (
            ltb r.cfg.max_buffered_frames (length r.buffer + 1)
            || ltb r.cfg.max_buffered_bytes ((r.bytes + length s.payload) % 2 ^ 64)))
          window_exceeded
      ensure admitted memory_budget
      ok ([], closed r', r')

-- A segment that is new: next to its neighbours, and kept or consumed.
pub accept : Reassembler → Segment → Result Error Inserted
unfolding keep
accept r s = do
  check_neighbours r.buffer r.order s
  if s.sequence == r.next then consume_contiguous r s else keep r s

pub insert : Reassembler → Segment → Result Error Inserted
unfolding same_bytes same_bool
insert r s =
    let new : Result Error Inserted = elim (find s.sequence r.buffer) [
      | some existing ↦
          if same_bool existing.final s.final && same_bytes existing.payload s.payload
          then ok ([], closed r, r)
          else err conflicting_duplicate
      | none ↦ accept r s
    ] in
    let old : Result Error Inserted =
      if leb (end_of s) r.next then ok ([], closed r, r) else err overlaps_cursor in
    do
      ensure (not (s.final && not (length s.payload == 0))) fin_with_payload
      ensure (not (not s.final && length s.payload == 0)) empty_data
      ensure (leb s.sequence (2 ^ 64 - 1 - length s.payload)) invalid_sequence
      if ltb (end_of s) r.next || (s.final && ltb s.sequence r.next) then old else new

-- The loop of Close over the map.
pub release_all : Option Budget → List Segment → Result Error (Option Budget)
release_all memory [] = ok memory
release_all memory (s ∷ ss) = do m ← release_charge memory s; release_all m ss

pub close : Reassembler → Result Error Reassembler
unfolding release_all
close r = do
  m ← release_all r.memory r.buffer
  ok (record r { buffer = []; order = []; bytes = 0; memory = m })

-- The loop of ReceivedRanges over `order`, with the last range so far apart from those before it.
pub extend : List Segment → List ℕ → Option Range → List Range
extend buffer [] last = elim last [ none ↦ [] | some l ↦ l ∷ [] ]
extend buffer (start ∷ order) last =
    let s = at_key buffer start in
    let end = start + length s.payload in
    let skip = extend buffer order last in
    let joined : List Range = elim last [
      | none ↦ extend buffer order (some (start, end))
      | some l ↦
          if l.1 == start
          then extend buffer order (some (l.0, end))
          else l ∷ extend buffer order (some (start, end))
    ] in
    if s.final then skip else joined

pub received_ranges : Reassembler → ℕ → List Range
unfolding extend
received_ranges r max =
    if max == 0 || length r.buffer == 0 then [] else take max (extend r.buffer r.order none)
