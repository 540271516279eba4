-- ===== src/Multipath/Insert/Cursor.antt =====
-- Insert of internal/multipath/reassembly.go for a segment that begins at the receive cursor, or
-- before it.
use niulang.Prelude.{
  ℕ, suc, ◌+◌, ◌-◌, ◌^◌, ◌≤◌, ◌<◌, ◌≡◌, sym, ap, ◌∙◌, arith, Bool, true, false, none, some, List,
  [], ◌∷◌, ◌++◌, refl, ltb, leb, ◌==◌, length, All, ok,
}
use niulang.Multipath.{Segment, Reassembler, closed, find, put, end_of, check_neighbours}
use niulang.Multipath.Buffer.{total_bytes, find-put}
use niulang.Multipath.Insert.{insert, accept, keep, consume_contiguous}
use niulang.Multipath.Insert.Invariant.{Paid, IsValid, charge_of}
use niulang.Multipath.Insert.Chain.{chain, payloads, total_bytes-chain}
use niulang.Multipath.Insert.Follows.{Follows, chain-Behind}
use niulang.Multipath.Insert.Deliver.{consume_contiguous-Drained}
use mathlib.Core.Path.{subst}

-- A data segment with bytes whose end is no larger than the largest sequence.
pub record IsData (s : Segment) : Type 0 where
  pub data_only : s.final ≡ false
  pub filled : 0 < length s.payload
  pub ends : s.sequence + length s.payload < 2 ^ 64
  pub free : s.charged ≡ false

-- Insert of a new data segment does what comes after the guards.
insert-accept :
    (r : Reassembler) (s : Segment)
    → IsData s
    → r.next ≤ s.sequence + length s.payload
    → find s.sequence r.buffer ≡ none
    → insert r s ≡ accept r s
unfolding insert end_of
insert-accept r s d h absent =
    let some_bytes : (length s.payload == 0) ≡ false = ground (arith, d.filled) in
    let in_range : leb s.sequence (2 ^ 64 - 1 - length s.payload) ≡ true = ground (arith, d.ends) in
    let current : ltb (s.sequence + length s.payload) r.next ≡ false = ground arith in
    simp (d.data_only, some_bytes, in_range, current, absent)

keep-put :
    (r : Reassembler) (s : Segment) (out : List ℕ) (done : Bool) (last : Reassembler)
    → keep r s ≡ ok (out, done, last)
    → (out ≡ []) × (last.next ≡ r.next) × (last.buffer ≡ put (record s { charged = true }) r.buffer)
unfolding keep
keep-put r s out done last h = ground arith

trivial : (b : List Segment) → All (λ t. Unit {0}) b
trivial [] = tt
trivial (t ∷ ts) = (tt, trivial ts)

-- A data segment at the cursor of a valid reassembler that ends before 2^64 and does not overlap its
-- buffered neighbours is delivered at once, whatever the limits, with all that continues it: Insert
-- succeeds and returns the segment's bytes followed by those of the data segments that the buffer held
-- one behind the other from the segment's end on, up to the first sequence at which no buffered segment
-- began or a FIN did. The cursor moves to that sequence exactly, no buffered segment begins there
-- any more, and closed is reported exactly as the new state has it.
pub insert-next :
    (r : Reassembler) (s : Segment)
    → IsValid r
    → IsData s
    → s.sequence ≡ r.next
    → check_neighbours r.buffer r.order s ≡ ok tt
    → (out : List ℕ) × (rest : List ℕ) × (last : Reassembler) × (insert r s
        ≡ ok (out, closed last, last))
      × (out ≡ s.payload ++ rest)
      × Follows r.buffer (r.next + length s.payload) rest last.next
      × (r.next + length s.payload ≤ last.next)
      × (find last.next last.buffer ≡ none)
unfolding accept
insert-next r s v d at clean =
    let absent : find s.sequence r.buffer ≡ none = ap (λ k. find k r.buffer) at ∙ v.gap in
    let here : (s.sequence == r.next) ≡ true = ground (arith, at) in
    let free : charge_of s ≡ 0 = rw d.free in
    let owes : r.bytes + charge_of s ≡ r.bytes = omega (arith, free) in
    let done =
      consume_contiguous-Drained (λ t. Unit {0}) r s
        (record {
          indexed = v.indexed;
          spread = v.spread;
          absent = v.gap;
          counted = v.counted;
          frames = v.frames;
          within = v.within;
          charged = v.charged;
          small = v.small;
          bounded = v.bounded;
          paid = subst (Paid r.memory) (sym owes) v.paid;
          at = at;
          shaped = (λ fin. absurd (ground (arith, d.data_only)), λ not_fin. d.filled);
        })
        (trivial r.buffer) in
    let e : length r.buffer + 1 ≡ suc (length r.buffer) = omega arith in
    let long = total_bytes-chain (length r.buffer) r.buffer s d.data_only in
    let more : length s.payload ≤ total_bytes (chain (length r.buffer + 1) r.buffer s) =
      rw e long in
    let behind =
      chain-Behind (length r.buffer + 1) 0 r.buffer r.buffer s v.spread (λ j l. refl)
        (λ fin. absurd (ground (arith, d.data_only)), λ not_fin. d.filled) d.data_only
        (omega arith) in
    let ends_at : s.sequence + total_bytes (chain (length r.buffer + 1) r.buffer s)
        ≡ done.last.next =
      omega (arith, done.cursor, at) in
    let out = payloads (chain (length r.buffer + 1) r.buffer s) in
    let consumed : accept r s ≡ consume_contiguous r s = simp (clean, here) in
    let gives = done.gives ∙ ap (λ b. ok (out, b, done.last)) done.finished in
    (
      out,
      behind.rest,
      done.last,
      insert-accept r s d (omega (arith, at)) absent ∙ consumed ∙ gives,
      behind.bytes,
      subst (Follows r.buffer (r.next + length s.payload) behind.rest) ends_at (
          subst
            (λ k.
              Follows r.buffer (k + length s.payload) behind.rest
                (s.sequence + total_bytes (chain (length r.buffer + 1) r.buffer s)))
            at behind.follows),
      omega (arith, done.cursor, more),
      done.valid.gap,
    )

-- The overlap of a segment with the cursor goes unnoticed: a new data segment that begins before the
-- cursor and ends at it or behind it, but before 2^64, is, unless Insert fails, buffered below the cursor, although
-- nothing of it is returned and the cursor stays.
pub insert-overlap :
    (r : Reassembler) (s : Segment) (out : List ℕ) (done : Bool) (last : Reassembler)
    → IsData s
    → s.sequence < r.next
    → r.next ≤ s.sequence + length s.payload
    → find s.sequence r.buffer ≡ none
    → insert r s ≡ ok (out, done, last)
    → (out ≡ [])
      × (last.next ≡ r.next)
      × (find s.sequence last.buffer ≡ some (record s { charged = true }))
unfolding accept
insert-overlap r s out done last d before behind absent h =
    let accepted : accept r s ≡ ok (out, done, last) =
      sym (insert-accept r s d behind absent) ∙ h in
    let apart : (s.sequence == r.next) ≡ false = ground (arith, before) in
    let kept : keep r s ≡ ok (out, done, last) = ground (arith, accepted, apart) in
    let (none_out, cursor, buffered) = keep-put r s out done last kept in
    (
      none_out,
      cursor,
      rw buffered
          (find-put (record s { charged = true }) r.buffer s.sequence absent ∙ ground arith),
    )
