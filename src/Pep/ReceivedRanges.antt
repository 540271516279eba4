-- ===== src/Pep/ReceivedRanges.antt =====
-- publishReceivedRanges, takeReceivedRanges and the report in writeACK of internal/pep/mpflow.go: how
-- what the reassembler holds out of order gets into an acknowledgement.
pub mod Accepted
mod Examples
use niulang.Prelude.{
  ℕ, Bool, true, false, not, ◌&&◌, List, [], ◌∷◌, leb, ◌==◌, if◌then◌else◌, length, Result, ok, err,
}
use niulang.Protocol.AckRanges.{Range, max_ack_ranges, encode_ack_ranges}
use niulang.Multipath.{Reassembler}
use niulang.Multipath.Insert.{received_ranges}

-- The fields of multipathFlow that the report uses.
pub record Reports : Type 0 where
  pub ack_ranges : Bool
  pub pending_ranges : List Range

pub publish_received_ranges : Reports → Reassembler → Reports
publish_received_ranges f r =
    if f.ack_ranges then record f { pending_ranges = received_ranges r max_ack_ranges } else f

-- The ranges that start at `cumulative` or behind.
pub fresh_ranges : ℕ → List Range → List Range
fresh_ranges cumulative [] = []
fresh_ranges cumulative ((start, end) ∷ rs) =
    let rest = fresh_ranges cumulative rs in
    if leb cumulative start then (start, end) ∷ rest else rest

pub take_received_ranges : Reports → ℕ → List Range × Reports
take_received_ranges f cumulative =
    let fresh = fresh_ranges cumulative f.pending_ranges in
    (fresh, record f { pending_ranges = fresh })

-- The payload of an ACK, whether FlagAckRanges is set, and the flow afterwards.
pub ack_report : Reports → ℕ → Bool → (List ℕ × Bool) × Reports
unfolding take_received_ranges
ack_report f sequence final =
    let (fresh, f') = take_received_ranges f sequence in
    let report : (List ℕ × Bool) × Reports = elim (encode_ack_ranges fresh) [
      | err e ↦ (([], false), f')
      | ok encoded ↦ if length encoded == 0 then (([], false), f') else ((encoded, true), f')
    ] in
    if not final && f.ack_ranges then report else (([], false), f)
