-- ===== src/Pep/ReceivedRanges/Examples.antt =====
-- The report of internal/pep/mpflow.go for a segment that is held behind a gap.
use niulang.Prelude.{ℕ, ◌≡◌, refl, true, false, List, [], ◌∷◌, ◌==◌, if◌then◌else◌, length, ok}
use niulang.Protocol.AckRanges.{decode_ack_ranges}
use niulang.Multipath.Insert.Examples.{late_buffered, late_buffered-IsValid}
use niulang.Pep.ReceivedRanges.{
  Reports, publish_received_ranges, fresh_ranges, take_received_ranges, ack_report,
}
use niulang.Pep.ReceivedRanges.Accepted.{acknowledged, decode-ack_report}

-- Nothing was published yet.
abbrev silent : Reports
silent = record { ack_ranges = true; pending_ranges = [] }

-- The cursor has passed the first of two published ranges.
abbrev two_published : Reports
two_published = record silent { pending_ranges = (2, 4) ∷ (7, 8) ∷ [] }

take_passed :
    take_received_ranges two_published 4
    ≡ ((7, 8) ∷ [], record silent { pending_ranges = (7, 8) ∷ [] })
unfolding take_received_ranges fresh_ranges
take_passed = refl

decode-ack_report_example :
    (payload : List ℕ) × ((ack_report
        (acknowledged (publish_received_ranges silent late_buffered) (0 ∷ 1 ∷ []))
        1
        false).0
      ≡ (if length (
              fresh_ranges 1
                (acknowledged
                  (publish_received_ranges silent late_buffered)
                  (0 ∷ 1 ∷ [])).pending_ranges)
            == 0
          then ([], false)
          else (payload, true)))
    × (decode_ack_ranges payload 1
        ≡ ok (
            fresh_ranges 1
              (acknowledged
                (publish_received_ranges silent late_buffered)
                (0 ∷ 1 ∷ [])).pending_ranges))
decode-ack_report_example =
    decode-ack_report silent late_buffered (0 ∷ 1 ∷ []) 1 refl late_buffered-IsValid
