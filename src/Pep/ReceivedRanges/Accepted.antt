-- ===== src/Pep/ReceivedRanges/Accepted.antt =====
-- A peer accepts every report of internal/pep/mpflow.go.
use niulang.Prelude.{
  ℕ, ◌*◌, ◌≤◌, ◌≡◌, sym, ap, ◌∙◌, arith, true, false, List, [], ◌∷◌, leb, ◌==◌, if◌then◌else◌,
  length, All, ok, Bool-cases, inl, inr,
}
use mathlib.Core.Path.{subst}
use niulang.Protocol.AckRanges.{Range, Ascends, decode_ack_ranges, max_ack_ranges}
use niulang.Protocol.AckRanges.Codec.{IsU64Range, decode-encode_ack_ranges}
use niulang.Multipath.{Reassembler}
use niulang.Multipath.Insert.{received_ranges}
use niulang.Multipath.Insert.Invariant.{IsValid}
use niulang.Multipath.Insert.Ranges.{Reported, received_ranges-Reported}
use niulang.Pep.ReceivedRanges.{
  Reports, publish_received_ranges, fresh_ranges, take_received_ranges, ack_report,
}

Ascends-le : (a b : ℕ) (rs : List Range) → a ≤ b → Ascends b rs → Ascends a rs
Ascends-le a b [] h s = tt
Ascends-le a b ((x, y) ∷ rs) h s = (omega arith, s.1, s.2)

fresh_ranges-Ascends :
    (c bound : ℕ) (rs : List Range) → Ascends bound rs → Ascends bound (fresh_ranges c rs)
unfolding fresh_ranges
fresh_ranges-Ascends c bound [] s = tt
fresh_ranges-Ascends c bound ((x, y) ∷ rs) s = elim (Bool-cases (leb c x)) [
  | inl keep ↦ rw keep (s.0, s.1, fresh_ranges-Ascends c y rs s.2)
  | inr drop ↦
      rw drop
        (Ascends-le bound y (fresh_ranges c rs) (omega arith) (fresh_ranges-Ascends c y rs s.2))
]

-- The ranges that are left start at the cumulative point or behind.
fresh_ranges-from :
    (c bound : ℕ) (rs : List Range) → Ascends bound rs → Ascends c (fresh_ranges c rs)
unfolding fresh_ranges
fresh_ranges-from c bound [] s = tt
fresh_ranges-from c bound ((x, y) ∷ rs) s = elim (Bool-cases (leb c x)) [
  | inl keep ↦ rw keep (ground (arith, keep), s.1, fresh_ranges-Ascends c y rs s.2)
  | inr drop ↦ rw drop (fresh_ranges-from c y rs s.2)
]

fresh_ranges-IsU64Range :
    (c : ℕ) (rs : List Range) → All IsU64Range rs → All IsU64Range (fresh_ranges c rs)
unfolding fresh_ranges
fresh_ranges-IsU64Range c [] u = tt
fresh_ranges-IsU64Range c ((x, y) ∷ rs) u = elim (Bool-cases (leb c x)) [
  | inl keep ↦ rw keep (u.0, fresh_ranges-IsU64Range c rs u.1)
  | inr drop ↦ rw drop (fresh_ranges-IsU64Range c rs u.1)
]

length-fresh_ranges : (c : ℕ) (rs : List Range) → length (fresh_ranges c rs) ≤ length rs
unfolding fresh_ranges
length-fresh_ranges c [] = omega arith
length-fresh_ranges c ((x, y) ∷ rs) = ground (arith, length-fresh_ranges c rs)

fresh_ranges-Reported :
    (c : ℕ) (rs : List Range)
    → Reported max_ack_ranges rs
    → Reported max_ack_ranges (fresh_ranges c rs)
fresh_ranges-Reported c rs h = record {
  ascends = fresh_ranges-Ascends c 0 rs h.ascends;
  bounded = fresh_ranges-IsU64Range c rs h.bounded;
  few = omega (arith, length-fresh_ranges c rs, h.few);
}

-- What writeACK does with a report that can be sent.
record Sent (f : Reports) (c : ℕ) : Type 0 where
  pub payload : List ℕ
  pub gives : ack_report f c false ≡ (
    if length payload == 0 then ([], false) else (payload, true),
    record f { pending_ranges = fresh_ranges c f.pending_ranges },
  )
  pub size : length payload ≡ 16 * length (fresh_ranges c f.pending_ranges)
  pub read : decode_ack_ranges payload c ≡ ok (fresh_ranges c f.pending_ranges)

ack_report-Sent :
    (f : Reports) (c : ℕ)
    → f.ack_ranges ≡ true
    → Reported max_ack_ranges f.pending_ranges
    → Sent f c
unfolding ack_report take_received_ranges
ack_report-Sent f c on h =
    let fresh = fresh_ranges c f.pending_ranges in
    let w = fresh_ranges-Reported c f.pending_ranges h in
    let (payload, encoded, size, read) =
      decode-encode_ack_ranges fresh c w.few (fresh_ranges-from c 0 f.pending_ranges h.ascends)
        w.bounded in
    record {
      payload = payload;
      gives = elim (Bool-cases (length payload == 0)) [
        | inl empty ↦ simp (on, encoded, empty)
        | inr some_bytes ↦ simp (on, encoded, some_bytes)
      ];
      size = size;
      read = read;
    }

-- The flow after acknowledgements with these cumulative points.
pub acknowledged : Reports → List ℕ → Reports
acknowledged f [] = f
acknowledged f (c ∷ cs) = acknowledged (ack_report f c false).1 cs

acknowledged-Reported :
    (f : Reports) (cs : List ℕ)
    → f.ack_ranges ≡ true
    → Reported max_ack_ranges f.pending_ranges
    → ((acknowledged f cs).ack_ranges ≡ true)
      × Reported max_ack_ranges (acknowledged f cs).pending_ranges
unfolding acknowledged
acknowledged-Reported f [] on h = (on, h)
acknowledged-Reported f (c ∷ cs) on h =
    let w = ack_report-Sent f c on h in
    let next : (ack_report f c false).1
        ≡ record f { pending_ranges = fresh_ranges c f.pending_ranges } =
      ap (λ p. p.1) w.gives in
    subst
      (λ g.
        ((acknowledged g cs).ack_ranges ≡ true)
        × Reported max_ack_ranges (acknowledged g cs).pending_ranges)
      (sym next)
      (acknowledged-Reported (record f { pending_ranges = fresh_ranges c f.pending_ranges }) cs on
        (fresh_ranges-Reported c f.pending_ranges h))

-- Every acknowledgement that is not final, of a flow whose peer understands ranges, after a valid
-- reassembler was published and after any acknowledgements since:
-- whatever its cumulative point, it carries exactly the published ranges that are still at that point
-- or behind, or no report where none is, and the peer's DecodeAckRanges accepts the report and reads
-- those ranges.
pub decode-ack_report :
    (f : Reports) (r : Reassembler) (cs : List ℕ) (c : ℕ)
    → f.ack_ranges ≡ true
    → IsValid r
    → let g = acknowledged (publish_received_ranges f r) cs in
      let fresh = fresh_ranges c g.pending_ranges in
      (payload : List ℕ) × ((ack_report g c false).0
        ≡ (if length fresh == 0 then ([], false) else (payload, true)))
      × (decode_ack_ranges payload c ≡ ok fresh)
unfolding publish_received_ranges
decode-ack_report f r cs c on v =
    let p = publish_received_ranges f r in
    let published : p ≡ record f { pending_ranges = received_ranges r max_ack_ranges } = simp on in
    let reported : Reported max_ack_ranges p.pending_ranges =
      subst (λ q. Reported max_ack_ranges q.pending_ranges) (sym published)
        (received_ranges-Reported r max_ack_ranges v) in
    let still : p.ack_ranges ≡ true = ap (λ q. q.ack_ranges) published ∙ on in
    let (on', h) = acknowledged-Reported p cs still reported in
    let g = acknowledged p cs in
    let w = ack_report-Sent g c on' h in
    let empty : (length w.payload == 0) ≡ (length (fresh_ranges c g.pending_ranges) == 0) =
      ground (arith, w.size) in
    (
      w.payload,
      ap (λ q. q.0) w.gives ∙ ap (λ b. if b then ([], false) else (w.payload, true)) empty,
      w.read,
    )
