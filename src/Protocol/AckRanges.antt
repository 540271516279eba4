-- ===== src/Protocol/AckRanges.antt =====
-- EncodeAckRanges and DecodeAckRanges of internal/protocol/frame.go: the payload of an ACK.
pub mod Codec
mod Examples
use niulang.Prelude.{
  ℕ, zero, suc, ◌+◌, ◌*◌, ◌/◌, ◌%◌, ◌≤◌, ◌<◌, List, [], ◌∷◌, ◌++◌, ltb, leb, ◌==◌, if◌then◌else◌,
  length, take, drop, put_be, get_be, Result, ok, err, ◌>>=◌, ◌>>◌, ensure,
}
use niulang.Protocol.{Error, too_many_ranges, empty_range, misaligned_ranges, unordered_ranges}

abbrev pub max_ack_ranges : ℕ
max_ack_ranges = 16

abbrev pub ack_range_size : ℕ
ack_range_size = 16

-- A Go [2]uint64: the first byte, and the first byte behind.
abbrev pub Range : Type 0
Range = ℕ × ℕ

-- The loop of EncodeAckRanges.
append_ranges : List Range → List ℕ → Result Error (List ℕ)
append_ranges [] payload = ok payload
append_ranges ((start, end) ∷ rs) payload =
    let rest = append_ranges rs ((payload ++ put_be 8 start) ++ put_be 8 end) in
    if leb end start then err empty_range else rest

pub encode_ack_ranges : List Range → Result Error (List ℕ)
encode_ack_ranges ranges = do
  ensure (leb (length ranges) max_ack_ranges) too_many_ranges
  append_ranges ranges []

-- `binary.BigEndian.Uint64(payload[at:])`
uint64_at : List ℕ → ℕ → ℕ
uint64_at payload at = get_be (take 8 (drop at payload))

-- The loop of DecodeAckRanges, with `n` rounds left and the loop variable at `i`.
read_ranges : ℕ → ℕ → List ℕ → ℕ → List Range → Result Error (List Range)
read_ranges zero i payload previous_end ranges = ok ranges
read_ranges (suc n) i payload previous_end ranges =
    let start = uint64_at payload (i * ack_range_size) in
    let end = uint64_at payload (i * ack_range_size + 8) in
    let rest = read_ranges n (i + 1) payload end (ranges ++ ((start, end) ∷ [])) in
    if leb end start
    then err empty_range
    else if ltb start previous_end
    then err unordered_ranges
    else rest

pub decode_ack_ranges : List ℕ → ℕ → Result Error (List Range)
decode_ack_ranges payload cumulative = do
  ensure (length payload % ack_range_size == 0) misaligned_ranges
  ensure (leb (length payload / ack_range_size) max_ack_ranges) too_many_ranges
  read_ranges (length payload / ack_range_size) 0 payload cumulative []

-- Non-empty ranges, each behind the one before it, the first from `bound` on.
abbrev pub Ascends : ℕ → List Range → Type 0
Ascends bound [] = Unit {0}
Ascends bound ((start, end) ∷ rs) = (bound ≤ start) × (start < end) × Ascends end rs
