-- ===== src/Protocol/AckRanges/Examples.antt =====
-- ACK payloads of internal/protocol/frame.go on concrete ranges.
use niulang.Prelude.{ℕ, ◌≤◌, ◌≡◌, refl, arith, List, [], ◌∷◌, length, All, ok, err, get_be, put_be}
use niulang.Protocol.{unordered_ranges, misaligned_ranges}
use niulang.Protocol.AckRanges.{
  Range, Ascends, encode_ack_ranges, decode_ack_ranges, append_ranges, read_ranges, uint64_at,
}
use niulang.Protocol.AckRanges.Codec.{
  IsU64Range, decode-encode_ack_ranges, encode-decode_ack_ranges,
}

abbrev two_ranges : List Range
two_ranges = (10, 20) ∷ (20, 300) ∷ []

abbrev two_payload : List ℕ
two_payload =
    0 ∷ 0 ∷ 0 ∷ 0 ∷ 0 ∷ 0 ∷ 0 ∷ 10 ∷ 0 ∷ 0 ∷ 0 ∷ 0 ∷ 0 ∷ 0 ∷ 0 ∷ 20 ∷ 0 ∷ 0 ∷ 0 ∷ 0 ∷ 0 ∷ 0 ∷ 0 ∷ 20
    ∷ 0 ∷ 0 ∷ 0 ∷ 0 ∷ 0 ∷ 0 ∷ 1 ∷ 44 ∷ []

encode_two : encode_ack_ranges two_ranges ≡ ok two_payload
unfolding encode_ack_ranges append_ranges put_be
encode_two = refl

decode_two : decode_ack_ranges two_payload 5 ≡ ok two_ranges
unfolding decode_ack_ranges read_ranges uint64_at get_be
decode_two = refl

-- Ranges that begin before the cumulative point are refused, and so is a payload cut short.
decode_behind : decode_ack_ranges two_payload 11 ≡ err unordered_ranges
unfolding decode_ack_ranges read_ranges uint64_at get_be
decode_behind = refl

decode_cut : decode_ack_ranges (0 ∷ []) 0 ≡ err misaligned_ranges
unfolding decode_ack_ranges
decode_cut = refl

decode-encode_ack_ranges_example :
    (payload : List ℕ) × (encode_ack_ranges two_ranges ≡ ok payload)
    × (length payload ≡ 32)
    × (decode_ack_ranges payload 5 ≡ ok two_ranges)
decode-encode_ack_ranges_example =
    decode-encode_ack_ranges two_ranges 5 (omega arith) (omega arith) (omega arith)

encode-decode_ack_ranges_example :
    (2 ≤ 16)
    × Ascends 5 two_ranges
    × All IsU64Range two_ranges
    × (encode_ack_ranges two_ranges ≡ ok two_payload)
encode-decode_ack_ranges_example =
    encode-decode_ack_ranges two_payload 5 two_ranges (omega arith) decode_two
