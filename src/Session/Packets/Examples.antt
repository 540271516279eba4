-- ===== src/Session/Packets/Examples.antt =====
-- Destinations and UDP packets of internal/session for one host.
use niulang.Prelude.{ℕ, ◌≤◌, ◌<◌, ◌≡◌, ◌≢◌, refl, arith, List, [], ◌∷◌, length, All, ok}
use niulang.Net.{
  contains, cut_last, cut_first, split_host_port, join_host_port, digits, itoa, parse_digits, atoi,
}
use niulang.Net.Space.{front_space, back_space, trim, trim_space}
use niulang.Session.Destination.{
  max_destination_length, has_control, encode_destination, decode_destination,
}
use niulang.Session.Destination.Canonical.{
  Parts, decode-encode_destination, decode_destination-Parts,
}
use niulang.Session.Packets.{max_packet_payload, encode_udp_packet, decode_udp_packet}
use niulang.Session.Packets.Codec.{decode-encode_udp_packet}

-- " [a:b]:+0443" and its canonical form.
abbrev spelled : List ℕ
spelled = 32 ∷ 91 ∷ 97 ∷ 58 ∷ 98 ∷ 93 ∷ 58 ∷ 43 ∷ 48 ∷ 52 ∷ 52 ∷ 51 ∷ []

abbrev plain : List ℕ
plain = 91 ∷ 97 ∷ 58 ∷ 98 ∷ 93 ∷ 58 ∷ 52 ∷ 52 ∷ 51 ∷ []

encode-spelled : encode_destination spelled ≡ ok plain
unfolding encode_destination trim_space trim front_space back_space split_host_port contains
    cut_last cut_first join_host_port itoa digits atoi parse_digits has_control
encode-spelled = refl

decode-spelled : decode_destination spelled ≡ ok plain
unfolding encode_destination decode_destination trim_space trim front_space back_space
    split_host_port contains cut_last cut_first join_host_port itoa digits atoi parse_digits
    has_control
decode-spelled = refl

spelled-ascii : All (λ b. b < 128) spelled
spelled-ascii = omega arith

decode-encode_destination_example : decode_destination plain ≡ ok plain
decode-encode_destination_example =
    decode-encode_destination spelled plain spelled-ascii encode-spelled

decode_destination-Parts_example :
    (host : List ℕ) × (p : ℕ) × (plain ≡ join_host_port host (itoa p))
    × Parts host p
    × All (λ b. (32 < b) × (b ≢ 127)) host
    × (length plain ≤ max_destination_length)
decode_destination-Parts_example = decode_destination-Parts spelled plain decode-spelled

decode-encode_udp_packet_example :
    (out : List ℕ) × (encode_udp_packet spelled (1 ∷ 2 ∷ []) ≡ ok out)
    × (length out ≤ max_packet_payload)
    × (decode_udp_packet out ≡ ok (plain, 1 ∷ 2 ∷ []))
decode-encode_udp_packet_example =
    decode-encode_udp_packet spelled (1 ∷ 2 ∷ []) plain spelled-ascii encode-spelled (omega arith)
