-- ===== src/Session/Packets/Codec.antt =====
-- EncodeUDPPacket and DecodeUDPPacket of internal/session/packet.go are inverse to each other.
use niulang.Prelude.{
  ℕ, ◌+◌, ◌≤◌, ◌<◌, ◌≡◌, refl, ap, ◌∙◌, arith, Bool, true, ◌&&◌, List, ◌++◌, leb, length, take,
  drop, put_be, get_be, Result, ok, ◌>>=◌, ◌>>◌, ensure, wrap, All, length-append, take-append,
  drop-append, drop_front, length-put_be, get_be-put_be,
}
use niulang.Session.Destination.{max_destination_length, encode_destination, decode_destination}
use niulang.Session.Destination.Canonical.{
  encode_destination-Encodes, encode_destination-pos, decode-encode_destination,
}
use niulang.Session.Packets.{
  packet_destination_length, packet_header_length, max_udp_payload, max_packet_payload, PacketError,
  bad_destination, payload_too_long, packet_too_long, truncated, bad_destination_length,
  bad_payload_length, encode_udp_packet, decode_udp_packet,
}

-- The bytes of a packet.
abbrev frame : List ℕ → List ℕ → List ℕ
frame c payload = put_be packet_destination_length (length c) ++ (c ++ payload)

length-frame : (c payload : List ℕ) → length (frame c payload) ≡ 2 + length c + length payload
length-frame c payload =
    let head = put_be packet_destination_length (length c) in
    omega (
      arith,
      length-append head (c ++ payload),
      length-append c payload,
      length-put_be packet_destination_length (length c),
    )

encode_udp_packet-frame :
    (destination payload c : List ℕ)
    → encode_destination destination ≡ ok c
    → length payload ≤ max_udp_payload
    → length c ≤ max_destination_length
    → encode_udp_packet destination payload ≡ ok (frame c payload)
unfolding encode_udp_packet
encode_udp_packet-frame destination payload c h l short =
    let fits : List ℕ → Bool = λ bytes.
      leb (length bytes) 65535
      && leb (length bytes + packet_header_length + length payload)
          (max_udp_payload + max_destination_length + packet_header_length) in
    let small : leb (length payload) max_udp_payload ≡ true = ground (arith, l) in
    let whole : fits c ≡ true = ground (arith, l, short) in
    ap
      (λ r. wrap bad_destination r >>= λ bytes.
        ensure (leb (length payload) max_udp_payload) payload_too_long
        >> (ensure (fits bytes) packet_too_long >> ok (frame bytes payload)))
      h
    ∙ ap
        (λ b.
          ensure b payload_too_long >> (ensure (fits c) packet_too_long >> ok (frame c payload)))
        small
    ∙ ap (λ b. ensure b packet_too_long >> ok (frame c payload)) whole

-- The parts that DecodeUDPPacket cuts a packet into.
module _ (c payload : List ℕ) (some_text : 1 ≤ length c)
    (short : length c ≤ max_destination_length) where
  head : List ℕ
  head = put_be packet_destination_length (length c)

  frame-number : get_be (take packet_destination_length (frame c payload)) ≡ length c
  unfolding head
  frame-number =
      ap get_be (take-append 2 head (c ++ payload) (length-put_be 2 (length c)))
      ∙ get_be-put_be packet_destination_length (length c) (omega (arith, short))

  frame-name : take (length c) (drop packet_header_length (frame c payload)) ≡ c
  unfolding head
  frame-name =
      ap (take (length c)) (drop_front 2 head (c ++ payload) (length-put_be 2 (length c)))
      ∙ take-append (length c) c payload refl

  frame-payload : drop (packet_header_length + length c) (frame c payload) ≡ payload
  unfolding head
  frame-payload =
      drop-append 2 (length c) head (c ++ payload) (length-put_be 2 (length c))
      ∙ drop_front (length c) c payload refl

  decode_udp_packet-frame :
      decode_destination c ≡ ok c
      → length payload ≤ max_udp_payload
      → decode_udp_packet (frame c payload) ≡ ok (c, payload)
  unfolding decode_udp_packet
  decode_udp_packet-frame h l =
      let out = frame c payload in
      let n = length c in
      let finish : List ℕ → List ℕ → Result PacketError (List ℕ × List ℕ) = λ name packet.
        wrap bad_destination (decode_destination name) >>= λ destination.
        ensure (leb (length packet) max_udp_payload) bad_payload_length
        >> ok (destination, packet) in
      let fits : ℕ → Bool = λ m.
        leb 1 m && leb m max_destination_length && leb (packet_header_length + m) (length out) in
      let second : ℕ → Result PacketError (List ℕ × List ℕ) = λ m.
        ensure (fits m) bad_destination_length
        >> finish (take m (drop packet_header_length out)) (drop (packet_header_length + m) out) in
      let long : leb (packet_header_length + 1) (length out) ≡ true =
        ground (arith, length-frame c payload, some_text) in
      let bounded : fits n ≡ true = ground (arith, some_text, short, length-frame c payload) in
      let small : leb (length payload) max_udp_payload ≡ true = ground (arith, l) in
      ap (λ b. ensure b truncated >> second (get_be (take packet_destination_length out))) long
      ∙ ap second frame-number
      ∙ ap
          (λ b.
            ensure b bad_destination_length
            >> finish (take n (drop packet_header_length out))
                (drop (packet_header_length + n) out))
          bounded
      ∙ ap (λ t. finish t (drop (packet_header_length + n) out)) frame-name
      ∙ ap (finish c) frame-payload
      ∙ ap
          (λ r. wrap bad_destination r >>= λ destination.
            ensure (leb (length payload) max_udp_payload) bad_payload_length
            >> ok (destination, payload))
          h
      ∙ ap (λ b. ensure b bad_payload_length >> ok (c, payload)) small

-- A packet for an ASCII destination that EncodeDestination accepts, with a payload of at most 65507
-- bytes, is encoded in no more bytes than MaxPacketPayload, and is read back as the destination's
-- canonical form and the payload.
pub decode-encode_udp_packet :
    (destination payload c : List ℕ)
    → All (λ b. b < 128) destination
    → encode_destination destination ≡ ok c
    → length payload ≤ max_udp_payload
    → (out : List ℕ) × (encode_udp_packet destination payload ≡ ok out)
      × (length out ≤ max_packet_payload)
      × (decode_udp_packet out ≡ ok (c, payload))
decode-encode_udp_packet destination payload c a h l =
    let short = (encode_destination-Encodes destination c h).size in
    (
      frame c payload,
      encode_udp_packet-frame destination payload c h l short,
      omega (arith, length-frame c payload, short, l),
      decode_udp_packet-frame c payload (encode_destination-pos destination c h) short
          (decode-encode_destination destination c a h) l,
    )
