-- ===== src/Session/Packets.antt =====
-- EncodeUDPPacket and DecodeUDPPacket of internal/session/packet.go, ResetPayload and IsZeroSessionID
-- of internal/session/session.go.
mod Codec
mod Examples
use niulang.Prelude.{
  ℕ, ◌+◌, ◌%◌, ◌≡◌, Bool, true, false, ◌||◌, ◌&&◌, Option, none, some, List, [], ◌∷◌, ◌++◌, ltb,
  leb, ◌==◌, if◌then◌else◌, length, take, drop, replicate, put_be, get_be, Result, ok, err, ◌>>=◌,
  ◌>>◌, ensure, wrap,
}
use niulang.Net.{Addresses, ℤ, itoa, join_host_port, port_number}
use niulang.Session.{equal_bytes}
use niulang.Session.Destination.{
  max_destination_length, DestinationError, encode_destination, decode_destination,
}

abbrev pub packet_destination_length : ℕ
packet_destination_length = 2

abbrev pub packet_header_length : ℕ
packet_header_length = packet_destination_length

abbrev pub max_udp_payload : ℕ
max_udp_payload = 65507

abbrev pub max_packet_payload : ℕ
max_packet_payload = packet_destination_length + max_destination_length + max_udp_payload

pub data PacketError : Type 0 where
  bad_destination : DestinationError → PacketError
  payload_too_long packet_too_long truncated bad_destination_length bad_payload_length : PacketError

-- `make` and two `copy`s: the header, the destination and the payload fill the slice.
pub encode_udp_packet : List ℕ → List ℕ → Result PacketError (List ℕ)
encode_udp_packet destination payload = do
  bytes ← wrap bad_destination (encode_destination destination)
  ensure (leb (length payload) max_udp_payload) payload_too_long
  ensure
      (leb (length bytes) 65535
        && leb (length bytes + packet_header_length + length payload)
            (max_udp_payload + max_destination_length + packet_header_length))
      packet_too_long
  ok (put_be packet_destination_length (length bytes) ++ (bytes ++ payload))

pub decode_udp_packet : List ℕ → Result PacketError (List ℕ × List ℕ)
decode_udp_packet payload = do
  ensure (leb (packet_header_length + 1) (length payload)) truncated
  let n = get_be (take packet_destination_length payload)
  ensure
      (leb 1 n && leb n max_destination_length && leb (packet_header_length + n) (length payload))
      bad_destination_length
  destination ←
      wrap bad_destination (decode_destination (take n (drop packet_header_length payload)))
  let packet = drop (packet_header_length + n) payload
  ensure (leb (length packet) max_udp_payload) bad_payload_length
  ok (destination, packet)

-- net.UDPAddr, with `none` for a nil IP.
pub record UdpAddr : Type 0 where
  pub ip : Option (List ℕ)
  pub port : ℤ

abbrev pub numeric_destination : Addresses → Option (List ℕ) → Option ℕ → Option (List ℕ)
numeric_destination f (some ip) (some p) = some (join_host_port (f.string ip) (itoa p))
numeric_destination f (some ip) none = none
numeric_destination f none port = none

pub destination_from_udp_addr : Addresses → Option UdpAddr → Option (List ℕ)
destination_from_udp_addr f none = none
destination_from_udp_addr f (some addr) =
    numeric_destination f addr.ip (port_number (some addr.port))

pub is_zero_session_id : List ℕ → Bool
is_zero_session_id id = equal_bytes id (replicate 16 0)

pub data ResetCode : Type 0 where
  reset_protocol reset_authentication reset_destination reset_flow_limit reset_transport : ResetCode

abbrev pub reset_code : ResetCode → ℕ
reset_code reset_protocol = 1
reset_code reset_authentication = 2
reset_code reset_destination = 3
reset_code reset_flow_limit = 4
reset_code reset_transport = 5

pub reset_payload : ResetCode → List ℕ → List ℕ
reset_payload code message =
    let cut = if ltb 256 (length message) then take 256 message else message in
    reset_code code ∷ cut
