-- ===== src/Socks5/Datagrams.antt =====
-- ReadUDPDatagram and WriteUDPDatagram of internal/socks5/socks5.go, with readHostBytes and encodeHost.
pub mod Hosts
pub mod RoundTrip
use niulang.Prelude.{
  ℕ, ◌+◌, ◌≡◌, Bool, true, false, not, ◌&&◌, ◌||◌, Option, none, some, List, [], ◌∷◌, ◌++◌, ltb,
  leb, ◌==◌, if◌then◌else◌, length, take, drop, get_or, put_be, get_be, Result, ok, err,
}
use niulang.Net.{Addresses, AddrError, join_host_port, split_host_port, itoa, atoi, port_number}
use niulang.Net.Io.{Conn, IoError, Io, ◌>>◌, give, fail}
use niulang.Socks5.{
  Error, datagram_length, reserved_bytes, fragmented, truncated, invalid_domain, address_type,
  port_zero, payload_too_long, invalid_destination, invalid_port, domain_length, write_packet, to4,
  to16, write_full,
}

abbrev pub udp_header_size : ℕ
udp_header_size = 4

abbrev pub max_udp_datagram_size : ℕ
max_udp_datagram_size = 65507

abbrev pub max_udp_domain_length : ℕ
max_udp_domain_length = 255

pub record UdpDatagram : Type 0 where
  pub destination : List ℕ
  pub payload : List ℕ

abbrev pub host_of_size : Addresses → ℕ → List ℕ → Result Error (List ℕ × ℕ)
host_of_size f n packet =
    if ltb (length packet) n then err truncated else ok (f.string (take n packet), n)

abbrev pub domain_of : ℕ → List ℕ → Result Error (List ℕ × ℕ)
domain_of n packet =
    if n == 0 || ltb max_udp_domain_length n || ltb (length packet) (1 + n)
    then err invalid_domain
    else ok (take n (drop 1 packet), 1 + n)

unfoldable pub read_host_bytes : Addresses → List ℕ → ℕ → Result Error (List ℕ × ℕ)
read_host_bytes f packet type =
    if type == 1
    then host_of_size f 4 packet
    else if type == 3
    then (if ltb (length packet) 1 then err truncated else domain_of (get_or packet 0 0) packet)
    else if type == 4
    then host_of_size f 16 packet
    else err address_type

abbrev pub datagram_for : List ℕ → ℕ → List ℕ → Result Error UdpDatagram
datagram_for host port payload =
    if port == 0
    then err port_zero
    else ok (record { destination = join_host_port host (itoa port); payload = payload })

-- The part of ReadUDPDatagram behind the address.
abbrev pub read_port_and_payload : List ℕ → Result Error (List ℕ × ℕ) → Result Error UdpDatagram
read_port_and_payload packet (err e) = err e
read_port_and_payload packet (ok (host, used)) =
    let offset = udp_header_size + used in
    if ltb (length packet) (offset + 2)
    then err truncated
    else datagram_for host (get_be (take 2 (drop offset packet))) (drop (offset + 2) packet)

unfoldable pub read_udp_datagram : Addresses → List ℕ → Result Error UdpDatagram
read_udp_datagram f packet =
    if ltb (length packet) (udp_header_size + 2) || ltb max_udp_datagram_size (length packet)
    then err datagram_length
    else if not (get_or packet 0 0 == 0) || not (get_or packet 1 0 == 0)
    then err reserved_bytes
    else if not (get_or packet 2 0 == 0)
    then err fragmented
    else read_port_and_payload packet
        (read_host_bytes f (drop udp_header_size packet) (get_or packet 3 0))

abbrev pub encode_domain : List ℕ → Result Error (List ℕ)
encode_domain host =
    if length host == 0 || ltb max_udp_domain_length (length host)
    then err domain_length
    else ok (3 ∷ length host ∷ host)

abbrev pub encode_sixteen : List ℕ → Option (List ℕ) → Result Error (List ℕ)
encode_sixteen host (some ip16) = ok (4 ∷ ip16)
encode_sixteen host none = encode_domain host

abbrev pub encode_ip : List ℕ → List ℕ → Option (List ℕ) → Result Error (List ℕ)
encode_ip host ip (some ip4) = ok (1 ∷ ip4)
encode_ip host ip none = encode_sixteen host (to16 ip)

abbrev pub encode_parsed : List ℕ → Option (List ℕ) → Result Error (List ℕ)
encode_parsed host none = encode_domain host
encode_parsed host (some ip) = encode_ip host ip (to4 ip)

unfoldable pub encode_host : Addresses → List ℕ → Result Error (List ℕ)
encode_host f host = encode_parsed host (f.parse host)

abbrev pub packet_of : ℕ → List ℕ → Result Error (List ℕ) → Result Error (List ℕ)
packet_of port payload (err e) = err e
packet_of port payload (ok address) = ok (0 ∷ 0 ∷ 0 ∷ (address ++ (put_be 2 port ++ payload)))

abbrev pub packet_for : Addresses → List ℕ → Option ℕ → List ℕ → Result Error (List ℕ)
packet_for f host none payload = err invalid_port
packet_for f host (some port) payload = packet_of port payload (encode_host f host)

abbrev pub packet_to :
    Addresses → Result AddrError (List ℕ × List ℕ) → List ℕ → Result Error (List ℕ)
packet_to f (err e) payload = err invalid_destination
packet_to f (ok (host, port)) payload =
    if length host == 0
    then err invalid_destination
    else packet_for f host (port_number (atoi port)) payload

-- The packet that WriteUDPDatagram writes.
unfoldable pub udp_packet : Addresses → List ℕ → List ℕ → Result Error (List ℕ)
udp_packet f destination payload =
    if ltb max_udp_datagram_size (length payload)
    then err payload_too_long
    else packet_to f (split_host_port destination) payload

abbrev pub write_result : Result Error (List ℕ) → Io Error (Unit {0})
write_result (err e) = fail e
write_result (ok packet) = write_full write_packet packet

unfoldable pub write_udp_datagram : Addresses → List ℕ → List ℕ → Io Error (Unit {0})
write_udp_datagram f destination payload = write_result (udp_packet f destination payload)
