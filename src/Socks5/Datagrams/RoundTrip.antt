-- ===== src/Socks5/Datagrams/RoundTrip.antt =====
-- What WriteUDPDatagram of internal/socks5/socks5.go writes is read by ReadUDPDatagram.
use niulang.Prelude.{
  ℕ, ◌+◌, ◌≤◌, ◌≡◌, refl, sym, ap, ◌∙◌, arith, Bool, false, ◌||◌, Option, none, some, List, [], ◌∷◌,
  ◌++◌, ltb, ◌==◌, if◌then◌else◌, length, take, drop, put_be, get_be, Result, ok, err, Bool-cases,
  Result-cases, inl, inr, length-append, take-append, drop-append, drop_front, length-put_be,
  get_be-put_be,
}
use niulang.Net.{Addresses, AddrError, join_host_port, split_host_port, itoa, atoi, port_number}
use niulang.Socks5.{
  Error, datagram_length, truncated, port_zero, payload_too_long, invalid_destination, invalid_port,
}
use niulang.Socks5.Datagrams.{
  udp_header_size, max_udp_datagram_size, UdpDatagram, read_host_bytes, datagram_for,
  read_port_and_payload, read_udp_datagram, encode_host, packet_of, packet_for, packet_to,
  udp_packet,
}
use niulang.Net.Decimal.{port_number-some}
use niulang.Net.Io.{Conn, fail-ok}
use niulang.Socks5.{write_packet}
use niulang.Socks5.Writes.{write_full-ok}
use niulang.Socks5.Datagrams.{write_result, write_udp_datagram}
use niulang.Socks5.Datagrams.Hosts.{Named, refused, ok-injective, encode_host-Encoded}

-- The packet of an encoded address.
module _ (f : Addresses) (type : ℕ) (body name payload : List ℕ) (p : ℕ)
    (some_body : 1 ≤ length body)
    (reads : (tail : List ℕ) → read_host_bytes f (body ++ tail) type ≡ ok (name, length body))
    (least : 1 ≤ p) (most : p ≤ 65535) where
  abbrev back : List ℕ
  back = put_be 2 p ++ payload

  abbrev front : List ℕ
  front = 0 ∷ 0 ∷ 0 ∷ type ∷ body

  abbrev packet : List ℕ
  packet = front ++ back

  front-length : length front ≡ udp_header_size + length body
  front-length = omega arith

  length-packet : length packet ≡ udp_header_size + length body + 2 + length payload
  length-packet =
      omega (arith, length-append front back, length-append (put_be 2 p) payload, length-put_be 2 p)

  read_port-packet :
      read_port_and_payload packet (ok (name, length body))
      ≡ ok (record { destination = join_host_port name (itoa p); payload = payload })
  read_port-packet =
      let offset = udp_header_size + length body in
      let tail : drop offset packet ≡ back = drop_front offset front back front-length in
      let port : get_be (take 2 (drop offset packet)) ≡ p =
        ap (λ t. get_be (take 2 t)) tail
        ∙ ap get_be (take-append 2 (put_be 2 p) payload (length-put_be 2 p))
        ∙ get_be-put_be 2 p (omega (arith, most)) in
      let rest : drop (offset + 2) packet ≡ payload =
        drop-append offset 2 front back front-length
        ∙ drop_front 2 (put_be 2 p) payload (length-put_be 2 p) in
      let long : ltb (length packet) (offset + 2) ≡ false = ground (arith, length-packet) in
      let some_port : (p == 0) ≡ false = ground (arith, least) in
      let answer : ℕ → List ℕ → Result Error UdpDatagram = λ q t. datagram_for name q t in
      ap
        (λ b.
          if b
          then err truncated
          else answer (get_be (take 2 (drop offset packet))) (drop (offset + 2) packet))
        long
      ∙ ap (λ q. answer q (drop (offset + 2) packet)) port
      ∙ ap (answer p) rest
      ∙ ap
          (λ b.
            if b
            then err port_zero
            else ok (record { destination = join_host_port name (itoa p); payload = payload }))
          some_port

  read_udp_datagram-packet :
      length packet ≤ max_udp_datagram_size
      → read_udp_datagram f packet
        ≡ ok (record { destination = join_host_port name (itoa p); payload = payload })
  unfolding read_udp_datagram
  read_udp_datagram-packet l =
      let fits : (ltb (length packet) (udp_header_size + 2)
            || ltb max_udp_datagram_size (length packet))
          ≡ false =
        ground (arith, l, length-packet) in
      ap
        (λ b.
          if b
          then err datagram_length
          else read_port_and_payload packet (read_host_bytes f (body ++ back) type))
        fits
      ∙ ap (read_port_and_payload packet) (reads back)
      ∙ read_port-packet

-- What a packet was made of.
record Sent (f : Addresses) (destination payload packet : List ℕ) : Type 0 where
  pub host : List ℕ
  pub port : List ℕ
  pub p : ℕ
  pub address : List ℕ
  pub split : split_host_port destination ≡ ok (host, port)
  pub number : port_number (atoi port) ≡ some p
  pub encoded : encode_host f host ≡ ok address
  pub gives : packet ≡ 0 ∷ 0 ∷ 0 ∷ (address ++ (put_be 2 p ++ payload))

packet_for-Sent :
    (f : Addresses) (destination payload packet host port : List ℕ) (o : Option ℕ)
    → split_host_port destination ≡ ok (host, port)
    → port_number (atoi port) ≡ o
    → packet_for f host o payload ≡ ok packet
    → Sent f destination payload packet
packet_for-Sent f destination payload packet host port none s n h =
    absurd (refused invalid_port packet h)
packet_for-Sent f destination payload packet host port (some p) s n h =
    elim (Result-cases (encode_host f host)) [
      | inr (e, bad) ↦ absurd (refused e packet (ap (packet_of p payload) (sym bad) ∙ h))
      | inl (address, good) ↦ record {
        host = host;
        port = port;
        p = p;
        address = address;
        split = s;
        number = n;
        encoded = good;
        gives = sym (ok-injective _ packet (ap (packet_of p payload) (sym good) ∙ h));
      }
    ]

packet_to-Sent :
    (f : Addresses) (destination payload packet : List ℕ) (r : Result AddrError (List ℕ × List ℕ))
    → split_host_port destination ≡ r
    → packet_to f r payload ≡ ok packet
    → Sent f destination payload packet
packet_to-Sent f destination payload packet (err e) s h =
    absurd (refused invalid_destination packet h)
packet_to-Sent f destination payload packet (ok (host, port)) s h =
    let way : Bool → Result Error (List ℕ) = λ b.
      if b then err invalid_destination else packet_for f host (port_number (atoi port)) payload in
    elim (Bool-cases (length host == 0)) [
      | inl nameless ↦ absurd (refused invalid_destination packet (ap way (sym nameless) ∙ h))
      | inr named ↦
          packet_for-Sent f destination payload packet host port (port_number (atoi port)) s refl
            (ap way (sym named) ∙ h)
    ]

udp_packet-Sent :
    (f : Addresses) (destination payload packet : List ℕ)
    → udp_packet f destination payload ≡ ok packet
    → Sent f destination payload packet
unfolding udp_packet
udp_packet-Sent f destination payload packet h =
    let way : Bool → Result Error (List ℕ) =
      λ b. if b then err payload_too_long else packet_to f (split_host_port destination) payload in
    elim (Bool-cases (ltb max_udp_datagram_size (length payload))) [
      | inl long ↦ absurd (refused payload_too_long packet (ap way (sym long) ∙ h))
      | inr short ↦
          packet_to-Sent f destination payload packet (split_host_port destination) refl
            (ap way (sym short) ∙ h)
    ]

write_result-ok :
    (r : Result Error (List ℕ)) (c d : Conn)
    → write_result r c ≡ (ok tt, d)
    → (packet : List ℕ) × (r ≡ ok packet) × (d.output ≡ c.output ++ packet)
write_result-ok (err e) c d h = absurd (fail-ok e tt c d h)
write_result-ok (ok packet) c d h = (packet, refl, (write_full-ok write_packet packet c d h).output)

-- When WriteUDPDatagram returns no error and has written at most 65507 bytes, ReadUDPDatagram reads
-- from them the payload, and as the destination JoinHostPort of the port and of the host, or of the
-- text of its address if the host is an IP address. ParseIP is assumed to return sixteen bytes.
pub read-write_udp_datagram :
    (f : Addresses)
    → ((t ip : List ℕ) → f.parse t ≡ some ip → length ip ≡ 16)
    → (destination payload : List ℕ) (c d : Conn) → c.output ≡ []
    → write_udp_datagram f destination payload c ≡ (ok tt, d)
    → length d.output ≤ max_udp_datagram_size
    → (host port name : List ℕ) × (p : ℕ) × (split_host_port destination ≡ ok (host, port))
      × (port_number (atoi port) ≡ some p)
      × Named f host name
      × (read_udp_datagram f d.output
          ≡ ok (record { destination = join_host_port name (itoa p); payload = payload }))
unfolding write_udp_datagram
read-write_udp_datagram f sizes destination payload c d empty h l =
    let (packet', made, out) = write_result-ok (udp_packet f destination payload) c d h in
    let s = udp_packet-Sent f destination payload packet' made in
    let e = encode_host-Encoded f s.host s.address sizes s.encoded in
    let (read, least, most) = port_number-some (atoi s.port) s.p s.number in
    let whole : d.output
        ≡ packet f e.type e.body e.name payload s.p e.some_body e.reads least most =
      out
      ∙ ap (λ t. t ++ packet') empty
      ∙ s.gives
      ∙ ap (λ t. 0 ∷ 0 ∷ 0 ∷ (t ++ (put_be 2 s.p ++ payload))) e.gives in
    (
      s.host,
      s.port,
      e.name,
      s.p,
      s.split,
      s.number,
      e.named,
      ap (read_udp_datagram f) whole
          ∙ read_udp_datagram-packet f e.type e.body e.name payload s.p e.some_body e.reads least
              most (omega (arith, l, ap length whole)),
    )
