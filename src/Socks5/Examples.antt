-- ===== src/Socks5/Examples.antt =====
-- A client of internal/socks5/socks5.go that authenticates, one that does not, and a datagram.
use niulang.Prelude.{
  ℕ, ◌≡◌, ◌≢◌, ◌↔◌, refl, sym, ap, ◌∙◌, arith, Bool, true, ◌&&◌, Option, none, some, List, [], ◌∷◌,
  ◌++◌, length, replicate, put_be, get_be, ok, err, ◌⊎◌, ◌==◌, if◌then◌else◌, Bool-cases, inl, inr,
}
use niulang.Net.{
  Addresses, contains, cut_first, cut_last, split_host_port, join_host_port, digits, itoa,
  parse_digits, atoi, port_number,
}
use niulang.Net.Io.{Conn, read_full}
use niulang.Socks5.{
  rejected, Request, Credentials, command_connect, command_udp_associate, user_pass_version,
  version5, write_calls, write_full, validate, matches, constant_time_compare, to4, to16,
}
use niulang.Socks5.Requests.{required, authenticate, negotiate_method, read_host, read_request}
use niulang.Socks5.Requests.Accepts.{greeting, proof, answer}
use niulang.Socks5.Requests.Returned.{read_request-proof}
use niulang.Socks5.Requests.Exchange.{status, verdict, authenticate-after}
use niulang.Socks5.Datagrams.{read_udp_datagram, encode_host, udp_packet, write_udp_datagram}
use niulang.Socks5.Datagrams.Hosts.{Named}
use niulang.Socks5.Datagrams.RoundTrip.{read-write_udp_datagram}

-- Addresses of which only "::1" is one.
abbrev loopback : List ℕ
loopback = replicate 15 0 ++ (1 ∷ [])

abbrev parse_loopback : List ℕ → Option (List ℕ)
parse_loopback (a ∷ b ∷ c ∷ []) = if a == 58 && b == 58 && c == 49 then some loopback else none
parse_loopback t = none

abbrev one_address : Addresses
one_address = record { string = λ ip. 58 ∷ 58 ∷ 49 ∷ []; parse = parse_loopback }

abbrev pair : Credentials
pair = record { username = 97 ∷ []; password = 98 ∷ [] }

abbrev client : List ℕ → Conn
client input = record { input = input; calls = []; output = [] }

-- CONNECT to "h", port 443.
abbrev connect : List ℕ
connect = 5 ∷ 1 ∷ 2 ∷ 1 ∷ 1 ∷ 97 ∷ 1 ∷ 98 ∷ 5 ∷ 1 ∷ 0 ∷ 3 ∷ 1 ∷ 104 ∷ 1 ∷ 187 ∷ []

abbrev connected : Request
connected = record { command = 1; destination = 104 ∷ 58 ∷ 52 ∷ 52 ∷ 51 ∷ [] }

abbrev answered : Conn
answered = record { input = []; calls = []; output = 5 ∷ 2 ∷ 1 ∷ 0 ∷ [] }

request-connect : read_request one_address (some pair) (client connect) ≡ (ok connected, answered)
unfolding read_request validate negotiate_method authenticate matches constant_time_compare
    read_full write_full write_calls read_host contains join_host_port itoa digits get_be
request-connect = refl

read_request-proof_example :
    (methods : List ℕ) × (type : ℕ) × (rest : List ℕ) × (connect
      ≡ greeting methods ++ (proof (some pair) ++ (version5 ∷ connected.command ∷ 0 ∷ type ∷ rest)))
    × (contains (required (some pair)) methods ≡ true)
    × ((connected.command ≡ command_connect) ⊎ (connected.command ≡ command_udp_associate))
    × (answered.output ≡ answer (some pair))
read_request-proof_example =
    read_request-proof one_address (some pair) connected (client connect) answered request-connect

-- The right name with another password.
abbrev guess : Conn
guess = client (1 ∷ 1 ∷ 97 ∷ 1 ∷ 99 ∷ 5 ∷ [])

authenticate-after_example :
    (right : Bool) × ((right ≡ true) ↔ ((pair.username ≡ 97 ∷ []) × (pair.password ≡ 99 ∷ [])))
    × (authenticate pair guess ≡ (
      verdict right,
      record guess { input = 5 ∷ []; calls = []; output = user_pass_version ∷ status right ∷ [] },
    ))
authenticate-after_example =
    authenticate-after pair (97 ∷ []) (99 ∷ []) (5 ∷ []) guess refl (omega arith) refl

authenticate-guess :
    authenticate pair guess
    ≡ (err rejected, record { input = 5 ∷ []; calls = []; output = 1 ∷ 1 ∷ [] })
unfolding authenticate matches constant_time_compare read_full write_full write_calls
authenticate-guess = refl

none-some : (ip : List ℕ) → (let o : Option (List ℕ) = none in o ≢ some ip)
none-some ip h = absurd (cc)

parse-sixteen : (t ip : List ℕ) → parse_loopback t ≡ some ip → length ip ≡ 16
parse-sixteen [] ip h = absurd (cc)
parse-sixteen (a ∷ []) ip h = absurd (cc)
parse-sixteen (a ∷ b ∷ []) ip h = absurd (cc)
parse-sixteen (a ∷ b ∷ c ∷ []) ip h =
    let way : Bool → Option (List ℕ) = λ t. if t then some loopback else none in
    let get : Option (List ℕ) → List ℕ = λ o. elim o as (λ _. List ℕ) [ none ↦ ip | some t ↦ t ] in
    elim (Bool-cases (a == 58 && b == 58 && c == 49)) [
      | inl same ↦ ap length (sym (ap get (ap way (sym same) ∙ h)))
      | inr other ↦ absurd (none-some ip (ap way (sym other) ∙ h))
    ]
parse-sixteen (a ∷ b ∷ c ∷ d ∷ t) ip h = absurd (cc)

-- "[::1]:53"
abbrev target : List ℕ
target = 91 ∷ 58 ∷ 58 ∷ 49 ∷ 93 ∷ 58 ∷ 53 ∷ 51 ∷ []

abbrev sent : Conn
sent = record { input = []; calls = []; output = 0 ∷ 0 ∷ 0 ∷ 4 ∷ (loopback ++ (0 ∷ 53 ∷ 7 ∷ [])) }

write-target : write_udp_datagram one_address target (7 ∷ []) (client []) ≡ (ok tt, sent)
unfolding write_udp_datagram udp_packet encode_host to4 to16 constant_time_compare write_full
    write_calls split_host_port contains cut_first cut_last atoi parse_digits put_be
write-target = refl

read-write_udp_datagram_example :
    (host port name : List ℕ) × (p : ℕ) × (split_host_port target ≡ ok (host, port))
    × (port_number (atoi port) ≡ some p)
    × Named one_address host name
    × (read_udp_datagram one_address sent.output
        ≡ ok (record { destination = join_host_port name (itoa p); payload = 7 ∷ [] }))
read-write_udp_datagram_example =
    read-write_udp_datagram one_address parse-sixteen target (7 ∷ []) (client []) sent refl
      write-target (omega arith)
