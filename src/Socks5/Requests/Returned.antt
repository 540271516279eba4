-- ===== src/Socks5/Requests/Returned.antt =====
-- The requests that ReadRequest of internal/socks5/socks5.go returns.
use niulang.Prelude.{
  Result, err, ℕ, ◌≡◌, sym, ap, ◌∙◌, arith, Bool, true, false, not, ◌&&◌, Option, none, some, List,
  [], ◌∷◌, ◌++◌, ◌==◌, ltb, if◌then◌else◌, length, get_or, get_be, ok, Bool-cases, inl, inr, ◌⊎◌,
}
use niulang.Net.Io.{
  IoError, recovered, Conn, Io, ◌>>=◌, give, fail, require, recover, read_full, and_then-ok,
  require-ok, give-ok, fail-ok, read_full-ok,
}
use niulang.Socks5.{
  read_ipv4, read_ipv6, read_domain, read_domain_length, empty_domain, address_type, version5,
  command_connect, command_udp_associate, reply_address_type_unsupported,
  reply_command_not_supported, Error, read_header, read_port, empty_username, invalid_header,
  Request, Credentials, max_user_pass_field_length, only_connect_and_associate, port_zero, validate,
  long_username, long_password,
}
use niulang.Socks5.Requests.{
  read_name, read_ip, read_domain_name, read_host, required, negotiate_method, read_request,
  check_command, finish_request, read_destination, reply_and_fail,
}
use niulang.Socks5.Requests.Accepts.{answer, greeting, proof, negotiate_method-ok}
use niulang.Net.{Addresses, contains, join_host_port, itoa}
use niulang.Socks5.Writes.{four_bytes}
use mathlib.Core.List.{append_assoc}

validate-ok : (o : Option Credentials) (c d : Conn) → validate o c ≡ (ok tt, d) → c ≡ d
unfolding validate
validate-ok none c d e = (give-ok tt tt c d e).1
validate-ok (some cr) c d e =
    let last : Bool → Io Error (Unit {0}) = λ b. if b then fail long_password else give tt in
    let middle : Bool → Io Error (Unit {0}) = λ b.
      if b
      then fail long_username
      else last (ltb max_user_pass_field_length (length cr.password)) in
    let first : Bool → Io Error (Unit {0}) = λ b.
      if b
      then fail empty_username
      else middle (ltb max_user_pass_field_length (length cr.username)) in
    elim (Bool-cases (length cr.username == 0)) [
      | inl nameless ↦
          absurd (fail-ok empty_username tt c d (ap (λ b. first b c) (sym nameless) ∙ e))
      | inr named ↦
          let e' = ap (λ b. first b c) (sym named) ∙ e in
          elim (Bool-cases (ltb max_user_pass_field_length (length cr.username))) [
            | inl long ↦
                absurd (fail-ok long_username tt c d (ap (λ b. middle b c) (sym long) ∙ e'))
            | inr short ↦
                let e'' = ap (λ b. middle b c) (sym short) ∙ e' in
                elim (Bool-cases (ltb max_user_pass_field_length (length cr.password))) [
                  | inl long ↦
                      absurd (fail-ok long_password tt c d (ap (λ b. last b c) (sym long) ∙ e''))
                  | inr short' ↦ (give-ok tt tt c d (ap (λ b. last b c) (sym short') ∙ e'')).1
                ]
          ]
    ]

finish_request-ok :
    (command : ℕ) (host : List ℕ) (port : ℕ) (r : Request) (c d : Conn)
    → finish_request command host port c ≡ (ok r, d)
    → (r.command ≡ command) × (r.destination ≡ join_host_port host (itoa port)) × (c ≡ d)
finish_request-ok command host port r c d e =
    let accepted : Request = record {
      command = command;
      destination = join_host_port host (itoa port);
    } in
    let way : Bool → Io Error Request =
      λ b. if b then reply_and_fail reply_address_type_unsupported port_zero else give accepted in
    elim (Bool-cases (port == 0 && command == command_connect)) [
      | inl zero ↦ absurd (fail-ok port_zero r _ d (ap (λ b. way b c) (sym zero) ∙ e))
      | inr some_port ↦
          let (same, after) = give-ok accepted r c d (ap (λ b. way b c) (sym some_port) ∙ e) in
          (ap (λ k. k.command) (sym same), ap (λ k. k.destination) (sym same), after)
    ]

-- The branches of readHost that return a host have only read.
read_name-ok :
    (n : ℕ) (host : List ℕ) (c d : Conn) → read_name n c ≡ (ok host, d) → d.output ≡ c.output
read_name-ok n host c d e =
    let way : Bool → Io Error (List ℕ) =
      λ b. if b then fail empty_domain else read_full read_domain n in
    elim (Bool-cases (n == 0)) [
      | inl nothing ↦ absurd (fail-ok empty_domain host c d (ap (λ b. way b c) (sym nothing) ∙ e))
      | inr some_name ↦
          (read_full-ok read_domain n c host d (ap (λ b. way b c) (sym some_name) ∙ e)).output
    ]

read_ip-ok :
    (f : Addresses) (wrap : IoError → Error) (n : ℕ) (host : List ℕ) (c d : Conn)
    → read_ip f wrap n c ≡ (ok host, d)
    → d.output ≡ c.output
read_ip-ok f wrap n host c d e =
    let (ip, c1, e1, f1) = and_then-ok (read_full wrap n c) (λ ip. give (f.string ip)) host d e in
    ap (λ k. k.output) (sym (give-ok (f.string ip) host c1 d f1).1)
    ∙ (read_full-ok wrap n c ip c1 e1).output

read_domain_name-ok :
    (host : List ℕ) (c d : Conn) → read_domain_name c ≡ (ok host, d) → d.output ≡ c.output
read_domain_name-ok host c d e =
    let (n, c1, e1, f1) =
      and_then-ok (read_full read_domain_length 1 c) (λ n. read_name (get_or n 0 0)) host d e in
    read_name-ok (get_or n 0 0) host c1 d f1 ∙ (read_full-ok read_domain_length 1 c n c1 e1).output

read_host-ok :
    (f : Addresses) (type : ℕ) (host : List ℕ) (c d : Conn)
    → read_host f type c ≡ (ok host, d)
    → d.output ≡ c.output
unfolding read_host
read_host-ok f type host c d e =
    let third : Bool → Io Error (List ℕ) =
      λ b. if b then read_ip f read_ipv6 16 else fail address_type in
    let second : Bool → Io Error (List ℕ) =
      λ b. if b then read_domain_name else third (type == 4) in
    let first : Bool → Io Error (List ℕ) =
      λ b. if b then read_ip f read_ipv4 4 else second (type == 3) in
    elim (Bool-cases (type == 1)) [
      | inl four ↦ read_ip-ok f read_ipv4 4 host c d (ap (λ b. first b c) (sym four) ∙ e)
      | inr other ↦
          let e' = ap (λ b. first b c) (sym other) ∙ e in
          elim (Bool-cases (type == 3)) [
            | inl domain ↦ read_domain_name-ok host c d (ap (λ b. second b c) (sym domain) ∙ e')
            | inr other' ↦
                let e'' = ap (λ b. second b c) (sym other') ∙ e' in
                elim (Bool-cases (type == 4)) [
                  | inl sixteen ↦
                      read_ip-ok f read_ipv6 16 host c d (ap (λ b. third b c) (sym sixteen) ∙ e'')
                  | inr strange ↦
                      absurd
                        (fail-ok address_type host c d (ap (λ b. third b c) (sym strange) ∙ e''))
                ]
          ]
    ]

recovered-ok :
    (r : Result Error (List ℕ) × Conn) (host : List ℕ) (d : Conn)
    → recovered r (reply_and_fail reply_address_type_unsupported) ≡ (ok host, d)
    → r ≡ (ok host, d)
recovered-ok (ok h, c) host d e = e
recovered-ok (err x, c) host d e = absurd (fail-ok x host _ d e)

check_command-ok :
    (f : Addresses) (command type : ℕ) (r : Request) (c d : Conn)
    → check_command f command type c ≡ (ok r, d)
    → (r.command ≡ command)
      × ((command ≡ command_connect) ⊎ (command ≡ command_udp_associate))
      × (d.output ≡ c.output)
check_command-ok f command type r c d e =
    let way : Bool → Io Error Request = λ b.
      if b
      then reply_and_fail reply_command_not_supported only_connect_and_associate
      else read_destination f command type in
    elim (Bool-cases (not (command == command_connect) && not (command == command_udp_associate))) [
      | inl other ↦
          absurd (fail-ok only_connect_and_associate r _ d (ap (λ b. way b c) (sym other) ∙ e))
      | inr known ↦
          let e' : read_destination f command type c ≡ (ok r, d) =
            ap (λ b. way b c) (sym known) ∙ e in
          let (host, c1, e1, f1) =
            and_then-ok
              (recover (read_host f type) (reply_and_fail reply_address_type_unsupported) c)
              (λ host. read_full read_port 2 >>= λ port. finish_request command host (get_be port))
              r d e' in
          let (port, c2, e2, f2) =
            and_then-ok (read_full read_port 2 c1)
              (λ port. finish_request command host (get_be port)) r d f1 in
          let (same, named, last) = finish_request-ok command host (get_be port) r c2 d f2 in
          (
            same,
            one_of command known,
            ap (λ k. k.output) (sym last)
                ∙ (read_full-ok read_port 2 c1 port c2 e2).output
                ∙ read_host-ok f type host c c1 (recovered-ok (read_host f type c) host c1 e1),
          )
    ]
  where
    one_of :
        (command : ℕ)
        → not (command == command_connect) && not (command == command_udp_associate) ≡ false
        → (command ≡ command_connect) ⊎ (command ≡ command_udp_associate)
    one_of command h = elim (Bool-cases (command == command_connect)) [
      | inl first ↦ inl (ground (arith, first))
      | inr other ↦ inr (ground (arith, other, h))
    ]

-- A client whose request ReadRequest returns has sent a greeting that offers the method which the
-- listener requires and, where the listener has credentials, the sub-negotiation of exactly that
-- username and password. Behind that came a header of version 5 with a zero reserved byte for CONNECT
-- or UDP ASSOCIATE, which the request names. All that the client was sent is the method and, with
-- credentials, the success of the sub-negotiation.
pub read_request-proof :
    (f : Addresses) (o : Option Credentials) (r : Request) (c d : Conn)
    → read_request f o c ≡ (ok r, d)
    → (methods : List ℕ) × (type : ℕ) × (rest : List ℕ) × (c.input
        ≡ greeting methods ++ (proof o ++ (version5 ∷ r.command ∷ 0 ∷ type ∷ rest)))
      × (contains (required o) methods ≡ true)
      × ((r.command ≡ command_connect) ⊎ (r.command ≡ command_udp_associate))
      × (d.output ≡ c.output ++ answer o)
unfolding read_request
read_request-proof f o r c d e =
    let (u, c0, e0, f0) = and_then-ok (validate o c) _ r d e in
    let (u', c1, e1, f1) = and_then-ok (negotiate_method o c0) _ r d f0 in
    let (h, c2, e2, f2) = and_then-ok (read_full read_header 4 c1) _ r d f1 in
    let (u'', c3, e3, f3) =
      and_then-ok (require (get_or h 0 0 == version5 && get_or h 2 0 == 0) invalid_header c2) _ r d
        f2 in
    let (methods, offered, x) = negotiate_method-ok o c0 c1 e1 in
    let r2 = read_full-ok read_header 4 c1 h c2 e2 in
    let (good, same) = require-ok _ invalid_header c2 c3 e3 in
    let (named, known, silent) = check_command-ok f (get_or h 1 0) (get_or h 3 0) r c3 d f3 in
    let version : get_or h 0 0 ≡ version5 = ground (arith, good) in
    let reserved : get_or h 2 0 ≡ 0 = ground (arith, good) in
    let front : h ≡ version5 ∷ r.command ∷ 0 ∷ get_or h 3 0 ∷ [] =
      four_bytes h r2.size
      ∙ ap (λ k. k ∷ get_or h 1 0 ∷ get_or h 2 0 ∷ get_or h 3 0 ∷ []) version
      ∙ ap (λ k. version5 ∷ get_or h 1 0 ∷ k ∷ get_or h 3 0 ∷ []) reserved
      ∙ ap (λ k. version5 ∷ k ∷ 0 ∷ get_or h 3 0 ∷ []) (sym named) in
    (
      methods,
      get_or h 3 0,
      c2.input,
      ap (λ k. k.input) (validate-ok o c c0 e0)
          ∙ x.input
          ∙ ap (λ t. (greeting methods ++ proof o) ++ t) (r2.input ∙ ap (λ t. t ++ c2.input) front)
          ∙ append_assoc (greeting methods) (proof o)
              (version5 ∷ r.command ∷ 0 ∷ get_or h 3 0 ∷ c2.input),
      offered,
      elim known [ inl connect ↦ inl (named ∙ connect) | inr associate ↦ inr (named ∙ associate) ],
      silent
          ∙ ap (λ k. k.output) (sym same)
          ∙ r2.output
          ∙ x.output
          ∙ ap (λ k. k.output ++ answer o) (sym (validate-ok o c c0 e0)),
    )
