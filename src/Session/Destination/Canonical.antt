-- ===== src/Session/Destination/Canonical.antt =====
-- EncodeDestination and DecodeDestination of internal/session/open.go agree on the form of a destination.
use niulang.Prelude.{
  ℕ, ◌≤◌, ◌<◌, ◌≡◌, ◌≢◌, refl, sym, ap, ◌∙◌, arith, Bool, false, ◌||◌, Option, none, some, List, [],
  ◌∷◌, ltb, leb, ◌==◌, if◌then◌else◌, length, All, Bool-cases, inl, inr, Result, ok, err, wrap,
}
use niulang.Net.{AddrError, split_host_port, join_host_port, itoa, atoi, port_number}
use niulang.Net.Decimal.{
  port_number-some, port_number-itoa, length-itoa_le, itoa-last, itoa-IsDigit,
}
use niulang.Net.HostPort.{
  IsHost, split-join_host_port, length-join_le, length-join_pos, join_host_port-ends,
}
use niulang.Net.Accepted.{split_host_port-Split}
use niulang.Net.Space.{trim_space, trim_space-All, IsInk, trim_space-IsInk}
use niulang.Session.Destination.{
  max_destination_length, DestinationError, bad_length, not_host_port, control_characters,
  bad_payload_length, invalid_destination, has_control, encode_port, encode_parts,
  encode_destination, decode_destination,
}
use mathlib.Core.Path.{subst}

abbrev pub IsAscii : List ℕ → Type 0
IsAscii s = All (λ c. c < 128) s

-- A host and a port that make an encoded destination.
pub record Parts (host : List ℕ) (p : ℕ) : Type 0 where
  pub is_host : IsHost host
  pub some_host : 1 ≤ length host
  pub clean : has_control host ≡ false
  pub least : 1 ≤ p
  pub most : p ≤ 65535

-- What EncodeDestination accepts.
pub record Encodes (d c : List ℕ) : Type 0 where
  pub host : List ℕ
  pub p : ℕ
  pub parts : Parts host p
  pub gives : c ≡ join_host_port host (itoa p)
  pub size : length c ≤ max_destination_length
  pub ascii : IsAscii d → IsAscii host

encode_port-cases :
    (host c : List ℕ) (o : Option ℕ)
    → encode_port host o ≡ ok c
    → (p : ℕ) × (o ≡ some p) × (c ≡ join_host_port host (itoa p))
encode_port-cases host c none e = absurd (cc)
encode_port-cases host c (some p) e = (p, refl, ground (arith, e))

refused :
    (e : DestinationError) (c : List ℕ)
    → (let r : Result DestinationError (List ℕ) = err e in r ≢ ok c)
refused e c h = absurd (cc)

encode_parts-Encodes :
    (d t c : List ℕ) (r : Result AddrError (List ℕ × List ℕ))
    → (IsAscii d → IsAscii t)
    → length t ≤ max_destination_length
    → split_host_port t ≡ r
    → encode_parts r ≡ ok c
    → Encodes d c
encode_parts-Encodes d t c (err e) a l s h = absurd (cc)
encode_parts-Encodes d t c (ok (host, port)) a l s h =
    let split = split_host_port-Split t host port s in
    let Answer = Result DestinationError (List ℕ) in
    let second : Bool → Answer =
      λ b. if b then err control_characters else encode_port host (port_number (atoi port)) in
    let first : Bool → Answer = λ b. if b then err not_host_port else second (has_control host) in
    elim (Bool-cases (length host == 0)) [
      | inl nothing ↦ absurd (refused not_host_port c (ap first (sym nothing) ∙ h))
      | inr some_host ↦
          let h' : second (has_control host) ≡ ok c = ap first (sym some_host) ∙ h in
          elim (Bool-cases (has_control host)) [
            | inl dirty ↦ absurd (refused control_characters c (ap second (sym dirty) ∙ h'))
            | inr clean ↦
                let (p, number, gives) =
                  encode_port-cases host c (port_number (atoi port)) (ap second (sym clean) ∙ h') in
                let (read, least, most) = port_number-some (atoi port) p number in
                record {
                  host = host;
                  p = p;
                  parts = record {
                    is_host = split.is_host;
                    some_host = ground (arith, some_host);
                    clean = clean;
                    least = least;
                    most = most;
                  };
                  gives = gives;
                  size = omega (
                    arith,
                    ap length gives,
                    length-join_le host (itoa p) port (length-itoa_le port p least read),
                    split.size,
                    l,
                  );
                  ascii = λ q. split.found (a q);
                }
          ]
    ]

pub encode_destination-Encodes : (d c : List ℕ) → encode_destination d ≡ ok c → Encodes d c
unfolding encode_destination
encode_destination-Encodes d c h =
    let t = trim_space d in
    let first : Bool → Result DestinationError (List ℕ) =
      λ b. if b then err bad_length else encode_parts (split_host_port t) in
    elim (Bool-cases (length t == 0 || ltb max_destination_length (length t))) [
      | inl bad ↦ absurd (ground (arith, ap first (sym bad) ∙ h))
      | inr good ↦
          encode_parts-Encodes d t c (split_host_port t) (trim_space-All (λ c. c < 128) d)
            (ground (arith, good)) refl (ap first (sym good) ∙ h)
    ]

trim_space-join :
    (host : List ℕ) (p : ℕ)
    → 1 ≤ length host
    → has_control host ≡ false
    → IsAscii host
    → trim_space (join_host_port host (itoa p)) ≡ join_host_port host (itoa p)
unfolding has_control
trim_space-join [] p some_host clean a = absurd (omega (arith, some_host))
trim_space-join (c ∷ host) p some_host clean a =
    let (t, d, e, digit) = itoa-last p in
    let (x, s, u, front, back, first) = join_host_port-ends c host t d in
    let above : leb c 32 ≡ false = ground (arith, clean) in
    let ink : IsInk x = elim first [
      | inl bracket ↦ (omega (arith, bracket), omega (arith, bracket))
      | inr same ↦ (ground (arith, above, same), omega (arith, a.0, same))
    ] in
    let whole = ap (join_host_port (c ∷ host)) e ∙ front in
    subst (λ k. trim_space k ≡ k) (sym whole)
      (trim_space-IsInk x s u d ink (omega (arith, digit.0), omega (arith, digit.1)) back)

-- An encoded ASCII destination is encoded as itself.
encode_destination-join :
    (host : List ℕ) (p : ℕ)
    → Parts host p
    → IsAscii host
    → length (join_host_port host (itoa p)) ≤ max_destination_length
    → encode_destination (join_host_port host (itoa p)) ≡ ok (join_host_port host (itoa p))
unfolding encode_destination
encode_destination-join host p parts a l =
    let c = join_host_port host (itoa p) in
    let first : List ℕ → Result DestinationError (List ℕ) = λ t.
      if length t == 0 || ltb max_destination_length (length t)
      then err bad_length
      else encode_parts (split_host_port t) in
    let good : (length c == 0 || ltb max_destination_length (length c)) ≡ false =
      ground (arith, l, length-join_pos host (itoa p)) in
    let some_host : (length host == 0) ≡ false = ground (arith, parts.some_host) in
    ap first (trim_space-join host p parts.some_host parts.clean a)
    ∙ ap (λ b. if b then err bad_length else encode_parts (split_host_port c)) good
    ∙ ap encode_parts (split-join_host_port host (itoa p) parts.is_host (itoa-IsDigit p))
    ∙ ap
        (λ b.
          if b
          then err not_host_port
          else (if has_control host
              then err control_characters
              else encode_port host (port_number (atoi (itoa p)))))
        some_host
    ∙ ap (λ b. if b then err control_characters else encode_port host (port_number (atoi (itoa p))))
        parts.clean
    ∙ ap (encode_port host) (port_number-itoa p parts.least parts.most)

-- What EncodeDestination returns for an ASCII destination, DecodeDestination accepts and returns
-- unchanged.
pub decode-encode_destination :
    (d c : List ℕ)
    → All (λ b. b < 128) d
    → encode_destination d ≡ ok c
    → decode_destination c ≡ ok c
unfolding decode_destination
decode-encode_destination d c a h =
    let e = encode_destination-Encodes d c h in
    let l : length (join_host_port e.host (itoa e.p)) ≤ max_destination_length =
      omega (arith, e.size, ap length e.gives) in
    let good : (length c == 0 || ltb max_destination_length (length c)) ≡ false =
      ground (arith, e.size, length-join_pos e.host (itoa e.p), ap length e.gives) in
    let again : encode_destination c ≡ ok c =
      subst (λ k. encode_destination k ≡ ok k) (sym e.gives)
        (encode_destination-join e.host e.p e.parts (e.ascii a) l) in
    ap (λ b. if b then err bad_payload_length else wrap invalid_destination (encode_destination c))
      good
    ∙ ap (wrap invalid_destination) again

wrap-ok :
    (r : Result DestinationError (List ℕ)) (c : List ℕ)
    → wrap invalid_destination r ≡ ok c
    → r ≡ ok c
wrap-ok (ok a) c h = cc
wrap-ok (err e) c h = absurd (cc)

-- No byte of an accepted host is a space, an ASCII control character or DEL.
has_control-All : (host : List ℕ) → has_control host ≡ false → All (λ b. (32 < b) × (b ≢ 127)) host
unfolding has_control
has_control-All [] e = tt
has_control-All (c ∷ cs) e = (
  (ground (arith, e), λ del. absurd (ground (arith, e, del))),
  has_control-All cs (ground (arith, e)),
)

-- What DecodeDestination returns, for any payload, is a host and a port joined by JoinHostPort: the
-- host is not empty and has no brackets and no byte that is the ASCII space, an ASCII control
-- character or DEL, the port is one of 1 to 65535 in decimal without leading zeros or sign, and the
-- whole is at most 255 bytes long. Nothing is said of the bytes from 128 on that the host may have.
pub decode_destination-Parts :
    (payload c : List ℕ)
    → decode_destination payload ≡ ok c
    → (host : List ℕ) × (p : ℕ) × (c ≡ join_host_port host (itoa p))
      × Parts host p
      × All (λ b. (32 < b) × (b ≢ 127)) host
      × (length c ≤ max_destination_length)
unfolding decode_destination
decode_destination-Parts payload c h =
    let answer : Bool → Result DestinationError (List ℕ) = λ b.
      if b then err bad_payload_length else wrap invalid_destination (encode_destination payload) in
    elim (Bool-cases (length payload == 0 || ltb max_destination_length (length payload))) [
      | inl bad ↦ absurd (refused bad_payload_length c (ap answer (sym bad) ∙ h))
      | inr good ↦
          let e =
            encode_destination-Encodes payload c
              (wrap-ok (encode_destination payload) c (ap answer (sym good) ∙ h)) in
          (e.host, e.p, e.gives, e.parts, has_control-All e.host e.parts.clean, e.size)
    ]

pub encode_destination-pos : (d c : List ℕ) → encode_destination d ≡ ok c → 1 ≤ length c
encode_destination-pos d c h =
    let e = encode_destination-Encodes d c h in
    omega (arith, length-join_pos e.host (itoa e.p), ap length e.gives)
