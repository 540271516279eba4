-- ===== src/Socks5/Datagrams/Hosts.antt =====
-- encodeHost of internal/socks5/socks5.go, as readHostBytes reads it.
use niulang.Prelude.{
  ℕ, ◌+◌, ◌≤◌, ◌≡◌, ◌≢◌, refl, sym, ap, ◌∙◌, arith, Bool, true, false, ◌&&◌, ◌||◌, Option, none,
  some, List, ◌∷◌, ◌++◌, ltb, ◌==◌, if◌then◌else◌, length, take, drop, Result, ok, err, Bool-cases,
  Option-cases, inl, inr, ◌⊎◌, length-append, take-append, length-drop,
}
use niulang.Net.{Addresses}
use niulang.Socks5.{
  Error, truncated, invalid_domain, domain_length, to4, to16, mapped_prefix, constant_time_compare,
}
use niulang.Socks5.Datagrams.{
  max_udp_domain_length, host_of_size, domain_of, read_host_bytes, encode_domain, encode_sixteen,
  encode_ip, encode_parsed, encode_host,
}

-- The name that a host comes back under: a domain as itself, an IP address as the text of its bytes.
abbrev pub Named : Addresses → List ℕ → List ℕ → Type 0
Named f host name =
    ((f.parse host ≡ none) × (name ≡ host))
    ⊎ ((ip : List ℕ) × (f.parse host ≡ some ip)
        × ((to4 ip ≡ none) × (name ≡ f.string ip)
            ⊎ (ip4 : List ℕ) × (to4 ip ≡ some ip4) × (name ≡ f.string ip4)))

-- An encoded address, as readHostBytes reads it.
pub record Encoded (f : Addresses) (host address : List ℕ) : Type 0 where
  pub type : ℕ
  pub body : List ℕ
  pub name : List ℕ
  pub gives : address ≡ type ∷ body
  pub named : Named f host name
  pub some_body : 1 ≤ length body
  pub reads : (tail : List ℕ) → read_host_bytes f (body ++ tail) type ≡ ok (name, length body)

pub refused : {A : Type 0} (e : Error) (a : A) → (let r : Result Error A = err e in r ≢ ok a)
refused e a h = absurd (cc)

pub ok-injective : {A : Type 0} (a b : A) → (let r : Result Error A = ok a in r ≡ ok b) → a ≡ b
ok-injective {A} a b h =
    let get : Result Error A → A = λ r. elim r as (λ _. A) [ ok x ↦ x | err e ↦ a ] in ap get h

host_of_size-append :
    (f : Addresses) (n : ℕ) (ip tail : List ℕ)
    → length ip ≡ n
    → host_of_size f n (ip ++ tail) ≡ ok (f.string ip, length ip)
host_of_size-append f n ip tail l =
    let enough : ltb (length (ip ++ tail)) n ≡ false = ground (arith, l, length-append ip tail) in
    ap (λ b. if b then err truncated else ok (f.string (take n (ip ++ tail)), n)) enough
    ∙ ap (λ t. ok (f.string t, n)) (take-append n ip tail l)
    ∙ ap (λ k. ok (f.string ip, k)) (sym l)

to4-length : (ip ip4 : List ℕ) → to4 ip ≡ some ip4 → length ip4 ≡ 4
unfolding to4
to4-length ip ip4 h =
    let second : Bool → Option (List ℕ) = λ b. if b then some (drop 12 ip) else none in
    let first : Bool → Option (List ℕ) = λ b.
      if b
      then some ip
      else second (length ip == 16 && constant_time_compare (take 12 ip) mapped_prefix) in
    let get : Option (List ℕ) → List ℕ = λ o. elim o as (λ _. List ℕ) [ none ↦ ip | some t ↦ t ] in
    elim (Bool-cases (length ip == 4)) [
      | inl four ↦
          let same = ap get (ap first (sym four) ∙ h) in
          let l : length ip ≡ 4 = ground (arith, four) in ap length (sym same) ∙ l
      | inr other ↦
          let h' = ap first (sym other) ∙ h in
          elim (Bool-cases (length ip == 16 && constant_time_compare (take 12 ip) mapped_prefix)) [
            | inl mapped ↦
                let same = ap get (ap second (sym mapped) ∙ h') in
                let l : length ip ≡ 16 = ground (arith, mapped) in
                ap length (sym same) ∙ length-drop 12 ip ∙ omega (arith, l)
            | inr neither ↦ absurd (some-none ip4 (ap second (sym neither) ∙ h'))
          ]
    ]
  where
    some-none : (t : List ℕ) → (let o : Option (List ℕ) = none in o ≢ some t)
    some-none t e = absurd (cc)

encode_domain-Encoded :
    (f : Addresses) (host address : List ℕ)
    → f.parse host ≡ none
    → encode_domain host ≡ ok address
    → Encoded f host address
unfolding read_host_bytes
encode_domain-Encoded f host address p h =
    let way : Bool → Result Error (List ℕ) =
      λ b. if b then err domain_length else ok (3 ∷ length host ∷ host) in
    elim (Bool-cases (length host == 0 || ltb max_udp_domain_length (length host))) [
      | inl bad ↦ absurd (refused domain_length address (ap way (sym bad) ∙ h))
      | inr good ↦ record {
        type = 3;
        body = length host ∷ host;
        name = host;
        gives = sym (ok-injective (3 ∷ length host ∷ host) address (ap way (sym good) ∙ h));
        named = inl (p, refl);
        some_body = omega arith;
        reads = λ tail.
            let n = length host in
            let packet = n ∷ (host ++ tail) in
            let long : ltb (length packet) 1 ≡ false = ground arith in
            let fits : (n == 0 || ltb max_udp_domain_length n || ltb (length packet) (1 + n))
                ≡ false =
              ground (arith, good, length-append host tail) in
            ap (λ b. if b then err truncated else domain_of n packet) long
            ∙ ap (λ b. if b then err invalid_domain else ok (take n (drop 1 packet), 1 + n)) fits
            ∙ ap (λ t. ok (t, 1 + n)) (take-append n host tail refl)
            ∙ ap (λ k. ok (host, k)) (omega arith);
      }
    ]

to16_whole : (ip : List ℕ) → length ip ≡ 16 → to16 ip ≡ some ip
unfolding to16
to16_whole ip l =
    let four : (length ip == 4) ≡ false = ground (arith, l) in
    let sixteen : (length ip == 16) ≡ true = ground (arith, l) in
    ap (λ b. if b then some (mapped_prefix ++ ip) else (if length ip == 16 then some ip else none))
      four
    ∙ ap (λ b. if b then some ip else none) sixteen

pub encode_host-Encoded :
    (f : Addresses) (host address : List ℕ)
    → ((t ip : List ℕ) → f.parse t ≡ some ip → length ip ≡ 16)
    → encode_host f host ≡ ok address
    → Encoded f host address
unfolding encode_host read_host_bytes
encode_host-Encoded f host address sizes h = elim (Option-cases (f.parse host)) [
  | inl domain ↦
      encode_domain-Encoded f host address domain (ap (encode_parsed host) (sym domain) ∙ h)
  | inr (ip, parsed) ↦
      let h' = ap (encode_parsed host) (sym parsed) ∙ h in
      elim (Option-cases (to4 ip)) [
        | inr (ip4, short) ↦
            let l = to4-length ip ip4 short in
            record {
              type = 1;
              body = ip4;
              name = f.string ip4;
              gives =
                  sym (ok-injective (1 ∷ ip4) address (ap (encode_ip host ip) (sym short) ∙ h'));
              named = inr (ip, parsed, inr (ip4, short, refl));
              some_body = omega (arith, l);
              reads = λ tail. host_of_size-append f 4 ip4 tail l;
            }
        | inl long ↦
            let l = sizes host ip parsed in
            record {
              type = 4;
              body = ip;
              name = f.string ip;
              gives = sym (
                  ok-injective (4 ∷ ip) address (
                    ap (encode_sixteen host) (sym (to16_whole ip l))
                    ∙ ap (encode_ip host ip) (sym long)
                    ∙ h'));
              named = inr (ip, parsed, inl (long, refl));
              some_body = omega (arith, l);
              reads = λ tail. host_of_size-append f 16 ip tail l;
            }
      ]
]
