-- ===== src/Net/HostPort.antt =====
-- JoinHostPort and SplitHostPort of net.
use niulang.Prelude.{
  ℕ, ◌+◌, ◌≤◌, ◌<◌, ◌≡◌, ◌≢◌, refl, sym, ap, ◌∙◌, arith, true, false, some, List, [], ◌∷◌, ◌++◌,
  ◌==◌, if◌then◌else◌, length, drop, length-append, All, All-map, Bool-cases, inl, inr, ◌⊎◌, Result,
  ok, err,
}
use niulang.Net.{
  colon, open_bracket, close_bracket, contains, starts_with, cut_first, cut_last, AddrError,
  missing_port, too_many_colons, no_brackets, split_bracketed, split_at, split_host_port,
  join_host_port,
}
use niulang.Net.Text.{contains-append, contains-All, cut_last-append, cut_first-append}
use niulang.Net.Decimal.{IsDigit}
use mathlib.Core.List.{append_assoc}

-- A port that is not marked up.
digits-plain : (c : ℕ) (ds : List ℕ) → 57 < c → All IsDigit ds → contains c ds ≡ false
digits-plain c ds l d =
    contains-All c ds (All-map IsDigit (λ x. x ≢ c) ds (λ x h e. absurd (omega (arith, h.1, l))) d)

-- A host without brackets.
pub record IsHost (host : List ℕ) : Type 0 where
  pub opens : contains open_bracket host ≡ false
  pub closes : contains close_bracket host ≡ false

no_brackets-ok :
    (host opening closing port : List ℕ)
    → contains open_bracket opening ≡ false
    → contains close_bracket closing ≡ false
    → no_brackets host opening closing port ≡ ok (host, port)
no_brackets-ok host opening closing port o c = rw o (rw c refl)

starts_with-append :
    (c d : ℕ) (xs ys : List ℕ)
    → contains c xs ≡ false
    → d ≢ c
    → starts_with c (xs ++ (d ∷ ys)) ≡ false
unfolding contains
starts_with-append c d [] ys h ne = ground (arith, ne)
starts_with-append c d (x ∷ xs) ys h ne = ground (arith, h)

-- Text around a host that has none of a byte.
contains-around :
    (c d : ℕ) (host ys : List ℕ)
    → contains c host ≡ false
    → d ≢ c
    → contains c ys ≡ false
    → contains c (host ++ (d ∷ ys)) ≡ false
unfolding contains
contains-around c d host ys h ne t =
    let other : (d == c) ≡ false = ground (arith, ne) in
    contains-append c host (d ∷ ys) ∙ rw h (rw other t)

split-plain :
    (host port : List ℕ)
    → IsHost host
    → contains colon host ≡ false
    → All IsDigit port
    → split_host_port (host ++ (colon ∷ port)) ≡ ok (host, port)
unfolding split_host_port
split-plain host port h plain d =
    let hp = host ++ (colon ∷ port) in
    let none_of : (c : ℕ) → 58 < c → contains c host ≡ false → contains c hp ≡ false = λ c l e.
      contains-around c colon host port e (λ q. absurd (omega (arith, l)))
        (digits-plain c port (omega (arith, l)) d) in
    let bracketed = split_bracketed hp host port (cut_first close_bracket hp) in
    let answer : Result AddrError (List ℕ × List ℕ) =
      if contains colon host then err too_many_colons else no_brackets host hp hp port in
    ap (split_at hp) (cut_last-append colon host port (digits-plain colon port (omega arith) d))
    ∙ ap (λ b. if b then bracketed else answer)
        (starts_with-append open_bracket colon host port h.opens (λ q. absurd (omega arith)))
    ∙ ap (λ b. if b then err too_many_colons else no_brackets host hp hp port) plain
    ∙ no_brackets-ok host hp hp port (none_of open_bracket (omega arith) h.opens)
        (none_of close_bracket (omega arith) h.closes)

split-bracketed :
    (host port : List ℕ)
    → IsHost host
    → All IsDigit port
    → split_host_port (open_bracket ∷ (host ++ (close_bracket ∷ colon ∷ port))) ≡ ok (host, port)
unfolding split_host_port contains
split-bracketed host port h d =
    let hp = open_bracket ∷ (host ++ (close_bracket ∷ colon ∷ port)) in
    let before = open_bracket ∷ (host ++ (close_bracket ∷ [])) in
    let apart : hp ≡ before ++ (colon ∷ port) =
      ap (λ t. open_bracket ∷ t) (sym (append_assoc host (close_bracket ∷ []) (colon ∷ port))) in
    let last : cut_last colon hp ≡ some (before, port) =
      ap (cut_last colon) apart
      ∙ cut_last-append colon before port (digits-plain colon port (omega arith) d) in
    let first : cut_first close_bracket hp ≡ some (open_bracket ∷ host, colon ∷ port) =
      cut_first-append close_bracket (open_bracket ∷ host) (colon ∷ port) h.closes in
    let fits : (length (open_bracket ∷ host) + 1 == length before) ≡ true =
      ground (arith, length-append host (close_bracket ∷ [])) in
    let whole = length (open_bracket ∷ host) + 1 == length before in
    let some_port : (length (colon ∷ port) == 0) ≡ false = ground arith in
    let inner = no_brackets host (drop 1 hp) (colon ∷ port) port in
    ap (split_at hp) last
    ∙ ap (split_bracketed hp before port) first
    ∙ ap (λ b. if b then err missing_port else (if whole then inner else err too_many_colons))
        some_port
    ∙ ap (λ b. if b then inner else err too_many_colons) fits
    ∙ no_brackets-ok host (drop 1 hp) (colon ∷ port) port
        (contains-around open_bracket close_bracket host (colon ∷ port) h.opens
          (λ q. absurd (omega arith)) (digits-plain open_bracket port (omega arith) d))
        (digits-plain close_bracket port (omega arith) d)

-- SplitHostPort takes apart what JoinHostPort puts together of a host and a number.
pub split-join_host_port :
    (host port : List ℕ)
    → IsHost host
    → All IsDigit port
    → split_host_port (join_host_port host port) ≡ ok (host, port)
unfolding join_host_port
split-join_host_port host port h d = elim (Bool-cases (contains colon host)) [
  | inl colons ↦ rw colons (split-bracketed host port h d)
  | inr plain ↦ rw plain (split-plain host port h plain d)
]

pub length-join_le :
    (host port port' : List ℕ)
    → length port ≤ length port'
    → length (join_host_port host port) ≤ length (join_host_port host port')
unfolding join_host_port
length-join_le host port port' l = elim (Bool-cases (contains colon host)) [
  | inl colons ↦
      let e = length-append host (close_bracket ∷ colon ∷ port) in
      let e' = length-append host (close_bracket ∷ colon ∷ port') in
      rw colons (omega (arith, e, e', l))
  | inr plain ↦
      rw plain
        (omega (arith, length-append host (colon ∷ port), length-append host (colon ∷ port'), l))
]

-- The text of a host and a number begins with ink when the host does, and ends in a digit.
pub join_host_port-ends :
    (c : ℕ) (host t : List ℕ) (d : ℕ)
    → (x : ℕ) × (s : List ℕ) × (u : List ℕ) × (join_host_port (c ∷ host) (t ++ (d ∷ [])) ≡ x ∷ s)
      × (x ∷ s ≡ u ++ (d ∷ []))
      × ((x ≡ open_bracket) ⊎ (x ≡ c))
unfolding join_host_port
join_host_port-ends c host t d = elim (Bool-cases (contains colon (c ∷ host))) [
  | inl colons ↦
      let u = open_bracket ∷ ((c ∷ host) ++ (close_bracket ∷ colon ∷ t)) in
      (
        open_bracket,
        (c ∷ host) ++ (close_bracket ∷ colon ∷ (t ++ (d ∷ []))),
        u,
        rw colons refl,
        ap (λ k. open_bracket ∷ k)
            (sym (append_assoc (c ∷ host) (close_bracket ∷ colon ∷ t) (d ∷ []))),
        inl refl,
      )
  | inr plain ↦ (
    c,
    host ++ (colon ∷ (t ++ (d ∷ []))),
    (c ∷ host) ++ (colon ∷ t),
    rw plain refl,
    sym (append_assoc (c ∷ host) (colon ∷ t) (d ∷ [])),
    inr refl,
  )
]

pub length-join_pos : (host port : List ℕ) → 1 ≤ length (join_host_port host port)
unfolding join_host_port
length-join_pos host port = elim (Bool-cases (contains colon host)) [
  | inl colons ↦ rw colons (omega arith)
  | inr plain ↦ rw plain (omega (arith, length-append host (colon ∷ port)))
]
