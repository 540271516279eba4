-- ===== src/Net/Accepted.antt =====
-- What SplitHostPort of net accepts.
use niulang.Prelude.{
  ℕ, suc, ◌+◌, ◌≤◌, ◌<◌, ◌≡◌, ◌≢◌, refl, sym, ap, ◌∙◌, arith, Bool, true, false, Option, none, some,
  List, [], ◌∷◌, ◌++◌, ◌==◌, if◌then◌else◌, length, drop, length-append, All, All-front, Bool-cases,
  inl, inr, Result, ok, err,
}
use niulang.Net.{
  colon, open_bracket, close_bracket, contains, starts_with, cut_first, cut_last, AddrError,
  missing_port, too_many_colons, missing_bracket, unexpected_open, unexpected_close, no_brackets,
  split_bracketed, split_at, split_host_port, join_host_port,
}
use niulang.Net.Text.{contains-append, cut_last-some, cut_first-some}
use mathlib.Core.Path.{subst}
use niulang.Net.HostPort.{IsHost}

-- What SplitHostPort takes apart: the host has no brackets, and what was around it was at most a pair
-- of them.
pub record Split (hp host port : List ℕ) : Type 0 where
  pub is_host : IsHost host
  pub size : length (join_host_port host port) ≤ length hp
  pub found : All (λ c. c < 128) hp → All (λ c. c < 128) host

ok-pair :
    (a b a' b' : List ℕ)
    → (let t : Result AddrError (List ℕ × List ℕ) = ok (a, b) in t ≡ ok (a', b'))
    → (a ≡ a') × (b ≡ b')
ok-pair a b a' b' h =
    let get : Result AddrError (List ℕ × List ℕ) → List ℕ × List ℕ =
      λ o. elim o as (λ _. List ℕ × List ℕ) [ ok t ↦ t | err e ↦ (a, b) ] in
    (ap (λ o. (get o).0) h, ap (λ o. (get o).1) h)

err-ok :
    (e : AddrError) (t : List ℕ × List ℕ)
    → (let r : Result AddrError (List ℕ × List ℕ) = err e in r ≢ ok t)
err-ok e t h = absurd (cc)

no_brackets-cases :
    (host opening closing port host' port' : List ℕ)
    → no_brackets host opening closing port ≡ ok (host', port')
    → (contains open_bracket opening ≡ false)
      × (contains close_bracket closing ≡ false)
      × (host ≡ host')
      × (port ≡ port')
no_brackets-cases host opening closing port host' port' e =
    let second : Bool → Result AddrError (List ℕ × List ℕ) =
      λ b. if b then err unexpected_close else ok (host, port) in
    let first : Bool → Result AddrError (List ℕ × List ℕ) =
      λ b. if b then err unexpected_open else second (contains close_bracket closing) in
    elim (Bool-cases (contains open_bracket opening)) [
      | inl opened ↦ absurd (err-ok unexpected_open (host', port') (ap first (sym opened) ∙ e))
      | inr o ↦
          let e' : second (contains close_bracket closing) ≡ ok (host', port') =
            ap first (sym o) ∙ e in
          elim (Bool-cases (contains close_bracket closing)) [
            | inl closed ↦
                absurd (err-ok unexpected_close (host', port') (ap second (sym closed) ∙ e'))
            | inr c ↦
                let (h, p) = ok-pair host port host' port' (ap second (sym c) ∙ e') in (o, c, h, p)
          ]
    ]

contains-front : (c : ℕ) (xs ys : List ℕ) → contains c (xs ++ ys) ≡ false → contains c xs ≡ false
contains-front c xs ys h = elim (Bool-cases (contains c xs)) [
  | inr none_here ↦ none_here
  | inl some_here ↦ absurd (ground (arith, contains-append c xs ys, some_here, h))
]

length-join_host_port :
    (host port : List ℕ) → length (join_host_port host port) ≤ length host + length port + 3
unfolding join_host_port
length-join_host_port host port = elim (Bool-cases (contains colon host)) [
  | inl colons ↦ rw colons (omega (arith, length-append host (close_bracket ∷ colon ∷ port)))
  | inr plain ↦ rw plain (omega (arith, length-append host (colon ∷ port)))
]

plain-Split :
    (hp before port host' port' : List ℕ)
    → hp ≡ before ++ (colon ∷ port)
    → contains colon before ≡ false
    → no_brackets before hp hp port ≡ ok (host', port')
    → Split hp host' port'
unfolding join_host_port
plain-Split hp before port host' port' apart plain e =
    let (o, c, h, p) = no_brackets-cases before hp hp port host' port' e in
    let front : (k : ℕ) → contains k hp ≡ false → contains k host' ≡ false = λ k q.
      ap (contains k) (sym h)
      ∙ contains-front k before (colon ∷ port) (ap (contains k) (sym apart) ∙ q) in
    let alone : contains colon host' ≡ false = ap (contains colon) (sym h) ∙ plain in
    let same : length hp ≡ length host' + suc (length port') =
      ap length apart
      ∙ length-append before (colon ∷ port)
      ∙ ap (λ t. length t + suc (length port)) h
      ∙ ap (λ t. length host' + suc (length t)) p in
    record {
      is_host = record { opens = front open_bracket o; closes = front close_bracket c };
      size = rw alone (omega (arith, same, length-append host' (colon ∷ port')));
      found = λ a.
          subst (All (λ c. c < 128)) h
            (All-front (λ c. c < 128) before (colon ∷ port) (subst (All (λ c. c < 128)) apart a));
    }

closing-opens : (a : List ℕ) → starts_with open_bracket (close_bracket ∷ a) ≢ true
closing-opens a h = absurd (cc)

bracketed-Split :
    (hp before port b a host' port' : List ℕ)
    → hp ≡ before ++ (colon ∷ port)
    → hp ≡ b ++ (close_bracket ∷ a)
    → contains close_bracket b ≡ false
    → starts_with open_bracket hp ≡ true
    → length b + 1 ≡ length before
    → no_brackets (drop 1 b) (drop 1 hp) a port ≡ ok (host', port')
    → Split hp host' port'
unfolding contains
bracketed-Split hp before port [] a host' port' apart closing free starts whole e =
    absurd (closing-opens a (sym (ap (starts_with open_bracket) closing) ∙ starts))
bracketed-Split hp before port (y ∷ b) a host' port' apart closing free starts whole e =
    let (o, c, h, p) = no_brackets-cases b (drop 1 hp) a port host' port' e in
    let o' = ap (λ t. contains open_bracket (drop 1 t)) (sym closing) ∙ o in
    let same : length hp ≡ length before + suc (length port) =
      ap length apart ∙ length-append before (colon ∷ port) in
    let sizes : (length b ≡ length host') × (length port ≡ length port') =
      (ap length h, ap length p) in
    record {
      is_host = record {
        opens =
            ap (contains open_bracket) (sym h)
            ∙ contains-front open_bracket b (close_bracket ∷ a) o';
        closes = ap (contains close_bracket) (sym h) ∙ ground (arith, free);
      };
      size = omega (arith, same, whole, sizes.0, sizes.1, length-join_host_port host' port');
      found = λ all. subst (All (λ c. c < 128)) h (
          All-front (λ c. c < 128) b (close_bracket ∷ a)
            (subst (All (λ c. c < 128)) closing all).1);
    }

split_bracketed-Split :
    (hp before port host' port' : List ℕ) (o : Option (List ℕ × List ℕ))
    → hp ≡ before ++ (colon ∷ port)
    → cut_first close_bracket hp ≡ o
    → starts_with open_bracket hp ≡ true
    → split_bracketed hp before port o ≡ ok (host', port')
    → Split hp host' port'
split_bracketed-Split hp before port host' port' none apart first starts e =
    absurd (err-ok missing_bracket (host', port') e)
split_bracketed-Split hp before port host' port' (some (b, a)) apart first starts e =
    let (closing, free) = cut_first-some close_bracket hp b a first in
    let Answer = Result AddrError (List ℕ × List ℕ) in
    let third : Bool → Answer = λ t. if t then err too_many_colons else err missing_port in
    let second : Bool → Answer =
      λ t. if t then no_brackets (drop 1 b) (drop 1 hp) a port else third (starts_with colon a) in
    let outer : Bool → Answer =
      λ t. if t then err missing_port else second (length b + 1 == length before) in
    elim (Bool-cases (length a == 0)) [
      | inl nothing ↦ absurd (err-ok missing_port (host', port') (ap outer (sym nothing) ∙ e))
      | inr some_text ↦
          let e' : second (length b + 1 == length before) ≡ ok (host', port') =
            ap outer (sym some_text) ∙ e in
          elim (Bool-cases (length b + 1 == length before)) [
            | inl whole ↦
                bracketed-Split hp before port b a host' port' apart closing free starts
                  (ground (arith, whole)) (ap second (sym whole) ∙ e')
            | inr partly ↦
                let e'' : third (starts_with colon a) ≡ ok (host', port') =
                  ap second (sym partly) ∙ e' in
                elim (Bool-cases (starts_with colon a)) [
                  | inl more ↦
                      absurd (err-ok too_many_colons (host', port') (ap third (sym more) ∙ e''))
                  | inr other ↦
                      absurd (err-ok missing_port (host', port') (ap third (sym other) ∙ e''))
                ]
          ]
    ]

split_at-Split :
    (hp host' port' : List ℕ) (o : Option (List ℕ × List ℕ))
    → cut_last colon hp ≡ o
    → split_at hp o ≡ ok (host', port')
    → Split hp host' port'
split_at-Split hp host' port' none last e = absurd (err-ok missing_port (host', port') e)
split_at-Split hp host' port' (some (before, port)) last e =
    let (apart, free) = cut_last-some colon hp before port last in
    let Answer = Result AddrError (List ℕ × List ℕ) in
    let plain : Bool → Answer =
      λ t. if t then err too_many_colons else no_brackets before hp hp port in
    let outer : Bool → Answer = λ t.
      if t
      then split_bracketed hp before port (cut_first close_bracket hp)
      else plain (contains colon before) in
    elim (Bool-cases (starts_with open_bracket hp)) [
      | inl starts ↦
          split_bracketed-Split hp before port host' port' (cut_first close_bracket hp) apart refl
            starts (ap outer (sym starts) ∙ e)
      | inr other ↦
          let e' : plain (contains colon before) ≡ ok (host', port') = ap outer (sym other) ∙ e in
          elim (Bool-cases (contains colon before)) [
            | inl colons ↦
                absurd (err-ok too_many_colons (host', port') (ap plain (sym colons) ∙ e'))
            | inr alone ↦
                plain-Split hp before port host' port' apart alone (ap plain (sym alone) ∙ e')
          ]
    ]

pub split_host_port-Split :
    (hp host port : List ℕ) → split_host_port hp ≡ ok (host, port) → Split hp host port
unfolding split_host_port
split_host_port-Split hp host port e = split_at-Split hp host port (cut_last colon hp) refl e
