-- ===== src/Socks5/Requests/Accepts.antt =====
-- What ReadRequest of internal/socks5/socks5.go has seen when it accepts a client.
use niulang.Prelude.{
  ℕ, ◌≡◌, ◌≢◌, refl, sym, ap, ◌∙◌, arith, Bool, true, false, not, ◌&&◌, Option, none, some, List,
  [], ◌∷◌, ◌++◌, ◌==◌, if◌then◌else◌, length, get_or, ok, Bool-cases, inl, inr,
}
use niulang.Net.{contains}
use niulang.Net.Io.{
  Conn, Io, require, read_full, and_then-ok, require-ok, give-ok, fail-ok, Reads, read_full-ok,
}
use niulang.Socks5.{
  version5, method_none, method_user_pass, user_pass_version, user_pass_success, Error,
  read_greeting, read_methods, write_selection, read_authentication, read_username,
  read_password_length, read_password, write_authentication, invalid_greeting,
  authentication_version, empty_username, rejected, Credentials, write_full, matches,
  constant_time_compare,
}
use niulang.Socks5.Writes.{
  Writes, write_full-ok, constant_time_compare-eq, constant_time_compare_refl, two_bytes, one_byte,
}
use niulang.Socks5.Requests.{
  refuse, check_password, read_user_pass, check_prefix, authenticate, required, accept_method,
  reject_method, select, negotiate_method,
}
use mathlib.Core.List.{append_assoc, append-nil}
use mathlib.Core.Path.{subst}

-- The bytes of the sub-negotiation for a pair.
abbrev pub user_pass : Credentials → List ℕ
user_pass c =
    user_pass_version ∷ length c.username ∷ (c.username ++ (length c.password ∷ c.password))

-- The bytes of a greeting.
abbrev pub greeting : List ℕ → List ℕ
greeting methods = version5 ∷ length methods ∷ methods

-- Bytes that were read, and bytes that were written.
pub record Exchanges (read sent : List ℕ) (c d : Conn) : Type 0 where
  pub input : c.input ≡ read ++ d.input
  pub output : d.output ≡ c.output ++ sent

Reads-Exchanges : {n : ℕ} {xs : List ℕ} {c d : Conn} → Reads n xs c d → Exchanges xs [] c d
Reads-Exchanges {c = c} r = record {
  input = r.input;
  output = r.output ∙ sym (append-nil c.output);
}

Writes-Exchanges : {p : List ℕ} {c d : Conn} → Writes p c d → Exchanges [] p c d
Writes-Exchanges w = record { input = sym w.input; output = w.output }

Exchanges-trans :
    {r r' s s' : List ℕ} {a b c : Conn}
    → Exchanges r s a b
    → Exchanges r' s' b c
    → Exchanges (r ++ r') (s ++ s') a c
Exchanges-trans {r} {r'} {s} {s'} {a} {b} {c} f g = record {
  input = f.input ∙ ap (λ t. r ++ t) g.input ∙ sym (append_assoc r r' c.input);
  output = g.output ∙ ap (λ t. t ++ s') f.output ∙ append_assoc a.output s s';
}

refuse-ok : {A : Type 0} (x : Error) (a : A) (c d : Conn) → refuse x c ≢ (ok a, d)
refuse-ok x a c d e = fail-ok x a _ d e

pub matches-eq :
    (cr : Credentials) (u p : List ℕ)
    → matches cr u p ≡ true
    → (cr.username ≡ u) × (cr.password ≡ p)
unfolding matches
matches-eq cr u p h =
    let same : (constant_time_compare cr.username u ≡ true)
        × (constant_time_compare cr.password p ≡ true) =
      both (constant_time_compare cr.username u) (constant_time_compare cr.password p) h in
    (constant_time_compare-eq cr.username u same.0, constant_time_compare-eq cr.password p same.1)
  where
    both : (a b : Bool) → a && b ≡ true → (a ≡ true) × (b ≡ true)
    both true true h = (refl, refl)
    both true false h = absurd (cc)
    both false b h = absurd (cc)

pub matches_refl : (cr : Credentials) → matches cr cr.username cr.password ≡ true
unfolding matches
matches_refl cr =
    ap (λ b. b && constant_time_compare cr.password cr.password)
      (constant_time_compare_refl cr.username)
    ∙ constant_time_compare_refl cr.password

check_password-ok :
    (cr : Credentials) (u p : List ℕ) (c d : Conn)
    → check_password cr u p c ≡ (ok tt, d)
    → (cr.username ≡ u)
      × (cr.password ≡ p)
      × Writes (user_pass_version ∷ user_pass_success ∷ []) c d
check_password-ok cr u p c d e =
    let good = write_full write_authentication (user_pass_version ∷ user_pass_success ∷ []) in
    let answer : Bool → Io Error (Unit {0}) = λ b. if b then good else refuse rejected in
    elim (Bool-cases (matches cr u p)) [
      | inr wrong ↦ absurd (refuse-ok rejected tt c d (ap (λ b. answer b c) (sym wrong) ∙ e))
      | inl right ↦
          let (eu, ep) = matches-eq cr u p right in
          (eu, ep, write_full-ok write_authentication _ c d (ap (λ b. answer b c) (sym right) ∙ e))
    ]

read_user_pass-ok :
    (cr : Credentials) (n : ℕ) (c d : Conn)
    → read_user_pass cr n c ≡ (ok tt, d)
    → (n ≡ length cr.username)
      × Exchanges
          (cr.username ++ (length cr.password ∷ cr.password))
          (user_pass_version ∷ user_pass_success ∷ [])
          c
          d
read_user_pass-ok cr n c d e =
    let (u, c1, e1, f1) = and_then-ok (read_full read_username n c) _ tt d e in
    let (l, c2, e2, f2) = and_then-ok (read_full read_password_length 1 c1) _ tt d f1 in
    let (p, c3, e3, f3) = and_then-ok (read_full read_password (get_or l 0 0) c2) _ tt d f2 in
    let r1 = read_full-ok read_username n c u c1 e1 in
    let r2 = read_full-ok read_password_length 1 c1 l c2 e2 in
    let r3 = read_full-ok read_password (get_or l 0 0) c2 p c3 e3 in
    let (eu, ep, w) = check_password-ok cr u p c3 d f3 in
    let number : l ≡ length cr.password ∷ [] =
      one_byte l r2.size ∙ ap (λ k. k ∷ []) (sym r3.size ∙ ap length (sym ep)) in
    let text : u ++ (l ++ (p ++ [])) ≡ cr.username ++ (length cr.password ∷ cr.password) =
      ap (λ k. u ++ (l ++ k)) (append-nil p ∙ sym ep)
      ∙ ap (λ k. u ++ (k ++ cr.password)) number
      ∙ ap (λ k. k ++ (length cr.password ∷ cr.password)) (sym eu) in
    (
      sym r1.size ∙ ap length (sym eu),
      subst (λ t. Exchanges t (user_pass_version ∷ user_pass_success ∷ []) c d) text
          (Exchanges-trans (Reads-Exchanges r1) (
            Exchanges-trans (Reads-Exchanges r2)
              (Exchanges-trans (Reads-Exchanges r3) (Writes-Exchanges w)))),
    )

check_prefix-ok :
    (cr : Credentials) (prefix : List ℕ) (c d : Conn)
    → check_prefix cr prefix c ≡ (ok tt, d)
    → (get_or prefix 0 0 ≡ user_pass_version)
      × (read_user_pass cr (get_or prefix 1 0) c ≡ (ok tt, d))
check_prefix-ok cr prefix c d e =
    let next = read_user_pass cr (get_or prefix 1 0) in
    let second : Bool → Io Error (Unit {0}) = λ b. if b then refuse empty_username else next in
    let first : Bool → Io Error (Unit {0}) =
      λ b. if b then refuse authentication_version else second (get_or prefix 1 0 == 0) in
    elim (Bool-cases (not (get_or prefix 0 0 == user_pass_version))) [
      | inl other ↦
          absurd (refuse-ok authentication_version tt c d (ap (λ b. first b c) (sym other) ∙ e))
      | inr right ↦
          let e' : second (get_or prefix 1 0 == 0) c ≡ (ok tt, d) =
            ap (λ b. first b c) (sym right) ∙ e in
          elim (Bool-cases (get_or prefix 1 0 == 0)) [
            | inl nameless ↦
                absurd (refuse-ok empty_username tt c d (ap (λ b. second b c) (sym nameless) ∙ e'))
            | inr named ↦ (ground (arith, right), ap (λ b. second b c) (sym named) ∙ e')
          ]
    ]

authenticate-ok :
    (cr : Credentials) (c d : Conn)
    → authenticate cr c ≡ (ok tt, d)
    → Exchanges (user_pass cr) (user_pass_version ∷ user_pass_success ∷ []) c d
unfolding authenticate
authenticate-ok cr c d e =
    let (prefix, c1, e1, f1) = and_then-ok (read_full read_authentication 2 c) _ tt d e in
    let r1 = read_full-ok read_authentication 2 c prefix c1 e1 in
    let (version, f2) = check_prefix-ok cr prefix c1 d f1 in
    let (size, rest) = read_user_pass-ok cr (get_or prefix 1 0) c1 d f2 in
    let front : prefix ≡ user_pass_version ∷ length cr.username ∷ [] =
      two_bytes prefix r1.size
      ∙ ap (λ k. k ∷ get_or prefix 1 0 ∷ []) version
      ∙ ap (λ k. user_pass_version ∷ k ∷ []) size in
    subst (λ t. Exchanges t (user_pass_version ∷ user_pass_success ∷ []) c d)
      (ap (λ t. t ++ (cr.username ++ (length cr.password ∷ cr.password))) front)
      (Exchanges-trans (Reads-Exchanges r1) rest)

-- The exchange that ends in a client that is let in, by what is required of it.
abbrev pub proof : Option Credentials → List ℕ
proof none = []
proof (some cr) = user_pass cr

abbrev pub answer : Option Credentials → List ℕ
answer none = version5 ∷ method_none ∷ []
answer (some cr) = version5 ∷ method_user_pass ∷ user_pass_version ∷ user_pass_success ∷ []

authenticated-ok :
    (o : Option Credentials) (c d : Conn)
    → accept_method o c ≡ (ok tt, d)
    → Exchanges (proof o) (answer o) c d
authenticated-ok none c d e =
    let (u, c1, e1, f1) =
      and_then-ok (write_full write_selection (version5 ∷ method_none ∷ []) c) _ tt d e in
    let w = write_full-ok write_selection (version5 ∷ method_none ∷ []) c c1 e1 in
    subst (Exchanges [] (version5 ∷ method_none ∷ []) c) (give-ok tt tt c1 d f1).1
      (Writes-Exchanges w)
authenticated-ok (some cr) c d e =
    let (u, c1, e1, f1) =
      and_then-ok (write_full write_selection (version5 ∷ method_user_pass ∷ []) c) _ tt d e in
    let w = write_full-ok write_selection (version5 ∷ method_user_pass ∷ []) c c1 e1 in
    Exchanges-trans (Writes-Exchanges w) (authenticate-ok cr c1 d f1)

select-ok :
    (o : Option Credentials) (methods : List ℕ) (c d : Conn)
    → select o methods c ≡ (ok tt, d)
    → (contains (required o) methods ≡ true) × Exchanges (proof o) (answer o) c d
select-ok o methods c d e =
    let way : Bool → Io Error (Unit {0}) = λ b. if b then accept_method o else reject_method o in
    elim (Bool-cases (contains (required o) methods)) [
      | inl offered ↦ (offered, authenticated-ok o c d (ap (λ b. way b c) (sym offered) ∙ e))
      | inr missing ↦ absurd (fail-ok _ tt _ d (ap (λ b. way b c) (sym missing) ∙ e))
    ]

pub negotiate_method-ok :
    (o : Option Credentials) (c d : Conn)
    → negotiate_method o c ≡ (ok tt, d)
    → (methods : List ℕ) × (contains (required o) methods ≡ true)
      × Exchanges (greeting methods ++ proof o) (answer o) c d
unfolding negotiate_method
negotiate_method-ok o c d e =
    let (g, c1, e1, f1) = and_then-ok (read_full read_greeting 2 c) _ tt d e in
    let (u, c2, e2, f2) =
      and_then-ok
        (require (get_or g 0 0 == version5 && not (get_or g 1 0 == 0)) invalid_greeting c1) _ tt d
        f1 in
    let (m, c3, e3, f3) = and_then-ok (read_full read_methods (get_or g 1 0) c2) _ tt d f2 in
    let r1 = read_full-ok read_greeting 2 c g c1 e1 in
    let (good, same) = require-ok _ invalid_greeting c1 c2 e2 in
    let r3 = read_full-ok read_methods (get_or g 1 0) c2 m c3 e3 in
    let (offered, rest) = select-ok o m c3 d f3 in
    let version : get_or g 0 0 ≡ version5 = ground (arith, good) in
    let front : g ≡ version5 ∷ length m ∷ [] =
      two_bytes g r1.size
      ∙ ap (λ k. k ∷ get_or g 1 0 ∷ []) version
      ∙ ap (λ k. version5 ∷ k ∷ []) (sym r3.size) in
    (
      m,
      offered,
      subst (λ t. Exchanges t (answer o) c d) (ap (λ t. t ++ (m ++ proof o)) front)
          (Exchanges-trans (subst (Exchanges g [] c) same (Reads-Exchanges r1))
            (Exchanges-trans (Reads-Exchanges r3) rest)),
    )
