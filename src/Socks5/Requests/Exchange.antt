-- ===== src/Socks5/Requests/Exchange.antt =====
-- The whole sub-negotiation of internal/socks5/socks5.go.
use niulang.Prelude.{
  ℕ, ◌≤◌, ◌≡◌, ◌↔◌, refl, sym, ap, ◌∙◌, arith, Bool, true, false, List, [], ◌∷◌, ◌++◌, ◌==◌,
  if◌then◌else◌, length, get_or, Result, ok, err,
}
use niulang.Net.Io.{Conn, Io, and_then, ◌>>=◌, read_full, read_full-append}
use niulang.Socks5.{
  user_pass_version, user_pass_success, user_pass_failure, same_error, Error, read_authentication,
  read_username, read_password_length, read_password, write_authentication, empty_username,
  rejected, Credentials, write_full, matches,
}
use niulang.Socks5.Writes.{write_full-append}
use niulang.Socks5.Requests.{refuse, check_password, read_user_pass, check_prefix, authenticate}
use niulang.Socks5.Requests.Accepts.{matches-eq, matches_refl}

-- The second byte of the reply to a pair, and how the sub-negotiation ends.
abbrev pub status : Bool → ℕ
status right = if right then user_pass_success else user_pass_failure

abbrev pub verdict : Bool → Result Error (Unit {0})
verdict right = if right then ok tt else err rejected

abbrev after : Conn → List ℕ → Bool → Result Error (Unit {0}) × Conn
after c rest right = (
  verdict right,
  record c {
    input = rest;
    calls = [];
    output = c.output ++ (user_pass_version ∷ status right ∷ []);
  },
)

check_password-after :
    (cr : Credentials) (u p : List ℕ) (c : Conn) (right : Bool)
    → c.calls ≡ []
    → matches cr u p ≡ right
    → check_password cr u p c ≡ after c c.input right
check_password-after cr u p c true h m =
    ap
      (λ b.
        (if b
            then write_full write_authentication (user_pass_version ∷ user_pass_success ∷ [])
            else refuse rejected)
          c)
      m
    ∙ write_full-append write_authentication (user_pass_version ∷ user_pass_success ∷ []) c h
check_password-after cr u p c false h m =
    ap
      (λ b.
        (if b
            then write_full write_authentication (user_pass_version ∷ user_pass_success ∷ [])
            else refuse rejected)
          c)
      m
    ∙ ap (λ r. (let t : Result Error (Unit {0}) × Conn = (err rejected, r.1) in t))
        (write_full-append same_error (user_pass_version ∷ user_pass_failure ∷ []) c h)

read_user_pass-after :
    (cr : Credentials) (u p rest : List ℕ) (c : Conn)
    → c.input ≡ u ++ (length p ∷ (p ++ rest))
    → c.calls ≡ []
    → read_user_pass cr (length u) c ≡ after c rest (matches cr u p)
read_user_pass-after cr u p rest c e h =
    let c1 = record c { input = length p ∷ (p ++ rest) } in
    let c2 = record c { input = p ++ rest } in
    let c3 = record c { input = rest } in
    let third : List ℕ → Io Error (Unit {0}) = λ pw. check_password cr u pw in
    let second : List ℕ → List ℕ → Io Error (Unit {0}) =
      λ name l. read_full read_password (get_or l 0 0) >>= λ pw. check_password cr name pw in
    let first : List ℕ → Io Error (Unit {0}) =
      λ name. read_full read_password_length 1 >>= λ l. second name l in
    ap (λ r. and_then r first)
      (read_full-append read_username (length u) u (length p ∷ (p ++ rest)) c e refl)
    ∙ ap (λ r. and_then r (second u))
        (read_full-append read_password_length 1 (length p ∷ []) (p ++ rest) c1 refl refl)
    ∙ ap (λ r. and_then r third) (read_full-append read_password (length p) p rest c2 refl refl)
    ∙ check_password-after cr u p c3 (matches cr u p) h refl

-- A client that sends a username, which is not empty, and a password is read to the end of them, and
-- gets one reply: success and no error exactly when both are those of the listener, otherwise failure
-- and the error `rejected`. The writer takes what it is given.
pub authenticate-after :
    (cr : Credentials) (u p rest : List ℕ) (c : Conn)
    → c.input ≡ user_pass_version ∷ length u ∷ (u ++ (length p ∷ (p ++ rest)))
    → 1 ≤ length u
    → c.calls ≡ []
    → (right : Bool) × ((right ≡ true) ↔ ((cr.username ≡ u) × (cr.password ≡ p)))
      × (authenticate cr c ≡ (
        verdict right,
        record c {
          input = rest;
          calls = [];
          output = c.output ++ (user_pass_version ∷ status right ∷ []);
        },
      ))
unfolding authenticate
authenticate-after cr u p rest c e named h =
    let more = u ++ (length p ∷ (p ++ rest)) in
    let c1 = record c { input = more } in
    let some_name : (length u == 0) ≡ false = ground (arith, named) in
    (
      matches cr u p,
      (
        λ m. matches-eq cr u p m,
        λ same.
            ap (matches cr u) (sym same.1)
            ∙ ap (λ k. matches cr k cr.password) (sym same.0)
            ∙ matches_refl cr,
      ),
      ap (λ r. and_then r (check_prefix cr))
            (read_full-append read_authentication 2 (user_pass_version ∷ length u ∷ []) more c e
              refl)
          ∙ ap (λ b. (if b then refuse empty_username else read_user_pass cr (length u)) c1)
              some_name
          ∙ read_user_pass-after cr u p rest c1 refl h,
    )
