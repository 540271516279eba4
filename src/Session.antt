-- ===== src/Session.antt =====
-- The UDP resume payloads of internal/session/packet.go, and the association marker beside them. A
-- token is a list of bytes; nil and the empty slice are the empty list.
pub mod Resume
pub mod Destination
pub mod Packets
mod Examples
use niulang.Prelude.{
  ℕ, ◌+◌, Bool, true, false, not, ◌&&◌, ◌||◌, Option, none, some, List, [], ◌∷◌, ◌++◌, ltb, leb,
  ◌==◌, if◌then◌else◌, length, take, drop, get_or, Result, ok, err,
}

-- `string(a) == string(b)`
pub equal_bytes : List ℕ → List ℕ → Bool
equal_bytes [] [] = true
equal_bytes (x ∷ xs) (y ∷ ys) = x == y && equal_bytes xs ys
equal_bytes _ _ = false

-- "WOUD" and a version.
abbrev pub udp_association_marker : List ℕ
udp_association_marker = 87 ∷ 79 ∷ 85 ∷ 68 ∷ 1 ∷ []

abbrev pub udp_resume_marker : List ℕ
udp_resume_marker = 87 ∷ 79 ∷ 85 ∷ 68 ∷ 2 ∷ []

abbrev pub udp_resume_token_size : ℕ
udp_resume_token_size = 16

pub is_udp_association : List ℕ → Bool
is_udp_association payload = equal_bytes payload udp_association_marker

pub data ResumeError : Type 0 where
  token_size : ℕ → ResumeError

pub encode_udp_resume_open : List ℕ → Result ResumeError (List ℕ)
encode_udp_resume_open token =
    if not (length token == 0) && not (length token == udp_resume_token_size)
    then err (token_size (length token))
    else ok (udp_resume_marker ++ token)

pub decode_udp_resume_open : List ℕ → Option (List ℕ)
decode_udp_resume_open payload =
    let n = length udp_resume_marker in
    let rest = drop n payload in
    if ltb (length payload) n || not (equal_bytes (take n payload) udp_resume_marker)
    then none
    else if length rest == 0
    then some []
    else if length rest == udp_resume_token_size
    then some rest
    else none

pub encode_udp_resume_grant : Bool → List ℕ → List ℕ
encode_udp_resume_grant resumed token = (if resumed then 1 else 0) ∷ token

pub decode_udp_resume_grant : List ℕ → Option (Bool × List ℕ)
decode_udp_resume_grant payload =
    if not (length payload == 1 + udp_resume_token_size) || ltb 1 (get_or payload 0 0)
    then none
    else some (get_or payload 0 0 == 1, drop 1 payload)
