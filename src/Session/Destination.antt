-- ===== src/Session/Destination.antt =====
-- EncodeDestination and DecodeDestination of internal/session/open.go.
pub mod Canonical
use niulang.Prelude.{
  ℕ, ◌≡◌, Bool, true, false, ◌||◌, Option, none, some, List, [], ◌∷◌, ltb, leb, ◌==◌, if◌then◌else◌,
  length, Result, ok, err, wrap,
}
use niulang.Net.{AddrError, split_host_port, join_host_port, itoa, atoi, port_number}
use niulang.Net.Space.{trim_space}

abbrev pub max_destination_length : ℕ
max_destination_length = 255

pub data DestinationError : Type 0 where
  bad_length not_host_port control_characters bad_port bad_payload_length : DestinationError
  invalid_destination : DestinationError → DestinationError

-- A byte of a rune that is at most ' ' or is DEL: such a rune is one byte long.
unfoldable pub has_control : List ℕ → Bool
has_control [] = false
has_control (c ∷ cs) = leb c 32 || c == 127 || has_control cs

abbrev pub encode_port : List ℕ → Option ℕ → Result DestinationError (List ℕ)
encode_port host none = err bad_port
encode_port host (some p) = ok (join_host_port host (itoa p))

abbrev pub encode_parts : Result AddrError (List ℕ × List ℕ) → Result DestinationError (List ℕ)
encode_parts (err e) = err not_host_port
encode_parts (ok (host, port)) =
    if length host == 0
    then err not_host_port
    else if has_control host
    then err control_characters
    else encode_port host (port_number (atoi port))

unfoldable pub encode_destination : List ℕ → Result DestinationError (List ℕ)
encode_destination destination =
    let d = trim_space destination in
    if length d == 0 || ltb max_destination_length (length d)
    then err bad_length
    else encode_parts (split_host_port d)

unfoldable pub decode_destination : List ℕ → Result DestinationError (List ℕ)
decode_destination payload =
    if length payload == 0 || ltb max_destination_length (length payload)
    then err bad_payload_length
    else wrap invalid_destination (encode_destination payload)
