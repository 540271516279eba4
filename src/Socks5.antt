-- ===== src/Socks5.antt =====
-- The SOCKS5 surface of internal/socks5/socks5.go. A connection is that of Net.Io, the texts of IP
-- addresses are those of the interface Addresses, and an error is the constructor of `Error` for its
-- message.
pub mod Writes
pub mod Requests
pub mod Datagrams
mod Examples
use niulang.Prelude.{
  ℕ, ◌+◌, ◌%◌, ◌^◌, Bool, true, false, not, ◌&&◌, ◌||◌, Option, none, some, List, [], ◌∷◌, ◌++◌,
  ltb, leb, ◌==◌, if◌then◌else◌, length, take, drop, get_or, replicate, put_be, get_be, Result, ok,
  err,
}
use niulang.Net.{
  Addresses, AddrError, contains, split_host_port, join_host_port, itoa, atoi, port_number,
}
use niulang.Net.Io.{
  Conn, IoError, write_failed, short_write, Io, ◌>>=◌, ◌>>◌, give, fail, require, quietly, recover,
  read_full, write,
}
use niulang.Protocol.Frames.{Write}

abbrev pub version5 : ℕ
version5 = 5

abbrev pub method_none : ℕ
method_none = 0

abbrev pub method_user_pass : ℕ
method_user_pass = 2

abbrev pub method_none_acceptable : ℕ
method_none_acceptable = 255

abbrev pub user_pass_version : ℕ
user_pass_version = 1

abbrev pub user_pass_success : ℕ
user_pass_success = 0

abbrev pub user_pass_failure : ℕ
user_pass_failure = 1

abbrev pub max_user_pass_field_length : ℕ
max_user_pass_field_length = 255

abbrev pub command_connect : ℕ
command_connect = 1

abbrev pub command_udp_associate : ℕ
command_udp_associate = 3

abbrev pub reply_command_not_supported : ℕ
reply_command_not_supported = 7

abbrev pub reply_address_type_unsupported : ℕ
reply_address_type_unsupported = 8

pub data Error : Type 0 where
  empty_username long_username long_password : Error
  read_greeting read_methods write_selection read_authentication read_username : IoError → Error
  read_password_length read_password write_authentication read_header read_port : IoError → Error
  read_ipv4 read_domain_length read_domain read_ipv6 write_packet : IoError → Error
  invalid_greeting no_user_pass no_none authentication_version rejected invalid_header : Error
  only_connect_and_associate port_zero empty_domain address_type : Error
  datagram_length reserved_bytes fragmented truncated invalid_domain : Error
  payload_too_long invalid_destination invalid_port domain_length : Error

pub record Request : Type 0 where
  pub command : ℕ
  pub destination : List ℕ

pub record Credentials : Type 0 where
  pub username : List ℕ
  pub password : List ℕ

-- The loop of writeFull over the calls that are listed; behind them a call takes everything.
pub write_calls : List Write → List ℕ → List ℕ → Result IoError (Unit {0}) × List Write × List ℕ
write_calls calls out [] = (ok tt, calls, out)
write_calls [] out (b ∷ p) = (ok tt, [], out ++ (b ∷ p))
write_calls (w ∷ calls) out (b ∷ p) =
    let taken = out ++ take w.count (b ∷ p) in
    let rest = write_calls calls taken (drop w.count (b ∷ p)) in
    if w.failed
    then (err write_failed, calls, taken)
    else if w.count == 0
    then (err short_write, calls, taken)
    else rest

abbrev pub written :
    {E : Type 0}
    → (IoError → E)
    → Conn
    → Result IoError (Unit {0}) × List Write × List ℕ
    → Result E (Unit {0}) × Conn
written wrap c (ok u, calls, output) = (ok u, record c { calls = calls; output = output })
written wrap c (err e, calls, output) = (err (wrap e), record c { calls = calls; output = output })

pub write_full : {E : Type 0} → (IoError → E) → List ℕ → Io E (Unit {0})
write_full wrap p c = written wrap c (write_calls c.calls c.output p)

abbrev pub same_error : IoError → IoError
same_error e = e

pub write_method_unavailable : Io IoError (Unit {0})
write_method_unavailable = write_full same_error (version5 ∷ method_none_acceptable ∷ [])

-- Credentials.Validate; `none` is the nil pointer.
pub validate : Option Credentials → Io Error (Unit {0})
validate none = give tt
validate (some c) =
    if length c.username == 0
    then fail empty_username
    else if ltb max_user_pass_field_length (length c.username)
    then fail long_username
    else if ltb max_user_pass_field_length (length c.password)
    then fail long_password
    else give tt

-- subtle.ConstantTimeCompare.
pub constant_time_compare : List ℕ → List ℕ → Bool
constant_time_compare [] [] = true
constant_time_compare (x ∷ xs) (y ∷ ys) = let rest = constant_time_compare xs ys in x == y && rest
constant_time_compare [] (y ∷ ys) = false
constant_time_compare (x ∷ xs) [] = false

pub matches : Credentials → List ℕ → List ℕ → Bool
matches c username password =
    let user = constant_time_compare c.username username in
    let pass = constant_time_compare c.password password in user && pass

-- net.IP.To4 and To16.
abbrev pub mapped_prefix : List ℕ
mapped_prefix = replicate 10 0 ++ (255 ∷ 255 ∷ [])

pub to4 : List ℕ → Option (List ℕ)
to4 ip =
    if length ip == 4
    then some ip
    else if length ip == 16 && constant_time_compare (take 12 ip) mapped_prefix
    then some (drop 12 ip)
    else none

pub to16 : List ℕ → Option (List ℕ)
to16 ip =
    if length ip == 4 then some (mapped_prefix ++ ip) else if length ip == 16 then some ip else none

-- What the net.Addr of a TCP or UDP socket holds; `none` is a nil pointer or another address.
pub record Bound : Type 0 where
  pub ip : List ℕ
  pub port : ℕ

abbrev pub zeros_or : Option (List ℕ) → List ℕ
zeros_or none = replicate 16 0
zeros_or (some ip) = ip

abbrev pub bound_reply : ℕ → Bound → List ℕ
bound_reply code b = elim (to4 b.ip) [
  | some ip4 ↦ version5 ∷ code ∷ 0 ∷ 1 ∷ (ip4 ++ put_be 2 (b.port % 2 ^ 16))
  | none ↦ version5 ∷ code ∷ 0 ∷ 4 ∷ (zeros_or (to16 b.ip) ++ put_be 2 (b.port % 2 ^ 16))
]

abbrev pub bound_or_zero : Option Bound → Bound
bound_or_zero none = record { ip = mapped_prefix ++ replicate 4 0; port = 0 }
bound_or_zero (some b) = b

pub write_reply : ℕ → Option Bound → Io IoError (Unit {0})
write_reply code bound = write_full same_error (bound_reply code (bound_or_zero bound))
