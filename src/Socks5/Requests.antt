-- ===== src/Socks5/Requests.antt =====
-- ReadRequest of internal/socks5/socks5.go, with negotiateMethod, authenticate and readHost.
pub mod Accepts
pub mod Returned
pub mod Exchange
use niulang.Prelude.{
  ℕ, ◌≡◌, Bool, true, false, not, ◌&&◌, ◌||◌, Option, none, some, List, [], ◌∷◌, ltb, leb, ◌==◌,
  if◌then◌else◌, get_or, get_be,
}
use niulang.Net.{Addresses, contains, join_host_port, itoa}
use niulang.Net.Io.{
  Conn, IoError, Io, ◌>>=◌, ◌>>◌, give, fail, require, quietly, recover, read_full, write,
}
use niulang.Socks5.{
  version5, method_none, method_user_pass, method_none_acceptable, user_pass_version,
  user_pass_success, user_pass_failure, command_connect, command_udp_associate,
  reply_command_not_supported, reply_address_type_unsupported, Error, read_greeting, read_methods,
  write_selection, read_authentication, read_username, read_password_length, read_password,
  write_authentication, read_header, read_port, read_ipv4, read_domain_length, read_domain,
  read_ipv6, invalid_greeting, no_user_pass, no_none, authentication_version, empty_username,
  rejected, invalid_header, only_connect_and_associate, port_zero, empty_domain, address_type,
  Request, Credentials, write_full, same_error, validate, matches, write_reply,
}

-- A failure reply of the sub-negotiation; its own error is dropped.
abbrev pub refuse : {A : Type 0} → Error → Io Error A
refuse e = do quietly (write_full same_error (user_pass_version ∷ user_pass_failure ∷ [])); fail e

abbrev pub check_password : Credentials → List ℕ → List ℕ → Io Error (Unit {0})
check_password credentials username password =
    if matches credentials username password
    then write_full write_authentication (user_pass_version ∷ user_pass_success ∷ [])
    else refuse rejected

abbrev pub read_user_pass : Credentials → ℕ → Io Error (Unit {0})
read_user_pass credentials n = do
  username ← read_full read_username n
  password_length ← read_full read_password_length 1
  password ← read_full read_password (get_or password_length 0 0)
  check_password credentials username password

abbrev pub check_prefix : Credentials → List ℕ → Io Error (Unit {0})
check_prefix credentials prefix =
    if not (get_or prefix 0 0 == user_pass_version)
    then refuse authentication_version
    else if get_or prefix 1 0 == 0
    then refuse empty_username
    else read_user_pass credentials (get_or prefix 1 0)

unfoldable pub authenticate : Credentials → Io Error (Unit {0})
authenticate credentials = do
  prefix ← read_full read_authentication 2
  check_prefix credentials prefix

abbrev pub required : Option Credentials → ℕ
required none = method_none
required (some c) = method_user_pass

abbrev pub not_offered : Option Credentials → Error
not_offered none = no_none
not_offered (some c) = no_user_pass

abbrev pub authenticated : Option Credentials → Io Error (Unit {0})
authenticated none = give tt
authenticated (some c) = authenticate c

abbrev pub accept_method : Option Credentials → Io Error (Unit {0})
accept_method credentials =
    write_full write_selection (version5 ∷ required credentials ∷ []) >> authenticated credentials

abbrev pub reject_method : Option Credentials → Io Error (Unit {0})
reject_method credentials =
    quietly (write (version5 ∷ method_none_acceptable ∷ [])) >> fail (not_offered credentials)

-- The loop over the methods looks for the required one.
abbrev pub select : Option Credentials → List ℕ → Io Error (Unit {0})
select credentials methods =
    if contains (required credentials) methods
    then accept_method credentials
    else reject_method credentials

unfoldable pub negotiate_method : Option Credentials → Io Error (Unit {0})
negotiate_method credentials = do
  greeting ← read_full read_greeting 2
  require (get_or greeting 0 0 == version5 && not (get_or greeting 1 0 == 0)) invalid_greeting
  methods ← read_full read_methods (get_or greeting 1 0)
  select credentials methods

abbrev pub read_name : ℕ → Io Error (List ℕ)
read_name n = if n == 0 then fail empty_domain else read_full read_domain n

abbrev pub read_domain_name : Io Error (List ℕ)
read_domain_name = do n ← read_full read_domain_length 1; read_name (get_or n 0 0)

abbrev pub read_ip : Addresses → (IoError → Error) → ℕ → Io Error (List ℕ)
read_ip f wrap n = do ip ← read_full wrap n; give (f.string ip)

unfoldable pub read_host : Addresses → ℕ → Io Error (List ℕ)
read_host f type =
    if type == 1
    then read_ip f read_ipv4 4
    else if type == 3
    then read_domain_name
    else if type == 4
    then read_ip f read_ipv6 16
    else fail address_type

-- An error, behind a reply whose own error is dropped.
abbrev pub reply_and_fail : {A : Type 0} → ℕ → Error → Io Error A
reply_and_fail code e = do quietly (write_reply code none); fail e

abbrev pub finish_request : ℕ → List ℕ → ℕ → Io Error Request
finish_request command host port =
    if port == 0 && command == command_connect
    then reply_and_fail reply_address_type_unsupported port_zero
    else give (record { command = command; destination = join_host_port host (itoa port) })

abbrev pub read_destination : Addresses → ℕ → ℕ → Io Error Request
read_destination f command type = do
  host ← recover (read_host f type) (reply_and_fail reply_address_type_unsupported)
  port ← read_full read_port 2
  finish_request command host (get_be port)

abbrev pub check_command : Addresses → ℕ → ℕ → Io Error Request
check_command f command type =
    if not (command == command_connect) && not (command == command_udp_associate)
    then reply_and_fail reply_command_not_supported only_connect_and_associate
    else read_destination f command type

unfoldable pub read_request : Addresses → Option Credentials → Io Error Request
read_request f credentials = do
  validate credentials
  negotiate_method credentials
  header ← read_full read_header 4
  require (get_or header 0 0 == version5 && get_or header 2 0 == 0) invalid_header
  check_command f (get_or header 1 0) (get_or header 3 0)
