-- ===== src/Net.antt =====
-- What the packages of internal use of Go's standard library for the text of addresses: JoinHostPort
-- and SplitHostPort of net, Itoa and Atoi of strconv. A string is the list of its bytes. The texts of
-- IP addresses, net.IP.String and net.ParseIP, are the interface `Addresses`.
pub mod Text
pub mod Decimal
pub mod HostPort
pub mod Accepted
pub mod Space
pub mod Io
use niulang.Prelude.{
  ℕ, zero, suc, ◌+◌, ◌-◌, ◌*◌, ◌/◌, ◌%◌, ◌^◌, ◌≡◌, Bool, true, false, not, ◌&&◌, ◌||◌, Option, none,
  some, List, [], ◌∷◌, ◌++◌, ltb, leb, ◌==◌, if◌then◌else◌, length, drop, Result, ok, err,
}

-- ':', '[' and ']'.
abbrev pub colon : ℕ
colon = 58

abbrev pub open_bracket : ℕ
open_bracket = 91

abbrev pub close_bracket : ℕ
close_bracket = 93

unfoldable pub contains : ℕ → List ℕ → Bool
contains c [] = false
contains c (x ∷ xs) = x == c || contains c xs

abbrev pub starts_with : ℕ → List ℕ → Bool
starts_with c [] = false
starts_with c (x ∷ xs) = x == c

-- What is before and behind the first, or the last, place of a byte.
abbrev pub behind : ℕ → Option (List ℕ × List ℕ) → Option (List ℕ × List ℕ)
behind x none = none
behind x (some (b, a)) = some (x ∷ b, a)

unfoldable pub cut_first : ℕ → List ℕ → Option (List ℕ × List ℕ)
cut_first c [] = none
cut_first c (x ∷ xs) = let rest = cut_first c xs in if x == c then some ([], xs) else behind x rest

abbrev pub here_or_behind : ℕ → ℕ → List ℕ → Option (List ℕ × List ℕ) → Option (List ℕ × List ℕ)
here_or_behind c x xs none = if x == c then some ([], xs) else none
here_or_behind c x xs (some (b, a)) = some (x ∷ b, a)

unfoldable pub cut_last : ℕ → List ℕ → Option (List ℕ × List ℕ)
cut_last c [] = none
cut_last c (x ∷ xs) = here_or_behind c x xs (cut_last c xs)

-- The AddrError of net.SplitHostPort.
pub data AddrError : Type 0 where
  missing_port : AddrError
  too_many_colons : AddrError
  missing_bracket : AddrError
  unexpected_open : AddrError
  unexpected_close : AddrError

abbrev pub no_brackets : List ℕ → List ℕ → List ℕ → List ℕ → Result AddrError (List ℕ × List ℕ)
no_brackets host opening closing port =
    if contains open_bracket opening
    then err unexpected_open
    else if contains close_bracket closing
    then err unexpected_close
    else ok (host, port)

abbrev pub split_bracketed :
    List ℕ → List ℕ → List ℕ → Option (List ℕ × List ℕ) → Result AddrError (List ℕ × List ℕ)
split_bracketed hp before port none = err missing_bracket
split_bracketed hp before port (some (b, a)) =
    if length a == 0
    then err missing_port
    else if length b + 1 == length before
    then no_brackets (drop 1 b) (drop 1 hp) a port
    else if starts_with colon a
    then err too_many_colons
    else err missing_port

abbrev pub split_at : List ℕ → Option (List ℕ × List ℕ) → Result AddrError (List ℕ × List ℕ)
split_at hp none = err missing_port
split_at hp (some (before, port)) =
    if starts_with open_bracket hp
    then split_bracketed hp before port (cut_first close_bracket hp)
    else if contains colon before
    then err too_many_colons
    else no_brackets before hp hp port

unfoldable pub split_host_port : List ℕ → Result AddrError (List ℕ × List ℕ)
split_host_port hp = split_at hp (cut_last colon hp)

unfoldable pub join_host_port : List ℕ → List ℕ → List ℕ
join_host_port host port =
    if contains colon host
    then open_bracket ∷ (host ++ (close_bracket ∷ colon ∷ port))
    else host ++ (colon ∷ port)

-- strconv.Itoa of a number that is not negative, of at most `k` digits.
unfoldable pub digits : ℕ → ℕ → List ℕ
digits zero n = []
digits (suc k) n =
    let rest = digits k (n / 10) in if ltb n 10 then (48 + n) ∷ [] else rest ++ ((48 + n % 10) ∷ [])

-- A Go int has no more than nineteen digits.
unfoldable pub itoa : ℕ → List ℕ
itoa n = digits 20 n

-- A Go int, of 64 bits.
pub data ℤ : Type 0 where
  pos : ℕ → ℤ
  negsuc : ℕ → ℤ

unfoldable pub parse_digits : ℕ → List ℕ → Option ℕ
parse_digits acc [] = some acc
parse_digits acc (c ∷ cs) =
    let rest = parse_digits (acc * 10 + (c - 48)) cs in if leb 48 c && leb c 57 then rest else none

abbrev pub positive : Option ℕ → Option ℤ
positive none = none
positive (some m) = if ltb m (2 ^ 63) then some (pos m) else none

abbrev pub negative : Option ℕ → Option ℤ
negative none = none
negative (some zero) = some (pos 0)
negative (some (suc m)) = if ltb m (2 ^ 63) then some (negsuc m) else none

abbrev pub some_digits : List ℕ → Option ℕ
some_digits [] = none
some_digits (c ∷ cs) = parse_digits 0 (c ∷ cs)

-- strconv.Atoi, without its errors' texts. '+' is 43 and '-' is 45.
unfoldable pub atoi : List ℕ → Option ℤ
atoi [] = none
atoi (c ∷ cs) =
    if c == 43
    then positive (some_digits cs)
    else if c == 45
    then negative (some_digits cs)
    else positive (some_digits (c ∷ cs))

-- `port < 1 || port > 65535` fails, for the number that Atoi returned.
abbrev pub port_number : Option ℤ → Option ℕ
port_number none = none
port_number (some (negsuc m)) = none
port_number (some (pos p)) = if leb 1 p && leb p 65535 then some p else none

-- net.IP.String of four or sixteen bytes, and net.ParseIP with To4 and To16: the four bytes of an
-- IPv4 address or of an IPv6 address that maps one, otherwise sixteen.
pub record Addresses : Type 0 where
  pub string : List ℕ → List ℕ
  pub parse : List ℕ → Option (List ℕ)
