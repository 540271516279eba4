-- ===== src/Protocol.antt =====
-- internal/protocol/frame.go: the frame envelope of wire version 3. A byte slice is a list of
-- numbers; a field of the header keeps its width as a range, stated by `Fits`.
pub mod HeaderRoundTrip
pub mod HeaderCanonical
pub mod AckRanges
pub mod Frames
use niulang.Prelude.{
  ℕ, ◌+◌, ◌-◌, ◌*◌, ◌^◌, ◌<◌, ◌≡◌, Bool, ◌&&◌, ◌||◌, List, [], ◌∷◌, ◌++◌, leb, ◌==◌, length, get_or,
  take, drop, put_be, get_be, bit_and, bit_xor, All, IsByte, Result, ok, ◌>>=◌, ◌>>◌, ensure, wrap,
}

abbrev pub magic0 : ℕ
magic0 = b'W'

abbrev pub magic1 : ℕ
magic1 = b'O'

abbrev pub version : ℕ
version = 3

abbrev pub header_size : ℕ
header_size = 46

abbrev pub max_payload : ℕ
max_payload = 128 * 1024

abbrev pub flag_reserve_control : ℕ
flag_reserve_control = 2 ^ 5

abbrev pub flag_ack_ranges : ℕ
flag_ack_ranges = 2 ^ 7

-- FlagFin, FlagAckFinal, FlagAckUp, FlagAckDown and FlagCloseAbort are the bits 0 to 4.
abbrev pub known_flags : ℕ
known_flags = 2 ^ 0 + 2 ^ 1 + 2 ^ 2 + 2 ^ 3 + 2 ^ 4 + flag_reserve_control + flag_ack_ranges

-- `type Type byte` and `type Class byte`: a decoded byte may be any, so both are numbers.
abbrev pub type_open : ℕ
type_open = 1

abbrev pub type_join : ℕ
type_join = 3

abbrev pub type_ack : ℕ
type_ack = 5

abbrev pub type_packet : ℕ
type_packet = 8

abbrev pub class_bulk : ℕ
class_bulk = 2

pub record Header : Type 0 where
  pub version : ℕ
  pub type : ℕ
  pub flags : ℕ
  pub session_id : List ℕ
  pub flow_id : ℕ
  pub sequence : ℕ
  pub payload_len : ℕ
  pub class : ℕ

-- The widths of the Go fields: bytes, uint16, [16]byte, uint64, uint64, uint32.
pub record Fits (h : Header) : Type 0 where
  pub flags_u16 : h.flags < 2 ^ 16
  pub session_bytes : All IsByte h.session_id
  pub session_length : length h.session_id ≡ 16
  pub flow_u64 : h.flow_id < 2 ^ 64
  pub sequence_u64 : h.sequence < 2 ^ 64
  pub payload_u32 : h.payload_len < 2 ^ 32

pub data Error : Type 0 where
  short_buffer invalid_header payload_exceeds_limit unexpected_eof invalid_magic : Error
  unknown_flags reserved_bits eof short_write payload_mismatch : Error
  too_many_ranges empty_range misaligned_ranges unordered_ranges write_failed : Error
  unsupported_version : ℕ → Error
  unsupported_header : Error → Error

-- `(t Type) valid`
type_valid : ℕ → Bool
type_valid t = leb type_open t && leb t type_packet

-- `flags &^ knownFlags == 0`, on a uint16
only_known : ℕ → Bool
only_known flags = bit_and flags (bit_xor 0xffff known_flags) == 0

reserve_control_flag_valid : ℕ → ℕ → Bool
reserve_control_flag_valid t flags =
    bit_and flags flag_reserve_control == 0 || t == type_open || t == type_join

ack_ranges_flag_valid : ℕ → ℕ → Bool
ack_ranges_flag_valid t flags = bit_and flags flag_ack_ranges == 0 || t == type_ack

-- The forty-six bytes that `Encode` stores.
pub header_bytes : Header → List ℕ
header_bytes h =
    magic0
    ∷ magic1
    ∷ h.version
    ∷ h.type
    ∷ (put_be 2 h.flags
        ++ (h.session_id
            ++ (put_be 8 h.flow_id
                ++ (put_be 8 h.sequence
                    ++ (put_be 4 h.payload_len ++ (h.class ∷ 0 ∷ 0 ∷ 0 ∷ []))))))

-- `(h Header) Encode(dst)`; the result is `dst` afterwards.
pub encode : Header → List ℕ → Result Error (List ℕ)
encode h dst = do
  ensure (leb header_size (length dst)) short_buffer
  ensure
      (h.version == version
        && type_valid h.type
        && leb h.class class_bulk
        && only_known h.flags
        && reserve_control_flag_valid h.type h.flags
        && ack_ranges_flag_valid h.type h.flags)
      invalid_header
  ensure (leb h.payload_len max_payload) payload_exceeds_limit
  ok (header_bytes h ++ drop header_size dst)

pub validate : Header → Result Error (Unit {0})
validate h = do
  ensure (h.version == version && type_valid h.type && leb h.class class_bulk) invalid_header
  ensure
      (only_known h.flags
        && reserve_control_flag_valid h.type h.flags
        && ack_ranges_flag_valid h.type h.flags)
      unknown_flags
  ensure (leb h.payload_len max_payload) payload_exceeds_limit
  ok tt

-- `src[i]` and `src[lo:hi]`, where the length has been tested.
abbrev pub byte_at : List ℕ → ℕ → ℕ
byte_at src i = get_or src i 0

abbrev pub slice : List ℕ → ℕ → ℕ → List ℕ
slice src lo hi = take (hi - lo) (drop lo src)

-- The header that `DecodeHeader` fills in before it validates.
pub header_fields : List ℕ → Header
header_fields src = record {
  version = byte_at src 2;
  type = byte_at src 3;
  flags = get_be (slice src 4 6);
  session_id = slice src 6 22;
  flow_id = get_be (slice src 22 30);
  sequence = get_be (slice src 30 38);
  payload_len = get_be (slice src 38 42);
  class = byte_at src 42;
}

pub decode_header : List ℕ → Result Error Header
decode_header src = do
  ensure (leb header_size (length src)) unexpected_eof
  ensure (byte_at src 0 == magic0 && byte_at src 1 == magic1) invalid_magic
  ensure (byte_at src 2 == version) (unsupported_version (byte_at src 2))
  wrap unsupported_header (validate (header_fields src))
  ensure (byte_at src 43 == 0 && byte_at src 44 == 0 && byte_at src 45 == 0) reserved_bits
  ok (header_fields src)
