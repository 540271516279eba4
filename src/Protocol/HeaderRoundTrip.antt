-- ===== src/Protocol/HeaderRoundTrip.antt =====
-- `Encode` and `DecodeHeader` of internal/protocol/frame.go read back what the other wrote.
use niulang.Prelude.{
  ℕ, ◌+◌, ◌≤◌, ◌≡◌, refl, ap, ◌∙◌, arith, List, [], ◌∷◌, ◌++◌, length, get_or, take, drop, put_be,
  get_be, ok, drop-append, le→leb, take-append, get_or-append, length-put_be, get_be-put_be,
  length-append, length-drop, ◌↔◌,
}
use niulang.Protocol.{
  Header, Fits, header_bytes, header_fields, encode, validate, decode_header, byte_at, header_size,
  magic0, magic1, version,
}
use mathlib.Core.List.{append_assoc}

validate_version : (h : Header) → validate h ≡ ok tt → h.version ≡ version
unfolding validate
validate_version h v = ground arith

decode_accepts :
    (src : List ℕ) (h : Header)
    → header_size ≤ length src
    → byte_at src 0 ≡ magic0
    → byte_at src 1 ≡ magic1
    → byte_at src 2 ≡ version
    → header_fields src ≡ h
    → validate h ≡ ok tt
    → byte_at src 43 ≡ 0
    → byte_at src 44 ≡ 0
    → byte_at src 45 ≡ 0
    → decode_header src ≡ ok h
unfolding decode_header
decode_accepts src h l b0 b1 b2 e v z1 z2 z3 = rw (le→leb _ _ l, b0, b1, b2, e, v, z1, z2, z3)

-- A header and what follows it in the buffer.
module _ (h : Header) (rest : List ℕ) (fits : Fits h) where
  open fits use {flags_u16, session_length, flow_u64, sequence_u64, payload_u32}

  -- The segments behind the first four bytes, by where each begins.
  abbrev end : List ℕ
  end = h.class ∷ 0 ∷ 0 ∷ 0 ∷ rest

  abbrev from_payload_len : List ℕ
  from_payload_len = put_be 4 h.payload_len ++ end

  abbrev from_sequence : List ℕ
  from_sequence = put_be 8 h.sequence ++ from_payload_len

  abbrev from_flow : List ℕ
  from_flow = put_be 8 h.flow_id ++ from_sequence

  abbrev from_session : List ℕ
  from_session = h.session_id ++ from_flow

  abbrev body : List ℕ
  body = put_be 2 h.flags ++ from_session

  drop-session : (k : ℕ) → drop (2 + k) body ≡ drop k from_session
  drop-session k = drop-append 2 k _ _ (length-put_be 2 h.flags)

  drop-flow : (k : ℕ) → drop (2 + (16 + k)) body ≡ drop k from_flow
  drop-flow k = drop-session (16 + k) ∙ drop-append 16 k _ _ session_length

  drop-sequence : (k : ℕ) → drop (2 + (16 + (8 + k))) body ≡ drop k from_sequence
  drop-sequence k = drop-flow (8 + k) ∙ drop-append 8 k _ _ (length-put_be 8 h.flow_id)

  drop-payload_len : (k : ℕ) → drop (2 + (16 + (8 + (8 + k)))) body ≡ drop k from_payload_len
  drop-payload_len k = drop-sequence (8 + k) ∙ drop-append 8 k _ _ (length-put_be 8 h.sequence)

  drop-end : (k : ℕ) → drop (2 + (16 + (8 + (8 + (4 + k))))) body ≡ drop k end
  drop-end k = drop-payload_len (4 + k) ∙ drop-append 4 k _ _ (length-put_be 4 h.payload_len)

  byte-end : (k : ℕ) → get_or body (2 + (16 + (8 + (8 + (4 + k))))) 0 ≡ get_or end k 0
  byte-end k =
      get_or-append 2 _ _ _ 0 (length-put_be 2 h.flags)
      ∙ get_or-append 16 _ _ _ 0 session_length
      ∙ get_or-append 8 _ _ _ 0 (length-put_be 8 h.flow_id)
      ∙ get_or-append 8 _ _ _ 0 (length-put_be 8 h.sequence)
      ∙ get_or-append 4 k _ _ 0 (length-put_be 4 h.payload_len)

  flags_read : get_be (take 2 body) ≡ h.flags
  flags_read =
      ap get_be (take-append 2 _ _ (length-put_be 2 h.flags)) ∙ get_be-put_be 2 h.flags flags_u16

  session_read : take 16 (drop 2 body) ≡ h.session_id
  session_read = ap (take 16) (drop-session 0) ∙ take-append 16 _ _ session_length

  flow_read : get_be (take 8 (drop 18 body)) ≡ h.flow_id
  flow_read =
      ap (λ t. get_be (take 8 t)) (drop-flow 0)
      ∙ ap get_be (take-append 8 _ _ (length-put_be 8 h.flow_id))
      ∙ get_be-put_be 8 h.flow_id flow_u64

  sequence_read : get_be (take 8 (drop 26 body)) ≡ h.sequence
  sequence_read =
      ap (λ t. get_be (take 8 t)) (drop-sequence 0)
      ∙ ap get_be (take-append 8 _ _ (length-put_be 8 h.sequence))
      ∙ get_be-put_be 8 h.sequence sequence_u64

  payload_len_read : get_be (take 4 (drop 34 body)) ≡ h.payload_len
  payload_len_read =
      ap (λ t. get_be (take 4 t)) (drop-payload_len 0)
      ∙ ap get_be (take-append 4 _ _ (length-put_be 4 h.payload_len))
      ∙ get_be-put_be 4 h.payload_len payload_u32

  abbrev wire : List ℕ
  wire = magic0 ∷ magic1 ∷ h.version ∷ h.type ∷ body

  header_bytes-wire : header_bytes h ++ rest ≡ wire
  unfolding header_bytes
  header_bytes-wire = simp append_assoc

  -- Every field is read back from where it was written.
  fields-wire : header_fields wire ≡ h
  unfolding header_fields
  fields-wire = λ i. record {
    version = h.version;
    type = h.type;
    flags = flags_read i;
    session_id = session_read i;
    flow_id = flow_read i;
    sequence = sequence_read i;
    payload_len = payload_len_read i;
    class = byte-end 0 i;
  }

  length-wire : length wire ≡ header_size + length rest
  length-wire = omega (
    arith,
    length-append (put_be 2 h.flags) from_session,
    length-append h.session_id from_flow,
    length-append (put_be 8 h.flow_id) from_sequence,
    length-append (put_be 8 h.sequence) from_payload_len,
    length-append (put_be 4 h.payload_len) end,
    length-put_be 2 h.flags,
    length-put_be 8 h.flow_id,
    length-put_be 8 h.sequence,
    length-put_be 4 h.payload_len,
  )

  decode-wire : validate h ≡ ok tt → decode_header wire ≡ ok h
  decode-wire v =
      decode_accepts wire h (omega (arith, length-wire)) refl refl (validate_version h v)
        fields-wire v (byte-end 1) (byte-end 2) (byte-end 3)

-- What `Encode` stores when it accepts.
encode-inv :
    (h : Header) (dst buf : List ℕ)
    → encode h dst ≡ ok buf
    → (validate h ≡ ok tt)
      × (header_size ≤ length dst)
      × (buf ≡ header_bytes h ++ drop header_size dst)
unfolding encode validate
encode-inv h dst buf e = (ground arith, ground arith, ground arith)

pub encode-of-validate :
    (h : Header) (dst : List ℕ)
    → header_size ≤ length dst
    → validate h ≡ ok tt
    → encode h dst ≡ ok (header_bytes h ++ drop header_size dst)
unfolding encode validate
encode-of-validate h dst l v = ground arith

-- Into a buffer that is long enough, `Encode` accepts exactly what `Validate` accepts.
pub encode-iff-validate :
    (h : Header) (dst : List ℕ)
    → header_size ≤ length dst
    → (validate h ≡ ok tt) ↔ ((buf : List ℕ) × (encode h dst ≡ ok buf))
encode-iff-validate h dst l = (
  λ v. (header_bytes h ++ drop header_size dst, encode-of-validate h dst l v),
  λ e. (encode-inv h dst e.0 e.1).0,
)

length-header_bytes : (h : Header) → Fits h → length (header_bytes h) ≡ header_size
length-header_bytes h f =
    let wire_length : length (header_bytes h ++ []) ≡ header_size =
      ap length (header_bytes-wire h [] f) ∙ length-wire h [] f in
    omega (arith, wire_length, length-append (header_bytes h) [])

-- A header that was encoded is decoded to itself.
pub decode_header-encode :
    (h : Header) (dst buf : List ℕ)
    → Fits h
    → encode h dst ≡ ok buf
    → (length buf ≡ length dst) × (decode_header buf ≡ ok h)
decode_header-encode h dst buf f e =
    let (v, l, stored) = encode-inv h dst buf e in
    let rest : List ℕ = drop header_size dst in
    (
      omega (
        arith,
        ap length stored,
        length-append (header_bytes h) rest,
        length-header_bytes h f,
        length-drop header_size dst,
      ),
      rw (stored, header_bytes-wire h rest f) (decode-wire h rest f v),
    )
