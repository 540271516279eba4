-- ===== src/Protocol/Frames/RoundTrip.antt =====
-- AppendFrame, ParseFrame, ParseFrameOwned and ReadFrame of internal/protocol/frame.go agree.
use niulang.Prelude.{
  ℕ, ◌%◌, ◌^◌, ◌≤◌, ◌≡◌, refl, sym, ap, ◌∙◌, arith, none, List, ◌++◌, length, take, drop, replicate,
  All, IsByte, ok, le→leb, Result-cases, inl, inr, length-append, take-append, drop-append,
  take-all, drop-all, drop_front, take-append-drop, All-take, length-take,
}
use niulang.Protocol.{Header, Fits, header_size, max_payload, encode, validate, decode_header}
use niulang.Protocol.HeaderRoundTrip.{decode_header-encode}
use niulang.Protocol.HeaderCanonical.{encode-decode_header}
use niulang.Protocol.Frames.{
  Frame, append_frame, parse_frame_owned, parse_frame, copy_bytes, read_frame,
}
use mathlib.Core.List.{append_assoc}

-- The frame that is sent: its header declares the payload's length.
abbrev pub sent : Frame → Frame
sent f = record f { header = record f.header { payload_len = length f.payload } }

-- What AppendFrame did when it returned no error.
record Appended (dst : List ℕ) (f : Frame) (out : List ℕ) : Type 0 where
  head : List ℕ
  small : length f.payload ≤ max_payload
  encoded : encode (sent f).header (replicate header_size 0) ≡ ok head
  result : out ≡ (dst ++ head) ++ f.payload

declared : (n : ℕ) → n ≤ max_payload → n % 2 ^ 32 ≡ n
declared n h = omega arith

append_frame-inv :
    (dst : List ℕ) (f : Frame) (out : List ℕ)
    → append_frame dst f ≡ (out, none)
    → Appended dst f out
unfolding append_frame
append_frame-inv dst f out e =
    let small : length f.payload ≤ max_payload = ground arith in
    let n = declared (length f.payload) small in
    elim (Result-cases (encode (sent f).header (replicate header_size 0))) [
      | inl (head, q) ↦ record {
        head = head;
        small = small;
        encoded = q;
        result = ground (arith, n, q);
      }
      | inr (x, q) ↦ absurd (ground (arith, n, q))
    ]

sent-Fits : (f : Frame) → length f.payload ≤ max_payload → Fits f.header → Fits (sent f).header
sent-Fits f h fits = record {
  flags_u16 = fits.flags_u16;
  session_bytes = fits.session_bytes;
  session_length = fits.session_length;
  flow_u64 = fits.flow_u64;
  sequence_u64 = fits.sequence_u64;
  payload_u32 = omega arith;
}

-- A frame whose header declares its length is appended.
append_encoded :
    (dst : List ℕ) (f : Frame) (head : List ℕ)
    → length f.payload ≤ max_payload
    → length f.payload ≡ f.header.payload_len
    → encode f.header (replicate header_size 0) ≡ ok head
    → append_frame dst f ≡ ((dst ++ head) ++ f.payload, none)
unfolding append_frame
append_encoded dst f head small l q =
    let same : encode (sent f).header (replicate header_size 0) ≡ ok head =
      ap (λ k. encode (record f.header { payload_len = k }) (replicate header_size 0)) l ∙ q in
    ground (arith, declared (length f.payload) small, same)

module _ (dst : List ℕ) (f : Frame) (out : List ℕ) (fits : Fits f.header) where
  -- The bytes of one frame are parsed back, whole or from the front of a stream.
  pub parse_frame-append_frame :
      append_frame dst f ≡ (out, none)
      → (b : List ℕ) × (out ≡ dst ++ b)
        × (parse_frame_owned b ≡ ok (sent f))
        × (parse_frame b ≡ ok (sent f))
  unfolding parse_frame_owned parse_frame copy_bytes
  parse_frame-append_frame e =
      let a = append_frame-inv dst f out e in
      let (l, d) =
        decode_header-encode (sent f).header (replicate header_size 0) a.head
          (sent-Fits f a.small fits) a.encoded in
      let n : length a.head ≡ header_size = l in
      let front = take-append header_size a.head f.payload n in
      let back = drop-append header_size 0 a.head f.payload n in
      let long : header_size ≤ length (a.head ++ f.payload) =
        omega (arith, length-append a.head f.payload, n) in
      (
        a.head ++ f.payload,
        a.result ∙ append_assoc dst a.head f.payload,
        rw (le→leb _ _ long, front, d, back) (ground arith),
        rw (le→leb _ _ long, front, d, back) (ground (arith, take-all f.payload)),
      )

parse_frame_owned-inv :
    (b : List ℕ) (f : Frame)
    → parse_frame_owned b ≡ ok f
    → (header_size ≤ length b)
      × (decode_header (take header_size b) ≡ ok f.header)
      × (f.payload ≡ drop header_size b)
      × (length f.payload ≡ f.header.payload_len)
unfolding parse_frame_owned
parse_frame_owned-inv b f e = (ground arith, ground arith, ground arith, ground arith)

-- A parse from its two parts.
parse_parts :
    (head p : List ℕ) (h : Header)
    → length head ≡ header_size
    → decode_header head ≡ ok h
    → length p ≡ h.payload_len
    → parse_frame_owned (head ++ p) ≡ ok (record { header = h; payload = p })
unfolding parse_frame_owned
parse_parts head p h n d l =
    let long : header_size ≤ length (head ++ p) = omega (arith, length-append head p, n) in
    rw (le→leb _ _ long, take-append header_size head p n, d, drop-append header_size 0 head p n)
      (ground arith)

read_parts :
    (head p more : List ℕ) (h : Header)
    → length head ≡ header_size
    → decode_header head ≡ ok h
    → length p ≡ h.payload_len
    → read_frame (head ++ (p ++ more)) ≡ (ok (record { header = h; payload = p }), more)
unfolding read_frame
read_parts head p more h n d l =
    let long : header_size ≤ length (head ++ (p ++ more)) =
      omega (arith, length-append head (p ++ more), n) in
    let fits : h.payload_len ≤ length (p ++ more) = omega (arith, length-append p more, l) in
    rw
      (
        le→leb _ _ long,
        take-append header_size head (p ++ more) n,
        drop-append header_size 0 head (p ++ more) n,
        d,
        le→leb _ _ fits,
        take-append h.payload_len p more l,
      )
      (ap (λ t. (ok (record { header = h; payload = p }), t)) (drop_front h.payload_len p more l))

-- What ReadFrame has read when it returns a frame.
read_frame-inv :
    (r rest : List ℕ) (f : Frame)
    → read_frame r ≡ (ok f, rest)
    → (header_size ≤ length r)
      × (decode_header (take header_size r) ≡ ok f.header)
      × (f.header.payload_len ≤ length (drop header_size r))
      × (f.payload ≡ take f.header.payload_len (drop header_size r))
      × (rest ≡ drop f.header.payload_len (drop header_size r))
unfolding read_frame
read_frame-inv r rest f e = (ground arith, ground arith, ground arith, ground arith, ground arith)

validate_small : (h : Header) → validate h ≡ ok tt → h.payload_len ≤ max_payload
unfolding validate
validate_small h v = ground arith

-- Encoding depends on the buffer only behind the header.
encode-same :
    (h : Header) (d e : List ℕ)
    → length d ≡ header_size
    → length e ≡ header_size
    → encode h d ≡ encode h e
unfolding encode
encode-same h d e p q =
    rw (p, q, drop-all header_size d (omega arith), drop-all header_size e (omega arith))

-- A frame that is parsed from bytes is serialized to those bytes, behind whatever stood in the
-- slice.
pub append_frame-parse_frame :
    (dst b : List ℕ) (f : Frame)
    → All IsByte b
    → parse_frame_owned b ≡ ok f
    → append_frame dst f ≡ (dst ++ b, none)
append_frame-parse_frame dst b f bytes e =
    let (long, d, p, l) = parse_frame_owned-inv b f e in
    let head : List ℕ = take header_size b in
    let n : length (take header_size b) ≡ header_size = omega (arith, length-take header_size b) in
    let (fits, v, back) =
      encode-decode_header (take header_size b) f.header (All-take IsByte header_size b bytes) d in
    let zeros : length (replicate {A = ℕ} header_size 0) ≡ header_size = refl in
    append_encoded dst f (take header_size b) (omega (arith, validate_small f.header v)) l
      (encode-same f.header _ (take header_size b) zeros n ∙ back)
    ∙ ap (λ t. (t, none))
        (append_assoc dst (take header_size b) f.payload
          ∙ ap (λ t. dst ++ (take header_size b ++ t)) p
          ∙ ap (λ t. dst ++ t) (take-append-drop header_size b))

-- ReadFrame takes from a stream the bytes that ParseFrame accepts, and leaves what follows them.
pub read_frame-parse_frame :
    (b more : List ℕ) (f : Frame)
    → parse_frame_owned b ≡ ok f
    → read_frame (b ++ more) ≡ (ok f, more)
read_frame-parse_frame b more f e =
    let (long, d, p, l) = parse_frame_owned-inv b f e in
    let n : length (take header_size b) ≡ header_size = omega (arith, length-take header_size b) in
    let split : b ++ more ≡ take header_size b ++ (f.payload ++ more) =
      ap (λ t. t ++ more) (sym (take-append-drop header_size b))
      ∙ append_assoc (take header_size b) (drop header_size b) more
      ∙ ap (λ t. take header_size b ++ (t ++ more)) (sym p) in
    ap read_frame split ∙ read_parts (take header_size b) f.payload more f.header n d l

-- What ReadFrame returns is a frame that ParseFrame accepts, and the bytes behind it are left.
pub parse_frame-read_frame :
    (r rest : List ℕ) (f : Frame)
    → read_frame r ≡ (ok f, rest)
    → (b : List ℕ) × (r ≡ b ++ rest) × (parse_frame_owned b ≡ ok f)
parse_frame-read_frame r rest f e =
    let (long, d, enough, p, left) = read_frame-inv r rest f e in
    let head : List ℕ = take header_size r in
    let n : length (take header_size r) ≡ header_size = omega (arith, length-take header_size r) in
    let k = f.header.payload_len in
    let l : length f.payload ≡ k =
      ap length p ∙ omega (arith, length-take k (drop header_size r)) in
    (
      take header_size r ++ f.payload,
      sym (take-append-drop header_size r)
          ∙ ap (λ t. take header_size r ++ t) (sym (take-append-drop k (drop header_size r)))
          ∙ sym (
              append_assoc (take header_size r) (take k (drop header_size r))
                (drop k (drop header_size r)))
          ∙ rw (p, left),
      parse_parts (take header_size r) f.payload f.header n d l,
    )
