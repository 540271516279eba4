-- ===== src/Protocol/HeaderCanonical.antt =====
-- What `DecodeHeader` of internal/protocol/frame.go accepts, and that it has one encoding.
use niulang.Prelude.{
  ℕ, ◌+◌, ◌^◌, ◌≤◌, ◌<◌, ◌≡◌, ap, ◌∙◌, arith, List, [], ◌∷◌, ◌++◌, length, take, drop, put_be,
  get_be, All, IsByte, ok, take_add, take_four, get_or-drop, take-append-drop, drop-drop,
  put_be-get_be, get_be-lt, length-take, length-drop, All-take, All-drop,
}
use niulang.Protocol.HeaderRoundTrip.{encode-of-validate}
use niulang.Protocol.{
  Header, Fits, header_bytes, header_fields, encode, validate, decode_header, byte_at, header_size,
  magic0, magic1,
}

module _ (src : List ℕ) (long : header_size ≤ length src) (bytes : All IsByte src) where
  abbrev h : Header
  h = header_fields src

  length-slice : (lo n : ℕ) → lo + n ≤ 46 → length (take n (drop lo src)) ≡ n
  length-slice lo n le = omega (arith, length-take n (drop lo src), length-drop lo src)

  slice-bytes : (lo n : ℕ) → All IsByte (take n (drop lo src))
  slice-bytes lo n = All-take IsByte n _ (All-drop IsByte lo src bytes)

  rewritten :
      (lo n : ℕ) → lo + n ≤ 46 → put_be n (get_be (take n (drop lo src))) ≡ take n (drop lo src)
  rewritten lo n le = put_be-get_be n _ (length-slice lo n le) (slice-bytes lo n)

  in_range : (lo n : ℕ) → lo + n ≤ 46 → get_be (take n (drop lo src)) < 256 ^ n
  in_range lo n le = get_be-lt n _ (length-slice lo n le) (slice-bytes lo n)

  -- The fields that are read are in the ranges of their Go types.
  header_fields-Fits : Fits (header_fields src)
  unfolding header_fields
  header_fields-Fits = record {
    flags_u16 = in_range 4 2 (omega arith);
    session_bytes = slice-bytes 6 16;
    session_length = length-slice 6 16 (omega arith);
    flow_u64 = in_range 22 8 (omega arith);
    sequence_u64 = in_range 30 8 (omega arith);
    payload_u32 = in_range 38 4 (omega arith);
  }

  -- The first forty-six bytes, segment by segment.
  front : List ℕ
  front =
      take 4 src
      ++ (take 2 (drop 4 src)
          ++ (take 16 (drop 6 src)
              ++ (take 8 (drop 22 src)
                  ++ (take 8 (drop 30 src) ++ (take 4 (drop 38 src) ++ take 4 (drop 42 src))))))

  take-front : take header_size src ≡ front
  unfolding front
  take-front =
      take_add 4 42 src
      ∙ ap (λ t. take 4 src ++ t)
          (step 4 2 40
            ∙ ap (λ t. take 2 (drop 4 src) ++ t)
                (step 6 16 24
                  ∙ ap (λ t. take 16 (drop 6 src) ++ t)
                      (step 22 8 16
                        ∙ ap (λ t. take 8 (drop 22 src) ++ t)
                            (step 30 8 8 ∙ ap (λ t. take 8 (drop 30 src) ++ t) (step 38 4 4)))))
    where
      step :
          (i m n : ℕ) → take (m + n) (drop i src) ≡ take m (drop i src) ++ take n (drop (i + m) src)
      step i m n =
          take_add m n (drop i src) ∙ ap (λ t. take m (drop i src) ++ take n t) (drop-drop m i src)

  -- Written again, the fields give the bytes that they were read from.
  header_bytes-fields :
      byte_at src 0 ≡ magic0
      → byte_at src 1 ≡ magic1
      → byte_at src 43 ≡ 0
      → byte_at src 44 ≡ 0
      → byte_at src 45 ≡ 0
      → header_bytes (header_fields src) ≡ take header_size src
  unfolding header_fields header_bytes front
  header_bytes-fields m0 m1 z1 z2 z3 = rw (
    take-front,
    first_four,
    last_four,
    rewritten 4 2 (omega arith),
    rewritten 22 8 (omega arith),
    rewritten 30 8 (omega arith),
    rewritten 38 4 (omega arith),
  )
    where
      first_four : take 4 src ≡ magic0 ∷ magic1 ∷ byte_at src 2 ∷ byte_at src 3 ∷ []
      first_four = take_four src 0 (omega arith) ∙ rw (m0, m1)

      last_four : take 4 (drop 42 src) ≡ byte_at src 42 ∷ 0 ∷ 0 ∷ 0 ∷ []
      last_four =
          take_four (drop 42 src) 0 (omega (arith, length-drop 42 src))
          ∙ rw (
            get_or-drop 42 0 src 0,
            get_or-drop 42 1 src 0,
            get_or-drop 42 2 src 0,
            get_or-drop 42 3 src 0,
            z1,
            z2,
            z3,
          )

decode_header-inv :
    (src : List ℕ) (h : Header)
    → decode_header src ≡ ok h
    → (h ≡ header_fields src)
      × (validate (header_fields src) ≡ ok tt)
      × (header_size ≤ length src)
      × (byte_at src 0 ≡ magic0)
      × (byte_at src 1 ≡ magic1)
      × (byte_at src 43 ≡ 0)
      × (byte_at src 44 ≡ 0)
      × (byte_at src 45 ≡ 0)
unfolding decode_header
decode_header-inv src h e = (
  ground arith,
  ground arith,
  ground arith,
  ground arith,
  ground arith,
  ground arith,
  ground arith,
  ground arith,
)

-- A decoded header has fields in the ranges of their types, passes `Validate`, and encoded in place
-- gives back the very bytes that it was decoded from.
pub encode-decode_header :
    (src : List ℕ) (h : Header)
    → All IsByte src
    → decode_header src ≡ ok h
    → Fits h × (validate h ≡ ok tt) × (encode h src ≡ ok src)
encode-decode_header src h bytes e =
    let (same, v, long, m0, m1, z1, z2, z3) = decode_header-inv src h e in
    let again : header_bytes (header_fields src) ++ drop header_size src ≡ src =
      ap (λ t. t ++ drop header_size src) (header_bytes-fields src long bytes m0 m1 z1 z2 z3)
      ∙ take-append-drop header_size src in
    rw same (
      header_fields-Fits src long bytes,
      v,
      encode-of-validate (header_fields src) src long v ∙ ap (λ t. ok t) again,
    )
