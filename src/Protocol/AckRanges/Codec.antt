-- ===== src/Protocol/AckRanges/Codec.antt =====
-- The ACK payload of internal/protocol/frame.go: what is decoded, and that both directions agree.
use niulang.Prelude.{
  ℕ, zero, suc, ◌+◌, ◌*◌, ◌/◌, ◌%◌, ◌^◌, ◌≤◌, ◌<◌, ◌≡◌, refl, sym, ap, ◌∙◌, arith, List, [], ◌∷◌,
  ◌++◌, length, take, drop, put_be, get_be, All, IsByte, ok, le→leb, length-append, length-put_be,
  take-append, drop-append, get_be-put_be, put_be-get_be, get_be-lt, length-take, length-drop,
  All-take, All-drop, drop-drop, take_add, take-all,
}
use niulang.Protocol.AckRanges.{
  Range, Ascends, append_ranges, encode_ack_ranges, uint64_at, read_ranges, decode_ack_ranges,
}
use mathlib.Core.List.{append_assoc, append-nil}

-- The bytes of a list of ranges.
abbrev pub ranges_bytes : List Range → List ℕ
ranges_bytes [] = []
ranges_bytes ((start, end) ∷ rs) = put_be 8 start ++ (put_be 8 end ++ ranges_bytes rs)

-- Both ends are uint64.
abbrev pub IsU64Range : Range → Type 0
IsU64Range r = (r.0 < 2 ^ 64) × (r.1 < 2 ^ 64)

length-ranges_bytes : (rs : List Range) → length (ranges_bytes rs) ≡ 16 * length rs
length-ranges_bytes [] = refl
length-ranges_bytes ((s, e) ∷ rs) = omega (
  arith,
  length-append (put_be 8 s) (put_be 8 e ++ ranges_bytes rs),
  length-append (put_be 8 e) (ranges_bytes rs),
  length-put_be 8 s,
  length-put_be 8 e,
  length-ranges_bytes rs,
)

append_ranges-bytes :
    (bound : ℕ) (rs : List Range) (payload : List ℕ)
    → Ascends bound rs
    → append_ranges rs payload ≡ ok (payload ++ ranges_bytes rs)
unfolding append_ranges
append_ranges-bytes bound [] payload h = rw append-nil
append_ranges-bytes bound ((s, e) ∷ rs) payload h = ground (
  arith,
  append_ranges-bytes e rs ((payload ++ put_be 8 s) ++ put_be 8 e) h.2,
  append_assoc (payload ++ put_be 8 s) (put_be 8 e) (ranges_bytes rs),
  append_assoc payload (put_be 8 s) (put_be 8 e ++ ranges_bytes rs),
)

-- The first range is read where the payload from there on begins with it.
uint64_at-front :
    (v at : ℕ) (payload rest : List ℕ)
    → v < 2 ^ 64
    → drop at payload ≡ put_be 8 v ++ rest
    → uint64_at payload at ≡ v
unfolding uint64_at
uint64_at-front v at payload rest h e =
    ap (λ t. get_be (take 8 t)) e
    ∙ ap get_be (take-append 8 (put_be 8 v) rest (length-put_be 8 v))
    ∙ get_be-put_be 8 v h

-- Eight bytes further.
drop_eight :
    (v at : ℕ) (payload rest : List ℕ)
    → drop at payload ≡ put_be 8 v ++ rest
    → drop (at + 8) payload ≡ rest
drop_eight v at payload rest e =
    sym (drop-drop 8 at payload)
    ∙ ap (drop 8) e
    ∙ drop-append 8 0 (put_be 8 v) rest (length-put_be 8 v)

read_ranges-bytes :
    (rs : List Range) (i bound : ℕ) (payload : List ℕ) (out : List Range)
    → Ascends bound rs
    → All IsU64Range rs
    → drop (i * 16) payload ≡ ranges_bytes rs
    → read_ranges (length rs) i payload bound out ≡ ok (out ++ rs)
unfolding read_ranges
read_ranges-bytes [] i bound payload out h u e = rw append-nil
read_ranges-bytes ((s, t) ∷ rs) i bound payload out h u e =
    let after : drop (i * 16 + 8) payload ≡ put_be 8 t ++ ranges_bytes rs =
      drop_eight s (i * 16) payload _ e in
    let shift : i * 16 + 8 + 8 ≡ (i + 1) * 16 = omega arith in
    let next : drop ((i + 1) * 16) payload ≡ ranges_bytes rs =
      ap (λ k. drop k payload) (sym shift) ∙ drop_eight t (i * 16 + 8) payload _ after in
    rw
      (
        uint64_at-front s (i * 16) payload _ u.0.0 e,
        uint64_at-front t (i * 16 + 8) payload _ u.0.1 after,
      )
      (ground (
        arith,
        read_ranges-bytes rs (i + 1) t payload (out ++ ((s, t) ∷ [])) h.2 u.1 next,
        append_assoc out ((s, t) ∷ []) rs,
      ))

-- At most sixteen uint64 ranges that ascend from the cumulative point are encoded, and decoded to
-- themselves.
pub decode-encode_ack_ranges :
    (rs : List Range) (cumulative : ℕ)
    → length rs ≤ 16
    → Ascends cumulative rs
    → All IsU64Range rs
    → (payload : List ℕ) × (encode_ack_ranges rs ≡ ok payload)
      × (length payload ≡ 16 * length rs)
      × (decode_ack_ranges payload cumulative ≡ ok rs)
unfolding encode_ack_ranges decode_ack_ranges
decode-encode_ack_ranges rs c l h u =
    let n = length-ranges_bytes rs in
    let q : length (ranges_bytes rs) / 16 ≡ length rs = omega (arith, n) in
    let m : length (ranges_bytes rs) % 16 ≡ 0 = omega (arith, n) in
    (
      ranges_bytes rs,
      rw (le→leb _ _ l) (append_ranges-bytes c rs [] h),
      n,
      rw (m, q, le→leb _ _ l) (read_ranges-bytes rs 0 c (ranges_bytes rs) [] h u refl),
    )

-- What `n` rounds of the loop yield: they append ranges that ascend, and whose bytes are the next
-- ones of the payload.
record Reads (payload : List ℕ) (i bound n : ℕ) (out rs : List Range) : Type 0 where
  new : List Range
  appended : rs ≡ out ++ new
  counted : length new ≡ n
  ascends : Ascends bound new
  spelled : ranges_bytes new ≡ take (n * 16) (drop (i * 16) payload)
  bounded : All IsU64Range new

read_ranges_round :
    (n i : ℕ) (payload : List ℕ) (bound : ℕ) (out rs : List Range)
    → read_ranges (suc n) i payload bound out ≡ ok rs
    → let start = uint64_at payload (i * 16) in
      let end = uint64_at payload (i * 16 + 8) in
      (start < end)
      × (bound ≤ start)
      × (read_ranges n (i + 1) payload end (out ++ ((start, end) ∷ [])) ≡ ok rs)
unfolding read_ranges
read_ranges_round n i payload bound out rs e = (ground arith, ground arith, ground arith)

decode_ack_ranges-inv :
    (payload : List ℕ) (c : ℕ) (rs : List Range)
    → decode_ack_ranges payload c ≡ ok rs
    → (length payload % 16 ≡ 0)
      × (length payload / 16 ≤ 16)
      × (read_ranges (length payload / 16) 0 payload c [] ≡ ok rs)
unfolding decode_ack_ranges
decode_ack_ranges-inv payload c rs e = (ground arith, ground arith, ground arith)

module _ (payload : List ℕ) (bytes : All IsByte payload) where
  length-eight : (at : ℕ) → at + 8 ≤ length payload → length (take 8 (drop at payload)) ≡ 8
  length-eight at h = omega (arith, length-take 8 (drop at payload), length-drop at payload)

  bytes-eight : (at : ℕ) → All IsByte (take 8 (drop at payload))
  bytes-eight at = All-take IsByte 8 _ (All-drop IsByte at payload bytes)

  uint64_at-lt : (at : ℕ) → at + 8 ≤ length payload → uint64_at payload at < 2 ^ 64
  unfolding uint64_at
  uint64_at-lt at h = get_be-lt 8 _ (length-eight at h) (bytes-eight at)

  put_be-uint64_at :
      (at : ℕ)
      → at + 8 ≤ length payload
      → put_be 8 (uint64_at payload at) ≡ take 8 (drop at payload)
  unfolding uint64_at
  put_be-uint64_at at h = put_be-get_be 8 _ (length-eight at h) (bytes-eight at)

  -- Two numbers and the ranges behind them spell the next bytes.
  spell-cons :
      (i n : ℕ) (new : List Range)
      → (i + suc n) * 16 ≤ length payload
      → ranges_bytes new ≡ take (n * 16) (drop ((i + 1) * 16) payload)
      → ranges_bytes ((uint64_at payload (i * 16), uint64_at payload (i * 16 + 8)) ∷ new)
        ≡ take (suc n * 16) (drop (i * 16) payload)
  spell-cons i n new fit e =
      let e0 : suc n * 16 ≡ 8 + (8 + n * 16) = omega arith in
      let e1 : i * 16 + 8 + 8 ≡ (i + 1) * 16 = omega arith in
      rw (
        put_be-uint64_at (i * 16) (omega arith),
        put_be-uint64_at (i * 16 + 8) (omega arith),
        e,
        e0,
        take_add 8 (8 + n * 16) (drop (i * 16) payload),
        drop-drop 8 (i * 16) payload,
        take_add 8 (n * 16) (drop (i * 16 + 8) payload),
        drop-drop 8 (i * 16 + 8) payload,
        e1,
      )

  read_ranges-Reads :
      (n i bound : ℕ) (out rs : List Range)
      → (i + n) * 16 ≤ length payload
      → read_ranges n i payload bound out ≡ ok rs
      → Reads payload i bound n out rs
  unfolding read_ranges
  read_ranges-Reads zero i bound out rs fit e = record {
    new = [];
    appended = rw append-nil (cc);
    counted = refl;
    ascends = tt;
    spelled = refl;
    bounded = tt;
  }
  read_ranges-Reads (suc n) i bound out rs fit e =
      let start = uint64_at payload (i * 16) in
      let end = uint64_at payload (i * 16 + 8) in
      let (ordered, behind, more) = read_ranges_round n i payload bound out rs e in
      let r = read_ranges-Reads n (i + 1) end (out ++ ((start, end) ∷ [])) rs (omega arith) more in
      record {
        new = (start, end) ∷ r.new;
        appended = r.appended ∙ append_assoc out ((start, end) ∷ []) r.new;
        counted = ap suc r.counted;
        ascends = (behind, ordered, r.ascends);
        spelled = spell-cons i n r.new fit r.spelled;
        bounded = (
          (uint64_at-lt (i * 16) (omega arith), uint64_at-lt (i * 16 + 8) (omega arith)),
          r.bounded,
        );
      }

-- Whatever is decoded is at most sixteen uint64 ranges that ascend from the cumulative point, and
-- encoding them gives the payload back.
pub encode-decode_ack_ranges :
    (payload : List ℕ) (cumulative : ℕ) (rs : List Range)
    → All IsByte payload
    → decode_ack_ranges payload cumulative ≡ ok rs
    → (length rs ≤ 16)
      × Ascends cumulative rs
      × All IsU64Range rs
      × (encode_ack_ranges rs ≡ ok payload)
unfolding encode_ack_ranges
encode-decode_ack_ranges payload c rs bytes e =
    let (aligned, few, loop) = decode_ack_ranges-inv payload c rs e in
    let n = length payload / 16 in
    let r = read_ranges-Reads payload bytes n 0 c [] rs (omega arith) loop in
    let whole : n * 16 ≡ length payload = omega arith in
    let short : length r.new ≤ 16 = omega (arith, r.counted) in
    let back : ranges_bytes r.new ≡ payload =
      r.spelled ∙ ap (λ k. take k payload) whole ∙ take-all payload in
    rw r.appended (
      short,
      r.ascends,
      r.bounded,
      rw (le→leb _ _ short) (append_ranges-bytes c r.new [] r.ascends ∙ ap (λ t. ok t) back),
    )
