-- ===== src/Session/Resume.antt =====
-- The resume payloads of internal/session/packet.go are read back as they were written, and no other
-- payload is read.
use niulang.Prelude.{
  ℕ, ◌≤◌, ◌≡◌, refl, sym, ap, ◌∙◌, arith, Bool, true, false, none, some, List, [], ◌∷◌, ◌++◌, ltb,
  ◌==◌, if◌then◌else◌, length, take, drop, ok, Bool-cases, inl, inr, take-append-drop, ◌⊎◌,
}
use niulang.Session.{
  equal_bytes, udp_association_marker, udp_resume_marker, is_udp_association,
  encode_udp_resume_open, decode_udp_resume_open, encode_udp_resume_grant, decode_udp_resume_grant,
}

equal_bytes-eq : (xs ys : List ℕ) → equal_bytes xs ys ≡ true → xs ≡ ys
unfolding equal_bytes
equal_bytes-eq [] [] h = refl
equal_bytes-eq [] (y ∷ ys) h = absurd (cc)
equal_bytes-eq (x ∷ xs) [] h = absurd (cc)
equal_bytes-eq (x ∷ xs) (y ∷ ys) h = ground (arith, equal_bytes-eq xs ys)

equal_bytes_refl : (xs : List ℕ) → equal_bytes xs xs ≡ true
unfolding equal_bytes
equal_bytes_refl [] = refl
equal_bytes_refl (x ∷ xs) = ground (arith, equal_bytes_refl xs)

length-zero : (xs : List ℕ) → length xs ≡ 0 → xs ≡ []
length-zero [] h = refl
length-zero (x ∷ xs) h = absurd (omega arith)

-- A token of a size that is allowed.
abbrev pub IsToken : List ℕ → Type 0
IsToken token = (length token ≡ 0) ⊎ (length token ≡ 16)

open_payload :
    (token : List ℕ)
    → IsToken token
    → encode_udp_resume_open token ≡ ok (udp_resume_marker ++ token)
unfolding encode_udp_resume_open
open_payload token (inl e) = ground arith
open_payload token (inr e) = ground arith

-- Behind the marker stands the token alone.
decode_marked :
    (token : List ℕ)
    → decode_udp_resume_open (udp_resume_marker ++ token)
      ≡ (if length token == 0 then some [] else if length token == 16 then some token else none)
unfolding decode_udp_resume_open
decode_marked token =
    let long : ltb (length (udp_resume_marker ++ token)) 5 ≡ false = ground arith in
    rw (long, equal_bytes_refl udp_resume_marker)

-- A resumable open with no token or with one of sixteen bytes is written and read back.
pub decode-encode_udp_resume_open :
    (token : List ℕ)
    → IsToken token
    → (payload : List ℕ) × (encode_udp_resume_open token ≡ ok payload)
      × (decode_udp_resume_open payload ≡ some token)
decode-encode_udp_resume_open token h = (
  udp_resume_marker ++ token,
  open_payload token h,
  decode_marked token ∙ elim h [
    | inl none_given ↦ ground (arith, length-zero token none_given)
    | inr sixteen ↦ ground (arith, sixteen)
  ],
)

-- What an accepted payload consists of.
decode-inv :
    (payload token : List ℕ)
    → decode_udp_resume_open payload ≡ some token
    → (payload ≡ udp_resume_marker ++ token) × IsToken token
unfolding decode_udp_resume_open
decode-inv payload token h =
    let n = length udp_resume_marker in
    let whole = take-append-drop n payload in
    elim (Bool-cases (equal_bytes (take n payload) udp_resume_marker)) [
      | inr other ↦ absurd (ground (arith, other))
      | inl marked ↦
          let head = equal_bytes-eq (take n payload) udp_resume_marker marked in
          let front : payload ≡ udp_resume_marker ++ drop n payload =
            sym whole ∙ ap (λ t. t ++ drop n payload) head in
          elim (Bool-cases (length (drop n payload) == 0)) [
            | inl empty ↦
                let nil = length-zero (drop n payload) (ground (arith, empty)) in
                let given : token ≡ [] = ground (arith, marked, empty) in
                (
                  front ∙ ap (λ t. udp_resume_marker ++ t) (nil ∙ sym given),
                  inl (ground (arith, given)),
                )
            | inr some_bytes ↦
                let given : drop n payload ≡ token = ground (arith, marked, some_bytes) in
                let size : length (drop n payload) ≡ 16 = ground (arith, marked, some_bytes) in
                (front ∙ ap (λ t. udp_resume_marker ++ t) given, inr (sym (ap length given) ∙ size))
          ]
    ]

not_association :
    (token : List ℕ) → equal_bytes (udp_resume_marker ++ token) udp_association_marker ≡ false
unfolding equal_bytes
not_association token = refl

-- What DecodeUDPResumeOpen accepts is what EncodeUDPResumeOpen writes for the token it returns, and
-- it is not the payload of an ordinary association.
pub encode-decode_udp_resume_open :
    (payload token : List ℕ)
    → decode_udp_resume_open payload ≡ some token
    → (encode_udp_resume_open token ≡ ok payload) × (is_udp_association payload ≡ false)
unfolding is_udp_association
encode-decode_udp_resume_open payload token h =
    let (marked, rest) = decode-inv payload token h in
    (
      open_payload token rest ∙ ap (λ p. ok p) (sym marked),
      ap (λ p. equal_bytes p udp_association_marker) marked ∙ not_association token,
    )

-- A grant with a token of sixteen bytes is written and read back.
pub decode-encode_udp_resume_grant :
    (resumed : Bool) (token : List ℕ)
    → length token ≡ 16
    → decode_udp_resume_grant (encode_udp_resume_grant resumed token) ≡ some (resumed, token)
unfolding decode_udp_resume_grant encode_udp_resume_grant
decode-encode_udp_resume_grant true token h = ground arith
decode-encode_udp_resume_grant false token h = ground arith

-- What DecodeUDPResumeGrant accepts is what EncodeUDPResumeGrant writes for what it returns.
pub encode-decode_udp_resume_grant :
    (payload : List ℕ) (resumed : Bool) (token : List ℕ)
    → decode_udp_resume_grant payload ≡ some (resumed, token)
    → (encode_udp_resume_grant resumed token ≡ payload) × (length token ≡ 16)
unfolding decode_udp_resume_grant encode_udp_resume_grant
encode-decode_udp_resume_grant [] resumed token h = absurd (cc)
encode-decode_udp_resume_grant (x ∷ xs) resumed token h =
    let rest : xs ≡ token = ground (arith, h) in
    let flag : (x == 1) ≡ resumed = ground (arith, h) in
    let small : x ≤ 1 = ground (arith, h) in
    let size : length xs ≡ 16 = ground (arith, h) in
    let head : (if resumed then 1 else 0) ≡ x = ground (arith, flag, small) in
    (
      ap (λ t. (if resumed then 1 else 0) ∷ t) (sym rest) ∙ ap (λ k. k ∷ xs) head,
      sym (ap length rest) ∙ size,
    )
