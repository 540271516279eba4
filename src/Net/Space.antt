-- ===== src/Net/Space.antt =====
-- TrimSpace of strings, over UTF-8: the white space of unicode.IsSpace is taken off at both ends.
use niulang.Prelude.{
  ℕ, zero, suc, ◌<◌, ◌≡◌, refl, ap, ◌∙◌, arith, Bool, true, false, ◌&&◌, ◌||◌, List, [], ◌∷◌, ◌++◌,
  leb, ◌==◌, if◌then◌else◌, length, drop, get_or, All, All-drop, All-append, Bool-cases, inl, inr,
}
use mathlib.Core.List.{reverse, reverse-reverse, reverse-append, reverse-cons}

-- The code points of one, two and three bytes.
abbrev pub is_space1 : ℕ → Bool
is_space1 a = a == 32 || leb 9 a && leb a 13

abbrev pub is_space2 : ℕ → ℕ → Bool
is_space2 a b = a == 194 && (b == 133 || b == 160)

abbrev pub is_space3 : ℕ → ℕ → ℕ → Bool
is_space3 a b c =
    a == 225 && b == 154 && c == 128
    || a == 226 && b == 128 && (leb 128 c && leb c 138 || c == 168 || c == 169 || c == 175)
    || a == 226 && b == 129 && c == 159
    || a == 227 && b == 128 && c == 128

-- The bytes of the white space at the start of a text, and at its end: the bytes are then given from
-- the last one on. No byte of white space is zero.
unfoldable pub front_space : List ℕ → ℕ
front_space s =
    let a = get_or s 0 0 in
    let b = get_or s 1 0 in
    let c = get_or s 2 0 in
    if is_space1 a then 1 else if is_space2 a b then 2 else if is_space3 a b c then 3 else 0

unfoldable pub back_space : List ℕ → ℕ
back_space s =
    let a = get_or s 0 0 in
    let b = get_or s 1 0 in
    let c = get_or s 2 0 in
    if is_space1 a then 1 else if is_space2 b a then 2 else if is_space3 c b a then 3 else 0

-- Each round takes at least a byte off, so there are no more rounds than bytes.
unfoldable pub trim : (List ℕ → ℕ) → ℕ → List ℕ → List ℕ
trim space zero s = s
trim space (suc n) s =
    let rest = trim space n (drop (space s) s) in if space s == 0 then s else rest

unfoldable pub trim_space : List ℕ → List ℕ
trim_space s =
    let left = trim front_space (length s) s in
    reverse (trim back_space (length left) (reverse left))

trim-All {κ} :
    (P : ℕ → Type κ) (space : List ℕ → ℕ) (n : ℕ) (s : List ℕ) → All P s → All P (trim space n s)
unfolding trim
trim-All P space zero s h = h
trim-All P space (suc n) s h =
    let rest = trim-All P space n (drop (space s) s) (All-drop P (space s) s h) in
    elim (Bool-cases (space s == 0)) [ inl done ↦ rw done h | inr more ↦ rw more rest ]

All-reverse {κ} : (P : ℕ → Type κ) (s : List ℕ) → All P s → All P (reverse s)
All-reverse P [] h = tt
All-reverse P (x ∷ s) h =
    rw reverse-cons (All-append P (reverse s) (x ∷ []) (All-reverse P s h.1) (h.0, tt))

pub trim_space-All {κ} : (P : ℕ → Type κ) (s : List ℕ) → All P s → All P (trim_space s)
unfolding trim_space
trim_space-All P s h =
    let left = trim front_space (length s) s in
    All-reverse P (trim back_space (length left) (reverse left)) (
      trim-All P back_space (length left) (reverse left)
        (All-reverse P left (trim-All P front_space (length s) s h)))

trim_nothing : (space : List ℕ → ℕ) (n : ℕ) (s : List ℕ) → space s ≡ 0 → trim space n s ≡ s
unfolding trim
trim_nothing space zero s h = refl
trim_nothing space (suc n) s h =
    let done : (space s == 0) ≡ true = ground (arith, h) in rw done refl

-- A printable ASCII character that is no space.
abbrev pub IsInk : ℕ → Type 0
IsInk c = (32 < c) × (c < 128)

front_space-IsInk : (c : ℕ) (s : List ℕ) → IsInk c → front_space (c ∷ s) ≡ 0
unfolding front_space
front_space-IsInk c s h =
    let no1 : is_space1 c ≡ false = ground (arith, h.0) in
    let no2 : (c == 194) ≡ false = ground (arith, h.1) in
    let no3 : (c == 225) ≡ false = ground (arith, h.1) in
    let no4 : (c == 226) ≡ false = ground (arith, h.1) in
    let no5 : (c == 227) ≡ false = ground (arith, h.1) in rw (no2, no3, no4, no5) (rw no1 refl)

cut2 : (a : Bool) → (a && (false || false)) ≡ false
cut2 true = refl
cut2 false = refl

both : (a b : Bool) → (a && b && false) ≡ false
both true true = refl
both true false = refl
both false true = refl
both false false = refl

cut3 :
    (a b c d e f : Bool)
    → (a && b && false
        || c && d && (false || false || false || false)
        || c && e && false
        || f && d && false)
      ≡ false
cut3 a b c d e f = rw (both a b, both c d, both c e, both f d) refl

is_space2-IsInk : (a c : ℕ) → IsInk c → is_space2 a c ≡ false
is_space2-IsInk a c h =
    let no1 : (c == 133) ≡ false = ground (arith, h.1) in
    let no2 : (c == 160) ≡ false = ground (arith, h.1) in rw (no1, no2) (cut2 (a == 194))

is_space3-IsInk : (a b c : ℕ) → IsInk c → is_space3 a b c ≡ false
is_space3-IsInk a b c h =
    let no1 : (c == 128) ≡ false = ground (arith, h.1) in
    let no2 : (c == 168) ≡ false = ground (arith, h.1) in
    let no3 : (c == 169) ≡ false = ground (arith, h.1) in
    let no4 : (c == 175) ≡ false = ground (arith, h.1) in
    let no5 : (c == 159) ≡ false = ground (arith, h.1) in
    let no6 : leb 128 c ≡ false = ground (arith, h.1) in
    rw (no1, no2, no3, no4, no5, no6)
      (cut3 (a == 225) (b == 154) (a == 226) (b == 128) (b == 129) (a == 227))

back_space-IsInk : (c : ℕ) (s : List ℕ) → IsInk c → back_space (c ∷ s) ≡ 0
unfolding back_space
back_space-IsInk c s h =
    let no1 : is_space1 c ≡ false = ground (arith, h.0) in
    let no2 = is_space2-IsInk (get_or s 0 0) c h in
    let no3 = is_space3-IsInk (get_or s 1 0) (get_or s 0 0) c h in
    let third : Bool → ℕ = λ t. if t then 3 else 0 in
    let second : Bool → ℕ =
      λ t. if t then 2 else third (is_space3 (get_or s 1 0) (get_or s 0 0) c) in
    let first : Bool → ℕ = λ t. if t then 1 else second (is_space2 (get_or s 0 0) c) in
    ap first no1 ∙ ap second no2 ∙ ap third no3

pub trim_space-IsInk :
    (c : ℕ) (s t : List ℕ) (d : ℕ)
    → IsInk c
    → IsInk d
    → c ∷ s ≡ t ++ (d ∷ [])
    → trim_space (c ∷ s) ≡ c ∷ s
unfolding trim_space
trim_space-IsInk c s t d first last e =
    let left : trim front_space (length (c ∷ s)) (c ∷ s) ≡ c ∷ s =
      trim_nothing front_space (length (c ∷ s)) (c ∷ s) (front_space-IsInk c s first) in
    let turned : reverse (c ∷ s) ≡ d ∷ reverse t = ap reverse e ∙ reverse-append t (d ∷ []) in
    let stays : trim back_space (length (c ∷ s)) (reverse (c ∷ s)) ≡ reverse (c ∷ s) =
      trim_nothing back_space (length (c ∷ s)) (reverse (c ∷ s))
        (ap back_space turned ∙ back_space-IsInk d (reverse t) last) in
    ap (λ l. reverse (trim back_space (length l) (reverse l))) left
    ∙ ap reverse stays
    ∙ reverse-reverse (c ∷ s)
