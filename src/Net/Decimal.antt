-- ===== src/Net/Decimal.antt =====
-- Itoa and Atoi of strconv.
use niulang.Prelude.{
  ℕ, zero, suc, ◌+◌, ◌-◌, ◌*◌, ◌/◌, ◌%◌, ◌^◌, ◌≤◌, ◌<◌, ◌≡◌, ◌≢◌, refl, sym, ap, ◌∙◌, arith, Bool,
  true, false, ◌&&◌, Option, none, some, List, [], ◌∷◌, ◌++◌, ltb, leb, ◌==◌, if◌then◌else◌, length,
  length-append, All, All-append, Bool-cases, inl, inr,
}
use niulang.Net.{
  digits, itoa, ℤ, pos, negsuc, parse_digits, positive, negative, some_digits, atoi, port_number,
}
use native.Mathlib.Nat.{pow-suc}

abbrev pub IsDigit : ℕ → Type 0
IsDigit c = (48 ≤ c) × (c ≤ 57)

pub digits-IsDigit : (k n : ℕ) → All IsDigit (digits k n)
unfolding digits
digits-IsDigit zero n = tt
digits-IsDigit (suc k) n = elim (Bool-cases (ltb n 10)) [
  | inl small ↦
      let l : n < 10 = ground (arith, small) in rw small ((omega arith, omega (arith, l)), tt)
  | inr large ↦ rw large (
      All-append IsDigit (digits k (n / 10)) ((48 + n % 10) ∷ []) (digits-IsDigit k (n / 10))
        ((omega arith, omega arith), tt))
]

parse_digits-append :
    (acc v : ℕ) (xs : List ℕ) (c : ℕ)
    → parse_digits acc xs ≡ some v
    → IsDigit c
    → parse_digits acc (xs ++ (c ∷ [])) ≡ some (v * 10 + (c - 48))
unfolding parse_digits
parse_digits-append acc v [] c h d =
    let fits : (leb 48 c && leb c 57) ≡ true = ground (arith, d.0, d.1) in
    let e : acc ≡ v = ground (arith, h) in rw fits (ap (λ t. some (t * 10 + (c - 48))) e)
parse_digits-append acc v (x ∷ xs) c h d = elim (Bool-cases (leb 48 x && leb x 57)) [
  | inl fits ↦ rw fits (parse_digits-append (acc * 10 + (x - 48)) v xs c (rw fits at h) d)
  | inr strange ↦ absurd (ground (arith, rw strange at h))
]

one_digit : (k n : ℕ) → n < 10 → parse_digits 0 (digits (suc k) n) ≡ some n
unfolding digits parse_digits
one_digit k n s =
    let small : ltb n 10 ≡ true = ground (arith, s) in
    let fits : (leb 48 (48 + n) && leb (48 + n) 57) ≡ true = ground (arith, s) in
    rw small (rw fits (ap some (omega arith)))

-- The digits of a number are read back.
pub parse_digits-digits : (k n : ℕ) → n < 10 ^ suc k → parse_digits 0 (digits (suc k) n) ≡ some n
unfolding digits parse_digits
parse_digits-digits zero n l = one_digit 0 n (omega arith)
parse_digits-digits (suc j) n l = elim (Bool-cases (ltb n 10)) [
  | inl small ↦ one_digit (suc j) n (ground (arith, small))
  | inr large ↦
      let less : n / 10 < 10 ^ suc j = omega (arith, pow-suc 10 (suc j)) in
      rw large (
        parse_digits-append 0 (n / 10) (digits (suc j) (n / 10)) (48 + n % 10)
          (parse_digits-digits j (n / 10) less) (omega arith, omega arith)
        ∙ ap some (omega arith))
]

pub digits-length : (k n m : ℕ) → n < 10 ^ suc m → length (digits k n) ≤ suc m
unfolding digits
digits-length zero n m l = omega arith
digits-length (suc k) n zero l =
    let small : ltb n 10 ≡ true = ground (arith, l) in rw small (omega arith)
digits-length (suc k) n (suc m) l = elim (Bool-cases (ltb n 10)) [
  | inl small ↦ rw small (omega arith)
  | inr large ↦
      let rest = digits-length k (n / 10) m (omega (arith, pow-suc 10 (suc m))) in
      rw large (omega (arith, rest, length-append (digits k (n / 10)) ((48 + n % 10) ∷ [])))
]

scale : (a b p : ℕ) → a ≤ b → a * p ≤ b * p
scale a b p h = grind arith

-- A text of digits that Atoi reads is a number of no more digits.
pub parse_digits-lt :
    (acc v : ℕ) (cs : List ℕ) → parse_digits acc cs ≡ some v → v < (acc + 1) * 10 ^ length cs
unfolding parse_digits
parse_digits-lt acc v [] h = let e : acc ≡ v = ground (arith, h) in omega (arith, e)
parse_digits-lt acc v (c ∷ cs) h = elim (Bool-cases (leb 48 c && leb c 57)) [
  | inr strange ↦ absurd (ground (arith, rw strange at h))
  | inl fits ↦
      let less : c - 48 ≤ 9 = ground (arith, fits) in
      let rest = parse_digits-lt (acc * 10 + (c - 48)) v cs (rw fits at h) in
      rw pow-suc (
        grind (arith, rest, less, scale (acc * 10 + (c - 48) + 1) (acc * 10 + 10) (10 ^ length cs)))
]

pub length-digits : (k n : ℕ) → 1 ≤ length (digits (suc k) n)
unfolding digits
length-digits k n = elim (Bool-cases (ltb n 10)) [
  | inl small ↦ rw small (omega arith)
  | inr large ↦ rw large (omega (arith, length-append (digits k (n / 10)) ((48 + n % 10) ∷ [])))
]

atoi-digits :
    (ds : List ℕ) (n : ℕ)
    → All IsDigit ds
    → 1 ≤ length ds
    → parse_digits 0 ds ≡ some n
    → n < 2 ^ 63
    → atoi ds ≡ some (pos n)
unfolding atoi
atoi-digits [] n d l h less = absurd (omega (arith, l))
atoi-digits (c ∷ cs) n d l h less =
    let plus : (c == 43) ≡ false = ground (arith, d.0) in
    let minus : (c == 45) ≡ false = ground (arith, d.0) in
    let fits : ltb n (2 ^ 63) ≡ true = ground (arith, less) in
    rw plus (rw minus (ap positive h ∙ ap (λ b. if b then some (pos n) else none) fits))

pub atoi-itoa : (n : ℕ) → n < 2 ^ 63 → atoi (itoa n) ≡ some (pos n)
unfolding itoa
atoi-itoa n l =
    atoi-digits (digits 20 n) n (digits-IsDigit 20 n) (length-digits 19 n)
      (parse_digits-digits 19 n (omega (arith, l))) l

pub port_number-itoa : (p : ℕ) → 1 ≤ p → p ≤ 65535 → port_number (atoi (itoa p)) ≡ some p
port_number-itoa p one most =
    let fits : (leb 1 p && leb p 65535) ≡ true = ground (arith, one, most) in
    ap port_number (atoi-itoa p (omega arith)) ∙ ap (λ b. if b then some p else none) fits

pos-injective : (m n : ℕ) → (let t : Option ℤ = some (pos m) in t ≡ some (pos n)) → m ≡ n
pos-injective m n h =
    let get : Option ℤ → ℕ = λ o. elim o as (λ _. ℕ) [
      | none ↦ n
      | some z ↦ elim z as (λ _. ℕ) [ pos k ↦ k | negsuc k ↦ n ]
    ] in
    ap get h

positive-some : (o : Option ℕ) (n : ℕ) → positive o ≡ some (pos n) → o ≡ some n
positive-some none n h = absurd (cc)
positive-some (some m) n h = elim (Bool-cases (ltb m (2 ^ 63))) [
  | inl fits ↦ ap some (pos-injective m n (rw fits at h))
  | inr large ↦ absurd (ground (arith, rw large at h))
]

negative-zero : (o : Option ℕ) (n : ℕ) → 1 ≤ n → negative o ≢ some (pos n)
negative-zero none n one h = absurd (cc)
negative-zero (some zero) n one h = absurd (omega (arith, one, pos-injective 0 n h))
negative-zero (some (suc m)) n one h = elim (Bool-cases (ltb m (2 ^ 63))) [
  | inl fits ↦ absurd (ground (arith, rw fits at h))
  | inr large ↦ absurd (ground (arith, rw large at h))
]

some_digits-lt : (cs : List ℕ) (n : ℕ) → some_digits cs ≡ some n → n < 10 ^ length cs
some_digits-lt [] n h = absurd (cc)
some_digits-lt (c ∷ cs) n h = omega (arith, parse_digits-lt 0 n (c ∷ cs) h)

-- A positive number that Atoi reads has no more digits than its text.
pub atoi-lt : (cs : List ℕ) (n : ℕ) → 1 ≤ n → atoi cs ≡ some (pos n) → n < 10 ^ length cs
unfolding atoi
atoi-lt [] n one h = absurd (cc)
atoi-lt (c ∷ cs) n one h = elim (Bool-cases (c == 43)) [
  | inl plus ↦
      let e = some_digits-lt cs n (positive-some (some_digits cs) n (rw plus at h)) in
      rw pow-suc (omega (arith, e))
  | inr other ↦
      let e = rw other at h in
      elim (Bool-cases (c == 45)) [
        | inl minus ↦ absurd (negative-zero (some_digits cs) n one (rw minus at e))
        | inr digit ↦
            some_digits-lt (c ∷ cs) n (positive-some (some_digits (c ∷ cs)) n (rw digit at e))
      ]
]

-- The digits of a number that Atoi reads are no more than it read.
pub length-itoa_le :
    (cs : List ℕ) (p : ℕ) → 1 ≤ p → atoi cs ≡ some (pos p) → length (itoa p) ≤ length cs
unfolding itoa atoi
length-itoa_le [] p one h = absurd (cc)
length-itoa_le (c ∷ cs) p one h = digits-length 20 p (length cs) (atoi-lt (c ∷ cs) p one h)

digits-last : (k n : ℕ) → (t : List ℕ) × (d : ℕ) × (digits (suc k) n ≡ t ++ (d ∷ [])) × IsDigit d
unfolding digits
digits-last k n = elim (Bool-cases (ltb n 10)) [
  | inl small ↦
      let l : n < 10 = ground (arith, small) in
      ([], 48 + n, rw small refl, (omega arith, omega (arith, l)))
  | inr large ↦ (digits k (n / 10), 48 + n % 10, rw large refl, (omega arith, omega arith))
]

pub itoa-last : (n : ℕ) → (t : List ℕ) × (d : ℕ) × (itoa n ≡ t ++ (d ∷ [])) × IsDigit d
unfolding itoa
itoa-last n = digits-last 19 n

pub itoa-IsDigit : (n : ℕ) → All IsDigit (itoa n)
unfolding itoa
itoa-IsDigit n = digits-IsDigit 20 n

pub port_number-some :
    (o : Option ℤ) (p : ℕ) → port_number o ≡ some p → (o ≡ some (pos p)) × (1 ≤ p) × (p ≤ 65535)
port_number-some none p h = absurd (cc)
port_number-some (some (negsuc m)) p h = absurd (cc)
port_number-some (some (pos q)) p h =
    let answer : Bool → Option ℕ = λ b. if b then some q else none in
    elim (Bool-cases (leb 1 q && leb q 65535)) [
      | inl fits ↦
          let e : q ≡ p = ground (arith, ap answer (sym fits) ∙ h) in
          (ap (λ k. some (pos k)) e, ground (arith, fits, e), ground (arith, fits, e))
      | inr strange ↦ absurd (ground (arith, ap answer (sym strange) ∙ h))
    ]
