-- ===== src/Fec/Field.antt =====
-- The bytes with bit_xor and the tables of internal/fec/gf.go are a field.
use niulang.Prelude.{
  ℕ, zero, suc, ◌+◌, ◌-◌, ◌≤◌, ◌<◌, ◌≡◌, refl, sym, ap, ◌∙◌, arith, Bool, true, false, ◌||◌, ltb,
  ◌==◌, if◌then◌else◌, get_or, bit_xor, Bool-cases, inl, inr,
}
use niulang.Fec.{double, gf_exp, gf_log, gf_mul, inv}
use niulang.Fec.Powers.{
  all_below, all_below-true, double-bit_xor, double-lt, bit_xor-lt, iterate, gf_exp-iterate,
  gf_log-lt, iterate-gf_log,
}
use mathlib.Core.Path.{subst}

iterate_add : (j k x : ℕ) → iterate (j + k) x ≡ iterate j (iterate k x)
unfolding iterate
iterate_add zero k x = let e : 0 + k ≡ k = omega arith in ap (λ t. iterate t x) e
iterate_add (suc j) k x =
    let e : suc j + k ≡ suc (j + k) = omega arith in
    ap (λ t. iterate t x) e ∙ ap double (iterate_add j k x)

iterate_swap : (j k x : ℕ) → iterate j (iterate k x) ≡ iterate k (iterate j x)
iterate_swap j k x =
    let e : j + k ≡ k + j = omega arith in
    sym (iterate_add j k x) ∙ ap (λ t. iterate t x) e ∙ iterate_add k j x

iterate-zero : (k : ℕ) → iterate k 0 ≡ 0
unfolding iterate
iterate-zero zero = refl
iterate-zero (suc k) = ap double (iterate-zero k)

iterate-lt : (k x : ℕ) → x < 256 → iterate k x < 256
unfolding iterate
iterate-lt zero x l = l
iterate-lt (suc k) x l = double-lt (iterate k x) (iterate-lt k x l)

iterate-bit_xor :
    (k x y : ℕ) → x < 256 → y < 256 → iterate k (bit_xor x y) ≡ bit_xor (iterate k x) (iterate k y)
unfolding iterate
iterate-bit_xor zero x y lx ly = refl
iterate-bit_xor (suc k) x y lx ly =
    ap double (iterate-bit_xor k x y lx ly)
    ∙ double-bit_xor (iterate k x) (iterate k y) (iterate-lt k x lx) (iterate-lt k y ly)

pub gf_mul_comm : (a b : ℕ) → gf_mul a b ≡ gf_mul b a
unfolding gf_mul
gf_mul_comm a b = elim (Bool-cases (a == 0)) [
  | inl none_a ↦ elim (Bool-cases (b == 0)) [
    | inl none_b ↦ rw (none_a, none_b) refl
    | inr some_b ↦ rw (none_a, some_b) refl
  ]
  | inr some_a ↦ elim (Bool-cases (b == 0)) [
    | inl none_b ↦ rw (some_a, none_b) refl
    | inr some_b ↦
        let e : gf_log a + gf_log b ≡ gf_log b + gf_log a = omega arith in
        ap (λ t. if t then 0 else get_or gf_exp (gf_log a + gf_log b) 0)
          (or-false (a == 0) (b == 0) some_a some_b)
        ∙ ap (λ k. get_or gf_exp k 0) e
        ∙ ap (λ t. if t then 0 else get_or gf_exp (gf_log b + gf_log a) 0)
            (sym (or-false (b == 0) (a == 0) some_b some_a))
  ]
]
  where
    or-false : (x y : Bool) → x ≡ false → y ≡ false → (x || y) ≡ false
    or-false false false e e' = refl
    or-false false true e e' = absurd (cc)
    or-false true y e e' = absurd (cc)

-- A product is repeated doubling.
gf_mul-iterate : (a b : ℕ) → 1 ≤ a → a < 256 → b < 256 → gf_mul a b ≡ iterate (gf_log a) b
unfolding gf_mul
gf_mul-iterate a b one la lb =
    let some_a : (a == 0) ≡ false = ground (arith, one) in
    let way : Bool → ℕ = λ t. if t then 0 else get_or gf_exp (gf_log a + gf_log b) 0 in
    elim (Bool-cases (b == 0)) [
      | inl none_b ↦
          let e : b ≡ 0 = ground (arith, none_b) in
          ap (λ t. way (t || b == 0)) some_a
          ∙ ap way none_b
          ∙ sym (iterate-zero (gf_log a))
          ∙ ap (iterate (gf_log a)) (sym e)
      | inr some_b ↦
          let one_b : 1 ≤ b = ground (arith, some_b) in
          let small_a = gf_log-lt a la in
          let small_b = gf_log-lt b lb in
          ap (λ t. way (t || b == 0)) some_a
          ∙ ap way some_b
          ∙ gf_exp-iterate (gf_log a + gf_log b) (omega (arith, small_a, small_b))
          ∙ iterate_add (gf_log a) (gf_log b) 1
          ∙ ap (iterate (gf_log a)) (iterate-gf_log b one_b lb)
    ]

gf_mul-zero : (b : ℕ) → gf_mul 0 b ≡ 0
unfolding gf_mul
gf_mul-zero b = refl

pub gf_mul-lt : (a b : ℕ) → a < 256 → b < 256 → gf_mul a b < 256
gf_mul-lt zero b la lb = omega (arith, gf_mul-zero b)
gf_mul-lt (suc a) b la lb =
    omega (arith, gf_mul-iterate (suc a) b (omega arith) la lb, iterate-lt (gf_log (suc a)) b lb)

gf_mul_distrib :
    (a b c : ℕ)
    → a < 256
    → b < 256
    → c < 256
    → gf_mul a (bit_xor b c) ≡ bit_xor (gf_mul a b) (gf_mul a c)
gf_mul_distrib zero b c la lb lc =
    gf_mul-zero (bit_xor b c)
    ∙ sym (ap (λ t. bit_xor t (gf_mul 0 c)) (gf_mul-zero b) ∙ ap (bit_xor 0) (gf_mul-zero c))
gf_mul_distrib (suc a) b c la lb lc =
    let one : 1 ≤ suc a = omega arith in
    gf_mul-iterate (suc a) (bit_xor b c) one la (bit_xor-lt b c lb lc)
    ∙ iterate-bit_xor (gf_log (suc a)) b c lb lc
    ∙ ap (λ t. bit_xor t (iterate (gf_log (suc a)) c)) (sym (gf_mul-iterate (suc a) b one la lb))
    ∙ ap (λ t. bit_xor (gf_mul (suc a) b) t) (sym (gf_mul-iterate (suc a) c one la lc))

-- Two factors commute past each other.
gf_mul_swap :
    (a b c : ℕ) → a < 256 → b < 256 → c < 256 → gf_mul a (gf_mul b c) ≡ gf_mul b (gf_mul a c)
gf_mul_swap zero b c la lb lc =
    gf_mul-zero (gf_mul b c) ∙ sym (ap (gf_mul b) (gf_mul-zero c) ∙ gf_mul_comm b 0 ∙ gf_mul-zero b)
gf_mul_swap (suc a) zero c la lb lc =
    ap (gf_mul (suc a)) (gf_mul-zero c)
    ∙ gf_mul_comm (suc a) 0
    ∙ gf_mul-zero (suc a)
    ∙ sym (gf_mul-zero (gf_mul (suc a) c))
gf_mul_swap (suc a) (suc b) c la lb lc =
    let one_a : 1 ≤ suc a = omega arith in
    let one_b : 1 ≤ suc b = omega arith in
    gf_mul-iterate (suc a) (gf_mul (suc b) c) one_a la (gf_mul-lt (suc b) c lb lc)
    ∙ ap (iterate (gf_log (suc a))) (gf_mul-iterate (suc b) c one_b lb lc)
    ∙ iterate_swap (gf_log (suc a)) (gf_log (suc b)) c
    ∙ ap (iterate (gf_log (suc b))) (sym (gf_mul-iterate (suc a) c one_a la lc))
    ∙ sym (gf_mul-iterate (suc b) (gf_mul (suc a) c) one_b lb (gf_mul-lt (suc a) c la lc))

pub gf_mul_assoc :
    (a b c : ℕ) → a < 256 → b < 256 → c < 256 → gf_mul (gf_mul a b) c ≡ gf_mul a (gf_mul b c)
gf_mul_assoc a b c la lb lc =
    gf_mul_comm (gf_mul a b) c ∙ gf_mul_swap c a b lc la lb ∙ ap (gf_mul a) (gf_mul_comm c b)

inverse_table : all_below 255 (λ i. gf_mul (i + 1) (inv (i + 1)) == 1) ≡ true
unfolding gf_mul inv
inverse_table = refl

unit_table : all_below 256 (λ a. gf_mul 1 a == a) ≡ true
unfolding gf_mul
unit_table = refl

inv_table : all_below 256 (λ a. ltb (inv a) 256) ≡ true
unfolding inv
inv_table = refl

pub gf_mul-inv : (a : ℕ) → 1 ≤ a → a < 256 → gf_mul a (inv a) ≡ 1
gf_mul-inv a one la =
    let e : (a - 1) + 1 ≡ a = omega (arith, one) in
    let h =
      all_below-true 255 (λ i. gf_mul (i + 1) (inv (i + 1)) == 1) inverse_table (a - 1)
        (omega (arith, la, one)) in
    let at : gf_mul ((a - 1) + 1) (inv ((a - 1) + 1)) ≡ 1 = ground (arith, h) in
    subst (λ k. gf_mul k (inv k) ≡ 1) e at

pub gf_mul-one : (a : ℕ) → a < 256 → gf_mul 1 a ≡ a
gf_mul-one a la =
    let h = all_below-true 256 (λ k. gf_mul 1 k == k) unit_table a la in ground (arith, h)

pub inv-lt : (a : ℕ) → a < 256 → inv a < 256
inv-lt a la = let h = all_below-true 256 (λ k. ltb (inv k) 256) inv_table a la in ground (arith, h)

pub inv-pos : (a : ℕ) → 1 ≤ a → a < 256 → 1 ≤ inv a
inv-pos a one la = elim (Bool-cases (inv a == 0)) [
  | inr some_inv ↦ ground (arith, some_inv)
  | inl none_inv ↦
      let e : inv a ≡ 0 = ground (arith, none_inv) in
      absurd (omega (arith, gf_mul-inv a one la, ap (gf_mul a) e ∙ gf_mul_comm a 0 ∙ gf_mul-zero a))
]

-- The table of products and `inv` make the bytes a field whose sum is the exclusive or: products are
-- bytes, commute, associate and distribute over sums, one is neutral, and `inv` of a byte that is not
-- zero is its inverse.
pub gf_mul-field :
    (a b c : ℕ)
    → a < 256
    → b < 256
    → c < 256
    → (gf_mul a b < 256)
      × (gf_mul a b ≡ gf_mul b a)
      × (gf_mul (gf_mul a b) c ≡ gf_mul a (gf_mul b c))
      × (gf_mul a (bit_xor b c) ≡ bit_xor (gf_mul a b) (gf_mul a c))
      × (gf_mul 1 a ≡ a)
      × (gf_mul a (inv a) ≡ (if a == 0 then 0 else 1))
gf_mul-field a b c la lb lc = (
  gf_mul-lt a b la lb,
  gf_mul_comm a b,
  gf_mul_assoc a b c la lb lc,
  gf_mul_distrib a b c la lb lc,
  gf_mul-one a la,
  inverse a la,
)
  where
    inverse : (a : ℕ) → a < 256 → gf_mul a (inv a) ≡ (if a == 0 then 0 else 1)
    inverse a la = elim (Bool-cases (a == 0)) [
      | inl none_a ↦
          let e : a ≡ 0 = ground (arith, none_a) in
          rw none_a (ap (λ k. gf_mul k (inv a)) e ∙ gf_mul-zero (inv a))
      | inr some_a ↦ let one : 1 ≤ a = ground (arith, some_a) in rw some_a (gf_mul-inv a one la)
    ]
