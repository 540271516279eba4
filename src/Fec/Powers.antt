-- ===== src/Fec/Powers.antt =====
-- The tables of internal/fec/gf.go, checked entry by entry.
use niulang.Prelude.{
  ℕ, zero, suc, ◌+◌, ◌-◌, ◌≤◌, ◌<◌, ◌≡◌, refl, sym, ap, ◌∙◌, arith, Bool, true, false, ◌&&◌, ltb,
  ◌==◌, get_or, bit_xor, Bool-cases, inl, inr,
}
use mathlib.Core.Path.{subst}
use niulang.Fec.{double, gf_exp, gf_log}

-- A test that every number below a bound passes.
abbrev pub all_below : ℕ → (ℕ → Bool) → Bool
all_below zero f = true
all_below (suc n) f = f n && all_below n f

abbrev double_linear : ℕ → ℕ → Bool
double_linear x y = double (bit_xor x y) == bit_xor (double x) (double y)

linear_table : all_below 256 (λ x. all_below 256 (double_linear x)) ≡ true
linear_table = refl

pub all_below-true : (n : ℕ) (f : ℕ → Bool) → all_below n f ≡ true → (x : ℕ) → x < n → f x ≡ true
all_below-true zero f h x l = absurd (omega (arith, l))
all_below-true (suc n) f h x l =
    let (top, rest) = both (f n) (all_below n f) h in
    elim (Bool-cases (x == n)) [
      | inl same ↦ let e : x ≡ n = ground (arith, same) in ap f e ∙ top
      | inr other ↦ all_below-true n f rest x (ground (arith, other, l))
    ]
  where
    both : (a b : Bool) → a && b ≡ true → (a ≡ true) × (b ≡ true)
    both true true h = (refl, refl)
    both true false h = absurd (cc)
    both false b h = absurd (cc)

equal : (x y : ℕ) → (x == y) ≡ true → x ≡ y
equal x y h = ground (arith, h)

-- Doubling is linear over the bytes.
pub double-bit_xor :
    (x y : ℕ) → x < 256 → y < 256 → double (bit_xor x y) ≡ bit_xor (double x) (double y)
double-bit_xor x y lx ly = equal (double (bit_xor x y)) (bit_xor (double x) (double y)) (
    all_below-true 256 (double_linear x)
      (all_below-true 256 (λ k. all_below 256 (double_linear k)) linear_table x lx) y ly)

double_table : all_below 256 (λ x. ltb (double x) 256) ≡ true
double_table = refl

pub double-lt : (x : ℕ) → x < 256 → double x < 256
double-lt x l =
    let h = all_below-true 256 (λ k. ltb (double k) 256) double_table x l in ground (arith, h)

xor_table : all_below 256 (λ x. all_below 256 (λ y. ltb (bit_xor x y) 256)) ≡ true
xor_table = refl

pub bit_xor-lt : (x y : ℕ) → x < 256 → y < 256 → bit_xor x y < 256
bit_xor-lt x y lx ly =
    let h =
      all_below-true 256 (λ k. ltb (bit_xor x k) 256)
        (all_below-true 256 (λ k. all_below 256 (λ j. ltb (bit_xor k j) 256)) xor_table x lx) y
        ly in
    ground (arith, h)

unfoldable pub iterate : ℕ → ℕ → ℕ
iterate zero x = x
iterate (suc k) x = double (iterate k x)

step_table : all_below 511 (λ i. get_or gf_exp (i + 1) 0 == double (get_or gf_exp i 0)) ≡ true
step_table = refl

-- An entry of gfExp is a power.
pub gf_exp-iterate : (i : ℕ) → i < 512 → get_or gf_exp i 0 ≡ iterate i 1
unfolding iterate
gf_exp-iterate zero l = refl
gf_exp-iterate (suc i) l =
    let h =
      all_below-true 511 (λ k. get_or gf_exp (k + 1) 0 == double (get_or gf_exp k 0)) step_table i
        (omega (arith, l)) in
    let e : i + 1 ≡ suc i = omega arith in
    ap (λ k. get_or gf_exp k 0) (sym e)
    ∙ equal (get_or gf_exp (i + 1) 0) (double (get_or gf_exp i 0)) h
    ∙ ap double (gf_exp-iterate i (omega (arith, l)))

log_table : all_below 255 (λ i. get_or gf_exp (gf_log (i + 1)) 0 == i + 1) ≡ true
log_table = refl

log_bounds : all_below 256 (λ a. ltb (gf_log a) 255) ≡ true
log_bounds = refl

pub gf_log-lt : (a : ℕ) → a < 256 → gf_log a < 255
gf_log-lt a l =
    let h = all_below-true 256 (λ k. ltb (gf_log k) 255) log_bounds a l in ground (arith, h)

-- A byte that is not zero is the power at its logarithm.
pub iterate-gf_log : (a : ℕ) → 1 ≤ a → a < 256 → iterate (gf_log a) 1 ≡ a
iterate-gf_log a one l =
    let e : (a - 1) + 1 ≡ a = omega (arith, one) in
    let h =
      all_below-true 255 (λ i. get_or gf_exp (gf_log (i + 1)) 0 == i + 1) log_table (a - 1)
        (omega (arith, one, l)) in
    let at : get_or gf_exp (gf_log a) 0 ≡ a =
      subst (λ k. get_or gf_exp (gf_log k) 0 ≡ k) e
        (equal (get_or gf_exp (gf_log ((a - 1) + 1)) 0) ((a - 1) + 1) h) in
    let small = gf_log-lt a l in sym (gf_exp-iterate (gf_log a) (omega (arith, small))) ∙ at
