-- ===== src/Pep/FlowScheduler/Counts.antt =====
-- Counting the grants of internal/pep/flowscheduler.go that satisfy a test.
use niulang.Prelude.{ℕ, zero, suc, ◌+◌, ◌<◌, ◌≡◌, ◌≢◌, refl, ap, arith, Bool, true, false}
use native.Mathlib.Decide.{ℕ_discrete}

abbrev pub bit : Bool → ℕ
bit true = 1
bit false = 0

-- How many numbers below `n` pass the test.
abbrev pub count : (ℕ → Bool) → ℕ → ℕ
count p zero = 0
count p (suc n) = bit (p n) + count p n

pub count-agree : (p q : ℕ → Bool) (n : ℕ) → ((i : ℕ) → i < n → p i ≡ q i) → count p n ≡ count q n
count-agree p q zero h = refl
count-agree p q (suc n) h =
    let rest = count-agree p q n (λ i l. h i (omega arith)) in
    omega (arith, rest, ap bit (h n (omega arith)))

pub count-none : (p : ℕ → Bool) (n : ℕ) → ((i : ℕ) → i < n → p i ≡ false) → count p n ≡ 0
count-none p zero h = refl
count-none p (suc n) h =
    let rest = count-none p n (λ i l. h i (omega arith)) in
    omega (arith, rest, ap bit (h n (omega arith)))

-- Two tests that differ at one number at most.
pub count-change :
    (p q : ℕ → Bool) (k n : ℕ)
    → k < n
    → ((i : ℕ) → i ≢ k → p i ≡ q i)
    → count q n + bit (p k) ≡ count p n + bit (q k)
count-change p q k zero l h = absurd (omega arith)
count-change p q k (suc n) l h = elim (ℕ_discrete n k) [
  | yes e ↦
      let rest = count-agree p q n (λ i less. h i (λ same. absurd (omega arith))) in
      omega (arith, rest, ap (λ j. bit (p j)) e, ap (λ j. bit (q j)) e)
  | no ne ↦ let rest = count-change p q k n (omega arith) h in omega (arith, rest, ap bit (h n ne))
]

pub count-positive : (p : ℕ → Bool) (k n : ℕ) → k < n → p k ≡ true → 0 < count p n
count-positive p k zero l h = absurd (omega arith)
count-positive p k (suc n) l h = elim (ℕ_discrete n k) [
  | yes e ↦ omega (arith, ap (λ j. bit (p j)) e, ap bit h)
  | no ne ↦ omega (arith, count-positive p k n (omega arith) h)
]
