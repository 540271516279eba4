-- ===== src/MemLimit/Laws.antt =====
-- What a client of internal/memlimit/budget.go knows of TryAcquire and Release, with both shut.
use niulang.Prelude.{
  ℕ, ◌+◌, ◌-◌, ◌≤◌, ◌≡◌, refl, arith, true, Option, none, some, ◌==◌, ok, Bool-cases, inl, inr,
}
use niulang.MemLimit.{Budget, charge, try_acquire, release}

-- Bytes that are charged can be released, and are then charged no more.
pub release_charged :
    (b : Budget) (n : ℕ)
    → n ≤ b.used
    → (b' : Budget) × (release (some b) n ≡ ok (some b')) × (b'.used ≡ b.used - n)
unfolding release
release_charged b n h = elim (Bool-cases (n == 0)) [
  | inl z ↦ (b, rw z, ground arith)
  | inr p ↦ (record b { used = b.used - n; changed = b.changed + 1 }, ground arith, refl)
]

pub release_nil : (n : ℕ) → release none n ≡ ok none
unfolding release
release_nil n = refl

pub try_acquire_nil : (n : ℕ) → try_acquire none n ≡ (true, none)
unfolding try_acquire
try_acquire_nil n = refl

-- What TryAcquire admits is charged.
pub try_acquire_charged :
    (b : Budget) (n : ℕ) (m : Option Budget)
    → try_acquire (some b) n ≡ (true, m)
    → (b' : Budget) × (m ≡ some b') × (b'.used ≡ b.used + n)
unfolding try_acquire
try_acquire_charged b n m e = elim (Bool-cases (n == 0)) [
  | inl z ↦ (b, ground arith, ground arith)
  | inr p ↦ (charge b n, ground arith, ground arith)
]
