-- ===== src/MemLimit/Promises.antt =====
-- What internal/memlimit/budget.go promises its callers, from a new budget on.
use niulang.Prelude.{
  ℕ, ◌+◌, ◌-◌, ◌≤◌, ◌≡◌, ◌≢◌, refl, ap, ◌∙◌, arith, false, some, List, [], ◌∷◌, ◌++◌, ok, All,
  All-back, Bool-cases, inl, inr, ◌==◌,
}
use mathlib.Core.Path.{subst}
use niulang.MemLimit.{Budget, granted, new, acquire_round, acquire_woken, try_acquire, release}
use niulang.MemLimit.Flows.{
  Flow, waiting, holding, System, Step, arrive, round, wake, give_up, try_, give_back, Reach, here,
  next, held, sleepers, Settled,
}
use niulang.MemLimit.Safety.{IsConsistent, Reach-IsConsistent}

Step-capacity : {s t : System} → Step s t → t.budget.capacity ≡ s.budget.capacity
unfolding acquire_round acquire_woken try_acquire release
Step-capacity (arrive b flows n pos fit) = refl
Step-capacity (round b b' front back n done a e) = ground arith
Step-capacity (wake b front back n channel ne) = refl
Step-capacity (give_up b front back n channel) = refl
Step-capacity (try_ b b' flows n e) = ground arith
Step-capacity (give_back b b' front back n e) = ground arith

Reach-capacity : {s t : System} → Reach s t → t.budget.capacity ≡ s.budget.capacity
Reach-capacity here = refl
Reach-capacity (next r st) = Step-capacity st ∙ Reach-capacity r

-- A new budget with no flows.
abbrev pub start : Budget → System
start b = record { budget = b; flows = [] }

new-IsConsistent : (capacity : ℕ) (b : Budget) → new capacity ≡ some b → IsConsistent (start b)
unfolding new
new-IsConsistent capacity b e = record {
  bounded = ground arith;
  accounted = ground arith;
  counted = ground arith;
  settled = tt;
}

new-capacity : (capacity : ℕ) (b : Budget) → new capacity ≡ some b → b.capacity ≡ capacity
unfolding new
new-capacity capacity b e = ground arith

-- What stands in the middle of a list stands behind its front.
Settled-at :
    (s : System) (front : List Flow) (f : Flow) (back : List Flow)
    → s.flows ≡ front ++ (f ∷ back)
    → IsConsistent s
    → Settled s.budget f
Settled-at s front f back e c =
    (All-back (Settled s.budget) front (f ∷ back) (subst (All (Settled s.budget)) e c.settled)).0

held_at : (front : List Flow) (n : ℕ) (back : List Flow) → n ≤ held (front ++ (holding n ∷ back))
held_at [] n back = omega arith
held_at (Flow.trying m ∷ front) n back = held_at front n back
held_at (waiting m c ∷ front) n back = held_at front n back
held_at (holding m ∷ front) n back = omega (arith, held_at front n back)
held_at (Flow.finished ∷ front) n back = held_at front n back

module _ (capacity : ℕ) (b : Budget) (s : System) (made : new capacity ≡ some b)
    (reached : Reach (start b) s) where
  consistent : IsConsistent s
  consistent = Reach-IsConsistent (new-IsConsistent capacity b made) reached

  same_capacity : s.budget.capacity ≡ capacity
  same_capacity = Reach-capacity reached ∙ new-capacity capacity b made

  -- In every reachable state the flows together own at most the capacity, `used` is exactly what
  -- they own, `waiters` is exactly how many sleep, and the peak lies between use and capacity.
  pub hard_limit :
      (held s.flows ≤ capacity)
      × (s.budget.used ≡ held s.flows)
      × (s.budget.waiters ≡ sleepers s.flows)
      × (s.budget.used ≤ s.budget.peak)
      × (s.budget.peak ≤ capacity)
  hard_limit = omega (arith, consistent, same_capacity)

  -- No wakeup is lost: a sleeper whose request fits now has had its channel closed, and once awake
  -- its next pass is granted.
  pub no_lost_wakeup :
      (front : List Flow) (n channel : ℕ) (back : List Flow)
      → s.flows ≡ front ++ (waiting n channel ∷ back)
      → held s.flows + n ≤ capacity
      → (channel ≢ s.budget.changed)
        × ((acquire_round (acquire_woken s.budget) n false).0 ≡ granted)
  unfolding acquire_round acquire_woken
  no_lost_wakeup front n channel back e room =
      let w = Settled-at s front (waiting n channel) back e consistent in
      (
        λ q. absurd (omega (arith, w.2 q, consistent, same_capacity)),
        ground (arith, consistent, same_capacity),
      )

  -- A flow that releases what it acquired never meets the panic.
  pub release-ne-panic :
      (front : List Flow) (n : ℕ) (back : List Flow)
      → s.flows ≡ front ++ (holding n ∷ back)
      → (b' : Budget) × (release (some s.budget) n ≡ ok (some b'))
  unfolding release
  release-ne-panic front n back e =
      let owned : n ≤ s.budget.used =
        omega (arith, consistent, ap (λ fs. held fs) e, held_at front n back) in
      elim (Bool-cases (n == 0)) [
        | inl z ↦ (s.budget, rw z)
        | inr p ↦ (
          record s.budget { used = s.budget.used - n; changed = s.budget.changed + 1 },
          ground arith,
        )
      ]
