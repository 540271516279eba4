-- ===== src/Pep/FlowScheduler/Queues.antt =====
-- The queues of internal/pep/flowscheduler.go: pointers in the order in which they were queued.
use niulang.Prelude.{
  ℕ, suc, ◌≤◌, ◌<◌, ◌≡◌, ◌≢◌, sym, ap, ◌∙◌, arith, Bool, true, false, not, ◌&&◌, Option, none, some,
  List, [], ◌∷◌, ◌++◌, ◌==◌, All, Bool-cases, Option-cases, inl, inr, ◌⊎◌,
}
use mathlib.Core.Path.{subst}
use niulang.Pep.FlowScheduler.{
  Grant, Scheduler, update, eligible, first_eligible, first_other, without, or_else, taken,
  take_eligible,
}

-- Pointers from `lo` on and below `n`, ascending, to grants of one class that were not handed out.
abbrev pub Queue : (ℕ → Grant) → ℕ → ℕ → Bool → List ℕ → Type 0
Queue heap lo n flag [] = Unit {0}
Queue heap lo n flag (p ∷ ps) =
    (lo ≤ p)
    × (p < n)
    × ((heap p).granted ≡ false)
    × ((heap p).high ≡ flag)
    × Queue heap (suc p) n flag ps

pub Queue-le :
    (heap : ℕ → Grant) (a b n : ℕ) (flag : Bool) (q : List ℕ)
    → a ≤ b
    → Queue heap b n flag q
    → Queue heap a n flag q
Queue-le heap a b n flag [] l h = tt
Queue-le heap a b n flag (p ∷ ps) l h = (omega arith, h.1, h.2, h.3, h.4)

abbrev pub Absent : ℕ → List ℕ → Type 0
Absent p q = All (λ j. j ≢ p) q

-- A write to a grant that is not in the queue.
pub Queue-Absent :
    (heap : ℕ → Grant) (p : ℕ) (g : Grant) (lo n : ℕ) (flag : Bool) (q : List ℕ)
    → Absent p q
    → Queue heap lo n flag q
    → Queue (update heap p g) lo n flag q
Queue-Absent heap p g lo n flag [] a h = tt
Queue-Absent heap p g lo n flag (j ∷ js) a h =
    let other : (p == j) ≡ false = ground (arith, a.0) in
    (h.0, h.1, rw other h.2, rw other h.3, Queue-Absent heap p g (suc j) n flag js a.1 h.4)

-- A write that leaves what the queue asks of a grant.
pub Queue-kept :
    (heap : ℕ → Grant) (p : ℕ) (g : Grant) (lo n : ℕ) (flag : Bool) (q : List ℕ)
    → g.granted ≡ (heap p).granted
    → g.high ≡ (heap p).high
    → Queue heap lo n flag q
    → Queue (update heap p g) lo n flag q
Queue-kept heap p g lo n flag [] e e' h = tt
Queue-kept heap p g lo n flag (j ∷ js) e e' h = elim (Bool-cases (p == j)) [
  | inl same ↦
      let at : p ≡ j = ground (arith, same) in
      (
        h.0,
        h.1,
        rw same (e ∙ ap (λ i. (heap i).granted) at ∙ h.2),
        rw same (e' ∙ ap (λ i. (heap i).high) at ∙ h.3),
        Queue-kept heap p g (suc j) n flag js e e' h.4,
      )
  | inr other ↦
      (h.0, h.1, rw other h.2, rw other h.3, Queue-kept heap p g (suc j) n flag js e e' h.4)
]

pub Queue-below :
    (heap : ℕ → Grant) (p lo n : ℕ) (flag : Bool) (q : List ℕ)
    → Queue heap lo n flag q
    → p < lo
    → Absent p q
Queue-below heap p lo n flag [] h l = tt
Queue-below heap p lo n flag (j ∷ js) h l = (
  λ e. absurd (omega (arith, h.0)),
  Queue-below heap p (suc j) n flag js h.4 (omega (arith, h.0)),
)

-- A grant of the other class is not in the queue.
pub Queue-other :
    (heap : ℕ → Grant) (p lo n : ℕ) (flag : Bool) (q : List ℕ)
    → Queue heap lo n flag q
    → (heap p).high ≢ flag
    → Absent p q
Queue-other heap p lo n flag [] h d = tt
Queue-other heap p lo n flag (j ∷ js) h d =
    (λ e. d (ap (λ i. (heap i).high) (sym e) ∙ h.3), Queue-other heap p (suc j) n flag js h.4 d)

pub without-Queue :
    (heap : ℕ → Grant) (p lo n : ℕ) (flag : Bool) (q : List ℕ)
    → Queue heap lo n flag q
    → Queue heap lo n flag (without p q) × Absent p (without p q)
unfolding without
without-Queue heap p lo n flag [] h = (tt, tt)
without-Queue heap p lo n flag (j ∷ js) h = elim (Bool-cases (j == p)) [
  | inl same ↦ rw same (
    Queue-le heap lo (suc j) n flag js (omega (arith, h.0)) h.4,
    Queue-below heap p (suc j) n flag js h.4 (ground (arith, same)),
  )
  | inr other ↦
      let rest = without-Queue heap p (suc j) n flag js h.4 in
      rw other ((h.0, h.1, h.2, h.3, rest.0), (ground (arith, other), rest.1))
]

-- More grants allocated.
pub Queue-more :
    (heap : ℕ → Grant) (lo n : ℕ) (flag : Bool) (q : List ℕ)
    → Queue heap lo n flag q
    → Queue heap lo (suc n) flag q
Queue-more heap lo n flag [] h = tt
Queue-more heap lo n flag (j ∷ js) h =
    (h.0, omega (arith, h.1), h.2, h.3, Queue-more heap (suc j) n flag js h.4)

pub Queue-fresh :
    (heap : ℕ → Grant) (lo n : ℕ) (flag : Bool) (q : List ℕ) → Queue heap lo n flag q → Absent n q
Queue-fresh heap lo n flag [] h = tt
Queue-fresh heap lo n flag (j ∷ js) h =
    (λ e. absurd (omega (arith, h.1)), Queue-fresh heap (suc j) n flag js h.4)

pub Queue-append :
    (heap : ℕ → Grant) (lo n : ℕ) (flag : Bool) (q : List ℕ)
    → lo ≤ n
    → (heap n).granted ≡ false
    → (heap n).high ≡ flag
    → Queue heap lo n flag q
    → Queue heap lo (suc n) flag (q ++ (n ∷ []))
Queue-append heap lo n flag [] l g f h = (l, omega arith, g, f, tt)
Queue-append heap lo n flag (j ∷ js) l g f h = (
  h.0,
  omega (arith, h.1),
  h.2,
  h.3,
  Queue-append heap (suc j) n flag js (omega (arith, h.1)) g f h.4,
)

-- A grant that is in a queue of the class.
pub record Waits (heap : ℕ → Grant) (n : ℕ) (flag : Bool) (p : ℕ) : Type 0 where
  pub below : p < n
  pub granted : (heap p).granted ≡ false
  pub class : (heap p).high ≡ flag

Queue-head :
    (heap : ℕ → Grant) (lo n : ℕ) (flag : Bool) (p : ℕ) (ps : List ℕ)
    → Queue heap lo n flag (p ∷ ps)
    → Waits heap n flag p
Queue-head heap lo n flag p ps h = record { below = h.1; granted = h.2; class = h.3 }

first_eligible-some :
    (s : Scheduler) (lo n : ℕ) (flag : Bool) (q : List ℕ) (p : ℕ)
    → Queue s.grant_heap lo n flag q
    → first_eligible s q ≡ some p
    → (eligible s p ≡ true) × Waits s.grant_heap n flag p
unfolding first_eligible
first_eligible-some s lo n flag [] p h e = absurd (cc)
first_eligible-some s lo n flag (j ∷ js) p h e = elim (Bool-cases (eligible s j)) [
  | inl fit ↦
      let at : j ≡ p = ground (arith, fit, e) in
      (
        ap (eligible s) (sym at) ∙ fit,
        subst (Waits s.grant_heap n flag) at (Queue-head s.grant_heap lo n flag j js h),
      )
  | inr unfit ↦ first_eligible-some s (suc j) n flag js p h.4 (ground (arith, unfit, e))
]

first_other-some :
    (s : Scheduler) (lo n : ℕ) (flag : Bool) (q : List ℕ) (p : ℕ)
    → Queue s.grant_heap lo n flag q
    → first_other s q ≡ some p
    → (eligible s p ≡ true) × Waits s.grant_heap n flag p
unfolding first_other
first_other-some s lo n flag [] p h e = absurd (cc)
first_other-some s lo n flag (j ∷ js) p h e =
    elim (Bool-cases (eligible s j && not ((s.grant_heap j).flow_id == s.last_flow))) [
      | inl fit ↦
          let at : j ≡ p = ground (arith, fit, e) in
          let able : eligible s j ≡ true = ground (arith, fit) in
          (
            ap (eligible s) (sym at) ∙ able,
            subst (Waits s.grant_heap n flag) at (Queue-head s.grant_heap lo n flag j js h),
          )
      | inr unfit ↦ first_other-some s (suc j) n flag js p h.4 (ground (arith, unfit, e))
    ]

first_eligible-none :
    (s : Scheduler) (q : List ℕ) → first_eligible s q ≡ none → All (λ p. eligible s p ≡ false) q
unfolding first_eligible
first_eligible-none s [] e = tt
first_eligible-none s (j ∷ js) e = elim (Bool-cases (eligible s j)) [
  | inl fit ↦ absurd (ground (arith, fit, e))
  | inr unfit ↦ (unfit, first_eligible-none s js (ground (arith, unfit, e)))
]

-- What takeEligibleLocked finds in a queue.
pub take_eligible-cases :
    (s : Scheduler) (n : ℕ) (flag : Bool) (q : List ℕ)
    → Queue s.grant_heap 0 n flag q
    → ((take_eligible s q ≡ (none, q)) × All (λ p. eligible s p ≡ false) q)
      ⊎ ((p : ℕ) × (take_eligible s q ≡ (some p, without p q))
          × (eligible s p ≡ true)
          × Waits s.grant_heap n flag p)
unfolding take_eligible
take_eligible-cases s n flag q h = elim (Option-cases (first_other s q)) [
  | inr (p, other) ↦
      let (fit, waits) = first_other-some s 0 n flag q p h other in
      inr (p, ap (λ o. taken (or_else o (first_eligible s q)) q) other, fit, waits)
  | inl none_other ↦
      let both : (o : Option ℕ) → first_eligible s q ≡ o → take_eligible s q ≡ taken o q = λ o e.
        ap (λ r. taken (or_else r (first_eligible s q)) q) none_other ∙ ap (λ r. taken r q) e in
      elim (Option-cases (first_eligible s q)) [
        | inl nothing ↦ inl (both none nothing, first_eligible-none s q nothing)
        | inr (p, found) ↦
            let (fit, waits) = first_eligible-some s 0 n flag q p h found in
            inr (p, both (some p) found, fit, waits)
      ]
]
