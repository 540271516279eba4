-- ===== src/MemLimit/Safety.antt =====
-- internal/memlimit/budget.go keeps its hard limit, its accounts and its sleepers, whatever the
-- flows do and in whatever order.
use niulang.Prelude.{
  ℕ, ◌+◌, ◌-◌, ◌≤◌, ◌≡◌, refl, arith, Bool, true, false, leb, Bool-cases, inl, inr, some, List, [],
  ◌∷◌, ◌++◌, ok, All, All-replace, All-map, All-back,
}
use mathlib.Core.Path.{subst}
use niulang.MemLimit.{
  Budget, IsBounded, Attempt, fits, acquire_round, acquire_woken, try_acquire, release,
}
use niulang.MemLimit.Flows.{
  Flow, trying, waiting, holding, finished, System, after, Step, arrive, round, wake, give_up, try_,
  give_back, Reach, here, next, held, sleepers, Settled,
}

held-append : (xs ys : List Flow) → held (xs ++ ys) ≡ held xs + held ys
held-append [] ys = omega arith
held-append (trying n ∷ xs) ys = held-append xs ys
held-append (waiting n c ∷ xs) ys = held-append xs ys
held-append (holding n ∷ xs) ys = omega (arith, held-append xs ys)
held-append (finished ∷ xs) ys = held-append xs ys

sleepers-append : (xs ys : List Flow) → sleepers (xs ++ ys) ≡ sleepers xs + sleepers ys
sleepers-append [] ys = omega arith
sleepers-append (trying n ∷ xs) ys = sleepers-append xs ys
sleepers-append (waiting n c ∷ xs) ys = omega (arith, sleepers-append xs ys)
sleepers-append (holding n ∷ xs) ys = sleepers-append xs ys
sleepers-append (finished ∷ xs) ys = sleepers-append xs ys

-- Bytes only become fewer with a new channel: then every sleeper stays settled.
record Later (b b' : Budget) : Type 0 where
  same_capacity : b'.capacity ≡ b.capacity
  newer : b.changed ≤ b'.changed
  no_room : b'.changed ≡ b.changed → b.used ≤ b'.used

Settled-Later : (b b' : Budget) → Later b b' → (f : Flow) → Settled b f → Settled b' f
Settled-Later b b' l (trying n) h = omega arith
Settled-Later b b' l (waiting n c) h = (omega arith, omega arith, λ e. omega arith)
Settled-Later b b' l (holding n) h = omega arith
Settled-Later b b' l finished h = tt

Later-same : (b : Budget) → Later b b
Later-same b = omega arith

-- One pass of Acquire's loop, as it touches the budget and its own flow.
record Passes (b b' : Budget) (n : ℕ) (a : Attempt) : Type 0 where
  bounded : IsBounded b'
  later : Later b b'
  paid : b'.used ≡ b.used + held (after n a ∷ [])
  slept : b'.waiters ≡ b.waiters + sleepers (after n a ∷ [])
  settled : Settled b' (after n a)

acquire_round-Passes :
    (b : Budget) (n : ℕ) (done : Bool)
    → IsBounded b
    → n ≤ b.capacity
    → let (a, b') = acquire_round b n done in Passes b b' n a
unfolding acquire_round
acquire_round-Passes b n true v h = record {
  bounded = v;
  later = Later-same b;
  paid = omega arith;
  slept = omega arith;
  settled = tt;
}
acquire_round-Passes b n false v h = elim (Bool-cases (leb n (b.capacity - b.used))) [
  | inl fit ↦ rw fit (record {
    bounded = ground arith;
    later = omega arith;
    paid = omega arith;
    slept = omega arith;
    settled = h;
  })
  | inr full ↦ rw full (record {
    bounded = omega arith;
    later = omega arith;
    paid = omega arith;
    slept = omega arith;
    settled = (h, omega arith, λ e. ground arith);
  })
]

-- The hard limit, the accounts of owned bytes and of sleepers, and that every sleeper is settled.
pub record IsConsistent (s : System) : Type 0 where
  pub bounded : IsBounded s.budget
  pub accounted : s.budget.used ≡ held s.flows
  pub counted : s.budget.waiters ≡ sleepers s.flows
  pub settled : All (Settled s.budget) s.flows

-- A flow in the middle takes a step: what the sums and the budget do decides.
module _ (b b' : Budget) (front : List Flow) (f f' : Flow) (back : List Flow)
    (c : IsConsistent (record { budget = b; flows = front ++ (f ∷ back) })) (bounded : IsBounded b')
    (later : Later b b') (paid : b'.used + held (f ∷ []) ≡ b.used + held (f' ∷ []))
    (slept : b'.waiters + sleepers (f ∷ []) ≡ b.waiters + sleepers (f' ∷ []))
    (settled : Settled b' f') where
  moves : IsConsistent (record { budget = b'; flows = front ++ (f' ∷ back) })
  moves = record {
    bounded = bounded;
    accounted = omega (
      arith,
      c.accounted,
      held-append front (f ∷ back),
      held-append front (f' ∷ back),
      held-append (f ∷ []) back,
      held-append (f' ∷ []) back,
    );
    counted = omega (
      arith,
      c.counted,
      sleepers-append front (f ∷ back),
      sleepers-append front (f' ∷ back),
      sleepers-append (f ∷ []) back,
      sleepers-append (f' ∷ []) back,
    );
    settled =
        All-replace (Settled b) (Settled b') front f f' back (Settled-Later b b' later) settled
          c.settled;
  }

-- TryAcquire and Release, as they touch the budget.
try_acquire_paid :
    (b b' : Budget) (n : ℕ)
    → IsBounded b
    → try_acquire (some b) n ≡ (true, some b')
    → IsBounded b'
      × Later b b'
      × (b'.used ≡ b.used + n)
      × (b'.waiters ≡ b.waiters)
      × (n ≤ b'.capacity)
unfolding try_acquire
try_acquire_paid b b' n v e = (ground arith, ground arith, ground arith, ground arith, ground arith)

release_paid :
    (b b' : Budget) (n : ℕ)
    → IsBounded b
    → release (some b) n ≡ ok (some b')
    → IsBounded b' × Later b b' × (b'.used + n ≡ b.used) × (b'.waiters ≡ b.waiters)
unfolding release
release_paid b b' n v e = (ground arith, ground arith, ground arith, ground arith)

-- The flow that moves is settled, and counted among the sleepers.
mine :
    (b : Budget) (front : List Flow) (f : Flow) (back : List Flow)
    → IsConsistent (record { budget = b; flows = front ++ (f ∷ back) })
    → Settled b f × (sleepers (f ∷ []) ≤ b.waiters)
mine b front f back c = (
  (All-back (Settled b) front (f ∷ back) c.settled).0,
  omega (arith, c.counted, sleepers-append front (f ∷ back), sleepers-append (f ∷ []) back),
)

-- A sleeper leaves its sleep, and owns nothing.
woken :
    (b : Budget) (front : List Flow) (n channel : ℕ) (f : Flow) (back : List Flow)
    → IsConsistent (record { budget = b; flows = front ++ (waiting n channel ∷ back) })
    → held (f ∷ []) ≡ 0
    → sleepers (f ∷ []) ≡ 0
    → Settled (acquire_woken b) f
    → IsConsistent (record { budget = acquire_woken b; flows = front ++ (f ∷ back) })
unfolding acquire_woken
woken b front n channel f back c z0 z1 s =
    moves b _ front (waiting n channel) f back c (omega (arith, c.bounded)) (omega arith)
      (omega arith) (omega (arith, (mine b front (waiting n channel) back c).1)) s

-- Every step of every flow keeps the budget consistent.
pub Step-IsConsistent : {s t : System} → Step s t → IsConsistent s → IsConsistent t
unfolding acquire_woken fits
Step-IsConsistent (arrive b flows n pos fit) c = record {
  bounded = c.bounded;
  accounted = c.accounted;
  counted = c.counted;
  settled = (ground arith, c.settled);
}
Step-IsConsistent (round b b' front back n done a e) c =
    let p : Passes b b' n a =
      subst (λ r. Passes b r.1 n r.0) e
        (acquire_round-Passes b n done c.bounded (mine b front (trying n) back c).0) in
    moves b b' front (trying n) (after n a) back c p.bounded p.later (omega (arith, p.paid))
      (omega (arith, p.slept)) p.settled
Step-IsConsistent (wake b front back n channel ne) c =
    woken b front n channel (trying n) back c refl refl
      ((mine b front (waiting n channel) back c).0.0)
Step-IsConsistent (give_up b front back n channel) c =
    woken b front n channel finished back c refl refl tt
Step-IsConsistent (try_ b b' flows n e) c =
    let (bounded, later, paid, slept, fit) = try_acquire_paid b b' n c.bounded e in
    record {
      bounded = bounded;
      accounted = omega (arith, c.accounted);
      counted = omega (arith, c.counted);
      settled = (fit, All-map (Settled b) (Settled b') flows (Settled-Later b b' later) c.settled);
    }
Step-IsConsistent (give_back b b' front back n e) c =
    let (bounded, later, paid, slept) = release_paid b b' n c.bounded e in
    moves b b' front (holding n) finished back c bounded later (omega arith) (omega arith) tt

pub Reach-IsConsistent : {s t : System} → IsConsistent s → Reach s t → IsConsistent t
Reach-IsConsistent c here = c
Reach-IsConsistent c (next r st) = Step-IsConsistent st (Reach-IsConsistent c r)
