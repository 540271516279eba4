-- ===== src/MemLimit/Flows.antt =====
-- Concurrent callers of internal/memlimit/budget.go: any number of flows, each step of one flow
-- under the budget's lock, in any order.
use niulang.Prelude.{ℕ, ◌+◌, ◌≤◌, ◌<◌, ◌≡◌, ◌≢◌, Bool, true, some, List, [], ◌∷◌, ◌++◌, ok}
use niulang.MemLimit.{
  Budget, Attempt, granted, too_large, cancelled, blocked, fits, acquire_round, acquire_woken,
  try_acquire, release,
}

-- Where a flow stands: in Acquire's loop, asleep on a channel, owning bytes, or out.
pub data Flow : Type 0 where
  trying : ℕ → Flow
  waiting : ℕ → ℕ → Flow
  holding : ℕ → Flow
  finished : Flow

pub record System : Type 0 where
  pub budget : Budget
  pub flows : List Flow

-- Where a pass of the loop leaves its flow.
abbrev pub after : ℕ → Attempt → Flow
after n granted = holding n
after n too_large = finished
after n cancelled = finished
after n (blocked channel) = waiting n channel

pub data Step : System → System → Type 0 where
  -- Acquire is called, and its request is no larger than the capacity.
  arrive :
      (b : Budget) (flows : List Flow) (n : ℕ)
      → 0 < n
      → fits b n ≡ true
      → Step
          (record { budget = b; flows = flows })
          (record { budget = b; flows = trying n ∷ flows })
  -- One pass of the loop.
  round :
      (b b' : Budget) (front back : List Flow) (n : ℕ) (done : Bool) (a : Attempt)
      → acquire_round b n done ≡ (a, b')
      → Step
          (record { budget = b; flows = front ++ (trying n ∷ back) })
          (record { budget = b'; flows = front ++ (after n a ∷ back) })
  -- A sleeper's channel has been closed: it goes round again.
  wake :
      (b : Budget) (front back : List Flow) (n channel : ℕ)
      → channel ≢ b.changed
      → Step
          (record { budget = b; flows = front ++ (waiting n channel ∷ back) })
          (record { budget = acquire_woken b; flows = front ++ (trying n ∷ back) })
  -- A sleeper's context ends: Acquire returns its error.
  give_up :
      (b : Budget) (front back : List Flow) (n channel : ℕ)
      → Step
          (record { budget = b; flows = front ++ (waiting n channel ∷ back) })
          (record { budget = acquire_woken b; flows = front ++ (finished ∷ back) })
  -- TryAcquire is called and succeeds.
  try_ :
      (b b' : Budget) (flows : List Flow) (n : ℕ)
      → try_acquire (some b) n ≡ (true, some b')
      → Step
          (record { budget = b; flows = flows })
          (record { budget = b'; flows = holding n ∷ flows })
  -- A flow releases exactly what it acquired.
  give_back :
      (b b' : Budget) (front back : List Flow) (n : ℕ)
      → release (some b) n ≡ ok (some b')
      → Step
          (record { budget = b; flows = front ++ (holding n ∷ back) })
          (record { budget = b'; flows = front ++ (finished ∷ back) })

pub data Reach (s : System) : System → Type 0 where
  here : Reach s s
  next : {t u : System} → Reach s t → Step t u → Reach s u

-- The bytes that the flows own, and how many of them sleep.
abbrev pub held : List Flow → ℕ
held [] = 0
held (holding n ∷ fs) = n + held fs
held (trying n ∷ fs) = held fs
held (waiting n channel ∷ fs) = held fs
held (finished ∷ fs) = held fs

abbrev pub sleepers : List Flow → ℕ
sleepers [] = 0
sleepers (waiting n channel ∷ fs) = 1 + sleepers fs
sleepers (trying n ∷ fs) = sleepers fs
sleepers (holding n ∷ fs) = sleepers fs
sleepers (finished ∷ fs) = sleepers fs

-- A sleeper's channel was made already; while it is open the request does not fit.
abbrev pub Settled : Budget → Flow → Type 0
Settled b (trying n) = n ≤ b.capacity
Settled b (waiting n channel) =
    (n ≤ b.capacity) × (channel ≤ b.changed) × (channel ≡ b.changed → b.capacity < b.used + n)
Settled b (holding n) = n ≤ b.capacity
Settled b finished = Unit {0}
