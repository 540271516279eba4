-- ===== src/MemLimit.antt =====
-- internal/memlimit/budget.go: the byte semaphore that all flows share. A request is the length of
-- a payload, so it is not negative; a nil Budget is `none`. The channel `changed` is the number of
-- channels made so far: closing it and making another is one more.
pub mod Flows
pub mod Safety
pub mod Promises
pub mod Laws
mod Examples
use niulang.Prelude.{
  ℕ, ◌+◌, ◌-◌, ◌≤◌, Bool, true, false, Option, none, some, ltb, leb, ◌==◌, if◌then◌else◌, Result,
  ok, err,
}

pub record Budget : Type 0 where
  pub capacity : ℕ
  pub used : ℕ
  pub peak : ℕ
  pub waiters : ℕ
  pub changed : ℕ

pub new : ℕ → Option Budget
new capacity =
    if capacity == 0
    then none
    else some (record { capacity = capacity; used = 0; peak = 0; waiters = 0; changed = 0 })

-- `b.used += request`, and the peak with it.
unfoldable pub charge : Budget → ℕ → Budget
charge b request =
    let used = b.used + request in
    record b { used = used; peak = if ltb b.peak used then used else b.peak }

-- What Acquire returns, or that it sleeps on the channel of that number.
pub data Attempt : Type 0 where
  granted too_large cancelled : Attempt
  blocked : ℕ → Attempt

-- The test before Acquire's loop.
pub fits : Budget → ℕ → Bool
fits b request = leb request b.capacity

-- One pass of Acquire's loop under the lock; `done` is whether the context has ended.
pub acquire_round : Budget → ℕ → Bool → Attempt × Budget
unfolding charge
acquire_round b request done =
    if done
    then (cancelled, b)
    else if leb request (b.capacity - b.used)
    then (granted, charge b request)
    else (blocked b.changed, record b { waiters = b.waiters + 1 })

-- After either arm of the select: `b.waiters--`.
pub acquire_woken : Budget → Budget
acquire_woken b = record b { waiters = b.waiters - 1 }

-- Acquire up to the first sleep.
pub acquire : Option Budget → ℕ → Bool → Attempt × Option Budget
acquire none n done = (granted, none)
acquire (some b) n done =
    let (a, b') = acquire_round b n done in
    if n == 0 then (granted, some b) else if fits b n then (a, some b') else (too_large, some b)

unfoldable pub try_acquire : Option Budget → ℕ → Bool × Option Budget
unfolding charge
try_acquire none n = (true, none)
try_acquire (some b) n =
    if n == 0
    then (true, some b)
    else if ltb (b.capacity - b.used) n
    then (false, some b)
    else (true, some (charge b n))

pub data Panic : Type 0 where
  release_exceeds_acquired : Panic

unfoldable pub release : Option Budget → ℕ → Result Panic (Option Budget)
release none n = ok none
release (some b) n =
    if n == 0
    then ok (some b)
    else if ltb b.used n
    then err release_exceeds_acquired
    else ok (some (record b { used = b.used - n; changed = b.changed + 1 }))

pub record Snapshot : Type 0 where
  pub capacity : ℕ
  pub used : ℕ
  pub peak : ℕ
  pub waiters : ℕ

pub snapshot : Option Budget → Snapshot
snapshot none = record { capacity = 0; used = 0; peak = 0; waiters = 0 }
snapshot (some b) = record {
  capacity = b.capacity;
  used = b.used;
  peak = b.peak;
  waiters = b.waiters;
}

-- The hard limit, and the peak between the two.
pub record IsBounded (b : Budget) : Type 0 where
  pub within : b.used ≤ b.capacity
  pub peaked : b.used ≤ b.peak
  pub peak_within : b.peak ≤ b.capacity
