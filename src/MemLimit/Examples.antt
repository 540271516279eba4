-- ===== src/MemLimit/Examples.antt =====
-- internal/memlimit/budget.go in a run of two flows over ten bytes.
use niulang.Prelude.{ℕ, ◌≤◌, ◌≡◌, ◌≢◌, refl, arith, true, false, none, some, [], ◌∷◌, ok, err}
use niulang.MemLimit.{
  Budget, granted, blocked, too_large, new, fits, acquire_round, acquire_woken, acquire, release,
  release_exceeds_acquired, snapshot,
}
use niulang.MemLimit.Flows.{
  Flow, waiting, holding, System, arrive, round, give_back, Reach, here, next,
}
use niulang.MemLimit.Promises.{start, hard_limit, no_lost_wakeup, release-ne-panic}

abbrev empty_budget : Budget
empty_budget = record { capacity = 10; used = 0; peak = 0; waiters = 0; changed = 0 }

abbrev six_used : Budget
six_used = record { capacity = 10; used = 6; peak = 6; waiters = 0; changed = 0 }

abbrev six_used_one_waits : Budget
six_used_one_waits = record six_used { waiters = 1 }

abbrev all_released : Budget
all_released = record { capacity = 10; used = 0; peak = 6; waiters = 1; changed = 1 }

new_ten : new 10 ≡ some empty_budget
unfolding new
new_ten = refl

-- One flow owns six bytes, and another sleeps for seven.
abbrev one_waits : System
one_waits = record { budget = six_used_one_waits; flows = waiting 7 0 ∷ holding 6 ∷ [] }

Reach-one_waits : Reach (start empty_budget) one_waits
unfolding acquire_round fits
Reach-one_waits =
    next
      (next
        (next (next here (arrive empty_budget [] 6 (omega arith) refl))
          (round empty_budget six_used [] [] 6 false granted refl))
        (arrive six_used (holding 6 ∷ []) 7 (omega arith) refl))
      (round six_used six_used_one_waits [] (holding 6 ∷ []) 7 false (blocked 0) refl)

-- The six bytes have been released, and the sleeper has not run yet.
abbrev released : System
released = record { budget = all_released; flows = waiting 7 0 ∷ Flow.finished ∷ [] }

Reach-released : Reach (start empty_budget) released
unfolding release
Reach-released =
    next Reach-one_waits (give_back six_used_one_waits all_released (waiting 7 0 ∷ []) [] 6 refl)

-- A nil budget admits everything; a budget never admits more than its capacity.
acquire_nil : acquire none 1000 true ≡ (granted, none)
unfolding acquire
acquire_nil = refl

acquire_too_large : acquire (some empty_budget) 11 false ≡ (too_large, some empty_budget)
unfolding acquire fits acquire_round
acquire_too_large = refl

release_twice : release (some empty_budget) 1 ≡ err release_exceeds_acquired
unfolding release
release_twice = refl

snapshot_six : snapshot (some six_used) ≡ record { capacity = 10; used = 6; peak = 6; waiters = 0 }
unfolding snapshot
snapshot_six = refl

hard_limit_example :
    (6 ≤ 10) × (six_used.used ≡ 6) × (six_used_one_waits.waiters ≡ 1) × (6 ≤ 6) × (6 ≤ 10)
hard_limit_example = hard_limit 10 empty_budget one_waits new_ten Reach-one_waits

no_lost_wakeup_example :
    ◌≢◌ {A = ℕ} 0 1 × ((acquire_round (acquire_woken all_released) 7 false).0 ≡ granted)
no_lost_wakeup_example =
    no_lost_wakeup 10 empty_budget released new_ten Reach-released [] 7 0 (Flow.finished ∷ []) refl
      (omega arith)

release-ne-panic_example : (b' : Budget) × (release (some six_used_one_waits) 6 ≡ ok (some b'))
release-ne-panic_example =
    release-ne-panic 10 empty_budget one_waits new_ten Reach-one_waits (waiting 7 0 ∷ []) 6 [] refl
