-- ===== src/Pep/FlowScheduler/Examples.antt =====
-- A scheduler of internal/pep/flowscheduler.go with three flows.
use niulang.Prelude.{ℕ, ◌≤◌, ◌≡◌, refl, arith, true, false, some, List, [], ◌∷◌, All, ◌⊎◌}
use niulang.Pep.FlowScheduler.{
  Config, Scheduler, new_flow_scheduler, request, release, eligible, pick, without, with_defaults,
  finish, dispatch, dispatch_loop, hand_out, choose_bulk, from_bulk, from_high, take_eligible,
  first_eligible, first_other, enqueue, insert_grant, state_of, lookup,
}
use niulang.Pep.FlowScheduler.Counts.{count}
use niulang.Pep.FlowScheduler.Invariant.{live, live_in}
use niulang.Pep.FlowScheduler.Runs.{Reach, created, requested, released, Reach-limits, Reach-work}
use niulang.Pep.FlowScheduler.Turns.{Turn, any_eligible, turns, run, Fair, Prompt}
use niulang.Pep.FlowScheduler.History.{
  History, at_creation, after_request, after_release, request_log, release_log, History-Fair,
  History-Prompt,
}

abbrev small : ℕ → Config
small burst = record {
  startup_bytes = 100;
  per_flow = 2;
  max_active = 1;
  interactive_burst = burst;
  bulk_age = 1000;
}

abbrev clock : ℕ → ℕ
clock n = 10

abbrev first : ℕ → Scheduler
first burst = (request clock (new_flow_scheduler (small burst)) 7 3 200 1).1

abbrev second : ℕ → Scheduler
second burst = (request clock (first burst) 7 3 200 2).1

abbrev third : ℕ → Scheduler
third burst = (request clock (second burst) 8 1 200 3).1

abbrev third-Reach : (burst : ℕ) → Reach (small burst) (third burst)
third-Reach burst = requested clock (second burst) 8 1 200 3 (
    requested clock (first burst) 7 3 200 2
      (requested clock (new_flow_scheduler (small burst)) 7 3 200 1 created))

third-next_grant : ((third 1).next_grant ≡ 3) × ((third 2).next_grant ≡ 3)
unfolding new_flow_scheduler with_defaults request release finish dispatch dispatch_loop hand_out
    pick choose_bulk from_bulk from_high take_eligible first_eligible first_other without enqueue
    insert_grant state_of lookup
third-next_grant = (refl, refl)

abbrev fourth : ℕ → Scheduler
fourth burst = (release clock (third burst) (some 0)).1

-- The grant that is given back leaves its place to the bulk queue's, or to the high queue's before the
-- burst is over.
fourth-queues :
    ((fourth 1).high ≡ 2 ∷ [])
    × ((fourth 1).bulk ≡ [])
    × ((fourth 1).active ≡ 1)
    × ((fourth 2).high ≡ [])
    × ((fourth 2).bulk ≡ 1 ∷ [])
unfolding new_flow_scheduler with_defaults request release finish dispatch dispatch_loop hand_out
    pick choose_bulk from_bulk from_high take_eligible first_eligible first_other without enqueue
    insert_grant state_of lookup
fourth-queues = (refl, refl, refl, refl, refl)

abbrev fourth-Reach : Reach (small 1) (fourth 1)
fourth-Reach = released clock (third 1) 0 (omega (arith, third-next_grant.0)) (third-Reach 1)

abbrev later-Reach : Reach (small 2) (fourth 2)
later-Reach = released clock (third 2) 0 (omega (arith, third-next_grant.1)) (third-Reach 2)

Reach-limits_example :
    ((fourth 1).active ≡ count (λ p. live ((fourth 1).grant_heap p)) (fourth 1).next_grant)
    × ((fourth 1).active ≤ (fourth 1).cfg.max_active)
    × ((st : ℕ)
        → (((fourth 1).state_heap st).active
            ≡ count (live_in (fourth 1).grant_heap st) (fourth 1).next_grant)
          × (((fourth 1).state_heap st).active ≤ (fourth 1).cfg.per_flow))
Reach-limits_example = Reach-limits (small 1) (fourth 1) fourth-Reach

Reach-work_example :
    ((fourth 1).active ≡ (fourth 1).cfg.max_active)
    ⊎ (All (λ p. eligible (fourth 1) p ≡ false) (fourth 1).high
        × All (λ p. eligible (fourth 1) p ≡ false) (fourth 1).bulk)
Reach-work_example = Reach-work (small 1) (fourth 1) fourth-Reach

abbrev first_log : ℕ → List Turn
first_log burst = request_log clock (new_flow_scheduler (small burst)) 7 3 200 1 []

abbrev second_log : ℕ → List Turn
second_log burst = request_log clock (first burst) 7 3 200 2 (first_log burst)

abbrev third_log : ℕ → List Turn
third_log burst = request_log clock (second burst) 8 1 200 3 (second_log burst)

abbrev fourth_log : ℕ → List Turn
fourth_log burst = release_log clock (third burst) 0 (third_log burst)

abbrev third-History :
    (burst : ℕ) → History (small burst) (third burst) (third-Reach burst) (third_log burst)
third-History burst =
    let start = new_flow_scheduler (small burst) in
    after_request clock (second burst) 8 1 200 3 _ (second_log burst) (
      after_request clock (first burst) 7 3 200 2 _ (first_log burst)
        (after_request clock start 7 3 200 1 created [] at_creation))

-- Both queues wait when the first grant is given back, and what follows depends on the burst.
logs :
    (fourth_log 1
      ≡ record { high = false; high_waits = true; bulk_waits = true; aged = false }
        ∷ record { high = true; high_waits = true; bulk_waits = false; aged = false }
        ∷ [])
    × (fourth_log 2
        ≡ record { high = true; high_waits = true; bulk_waits = true; aged = false }
          ∷ record { high = true; high_waits = true; bulk_waits = false; aged = false }
          ∷ [])
unfolding new_flow_scheduler with_defaults request release finish dispatch dispatch_loop hand_out
    pick choose_bulk from_bulk from_high take_eligible first_eligible first_other without enqueue
    insert_grant state_of lookup turns any_eligible
logs = (refl, refl)

History-Fair_example :
    Fair (with_defaults (small 2)).interactive_burst (fourth_log 2)
    × ((fourth 2).high_run ≡ run (fourth_log 2))
History-Fair_example =
    History-Fair (small 2) (fourth 2) later-Reach (fourth_log 2)
      (after_release clock (third 2) 0 _ (third-Reach 2) (third_log 2) (third-History 2))

History-Prompt_example : Prompt (with_defaults (small 1)).interactive_burst (fourth_log 1)
History-Prompt_example =
    History-Prompt (small 1) (fourth 1) fourth-Reach (fourth_log 1)
      (after_release clock (third 1) 0 _ (third-Reach 1) (third_log 1) (third-History 1))
