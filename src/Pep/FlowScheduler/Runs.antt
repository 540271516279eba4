-- ===== src/Pep/FlowScheduler/Runs.antt =====
-- The calls on a scheduler of internal/pep/flowscheduler.go, in any order.
use niulang.Prelude.{ℕ, ◌≤◌, ◌<◌, ◌≡◌, some, false, All, inr, ◌⊎◌}
use niulang.Pep.FlowScheduler.{
  Config, Scheduler, new_flow_scheduler, request, release, cancel, close_flow, eligible,
}
use niulang.Pep.FlowScheduler.Counts.{count}
use niulang.Pep.FlowScheduler.Invariant.{live, live_in}
use niulang.Pep.FlowScheduler.Dispatch.{Rests}
use niulang.Pep.FlowScheduler.Requests.{new_flow_scheduler-IsValid, request-Rests}
use niulang.Pep.FlowScheduler.Endings.{release-Rests, cancel-Rests}
use niulang.Pep.FlowScheduler.Closing.{close_flow-Rests}

-- A scheduler that calls have led to, each with its own readings of the clock. A grant that is
-- given back or canceled is one that request returned.
pub data Reach (cfg : Config) : Scheduler → Type 0 where
  created : Reach cfg (new_flow_scheduler cfg)
  requested :
      (clock : ℕ → ℕ) (s : Scheduler) (flow class bytes now : ℕ)
      → Reach cfg s
      → Reach cfg (request clock s flow class bytes now).1
  released :
      (clock : ℕ → ℕ) (s : Scheduler) (p : ℕ)
      → p < s.next_grant
      → Reach cfg s
      → Reach cfg (release clock s (some p)).1
  stopped :
      (clock : ℕ → ℕ) (s : Scheduler) (p : ℕ)
      → p < s.next_grant
      → Reach cfg s
      → Reach cfg (cancel clock s (some p)).1
  closed :
      (clock : ℕ → ℕ) (s : Scheduler) (flow : ℕ)
      → Reach cfg s
      → Reach cfg (close_flow clock s flow).1

new_queues :
    (cfg : Config)
    → All (λ p. eligible (new_flow_scheduler cfg) p ≡ false) (new_flow_scheduler cfg).high
      × All (λ p. eligible (new_flow_scheduler cfg) p ≡ false) (new_flow_scheduler cfg).bulk
unfolding new_flow_scheduler
new_queues cfg = (tt, tt)

pub Reach-Rests : (cfg : Config) (s : Scheduler) → Reach cfg s → Rests s
Reach-Rests cfg _ created = record {
  valid = new_flow_scheduler-IsValid cfg;
  settled = inr (new_queues cfg);
}
Reach-Rests cfg _ (requested clock s flow class bytes now r) =
    request-Rests clock s flow class bytes now (Reach-Rests cfg s r).valid
Reach-Rests cfg _ (released clock s p below r) = release-Rests clock s p (Reach-Rests cfg s r) below
Reach-Rests cfg _ (stopped clock s p below r) = cancel-Rests clock s p (Reach-Rests cfg s r) below
Reach-Rests cfg _ (closed clock s flow r) = close_flow-Rests clock s flow (Reach-Rests cfg s r)

-- After any calls of request, release, cancel and closeFlow, the scheduler's counter is the number
-- of grants that were handed out and have not ended, and each flow state's counter is the number of
-- such grants of its own; the first is at most maxActive and each of the others at most perFlow.
pub Reach-limits :
    (cfg : Config) (s : Scheduler)
    → Reach cfg s
    → (s.active ≡ count (λ p. live (s.grant_heap p)) s.next_grant)
      × (s.active ≤ s.cfg.max_active)
      × ((st : ℕ)
          → ((s.state_heap st).active ≡ count (live_in s.grant_heap st) s.next_grant)
            × ((s.state_heap st).active ≤ s.cfg.per_flow))
Reach-limits cfg s r =
    let w = (Reach-Rests cfg s r).valid.counted in (w.total, w.limit, λ st. (w.each st, w.per st))

-- After any calls of request, release, cancel and closeFlow, either maxActive grants are active, or
-- no grant in a queue could be handed out: each has ended or is of a flow that has perFlow active
-- ones.
pub Reach-work :
    (cfg : Config) (s : Scheduler)
    → Reach cfg s
    → (s.active ≡ s.cfg.max_active)
      ⊎ (All (λ p. eligible s p ≡ false) s.high × All (λ p. eligible s p ≡ false) s.bulk)
Reach-work cfg s r = (Reach-Rests cfg s r).settled
