-- ===== src/Pep/FlowScheduler/History.antt =====
-- The turns of the two queues of internal/pep/flowscheduler.go through all calls, in any order.
use niulang.Prelude.{
  ℕ, ◌<◌, ◌≡◌, refl, sym, ◌∙◌, Bool, true, false, Option, none, some, List, [], if◌then◌else◌,
  Option-cases, inl, inr,
}
use niulang.Pep.FlowScheduler.{
  Config, scheduling_closed, canceled, Scheduler, new_flow_scheduler, with_defaults, is_some,
  lookup, empty, enqueue, finish, unqueue, dispatch, request, release, cancel, close_flow,
}
use niulang.Pep.FlowScheduler.Invariant.{IsValid}
use niulang.Pep.FlowScheduler.Requests.{enqueue-IsValid, enqueue-Keeps}
use niulang.Pep.FlowScheduler.Endings.{finish-IsValid, finish-Keeps, unqueue-IsValid, unqueue-Keeps}
use niulang.Pep.FlowScheduler.Closing.{body, body-IsValid}
use niulang.Pep.FlowScheduler.Runs.{
  Reach, created, requested, released, stopped, closed, Reach-Rests,
}
use niulang.Pep.FlowScheduler.Turns.{Turn, dispatched, run, Fair, Prompt}
use niulang.Pep.FlowScheduler.Rounds.{Told, dispatched-Told}
use mathlib.Core.Path.{subst}

-- The log after each call: it grows by the turns of the call's dispatchLocked, if it comes to that.
abbrev pub request_log : (ℕ → ℕ) → Scheduler → ℕ → ℕ → ℕ → ℕ → List Turn → List Turn
request_log clock s flow class bytes now log = dispatched clock (enqueue s flow class bytes now) log

abbrev pub release_log : (ℕ → ℕ) → Scheduler → ℕ → List Turn → List Turn
release_log clock s p log =
    if is_some (s.grant_heap p).done
    then log
    else dispatched clock (finish s p scheduling_closed) log

abbrev pub cancel_log : (ℕ → ℕ) → Scheduler → ℕ → List Turn → List Turn
cancel_log clock s p log =
    if is_some (s.grant_heap p).done
    then log
    else dispatched clock (unqueue (finish s p canceled) p) log

abbrev pub close_log : (ℕ → ℕ) → Scheduler → ℕ → List Turn → List Turn
close_log clock s flow log = elim (lookup flow s.states) as (λ _. List Turn) [
  | none ↦ log
  | some st ↦ dispatched clock (body s flow st) log
]

-- The turns, the latest first, of the calls that led to a scheduler.
pub data History (cfg : Config) : (s : Scheduler) → Reach cfg s → List Turn → Type 0 where
  at_creation : History cfg (new_flow_scheduler cfg) created []
  after_request :
      (clock : ℕ → ℕ) (s : Scheduler) (flow class bytes now : ℕ) (r : Reach cfg s) (log : List Turn)
      → History cfg s r log
      → History cfg
          (request clock s flow class bytes now).1
          (requested clock s flow class bytes now r)
          (request_log clock s flow class bytes now log)
  after_release :
      (clock : ℕ → ℕ) (s : Scheduler) (p : ℕ) (below : p < s.next_grant) (r : Reach cfg s)
      (log : List Turn)
      → History cfg s r log
      → History cfg
          (release clock s (some p)).1
          (released clock s p below r)
          (release_log clock s p log)
  after_cancel :
      (clock : ℕ → ℕ) (s : Scheduler) (p : ℕ) (below : p < s.next_grant) (r : Reach cfg s)
      (log : List Turn)
      → History cfg s r log
      → History cfg
          (cancel clock s (some p)).1
          (stopped clock s p below r)
          (cancel_log clock s p log)
  after_close :
      (clock : ℕ → ℕ) (s : Scheduler) (flow : ℕ) (r : Reach cfg s) (log : List Turn)
      → History cfg s r log
      → History cfg (close_flow clock s flow).1 (closed clock s flow r) (close_log clock s flow log)

-- A call for a grant that has ended leaves the log as it is.
unless_done :
    (cfg : Config) (s s' : Scheduler) (log log' : List Turn) (b : Bool)
    → Told cfg s log
    → (b ≡ false → Told cfg s' log')
    → (let answer : Bool × Scheduler = if b then (empty s, s) else (empty s', s') in
        Told cfg answer.1 (if b then log else log'))
unless_done cfg s s' log log' true t next = t
unless_done cfg s s' log log' false t next = next refl

new-Told : (cfg : Config) → Told (with_defaults cfg) (new_flow_scheduler cfg) []
unfolding new_flow_scheduler
new-Told cfg = record { same = refl; burst = refl; fair = tt; prompt = tt }

release-Told :
    (clock : ℕ → ℕ) (cfg : Config) (s : Scheduler) (p : ℕ) (log : List Turn)
    → IsValid s
    → p < s.next_grant
    → Told cfg s log
    → Told cfg (release clock s (some p)).1 (release_log clock s p log)
unfolding release
release-Told clock cfg s p log v below t =
    unless_done cfg s _ log _ (is_some (s.grant_heap p).done) t (λ undone.
      dispatched-Told clock cfg s (finish s p scheduling_closed) log
        (finish-IsValid s p scheduling_closed v below undone) (finish-Keeps s p scheduling_closed)
        t)

cancel-Told :
    (clock : ℕ → ℕ) (cfg : Config) (s : Scheduler) (p : ℕ) (log : List Turn)
    → IsValid s
    → p < s.next_grant
    → Told cfg s log
    → Told cfg (cancel clock s (some p)).1 (cancel_log clock s p log)
unfolding cancel
cancel-Told clock cfg s p log v below t =
    let ended = finish s p canceled in
    unless_done cfg s _ log _ (is_some (s.grant_heap p).done) t (λ undone.
      let kept = finish-Keeps s p canceled in
      let left = unqueue-Keeps ended p in
      dispatched-Told clock cfg s (unqueue ended p) log
        (unqueue-IsValid ended p (finish-IsValid s p canceled v below undone))
        (left.0 ∙ kept.0, left.1 ∙ kept.1) t)

close-Told :
    (clock : ℕ → ℕ) (cfg : Config) (s : Scheduler) (flow : ℕ) (log : List Turn)
    → IsValid s
    → Told cfg s log
    → Told cfg (close_flow clock s flow).1 (close_log clock s flow log)
unfolding close_flow
close-Told clock cfg s flow log v t =
    let answer : Option ℕ → Bool × Scheduler = λ o. elim o as (λ _. Bool × Scheduler) [
      | none ↦ (empty s, s)
      | some st ↦ (empty (dispatch clock (body s flow st)), dispatch clock (body s flow st))
    ] in
    let told : Option ℕ → List Turn = λ o. elim o as (λ _. List Turn) [
      | none ↦ log
      | some st ↦ dispatched clock (body s flow st) log
    ] in
    elim (Option-cases (lookup flow s.states)) [
      | inl absent ↦ subst (λ o. Told cfg (answer o).1 (told o)) (sym absent) t
      | inr (st, found) ↦
          let w = body-IsValid s flow st v in
          subst (λ o. Told cfg (answer o).1 (told o)) (sym found)
            (dispatched-Told clock cfg s (body s flow st) log w.0 (w.1, w.2) t)
    ]

History-Told :
    (cfg : Config) (s : Scheduler) (r : Reach cfg s) (log : List Turn)
    → History cfg s r log
    → Told (with_defaults cfg) s log
unfolding request
History-Told cfg _ _ _ at_creation = new-Told cfg
History-Told cfg _ _ _ (after_request clock s flow class bytes now r log h) =
    dispatched-Told clock (with_defaults cfg) s (enqueue s flow class bytes now) log
      (enqueue-IsValid s flow class bytes now (Reach-Rests cfg s r).valid)
      (enqueue-Keeps s flow class bytes now) (History-Told cfg s r log h)
History-Told cfg _ _ _ (after_release clock s p below r log h) =
    release-Told clock (with_defaults cfg) s p log (Reach-Rests cfg s r).valid below
      (History-Told cfg s r log h)
History-Told cfg _ _ _ (after_cancel clock s p below r log h) =
    cancel-Told clock (with_defaults cfg) s p log (Reach-Rests cfg s r).valid below
      (History-Told cfg s r log h)
History-Told cfg _ _ _ (after_close clock s flow r log h) =
    close-Told clock (with_defaults cfg) s flow log (Reach-Rests cfg s r).valid
      (History-Told cfg s r log h)

-- In all the turns that any calls of request, release, cancel and closeFlow lead to, however the
-- clock runs, a grant of the high queue is never handed out while a grant of the bulk queue may be, once
-- the interactiveBurst grants handed out before it were all of the high queue. The scheduler's highRun
-- is the number of the latest grants that were all of the high queue.
pub History-Fair :
    (cfg : Config) (s : Scheduler) (r : Reach cfg s) (log : List Turn)
    → History cfg s r log
    → Fair (with_defaults cfg).interactive_burst log × (s.high_run ≡ run log)
History-Fair cfg s r log h = let t = History-Told cfg s r log h in (t.fair, t.burst)

-- In all the turns that any calls of request, release, cancel and closeFlow lead to, however the
-- clock runs, a grant of the bulk queue is handed out while a grant of the high queue may be only if
-- the bulk queue's first grant has waited for bulkAge or the interactiveBurst grants handed out before
-- were all of the high queue.
pub History-Prompt :
    (cfg : Config) (s : Scheduler) (r : Reach cfg s) (log : List Turn)
    → History cfg s r log
    → Prompt (with_defaults cfg).interactive_burst log
History-Prompt cfg s r log h = (History-Told cfg s r log h).prompt
