-- ===== src/Pep/FlowScheduler.antt =====
-- flowScheduler of internal/pep/flowscheduler.go. The grants and the states of flows are shared by
-- pointers: a pointer is a number, and the two heaps say what it points at. `grants` of a state is a
-- set of pointers, and the map from flows is an association list. A closed channel is `ready`; a time
-- is a number of nanoseconds, and `clock` tells the time at which a round of a loop reads it, by the
-- rounds that are left.
pub mod Counts
pub mod Queues
pub mod Invariant
pub mod Dispatch
pub mod Requests
pub mod Endings
pub mod Closing
pub mod Runs
pub mod Turns
pub mod Rounds
pub mod History
pub mod Examples
use niulang.Prelude.{
  ℕ, zero, suc, ◌+◌, ◌-◌, ◌*◌, Bool, true, false, not, ◌&&◌, ◌||◌, Option, none, some, List, [],
  ◌∷◌, ◌++◌, ltb, leb, ◌==◌, if◌then◌else◌, length,
}

pub record Config : Type 0 where
  pub startup_bytes : ℕ
  pub per_flow : ℕ
  pub max_active : ℕ
  pub interactive_burst : ℕ
  pub bulk_age : ℕ

abbrev pub default_flow_startup_bytes : ℕ
default_flow_startup_bytes = 512 * 1024

abbrev pub default_config : Config
default_config = record {
  startup_bytes = default_flow_startup_bytes;
  per_flow = 2;
  max_active = 8;
  interactive_burst = 3;
  bulk_age = 250000000;
}

-- The numbers of a configuration are not negative here, so `<= 0` is a comparison with zero.
pub with_defaults : Config → Config
with_defaults c = record {
  startup_bytes = if c.startup_bytes == 0 then default_config.startup_bytes else c.startup_bytes;
  per_flow = if c.per_flow == 0 then default_config.per_flow else c.per_flow;
  max_active = if c.max_active == 0 then default_config.max_active else c.max_active;
  interactive_burst =
      if c.interactive_burst == 0 then default_config.interactive_burst else c.interactive_burst;
  bulk_age = if c.bulk_age == 0 then default_config.bulk_age else c.bulk_age;
}

-- errFlowSchedulingClosed and context.Canceled.
pub data Done : Type 0 where
  scheduling_closed canceled : Done

pub record Grant : Type 0 where
  pub flow_id : ℕ
  pub bytes : ℕ
  pub high : Bool
  pub queued : ℕ
  pub ready : Bool
  pub granted : Bool
  pub done : Option Done
  pub state : ℕ

pub record FlowState : Type 0 where
  pub active : ℕ
  pub pending : ℕ
  pub startup_assigned : ℕ
  pub grants : ℕ → Bool

pub record Scheduler : Type 0 where
  pub cfg : Config
  pub states : List (ℕ × ℕ)
  pub high : List ℕ
  pub bulk : List ℕ
  pub active : ℕ
  pub high_run : ℕ
  pub last_flow : ℕ
  pub grant_heap : ℕ → Grant
  pub next_grant : ℕ
  pub state_heap : ℕ → FlowState
  pub next_state : ℕ

-- Writing through a pointer, and to a set.
module _ {ℓ} {A : Type ℓ} where
  abbrev pub update : (ℕ → A) → ℕ → A → ℕ → A
  update f p v q = if p == q then v else f q

-- What the heaps hold where nothing was allocated.
abbrev pub no_grant : Grant
no_grant = record {
  flow_id = 0;
  bytes = 0;
  high = false;
  queued = 0;
  ready = false;
  granted = false;
  done = none;
  state = 0;
}

abbrev pub new_state : FlowState
new_state = record { active = 0; pending = 0; startup_assigned = 0; grants = λ _. false }

pub new_flow_scheduler : Config → Scheduler
unfolding with_defaults
new_flow_scheduler cfg = record {
  cfg = with_defaults cfg;
  states = [];
  high = [];
  bulk = [];
  active = 0;
  high_run = 0;
  last_flow = 0;
  grant_heap = λ _. no_grant;
  next_grant = 0;
  state_heap = λ _. new_state;
  next_state = 0;
}

abbrev pub is_some {ℓ} : {A : Type ℓ} → Option A → Bool
is_some none = false
is_some (some a) = true

-- `grant.done != nil || grant.state.active >= s.cfg.perFlow` fails.
abbrev pub eligible : Scheduler → ℕ → Bool
eligible s p =
    let g = s.grant_heap p in
    not (is_some g.done || leb s.cfg.per_flow (s.state_heap g.state).active)

-- The loop of takeEligibleLocked over the indices: the first that is eligible, and the first that is
-- also of another flow than the last one served. `selected` ends the loop.
pub first_eligible : Scheduler → List ℕ → Option ℕ
first_eligible s [] = none
first_eligible s (p ∷ ps) = let rest = first_eligible s ps in if eligible s p then some p else rest

pub first_other : Scheduler → List ℕ → Option ℕ
first_other s [] = none
first_other s (p ∷ ps) =
    let rest = first_other s ps in
    if eligible s p && not ((s.grant_heap p).flow_id == s.last_flow) then some p else rest

-- The queue without the first entry of a pointer.
pub without : ℕ → List ℕ → List ℕ
without p [] = []
without p (q ∷ qs) = let rest = without p qs in if q == p then qs else q ∷ rest

-- `if selected < 0 { selected = fallback }`
abbrev pub or_else {ℓ} : {A : Type ℓ} → Option A → Option A → Option A
or_else none fallback = fallback
or_else (some a) fallback = some a

abbrev pub taken : Option ℕ → List ℕ → Option ℕ × List ℕ
taken none queue = (none, queue)
taken (some p) queue = (some p, without p queue)

pub take_eligible : Scheduler → List ℕ → Option ℕ × List ℕ
take_eligible s queue = taken (or_else (first_other s queue) (first_eligible s queue)) queue

pub choose_bulk : Scheduler → ℕ → Bool
choose_bulk s now = elim s.bulk [
  | [] ↦ false
  | b ∷ bs ↦
      length s.high == 0
      || leb s.cfg.interactive_burst s.high_run
      || leb s.cfg.bulk_age (now - (s.grant_heap b).queued)
]

pub from_bulk : Scheduler → Option ℕ × Scheduler
from_bulk s =
    let (grant, bulk) = take_eligible s s.bulk in
    (grant, record s { bulk = bulk; high_run = if is_some grant then 0 else s.high_run })

pub from_high : Scheduler → Option ℕ × Scheduler
from_high s =
    let (grant, high) = take_eligible s s.high in
    (
      grant,
      record s { high = high; high_run = if is_some grant then s.high_run + 1 else s.high_run },
    )

-- `if grant == nil`: another attempt.
abbrev pub attempt :
    Option ℕ × Scheduler → (Scheduler → Option ℕ × Scheduler) → Option ℕ × Scheduler
attempt (some p, s) next = (some p, s)
attempt (none, s) next = next s

-- The three attempts of a round. An empty queue has nothing eligible, so `len(...) > 0` is no test.
pub pick : Scheduler → ℕ → Option ℕ × Scheduler
pick s now =
    attempt (attempt (if choose_bulk s now then from_bulk s else (none, s)) from_high) from_bulk

-- The rest of a round, for the grant picked.
pub hand_out : Scheduler → ℕ → Scheduler
hand_out s p =
    let g = s.grant_heap p in
    let st = s.state_heap g.state in
    record s {
      grant_heap = update s.grant_heap p (record g { granted = true; ready = true });
      state_heap = update s.state_heap g.state (record st {
        pending = st.pending - 1;
        active = st.active + 1;
        grants = update st.grants p true;
      });
      active = s.active + 1;
      last_flow = g.flow_id;
    }

-- The loop of dispatchLocked, with a round for each grant that may still become active.
pub dispatch_loop : (ℕ → ℕ) → ℕ → Scheduler → Scheduler
dispatch_loop clock zero s = s
dispatch_loop clock (suc n) s =
    let (grant, s') = pick s (clock n) in
    elim grant [ none ↦ s' | some p ↦ dispatch_loop clock n (hand_out s' p) ]

pub dispatch : (ℕ → ℕ) → Scheduler → Scheduler
dispatch clock s = dispatch_loop clock (s.cfg.max_active - s.active) s

-- The map of flows: lookup, assignment of a new key, and `delete`.
pub lookup : ℕ → List (ℕ × ℕ) → Option ℕ
lookup k [] = none
lookup k ((j, v) ∷ m) = if j == k then some v else lookup k m

pub delete : ℕ → List (ℕ × ℕ) → List (ℕ × ℕ)
delete k [] = []
delete k ((j, v) ∷ m) = let rest = delete k m in if j == k then rest else (j, v) ∷ rest

-- The state of a flow, allocated if it has none.
pub state_of : Scheduler → ℕ → ℕ × Scheduler
state_of s flow = elim (lookup flow s.states) [
  | some st ↦ (st, s)
  | none ↦ (
    s.next_state,
    record s {
      states = (flow, s.next_state) ∷ s.states;
      state_heap = update s.state_heap s.next_state new_state;
      next_state = suc s.next_state;
    },
  )
]

abbrev pub class_new : ℕ
class_new = 0

abbrev pub class_interactive : ℕ
class_interactive = 1

-- What request does with the state of the flow, up to its call of dispatchLocked.
pub insert_grant : Scheduler → ℕ → ℕ → ℕ → ℕ → ℕ → Scheduler
insert_grant s st flow class bytes now =
    let state = s.state_heap st in
    let visible = class == class_new || class == class_interactive in
    let startup = not visible && ltb state.startup_assigned s.cfg.startup_bytes in
    let high = visible || startup in
    let p = s.next_grant in
    let grant : Grant = record {
      flow_id = flow;
      bytes = bytes;
      high = high;
      queued = now;
      ready = false;
      granted = false;
      done = none;
      state = st;
    } in
    record s {
      grant_heap = update s.grant_heap p grant;
      next_grant = suc p;
      state_heap = update s.state_heap st (record state {
        pending = state.pending + 1;
        startup_assigned =
            if startup then state.startup_assigned + bytes else state.startup_assigned;
      });
      high = if high then s.high ++ (p ∷ []) else s.high;
      bulk = if high then s.bulk else s.bulk ++ (p ∷ []);
    }

pub enqueue : Scheduler → ℕ → ℕ → ℕ → ℕ → Scheduler
enqueue s flow class bytes now =
    let (st, s') = state_of s flow in insert_grant s' st flow class bytes now

-- The grant that request returns, and the scheduler after it.
pub request : (ℕ → ℕ) → Scheduler → ℕ → ℕ → ℕ → ℕ → ℕ × Scheduler
request clock s flow class bytes now =
    (s.next_grant, dispatch clock (enqueue s flow class bytes now))

-- `grant.done = err`, and a grant that is active no longer is.
pub finish : Scheduler → ℕ → Done → Scheduler
finish s p done =
    let g = s.grant_heap p in
    let st = s.state_heap g.state in
    let marked = update s.grant_heap p (record g { done = some done }) in
    if g.granted
    then record s {
      grant_heap = marked;
      state_heap =
          update s.state_heap g.state
            (record st { active = st.active - 1; grants = update st.grants p false });
      active = s.active - 1;
    }
    else record s { grant_heap = marked }

-- What cancel does besides to a grant that was not handed out.
pub unqueue : Scheduler → ℕ → Scheduler
unqueue s p =
    let g = s.grant_heap p in
    let st = s.state_heap g.state in
    if g.granted then s else record s {
      state_heap = update s.state_heap g.state (record st { pending = st.pending - 1 });
      high = without p s.high;
      bulk = without p s.bulk;
    }

pub empty : Scheduler → Bool
empty s = s.active == 0 && length s.high == 0 && length s.bulk == 0 && length s.states == 0

pub release : (ℕ → ℕ) → Scheduler → Option ℕ → Bool × Scheduler
release clock s none = (empty s, s)
release clock s (some p) =
    let s' = dispatch clock (finish s p scheduling_closed) in
    if is_some (s.grant_heap p).done then (empty s, s) else (empty s', s')

pub cancel : (ℕ → ℕ) → Scheduler → Option ℕ → Bool × Scheduler
cancel clock s none = (empty s, s)
cancel clock s (some p) =
    let s' = dispatch clock (unqueue (finish s p canceled) p) in
    if is_some (s.grant_heap p).done then (empty s, s) else (empty s', s')

-- closePending of closeFlow: what stays in the queue, and the scheduler with the others closed.
pub close_pending : ℕ → ℕ → List ℕ → Scheduler → List ℕ × Scheduler
close_pending flow st [] s = ([], s)
close_pending flow st (p ∷ ps) s =
    let g = s.grant_heap p in
    let state = s.state_heap st in
    let closed = record s {
      grant_heap = update s.grant_heap p (record g { done = some scheduling_closed; ready = true });
      state_heap = update s.state_heap st (record state { pending = state.pending - 1 });
    } in
    let (kept, s') = close_pending flow st ps s in
    let dropped = close_pending flow st ps closed in
    if not (g.flow_id == flow) || is_some g.done then (p ∷ kept, s') else dropped

-- The loop of closeFlow over `state.grants`, by descending pointers.
pub close_grants : ℕ → ℕ → Scheduler → Scheduler
close_grants st zero s = s
close_grants st (suc p) s =
    let g = s.grant_heap p in
    let state = s.state_heap st in
    let left = update state.grants p false in
    let ended = record s {
      grant_heap = update s.grant_heap p (record g { done = some scheduling_closed });
      state_heap =
          update s.state_heap st (record state { active = state.active - 1; grants = left });
      active = s.active - 1;
    } in
    let only = record s { state_heap = update s.state_heap st (record state { grants = left }) } in
    let one = if is_some g.done then only else ended in
    close_grants st p (if state.grants p then one else s)

pub close_flow : (ℕ → ℕ) → Scheduler → ℕ → Bool × Scheduler
close_flow clock s flow = elim (lookup flow s.states) [
  | none ↦ (empty s, s)
  | some st ↦
      let (high, s1) = close_pending flow st s.high s in
      let (bulk, s2) = close_pending flow st s1.bulk (record s1 { high = high }) in
      let s3 = close_grants st s.next_grant (record s2 { bulk = bulk }) in
      let s4 = dispatch clock (record s3 { states = delete flow s3.states }) in (empty s4, s4)
]
