-- ===== src/Pep/FlowScheduler/Closing.antt =====
-- closeFlow of internal/pep/flowscheduler.go keeps a scheduler valid.
use niulang.Prelude.{
  ℕ, zero, suc, ◌-◌, ◌<◌, ◌≡◌, refl, sym, ap, ◌∙◌, arith, Bool, true, false, not, ◌||◌, Option,
  none, some, List, [], ◌∷◌, ◌==◌, if◌then◌else◌, All, Bool-cases, Option-cases, inl, inr,
}
use niulang.Pep.FlowScheduler.{
  Grant, scheduling_closed, Scheduler, update, is_some, lookup, delete, dispatch, empty,
  close_pending, close_grants, close_flow,
}
use niulang.Pep.FlowScheduler.Queues.{Queue, Queue-le}
use niulang.Pep.FlowScheduler.Invariant.{IsCounted, IsValid}
use niulang.Pep.FlowScheduler.Dispatch.{Rests, dispatch-Rests}
use niulang.Pep.FlowScheduler.Requests.{state-IsCounted}
use niulang.Pep.FlowScheduler.Endings.{ended-IsCounted, idle-IsCounted}
use mathlib.Core.Path.{subst}

-- What a loop of closeFlow leaves as it was.
pub record Closes (s s' : Scheduler) : Type 0 where
  pub counted : IsCounted s'
  pub next_grant : s'.next_grant ≡ s.next_grant
  pub granted : (p : ℕ) → (s'.grant_heap p).granted ≡ (s.grant_heap p).granted
  pub class : (p : ℕ) → (s'.grant_heap p).high ≡ (s.grant_heap p).high
  pub high : s'.high ≡ s.high
  pub bulk : s'.bulk ≡ s.bulk
  pub cfg : s'.cfg ≡ s.cfg
  pub high_run : s'.high_run ≡ s.high_run

Closes-trans : (a b c : Scheduler) → Closes a b → Closes b c → Closes a c
Closes-trans a b c f g = record {
  counted = g.counted;
  next_grant = g.next_grant ∙ f.next_grant;
  granted = λ p. g.granted p ∙ f.granted p;
  class = λ p. g.class p ∙ f.class p;
  high = g.high ∙ f.high;
  bulk = g.bulk ∙ f.bulk;
  cfg = g.cfg ∙ f.cfg;
  high_run = g.high_run ∙ f.high_run;
}

Closes-refl : (s : Scheduler) → IsCounted s → Closes s s
Closes-refl s v = record {
  counted = v;
  next_grant = refl;
  granted = λ p. refl;
  class = λ p. refl;
  high = refl;
  bulk = refl;
  cfg = refl;
  high_run = refl;
}

-- A queue in a heap that differs elsewhere.
Queue-Alike :
    (heap heap' : ℕ → Grant) (lo n : ℕ) (flag : Bool) (q : List ℕ)
    → ((p : ℕ) → (heap' p).granted ≡ (heap p).granted)
    → ((p : ℕ) → (heap' p).high ≡ (heap p).high)
    → Queue heap lo n flag q
    → Queue heap' lo n flag q
Queue-Alike heap heap' lo n flag [] e e' h = tt
Queue-Alike heap heap' lo n flag (p ∷ ps) e e' h =
    (h.0, h.1, e p ∙ h.2, e' p ∙ h.3, Queue-Alike heap heap' (suc p) n flag ps e e' h.4)

update-kept {ℓ} :
    {A : Type ℓ}
    → (f : Grant → A) (heap : ℕ → Grant) (p : ℕ) (g : Grant) → f g ≡ f (heap p)
    → (q : ℕ) → f (update heap p g q) ≡ f (heap q)
update-kept f heap p g e q = elim (Bool-cases (p == q)) [
  | inl same ↦
      let at : p ≡ q = ground (arith, same) in
      ap (λ b. f (if b then g else heap q)) same ∙ e ∙ ap (λ i. f (heap i)) at
  | inr other ↦ ap (λ b. f (if b then g else heap q)) other
]

-- A grant of a queue is closed.
abbrev closed : Scheduler → ℕ → ℕ → Scheduler
closed s st p =
    let g = s.grant_heap p in
    let state = s.state_heap st in
    record s {
      grant_heap = update s.grant_heap p (record g { done = some scheduling_closed; ready = true });
      state_heap = update s.state_heap st (record state { pending = state.pending - 1 });
    }

closed-Closes :
    (s : Scheduler) (st p : ℕ)
    → (s.grant_heap p).granted ≡ false
    → IsCounted s
    → Closes s (closed s st p)
closed-Closes s st p waiting v =
    let g = s.grant_heap p in
    let g' : Grant = record g { done = some scheduling_closed; ready = true } in
    let idle = idle-IsCounted s p g' (ground (arith, waiting)) (ground arith) refl v in
    let state = s.state_heap st in
    let w =
      state-IsCounted (record s { grant_heap = update s.grant_heap p g' }) st
        (record state { pending = state.pending - 1 }) refl (λ q. refl) idle in
    record {
      counted = record {
        limit = w.limit;
        total = w.total;
        each = w.each;
        per = w.per;
        held = w.held;
        owned = w.owned;
        known = w.known;
      };
      next_grant = refl;
      granted = update-kept (λ k. k.granted) s.grant_heap p g' refl;
      class = update-kept (λ k. k.high) s.grant_heap p g' refl;
      high = refl;
      bulk = refl;
      cfg = refl;
      high_run = refl;
    }

abbrev Closed : Scheduler → ℕ → Bool → List ℕ × Scheduler → Type 0
Closed s lo flag r = Closes s r.1 × Queue s.grant_heap lo s.next_grant flag r.0

close_pending-Closed :
    (flow st lo : ℕ) (flag : Bool) (q : List ℕ) (s : Scheduler)
    → IsCounted s
    → Queue s.grant_heap lo s.next_grant flag q
    → Closed s lo flag (close_pending flow st q s)
unfolding close_pending
close_pending-Closed flow st lo flag [] s v h = (Closes-refl s v, tt)
close_pending-Closed flow st lo flag (p ∷ ps) s v h =
    let keep = close_pending-Closed flow st (suc p) flag ps s v h.4 in
    let step = closed-Closes s st p h.2 v in
    let drop = close_pending-Closed flow st (suc p) flag ps (closed s st p) step.counted (
      Queue-Alike s.grant_heap (closed s st p).grant_heap (suc p) s.next_grant flag ps step.granted
        step.class h.4) in
    let kept = close_pending flow st ps s in
    let dropped = close_pending flow st ps (closed s st p) in
    elim (Bool-cases (not ((s.grant_heap p).flow_id == flow) || is_some (s.grant_heap p).done)) [
      | inl keeps ↦
          subst (λ b. Closed s lo flag (if b then (p ∷ kept.0, kept.1) else dropped)) (sym keeps)
            (keep.0, (h.0, h.1, h.2, h.3, keep.1))
      | inr drops ↦
          subst (λ b. Closed s lo flag (if b then (p ∷ kept.0, kept.1) else dropped)) (sym drops)
            (
              Closes-trans s (closed s st p) dropped.1 step drop.0,
              Queue-le s.grant_heap lo (suc p) s.next_grant flag dropped.0 (omega (arith, h.0)) (
                  Queue-Alike (closed s st p).grant_heap s.grant_heap (suc p) s.next_grant flag
                    dropped.0 (λ j. sym (step.granted j)) (λ j. sym (step.class j)) drop.1),
            )
    ]

-- A grant that was handed out is closed.
module _ (s : Scheduler) (st p : ℕ) where
  abbrev ended_of : Scheduler
  ended_of =
      let g = s.grant_heap p in
      let state = s.state_heap st in
      record s {
        grant_heap = update s.grant_heap p (record g { done = some scheduling_closed });
        state_heap =
            update s.state_heap st
              (record state { active = state.active - 1; grants = update state.grants p false });
        active = s.active - 1;
      }

  abbrev forgot : Scheduler
  forgot =
      let state = s.state_heap st in
      record s {
        state_heap = update s.state_heap st (record state { grants = update state.grants p false });
      }

  abbrev one_closed : Bool → Bool → Scheduler
  one_closed mine done = if mine then (if done then forgot else ended_of) else s

  one_closed-Closes :
      IsCounted s
      → Closes s (one_closed ((s.state_heap st).grants p) (is_some (s.grant_heap p).done))
  one_closed-Closes v = elim (Bool-cases ((s.state_heap st).grants p)) [
    | inr foreign ↦
        subst (λ b. Closes s (one_closed b (is_some (s.grant_heap p).done))) (sym foreign)
          (Closes-refl s v)
    | inl mine ↦
        let (alive, at, below) = v.held st p mine in
        let undone : is_some (s.grant_heap p).done ≡ false = ground (arith, alive) in
        let g = s.grant_heap p in
        let counted : IsCounted ended_of =
          subst
            (λ k. IsCounted (record s {
              grant_heap = update s.grant_heap p (record g { done = some scheduling_closed });
              state_heap = update s.state_heap k (record (s.state_heap k) {
                active = (s.state_heap k).active - 1;
                grants = update (s.state_heap k).grants p false;
              });
              active = s.active - 1;
            }))
            at (ended-IsCounted s p scheduling_closed v below alive) in
        subst (λ b. Closes s (one_closed b (is_some g.done))) (sym mine)
          (subst (λ b. Closes s (one_closed true b)) (sym undone)
            (record {
              counted = counted;
              next_grant = refl;
              granted =
                  update-kept (λ k. k.granted) s.grant_heap p
                    (record g { done = some scheduling_closed }) refl;
              class =
                  update-kept (λ k. k.high) s.grant_heap p
                    (record g { done = some scheduling_closed }) refl;
              high = refl;
              bulk = refl;
              cfg = refl;
              high_run = refl;
            }))
  ]

close_grants-Closes : (st n : ℕ) (s : Scheduler) → IsCounted s → Closes s (close_grants st n s)
unfolding close_grants
close_grants-Closes st zero s v = Closes-refl s v
close_grants-Closes st (suc p) s v =
    let s' = one_closed s st p ((s.state_heap st).grants p) (is_some (s.grant_heap p).done) in
    let step = one_closed-Closes s st p v in
    Closes-trans s s' _ step (close_grants-Closes st p s' step.counted)

delete-known : (k n : ℕ) (m : List (ℕ × ℕ)) → All (λ e. e.1 < n) m → All (λ e. e.1 < n) (delete k m)
unfolding delete
delete-known k n [] a = tt
delete-known k n ((j, v) ∷ m) a = elim (Bool-cases (j == k)) [
  | inl same ↦ rw same (delete-known k n m a.1)
  | inr other ↦ rw other (a.0, delete-known k n m a.1)
]

-- The body of closeFlow for a flow that has a state, up to its call of dispatchLocked.
abbrev pub body : Scheduler → ℕ → ℕ → Scheduler
body s flow st =
    let (high, s1) = close_pending flow st s.high s in
    let (bulk, s2) = close_pending flow st s1.bulk (record s1 { high = high }) in
    let s3 = close_grants st s.next_grant (record s2 { bulk = bulk }) in
    record s3 { states = delete flow s3.states }

-- New queues, which no counter reads.
requeued-IsCounted :
    (s : Scheduler) (high bulk : List ℕ)
    → IsCounted s
    → IsCounted (record s { high = high; bulk = bulk })
requeued-IsCounted s high bulk w = record {
  limit = w.limit;
  total = w.total;
  each = w.each;
  per = w.per;
  held = w.held;
  owned = w.owned;
  known = w.known;
}

-- It keeps the scheduler valid, and leaves the configuration and the count of the burst as they were.
pub body-IsValid :
    (s : Scheduler) (flow st : ℕ)
    → IsValid s
    → IsValid (body s flow st)
      × ((body s flow st).cfg ≡ s.cfg)
      × ((body s flow st).high_run ≡ s.high_run)
body-IsValid s flow st v =
    let r = close_pending flow st s.high s in
    let (c1, q1) = close_pending-Closed flow st 0 true s.high s v.counted v.high in
    let t = record r.1 { high = r.0 } in
    let t_counted = requeued-IsCounted r.1 r.0 r.1.bulk c1.counted in
    let bulk0 : Queue t.grant_heap 0 t.next_grant false t.bulk =
      subst (λ q. Queue t.grant_heap 0 t.next_grant false q) (sym c1.bulk)
        (subst (λ n. Queue t.grant_heap 0 n false s.bulk) (sym c1.next_grant)
          (Queue-Alike s.grant_heap t.grant_heap 0 s.next_grant false s.bulk c1.granted c1.class
            v.bulk)) in
    let high0 : Queue t.grant_heap 0 t.next_grant true t.high =
      subst (λ n. Queue t.grant_heap 0 n true r.0) (sym c1.next_grant)
        (Queue-Alike s.grant_heap t.grant_heap 0 s.next_grant true r.0 c1.granted c1.class q1) in
    let r2 = close_pending flow st t.bulk t in
    let (c2, q2) = close_pending-Closed flow st 0 false t.bulk t t_counted bulk0 in
    let u = record r2.1 { bulk = r2.0 } in
    let c3 =
      close_grants-Closes st s.next_grant u (requeued-IsCounted r2.1 r2.1.high r2.0 c2.counted) in
    let w = c3.counted in
    let s3 = close_grants st s.next_grant u in
    let granted : (p : ℕ) → (s3.grant_heap p).granted ≡ (t.grant_heap p).granted =
      λ p. c3.granted p ∙ c2.granted p in
    let class : (p : ℕ) → (s3.grant_heap p).high ≡ (t.grant_heap p).high =
      λ p. c3.class p ∙ c2.class p in
    (
      record {
        counted = record {
          limit = w.limit;
          total = w.total;
          each = w.each;
          per = w.per;
          held = w.held;
          owned = w.owned;
          known = delete-known flow s3.next_state s3.states w.known;
        };
        high =
            subst (λ q. Queue s3.grant_heap 0 s3.next_grant true q) (sym (c3.high ∙ c2.high))
              (subst (λ n. Queue s3.grant_heap 0 n true t.high)
                (sym (c3.next_grant ∙ c2.next_grant))
                (Queue-Alike t.grant_heap s3.grant_heap 0 t.next_grant true t.high granted class
                  high0));
        bulk =
            subst (λ q. Queue s3.grant_heap 0 s3.next_grant false q) (sym c3.bulk)
              (subst (λ n. Queue s3.grant_heap 0 n false r2.0) (sym (c3.next_grant ∙ c2.next_grant))
                (Queue-Alike t.grant_heap s3.grant_heap 0 t.next_grant false r2.0 granted class
                  q2));
      },
      c3.cfg ∙ c2.cfg ∙ c1.cfg,
      c3.high_run ∙ c2.high_run ∙ c1.high_run,
    )

pub close_flow-Rests :
    (clock : ℕ → ℕ) (s : Scheduler) (flow : ℕ) → Rests s → Rests (close_flow clock s flow).1
unfolding close_flow
close_flow-Rests clock s flow r =
    let answer : Option ℕ → Bool × Scheduler = λ o. elim o as (λ _. Bool × Scheduler) [
      | none ↦ (empty s, s)
      | some st ↦ (empty (dispatch clock (body s flow st)), dispatch clock (body s flow st))
    ] in
    elim (Option-cases (lookup flow s.states)) [
      | inl absent ↦ subst (λ o. Rests (answer o).1) (sym absent) r
      | inr (st, found) ↦
          subst (λ o. Rests (answer o).1) (sym found)
            (dispatch-Rests clock (body s flow st) (body-IsValid s flow st r.valid).0)
    ]
