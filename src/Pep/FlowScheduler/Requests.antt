-- ===== src/Pep/FlowScheduler/Requests.antt =====
-- request of internal/pep/flowscheduler.go keeps a scheduler valid.
use niulang.Prelude.{
  ℕ, suc, ◌+◌, ◌<◌, ◌≡◌, refl, sym, ap, ◌∙◌, arith, Bool, true, false, not, ◌&&◌, ◌||◌, none, some,
  List, [], ◌∷◌, ◌++◌, ltb, ◌==◌, if◌then◌else◌, All, Bool-cases, Option-cases, inl, inr,
}
use niulang.Pep.FlowScheduler.{
  Config, Grant, FlowState, Scheduler, update, new_state, new_flow_scheduler, lookup, state_of,
  insert_grant, enqueue, request, class_new, class_interactive,
}
use niulang.Pep.FlowScheduler.Counts.{bit, count-agree, count-none}
use niulang.Pep.FlowScheduler.Queues.{Queue, Queue-more, Queue-append, Queue-Absent, Queue-fresh}
use niulang.Pep.FlowScheduler.Invariant.{live, live_in, IsCounted, IsValid, IsCounted-Alike}
use niulang.Pep.FlowScheduler.Dispatch.{Rests, dispatch-Rests}
use native.Mathlib.Decide.{ℕ_discrete}
use mathlib.Core.Path.{subst}

pub new_flow_scheduler-IsValid : (cfg : Config) → IsValid (new_flow_scheduler cfg)
unfolding new_flow_scheduler
new_flow_scheduler-IsValid cfg = record {
  counted = record {
    limit = omega arith;
    total = refl;
    each = λ st. refl;
    per = λ st. omega arith;
    held = λ st p h. absurd (cc);
    owned = λ p l. absurd (omega (arith, l));
    known = tt;
  };
  high = tt;
  bulk = tt;
}

pub lookup-known :
    (k st n : ℕ) (m : List (ℕ × ℕ)) → All (λ e. e.1 < n) m → lookup k m ≡ some st → st < n
unfolding lookup
lookup-known k st n [] a h = absurd (cc)
lookup-known k st n ((j, v) ∷ m) a h = elim (Bool-cases (j == k)) [
  | inl same ↦ subst (λ x. x < n) (ground (arith, same, h)) a.0
  | inr other ↦ lookup-known k st n m a.1 (ground (arith, other, h))
]

known-more : (n : ℕ) (m : List (ℕ × ℕ)) → All (λ e. e.1 < n) m → All (λ e. e.1 < suc n) m
known-more n [] a = tt
known-more n (e ∷ m) a = (omega (arith, a.0), known-more n m a.1)

-- A state that is allocated.
allocated-IsValid :
    (s : Scheduler) (flow : ℕ)
    → IsValid s
    → IsValid (record s {
      states = (flow, s.next_state) ∷ s.states;
      state_heap = update s.state_heap s.next_state new_state;
      next_state = suc s.next_state;
    })
allocated-IsValid s flow v =
    let w = v.counted in
    record {
      counted = record {
        limit = w.limit;
        total = w.total;
        each = λ st. elim (Bool-cases (s.next_state == st)) [
          | inl same ↦
              let none_live = count-none (live_in s.grant_heap st) s.next_grant (λ p l.
                let apart : ((s.grant_heap p).state == st) ≡ false =
                  ground (arith, same, w.owned p l) in
                ground (arith, apart)) in
              rw same (sym none_live)
          | inr other ↦ rw other (w.each st)
        ];
        per = λ st. elim (Bool-cases (s.next_state == st)) [
          | inl same ↦ rw same (omega arith)
          | inr other ↦ rw other (w.per st)
        ];
        held = λ st p h. elim (Bool-cases (s.next_state == st)) [
          | inl same ↦ absurd (ground (arith, same, h))
          | inr other ↦ w.held st p (rw other at h)
        ];
        owned = λ p l. omega (arith, w.owned p l);
        known = (omega arith, known-more s.next_state s.states w.known);
      };
      high = v.high;
      bulk = v.bulk;
    }

-- A state whose counter and set stay.
pub state-IsCounted :
    (s : Scheduler) (st : ℕ) (state : FlowState)
    → state.active ≡ (s.state_heap st).active
    → ((p : ℕ) → state.grants p ≡ (s.state_heap st).grants p)
    → IsCounted s
    → IsCounted (record s { state_heap = update s.state_heap st state })
state-IsCounted s st state e sets v =
    let same : (k : ℕ) → st == k ≡ true → st ≡ k = λ k h. ground (arith, h) in
    IsCounted-Alike s (record s { state_heap = update s.state_heap st state })
      (record {
        cfg = refl;
        active = refl;
        next_grant = refl;
        next_state = refl;
        lives = λ p. refl;
        state = λ p. refl;
        actives = λ k. elim (Bool-cases (st == k)) [
          | inl mine ↦ rw mine (e ∙ ap (λ j. (s.state_heap j).active) (same k mine))
          | inr other ↦ rw other refl
        ];
        sets = λ k p h. elim (Bool-cases (st == k)) [
          | inl mine ↦
              ap (λ j. (s.state_heap j).grants p) (sym (same k mine))
              ∙ sym (sets p)
              ∙ (rw mine at h)
          | inr other ↦ rw other at h
        ];
      })
      v.known v

-- A grant that is allocated and put into the queue of its class.
abbrev push : Scheduler → Grant → Scheduler
push s g = record s {
  grant_heap = update s.grant_heap s.next_grant g;
  next_grant = suc s.next_grant;
  high = if g.high then s.high ++ (s.next_grant ∷ []) else s.high;
  bulk = if g.high then s.bulk else s.bulk ++ (s.next_grant ∷ []);
}

module _ (s : Scheduler) (g : Grant) (v : IsValid s) (waiting : g.granted ≡ false)
    (owned : g.state < s.next_state) where
  old_grant : (q : ℕ) → q < s.next_grant → (s.next_grant == q) ≡ false
  old_grant q l = ground (arith, l)

  new_grant : (s.next_grant == s.next_grant) ≡ true
  new_grant = ground arith

  not_live : live (update s.grant_heap s.next_grant g s.next_grant) ≡ false
  not_live = rw new_grant (ground (arith, waiting))

  push-IsCounted : IsCounted (push s g)
  push-IsCounted =
      let w = v.counted in
      record {
        limit = w.limit;
        total =
            let rest =
              count-agree (λ p. live (s.grant_heap p))
                (λ p. live (update s.grant_heap s.next_grant g p)) s.next_grant
                (λ q l. rw (old_grant q l) refl) in
            omega (arith, rest, ap bit not_live, w.total);
        each = λ st.
            let rest =
              count-agree (live_in s.grant_heap st)
                (live_in (update s.grant_heap s.next_grant g) st) s.next_grant
                (λ q l. rw (old_grant q l) refl) in
            let top : live_in (update s.grant_heap s.next_grant g) st s.next_grant ≡ false =
              ap (λ b. b && (update s.grant_heap s.next_grant g s.next_grant).state == st)
                not_live in
            omega (arith, rest, ap bit top, w.each st);
        per = w.per;
        held = λ st p h.
            let (alive, state, below) = w.held st p h in
            (rw (old_grant p below) alive, rw (old_grant p below) state, omega (arith, below));
        owned = λ p l. elim (ℕ_discrete s.next_grant p) [
          | yes e ↦ let same : (s.next_grant == p) ≡ true = ground (arith, e) in rw same owned
          | no ne ↦
              let other : (s.next_grant == p) ≡ false = ground (arith, ne) in
              rw other (w.owned p (omega (arith, l, ne)))
        ];
        known = w.known;
      }

  push-Queue :
      (flag : Bool) (q : List ℕ)
      → Queue s.grant_heap 0 s.next_grant flag q
      → Queue (update s.grant_heap s.next_grant g) 0 (suc s.next_grant) flag q
        × (g.high ≡ flag
            → Queue
                (update s.grant_heap s.next_grant g)
                0
                (suc s.next_grant)
                flag
                (q ++ (s.next_grant ∷ [])))
  push-Queue flag q h =
      let heap = update s.grant_heap s.next_grant g in
      let kept =
        Queue-Absent s.grant_heap s.next_grant g 0 s.next_grant flag q
          (Queue-fresh s.grant_heap 0 s.next_grant flag q h) h in
      (
        Queue-more heap 0 s.next_grant flag q kept,
        λ e.
            Queue-append heap 0 s.next_grant flag q (omega arith) (rw new_grant waiting)
              (rw new_grant e) kept,
      )

  push-IsValid : IsValid (push s g)
  push-IsValid =
      let high = push-Queue true s.high v.high in
      let bulk = push-Queue false s.bulk v.bulk in
      let n = s.next_grant in
      let Holds : Bool → List ℕ → Type 0 = Queue (update s.grant_heap n g) 0 (suc n) in
      let High : Bool → Type 0 = λ b. Holds true (if b then s.high ++ (n ∷ []) else s.high) in
      let Bulk : Bool → Type 0 = λ b. Holds false (if b then s.bulk else s.bulk ++ (n ∷ [])) in
      record {
        counted = push-IsCounted;
        high = elim (Bool-cases g.high) [
          | inl is_high ↦ subst High (sym is_high) (high.1 is_high)
          | inr is_bulk ↦ subst High (sym is_bulk) high.0
        ];
        bulk = elim (Bool-cases g.high) [
          | inl is_high ↦ subst Bulk (sym is_high) bulk.0
          | inr is_bulk ↦ subst Bulk (sym is_bulk) (bulk.1 is_bulk)
        ];
      }

insert_grant-IsValid :
    (s : Scheduler) (st flow class bytes now : ℕ)
    → IsValid s
    → st < s.next_state
    → IsValid (insert_grant s st flow class bytes now)
unfolding insert_grant
insert_grant-IsValid s st flow class bytes now v owned =
    let state = s.state_heap st in
    let visible = class == class_new || class == class_interactive in
    let startup = not visible && ltb state.startup_assigned s.cfg.startup_bytes in
    let grant : Grant = record {
      flow_id = flow;
      bytes = bytes;
      high = visible || startup;
      queued = now;
      ready = false;
      granted = false;
      done = none;
      state = st;
    } in
    let w = push-IsValid s grant v refl owned in
    record {
      counted =
          state-IsCounted (push s grant) st
            (record state {
              pending = state.pending + 1;
              startup_assigned =
                  if startup then state.startup_assigned + bytes else state.startup_assigned;
            })
            refl (λ p. refl) w.counted;
      high = w.high;
      bulk = w.bulk;
    }

-- The scheduler with a state allocated to a flow.
abbrev allocated : Scheduler → ℕ → Scheduler
allocated s flow = record s {
  states = (flow, s.next_state) ∷ s.states;
  state_heap = update s.state_heap s.next_state new_state;
  next_state = suc s.next_state;
}

state_of-some :
    (s : Scheduler) (flow st : ℕ) → lookup flow s.states ≡ some st → state_of s flow ≡ (st, s)
unfolding state_of
state_of-some s flow st found =
    ap
      (λ o. elim o as (λ _. ℕ × Scheduler) [
        | some k ↦ (k, s)
        | none ↦ (s.next_state, allocated s flow)
      ])
      found

state_of-none :
    (s : Scheduler) (flow : ℕ)
    → lookup flow s.states ≡ none
    → state_of s flow ≡ (s.next_state, allocated s flow)
unfolding state_of
state_of-none s flow absent =
    ap
      (λ o. elim o as (λ _. ℕ × Scheduler) [
        | some k ↦ (k, s)
        | none ↦ (s.next_state, allocated s flow)
      ])
      absent

pub enqueue-IsValid :
    (s : Scheduler) (flow class bytes now : ℕ)
    → IsValid s
    → IsValid (enqueue s flow class bytes now)
unfolding enqueue
enqueue-IsValid s flow class bytes now v =
    let insert : ℕ × Scheduler → Scheduler = λ t. insert_grant t.1 t.0 flow class bytes now in
    elim (Option-cases (lookup flow s.states)) [
      | inl absent ↦
          subst (λ t. IsValid (insert t)) (sym (state_of-none s flow absent))
            (insert_grant-IsValid _ s.next_state flow class bytes now (allocated-IsValid s flow v)
              (omega arith))
      | inr (st, found) ↦
          subst (λ t. IsValid (insert t)) (sym (state_of-some s flow st found))
            (insert_grant-IsValid s st flow class bytes now v
              (lookup-known flow st s.next_state s.states v.counted.known found))
    ]

-- It leaves the configuration and the count of the burst as they were.
pub enqueue-Keeps :
    (s : Scheduler) (flow class bytes now : ℕ)
    → ((enqueue s flow class bytes now).cfg ≡ s.cfg)
      × ((enqueue s flow class bytes now).high_run ≡ s.high_run)
unfolding enqueue insert_grant
enqueue-Keeps s flow class bytes now =
    let Keeps : ℕ × Scheduler → Type 0 = λ t. (t.1.cfg ≡ s.cfg) × (t.1.high_run ≡ s.high_run) in
    let both : Keeps (state_of s flow) = elim (Option-cases (lookup flow s.states)) [
      | inl absent ↦ subst Keeps (sym (state_of-none s flow absent)) (refl, refl)
      | inr (st, found) ↦ subst Keeps (sym (state_of-some s flow st found)) (refl, refl)
    ] in
    both

pub request-Rests :
    (clock : ℕ → ℕ) (s : Scheduler) (flow class bytes now : ℕ)
    → IsValid s
    → Rests (request clock s flow class bytes now).1
unfolding request
request-Rests clock s flow class bytes now v =
    dispatch-Rests clock (enqueue s flow class bytes now) (enqueue-IsValid s flow class bytes now v)
