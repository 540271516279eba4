-- ===== src/Pep/FlowScheduler/Dispatch.antt =====
-- dispatchLocked of internal/pep/flowscheduler.go keeps the counters right and leaves nothing undone.
use niulang.Prelude.{
  ℕ, zero, suc, ◌+◌, ◌-◌, ◌<◌, ◌≡◌, ◌≢◌, refl, sym, ap, ◌∙◌, arith, Bool, true, false, Option, none,
  some, List, ◌==◌, if◌then◌else◌, All, Bool-cases, inl, inr, ◌⊎◌,
}
use niulang.Pep.FlowScheduler.{
  Scheduler, update, is_some, eligible, without, choose_bulk, from_bulk, from_high, attempt, pick,
  hand_out, dispatch_loop, dispatch,
}
use niulang.Pep.FlowScheduler.Counts.{bit}
use niulang.Pep.FlowScheduler.Queues.{
  Queue, Absent, Queue-Absent, Queue-other, without-Queue, take_eligible-cases,
}
use niulang.Pep.FlowScheduler.Invariant.{live, IsCounted, IsValid, Balances, write-IsCounted}
use mathlib.Core.Path.{subst}

abbrev pub Unfit : Scheduler → List ℕ → Type 0
Unfit s q = All (λ p. eligible s p ≡ false) q

-- A grant picked from a queue, and the queues that are left.
pub record Chosen (s : Scheduler) (result : Option ℕ × Scheduler) : Type 0 where
  pub grant : ℕ
  pub high : List ℕ
  pub bulk : List ℕ
  pub run : ℕ
  pub gives : result ≡ (some grant, record s { high = high; bulk = bulk; high_run = run })
  pub fit : eligible s grant ≡ true
  pub below : grant < s.next_grant
  pub waiting : (s.grant_heap grant).granted ≡ false
  pub high_queue : Queue s.grant_heap 0 s.next_grant true high
  pub bulk_queue : Queue s.grant_heap 0 s.next_grant false bulk
  pub high_absent : Absent grant high
  pub bulk_absent : Absent grant bulk
  pub class :
      ((s.grant_heap grant).high ≡ true × run ≡ s.high_run + 1)
      ⊎ ((s.grant_heap grant).high ≡ false × run ≡ 0)

class-true : (b : Bool) → b ≡ true → b ≢ false
class-true b e n = absurd (cc)

class-false : (b : Bool) → b ≡ false → b ≢ true
class-false b e n = absurd (cc)

from_bulk-cases :
    (s : Scheduler)
    → IsValid s
    → ((from_bulk s ≡ (none, s)) × Unfit s s.bulk) ⊎ Chosen s (from_bulk s)
unfolding from_bulk
from_bulk-cases s v = elim (take_eligible-cases s s.next_grant false s.bulk v.bulk) [
  | inl (nothing, unfit) ↦ inl (
    ap (λ t. (t.0, record s { bulk = t.1; high_run = if is_some t.0 then 0 else s.high_run }))
        nothing,
    unfit,
  )
  | inr (p, found, fit, waits) ↦
      let left = without-Queue s.grant_heap p 0 s.next_grant false s.bulk v.bulk in
      inr (record {
        grant = p;
        high = s.high;
        bulk = without p s.bulk;
        run = 0;
        gives =
            ap
              (λ t.
                (t.0, record s { bulk = t.1; high_run = if is_some t.0 then 0 else s.high_run }))
              found;
        fit = fit;
        below = waits.below;
        waiting = waits.granted;
        high_queue = v.high;
        bulk_queue = left.0;
        high_absent =
            Queue-other s.grant_heap p 0 s.next_grant true s.high v.high
              (class-false (s.grant_heap p).high waits.class);
        bulk_absent = left.1;
        class = inr (waits.class, refl);
      })
]

from_high-cases :
    (s : Scheduler)
    → IsValid s
    → ((from_high s ≡ (none, s)) × Unfit s s.high) ⊎ Chosen s (from_high s)
unfolding from_high
from_high-cases s v = elim (take_eligible-cases s s.next_grant true s.high v.high) [
  | inl (nothing, unfit) ↦ inl (
    ap
        (λ t. (
          t.0,
          record s { high = t.1; high_run = if is_some t.0 then s.high_run + 1 else s.high_run },
        ))
        nothing,
    unfit,
  )
  | inr (p, found, fit, waits) ↦
      let left = without-Queue s.grant_heap p 0 s.next_grant true s.high v.high in
      inr (record {
        grant = p;
        high = without p s.high;
        bulk = s.bulk;
        run = s.high_run + 1;
        gives =
            ap
              (λ t. (
                t.0,
                record s {
                  high = t.1;
                  high_run = if is_some t.0 then s.high_run + 1 else s.high_run;
                },
              ))
              found;
        fit = fit;
        below = waits.below;
        waiting = waits.granted;
        high_queue = left.0;
        bulk_queue = v.bulk;
        high_absent = left.1;
        bulk_absent =
            Queue-other s.grant_heap p 0 s.next_grant false s.bulk v.bulk
              (class-true (s.grant_heap p).high waits.class);
        class = inl (waits.class, refl);
      })
]

-- The first attempt, at the bulk queue or at none.
abbrev first_attempt : Scheduler → ℕ → Option ℕ × Scheduler
first_attempt s now = if choose_bulk s now then from_bulk s else (none, s)

first_attempt-cases :
    (s : Scheduler) (now : ℕ)
    → IsValid s
    → (first_attempt s now ≡ (none, s)) ⊎ Chosen s (first_attempt s now)
first_attempt-cases s now v = elim (Bool-cases (choose_bulk s now)) [
  | inr skip ↦ inl (rw skip refl)
  | inl choose ↦ elim (from_bulk-cases s v) [
    | inl (nothing, unfit) ↦ inl (rw choose nothing)
    | inr c ↦ inr (rw choose c)
  ]
]

-- An attempt that finds a grant is the last one.
attempt-Chosen :
    (s : Scheduler) (r : Option ℕ × Scheduler) (next : Scheduler → Option ℕ × Scheduler)
    → Chosen s r
    → attempt r next ≡ r
attempt-Chosen s r next c = ap (λ t. attempt t next) c.gives ∙ sym c.gives

pub pick-cases :
    (s : Scheduler) (now : ℕ)
    → IsValid s
    → ((pick s now ≡ (none, s)) × Unfit s s.high × Unfit s s.bulk) ⊎ Chosen s (pick s now)
unfolding pick
pick-cases s now v =
    let first = first_attempt s now in
    elim (first_attempt-cases s now v) [
      | inr c ↦
          let e : pick s now ≡ first =
            ap (λ t. attempt t from_bulk) (attempt-Chosen s first from_high c)
            ∙ attempt-Chosen s first from_bulk c in
          inr (subst (Chosen s) (sym e) c)
      | inl none_first ↦
          let second : pick s now ≡ attempt (from_high s) from_bulk =
            ap (λ t. attempt (attempt t from_high) from_bulk) none_first in
          elim (from_high-cases s v) [
            | inr c ↦
                inr (subst (Chosen s) (sym (second ∙ attempt-Chosen s (from_high s) from_bulk c)) c)
            | inl (none_high, unfit_high) ↦
                let third : pick s now ≡ from_bulk s =
                  second ∙ ap (λ t. attempt t from_bulk) none_high in
                elim (from_bulk-cases s v) [
                  | inr c ↦ inr (subst (Chosen s) (sym third) c)
                  | inl (none_bulk, unfit_bulk) ↦ inl (third ∙ none_bulk, unfit_high, unfit_bulk)
                ]
          ]
    ]

-- Handing out an eligible grant that was not handed out.
module _ (s : Scheduler) (p : ℕ) (v : IsCounted s) (below : p < s.next_grant)
    (waiting : (s.grant_heap p).granted ≡ false) (fit : eligible s p ≡ true)
    (room : s.active < s.cfg.max_active) where
  hand_out-Balances :
      let g = s.grant_heap p in
      let st = s.state_heap g.state in
      Balances s p
        (record g { granted = true; ready = true })
        (record st {
          pending = st.pending - 1;
          active = st.active + 1;
          grants = update st.grants p true;
        })
        (s.active + 1)
  hand_out-Balances =
      let g = s.grant_heap p in
      let undone : is_some g.done ≡ false = ground (arith, fit) in
      let free : (s.state_heap g.state).active < s.cfg.per_flow = ground (arith, fit) in
      let old : bit (live g) ≡ 0 = ground (arith, waiting) in
      let new : live (record g { granted = true; ready = true }) ≡ true = ground (arith, undone) in
      record {
        below = below;
        state = refl;
        total = omega (arith, old, ap bit new);
        limit = omega (arith, room);
        own = omega (arith, old, ap bit new);
        per = omega (arith, free);
        set = λ q h. elim (Bool-cases (p == q)) [
          | inl same ↦ inl (ground (arith, same), new)
          | inr other ↦ inr (ground (arith, other), rw other at h)
        ];
      }

  hand_out-IsCounted : IsCounted (hand_out s p)
  unfolding hand_out
  hand_out-IsCounted =
      let w = write-IsCounted s p _ _ _ v hand_out-Balances in
      record {
        limit = w.limit;
        total = w.total;
        each = w.each;
        per = w.per;
        held = w.held;
        owned = w.owned;
        known = w.known;
      }

-- No slot is left idle while a grant that may have it waits.
abbrev pub Settled : Scheduler → Type 0
Settled s = (s.active ≡ s.cfg.max_active) ⊎ (Unfit s s.high × Unfit s s.bulk)

-- A valid scheduler that is settled.
pub record Rests (s : Scheduler) : Type 0 where
  pub valid : IsValid s
  pub settled : Settled s

-- A round, from what it picks.
pub dispatch_loop-round :
    (clock : ℕ → ℕ) (n : ℕ) (s : Scheduler) (r : Option ℕ × Scheduler)
    → pick s (clock n) ≡ r
    → dispatch_loop clock (suc n) s ≡ (elim r.0 as (λ _. Scheduler) [
      | none ↦ r.1
      | some p ↦ dispatch_loop clock n (hand_out r.1 p)
    ])
unfolding dispatch_loop
dispatch_loop-round clock n s r e =
    ap
      (λ t. elim t.0 as (λ _. Scheduler) [
        | none ↦ t.1
        | some p ↦ dispatch_loop clock n (hand_out t.1 p)
      ])
      e

-- The scheduler after a round that picked a grant.
module _ (s : Scheduler) (r : Option ℕ × Scheduler) (v : IsValid s) (c : Chosen s r)
    (room : s.active < s.cfg.max_active) where
  picked : Scheduler
  picked = record s { high = c.high; bulk = c.bulk; high_run = c.run }

  picked-IsCounted : IsCounted picked
  unfolding picked
  picked-IsCounted =
      let w = v.counted in
      record {
        limit = w.limit;
        total = w.total;
        each = w.each;
        per = w.per;
        held = w.held;
        owned = w.owned;
        known = w.known;
      }

  pub handed : Scheduler
  unfolding picked
  handed = hand_out picked c.grant

  pub handed-IsValid : IsValid handed
  unfolding handed hand_out
  handed-IsValid = record {
    counted = hand_out-IsCounted picked c.grant picked-IsCounted c.below c.waiting c.fit room;
    high =
        Queue-Absent s.grant_heap c.grant _ 0 s.next_grant true c.high c.high_absent c.high_queue;
    bulk =
        Queue-Absent s.grant_heap c.grant _ 0 s.next_grant false c.bulk c.bulk_absent c.bulk_queue;
  }

  pub handed-active : (handed.active ≡ s.active + 1) × (handed.cfg ≡ s.cfg)
  unfolding handed hand_out
  handed-active = (refl, refl)

  pub handed-run : handed.high_run ≡ c.run
  unfolding handed picked hand_out
  handed-run = refl

  pub hand_out-handed :
      hand_out (record s { high = c.high; bulk = c.bulk; high_run = c.run }) c.grant ≡ handed
  unfolding handed picked
  hand_out-handed = refl

  pub handed-next :
      (clock : ℕ → ℕ) (n : ℕ)
      → r ≡ pick s (clock n)
      → dispatch_loop clock (suc n) s ≡ dispatch_loop clock n handed
  unfolding handed
  handed-next clock n e = dispatch_loop-round clock n s _ (sym e ∙ c.gives)

pub dispatch_loop-Rests :
    (clock : ℕ → ℕ) (n : ℕ) (s : Scheduler)
    → IsValid s
    → n ≡ s.cfg.max_active - s.active
    → Rests (dispatch_loop clock n s)
unfolding dispatch_loop
dispatch_loop-Rests clock zero s v e = record {
  valid = v;
  settled = inl (omega (arith, e, v.counted.limit));
}
dispatch_loop-Rests clock (suc n) s v e = elim (pick-cases s (clock n) v) [
  | inl (nothing, unfit_high, unfit_bulk) ↦
      subst Rests (sym (dispatch_loop-round clock n s (none, s) nothing))
        (record { valid = v; settled = inr (unfit_high, unfit_bulk) })
  | inr c ↦
      let room : s.active < s.cfg.max_active = omega (arith, e) in
      let (active, cfg) = handed-active s (pick s (clock n)) v c room in
      subst Rests (sym (handed-next s (pick s (clock n)) v c room clock n refl)) (
        dispatch_loop-Rests clock n (handed s (pick s (clock n)) v c room)
          (handed-IsValid s (pick s (clock n)) v c room)
          (omega (arith, e, active, ap (λ k. k.max_active) cfg)))
]

pub dispatch-Rests : (clock : ℕ → ℕ) (s : Scheduler) → IsValid s → Rests (dispatch clock s)
unfolding dispatch
dispatch-Rests clock s v = dispatch_loop-Rests clock (s.cfg.max_active - s.active) s v refl
