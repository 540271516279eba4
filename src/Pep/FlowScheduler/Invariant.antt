-- ===== src/Pep/FlowScheduler/Invariant.antt =====
-- What holds of a scheduler of internal/pep/flowscheduler.go between its operations.
use niulang.Prelude.{
  ℕ, ◌+◌, ◌≤◌, ◌<◌, ◌≡◌, ◌≢◌, refl, sym, ap, ◌∙◌, arith, Bool, true, false, not, ◌&&◌, ◌==◌, All,
  Bool-cases, inl, inr, ◌⊎◌,
}
use niulang.Pep.FlowScheduler.{Grant, FlowState, Scheduler, update, is_some}
use niulang.Pep.FlowScheduler.Counts.{bit, count, count-agree, count-change}
use niulang.Pep.FlowScheduler.Queues.{Queue}

-- A grant that was handed out and not given back, and one of a state.
abbrev pub live : Grant → Bool
live g = g.granted && not (is_some g.done)

abbrev pub live_in : (ℕ → Grant) → ℕ → ℕ → Bool
live_in heap st p = live (heap p) && (heap p).state == st

-- The counters count what they should, and the limits hold.
pub record IsCounted (s : Scheduler) : Type 0 where
  pub limit : s.active ≤ s.cfg.max_active
  pub total : s.active ≡ count (λ p. live (s.grant_heap p)) s.next_grant
  pub each : (st : ℕ) → (s.state_heap st).active ≡ count (live_in s.grant_heap st) s.next_grant
  pub per : (st : ℕ) → (s.state_heap st).active ≤ s.cfg.per_flow
  pub held :
      (st p : ℕ)
      → (s.state_heap st).grants p ≡ true
      → (live (s.grant_heap p) ≡ true) × ((s.grant_heap p).state ≡ st) × (p < s.next_grant)
  pub owned : (p : ℕ) → p < s.next_grant → (s.grant_heap p).state < s.next_state
  pub known : All (λ e. e.1 < s.next_state) s.states

pub record IsValid (s : Scheduler) : Type 0 where
  pub counted : IsCounted s
  pub high : Queue s.grant_heap 0 s.next_grant true s.high
  pub bulk : Queue s.grant_heap 0 s.next_grant false s.bulk

-- What the counters read is the same.
pub record Alike (s s' : Scheduler) : Type 0 where
  pub cfg : s'.cfg ≡ s.cfg
  pub active : s'.active ≡ s.active
  pub next_grant : s'.next_grant ≡ s.next_grant
  pub next_state : s'.next_state ≡ s.next_state
  pub lives : (p : ℕ) → live (s'.grant_heap p) ≡ live (s.grant_heap p)
  pub state : (p : ℕ) → (s'.grant_heap p).state ≡ (s.grant_heap p).state
  pub actives : (st : ℕ) → (s'.state_heap st).active ≡ (s.state_heap st).active
  pub sets : (st p : ℕ) → (s'.state_heap st).grants p ≡ true → (s.state_heap st).grants p ≡ true

pub IsCounted-Alike :
    (s s' : Scheduler)
    → Alike s s'
    → All (λ e. e.1 < s'.next_state) s'.states
    → IsCounted s
    → IsCounted s'
IsCounted-Alike s s' a k v = record {
  limit = omega (arith, v.limit, a.active, ap (λ c. c.max_active) a.cfg);
  total =
      a.active
      ∙ v.total
      ∙ count-agree (λ p. live (s.grant_heap p)) (λ p. live (s'.grant_heap p)) s.next_grant
          (λ p l. sym (a.lives p))
      ∙ ap (count (λ p. live (s'.grant_heap p))) (sym a.next_grant);
  each = λ st.
      a.actives st
      ∙ v.each st
      ∙ count-agree (live_in s.grant_heap st) (live_in s'.grant_heap st) s.next_grant (λ p l. sym (
          ap (λ b. b && (s'.grant_heap p).state == st) (a.lives p)
          ∙ ap (λ k. live (s.grant_heap p) && k == st) (a.state p)))
      ∙ ap (count (live_in s'.grant_heap st)) (sym a.next_grant);
  per = λ st. omega (arith, v.per st, a.actives st, ap (λ c. c.per_flow) a.cfg);
  held = λ st p h.
      let w = v.held st p (a.sets st p h) in
      (a.lives p ∙ w.0, a.state p ∙ w.1, omega (arith, w.2, a.next_grant));
  owned = λ p l. omega (arith, v.owned p (omega (arith, l, a.next_grant)), a.state p, a.next_state);
  known = k;
}

-- A write to one grant and to its state.
abbrev pub write : Scheduler → ℕ → Grant → FlowState → ℕ → Scheduler
write s p g' st' active = record s {
  grant_heap = update s.grant_heap p g';
  state_heap = update s.state_heap (s.grant_heap p).state st';
  active = active;
}

-- The write keeps the counters right: it makes the grant live or ends it, and counts it once more or
-- once less.
pub record Balances (s : Scheduler) (p : ℕ) (g' : Grant) (st' : FlowState) (active : ℕ)
    : Type 0 where
  pub below : p < s.next_grant
  pub state : g'.state ≡ (s.grant_heap p).state
  pub total : active + bit (live (s.grant_heap p)) ≡ s.active + bit (live g')
  pub limit : active ≤ s.cfg.max_active
  pub own :
      st'.active + bit (live (s.grant_heap p))
      ≡ (s.state_heap (s.grant_heap p).state).active + bit (live g')
  pub per : st'.active ≤ s.cfg.per_flow
  pub set :
      (q : ℕ)
      → st'.grants q ≡ true
      → ((q ≡ p) × (live g' ≡ true))
        ⊎ ((q ≢ p) × ((s.state_heap (s.grant_heap p).state).grants q ≡ true))

module _ (s : Scheduler) (p : ℕ) (g' : Grant) (st' : FlowState) (active : ℕ) (v : IsCounted s)
    (b : Balances s p g' st' active) where
  at : ℕ
  at = (s.grant_heap p).state

  write-total : active ≡ count (λ q. live (update s.grant_heap p g' q)) s.next_grant
  write-total =
      let c =
        count-change (λ q. live (s.grant_heap q)) (λ q. live (update s.grant_heap p g' q)) p
          s.next_grant b.below
          (λ q ne. let other : (p == q) ≡ false = ground (arith, ne) in rw other refl) in
      let here : bit (live (update s.grant_heap p g' p)) ≡ bit (live g') =
        let same : (p == p) ≡ true = ground arith in rw same refl in
      omega (arith, c, here, b.total, v.total)

  write-each :
      (st : ℕ)
      → (update s.state_heap at st' st).active
        ≡ count (live_in (update s.grant_heap p g') st) s.next_grant
  unfolding at
  write-each st =
      let c =
        count-change (live_in s.grant_heap st) (live_in (update s.grant_heap p g') st) p
          s.next_grant b.below
          (λ q ne. let other : (p == q) ≡ false = ground (arith, ne) in rw other refl) in
      let same : (p == p) ≡ true = ground arith in
      let here : live_in (update s.grant_heap p g') st p ≡ (live g' && g'.state == st) =
        rw same refl in
      elim (Bool-cases ((s.grant_heap p).state == st)) [
        | inl mine ↦
            let e : (s.grant_heap p).state ≡ st = ground (arith, mine) in
            let mine' : (g'.state == st) ≡ true = ap (λ k. k == st) b.state ∙ mine in
            let old : bit (live_in s.grant_heap st p) ≡ bit (live (s.grant_heap p)) =
              ground (arith, mine) in
            let new : bit (live_in (update s.grant_heap p g') st p) ≡ bit (live g') =
              ap bit here ∙ ground (arith, mine') in
            let own = b.own in
            let was : (s.state_heap (s.grant_heap p).state).active
                ≡ count (live_in s.grant_heap st) s.next_grant =
              ap (λ k. (s.state_heap k).active) e ∙ v.each st in
            rw mine (omega (arith, c, old, new, own, was))
        | inr other ↦
            let other' : (g'.state == st) ≡ false = ap (λ k. k == st) b.state ∙ other in
            let old : bit (live_in s.grant_heap st p) ≡ 0 = ground (arith, other) in
            let new : bit (live_in (update s.grant_heap p g') st p) ≡ 0 =
              ap bit here ∙ ground (arith, other') in
            rw other (omega (arith, c, old, new, v.each st))
      ]

  write-held :
      (st q : ℕ)
      → (update s.state_heap at st' st).grants q ≡ true
      → (live (update s.grant_heap p g' q) ≡ true)
        × ((update s.grant_heap p g' q).state ≡ st)
        × (q < s.next_grant)
  unfolding at
  write-held st q h = elim (Bool-cases ((s.grant_heap p).state == st)) [
    | inl mine ↦
        let e : (s.grant_heap p).state ≡ st = ground (arith, mine) in
        elim (b.set q (rw mine at h)) [
          | inl (here, alive) ↦
              let same : (p == q) ≡ true = ground (arith, here) in
              (rw same alive, rw same (b.state ∙ e), omega (arith, here, b.below))
          | inr (apart, kept) ↦
              let other : (p == q) ≡ false = ground (arith, apart) in
              let w = v.held (s.grant_heap p).state q kept in
              (rw other w.0, rw other (w.1 ∙ e), w.2)
        ]
    | inr foreign ↦
        let w = v.held st q (rw foreign at h) in
        let apart : q ≢ p = λ here. absurd (ground (arith, foreign, w.1, here)) in
        let other : (p == q) ≡ false = ground (arith, apart) in (rw other w.0, rw other w.1, w.2)
  ]

  pub write-IsCounted : IsCounted (write s p g' st' active)
  unfolding at
  write-IsCounted = record {
    limit = b.limit;
    total = write-total;
    each = write-each;
    per = λ st. elim (Bool-cases ((s.grant_heap p).state == st)) [
      | inl mine ↦ rw mine b.per
      | inr other ↦ rw other (v.per st)
    ];
    held = write-held;
    owned = λ q l. elim (Bool-cases (p == q)) [
      | inl same ↦ rw same (omega (arith, b.state, v.owned p b.below))
      | inr other ↦ rw other (v.owned q l)
    ];
    known = v.known;
  }
