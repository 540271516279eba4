-- ===== src/Pep/FlowScheduler/Endings.antt =====
-- release, cancel and closeFlow of internal/pep/flowscheduler.go keep a scheduler valid.
use niulang.Prelude.{
  ℕ, ◌-◌, ◌<◌, ◌≡◌, refl, sym, ap, ◌∙◌, arith, Bool, true, false, some, List, ◌==◌, if◌then◌else◌,
  Bool-cases, inl, inr,
}
use niulang.Pep.FlowScheduler.{
  Grant, Done, scheduling_closed, canceled, Scheduler, update, is_some, without, finish, unqueue,
  empty, release, cancel,
}
use niulang.Pep.FlowScheduler.Counts.{bit, count-positive}
use niulang.Pep.FlowScheduler.Queues.{Queue, Queue-kept, without-Queue}
use niulang.Pep.FlowScheduler.Invariant.{
  live, live_in, IsCounted, IsValid, IsCounted-Alike, write, write-IsCounted,
}
use niulang.Pep.FlowScheduler.Dispatch.{Rests, dispatch-Rests}
use niulang.Pep.FlowScheduler.Requests.{state-IsCounted}
use mathlib.Core.Path.{subst}

-- A live grant that ends is counted no more.
module _ (s : Scheduler) (p : ℕ) (done : Done) (v : IsCounted s) (below : p < s.next_grant)
    (alive : live (s.grant_heap p) ≡ true) where
  abbrev pub ended : Scheduler
  ended =
      let g = s.grant_heap p in
      let st = s.state_heap g.state in
      write s p (record g { done = some done })
        (record st { active = st.active - 1; grants = update st.grants p false }) (s.active - 1)

  some_active : 0 < s.active
  some_active =
      let c = count-positive (λ q. live (s.grant_heap q)) p s.next_grant below alive in
      omega (arith, c, v.total)

  some_own : 0 < (s.state_heap (s.grant_heap p).state).active
  some_own =
      let here : live_in s.grant_heap (s.grant_heap p).state p ≡ true = ground (arith, alive) in
      let c =
        count-positive (live_in s.grant_heap (s.grant_heap p).state) p s.next_grant below here in
      omega (arith, c, v.each (s.grant_heap p).state)

  pub ended-IsCounted : IsCounted ended
  ended-IsCounted =
      let g = s.grant_heap p in
      let old : bit (live g) ≡ 1 = ap bit alive in
      let new : live (record g { done = some done }) ≡ false = ground arith in
      write-IsCounted s p _ _ _ v (record {
        below = below;
        state = refl;
        total = omega (arith, old, ap bit new, some_active);
        limit = omega (arith, v.limit);
        own = omega (arith, old, ap bit new, some_own);
        per = omega (arith, v.per g.state);
        set = λ q h. elim (Bool-cases (p == q)) [
          | inl same ↦ absurd (ground (arith, same, h))
          | inr other ↦ inr (ground (arith, other), rw other at h)
        ];
      })

-- A grant that was not handed out ends: nothing was counted.
pub idle-IsCounted :
    (s : Scheduler) (p : ℕ) (g' : Grant)
    → live (s.grant_heap p) ≡ false
    → live g' ≡ false
    → g'.state ≡ (s.grant_heap p).state
    → IsCounted s
    → IsCounted (record s { grant_heap = update s.grant_heap p g' })
idle-IsCounted s p g' old new state v =
    let same : (q : ℕ) → p == q ≡ true → p ≡ q = λ q h. ground (arith, h) in
    IsCounted-Alike s (record s { grant_heap = update s.grant_heap p g' })
      (record {
        cfg = refl;
        active = refl;
        next_grant = refl;
        next_state = refl;
        lives = λ q. elim (Bool-cases (p == q)) [
          | inl here ↦ rw here (new ∙ sym old ∙ ap (λ j. live (s.grant_heap j)) (same q here))
          | inr other ↦ rw other refl
        ];
        state = λ q. elim (Bool-cases (p == q)) [
          | inl here ↦ rw here (state ∙ ap (λ j. (s.grant_heap j).state) (same q here))
          | inr other ↦ rw other refl
        ];
        actives = λ st. refl;
        sets = λ st q h. h;
      })
      v.known v

-- The two branches of a grant that is marked as done.
abbrev marked : Scheduler → ℕ → Done → Scheduler
marked s p done = record s {
  grant_heap = update s.grant_heap p (record (s.grant_heap p) { done = some done });
}

abbrev ending : Scheduler → ℕ → Done → Scheduler
ending s p done =
    let g = s.grant_heap p in
    let st = s.state_heap g.state in
    write s p (record g { done = some done })
      (record st { active = st.active - 1; grants = update st.grants p false }) (s.active - 1)

finish-granted :
    (s : Scheduler) (p : ℕ) (done : Done) (b : Bool)
    → (s.grant_heap p).granted ≡ b
    → finish s p done ≡ (if b then ending s p done else marked s p done)
unfolding finish
finish-granted s p done b e = ap (λ c. if c then ending s p done else marked s p done) e

pub finish-IsValid :
    (s : Scheduler) (p : ℕ) (done : Done)
    → IsValid s
    → p < s.next_grant
    → is_some (s.grant_heap p).done ≡ false
    → IsValid (finish s p done)
finish-IsValid s p done v below undone =
    let g = s.grant_heap p in
    let kept : (flag : Bool) (q : List ℕ)
        → Queue s.grant_heap 0 s.next_grant flag q
        → Queue (update s.grant_heap p (record g { done = some done })) 0 s.next_grant flag q =
      λ flag q h. Queue-kept s.grant_heap p _ 0 s.next_grant flag q refl refl h in
    elim (Bool-cases g.granted) [
      | inl granted ↦
          let alive : live g ≡ true = ground (arith, granted, undone) in
          subst IsValid (sym (finish-granted s p done true granted)) (record {
            counted = ended-IsCounted s p done v.counted below alive;
            high = kept true s.high v.high;
            bulk = kept false s.bulk v.bulk;
          })
      | inr waiting ↦
          let dead : live g ≡ false = ground (arith, waiting) in
          subst IsValid (sym (finish-granted s p done false waiting)) (record {
            counted =
                idle-IsCounted s p (record g { done = some done }) dead (ground arith) refl
                  v.counted;
            high = kept true s.high v.high;
            bulk = kept false s.bulk v.bulk;
          })
    ]

-- A grant that leaves the queues.
abbrev left : Scheduler → ℕ → Scheduler
left s p =
    let g = s.grant_heap p in
    let st = s.state_heap g.state in
    record s {
      state_heap = update s.state_heap g.state (record st { pending = st.pending - 1 });
      high = without p s.high;
      bulk = without p s.bulk;
    }

left-IsValid : (s : Scheduler) (p : ℕ) → IsValid s → IsValid (left s p)
left-IsValid s p v =
    let g = s.grant_heap p in
    let st = s.state_heap g.state in
    let w =
      state-IsCounted s g.state (record st { pending = st.pending - 1 }) refl (λ q. refl)
        v.counted in
    record {
      counted = record {
        limit = w.limit;
        total = w.total;
        each = w.each;
        per = w.per;
        held = w.held;
        owned = w.owned;
        known = w.known;
      };
      high = (without-Queue s.grant_heap p 0 s.next_grant true s.high v.high).0;
      bulk = (without-Queue s.grant_heap p 0 s.next_grant false s.bulk v.bulk).0;
    }

-- The end of a grant leaves the configuration and the count of the burst as they were.
pub finish-Keeps :
    (s : Scheduler) (p : ℕ) (done : Done)
    → ((finish s p done).cfg ≡ s.cfg) × ((finish s p done).high_run ≡ s.high_run)
finish-Keeps s p done =
    let Keeps : Scheduler → Type 0 = λ t. (t.cfg ≡ s.cfg) × (t.high_run ≡ s.high_run) in
    elim (Bool-cases (s.grant_heap p).granted) [
      | inl granted ↦ subst Keeps (sym (finish-granted s p done true granted)) (refl, refl)
      | inr waiting ↦ subst Keeps (sym (finish-granted s p done false waiting)) (refl, refl)
    ]

pub unqueue-Keeps :
    (s : Scheduler) (p : ℕ) → ((unqueue s p).cfg ≡ s.cfg) × ((unqueue s p).high_run ≡ s.high_run)
unfolding unqueue
unqueue-Keeps s p =
    let Keeps : Bool → Type 0 = λ b.
      ((if b then s else left s p).cfg ≡ s.cfg)
      × ((if b then s else left s p).high_run ≡ s.high_run) in
    elim (Bool-cases (s.grant_heap p).granted) [
      | inl granted ↦ subst Keeps (sym granted) (refl, refl)
      | inr waiting ↦ subst Keeps (sym waiting) (refl, refl)
    ]

pub unqueue-IsValid : (s : Scheduler) (p : ℕ) → IsValid s → IsValid (unqueue s p)
unfolding unqueue
unqueue-IsValid s p v = elim (Bool-cases (s.grant_heap p).granted) [
  | inl granted ↦ subst (λ b. IsValid (if b then s else left s p)) (sym granted) v
  | inr waiting ↦
      subst (λ b. IsValid (if b then s else left s p)) (sym waiting) (left-IsValid s p v)
]

-- A call for a grant that has ended already changes nothing.
ended-or :
    (s s' : Scheduler) (b : Bool)
    → Rests s
    → (b ≡ false → Rests s')
    → (let answer : Bool × Scheduler = if b then (empty s, s) else (empty s', s') in Rests answer.1)
ended-or s s' true r next = r
ended-or s s' false r next = next refl

pub release-Rests :
    (clock : ℕ → ℕ) (s : Scheduler) (p : ℕ)
    → Rests s
    → p < s.next_grant
    → Rests (release clock s (some p)).1
unfolding release
release-Rests clock s p r below =
    ended-or s _ (is_some (s.grant_heap p).done) r
      (λ undone. dispatch-Rests clock _ (finish-IsValid s p scheduling_closed r.valid below undone))

pub cancel-Rests :
    (clock : ℕ → ℕ) (s : Scheduler) (p : ℕ)
    → Rests s
    → p < s.next_grant
    → Rests (cancel clock s (some p)).1
unfolding cancel
cancel-Rests clock s p r below = ended-or s _ (is_some (s.grant_heap p).done) r (λ undone.
    dispatch-Rests clock _
      (unqueue-IsValid (finish s p canceled) p (finish-IsValid s p canceled r.valid below undone)))
