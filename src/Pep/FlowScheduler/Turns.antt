-- ===== src/Pep/FlowScheduler/Turns.antt =====
-- The turns that dispatchLocked of internal/pep/flowscheduler.go gives to the two queues, one after the
-- other.
use niulang.Prelude.{
  ℕ, zero, suc, ◌+◌, ◌-◌, ◌<◌, ◌≤◌, ◌≡◌, refl, sym, ap, ◌∙◌, arith, Bool, true, false, ◌||◌, Option,
  none, some, List, [], ◌∷◌, length, leb, ◌==◌, if◌then◌else◌, inl, inr, ◌⊎◌,
}
use niulang.Pep.FlowScheduler.{
  Scheduler, eligible, choose_bulk, from_bulk, from_high, attempt, pick, is_some, hand_out,
}
use niulang.Pep.FlowScheduler.Queues.{take_eligible-cases}
use niulang.Pep.FlowScheduler.Invariant.{IsValid}
use niulang.Pep.FlowScheduler.Dispatch.{Unfit}
use mathlib.Core.Path.{subst}

-- A grant that is handed out: whether it is one of the high queue, whether the queues held a grant that
-- could be handed out just before, and whether the first grant of the bulk queue had waited for `bulkAge`.
pub record Turn : Type 0 where
  pub high : Bool
  pub high_waits : Bool
  pub bulk_waits : Bool
  pub aged : Bool

unfoldable pub any_eligible : Scheduler → List ℕ → Bool
any_eligible s [] = false
any_eligible s (p ∷ ps) = eligible s p || any_eligible s ps

abbrev pub is_aged : Scheduler → ℕ → List ℕ → Bool
is_aged s now [] = false
is_aged s now (p ∷ ps) = leb s.cfg.bulk_age (now - (s.grant_heap p).queued)

abbrev pub turn_of : Scheduler → ℕ → ℕ → Turn
turn_of s now p = record {
  high = (s.grant_heap p).high;
  high_waits = any_eligible s s.high;
  bulk_waits = any_eligible s s.bulk;
  aged = is_aged s now s.bulk;
}

-- The turns of `n` rounds, the latest first, in front of those of before.
unfoldable pub turns : (ℕ → ℕ) → ℕ → Scheduler → List Turn → List Turn
turns clock zero s log = log
turns clock (suc n) s log =
    let (grant, s') = pick s (clock n) in
    elim grant as (λ _. List Turn) [
      | none ↦ log
      | some p ↦ turns clock n (hand_out s' p) (turn_of s (clock n) p ∷ log)
    ]

-- The turns of dispatchLocked.
abbrev pub dispatched : (ℕ → ℕ) → Scheduler → List Turn → List Turn
dispatched clock s log = turns clock (s.cfg.max_active - s.active) s log

-- The latest turns, as far as they are all of the high queue.
abbrev pub run : List Turn → ℕ
run [] = 0
run (t ∷ ts) = if t.high then suc (run ts) else 0

-- The high queue has no turn that the bulk queue waits for, once `burst` in a row were its own.
abbrev pub Fair : ℕ → List Turn → Type 0
Fair burst [] = Unit {0}
Fair burst (t ∷ ts) = ((t.high ≡ false) ⊎ (t.bulk_waits ≡ false) ⊎ (run ts < burst)) × Fair burst ts

-- The bulk queue has no turn that the high queue waits for, unless its first grant is old or `burst` in
-- a row were the high queue's.
abbrev pub Prompt : ℕ → List Turn → Type 0
Prompt burst [] = Unit {0}
Prompt burst (t ∷ ts) =
    ((t.high ≡ true) ⊎ (t.high_waits ≡ false) ⊎ (t.aged ≡ true) ⊎ (burst ≤ run ts))
    × Prompt burst ts

pub any_eligible-ne : (s : Scheduler) (q : List ℕ) → any_eligible s q ≡ true → ¬ Unfit s q
unfolding any_eligible
any_eligible-ne s [] e unfit = absurd (cc)
any_eligible-ne s (p ∷ ps) e unfit = any_eligible-ne s ps (ground (arith, e, unfit.0)) unfit.1

-- A bulk queue that is passed over `interactiveBurst` times has its turn.
choose_bulk-due :
    (s : Scheduler) (now : ℕ) (q : List ℕ)
    → s.bulk ≡ q
    → ¬ Unfit s q
    → s.cfg.interactive_burst ≤ s.high_run
    → choose_bulk s now ≡ true
unfolding choose_bulk
choose_bulk-due s now [] e some_fit due = absurd (some_fit tt)
choose_bulk-due s now (b ∷ bs) e some_fit due =
    let waited : ℕ → Bool = λ j.
      length s.high == 0
      || leb s.cfg.interactive_burst s.high_run
      || leb s.cfg.bulk_age (now - (s.grant_heap j).queued) in
    ap (λ q. elim q as (λ _. Bool) [ [] ↦ false | j ∷ js ↦ waited j ]) e ∙ ground (arith, due)

length-positive : (q : List ℕ) → ¬ (q ≡ []) → 0 < length q
length-positive [] busy = absurd (busy refl)
length-positive (j ∷ js) busy = omega arith

-- It has no turn before, unless its first grant is old or the other queue is empty.
choose_bulk-early :
    (s : Scheduler) (now : ℕ) (q : List ℕ)
    → s.bulk ≡ q
    → ¬ (s.high ≡ [])
    → s.high_run < s.cfg.interactive_burst
    → is_aged s now q ≡ false
    → choose_bulk s now ≡ false
unfolding choose_bulk
choose_bulk-early s now [] e busy early young =
    let waited : ℕ → Bool = λ j.
      length s.high == 0
      || leb s.cfg.interactive_burst s.high_run
      || leb s.cfg.bulk_age (now - (s.grant_heap j).queued) in
    ap (λ q. elim q as (λ _. Bool) [ [] ↦ false | j ∷ js ↦ waited j ]) e
choose_bulk-early s now (b ∷ bs) e busy early young =
    let waited : ℕ → Bool = λ j.
      length s.high == 0
      || leb s.cfg.interactive_burst s.high_run
      || leb s.cfg.bulk_age (now - (s.grant_heap j).queued) in
    let some_high = length-positive s.high busy in
    ap (λ q. elim q as (λ _. Bool) [ [] ↦ false | j ∷ js ↦ waited j ]) e
    ∙ ground (arith, some_high, early, young)

-- When the burst is over and a grant of the bulk queue may be handed out, one is picked.
pub pick-bulk :
    (s : Scheduler) (now : ℕ)
    → IsValid s
    → s.cfg.interactive_burst ≤ s.high_run
    → ¬ Unfit s s.bulk
    → (p : ℕ) × ((pick s now).0 ≡ some p) × ((s.grant_heap p).high ≡ false)
unfolding pick from_bulk
pick-bulk s now v due some_fit =
    let result : Option ℕ × List ℕ → Option ℕ × Scheduler =
      λ t. (t.0, record s { bulk = t.1; high_run = if is_some t.0 then 0 else s.high_run }) in
    let chosen = choose_bulk-due s now s.bulk refl some_fit due in
    elim (take_eligible-cases s s.next_grant false s.bulk v.bulk) [
      | inl (nothing, unfit) ↦ absurd (some_fit unfit)
      | inr (p, found, fit, waits) ↦ (
        p,
        ap (λ b. (attempt (attempt (if b then from_bulk s else (none, s)) from_high) from_bulk).0)
              chosen
            ∙ ap (λ t. (attempt (attempt (result t) from_high) from_bulk).0) found,
        waits.class,
      )
    ]

-- Before that, when no grant of the bulk queue is due and one of the high queue may be handed out, one
-- is picked.
pub pick-high :
    (s : Scheduler) (now : ℕ)
    → IsValid s
    → s.high_run < s.cfg.interactive_burst
    → is_aged s now s.bulk ≡ false
    → ¬ Unfit s s.high
    → (p : ℕ) × ((pick s now).0 ≡ some p) × ((s.grant_heap p).high ≡ true)
unfolding pick from_high
pick-high s now v early young some_fit =
    let result : Option ℕ × List ℕ → Option ℕ × Scheduler = λ t. (
      t.0,
      record s { high = t.1; high_run = if is_some t.0 then s.high_run + 1 else s.high_run },
    ) in
    let busy : ¬ (s.high ≡ []) = λ e. some_fit (subst (Unfit s) (sym e) tt) in
    let passed = choose_bulk-early s now s.bulk refl busy early young in
    elim (take_eligible-cases s s.next_grant true s.high v.high) [
      | inl (nothing, unfit) ↦ absurd (some_fit unfit)
      | inr (p, found, fit, waits) ↦ (
        p,
        ap (λ b. (attempt (attempt (if b then from_bulk s else (none, s)) from_high) from_bulk).0)
              passed
            ∙ ap (λ t. (attempt (attempt (none, s) (λ _. result t)) from_bulk).0) found,
        waits.class,
      )
    ]
