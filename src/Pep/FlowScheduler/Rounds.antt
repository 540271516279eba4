-- ===== src/Pep/FlowScheduler/Rounds.antt =====
-- The rounds of dispatchLocked of internal/pep/flowscheduler.go give fair and prompt turns.
use niulang.Prelude.{
  ℕ, zero, suc, ◌-◌, ◌<◌, ◌≤◌, ◌≡◌, refl, sym, ap, ◌∙◌, arith, true, false, ltb, Option, none, some,
  List, ◌∷◌, Bool-cases, inl, inr, ◌⊎◌,
}
use niulang.Pep.FlowScheduler.{Config, Scheduler, pick, hand_out, dispatch_loop, dispatch}
use niulang.Pep.FlowScheduler.Invariant.{IsValid}
use niulang.Pep.FlowScheduler.Dispatch.{
  Chosen, pick-cases, dispatch_loop-round, handed, handed-IsValid, handed-active, handed-run,
  hand_out-handed, handed-next,
}
use niulang.Pep.FlowScheduler.Turns.{
  Turn, any_eligible, any_eligible-ne, is_aged, turn_of, turns, dispatched, run, Fair, Prompt,
  pick-bulk, pick-high,
}
use mathlib.Core.Path.{subst}

-- What the log says of the scheduler that gave its turns.
pub record Told (cfg : Config) (s : Scheduler) (log : List Turn) : Type 0 where
  pub same : s.cfg ≡ cfg
  pub burst : s.high_run ≡ run log
  pub fair : Fair cfg.interactive_burst log
  pub prompt : Prompt cfg.interactive_burst log

some-same : (o : Option ℕ) (p q : ℕ) → o ≡ some p → o ≡ some q → p ≡ q
some-same o p q e e' = ground (arith, sym e ∙ e')

module _ (s : Scheduler) (now : ℕ) (v : IsValid s) (c : Chosen s (pick s now)) where
  grant-high :
      (p : ℕ) → (pick s now).0 ≡ some p → (s.grant_heap p).high ≡ (s.grant_heap c.grant).high
  grant-high p e =
      ap (λ k. (s.grant_heap k).high) (some-same (pick s now).0 p c.grant e (ap (λ t. t.0) c.gives))

  turn-Fair :
      ((s.grant_heap c.grant).high ≡ false)
      ⊎ (any_eligible s s.bulk ≡ false)
      ⊎ (s.high_run < s.cfg.interactive_burst)
  turn-Fair = elim (Bool-cases (any_eligible s s.bulk)) [
    | inr nothing ↦ inr (inl nothing)
    | inl some_fit ↦ elim (Bool-cases (ltb s.high_run s.cfg.interactive_burst)) [
      | inl early ↦ inr (inr (ground (arith, early)))
      | inr due ↦
          let (p, picked, class) =
            pick-bulk s now v (ground (arith, due)) (any_eligible-ne s s.bulk some_fit) in
          inl (sym (grant-high p picked) ∙ class)
    ]
  ]

  turn-Prompt :
      ((s.grant_heap c.grant).high ≡ true)
      ⊎ (any_eligible s s.high ≡ false)
      ⊎ (is_aged s now s.bulk ≡ true)
      ⊎ (s.cfg.interactive_burst ≤ s.high_run)
  turn-Prompt = elim (Bool-cases (any_eligible s s.high)) [
    | inr nothing ↦ inr (inl nothing)
    | inl some_fit ↦ elim (Bool-cases (is_aged s now s.bulk)) [
      | inl old ↦ inr (inr (inl old))
      | inr young ↦ elim (Bool-cases (ltb s.high_run s.cfg.interactive_burst)) [
        | inr due ↦ inr (inr (inr (ground (arith, due))))
        | inl early ↦
            let (p, picked, class) =
              pick-high s now v (ground (arith, early)) young (any_eligible-ne s s.high some_fit) in
            inl (sym (grant-high p picked) ∙ class)
      ]
    ]
  ]

  -- The count of the burst goes on as the run of the log does.
  run-turn : (log : List Turn) → s.high_run ≡ run log → c.run ≡ run (turn_of s now c.grant ∷ log)
  run-turn log e = elim c.class [
    | inl (high, more) ↦ rw high (omega (arith, more, e))
    | inr (bulk, restart) ↦ rw bulk restart
  ]

  Told-turn :
      (cfg : Config) (log : List Turn) (room : s.active < s.cfg.max_active)
      → Told cfg s log
      → Told cfg (handed s (pick s now) v c room) (turn_of s now c.grant ∷ log)
  Told-turn cfg log room t =
      let burst = ap (λ k. k.interactive_burst) t.same in
      record {
        same = (handed-active s (pick s now) v c room).1 ∙ t.same;
        burst = handed-run s (pick s now) v c room ∙ run-turn log t.burst;
        fair = (
          elim turn-Fair [
            | inl bulk ↦ inl bulk
            | inr (inl nothing) ↦ inr (inl nothing)
            | inr (inr early) ↦ inr (inr (omega (arith, early, t.burst, burst)))
          ],
          t.fair,
        );
        prompt = (
          elim turn-Prompt [
            | inl high ↦ inl high
            | inr (inl nothing) ↦ inr (inl nothing)
            | inr (inr (inl old)) ↦ inr (inr (inl old))
            | inr (inr (inr due)) ↦ inr (inr (inr (omega (arith, due, t.burst, burst))))
          ],
          t.prompt,
        );
      }

-- The turns of a round, from what it picks.
turns-round :
    (clock : ℕ → ℕ) (n : ℕ) (s : Scheduler) (log : List Turn) (r : Option ℕ × Scheduler)
    → pick s (clock n) ≡ r
    → turns clock (suc n) s log ≡ (elim r.0 as (λ _. List Turn) [
      | none ↦ log
      | some p ↦ turns clock n (hand_out r.1 p) (turn_of s (clock n) p ∷ log)
    ])
unfolding turns
turns-round clock n s log r e =
    ap
      (λ t. elim t.0 as (λ _. List Turn) [
        | none ↦ log
        | some p ↦ turns clock n (hand_out t.1 p) (turn_of s (clock n) p ∷ log)
      ])
      e

turns-Told :
    (clock : ℕ → ℕ) (n : ℕ) (cfg : Config) (s : Scheduler) (log : List Turn)
    → IsValid s
    → n ≡ s.cfg.max_active - s.active
    → Told cfg s log
    → Told cfg (dispatch_loop clock n s) (turns clock n s log)
unfolding dispatch_loop turns
turns-Told clock zero cfg s log v e t = t
turns-Told clock (suc n) cfg s log v e t =
    let r = pick s (clock n) in
    elim (pick-cases s (clock n) v) [
      | inl (nothing, unfit_high, unfit_bulk) ↦
          subst (λ x. Told cfg x (turns clock (suc n) s log))
            (sym (dispatch_loop-round clock n s (none, s) nothing))
            (subst (Told cfg s) (sym (turns-round clock n s log (none, s) nothing)) t)
      | inr c ↦
          let room : s.active < s.cfg.max_active = omega (arith, e) in
          let (active, same) = handed-active s r v c room in
          let s' = handed s r v c room in
          let log' = turn_of s (clock n) c.grant ∷ log in
          let goes : turns clock (suc n) s log ≡ turns clock n s' log' =
            turns-round clock n s log _ c.gives
            ∙ ap (λ x. turns clock n x log') (hand_out-handed s r v c room) in
          subst (λ x. Told cfg x (turns clock (suc n) s log))
            (sym (handed-next s r v c room clock n refl))
            (subst (Told cfg (dispatch_loop clock n s')) (sym goes) (
              turns-Told clock n cfg s' log' (handed-IsValid s r v c room)
                (omega (arith, e, active, ap (λ k. k.max_active) same))
                (Told-turn s (clock n) v c cfg log room t)))
    ]

-- dispatchLocked goes on with a log as its rounds do.
pub dispatched-Told :
    (clock : ℕ → ℕ) (cfg : Config) (s s' : Scheduler) (log : List Turn)
    → IsValid s'
    → (s'.cfg ≡ s.cfg) × (s'.high_run ≡ s.high_run)
    → Told cfg s log
    → Told cfg (dispatch clock s') (dispatched clock s' log)
unfolding dispatch
dispatched-Told clock cfg s s' log v keeps t =
    turns-Told clock (s'.cfg.max_active - s'.active) cfg s' log v refl (record {
      same = keeps.0 ∙ t.same;
      burst = keeps.1 ∙ t.burst;
      fair = t.fair;
      prompt = t.prompt;
    })
