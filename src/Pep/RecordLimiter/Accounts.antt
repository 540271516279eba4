-- ===== src/Pep/RecordLimiter/Accounts.antt =====
-- The counts of internal/pep/recordlimiter.go add up.
use niulang.Prelude.{
  ℕ, suc, ◌+◌, ◌^◌, ◌≤◌, ◌<◌, ◌≡◌, ◌≢◌, refl, sym, ap, ◌∙◌, arith, true, false, ◌&&◌, List, [], ◌∷◌,
  ◌==◌, if◌then◌else◌, Bool-cases, inl, inr,
}
use mathlib.Core.Path.{subst}
use niulang.Pep.RecordLimiter.{
  record_log_interval, RecordCounter, Labels, lookup, store, counter, due_counter, due,
}

-- An event, of a label at a time.
abbrev pub Event : Type 0
Event = ℕ × ℕ

-- What the records written so far for a label stand for: one event each, and the suppressed ones.
unfoldable pub represented : ℕ → Labels → List Event → ℕ
represented key labels [] = 0
represented key labels ((k, now) ∷ events) =
    let (result, labels') = due labels k now in
    let (write, suppressed, total) = result in
    let rest = represented key labels' events in
    if write && k == key then 1 + suppressed + rest else rest

-- The labels after a sequence of events, and how many of them are of one label.
pub after_events : Labels → List Event → Labels
after_events labels [] = labels
after_events labels ((k, now) ∷ events) = after_events (due labels k now).1 events

unfoldable pub count : ℕ → List Event → ℕ
count key [] = 0
count key ((k, now) ∷ events) = let rest = count key events in if k == key then suc rest else rest

counter-store :
    (labels : Labels) (k key : ℕ) (c : RecordCounter)
    → counter (store k c labels) key ≡ (if k == key then c else counter labels key)
unfolding counter store lookup
counter-store [] k key c = ground arith
counter-store ((j, d) ∷ ls) k key c = ground (arith, counter-store ls k key c)

-- What one event does to the counter of its label.
record Counted (c : RecordCounter) (now : ℕ) : Type 0 where
  pub total : (due_counter c now).1.total ≡ c.total + 1
  pub less : (due_counter c now).1.suppressed ≤ (due_counter c now).1.total
  pub written :
      (due_counter c now).0.0 ≡ true
      → ((due_counter c now).0.1 ≡ c.suppressed) × ((due_counter c now).1.suppressed ≡ 0)
  pub unwritten :
      (due_counter c now).0.0 ≡ false → (due_counter c now).1.suppressed ≡ c.suppressed + 1

due_counter-Counted :
    (c : RecordCounter) (now : ℕ) → c.suppressed ≤ c.total → c.total + 1 < 2 ^ 64 → Counted c now
unfolding due_counter
due_counter-Counted c now h room = record {
  total = ground arith;
  less = ground arith;
  written = λ w. ground arith;
  unwritten = λ w. ground arith;
}

-- A label's own events go through its counter alone.
record Balanced (key : ℕ) (labels : Labels) (events : List Event) : Type 0 where
  pub suppressed :
      represented key labels events + (counter (after_events labels events) key).suppressed
      ≡ count key events + (counter labels key).suppressed
  pub total :
      (counter (after_events labels events) key).total
      ≡ count key events + (counter labels key).total

due_result :
    (labels : Labels) (k now : ℕ) → (due labels k now).0 ≡ (due_counter (counter labels k) now).0
unfolding due
due_result labels k now = refl

counter-due :
    (labels : Labels) (k key now : ℕ)
    → counter (due labels k now).1 key
      ≡ (if k == key then (due_counter (counter labels k) now).1 else counter labels key)
unfolding due
counter-due labels k key now = counter-store labels k key (due_counter (counter labels k) now).1

balanced :
    (key : ℕ) (labels : Labels) (events : List Event)
    → (counter labels key).suppressed ≤ (counter labels key).total
    → count key events + (counter labels key).total < 2 ^ 64
    → Balanced key labels events
unfolding represented after_events count
balanced key labels [] h room = record { suppressed = omega arith; total = omega arith }
balanced key labels ((k, now) ∷ events) h room =
    let labels' = (due labels k now).1 in
    elim (Bool-cases (k == key)) [
      | inr other ↦
          let same : counter labels' key ≡ counter labels key =
            counter-due labels k key now ∙ rw other refl in
          let b = balanced key labels' events (rw same h) (rw same (ground (arith, other, room))) in
          record {
            suppressed = ground (arith, other, b.suppressed, same);
            total = ground (arith, other, b.total, same);
          }
      | inl mine ↦
          let here : counter labels k ≡ counter labels key =
            ap (counter labels) (ground (arith, mine)) in
          let next : counter labels' key ≡ (due_counter (counter labels key) now).1 =
            counter-due labels k key now ∙ rw (mine, here) refl in
          let result : (due labels k now).0 ≡ (due_counter (counter labels key) now).0 =
            due_result labels k now ∙ ap (λ c. (due_counter c now).0) here in
          let one = due_counter-Counted (counter labels key) now h (ground (arith, mine, room)) in
          let b =
            balanced key labels' events (subst (λ d. d.suppressed ≤ d.total) (sym next) one.less)
              (ground (arith, mine, room, ap (λ d. d.total) next, one.total)) in
          let after = ap (λ d. d.suppressed) next in
          let total = b.total ∙ ap (λ d. count key events + d.total) next in
          elim (Bool-cases (due_counter (counter labels key) now).0.0) [
            | inl write ↦
                let (stands, fresh) = one.written write in
                let written : (due labels k now).0.0 ≡ true = ap (λ p. p.0) result ∙ write in
                let suppressed = ap (λ p. p.1) result ∙ stands in
                record {
                  suppressed =
                      ground (arith, mine, written, suppressed, b.suppressed, after, fresh);
                  total = ground (arith, mine, total, one.total);
                }
            | inr silent ↦
                let more = one.unwritten silent in
                let unwritten : (due labels k now).0.0 ≡ false = ap (λ p. p.0) result ∙ silent in
                record {
                  suppressed = ground (arith, mine, unwritten, b.suppressed, after, more);
                  total = ground (arith, mine, total, one.total);
                }
          ]
    ]

-- In any sequence of fewer than 2^64 events, of any labels and at any times: the records written for
-- a label stand for all of that label's events but those that its counter still holds back, and the
-- counter's total is the number of its events.
pub represented-count :
    (key : ℕ) (events : List Event)
    → count key events < 2 ^ 64
    → (represented key [] events + (counter (after_events [] events) key).suppressed
        ≡ count key events)
      × ((counter (after_events [] events) key).total ≡ count key events)
unfolding counter lookup
represented-count key events h =
    let b = balanced key [] events (omega arith) (omega arith) in
    (omega (arith, b.suppressed), omega (arith, b.total))

-- The times of the records that are written for a label.
unfoldable pub written : ℕ → Labels → List Event → List ℕ
written key labels [] = []
written key labels ((k, now) ∷ events) =
    let rest = written key (due labels k now).1 events in
    if (due labels k now).0.0 && k == key then now ∷ rest else rest

-- Each time is the interval or more behind the one before, the first behind `last`.
abbrev pub Spaced : ℕ → List ℕ → Type 0
Spaced last [] = Unit {0}
Spaced last (t ∷ ts) = (last ≢ 0 → last + record_log_interval ≤ t) × Spaced t ts

due_counter-last :
    (c : RecordCounter) (now : ℕ)
    → ((due_counter c now).0.0 ≡ true
        → ((due_counter c now).1.last ≡ now) × (c.last ≢ 0 → c.last + record_log_interval ≤ now))
      × ((due_counter c now).0.0 ≡ false → (due_counter c now).1.last ≡ c.last)
unfolding due_counter
due_counter-last c now = (λ w. ground arith, λ w. ground arith)

written-Spaced :
    (key : ℕ) (labels : Labels) (events : List Event)
    → Spaced (counter labels key).last (written key labels events)
unfolding written
written-Spaced key labels [] = tt
written-Spaced key labels ((k, now) ∷ events) =
    let rest = written-Spaced key (due labels k now).1 events in
    let D = due labels k now in
    elim (Bool-cases (k == key)) [
      | inr other ↦
          let same : counter D.1 key ≡ counter labels key =
            counter-due labels k key now ∙ rw other refl in
          let skip : (D.0.0 && k == key) ≡ false = ground (arith, other) in
          rw skip (subst (λ c. Spaced c.last (written key D.1 events)) same rest)
      | inl mine ↦
          let here : counter labels k ≡ counter labels key =
            ap (counter labels) (ground (arith, mine)) in
          let next : counter D.1 key ≡ (due_counter (counter labels key) now).1 =
            counter-due labels k key now ∙ rw (mine, here) refl in
          let result : D.0.0 ≡ (due_counter (counter labels key) now).0.0 =
            ap (λ p. p.0) (due_result labels k now) ∙ ap (λ c. (due_counter c now).0.0) here in
          let one = due_counter-last (counter labels key) now in
          elim (Bool-cases (due_counter (counter labels key) now).0.0) [
            | inl write ↦
                let (at, apart) = one.0 write in
                let taken : (D.0.0 && k == key) ≡ true = ground (arith, mine, result, write) in
                let last = ap (λ d. d.last) next ∙ at in
                rw taken (apart, subst (λ l. Spaced l (written key D.1 events)) last rest)
            | inr silent ↦
                let skip : (D.0.0 && k == key) ≡ false = ground (arith, mine, result, silent) in
                let last = ap (λ d. d.last) next ∙ one.1 silent in
                rw skip (subst (λ l. Spaced l (written key D.1 events)) last rest)
          ]
    ]

-- In any sequence of events, of any labels and even with a clock that goes back: two records in a
-- row that are written for one label are ten seconds or more apart, unless the first was written at
-- Go's zero time.
pub written-new : (key : ℕ) (events : List Event) → Spaced 0 (written key [] events)
unfolding counter lookup
written-new key events = written-Spaced key [] events
