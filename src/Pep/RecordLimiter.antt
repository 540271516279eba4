-- ===== src/Pep/RecordLimiter.antt =====
-- internal/pep/recordlimiter.go: one record per label and interval. A time is the number of
-- nanoseconds since Go's zero time, a label its string, and the map an association list. A
-- difference of times that is not positive is 0, which is below the interval all the same.
pub mod Accounts
mod Examples
use niulang.Prelude.{
  ℕ, ◌+◌, ◌-◌, ◌*◌, ◌^◌, ◌%◌, Bool, true, false, not, ◌&&◌, Option, none, some, List, [], ◌∷◌, ltb,
  ◌==◌, if◌then◌else◌,
}

abbrev pub record_log_interval : ℕ
record_log_interval = 10 * 1000000000

pub record RecordCounter : Type 0 where
  pub last : ℕ
  pub suppressed : ℕ
  pub total : ℕ

abbrev pub zero_counter : RecordCounter
zero_counter = record { last = 0; suppressed = 0; total = 0 }

-- The map, from labels that are numbered by their strings.
abbrev pub Labels : Type 0
Labels = List (ℕ × RecordCounter)

pub lookup : ℕ → Labels → Option RecordCounter
lookup key [] = none
lookup key ((k, c) ∷ ls) = if k == key then some c else lookup key ls

pub store : ℕ → RecordCounter → Labels → Labels
store key c [] = (key, c) ∷ []
store key c ((k, d) ∷ ls) =
    let rest = store key c ls in if k == key then (key, c) ∷ ls else (k, d) ∷ rest

-- The counter of a label, a new one at its first event.
pub counter : Labels → ℕ → RecordCounter
counter labels key = elim (lookup key labels) [ none ↦ zero_counter | some c ↦ c ]

-- What `due` does to the counter, and what it returns.
pub due_counter : RecordCounter → ℕ → (Bool × ℕ × ℕ) × RecordCounter
due_counter c now =
    let total = (c.total + 1) % 2 ^ 64 in
    if not (c.last == 0) && ltb (now - c.last) record_log_interval
    then ((false, 0, total), record c { suppressed = (c.suppressed + 1) % 2 ^ 64; total = total })
    else ((true, c.suppressed, total), record { last = now; suppressed = 0; total = total })

pub due : Labels → ℕ → ℕ → (Bool × ℕ × ℕ) × Labels
unfolding counter due_counter
due labels key now =
    let (result, c) = due_counter (counter labels key) now in (result, store key c labels)
