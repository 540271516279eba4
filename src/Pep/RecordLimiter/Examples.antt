-- ===== src/Pep/RecordLimiter/Examples.antt =====
-- internal/pep/recordlimiter.go in a storm of one label, with another between.
use niulang.Prelude.{ℕ, ◌+◌, ◌*◌, ◌≡◌, refl, arith, List, [], ◌∷◌}
use niulang.Pep.RecordLimiter.{counter, due_counter, due, lookup, store}
use niulang.Pep.RecordLimiter.Accounts.{
  Event, represented, after_events, count, represented-count, written, Spaced, written-new,
}

abbrev seconds : ℕ → ℕ
seconds n = n * 1000000000

abbrev storm : List Event
storm =
    (7, seconds 1)
    ∷ (7, seconds 2)
    ∷ (5, seconds 3)
    ∷ (7, seconds 4)
    ∷ (7, seconds 11)
    ∷ (7, seconds 12)
    ∷ []

written-storm : written 7 [] storm ≡ seconds 1 ∷ seconds 11 ∷ []
unfolding written due due_counter lookup store
written-storm = refl

represented-storm : represented 7 [] storm ≡ 4
unfolding represented due due_counter lookup store
represented-storm = refl

count-storm : count 7 storm ≡ 5
unfolding count
count-storm = refl

represented-count_example :
    (represented 7 [] storm + (counter (after_events [] storm) 7).suppressed ≡ count 7 storm)
    × ((counter (after_events [] storm) 7).total ≡ count 7 storm)
unfolding count
represented-count_example = represented-count 7 storm (omega arith)

written-new_example : Spaced 0 (written 7 [] storm)
written-new_example = written-new 7 storm
