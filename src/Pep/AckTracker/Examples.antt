-- ===== src/Pep/AckTracker/Examples.antt =====
-- internal/pep/acktrack.go on acknowledgements that arrive out of order.
use niulang.Prelude.{ℕ, ◌≤◌, ◌<◌, ◌≡◌, ◌≢◌, ◌↔◌, refl, arith, true, false, some, List, [], ◌∷◌}
use niulang.Pep.AckTracker.{
  Tracker, new_ack_tracker, compact_pass, compact_loop, compact, range_less, insert_sorted,
  sort_ranges, coalesce, merge, advance, fresh, add, covered_scan, covered, wait, wait_change,
  delivered, snapshot, highest,
}
use niulang.Pep.AckTracker.Sets.{acked}
use niulang.Pep.AckTracker.Compact.{compact_settles}
use niulang.Pep.AckTracker.Covered.{AllAcked, wait_iff}
use niulang.Pep.AckTracker.Updates.{acked-add, acked-advance}
use niulang.Pep.AckTracker.History.{
  Call, advance_call, add_call, run, reported, covered-run, wait_change-apply,
}

abbrev holes : Tracker
holes = record { cumulative = 10; ranges = (20, 30) ∷ (40, 50) ∷ []; closed = true; gen = 3 }

-- The first range joins the cumulative point, and so does what touches it.
add-holes :
    add holes ((30, 40) ∷ (10, 20) ∷ (5, 5) ∷ [])
    ≡ record { cumulative = 50; ranges = []; closed = true; gen = 4 }
unfolding add compact compact_pass compact_loop merge sort_ranges insert_sorted range_less coalesce
    fresh
add-holes = refl

advance-holes :
    advance holes 25 ≡ record { cumulative = 30; ranges = (40, 50) ∷ []; closed = true; gen = 4 }
unfolding advance compact compact_pass compact_loop
advance-holes = refl

covered-holes : (covered holes 22 30 ≡ true) × (covered holes 22 31 ≡ false)
unfolding covered covered_scan
covered-holes = (refl, refl)

highest-holes : highest (snapshot holes) ≡ 50
unfolding highest snapshot
highest-holes = refl

abbrev calls : List Call
calls = add_call ((3, 6) ∷ []) ∷ advance_call 3 ∷ []

covered-run_example :
    (covered (run new_ack_tracker calls) 0 6 ≡ true)
    ↔ ((x : ℕ) → 0 ≤ x → x < 6 → reported calls x ≡ true)
covered-run_example = covered-run calls 0 6

wait_iff_example : (wait holes 22 30 true ≡ some delivered) ↔ AllAcked holes 22 30
wait_iff_example = wait_iff holes 22 30 true (omega arith)

compact_settles_example :
    compact_pass (compact holes).cumulative (compact holes).ranges
    ≡ ((compact holes).cumulative, (compact holes).ranges, false)
compact_settles_example = compact_settles holes

acked-add_example : acked (add holes ((30, 35) ∷ [])) 33 ≡ true
acked-add_example = acked-add holes ((30, 35) ∷ []) 33 (omega arith)

acked-advance_example : acked (advance holes 25) 28 ≡ true
acked-advance_example = acked-advance holes 25 28

moved : acked (advance holes 15) 12 ≢ acked holes 12
moved e = cc (acked-advance holes 15 12)

wait_change-apply_example :
    wait_change (advance holes 15) 3 false ≡ some ((advance holes 15).gen, delivered)
wait_change-apply_example = wait_change-apply holes (advance_call 15) 12 false (omega arith) moved
