-- ===== src/Multipath/Insert/Examples.antt =====
-- internal/multipath/reassembly.go with segments out of order, and a budget shared with others.
use niulang.Prelude.{
  ℕ, ◌+◌, ◌≤◌, ◌≡◌, ◌++◌, refl, arith, true, false, none, some, List, [], ◌∷◌, ok, All,
}
use niulang.MemLimit.{Budget, try_acquire, release, charge}
use niulang.Multipath.{
  Config, Segment, Reassembler, new_reassembler, closed, find, zero_segment, at_key, put, remove,
  search, insert_order, remove_order, end_of, check_neighbours,
}
use niulang.Multipath.Insert.{
  measure, copy_into, output, release_charge, drain, consume_contiguous, same_bytes, same_bool,
  keep, accept, insert, close,
}
use niulang.Multipath.Insert.Invariant.{IsSmall, IsValid, others}
use niulang.Multipath.Insert.Chain.{Agrees, range}
use niulang.Multipath.Insert.Stream.{IsFresh, Answer, insert-Answer}
use niulang.Multipath.Insert.Runs.{run, run-new_reassembler, close-run}
use niulang.Multipath.Insert.Follows.{Follows}
use niulang.Multipath.Insert.Cursor.{IsData, insert-next, insert-overlap}

abbrev stream : ℕ → ℕ
stream k = k + 10

-- Eight of twenty bytes belong to others.
abbrev shared : Budget
shared = record { capacity = 20; used = 8; peak = 8; waiters = 0; changed = 0 }

abbrev config : Config
config = record { max_buffered_bytes = 10; max_buffered_frames = 3; memory = some shared }

abbrev late : Segment
late = record { sequence = 2; payload = 12 ∷ 13 ∷ []; final = false; charged = false }

abbrev gap : Segment
gap = record { sequence = 0; payload = 10 ∷ 11 ∷ []; final = false; charged = false }

abbrev fin : Segment
fin = record { sequence = 4; payload = []; final = true; charged = false }

abbrev far : Segment
far = record { sequence = 7; payload = 17 ∷ []; final = false; charged = false }

abbrev arrivals : List Segment
arrivals = late ∷ late ∷ fin ∷ gap ∷ []

abbrev pub late_buffered : Reassembler
late_buffered = record {
  cfg = config;
  next = 0;
  buffer = record late { charged = true } ∷ [];
  order = 2 ∷ [];
  bytes = 2;
  final_at = none;
  memory = some (record shared { used = 10; peak = 10 });
}

insert-late : insert (new_reassembler config) late ≡ ok ([], false, late_buffered)
unfolding new_reassembler insert end_of find accept check_neighbours search at_key zero_segment keep
    same_bytes same_bool put insert_order closed try_acquire charge
insert-late = refl

-- The gap closes: both segments are handed out, and the budget is as it was.
insert-gap :
    insert late_buffered gap
    ≡ ok (
      10 ∷ 11 ∷ 12 ∷ 13 ∷ [],
      false,
      record late_buffered {
        next = 4;
        buffer = [];
        order = [];
        bytes = 0;
        memory = some (record shared { peak = 10; changed = 1 });
      },
    )
unfolding insert end_of find accept check_neighbours search at_key zero_segment consume_contiguous
    measure drain output copy_into remove remove_order release_charge release closed
insert-gap = refl

pub late_buffered-IsValid : IsValid late_buffered
unfolding find
late_buffered-IsValid = record {
  indexed = refl;
  spread = (omega arith, (λ e. absurd (cc), λ e. omega arith), tt);
  gap = refl;
  counted = refl;
  frames = omega arith;
  within = omega arith;
  charged = (refl, tt);
  paid = omega arith;
  small = omega arith;
  bounded = (omega arith, tt);
}

config-IsSmall : IsSmall config
config-IsSmall = omega arith

late-IsFresh : IsFresh late
late-IsFresh = record { free = refl; short = omega arith }

gap-IsFresh : IsFresh gap
gap-IsFresh = record { free = refl; short = omega arith }

fin-IsFresh : IsFresh fin
fin-IsFresh = record { free = refl; short = omega arith }

far-IsFresh : IsFresh far
far-IsFresh = record { free = refl; short = omega arith }

arrivals-IsFresh : All IsFresh arrivals
arrivals-IsFresh = (late-IsFresh, (late-IsFresh, (fin-IsFresh, (gap-IsFresh, tt))))

arrivals-Agrees : All (Agrees stream) arrivals
arrivals-Agrees = (refl, (refl, (refl, (refl, tt))))

insert-Answer_example : Answer stream late_buffered (insert late_buffered gap)
insert-Answer_example =
    insert-Answer stream late_buffered gap late_buffered-IsValid (refl, tt) gap-IsFresh refl

run-new_reassembler_example :
    ((run (new_reassembler config) arrivals).0
      ≡ range stream 0 (run (new_reassembler config) arrivals).1.next)
    × IsValid (run (new_reassembler config) arrivals).1
run-new_reassembler_example =
    run-new_reassembler stream config arrivals config-IsSmall arrivals-IsFresh arrivals-Agrees

-- Two segments behind a gap that never closes.
close-run_example :
    (last : Reassembler) × (close (run (new_reassembler config) (late ∷ far ∷ [])).1 ≡ ok last)
    × (last.buffer ≡ [])
    × (others last.memory 0 ≡ others (new_reassembler config).memory 0)
close-run_example =
    close-run stream config (late ∷ far ∷ []) config-IsSmall (late-IsFresh, (far-IsFresh, tt))
      (refl, (refl, tt))

gap-IsData : IsData gap
gap-IsData = record { data_only = refl; filled = omega arith; ends = omega arith; free = refl }

late-IsData : IsData late
late-IsData = record { data_only = refl; filled = omega arith; ends = omega arith; free = refl }

gap-Clear : check_neighbours late_buffered.buffer late_buffered.order gap ≡ ok tt
unfolding check_neighbours search at_key zero_segment find end_of
gap-Clear = refl

insert-next_example :
    (out : List ℕ) × (rest : List ℕ) × (last : Reassembler) × (insert late_buffered gap
      ≡ ok (out, closed last, last))
    × (out ≡ gap.payload ++ rest)
    × Follows late_buffered.buffer (0 + 2) rest last.next
    × (0 + 2 ≤ last.next)
    × (find last.next last.buffer ≡ none)
insert-next_example = insert-next late_buffered gap late_buffered-IsValid gap-IsData refl gap-Clear

-- All four bytes are delivered, and the last two arrive once more.
abbrev delivered : Reassembler
delivered = record late_buffered {
  next = 4;
  buffer = [];
  order = [];
  bytes = 0;
  memory = some shared;
}

late_absent : find 2 delivered.buffer ≡ none
unfolding find
late_absent = refl

abbrev late_kept : Reassembler
late_kept = record late_buffered { next = 4 }

insert-again : insert delivered late ≡ ok ([], false, late_kept)
unfolding insert end_of find accept check_neighbours search at_key zero_segment keep same_bytes
    same_bool put insert_order closed try_acquire charge
insert-again = refl

insert-overlap_example :
    (◌≡◌ {A = List ℕ} [] [])
    × (late_kept.next ≡ delivered.next)
    × (find 2 late_kept.buffer ≡ some (record late { charged = true }))
insert-overlap_example =
    insert-overlap delivered late [] false late_kept late-IsData (omega arith) (omega arith)
      late_absent insert-again
