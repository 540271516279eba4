-- ===== src/Multipath/Insert/Stream.antt =====
-- Insert of internal/multipath/reassembly.go hands out the stream, whatever arrives in whatever
-- order.
use niulang.Prelude.{
  ℕ, ◌+◌, ◌-◌, ◌^◌, ◌%◌, ◌≤◌, ◌<◌, ◌≡◌, refl, sym, ap, ◌∙◌, arith, Bool, true, false, not, ◌&&◌,
  ◌||◌, Option, none, some, List, [], ltb, leb, ◌==◌, if◌then◌else◌, length, All, Result, ok, err,
  ◌>>◌, ensure, Bool-cases, Option-cases, Result-cases, inl, inr,
}
use niulang.MemLimit.{Budget, try_acquire}
use niulang.MemLimit.Laws.{try_acquire_nil, try_acquire_charged}
use niulang.Multipath.{
  Segment, Reassembler, Error, closed, find, put, insert_order, end_of, check_neighbours,
  window_exceeded, memory_budget, invalid_sequence, fin_with_payload, empty_data, overlaps_cursor,
  conflicting_duplicate, cursor_mismatch, release_panic, out_of_fuel,
}
use niulang.Multipath.Buffer.{
  IsShaped, total_bytes, keys, keys-put, find-put, length-put, total_bytes-put, All-put,
}
use niulang.Multipath.Neighbours.{Clear, check_neighbours-Clear, put-Spread}
use niulang.Multipath.Insert.{
  Inserted, same_bytes, same_bool, keep, accept, insert, consume_contiguous,
}
use niulang.Multipath.Insert.Invariant.{Paid, others, IsCharged, IsBounded, IsValid, charge_of}
use niulang.Multipath.Insert.Chain.{chain, payloads-chain, range, range_empty, Agrees}
use niulang.Multipath.Insert.Deliver.{consume_contiguous-Drained}
use mathlib.Core.Path.{subst}
use mathlib.Core.Logic.{◌⊎◌}

-- The errors that Insert means to return: not an internal mismatch, a panic or a loop cut short.
abbrev pub is_refusal : Error → Bool
is_refusal cursor_mismatch = false
is_refusal release_panic = false
is_refusal out_of_fuel = false
is_refusal _ = true

-- A segment as the transport hands it in.
pub record IsFresh (s : Segment) : Type 0 where
  pub free : s.charged ≡ false
  pub short : length s.payload < 2 ^ 63

-- An insertion that succeeds hands out the bytes of `stream` that `next` moved over, and keeps the
-- invariant, everyone else's memory and the agreement with the stream.
pub record Grown (stream : ℕ → ℕ) (r : Reassembler) (result : Result Error Inserted) : Type 0 where
  pub done : Bool
  pub last : Reassembler
  pub gives : result ≡ ok (range stream r.next (last.next - r.next), done, last)
  pub valid : IsValid last
  pub finished : done ≡ closed last
  pub forward : r.next ≤ last.next
  pub same : others last.memory last.bytes ≡ others r.memory r.bytes
  pub kept : All (Agrees stream) last.buffer

-- It succeeds so, or it is refused.
abbrev pub Answer : (ℕ → ℕ) → Reassembler → Result Error Inserted → Type 0
Answer stream r result =
    Grown stream r result ⊎ ((e : Error) × (result ≡ err e) × (is_refusal e ≡ true))

ensure-Answer :
    (stream : ℕ → ℕ) (r : Reassembler) (b : Bool) (e : Error) (k : Result Error Inserted)
    → is_refusal e ≡ true
    → (b ≡ true → Answer stream r k)
    → Answer stream r (ensure b e >> k)
ensure-Answer stream r true e k h f = f refl
ensure-Answer stream r false e k h f = inr (e, refl, h)

check_neighbours-refusal :
    (b : List Segment) (order : List ℕ) (s : Segment) (e : Error)
    → check_neighbours b order s ≡ err e
    → is_refusal e ≡ true
unfolding check_neighbours
check_neighbours-refusal b order s e h = ground arith

-- Nothing to do: the state stays.
unchanged :
    (stream : ℕ → ℕ) (r : Reassembler)
    → IsValid r
    → All (Agrees stream) r.buffer
    → Grown stream r (ok ([], closed r, r))
unchanged stream r v a = record {
  done = closed r;
  last = r;
  gives = ap (λ o. ok (o, closed r, r)) (sym (range_empty stream r.next));
  valid = v;
  finished = refl;
  forward = omega arith;
  same = refl;
  kept = a;
}

-- The memory that a kept segment takes.
admitted-Paid :
    (m memory : Option Budget) (n bytes : ℕ)
    → try_acquire m n ≡ (true, memory)
    → Paid m bytes
    → Paid memory (bytes + n) × (others memory (bytes + n) ≡ others m bytes)
admitted-Paid none memory n bytes e p =
    let nil : memory ≡ none = ground (arith, try_acquire_nil n) in rw nil (tt, refl)
admitted-Paid (some b) memory n bytes e p =
    let (b', new, used) = try_acquire_charged b n memory e in rw new (omega arith, omega arith)

-- The mark of a charge is no part of what the neighbours check.
held-Clear :
    (b : List Segment) (order : List ℕ) (s : Segment)
    → Clear b order s
    → Clear b order (record s { charged = true })
unfolding end_of
held-Clear b order s clear = record { before = clear.before; behind = clear.behind }

keep-Answer :
    (stream : ℕ → ℕ) (r : Reassembler) (s : Segment)
    → IsValid r
    → IsFresh s
    → IsShaped s
    → IsBounded s
    → All (Agrees stream) r.buffer
    → Agrees stream s
    → find s.sequence r.buffer ≡ none
    → (s.sequence == r.next) ≡ false
    → Clear r.buffer r.order s
    → Answer stream r (keep r s)
unfolding keep
keep-Answer stream r s v f shaped ends a h absent apart clear =
    let n = length s.payload in
    let held = record s { charged = true } in
    let taken = try_acquire r.memory n in
    let r' = record r {
      buffer = put held r.buffer;
      order = insert_order r.order s.sequence;
      bytes = (r.bytes + n) % 2 ^ 64;
      final_at = if s.final then some s.sequence else r.final_at;
      memory = taken.1;
    } in
    let room = not (
      ltb r.cfg.max_buffered_frames (length r.buffer + 1)
      || ltb r.cfg.max_buffered_bytes ((r.bytes + n) % 2 ^ 64)) in
    ensure-Answer stream r room window_exceeded _ refl (λ has_room.
      ensure-Answer stream r taken.0 memory_budget _ refl (λ admitted.
        let fits : (r.bytes + n ≤ r.cfg.max_buffered_bytes)
            × (length r.buffer + 1 ≤ r.cfg.max_buffered_frames) =
          ground (arith, has_room, v.within, v.small, f.short) in
        let wrap : (r.bytes + n) % 2 ^ 64 ≡ r.bytes + n =
          omega (arith, v.within, v.small, f.short) in
        let (paid, same) =
          admitted-Paid r.memory taken.1 n r.bytes (ap (λ b. (b, taken.1)) admitted) v.paid in
        inl (record {
          done = closed r';
          last = r';
          gives = ap (λ o. ok (o, closed r', r')) (sym (range_empty stream r.next));
          valid = record {
            indexed =
                ap (λ o. insert_order o s.sequence) v.indexed ∙ sym (keys-put held r.buffer absent);
            spread = put-Spread 0 r.buffer held v.spread (omega arith) shaped absent (
                held-Clear r.buffer (keys r.buffer) s
                  (subst (λ o. Clear r.buffer o s) v.indexed clear));
            gap = find-put held r.buffer r.next absent ∙ rw apart v.gap;
            counted = wrap ∙ omega (arith, v.counted, total_bytes-put held r.buffer absent);
            frames = omega (arith, length-put held r.buffer absent, fits.1);
            within = subst (λ k. k ≤ r.cfg.max_buffered_bytes) (sym wrap) fits.0;
            charged = All-put IsCharged held r.buffer refl v.charged;
            paid = subst (Paid taken.1) (sym wrap) paid;
            small = v.small;
            bounded = All-put IsBounded held r.buffer ends v.bounded;
          };
          finished = refl;
          forward = omega arith;
          same = ap (others taken.1) wrap ∙ same;
          kept = All-put (Agrees stream) held r.buffer h a;
        })))

pub consume_contiguous-Answer :
    (stream : ℕ → ℕ) (r : Reassembler) (s : Segment)
    → IsValid r
    → IsFresh s
    → IsShaped s
    → All (Agrees stream) r.buffer
    → Agrees stream s
    → s.sequence ≡ r.next
    → Answer stream r (consume_contiguous r s)
consume_contiguous-Answer stream r s v f shaped a h at =
    let fuel = length r.buffer + 1 in
    let free : charge_of s ≡ 0 = rw f.free in
    let owes : r.bytes + charge_of s ≡ r.bytes = omega (arith, free) in
    let d =
      consume_contiguous-Drained (Agrees stream) r s
        (record {
          indexed = v.indexed;
          spread = v.spread;
          absent = v.gap;
          counted = v.counted;
          frames = v.frames;
          within = v.within;
          charged = v.charged;
          small = v.small;
          bounded = v.bounded;
          paid = subst (Paid r.memory) (sym owes) v.paid;
          at = at;
          shaped = shaped;
        })
        a in
    let moved : d.last.next - r.next ≡ total_bytes (chain fuel r.buffer s) =
      omega (arith, d.cursor) in
    inl (record {
      done = d.done;
      last = d.last;
      gives =
          d.gives
          ∙ ap (λ o. ok (o, d.done, d.last))
              (payloads-chain stream fuel r.buffer s a h
                ∙ ap (λ k. range stream k (total_bytes (chain fuel r.buffer s))) at
                ∙ ap (range stream r.next) (sym moved));
      valid = d.valid;
      finished = d.finished;
      forward = omega (arith, d.cursor);
      same = d.same ∙ ap (others r.memory) owes;
      kept = d.kept;
    })

accept-Answer :
    (stream : ℕ → ℕ) (r : Reassembler) (s : Segment)
    → IsValid r
    → IsFresh s
    → IsShaped s
    → IsBounded s
    → All (Agrees stream) r.buffer
    → Agrees stream s
    → find s.sequence r.buffer ≡ none
    → Answer stream r (accept r s)
unfolding accept
accept-Answer stream r s v f shaped ends a h absent =
    elim (Result-cases (check_neighbours r.buffer r.order s)) [
      | inr (e, refused) ↦
          inr (e, ground (arith, refused), check_neighbours-refusal r.buffer r.order s e refused)
      | inl (u, clean) ↦
          let clear = check_neighbours-Clear r.buffer r.order s clean in
          elim (Bool-cases (s.sequence == r.next)) [
            | inl next ↦
                rw (clean, next)
                  (consume_contiguous-Answer stream r s v f shaped a h (ground (arith, next)))
            | inr apart ↦
                rw (clean, apart) (keep-Answer stream r s v f shaped ends a h absent apart clear)
          ]
    ]

-- For any stream of bytes: inserting a segment that carries the stream's bytes, shorter than 2^63
-- bytes, into a valid reassembler whose buffered segments do so too either fails with one of the
-- errors that Insert means to return, never with an internal cursor mismatch, a panic of Release or
-- a loop cut short, or it returns exactly the stream's bytes from the old cursor to the new one,
-- reports closed as the new state does, keeps the invariant and the agreement with the stream, and
-- charges the shared budget for what it buffers and for nothing else.
pub insert-Answer :
    (stream : ℕ → ℕ) (r : Reassembler) (s : Segment)
    → IsValid r
    → All (Agrees stream) r.buffer
    → IsFresh s
    → Agrees stream s
    → Answer stream r (insert r s)
unfolding insert
insert-Answer stream r s v a f h =
    ensure-Answer stream r (not (s.final && not (length s.payload == 0))) fin_with_payload _ refl
      (λ bare.
        ensure-Answer stream r (not (not s.final && length s.payload == 0)) empty_data _ refl
          (λ some_bytes.
            ensure-Answer stream r (leb s.sequence (2 ^ 64 - 1 - length s.payload)) invalid_sequence
              _ refl
              (λ in_range.
                let ends : IsBounded s = ground (arith, in_range, f.short) in
                let shaped : IsShaped s = (λ fin. ground arith, λ not_fin. ground arith) in
                elim (Bool-cases (ltb (end_of s) r.next || s.final && ltb s.sequence r.next)) [
                  | inl old ↦ elim (Bool-cases (leb (end_of s) r.next)) [
                    | inl whole ↦ rw (old, whole) (inl (unchanged stream r v a))
                    | inr across ↦ rw (old, across) (inr (overlaps_cursor, refl, refl))
                  ]
                  | inr current ↦ elim (Option-cases (find s.sequence r.buffer)) [
                    | inl absent ↦
                        rw (current, absent) (accept-Answer stream r s v f shaped ends a h absent)
                    | inr (t, present) ↦
                        let test = same_bool t.final s.final && same_bytes t.payload s.payload in
                        elim (Bool-cases test) [
                          | inl same ↦ rw (current, present, same) (inl (unchanged stream r v a))
                          | inr differs ↦
                              rw (current, present, differs)
                                (inr (conflicting_duplicate, refl, refl))
                        ]
                  ]
                ])))
