-- ===== src/Multipath/Insert/Runs.antt =====
-- Sequences of calls of Insert and Close of internal/multipath/reassembly.go.
use niulang.Prelude.{
  ℕ, ◌+◌, ◌-◌, ◌≤◌, ◌≡◌, refl, sym, ap, ◌∙◌, arith, ◌||◌, Option, none, some, List, [], ◌∷◌, ◌++◌,
  ◌==◌, length, All, ok, err, Bool-cases, inl, inr,
}
use niulang.MemLimit.{Budget}
use niulang.Multipath.{Config, Segment, Reassembler, default_config, new_reassembler, find}
use niulang.Multipath.Buffer.{total_bytes}
use niulang.Multipath.Insert.{release_all, close, insert}
use niulang.Multipath.Insert.Invariant.{
  Paid, others, IsCharged, IsSmall, IsValid, charge_of, release_charge-Released,
}
use niulang.Multipath.Insert.Chain.{range, range_add, range_empty, Agrees}
use niulang.Multipath.Insert.Stream.{IsFresh, insert-Answer}
use mathlib.Core.Path.{subst}

-- The calls of Insert for one segment after the other, and all the bytes they return. A call that
-- fails changes nothing.
pub run : Reassembler → List Segment → List ℕ × Reassembler
run r [] = ([], r)
run r (s ∷ ss) =
    let skipped = run r ss in
    elim (insert r s) [
      | err e ↦ skipped
      | ok (out, done, r') ↦ let rest = run r' ss in (out ++ rest.0, rest.1)
    ]

-- What a sequence of calls that began in `r` has come to.
record Received (stream : ℕ → ℕ) (r : Reassembler) (result : List ℕ × Reassembler) : Type 0 where
  pub valid : IsValid result.1
  pub forward : r.next ≤ result.1.next
  pub bytes : result.0 ≡ range stream r.next (result.1.next - r.next)
  pub same : others result.1.memory result.1.bytes ≡ others r.memory r.bytes

Paid-zero : (m : Option Budget) → Paid m 0
Paid-zero none = tt
Paid-zero (some b) = omega arith

new-IsValid : (cfg : Config) → IsSmall cfg → IsValid (new_reassembler cfg)
unfolding new_reassembler find default_config
new-IsValid cfg small = record {
  indexed = refl;
  spread = tt;
  gap = refl;
  counted = refl;
  frames = omega arith;
  within = omega arith;
  charged = tt;
  paid = Paid-zero (new_reassembler cfg).memory;
  small = elim (Bool-cases (cfg.max_buffered_bytes == 0 || cfg.max_buffered_frames == 0)) [
    | inl unset ↦ rw unset (omega arith)
    | inr set ↦ rw set small
  ];
  bounded = tt;
}

run-Received :
    (stream : ℕ → ℕ) (r : Reassembler) (ss : List Segment)
    → IsValid r
    → All (Agrees stream) r.buffer
    → All IsFresh ss
    → All (Agrees stream) ss
    → Received stream r (run r ss)
unfolding run
run-Received stream r [] v a f h = record {
  valid = v;
  forward = omega arith;
  bytes = sym (range_empty stream r.next);
  same = refl;
}
run-Received stream r (s ∷ ss) v a f h = elim (insert-Answer stream r s v a f.0 h.0) [
  | inr (e, refused, meant) ↦ rw (run, refused) (run-Received stream r ss v a f.1 h.1)
  | inl g ↦
      let w = run-Received stream g.last ss g.valid g.kept f.1 h.1 in
      let last = (run g.last ss).1 in
      let m = g.last.next - r.next in
      let n = last.next - g.last.next in
      let sum : m + n ≡ last.next - r.next = omega (arith, g.forward, w.forward) in
      let middle : r.next + m ≡ g.last.next = omega (arith, g.forward) in
      rw (run, g.gives)
        (record {
          valid = w.valid;
          forward = omega (arith, g.forward, w.forward);
          bytes =
              ap (λ t. range stream r.next m ++ t)
                (w.bytes ∙ ap (λ k. range stream k n) (sym middle))
              ∙ sym (range_add stream r.next m n)
              ∙ ap (range stream r.next) sum;
          same = w.same ∙ g.same;
        })
]

release_all-Paid :
    (m : Option Budget) (b : List Segment)
    → All IsCharged b
    → Paid m (total_bytes b)
    → (m' : Option Budget) × (release_all m b ≡ ok m')
      × Paid m' 0
      × (others m' 0 ≡ others m (total_bytes b))
unfolding release_all
release_all-Paid m [] c p = (m, refl, p, refl)
release_all-Paid m (s ∷ ss) c p =
    let charge : charge_of s ≡ length s.payload = rw c.0 in
    let e : length s.payload + total_bytes ss ≡ total_bytes ss + charge_of s =
      omega (arith, charge) in
    let one = release_charge-Released m s (total_bytes ss) (subst (Paid m) e p) in
    let (m', done, paid, same) = release_all-Paid one.memory ss c.1 one.paid in
    (m', rw (one.result, done), paid, same ∙ one.same ∙ ap (others m) (sym e))

close-IsValid :
    (r : Reassembler)
    → IsValid r
    → (r' : Reassembler) × (close r ≡ ok r')
      × (r'.buffer ≡ [])
      × IsValid r'
      × (others r'.memory 0 ≡ others r.memory r.bytes)
unfolding close find
close-IsValid r v =
    let (m, done, paid, same) =
      release_all-Paid r.memory r.buffer v.charged (subst (Paid r.memory) v.counted v.paid) in
    (
      record r { buffer = []; order = []; bytes = 0; memory = m },
      rw done,
      refl,
      record {
        indexed = refl;
        spread = tt;
        gap = refl;
        counted = refl;
        frames = omega arith;
        within = omega arith;
        charged = tt;
        paid = paid;
        small = v.small;
        bounded = tt;
      },
      same ∙ ap (others r.memory) (sym v.counted),
    )

-- Whatever segments of one stream of bytes arrive at a new reassembler whose byte limit is below
-- 2^63, in whatever order, repeated, overlapping, refused or missing, each shorter than 2^63 bytes: what the calls of Insert return is
-- together the stream from its first byte up to the cursor, each byte once and in order, and the
-- reassembler that is left is valid: it indexes the segments that it buffers, which do not overlap
-- and stay within its limits.
pub run-new_reassembler :
    (stream : ℕ → ℕ) (cfg : Config) (ss : List Segment)
    → IsSmall cfg
    → All IsFresh ss
    → All (Agrees stream) ss
    → ((run (new_reassembler cfg) ss).0 ≡ range stream 0 (run (new_reassembler cfg) ss).1.next)
      × IsValid (run (new_reassembler cfg) ss).1
unfolding new_reassembler
run-new_reassembler stream cfg ss small f h =
    let w = run-Received stream (new_reassembler cfg) ss (new-IsValid cfg small) tt f h in
    let next = (run (new_reassembler cfg) ss).1.next in
    let all : next - 0 ≡ next = omega arith in (w.bytes ∙ ap (range stream 0) all, w.valid)

-- Close after any calls of Insert on a new reassembler whose byte limit is below 2^63, with segments
-- of one stream of bytes that are each shorter than 2^63 bytes, with gaps left or not, releases what the flow has charged to
-- the shared budget and nothing else: it does not panic, empties the buffer, and leaves the budget
-- charged as it was before the flow.
pub close-run :
    (stream : ℕ → ℕ) (cfg : Config) (ss : List Segment)
    → IsSmall cfg
    → All IsFresh ss
    → All (Agrees stream) ss
    → (last : Reassembler) × (close (run (new_reassembler cfg) ss).1 ≡ ok last)
      × (last.buffer ≡ [])
      × (others last.memory 0 ≡ others (new_reassembler cfg).memory 0)
unfolding new_reassembler
close-run stream cfg ss small f h =
    let w = run-Received stream (new_reassembler cfg) ss (new-IsValid cfg small) tt f h in
    let (last, done, empty, valid, same) = close-IsValid (run (new_reassembler cfg) ss).1 w.valid in
    (last, done, empty, same ∙ w.same)
