-- ===== src/Multipath/Insert/Deliver.antt =====
-- consumeContiguous of internal/multipath/reassembly.go delivers the chain, byte for byte.
use niulang.Prelude.{
  ℕ, zero, suc, ◌+◌, ◌-◌, ◌<◌, ◌≡◌, refl, sym, ap, ◌∙◌, arith, Bool, true, false, none, some, List,
  [], ◌∷◌, ◌++◌, ltb, ◌==◌, if◌then◌else◌, length, take, take_beyond, All, Result, ok, Bool-cases,
  Option-cases, inl, inr, length-append,
}
use niulang.Multipath.{Segment, Reassembler, Error, closed, find, remove}
use niulang.Multipath.Insert.{Inserted, copy_into, output, drain, consume_contiguous}
use niulang.Multipath.Buffer.{
  total_bytes, total_bytes-remove, sequence-find, All-find, All-remove, IsShaped,
}
use niulang.Multipath.Insert.Invariant.{
  Paid, others, IsValid, charge_of, Released, release_charge-Released,
}
use niulang.Multipath.Insert.Chain.{
  chain, chain_fin, chain_end, chain_next, chain-remove, payloads, length-payloads, Spread-IsShaped,
  measure-chain,
}
use niulang.Multipath.Insert.Drain.{
  Ready, filled_after, passed, taken, drain_fin, drain_end, drain_next, recharged, taken-Ready,
}
use mathlib.Core.Path.{subst}
use mathlib.Core.List.{append_assoc, append-nil}

-- The bytes copied by the end of the loop: nothing is copied for a chain of one segment.
abbrev gathered : ℕ → List ℕ → List Segment → List ℕ
gathered count filled ss = if ltb 1 count then filled ++ payloads ss else filled

-- `total` has room for what is still to be copied.
abbrev Fits : ℕ → ℕ → List ℕ → List Segment → Type 0
Fits count total filled ss = 1 < count → length filled + total_bytes ss ≡ total

gathered-nil : (count : ℕ) (filled : List ℕ) → gathered count filled [] ≡ filled
gathered-nil count filled = elim (Bool-cases (ltb 1 count)) [
  | inl many ↦ rw many (append-nil filled)
  | inr one ↦ rw one
]

filled_after-copy :
    (count total : ℕ) (first c : Segment) (filled : List ℕ) (rest : List Segment)
    → first.sequence < c.sequence
    → Fits count total filled (c ∷ rest)
    → (gathered count (filled_after count total first c filled) rest
        ≡ gathered count filled (c ∷ rest))
      × Fits count total (filled_after count total first c filled) rest
unfolding copy_into
filled_after-copy count total first c filled rest later fits = elim (Bool-cases (ltb 1 count)) [
  | inr one ↦
      let e : filled_after count total first c filled ≡ filled = ground arith in
      (rw (e, one), λ many. absurd (ground arith))
  | inl many ↦
      let room = fits (ground arith) in
      let whole : take (total - length filled) c.payload ≡ c.payload =
        take_beyond (total - length filled) c.payload (omega arith) in
      let e : filled_after count total first c filled ≡ filled ++ c.payload =
        let apart : (c.sequence == first.sequence) ≡ false = ground arith in
        rw (apart, many, whole) in
      (
        rw (e, many) (append_assoc filled c.payload (payloads rest)),
        λ m. rw e (omega (arith, length-append filled c.payload)),
      )
]

-- The loop went through the segments `ss` of `r`, of which `c` was the current one.
pub record Drained {κ} (P : Segment → Type κ) (r : Reassembler) (c : Segment) (ss : List Segment)
    (result : Result Error Inserted) (out : List ℕ) : Type κ where
  pub done : Bool
  pub last : Reassembler
  pub gives : result ≡ ok (out, done, last)
  pub valid : IsValid last
  pub finished : done ≡ closed last
  pub cursor : last.next ≡ r.next + total_bytes ss
  pub same : others last.memory last.bytes ≡ others r.memory (r.bytes + charge_of c)
  pub kept : All P last.buffer

-- A FIN has charged nothing.
free-charge :
    (r : Reassembler) (c : Segment) → Ready r c → c.final ≡ true → r.bytes + charge_of c ≡ r.bytes
free-charge r c v fin = ground (arith, v.shaped.0 fin)

charge-released : (r : Reassembler) (c : Segment) → Ready r c → Released r.memory c r.bytes
charge-released r c v = release_charge-Released r.memory c r.bytes v.paid

closed_fin :
    (r : Reassembler) (c : Segment)
    → c.sequence ≡ r.next
    → true ≡ closed (record r { final_at = some c.sequence })
unfolding closed
closed_fin r c at = ground (arith, at)

begins :
    (r : Reassembler) (c : Segment)
    → Ready r c
    → find (c.sequence + length c.payload) r.buffer ≡ find (r.next + length c.payload) r.buffer
begins r c v = ap (λ k. find (k + length c.payload) r.buffer) v.at

-- The chain goes on in the buffer without its next segment.
chain-step :
    (fuel : ℕ) (r : Reassembler) (c n : Segment)
    → Ready r c
    → c.final ≡ false
    → find (r.next + length c.payload) r.buffer ≡ some n
    → chain (suc fuel) r.buffer c ≡ c ∷ chain fuel (remove (r.next + length c.payload) r.buffer) n
chain-step fuel r c n v not_fin found =
    let next = r.next + length c.payload in
    let shaped = All-find IsShaped next r.buffer n (Spread-IsShaped 0 r.buffer v.spread) found in
    let at = sequence-find next r.buffer n found in
    chain_next fuel r.buffer c n not_fin (begins r c v ∙ found)
    ∙ ap (λ ss. c ∷ ss)
        (sym (chain-remove fuel 0 next r.buffer n v.spread shaped (omega (arith, at))))

-- The same result for another name of the chain and of the bytes.
Drained-as {κ} :
    (P : Segment → Type κ) {r : Reassembler} {c : Segment} {ss ss' : List Segment}
    {result : Result Error Inserted} {out out' : List ℕ}
    → ss' ≡ ss
    → out' ≡ out
    → Drained P r c ss result out
    → Drained P r c ss' result out'
Drained-as P {r} {c} {ss} {ss'} {result} {out} {out'} e o d =
    subst (λ x. Drained P r c x result out') (sym e)
      (subst (λ x. Drained P r c ss result x) (sym o) d)

module _ {κ} (P : Segment → Type κ) (first : Segment) (count total : ℕ) where
  Drained-fin :
      (fuel : ℕ) (c : Segment) (filled : List ℕ) (r : Reassembler)
      → Ready r c
      → c.final ≡ true
      → All P r.buffer
      → Drained P r c []
          (drain (suc fuel) count total first c filled r)
          (output count total first filled)
  Drained-fin fuel c filled r v fin a =
      let owes = free-charge r c v fin in
      record {
        done = true;
        last = record r { final_at = some c.sequence };
        gives = drain_fin fuel count total first c filled r fin;
        valid = record {
          indexed = v.indexed;
          spread = v.spread;
          gap = v.absent;
          counted = v.counted;
          frames = v.frames;
          within = v.within;
          charged = v.charged;
          paid = subst (Paid r.memory) owes v.paid;
          small = v.small;
          bounded = v.bounded;
        };
        finished = closed_fin r c v.at;
        cursor = omega arith;
        same = ap (others r.memory) (sym owes);
        kept = a;
      }

  Drained-end :
      (fuel : ℕ) (c : Segment) (filled : List ℕ) (r : Reassembler)
      → Ready r c
      → c.final ≡ false
      → find (r.next + length c.payload) r.buffer ≡ none
      → All P r.buffer
      → Drained P r c
          (c ∷ [])
          (drain (suc fuel) count total first c filled r)
          (output count total first (filled_after count total first c filled))
  Drained-end fuel c filled r v not_fin end a =
      let m = charge-released r c v in
      record {
        done = closed (passed r c m.memory);
        last = passed r c m.memory;
        gives = drain_end fuel count total first c filled r m.memory not_fin m.result end;
        valid = record {
          indexed = v.indexed;
          spread = v.spread;
          gap = end;
          counted = v.counted;
          frames = v.frames;
          within = v.within;
          charged = v.charged;
          paid = m.paid;
          small = v.small;
          bounded = v.bounded;
        };
        finished = refl;
        cursor = omega arith;
        same = m.same;
        kept = a;
      }

  Drained-next :
      (fuel : ℕ) (c n : Segment) (filled : List ℕ) (r : Reassembler) (ss : List Segment)
      (out : List ℕ) (v : Ready r c)
      → c.final ≡ false
      → find (r.next + length c.payload) r.buffer ≡ some n
      → Drained P
          (taken r c (charge-released r c v).memory n)
          n
          ss
          (drain fuel count total first n
            (filled_after count total first c filled)
            (taken r c (charge-released r c v).memory n))
          out
      → Drained P r c (c ∷ ss) (drain (suc fuel) count total first c filled r) out
  Drained-next fuel c n filled r ss out v not_fin found d =
      let m = charge-released r c v in
      let next = r.next + length c.payload in
      record {
        done = d.done;
        last = d.last;
        gives =
            drain_next fuel count total first c n filled r m.memory not_fin m.result found
            ∙ d.gives;
        valid = d.valid;
        finished = d.finished;
        cursor = omega (arith, d.cursor);
        same =
            d.same
            ∙ ap (others m.memory) (recharged next r.bytes r.buffer n v.charged v.counted found)
            ∙ m.same;
        kept = d.kept;
      }

  drain-later :
      (fuel : ℕ) (c : Segment) (filled : List ℕ) (r : Reassembler)
      → Ready r c
      → first.sequence < c.sequence
      → length r.buffer < fuel
      → Fits count total filled (chain fuel r.buffer c)
      → All P r.buffer
      → Drained P r c
          (chain fuel r.buffer c)
          (drain fuel count total first c filled r)
          (output count total first (gathered count filled (chain fuel r.buffer c)))
  drain-later zero c filled r v later enough fits a = absurd (omega arith)
  drain-later (suc fuel) c filled r v later enough fits a = elim (Bool-cases c.final) [
    | inl fin ↦
        let ch = chain_fin fuel r.buffer c fin in
        Drained-as P ch
          (ap (λ ss. output count total first (gathered count filled ss)) ch
            ∙ ap (output count total first) (gathered-nil count filled))
          (Drained-fin fuel c filled r v fin a)
    | inr not_fin ↦
        let next = r.next + length c.payload in
        let filled' = filled_after count total first c filled in
        let m = (charge-released r c v).memory in
        elim (Option-cases (find next r.buffer)) [
          | inl end ↦
              let ch = chain_end fuel r.buffer c not_fin (begins r c v ∙ end) in
              let copied =
                filled_after-copy count total first c filled [] later
                  (subst (Fits count total filled) ch fits) in
              Drained-as P ch
                (ap (output count total first)
                  (ap (gathered count filled) ch ∙ sym copied.0 ∙ gathered-nil count filled'))
                (Drained-end fuel c filled r v not_fin end a)
          | inr (n, found) ↦
              let ch = chain-step fuel r c n v not_fin found in
              let copied =
                filled_after-copy count total first c filled (chain fuel (remove next r.buffer) n)
                  later (subst (Fits count total filled) ch fits) in
              Drained-as P ch
                (ap (output count total first) (ap (gathered count filled) ch ∙ sym copied.0))
                (Drained-next fuel c n filled r (chain fuel (remove next r.buffer) n) _ v not_fin
                  found
                  (drain-later fuel n filled' (taken r c m n)
                    (taken-Ready r c n m v (charge-released r c v).paid found)
                    (omega (arith, sequence-find next r.buffer n found, v.at))
                    (omega (arith, (total_bytes-remove next r.buffer n found).1)) copied.1
                    (All-remove P next r.buffer a)))
        ]
  ]

-- Once all of the chain is copied, the bytes are those of its payloads.
output_chain :
    (c : Segment) (ss : List Segment)
    → output (length (c ∷ ss)) (total_bytes (c ∷ ss)) c (gathered (length (c ∷ ss)) c.payload ss)
      ≡ payloads (c ∷ ss)
unfolding output
output_chain c [] = sym (append-nil c.payload)
output_chain c (s ∷ ss) =
    let all = c.payload ++ (s.payload ++ payloads ss) in
    let full : length c.payload + (length s.payload + total_bytes ss) - length all ≡ 0 = omega (
      arith,
      length-append c.payload (s.payload ++ payloads ss),
      length-append s.payload (payloads ss),
      length-payloads ss,
    ) in
    let many : ltb 1 (suc (suc (length ss))) ≡ true = ground arith in
    let some_data : (suc (suc (length ss)) == 0) ≡ false = ground arith in
    let more : (suc (suc (length ss)) == 1) ≡ false = ground arith in
    rw (many, full, some_data, more) (append-nil all)

-- The first loop hands the second one the length of the chain and its bytes.
consume_contiguous-drain :
    (r : Reassembler) (c : Segment)
    → Ready r c
    → consume_contiguous r c
      ≡ drain
          (length r.buffer + 1)
          (length (chain (length r.buffer + 1) r.buffer c))
          (total_bytes (chain (length r.buffer + 1) r.buffer c))
          c
          c
          c.payload
          r
unfolding consume_contiguous
consume_contiguous-drain r c v =
    let b = r.buffer in
    let ss = chain (length b + 1) b c in
    let here : (c.sequence == r.next) ≡ true = ground (arith, v.at) in
    let count : 0 + length ss ≡ length ss = omega arith in
    let total : 0 + total_bytes ss ≡ total_bytes ss = omega arith in
    rw (
      here,
      measure-chain (length b + 1) 0 b b c c.sequence 0 0 v.spread (λ j l. refl) v.shaped refl
          (omega arith),
      count,
      total,
    )

module _ {κ} (P : Segment → Type κ) (r : Reassembler) (c : Segment) (v : Ready r c)
    (a : All P r.buffer) where
  -- The first segment is copied before the loop, and not again in it.
  first_copied : (count total : ℕ) → filled_after count total c c c.payload ≡ c.payload
  first_copied count total = ground arith

  drain-first :
      (fuel : ℕ)
      → length r.buffer < fuel
      → Drained P r c
          (chain fuel r.buffer c)
          (drain fuel
            (length (chain fuel r.buffer c))
            (total_bytes (chain fuel r.buffer c))
            c
            c
            c.payload
            r)
          (payloads (chain fuel r.buffer c))
  unfolding output
  drain-first zero enough = absurd (omega arith)
  drain-first (suc fuel) enough = elim (Bool-cases c.final) [
    | inl fin ↦ rw (chain_fin fuel r.buffer c fin) (Drained-fin P c 0 0 fuel c c.payload r v fin a)
    | inr not_fin ↦
        let next = r.next + length c.payload in
        elim (Option-cases (find next r.buffer)) [
          | inl end ↦ rw (chain_end fuel r.buffer c not_fin (begins r c v ∙ end)) (
              Drained-as P refl (append-nil c.payload)
                (Drained-end P c 1 (length c.payload + 0) fuel c c.payload r v not_fin end a))
          | inr (n, found) ↦
              let rest = chain fuel (remove next r.buffer) n in
              let count = length (c ∷ rest) in
              let total = total_bytes (c ∷ rest) in
              let m = charge-released r c v in
              rw (chain-step fuel r c n v not_fin found) (
                Drained-as P refl
                  (sym (output_chain c rest)
                    ∙ ap (λ o. output count total c (gathered count o rest))
                        (sym (first_copied count total)))
                  (Drained-next P c count total fuel c n c.payload r rest _ v not_fin found (
                    drain-later P c count total fuel n (filled_after count total c c c.payload)
                      (taken r c m.memory n) (taken-Ready r c n m.memory v m.paid found)
                      (omega (arith, sequence-find next r.buffer n found, v.at, v.shaped.1 not_fin))
                      (omega (arith, (total_bytes-remove next r.buffer n found).1))
                      (λ many. omega (arith, ap length (first_copied count total)))
                      (All-remove P next r.buffer a))))
        ]
  ]

-- From a ready state, consumeContiguous hands out the payloads of the whole chain.
pub consume_contiguous-Drained {κ} :
    (P : Segment → Type κ) (r : Reassembler) (c : Segment)
    → Ready r c
    → All P r.buffer
    → Drained P r c
        (chain (length r.buffer + 1) r.buffer c)
        (consume_contiguous r c)
        (payloads (chain (length r.buffer + 1) r.buffer c))
consume_contiguous-Drained P r c v a =
    subst
      (λ result.
        Drained P r c (chain (length r.buffer + 1) r.buffer c) result
          (payloads (chain (length r.buffer + 1) r.buffer c)))
      (sym (consume_contiguous-drain r c v))
      (drain-first P r c v a (length r.buffer + 1) (omega arith))
