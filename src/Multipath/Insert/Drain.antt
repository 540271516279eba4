-- ===== src/Multipath/Insert/Drain.antt =====
-- The second loop of consumeContiguous of internal/multipath/reassembly.go hands out the chain.
use niulang.Prelude.{
  ℕ, suc, ◌+◌, ◌-◌, ◌≤◌, ◌≡◌, sym, ap, ◌∙◌, arith, true, false, not, ◌&&◌, Option, none, some, List,
  ltb, ◌==◌, if◌then◌else◌, length, All, ok,
}
use niulang.MemLimit.{Budget}
use niulang.Multipath.{Segment, Reassembler, closed, find, remove, remove_order}
use niulang.Multipath.Insert.{copy_into, output, release_charge, drain}
use niulang.Multipath.Buffer.{
  IsShaped, Spread, keys, total_bytes, keys-remove, find-remove, remove-Spread, total_bytes-remove,
  sequence-find, All-find, All-remove,
}
use niulang.Multipath.Insert.Invariant.{Paid, IsCharged, IsSmall, IsBounded, charge_of}
use niulang.Multipath.Insert.Chain.{Spread-IsShaped}
use mathlib.Core.Path.{subst}

-- The loop stands at `current`, which is out of the buffer and has not been released.
pub record Ready (r : Reassembler) (current : Segment) : Type 0 where
  pub indexed : r.order ≡ keys r.buffer
  pub spread : Spread 0 r.buffer
  pub absent : find r.next r.buffer ≡ none
  pub counted : r.bytes ≡ total_bytes r.buffer
  pub frames : length r.buffer ≤ r.cfg.max_buffered_frames
  pub within : r.bytes ≤ r.cfg.max_buffered_bytes
  pub charged : All IsCharged r.buffer
  pub small : IsSmall r.cfg
  pub bounded : All IsBounded r.buffer
  pub paid : Paid r.memory (r.bytes + charge_of current)
  pub at : current.sequence ≡ r.next
  pub shaped : IsShaped current

-- What the loop has copied when it is past `current`.
abbrev pub filled_after : ℕ → ℕ → Segment → Segment → List ℕ → List ℕ
filled_after count total first current filled =
    if not (current.sequence == first.sequence) && ltb 1 count
    then copy_into total filled current.payload
    else filled

-- The state past `current`, and the one in which its successor has been taken out.
abbrev pub passed : Reassembler → Segment → Option Budget → Reassembler
passed r current m = record r { next = r.next + length current.payload; memory = m }

abbrev pub taken : Reassembler → Segment → Option Budget → Segment → Reassembler
taken r current m n =
    let next = r.next + length current.payload in
    record r {
      next = next;
      memory = m;
      buffer = remove next r.buffer;
      order = remove_order r.order next;
      bytes = r.bytes - length n.payload;
    }

-- One round of the loop.
pub drain_fin :
    (fuel count total : ℕ) (first c : Segment) (filled : List ℕ) (r : Reassembler)
    → c.final ≡ true
    → drain (suc fuel) count total first c filled r
      ≡ ok (output count total first filled, true, record r { final_at = some c.sequence })
unfolding drain
drain_fin fuel count total first c filled r fin = simp fin

pub drain_end :
    (fuel count total : ℕ) (first c : Segment) (filled : List ℕ) (r : Reassembler)
    (m : Option Budget)
    → c.final ≡ false
    → release_charge r.memory c ≡ ok m
    → find (r.next + length c.payload) r.buffer ≡ none
    → drain (suc fuel) count total first c filled r
      ≡ ok (
        output count total first (filled_after count total first c filled),
        closed (passed r c m),
        passed r c m,
      )
unfolding drain
drain_end fuel count total first c filled r m fin rel e = simp (fin, rel, e)

pub drain_next :
    (fuel count total : ℕ) (first c n : Segment) (filled : List ℕ) (r : Reassembler)
    (m : Option Budget)
    → c.final ≡ false
    → release_charge r.memory c ≡ ok m
    → find (r.next + length c.payload) r.buffer ≡ some n
    → drain (suc fuel) count total first c filled r
      ≡ drain fuel count total first n (filled_after count total first c filled) (taken r c m n)
unfolding drain
drain_next fuel count total first c n filled r m fin rel e = simp (fin, rel, e)

-- What leaves the buffer is still charged.
pub recharged :
    (k bytes : ℕ) (b : List Segment) (n : Segment)
    → All IsCharged b
    → bytes ≡ total_bytes b
    → find k b ≡ some n
    → bytes - length n.payload + charge_of n ≡ bytes
recharged k bytes b n charged counted found =
    let owed = All-find IsCharged k b n charged found in
    let e : charge_of n ≡ length n.payload = rw owed in
    omega (arith, e, (total_bytes-remove k b n found).0, counted)

-- The successor is ready in its turn.
pub taken-Ready :
    (r : Reassembler) (c n : Segment) (m : Option Budget)
    → Ready r c
    → Paid m r.bytes
    → find (r.next + length c.payload) r.buffer ≡ some n
    → Ready (taken r c m n) n
taken-Ready r c n m v p found =
    let next = r.next + length c.payload in
    let (bytes, frames) = total_bytes-remove next r.buffer n found in
    record {
      indexed =
          ap (λ o. remove_order o next) v.indexed ∙ sym (keys-remove 0 next r.buffer v.spread);
      spread = remove-Spread 0 next r.buffer v.spread;
      absent = find-remove 0 next next r.buffer v.spread ∙ ground arith;
      counted = omega (arith, bytes, v.counted);
      frames = omega (arith, frames, v.frames);
      within = omega (arith, v.within);
      charged = All-remove IsCharged next r.buffer v.charged;
      small = v.small;
      bounded = All-remove IsBounded next r.buffer v.bounded;
      paid = subst (Paid m) (sym (recharged next r.bytes r.buffer n v.charged v.counted found)) p;
      at = sequence-find next r.buffer n found;
      shaped = All-find IsShaped next r.buffer n (Spread-IsShaped 0 r.buffer v.spread) found;
    }
