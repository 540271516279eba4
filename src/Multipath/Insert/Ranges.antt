-- ===== src/Multipath/Insert/Ranges.antt =====
-- What ReceivedRanges of internal/multipath/reassembly.go reports.
use niulang.Prelude.{
  ℕ, zero, suc, ◌+◌, ◌^◌, ◌≤◌, ◌<◌, ◌≡◌, refl, ◌∙◌, arith, ◌||◌, Option, none, some, List, [], ◌∷◌,
  ◌==◌, length, take, All, Bool-cases, inl, inr,
}
use niulang.Protocol.AckRanges.{Range, Ascends}
use niulang.Protocol.AckRanges.Codec.{IsU64Range}
use niulang.Multipath.{Segment, Reassembler, at_key}
use niulang.Multipath.Buffer.{after, after-lt, Spread, keys}
use niulang.Multipath.Neighbours.{at_key-skip, at_key-head}
use niulang.Multipath.Insert.{extend, received_ranges}
use niulang.Multipath.Insert.Invariant.{IsBounded, IsValid}

-- The map gives a segment back at its own key.
abbrev AtKey : List Segment → Segment → Type 0
AtKey b s = at_key b s.sequence ≡ s

AtKey-skip :
    (lo : ℕ) (t : Segment) (ts ss : List Segment)
    → Spread lo ss
    → t.sequence < lo
    → All (AtKey ts) ss
    → All (AtKey (t ∷ ts)) ss
AtKey-skip lo t ts [] s h a = tt
AtKey-skip lo t ts (u ∷ us) s h a = (
  at_key-skip t ts u.sequence (omega (arith, s.0)) ∙ a.0,
  AtKey-skip (after u) t ts us s.2 (omega (arith, s.0, after-lt u s.1)) a.1,
)

Spread-AtKey : (lo : ℕ) (b : List Segment) → Spread lo b → All (AtKey b) b
Spread-AtKey lo [] s = tt
Spread-AtKey lo (t ∷ ts) s = (
  at_key-head t ts,
  AtKey-skip (after t) t ts ts s.2 (after-lt t s.1) (Spread-AtKey (after t) ts s.2),
)

-- The range in hand is not empty, begins at `bound` or behind, and ends before the next segment.
abbrev Pending : ℕ → Option Range → ℕ → Type 0
Pending bound none lo = bound ≤ lo
Pending bound (some (a, b)) lo = (bound ≤ a) × (a < b) × (b ≤ lo)

Pending-le :
    (bound : ℕ) (last : Option Range) (a b : ℕ)
    → a ≤ b
    → Pending bound last a
    → Pending bound last b
Pending-le bound none a b h p = omega arith
Pending-le bound (some (x, y)) a b h p = (p.0, p.1, omega (arith, p.2))

extend-Ascends :
    (bound lo : ℕ) (b ss : List Segment) (last : Option Range)
    → Spread lo ss
    → All (AtKey b) ss
    → Pending bound last lo
    → Ascends bound (extend b (keys ss) last)
unfolding extend
extend-Ascends bound lo b [] none s a p = tt
extend-Ascends bound lo b [] (some (x, y)) s a p = (p.0, p.1, tt)
extend-Ascends bound lo b (t ∷ ts) none s a p = elim (Bool-cases t.final) [
  | inl fin ↦
      simp (a.0, fin)
        (extend-Ascends bound (after t) b ts none s.2 a.1 (omega (arith, after-lt t s.1, s.0, p)))
  | inr bytes ↦
      let ends : after t ≡ t.sequence + length t.payload = rw bytes refl in
      simp (a.0, bytes)
        (extend-Ascends bound (after t) b ts (some (t.sequence, t.sequence + length t.payload)) s.2
          a.1 (omega (arith, s.0), omega (arith, s.1.1 bytes), omega (arith, ends)))
]
extend-Ascends bound lo b (t ∷ ts) (some (x, y)) s a p = elim (Bool-cases t.final) [
  | inl fin ↦
      simp (a.0, fin)
        (extend-Ascends bound (after t) b ts (some (x, y)) s.2 a.1
          (p.0, p.1, omega (arith, after-lt t s.1, s.0, p.2)))
  | inr bytes ↦
      let end = t.sequence + length t.payload in
      let ends : after t ≡ end = rw bytes refl in
      elim (Bool-cases (y == t.sequence)) [
        | inl joined ↦
            simp (a.0, bytes, joined)
              (extend-Ascends bound (after t) b ts (some (x, end)) s.2 a.1
                (p.0, omega (arith, p.1, p.2, s.0), omega (arith, ends)))
        | inr apart ↦
            simp (a.0, bytes, apart)
              (
                p.0,
                p.1,
                extend-Ascends y (after t) b ts (some (t.sequence, end)) s.2 a.1
                    (omega (arith, p.2, s.0), omega (arith, s.1.1 bytes), omega (arith, ends)),
              )
      ]
]

-- No range ends at 2^64 or behind.
abbrev EndsBounded : Option Range → Type 0
EndsBounded none = Unit {0}
EndsBounded (some (a, b)) = (a < 2 ^ 64) × (b < 2 ^ 64)

extend-IsU64Range :
    (b ss : List Segment) (last : Option Range)
    → All (AtKey b) ss
    → All IsBounded ss
    → EndsBounded last
    → All IsU64Range (extend b (keys ss) last)
unfolding extend
extend-IsU64Range b [] none a u e = tt
extend-IsU64Range b [] (some (x, y)) a u e = (e, tt)
extend-IsU64Range b (t ∷ ts) none a u e = elim (Bool-cases t.final) [
  | inl fin ↦ simp (a.0, fin) (extend-IsU64Range b ts none a.1 u.1 tt)
  | inr bytes ↦
      simp (a.0, bytes)
        (extend-IsU64Range b ts (some (t.sequence, t.sequence + length t.payload)) a.1 u.1
          (omega (arith, u.0), u.0))
]
extend-IsU64Range b (t ∷ ts) (some (x, y)) a u e = elim (Bool-cases t.final) [
  | inl fin ↦ simp (a.0, fin) (extend-IsU64Range b ts (some (x, y)) a.1 u.1 e)
  | inr bytes ↦
      let end = t.sequence + length t.payload in
      elim (Bool-cases (y == t.sequence)) [
        | inl joined ↦
            simp (a.0, bytes, joined) (extend-IsU64Range b ts (some (x, end)) a.1 u.1 (e.0, u.0))
        | inr apart ↦
            simp (a.0, bytes, apart)
              (e, extend-IsU64Range b ts (some (t.sequence, end)) a.1 u.1 (omega (arith, u.0), u.0))
      ]
]

take-Ascends : (n bound : ℕ) (rs : List Range) → Ascends bound rs → Ascends bound (take n rs)
take-Ascends zero bound rs h = tt
take-Ascends (suc n) bound [] h = tt
take-Ascends (suc n) bound ((a, b) ∷ rs) h = (h.0, h.1, take-Ascends n b rs h.2)

take-IsU64Range : (n : ℕ) (rs : List Range) → All IsU64Range rs → All IsU64Range (take n rs)
take-IsU64Range zero rs h = tt
take-IsU64Range (suc n) [] h = tt
take-IsU64Range (suc n) (r ∷ rs) h = (h.0, take-IsU64Range n rs h.1)

length-take_le : (n : ℕ) (rs : List Range) → length (take n rs) ≤ n
length-take_le zero rs = omega arith
length-take_le (suc n) [] = omega arith
length-take_le (suc n) (r ∷ rs) = omega (arith, length-take_le n rs)

-- What a valid reassembler reports ascends, in uint64 ranges, no more of them than asked for.
pub record Reported (max : ℕ) (rs : List Range) : Type 0 where
  pub ascends : Ascends 0 rs
  pub bounded : All IsU64Range rs
  pub few : length rs ≤ max

pub received_ranges-Reported :
    (r : Reassembler) (max : ℕ) → IsValid r → Reported max (received_ranges r max)
unfolding received_ranges
received_ranges-Reported r max v = elim (Bool-cases (max == 0 || length r.buffer == 0)) [
  | inl nothing ↦ rw nothing (record { ascends = tt; bounded = tt; few = omega arith })
  | inr some_frames ↦
      let at = Spread-AtKey 0 r.buffer v.spread in
      let rs = extend r.buffer (keys r.buffer) none in
      simp (some_frames, v.indexed)
        (record {
          ascends =
              take-Ascends max 0 rs
                (extend-Ascends 0 0 r.buffer r.buffer none v.spread at (omega arith));
          bounded =
              take-IsU64Range max rs (extend-IsU64Range r.buffer r.buffer none at v.bounded tt);
          few = length-take_le max rs;
        })
]
