-- ===== src/Multipath/Insert/Chain.antt =====
-- The chain of contiguous segments that consumeContiguous of internal/multipath/reassembly.go
-- walks twice, and the bytes of a stream that it spells.
use niulang.Prelude.{
  ℕ, zero, suc, ◌+◌, ◌-◌, ◌≤◌, ◌<◌, ◌≡◌, refl, sym, ap, ◌∙◌, arith, true, false, none, some, List,
  [], ◌∷◌, ◌++◌, length, All, if◌then◌else◌, Bool-cases, Option-cases, inl, inr, ok, length-append,
}
use niulang.Multipath.{Segment, find, remove}
use niulang.Multipath.Insert.{measure}
use niulang.Multipath.Buffer.{
  after, IsShaped, Spread, total_bytes, find-remove, sequence-find, All-find, total_bytes-remove,
  remove-Spread,
}
use native.Mathlib.Nat.{add-zero}
use mathlib.Core.List.{append-nil}

-- The data segments from `current` on, as far as the buffer continues them without a gap.
pub chain : ℕ → List Segment → Segment → List Segment
chain zero b current = []
chain (suc fuel) b current =
    let rest : List Segment = elim (find (current.sequence + length current.payload) b) [
      | none ↦ []
      | some n ↦ chain fuel b n
    ] in
    if current.final then [] else current ∷ rest

-- Where a data segment's successor begins.
abbrev pub next_of : Segment → ℕ
next_of s = s.sequence + length s.payload

pub chain_fin :
    (fuel : ℕ) (b : List Segment) (c : Segment) → c.final ≡ true → chain (suc fuel) b c ≡ []
unfolding chain
chain_fin fuel b c h = ground arith

-- In any number of rounds.
pub chain_fin_any :
    (fuel : ℕ) (b : List Segment) (c : Segment) → c.final ≡ true → chain fuel b c ≡ []
unfolding chain
chain_fin_any zero b c h = refl
chain_fin_any (suc fuel) b c h = chain_fin fuel b c h

pub chain_end :
    (fuel : ℕ) (b : List Segment) (c : Segment)
    → c.final ≡ false
    → find (next_of c) b ≡ none
    → chain (suc fuel) b c ≡ c ∷ []
unfolding chain
chain_end fuel b c h e = ground arith

pub chain_next :
    (fuel : ℕ) (b : List Segment) (c n : Segment)
    → c.final ≡ false
    → find (next_of c) b ≡ some n
    → chain (suc fuel) b c ≡ c ∷ chain fuel b n
unfolding chain
chain_next fuel b c n h e = ground arith

-- The chain of a data segment begins with it.
pub total_bytes-chain :
    (fuel : ℕ) (b : List Segment) (c : Segment)
    → c.final ≡ false
    → length c.payload ≤ total_bytes (chain (suc fuel) b c)
unfolding chain
total_bytes-chain fuel b c h = elim (Option-cases (find (next_of c) b)) [
  | inl end ↦ rw (chain_end fuel b c h end) (omega arith)
  | inr (n, found) ↦ rw (chain_next fuel b c n h found) (omega arith)
]

abbrev pub payloads : List Segment → List ℕ
payloads [] = []
payloads (s ∷ ss) = s.payload ++ payloads ss

pub length-payloads : (ss : List Segment) → length (payloads ss) ≡ total_bytes ss
length-payloads [] = refl
length-payloads (s ∷ ss) = omega (arith, length-append s.payload (payloads ss), length-payloads ss)

-- Every segment of the buffer is well shaped.
pub Spread-IsShaped : (lo : ℕ) (b : List Segment) → Spread lo b → All IsShaped b
Spread-IsShaped lo [] s = tt
Spread-IsShaped lo (t ∷ ts) s = (s.1, Spread-IsShaped (after t) ts s.2)

pub chain-remove :
    (fuel lo k : ℕ) (b : List Segment) (current : Segment)
    → Spread lo b
    → IsShaped current
    → k ≤ current.sequence
    → chain fuel (remove k b) current ≡ chain fuel b current
unfolding chain
chain-remove zero lo k b current s h l = refl
chain-remove (suc fuel) lo k b current s h l = elim (Bool-cases current.final) [
  | inl fin ↦ rw (chain_fin fuel (remove k b) current fin, chain_fin fuel b current fin)
  | inr not_fin ↦
      let next = next_of current in
      let kept : find next (remove k b) ≡ find next b =
        find-remove lo k next b s ∙ ground (arith, h.1 not_fin) in
      elim (Option-cases (find next b)) [
        | inl end ↦ rw (
          chain_end fuel (remove k b) current not_fin (kept ∙ end),
          chain_end fuel b current not_fin end,
        )
        | inr (n, found) ↦
            let shaped = All-find IsShaped next b n (Spread-IsShaped lo b s) found in
            let at = sequence-find next b n found in
            chain_next fuel (remove k b) current n not_fin (kept ∙ found)
            ∙ ap (λ t. current ∷ t)
                (chain-remove fuel lo k b n s shaped (omega (arith, h.1 not_fin)))
            ∙ sym (chain_next fuel b current n not_fin found)
      ]
]

-- Two buffers hold the same segments behind a sequence.
abbrev pub SameBehind : List Segment → List Segment → ℕ → Type 0
SameBehind b b' k = (j : ℕ) → k < j → find j b ≡ find j b'

pub SameBehind-remove :
    (lo : ℕ) (b b' : List Segment) (k next : ℕ)
    → Spread lo b'
    → SameBehind b b' k
    → k ≤ next
    → SameBehind b (remove next b') next
SameBehind-remove lo b b' k next s same le j beyond =
    same j (omega arith) ∙ sym (find-remove lo next j b' s ∙ ground (arith, beyond))

-- One round of the first loop.
measure_fin :
    (fuel : ℕ) (b : List Segment) (c : Segment) (cursor count total : ℕ)
    → c.sequence ≡ cursor
    → c.final ≡ true
    → measure (suc fuel) b c cursor count total ≡ ok (count, total)
unfolding measure
measure_fin fuel b c cursor count total at fin = ground arith

measure_end :
    (fuel : ℕ) (b : List Segment) (c : Segment) (cursor count total : ℕ)
    → c.sequence ≡ cursor
    → c.final ≡ false
    → find (cursor + length c.payload) b ≡ none
    → measure (suc fuel) b c cursor count total ≡ ok (count + 1, total + length c.payload)
unfolding measure
measure_end fuel b c cursor count total at fin e = ground arith

measure_next :
    (fuel : ℕ) (b : List Segment) (c n : Segment) (cursor count total : ℕ)
    → c.sequence ≡ cursor
    → c.final ≡ false
    → find (cursor + length c.payload) b ≡ some n
    → measure (suc fuel) b c cursor count total
      ≡ measure fuel b n (cursor + length c.payload) (count + 1) (total + length c.payload)
unfolding measure
measure_next fuel b c n cursor count total at fin e = ground arith

-- The first loop counts the chain, if it has more rounds than there are segments behind: of the
-- buffer `b` it sees only what `b'` holds.
pub measure-chain :
    (fuel lo : ℕ) (b b' : List Segment) (current : Segment) (cursor count total : ℕ)
    → Spread lo b'
    → SameBehind b b' cursor
    → IsShaped current
    → current.sequence ≡ cursor
    → length b' < fuel
    → measure fuel b current cursor count total
      ≡ ok (count + length (chain fuel b' current), total + total_bytes (chain fuel b' current))
measure-chain zero lo b b' current cursor count total s same h at l = absurd (omega arith)
measure-chain (suc fuel) lo b b' current cursor count total s same h at l =
    elim (Bool-cases current.final) [
      | inl fin ↦
          measure_fin fuel b current cursor count total at fin
          ∙ rw (chain_fin fuel b' current fin) (ap (λ t. ok t) (rw (add-zero, add-zero)))
      | inr not_fin ↦
          let next = cursor + length current.payload in
          let begins : next_of current ≡ next = omega arith in
          let seen : find next b ≡ find next b' = same next (omega (arith, h.1 not_fin)) in
          elim (Option-cases (find next b')) [
            | inl end ↦
                measure_end fuel b current cursor count total at not_fin (seen ∙ end)
                ∙ rw (chain_end fuel b' current not_fin (ap (λ k. find k b') begins ∙ end))
                    (ground arith)
            | inr (n, found) ↦
                let b'' = remove next b' in
                let shaped = All-find IsShaped next b' n (Spread-IsShaped lo b' s) found in
                let starts = sequence-find next b' n found in
                measure_next fuel b current n cursor count total at not_fin (seen ∙ found)
                ∙ measure-chain fuel lo b b'' n next (count + 1) (total + length current.payload)
                    (remove-Spread lo next b' s)
                    (SameBehind-remove lo b b' cursor next s same (omega arith)) shaped starts
                    (omega (arith, (total_bytes-remove next b' n found).1))
                ∙ rw
                    (
                      chain-remove fuel lo next b' n s shaped (omega (arith, starts)),
                      chain_next fuel b' current n not_fin (ap (λ k. find k b') begins ∙ found),
                    )
                    (ground arith)
          ]
    ]

-- The stream's bytes from `a` on.
abbrev pub range : (ℕ → ℕ) → ℕ → ℕ → List ℕ
range stream a zero = []
range stream a (suc n) = stream a ∷ range stream (a + 1) n

pub range_empty : (stream : ℕ → ℕ) (a : ℕ) → range stream a (a - a) ≡ []
range_empty stream a = let z : a - a ≡ 0 = omega arith in rw z

pub range_add :
    (stream : ℕ → ℕ) (a m n : ℕ)
    → range stream a (m + n) ≡ range stream a m ++ range stream (a + m) n
range_add stream a zero n =
    let e : 0 + n ≡ n = omega arith in let q : a + 0 ≡ a = omega arith in rw (e, q)
range_add stream a (suc m) n =
    let e : suc m + n ≡ suc (m + n) = omega arith in
    let q : a + suc m ≡ a + 1 + m = omega arith in
    rw (e, q) (ap (λ t. stream a ∷ t) (range_add stream (a + 1) m n))

-- A segment carries the stream's bytes.
abbrev pub Agrees : (ℕ → ℕ) → Segment → Type 0
Agrees stream s = s.payload ≡ range stream s.sequence (length s.payload)

pub payloads-chain :
    (stream : ℕ → ℕ) (fuel : ℕ) (b : List Segment) (current : Segment)
    → All (Agrees stream) b
    → Agrees stream current
    → payloads (chain fuel b current)
      ≡ range stream current.sequence (total_bytes (chain fuel b current))
unfolding chain
payloads-chain stream zero b current a h = refl
payloads-chain stream (suc fuel) b current a h = elim (Bool-cases current.final) [
  | inl fin ↦ rw (chain_fin fuel b current fin)
  | inr not_fin ↦ elim (Option-cases (find (next_of current) b)) [
    | inl end ↦
        let e : length current.payload + 0 ≡ length current.payload = omega arith in
        rw (chain_end fuel b current not_fin end)
          (append-nil current.payload ∙ h ∙ ap (range stream current.sequence) (sym e))
    | inr (n, found) ↦
        let agrees = All-find (Agrees stream) (next_of current) b n a found in
        let at = sequence-find (next_of current) b n found in
        let rest = total_bytes (chain fuel b n) in
        rw (chain_next fuel b current n not_fin found) (
          ap (λ t. current.payload ++ t) (payloads-chain stream fuel b n a agrees)
          ∙ ap (λ t. t ++ range stream n.sequence rest) h
          ∙ ap (λ k. range stream current.sequence (length current.payload) ++ range stream k rest)
              at
          ∙ sym (range_add stream current.sequence (length current.payload) rest))
  ]
]
