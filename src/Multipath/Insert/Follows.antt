-- ===== src/Multipath/Insert/Follows.antt =====
-- What the buffer of internal/multipath/reassembly.go holds from a sequence on, apart from the loops
-- of consumeContiguous, and that their chain is that.
use niulang.Prelude.{
  ℕ, zero, suc, ◌+◌, ◌<◌, ◌≡◌, refl, sym, ap, ◌∙◌, arith, true, false, none, some, List, [], ◌∷◌,
  ◌++◌, length, Bool-cases, Option-cases, inl, inr,
}
use niulang.Multipath.{Segment, find, remove}
use niulang.Multipath.Buffer.{
  IsShaped, Spread, total_bytes, sequence-find, All-find, total_bytes-remove, remove-Spread,
}
use niulang.Multipath.Insert.Chain.{
  chain, next_of, chain_fin_any, chain_end, chain_next, chain-remove, payloads, Spread-IsShaped,
  SameBehind, SameBehind-remove,
}
use mathlib.Core.Path.{subst}

-- The data segments that the buffer holds one behind the other from the sequence `at` on carry the
-- bytes `rest`, and end at `last`, where no buffered segment begins or a FIN does.
pub data Follows (b : List Segment) : ℕ → List ℕ → ℕ → Type 0 where
  nothing : (at : ℕ) → find at b ≡ none → Follows b at [] at
  final_next : (at : ℕ) (t : Segment) → find at b ≡ some t → t.final ≡ true → Follows b at [] at
  data_next :
      (at last : ℕ) (t : Segment) (rest : List ℕ)
      → find at b ≡ some t
      → t.final ≡ false
      → Follows b (at + length t.payload) rest last
      → Follows b at (t.payload ++ rest) last

-- What is behind the segment `c`, once the chain from it is known.
pub record Behind (b : List Segment) (c : Segment) (ss : List Segment) : Type 0 where
  pub rest : List ℕ
  pub bytes : payloads ss ≡ c.payload ++ rest
  pub follows : Follows b (next_of c) rest (c.sequence + total_bytes ss)

Behind-one :
    (b : List Segment) (c : Segment) → Follows b (next_of c) [] (next_of c) → Behind b c (c ∷ [])
Behind-one b c f = record {
  rest = [];
  bytes = refl;
  follows = subst (Follows b (next_of c) []) (omega arith) f;
}

Behind-next :
    (b : List Segment) (c n : Segment) (ss : List Segment)
    → find (next_of c) b ≡ some n
    → n.sequence ≡ next_of c
    → n.final ≡ false
    → Behind b n ss
    → Behind b c (c ∷ ss)
Behind-next b c n ss found at more h = record {
  rest = n.payload ++ h.rest;
  bytes = ap (λ t. c.payload ++ t) h.bytes;
  follows = data_next (next_of c) (c.sequence + total_bytes (c ∷ ss)) n h.rest found more (
      subst (λ k. Follows b (k + length n.payload) h.rest (c.sequence + total_bytes (c ∷ ss))) at
        (subst (Follows b (next_of n) h.rest) (omega (arith, at)) h.follows));
}

-- The chain of a data segment is what follows it, if there are more rounds than segments behind: of
-- the buffer `b` it sees only what `b'` holds.
pub chain-Behind :
    (fuel lo : ℕ) (b b' : List Segment) (c : Segment)
    → Spread lo b'
    → SameBehind b b' c.sequence
    → IsShaped c
    → c.final ≡ false
    → length b' < fuel
    → Behind b c (chain fuel b' c)
chain-Behind zero lo b b' c s same h more l = absurd (omega arith)
chain-Behind (suc fuel) lo b b' c s same h more l =
    let next = next_of c in
    let seen : find next b ≡ find next b' = same next (omega (arith, h.1 more)) in
    elim (Option-cases (find next b')) [
      | inl end ↦
          subst (Behind b c) (sym (chain_end fuel b' c more end))
            (Behind-one b c (nothing next (seen ∙ end)))
      | inr (n, found) ↦
          let at = sequence-find next b' n found in
          let step = chain_next fuel b' c n more found in
          elim (Bool-cases n.final) [
            | inl final ↦
                subst (Behind b c) (sym (step ∙ ap (λ t. c ∷ t) (chain_fin_any fuel b' n final)))
                  (Behind-one b c (final_next next n (seen ∙ found) final))
            | inr not_fin ↦
                let b'' = remove next b' in
                let shaped = All-find IsShaped next b' n (Spread-IsShaped lo b' s) found in
                let kept = chain-remove fuel lo next b' n s shaped (omega (arith, at)) in
                let less : length b'' < fuel =
                  omega (arith, (total_bytes-remove next b' n found).1) in
                let still : SameBehind b b'' n.sequence =
                  subst (SameBehind b b'') (sym at)
                    (SameBehind-remove lo b b' c.sequence next s same (omega arith)) in
                subst (Behind b c) (sym step) (
                  Behind-next b c n (chain fuel b' n) (seen ∙ found) at not_fin (
                    subst (Behind b n) kept (
                      chain-Behind fuel lo b b'' n (remove-Spread lo next b' s) still shaped not_fin
                        less)))
          ]
    ]
