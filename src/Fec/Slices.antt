-- ===== src/Fec/Slices.antt =====
-- mulSliceXor of internal/fec/gf.go.
use niulang.Prelude.{
  ℕ, ◌≤◌, ◌<◌, ◌≡◌, refl, sym, ap, ◌∙◌, arith, Bool, true, false, Option, none, some, List, [], ◌∷◌,
  ◌==◌, if◌then◌else◌, length, replicate, All, map, bit_xor, Bool-cases, inl, inr,
}
use niulang.Fec.{gf_mul, inv, xor_slice, mul_slice_xor}
use niulang.Fec.Powers.{all_below, all_below-true}
use niulang.Fec.Field.{
  gf_mul-lt, gf_mul_comm, gf_mul_assoc, gf_mul-inv, gf_mul-one, inv-lt, inv-pos,
}

xor_zero_table : all_below 256 (λ x. bit_xor 0 x == x) ≡ true
xor_zero_table = refl

-- Into zeros, the loop writes the table's entries.
xor_slice-zeros :
    (table : ℕ → ℕ) (xs : List ℕ)
    → All (λ x. table x < 256) xs
    → xor_slice table xs (replicate (length xs) 0) ≡ some (map table xs)
unfolding xor_slice
xor_slice-zeros table [] h = refl
xor_slice-zeros table (x ∷ xs) h =
    let e = all_below-true 256 (λ k. bit_xor 0 k == k) xor_zero_table (table x) h.0 in
    let same : bit_xor 0 (table x) ≡ table x = ground (arith, e) in
    let next : Option (List ℕ) → Option (List ℕ) = λ o. elim o as (λ _. Option (List ℕ)) [
      | none ↦ none
      | some rest ↦ some (bit_xor 0 (table x) ∷ rest)
    ] in
    ap next (xor_slice-zeros table xs h.1) ∙ ap (λ k. some (k ∷ map table xs)) same

scaled-bytes :
    (c : ℕ) (xs : List ℕ) → c < 256 → All (λ x. x < 256) xs → All (λ x. x < 256) (map (gf_mul c) xs)
scaled-bytes c [] l h = tt
scaled-bytes c (x ∷ xs) l h = (gf_mul-lt c x l h.0, scaled-bytes c xs l h.1)

map-one : (xs : List ℕ) → All (λ x. x < 256) xs → map (λ x. x) xs ≡ map (gf_mul 1) xs
map-one [] h = refl
map-one (x ∷ xs) h =
    ap (λ k. k ∷ map (λ x. x) xs) (sym (gf_mul-one x h.0))
    ∙ ap (λ t. gf_mul 1 x ∷ t) (map-one xs h.1)

entries : (c : ℕ) (xs : List ℕ) → c < 256 → All (λ x. x < 256) xs → All (λ x. gf_mul c x < 256) xs
entries c [] l h = tt
entries c (x ∷ xs) l h = (gf_mul-lt c x l h.0, entries c xs l h.1)

mul_slice_xor-zeros :
    (c : ℕ) (xs : List ℕ)
    → 1 ≤ c
    → c < 256
    → All (λ x. x < 256) xs
    → mul_slice_xor c xs (replicate (length xs) 0) ≡ some (map (gf_mul c) xs)
unfolding mul_slice_xor
mul_slice_xor-zeros c xs one l h =
    let out : List ℕ = replicate (length xs) 0 in
    let some_c : (c == 0) ≡ false = ground (arith, one) in
    let second : Bool → Option (List ℕ) =
      λ t. if t then xor_slice (λ x. x) xs out else xor_slice (gf_mul c) xs out in
    let rest : second (c == 1) ≡ some (map (gf_mul c) xs) = elim (Bool-cases (c == 1)) [
      | inl plain ↦
          let e : 1 ≡ c = ground (arith, plain) in
          ap second plain
          ∙ xor_slice-zeros (λ x. x) xs h
          ∙ ap some (map-one xs h)
          ∙ ap (λ k. some (map (gf_mul k) xs)) e
      | inr other ↦ ap second other ∙ xor_slice-zeros (gf_mul c) xs (entries c xs l h)
    ] in
    ap (λ t. if t then some out else second (c == 1)) some_c ∙ rest

unscale :
    (c : ℕ) (xs : List ℕ)
    → 1 ≤ c
    → c < 256
    → All (λ x. x < 256) xs
    → map (gf_mul (inv c)) (map (gf_mul c) xs) ≡ xs
unscale c [] one l h = refl
unscale c (x ∷ xs) one l h =
    ap (λ k. k ∷ map (gf_mul (inv c)) (map (gf_mul c) xs))
      (sym (gf_mul_assoc (inv c) c x (inv-lt c l) l h.0)
        ∙ ap (λ k. gf_mul k x) (gf_mul_comm (inv c) c ∙ gf_mul-inv c one l)
        ∙ gf_mul-one x h.0)
    ∙ ap (λ t. x ∷ t) (unscale c xs one l h.1)

-- A slice that mulSliceXor writes into zeros, and another that it writes from it with the inverse of
-- the coefficient: the second is the input again.
pub mul_slice_xor-inv :
    (c : ℕ) (xs : List ℕ)
    → 1 ≤ c
    → c < 256
    → All (λ x. x < 256) xs
    → (ys : List ℕ) × (mul_slice_xor c xs (replicate (length xs) 0) ≡ some ys)
      × (mul_slice_xor (inv c) ys (replicate (length ys) 0) ≡ some xs)
mul_slice_xor-inv c xs one l h =
    let ys = map (gf_mul c) xs in
    (
      ys,
      mul_slice_xor-zeros c xs one l h,
      mul_slice_xor-zeros (inv c) ys (inv-pos c one l) (inv-lt c l) (scaled-bytes c xs l h)
          ∙ ap some (unscale c xs one l h),
    )
