-- ===== src/Fec/Examples.antt =====
-- Arithmetic of internal/fec/gf.go at some bytes.
use niulang.Prelude.{
  ℕ, ◌<◌, ◌≡◌, refl, arith, some, List, [], ◌∷◌, ◌==◌, if◌then◌else◌, length, replicate, bit_xor,
}
use niulang.Fec.{gf_mul, inv, xor_slice, mul_slice_xor}
use niulang.Fec.Field.{gf_mul-field}
use niulang.Fec.Slices.{mul_slice_xor-inv}

products : (gf_mul 2 128 ≡ 29) × (gf_mul 7 9 ≡ 63) × (inv 2 ≡ 142)
unfolding gf_mul inv
products = (refl, refl, refl)

added : mul_slice_xor 2 (128 ∷ 1 ∷ []) (1 ∷ 1 ∷ []) ≡ some (28 ∷ 3 ∷ [])
unfolding mul_slice_xor xor_slice gf_mul
added = refl

gf_mul-field_example :
    (gf_mul 7 9 < 256)
    × (gf_mul 7 9 ≡ gf_mul 9 7)
    × (gf_mul (gf_mul 7 9) 200 ≡ gf_mul 7 (gf_mul 9 200))
    × (gf_mul 7 (bit_xor 9 200) ≡ bit_xor (gf_mul 7 9) (gf_mul 7 200))
    × (gf_mul 1 7 ≡ 7)
    × (gf_mul 7 (inv 7) ≡ (if 7 == 0 then 0 else 1))
gf_mul-field_example = gf_mul-field 7 9 200 (omega arith) (omega arith) (omega arith)

mul_slice_xor-inv_example :
    (ys : List ℕ) × (mul_slice_xor 7 (9 ∷ 200 ∷ []) (replicate 2 0) ≡ some ys)
    × (mul_slice_xor (inv 7) ys (replicate (length ys) 0) ≡ some (9 ∷ 200 ∷ []))
mul_slice_xor-inv_example =
    mul_slice_xor-inv 7 (9 ∷ 200 ∷ []) (omega arith) (omega arith) (omega arith)
