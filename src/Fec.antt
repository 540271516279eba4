-- ===== src/Fec.antt =====
-- The arithmetic of internal/fec/gf.go in the field of bytes. The tables that init fills are computed
-- here as lists, of which an index out of range cannot be taken.
pub mod Powers
pub mod Field
pub mod Slices
mod Examples
use niulang.Prelude.{
  ℕ, zero, suc, ◌+◌, ◌-◌, ◌*◌, Bool, true, false, not, ◌||◌, Option, none, some, List, [], ◌∷◌,
  ◌++◌, ltb, ◌==◌, if◌then◌else◌, length, get_or, take, bit_and, bit_xor,
}

abbrev pub primitive_polynomial : ℕ
primitive_polynomial = 285

-- A step of the loop that fills the table of powers: `x <<= 1`, and the reduction.
abbrev pub double : ℕ → ℕ
double x = let y = x * 2 in if bit_and y 256 == 0 then y else bit_xor y primitive_polynomial

abbrev pub powers : ℕ → ℕ → List ℕ
powers zero x = []
powers (suc n) x = x ∷ powers n (double x)

abbrev pub first_powers : List ℕ
first_powers = powers 255 1

-- gfExp: 255 powers, and again from the first one up to 512 entries.
abbrev pub gf_exp : List ℕ
gf_exp = first_powers ++ (first_powers ++ take 2 first_powers)

-- The exponent at which a power stands; gfLog[0] is never written.
abbrev pub place : ℕ → ℕ → List ℕ → ℕ
place a i [] = 0
place a i (x ∷ xs) = if x == a then i else place a (suc i) xs

abbrev pub gf_log : ℕ → ℕ
gf_log a = place a 0 first_powers

-- An entry of gfMul; those of zero are never written.
pub gf_mul : ℕ → ℕ → ℕ
gf_mul a b = if a == 0 || b == 0 then 0 else get_or gf_exp (gf_log a + gf_log b) 0

pub inv : ℕ → ℕ
inv a = if a == 0 then 0 else get_or gf_exp (255 - gf_log a) 0

-- The loop of mulSliceXor; `none` is the panic on an input that is shorter than the output.
pub xor_slice : (ℕ → ℕ) → List ℕ → List ℕ → Option (List ℕ)
xor_slice table xs [] = some []
xor_slice table [] (y ∷ ys) = none
xor_slice table (x ∷ xs) (y ∷ ys) = elim (xor_slice table xs ys) [
  | none ↦ none
  | some rest ↦ some (bit_xor y (table x) ∷ rest)
]

pub mul_slice_xor : ℕ → List ℕ → List ℕ → Option (List ℕ)
mul_slice_xor coefficient xs out =
    if coefficient == 0
    then some out
    else if coefficient == 1
    then xor_slice (λ x. x) xs out
    else xor_slice (gf_mul coefficient) xs out
