-- ===== src/Prelude/Bytes.antt =====
-- Bytes as numbers, and Go's encoding/binary in big-endian order: PutUint16, PutUint32, PutUint64,
-- AppendUint64 and their readers, as one writer and one reader of a given width.
use Prim.Native.Nat.{ℕ, zero, suc, ◌+◌, ◌*◌, ◌/◌, ◌%◌, ◌^◌, ◌≤◌, ◌<◌}
use mathlib.Core.Path.{◌≡◌, refl, sym, ◌∙◌}
use mathlib.Core.List.{List, [], ◌∷◌, ◌++◌}
use native.Mathlib.Omega.{arith}
use native.Mathlib.Nat.{pow-suc}
use mathlib.Core.List.{append-nil, append_assoc}
use niulang.Prelude.Lists.{length, length-append, All, All-append}

abbrev pub IsByte : ℕ → Type 0
IsByte b = b < 256

-- `k` bytes of `v`, the highest first.
unfoldable pub put_be : ℕ → ℕ → List ℕ
put_be zero v = []
put_be (suc k) v = put_be k (v / 256) ++ (v % 256 ∷ [])

-- The number that bytes spell, behind those read so far.
unfoldable pub get_be_from : ℕ → List ℕ → ℕ
get_be_from acc [] = acc
get_be_from acc (b ∷ bs) = get_be_from (acc * 256 + b) bs

unfoldable pub get_be : List ℕ → ℕ
unfolding get_be_from
get_be bs = get_be_from 0 bs

pub length-put_be : (k v : ℕ) → length (put_be k v) ≡ k
unfolding put_be
length-put_be zero v = refl
length-put_be (suc k) v =
    omega (arith, length-append (put_be k (v / 256)) (v % 256 ∷ []), length-put_be k (v / 256))

pub put_be-IsByte : (k v : ℕ) → All IsByte (put_be k v)
unfolding put_be
put_be-IsByte zero v = tt
put_be-IsByte (suc k) v =
    All-append IsByte (put_be k (v / 256)) (v % 256 ∷ []) (put_be-IsByte k (v / 256)) (omega arith)

pub get_be_from-append :
    (acc : ℕ) (xs ys : List ℕ) → get_be_from acc (xs ++ ys) ≡ get_be_from (get_be_from acc xs) ys
unfolding get_be_from
get_be_from-append acc [] ys = refl
get_be_from-append acc (x ∷ xs) ys = get_be_from-append (acc * 256 + x) xs ys

pub get_be_from-put_be :
    (k v acc : ℕ) → v < 256 ^ k → get_be_from acc (put_be k v) ≡ acc * 256 ^ k + v
unfolding put_be get_be_from
get_be_from-put_be zero v acc h = omega arith
get_be_from-put_be (suc k) v acc h =
    let low : v / 256 < 256 ^ k = omega (arith, pow-suc 256 k) in
    get_be_from-append acc (put_be k (v / 256)) (v % 256 ∷ [])
    ∙ rw pow-suc (omega (arith, get_be_from-put_be k (v / 256) acc low))

-- What was written in `k` bytes is read back.
pub get_be-put_be : (k v : ℕ) → v < 256 ^ k → get_be (put_be k v) ≡ v
unfolding get_be
get_be-put_be k v h = omega (arith, get_be_from-put_be k v 0 h)

pub put_be-get_be_from :
    (j acc : ℕ) (xs : List ℕ)
    → All IsByte xs
    → put_be (j + length xs) (get_be_from acc xs) ≡ put_be j acc ++ xs
unfolding put_be get_be_from
put_be-get_be_from j acc [] h = let e : j + 0 ≡ j = omega arith in rw (e, append-nil)
put_be-get_be_from j acc (x ∷ xs) h =
    let e : j + suc (length xs) ≡ suc j + length xs = omega arith in
    let q : (acc * 256 + x) / 256 ≡ acc = omega arith in
    let r : (acc * 256 + x) % 256 ≡ x = omega arith in
    rw e (put_be-get_be_from (suc j) (acc * 256 + x) xs h.1 ∙ rw (q, r, append_assoc) refl)

-- Bytes that were read are written again.
pub put_be-get_be :
    (k : ℕ) (xs : List ℕ) → length xs ≡ k → All IsByte xs → put_be k (get_be xs) ≡ xs
unfolding get_be put_be
put_be-get_be k xs l h =
    let e : k ≡ 0 + length xs = omega arith in rw e (put_be-get_be_from 0 0 xs h)

scale : (a b p : ℕ) → a ≤ b → a * p ≤ b * p
scale a b p h = grind arith

pub get_be_from-lt :
    (acc : ℕ) (xs : List ℕ) → All IsByte xs → get_be_from acc xs < (acc + 1) * 256 ^ length xs
unfolding get_be_from
get_be_from-lt acc [] h = omega arith
get_be_from-lt acc (x ∷ xs) h = rw pow-suc (
    grind (
      arith,
      scale (acc * 256 + x + 1) (acc * 256 + 256) (256 ^ length xs),
      get_be_from-lt (acc * 256 + x) xs h.1,
    ))

pub get_be-lt : (k : ℕ) (xs : List ℕ) → length xs ≡ k → All IsByte xs → get_be xs < 256 ^ k
unfolding get_be
get_be-lt k xs l h = rw (sym l) (omega (arith, get_be_from-lt 0 xs h))
