-- ===== src/Multipath/Buffer.antt =====
-- The map and the order index of internal/multipath/reassembly.go: they hold the same sequences,
-- of segments that do not overlap.
use niulang.Prelude.{
  ℕ, suc, ◌+◌, ◌≤◌, ◌<◌, ◌≡◌, refl, arith, true, false, none, some, List, [], ◌∷◌, ltb, ◌==◌,
  if◌then◌else◌, length, All, Bool-cases, inl, inr,
}
use mathlib.Core.Path.{subst}
use niulang.Multipath.{Segment, find, put, remove, search, insert_order, remove_order}

-- The first sequence that a later segment may have.
abbrev pub after : Segment → ℕ
after s = s.sequence + (if s.final then 1 else length s.payload)

-- A FIN carries no bytes and a data segment carries some.
abbrev pub IsShaped : Segment → Type 0
IsShaped s = (s.final ≡ true → length s.payload ≡ 0) × (s.final ≡ false → 0 < length s.payload)

-- Well-shaped segments by ascending sequence that do not overlap, the first from `lo` on.
abbrev pub Spread : ℕ → List Segment → Type 0
Spread lo [] = Unit {0}
Spread lo (s ∷ ss) = (lo ≤ s.sequence) × IsShaped s × Spread (after s) ss

abbrev pub keys : List Segment → List ℕ
keys [] = []
keys (s ∷ ss) = s.sequence ∷ keys ss

abbrev pub total_bytes : List Segment → ℕ
total_bytes [] = 0
total_bytes (s ∷ ss) = length s.payload + total_bytes ss

pub after-lt : (s : Segment) → IsShaped s → s.sequence < after s
after-lt s h = elim (Bool-cases s.final) [
  | inl fin ↦ rw fin (omega arith)
  | inr some_bytes ↦ rw some_bytes (omega (arith, h.1 some_bytes))
]

pub Spread-le : (lo hi : ℕ) (b : List Segment) → lo ≤ hi → Spread hi b → Spread lo b
Spread-le lo hi [] h s = tt
Spread-le lo hi (t ∷ ts) h s = (omega arith, s.1, s.2)

pub find-below : (lo k : ℕ) (b : List Segment) → Spread lo b → k < lo → find k b ≡ none
unfolding find
find-below lo k [] s h = refl
find-below lo k (t ∷ ts) s h =
    ground (arith, find-below (after t) k ts s.2 (omega (arith, after-lt t s.1)))

pub keys-put :
    (s : Segment) (b : List Segment)
    → find s.sequence b ≡ none
    → keys (put s b) ≡ insert_order (keys b) s.sequence
unfolding put insert_order search find
keys-put s [] h = refl
keys-put s (t ∷ ts) h = ground (arith, keys-put s ts)

pub find-put :
    (s : Segment) (b : List Segment) (k : ℕ)
    → find s.sequence b ≡ none
    → find k (put s b) ≡ (if s.sequence == k then some s else find k b)
unfolding put find
find-put s [] k h = refl
find-put s (t ∷ ts) k h = ground (arith, find-put s ts k)

remove-absent : (k : ℕ) (b : List Segment) → find k b ≡ none → remove k b ≡ b
unfolding remove find
remove-absent k [] h = refl
remove-absent k (t ∷ ts) h = ground (arith, remove-absent k ts)

pub keys-remove :
    (lo k : ℕ) (b : List Segment) → Spread lo b → keys (remove k b) ≡ remove_order (keys b) k
unfolding remove remove_order search
keys-remove lo k [] s = refl
keys-remove lo k (t ∷ ts) s = ground (
  arith,
  keys-remove (after t) k ts s.2,
  remove-absent k ts,
  find-below (after t) k ts s.2,
  after-lt t s.1,
)

pub find-remove :
    (lo k j : ℕ) (b : List Segment)
    → Spread lo b
    → find j (remove k b) ≡ (if k == j then none else find j b)
unfolding remove find
find-remove lo k j [] s = ground arith
find-remove lo k j (t ∷ ts) s =
    ground (arith, find-remove (after t) k j ts s.2, find-below (after t) j ts s.2, after-lt t s.1)

pub remove-Spread : (lo k : ℕ) (b : List Segment) → Spread lo b → Spread lo (remove k b)
unfolding remove
remove-Spread lo k [] s = tt
remove-Spread lo k (t ∷ ts) s = elim (Bool-cases (t.sequence == k)) [
  | inl hit ↦ rw hit (Spread-le lo (after t) ts (omega (arith, after-lt t s.1)) s.2)
  | inr miss ↦ rw miss (s.0, s.1, remove-Spread (after t) k ts s.2)
]

pub total_bytes-put :
    (s : Segment) (b : List Segment)
    → find s.sequence b ≡ none
    → total_bytes (put s b) ≡ length s.payload + total_bytes b
unfolding put find
total_bytes-put s [] h = refl
total_bytes-put s (t ∷ ts) h = ground (arith, total_bytes-put s ts)

pub length-put :
    (s : Segment) (b : List Segment) → find s.sequence b ≡ none → length (put s b) ≡ length b + 1
unfolding put find
length-put s [] h = refl
length-put s (t ∷ ts) h = ground (arith, length-put s ts)

pub total_bytes-remove :
    (k : ℕ) (b : List Segment) (s : Segment)
    → find k b ≡ some s
    → (total_bytes b ≡ length s.payload + total_bytes (remove k b))
      × (length b ≡ suc (length (remove k b)))
unfolding remove find
total_bytes-remove k [] s h = cc
total_bytes-remove k (t ∷ ts) s h = elim (Bool-cases (t.sequence == k)) [
  | inl hit ↦ ground arith
  | inr miss ↦ ground (arith, total_bytes-remove k ts s (ground arith))
]

module _ {κ} (P : Segment → Type κ) where
  pub All-put : (s : Segment) (b : List Segment) → P s → All P b → All P (put s b)
  unfolding put
  All-put s [] h a = (h, tt)
  All-put s (t ∷ ts) h a = elim (Bool-cases (ltb t.sequence s.sequence)) [
    | inl before ↦ rw before (a.0, All-put s ts h a.1)
    | inr behind ↦ elim (Bool-cases (t.sequence == s.sequence)) [
      | inl same ↦ rw (behind, same) (h, a.1)
      | inr apart ↦ rw (behind, apart) (h, (a.0, a.1))
    ]
  ]

  pub All-remove : (k : ℕ) (b : List Segment) → All P b → All P (remove k b)
  unfolding remove
  All-remove k [] a = tt
  All-remove k (t ∷ ts) a = elim (Bool-cases (t.sequence == k)) [
    | inl hit ↦ rw hit a.1
    | inr miss ↦ rw miss (a.0, All-remove k ts a.1)
  ]

  pub All-find : (k : ℕ) (b : List Segment) (s : Segment) → All P b → find k b ≡ some s → P s
  unfolding find
  All-find k [] s a h = absurd (cc)
  All-find k (t ∷ ts) s a h = elim (Bool-cases (t.sequence == k)) [
    | inl hit ↦ subst P (ground arith) a.0
    | inr miss ↦ All-find k ts s a.1 (rw miss at h)
  ]

pub sequence-find : (k : ℕ) (b : List Segment) (s : Segment) → find k b ≡ some s → s.sequence ≡ k
unfolding find
sequence-find k [] s h = absurd (cc)
sequence-find k (t ∷ ts) s h = ground (arith, sequence-find k ts s)
