-- ===== src/Net/Text.antt =====
-- Looking for a byte in a text.
use niulang.Prelude.{
  ℕ, ◌≡◌, ◌≢◌, refl, sym, ap, ◌∙◌, arith, true, false, ◌||◌, Option, none, some, List, [], ◌∷◌,
  ◌++◌, ◌==◌, All, Bool-cases, Option-cases, inl, inr,
}
use niulang.Net.{contains, cut_first, cut_last, behind, here_or_behind}

pub contains-append :
    (c : ℕ) (xs ys : List ℕ) → contains c (xs ++ ys) ≡ (contains c xs || contains c ys)
unfolding contains
contains-append c [] ys = refl
contains-append c (x ∷ xs) ys = elim (Bool-cases (x == c)) [
  | inl same ↦ rw same refl
  | inr other ↦ rw other (contains-append c xs ys)
]

pub contains-All : (c : ℕ) (xs : List ℕ) → All (λ x. x ≢ c) xs → contains c xs ≡ false
unfolding contains
contains-All c [] h = refl
contains-All c (x ∷ xs) h =
    let other : (x == c) ≡ false = ground (arith, h.0) in rw other (contains-All c xs h.1)

pub cut_last-none : (c : ℕ) (xs : List ℕ) → contains c xs ≡ false → cut_last c xs ≡ none
unfolding contains cut_last
cut_last-none c [] h = refl
cut_last-none c (x ∷ xs) h = elim (Bool-cases (x == c)) [
  | inl same ↦ absurd (ground (arith, same, h))
  | inr other ↦ rw (cut_last-none c xs (ground (arith, other, h))) (rw other refl)
]

-- The last place of a byte is before a text that has none.
pub cut_last-append :
    (c : ℕ) (xs ys : List ℕ) → contains c ys ≡ false → cut_last c (xs ++ (c ∷ ys)) ≡ some (xs, ys)
unfolding cut_last
cut_last-append c [] ys h =
    let same : (c == c) ≡ true = ground arith in rw (cut_last-none c ys h) (rw same refl)
cut_last-append c (x ∷ xs) ys h = rw (cut_last-append c xs ys h) refl

pub cut_first-append :
    (c : ℕ) (xs ys : List ℕ) → contains c xs ≡ false → cut_first c (xs ++ (c ∷ ys)) ≡ some (xs, ys)
unfolding cut_first contains
cut_first-append c [] ys h = let same : (c == c) ≡ true = ground arith in rw same refl
cut_first-append c (x ∷ xs) ys h = elim (Bool-cases (x == c)) [
  | inl same ↦ absurd (ground (arith, same, h))
  | inr other ↦ rw (other, cut_first-append c xs ys (ground (arith, other, h))) refl
]

cut_last-absent : (c : ℕ) (xs : List ℕ) → cut_last c xs ≡ none → contains c xs ≡ false
unfolding cut_last contains
cut_last-absent c [] h = refl
cut_last-absent c (x ∷ xs) h = elim (Option-cases (cut_last c xs)) [
  | inr (ba, found) ↦ absurd (cc)
  | inl absent ↦ elim (Bool-cases (x == c)) [
    | inl same ↦ absurd (ground (arith, same, ap (here_or_behind c x xs) (sym absent) ∙ h))
    | inr other ↦ rw other (cut_last-absent c xs absent)
  ]
]

some-pair :
    (b b' a a' : List ℕ)
    → (let t : Option (List ℕ × List ℕ) = some (b', a') in t ≡ some (b, a))
    → (b' ≡ b) × (a' ≡ a)
some-pair b b' a a' h =
    let get : Option (List ℕ × List ℕ) → List ℕ × List ℕ =
      λ o. elim o as (λ _. List ℕ × List ℕ) [ none ↦ (b, a) | some t ↦ t ] in
    (ap (λ o. (get o).0) h, ap (λ o. (get o).1) h)

pub cut_last-some :
    (c : ℕ) (xs b a : List ℕ)
    → cut_last c xs ≡ some (b, a)
    → (xs ≡ b ++ (c ∷ a)) × (contains c a ≡ false)
unfolding cut_last
cut_last-some c [] b a h = absurd (cc)
cut_last-some c (x ∷ xs) b a h = elim (Option-cases (cut_last c xs)) [
  | inr ((b', a'), found) ↦
      let (eb, ea) = some-pair b (x ∷ b') a a' (ap (here_or_behind c x xs) (sym found) ∙ h) in
      let rest = cut_last-some c xs b' a' found in
      (
        ap (λ t. x ∷ t) rest.0 ∙ ap (λ t. (x ∷ b') ++ (c ∷ t)) ea ∙ ap (λ t. t ++ (c ∷ a)) eb,
        ap (contains c) (sym ea) ∙ rest.1,
      )
  | inl absent ↦
      let e : here_or_behind c x xs none ≡ some (b, a) =
        ap (here_or_behind c x xs) (sym absent) ∙ h in
      elim (Bool-cases (x == c)) [
        | inl same ↦
            let (eb, ea) = some-pair b [] a xs (rw same at e) in
            let at : x ≡ c = ground (arith, same) in
            (
              ap (λ t. t ∷ xs) at ∙ ap (λ t. c ∷ t) ea ∙ ap (λ t. t ++ (c ∷ a)) eb,
              ap (contains c) (sym ea) ∙ cut_last-absent c xs absent,
            )
        | inr other ↦ absurd (ground (arith, other, e))
      ]
]

pub cut_first-some :
    (c : ℕ) (xs b a : List ℕ)
    → cut_first c xs ≡ some (b, a)
    → (xs ≡ b ++ (c ∷ a)) × (contains c b ≡ false)
unfolding cut_first contains
cut_first-some c [] b a h = absurd (cc)
cut_first-some c (x ∷ xs) b a h = elim (Bool-cases (x == c)) [
  | inl same ↦
      let (eb, ea) = some-pair b [] a xs (rw same at h) in
      let at : x ≡ c = ground (arith, same) in
      (
        ap (λ t. t ∷ xs) at ∙ ap (λ t. c ∷ t) ea ∙ ap (λ t. t ++ (c ∷ a)) eb,
        ap (contains c) (sym eb),
      )
  | inr other ↦
      let e : behind x (cut_first c xs) ≡ some (b, a) = rw other at h in
      elim (Option-cases (cut_first c xs)) [
        | inl absent ↦ absurd (ground (arith, ap (behind x) (sym absent) ∙ e))
        | inr ((b', a'), found) ↦
            let (eb, ea) = some-pair b (x ∷ b') a a' (ap (behind x) (sym found) ∙ e) in
            let rest = cut_first-some c xs b' a' found in
            (
              ap (λ t. x ∷ t) rest.0 ∙ ap (λ t. (x ∷ b') ++ (c ∷ t)) ea ∙ ap (λ t. t ++ (c ∷ a)) eb,
              ap (contains c) (sym eb) ∙ (rw other rest.1),
            )
      ]
]
