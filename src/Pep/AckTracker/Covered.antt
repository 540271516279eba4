-- ===== src/Pep/AckTracker/Covered.antt =====
-- Covered, Wait and the snapshot of internal/pep/acktrack.go answer for every byte of a range.
use niulang.Prelude.{
  ℕ, ◌-◌, ◌≤◌, ◌<◌, ◌≡◌, ◌↔◌, ◌⊎◌, refl, arith, Bool, true, false, List, [], ◌∷◌, ltb, some,
  if◌then◌else◌, Bool-cases, inl, inr,
}
use niulang.Protocol.AckRanges.{Range}
use niulang.Pep.AckTracker.{
  Tracker, covered_scan, covered, covers, snapshot, highest_from, highest, wait, delivered,
}
use niulang.Pep.AckTracker.Sets.{in_ranges, acked, Apart, IsMerged}

-- Every byte from `start` on, before `end`, has been acknowledged.
abbrev pub AllAcked : Tracker → ℕ → ℕ → Type 0
AllAcked t start end = (x : ℕ) → start ≤ x → x < end → acked t x ≡ true

scan_sound :
    (s e : ℕ) (rs : List Range) (x : ℕ)
    → covered_scan s e rs ≡ true
    → s ≤ x
    → x < e
    → in_ranges x rs ≡ true
unfolding covered_scan
scan_sound s e [] x h l u = cc
scan_sound s e ((a, b) ∷ rs) x h l u = ground (arith, scan_sound b e rs x, scan_sound s e rs x)

Apart-below : (c : ℕ) (rs : List Range) (x : ℕ) → Apart c rs → x ≤ c → in_ranges x rs ≡ false
Apart-below c [] x h l = refl
Apart-below c ((a, b) ∷ rs) x h l = ground (arith, Apart-below b rs x h.2 (omega arith))

-- A byte that a scan missed.
record Missing (s e : ℕ) (rs : List Range) : Type 0 where
  byte : ℕ
  from : s ≤ byte
  before : byte < e
  absent : in_ranges byte rs ≡ false

scan_complete :
    (c s e : ℕ) (rs : List Range)
    → Apart c rs
    → s < e
    → covered_scan s e rs ≡ false
    → Missing s e rs
unfolding covered_scan
scan_complete c s e [] h l f = record { byte = s; from = omega arith; before = l; absent = refl }
scan_complete c s e ((a, b) ∷ rs) h l f = elim (Bool-cases (ltb s a)) [
  | inl early ↦ record {
    byte = s;
    from = omega arith;
    before = l;
    absent = ground (arith, Apart-below b rs s h.2 (ground arith));
  }
  | inr reached ↦ elim (Bool-cases (ltb s b)) [
    | inl inside ↦
        let m = scan_complete b b e rs h.2 (ground arith) (ground arith) in
        record {
          byte = m.byte;
          from = ground (arith, m.from);
          before = m.before;
          absent = ground (arith, m.from, m.absent);
        }
    | inr past ↦
        let m = scan_complete b s e rs h.2 l (ground arith) in
        record {
          byte = m.byte;
          from = m.from;
          before = m.before;
          absent = ground (arith, m.from, m.absent);
        }
  ]
]

-- The first byte that the scan has to find in a range.
first_byte : Tracker → ℕ → ℕ
first_byte t start = if ltb start t.cumulative then t.cumulative else start

covered_sound : (t : Tracker) (start end : ℕ) → covered t start end ≡ true → AllAcked t start end
unfolding covered first_byte
covered_sound t start end h x l u = ground (arith, scan_sound (first_byte t start) end t.ranges x)

-- Covered says yes exactly when every byte of the range has been acknowledged.
pub covered_iff :
    (t : Tracker) (start end : ℕ) → IsMerged t → (covered t start end ≡ true) ↔ AllAcked t start end
unfolding covered first_byte
covered_iff t start end m = (
  covered_sound t start end,
  λ all. elim (Bool-cases (covered t start end)) [
    | inl is ↦ is
    | inr isnt ↦
        let miss =
          scan_complete t.cumulative (first_byte t start) end t.ranges m (ground arith)
            (ground arith) in
        absurd (ground (arith, all miss.byte, miss.from, miss.before, miss.absent))
  ],
)

-- Wait reports delivery exactly when every byte has been acknowledged, also where the tracker is
-- closed or the context has ended.
pub wait_iff :
    (t : Tracker) (start end : ℕ) (ctx : Bool)
    → IsMerged t
    → (wait t start end ctx ≡ some delivered) ↔ AllAcked t start end
unfolding wait
wait_iff t start end ctx m = (
  λ w. (covered_iff t start end m).0 (ground arith),
  λ all. let c = (covered_iff t start end m).1 all in rw c,
)

-- The snapshot answers as the tracker does.
pub covers-snapshot :
    (t : Tracker) (start end : ℕ) → covers (snapshot t) start end ≡ covered t start end
unfolding covers snapshot covered
covers-snapshot t start end = ground arith

highest_from-le : (top : ℕ) (rs : List Range) → top ≤ highest_from top rs
unfolding highest_from
highest_from-le top [] = omega arith
highest_from-le top ((a, b) ∷ rs) =
    ground (arith, highest_from-le (if ltb top b then b else top) rs)

highest_from-lt :
    (top : ℕ) (rs : List Range) (x : ℕ) → in_ranges x rs ≡ true → x < highest_from top rs
unfolding highest_from
highest_from-lt top [] x h = cc
highest_from-lt top ((a, b) ∷ rs) x h =
    let next : ℕ = if ltb top b then b else top in
    ground (arith, highest_from-le next rs, highest_from-lt next rs x)

highest_from-reached :
    (c top : ℕ) (rs : List Range)
    → Apart c rs
    → (highest_from top rs ≡ top) ⊎ (in_ranges (highest_from top rs - 1) rs ≡ true)
unfolding highest_from
highest_from-reached c top [] h = inl refl
highest_from-reached c top ((a, b) ∷ rs) h =
    let next : ℕ = if ltb top b then b else top in
    elim (highest_from-reached b next rs h.2) [
      | inl same ↦ ground (arith, same)
      | inr found ↦ inr (ground (arith, found))
    ]

-- The highest offset of a snapshot lies past every acknowledged byte.
pub acked-lt-highest : (t : Tracker) (x : ℕ) → acked t x ≡ true → x < highest (snapshot t)
unfolding highest snapshot
acked-lt-highest t x h =
    ground (arith, highest_from-le t.cumulative t.ranges, highest_from-lt t.cumulative t.ranges x)

-- And the byte just below it has been acknowledged, if there is any.
pub acked-highest :
    (t : Tracker)
    → IsMerged t
    → 0 < highest (snapshot t)
    → acked t (highest (snapshot t) - 1) ≡ true
unfolding highest snapshot
acked-highest t m h = elim (highest_from-reached t.cumulative t.cumulative t.ranges m) [
  | inl same ↦ ground (arith, same)
  | inr found ↦ ground (arith, found)
]
