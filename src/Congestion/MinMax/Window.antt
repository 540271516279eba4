-- ===== src/Congestion/MinMax/Window.antt =====
-- What the filter of internal/congestion/bbr_tuic_minmax.go estimates.
use niulang.Prelude.{
  ℕ, ◌+◌, ◌-◌, ◌*◌, ◌/◌, ◌≤◌, ◌<◌, ◌≡◌, ◌≢◌, refl, ◌∙◌, arith, true, false, ◌&&◌, ◌||◌, ltb, leb,
  ◌==◌, List, [], ◌∷◌, Bool-cases, min, max, inl, inr, ◌⊎◌,
}
use niulang.Congestion.MinMax.{
  Clock, Sample, MinMax, second, new_min_max, get, set_round_trip, expired, stale,
  sub_window_update, lower, update_max,
}

-- The samples stand by ascending round and descending value, the last not behind `round`.
pub record IsOrdered (k : Clock) (m : MinMax k) (round : ℕ) : Type 0 where
  pub value0 : m.s1.value ≤ m.s0.value
  pub value1 : m.s2.value ≤ m.s1.value
  pub round0 : m.s0.round ≤ m.s1.round
  pub round1 : m.s1.round ≤ m.s2.round
  pub round2 : m.s2.round ≤ round

lower-IsOrdered :
    (k : Clock) (m : MinMax k) (s : Sample k)
    → IsOrdered k m s.round
    → s.value < m.s0.value
    → IsOrdered k (lower k m s) s.round
      × (s.value ≤ (lower k m s).s2.value)
      × (m.s2.round ≤ (lower k m s).s2.round)
      × ((lower k m s).window ≡ m.window)
unfolding lower
lower-IsOrdered k m s v less = elim (Bool-cases (leb m.s1.value s.value)) [
  | inl two ↦ rw two (
    record {
      value0 = ground arith;
      value1 = ground arith;
      round0 = ground (arith, v.round0, v.round1, v.round2);
      round1 = ground arith;
      round2 = ground arith;
    },
    ground arith,
    v.round2,
    refl,
  )
  | inr above ↦ elim (Bool-cases (leb m.s2.value s.value)) [
    | inl one ↦
        rw (above, one)
          (
            record {
              value0 = v.value0;
              value1 = ground arith;
              round0 = v.round0;
              round1 = omega (arith, v.round1, v.round2);
              round2 = omega arith;
            },
            omega arith,
            v.round2,
            refl,
          )
    | inr below ↦ rw (above, below) (v, ground arith, omega arith, refl)
  ]
]

-- What an update comes to: the order, an estimate that is no lower than the sample and no older
-- than the window.
pub record Fresh (k : Clock) (m m' : MinMax k) (s : Sample k) : Type 0 where
  pub ordered : IsOrdered k m' s.round
  pub covers : s.value ≤ m'.s0.value
  pub recent : s.round ≤ m'.s0.round + m'.window
  pub same : m'.window ≡ m.window

sub_window_update-Fresh :
    (k : Clock) (m : MinMax k) (s : Sample k)
    → IsOrdered k m s.round
    → s.value ≤ m.s2.value
    → s.round ≤ m.s2.round + m.window
    → Fresh k m (sub_window_update k m s) s
unfolding sub_window_update
sub_window_update-Fresh k m s v low near =
    let ahead : ltb s.round m.s0.round ≡ false = ground (arith, v.round0, v.round1, v.round2) in
    elim (Bool-cases (ltb m.window (s.round - m.s0.round))) [
      | inl old ↦
          elim (Bool-cases (leb m.s1.round s.round && ltb m.window (s.round - m.s1.round))) [
            | inl both ↦
                simp (ahead, old, both)
                  (record {
                    ordered = record {
                      value0 = low;
                      value1 = omega arith;
                      round0 = v.round2;
                      round1 = omega arith;
                      round2 = omega arith;
                    };
                    covers = low;
                    recent = near;
                    same = refl;
                  })
            | inr one ↦
                simp (ahead, old, one)
                  (record {
                    ordered = record {
                      value0 = v.value1;
                      value1 = low;
                      round0 = v.round1;
                      round1 = v.round2;
                      round2 = omega arith;
                    };
                    covers = omega (arith, v.value1, low);
                    recent = ground (arith, one, v.round1, v.round2);
                    same = refl;
                  })
          ]
      | inr new ↦
          let recent : s.round ≤ m.s0.round + m.window = ground (arith, new) in
          elim (Bool-cases (
            m.s1.value == m.s0.value
            && (leb m.s1.round s.round && ltb (m.window / 4) (s.round - m.s1.round)))) [
              | inl quarter ↦
                  simp (ahead, new, quarter)
                    (record {
                      ordered = record {
                        value0 = omega (arith, low, v.value0, v.value1);
                        value1 = omega arith;
                        round0 = omega (arith, v.round0, v.round1, v.round2);
                        round1 = omega arith;
                        round2 = omega arith;
                      };
                      covers = omega (arith, low, v.value0, v.value1);
                      recent = recent;
                      same = refl;
                    })
              | inr early ↦
                  elim (Bool-cases (
                    m.s2.value == m.s1.value
                    && (leb m.s2.round s.round && ltb (m.window / 2) (s.round - m.s2.round)))) [
                      | inl half ↦
                          simp (ahead, new, early, half)
                            (record {
                              ordered = record {
                                value0 = v.value0;
                                value1 = omega (arith, low, v.value1);
                                round0 = v.round0;
                                round1 = omega (arith, v.round1, v.round2);
                                round2 = omega arith;
                              };
                              covers = omega (arith, low, v.value0, v.value1);
                              recent = recent;
                              same = refl;
                            })
                      | inr young ↦
                          simp (ahead, new, early, young)
                            (record {
                              ordered = v;
                              covers = omega (arith, low, v.value0, v.value1);
                              recent = recent;
                              same = refl;
                            })
                    ]
            ]
    ]

-- Every nonzero sample, whatever the clock says, leaves an ordered filter whose estimate is no lower
-- than the sample and comes from a round at most the window before the sample's, if the filter was
-- ordered and the sample's round is not behind those it has seen.
pub update_max-Fresh :
    (k : Clock) (m : MinMax k) (round : ℕ) (now : k.Time) (value : ℕ)
    → IsOrdered k m round
    → 0 < value
    → Fresh k m (update_max k m round now value) (record { round = round; at = now; value = value })
unfolding update_max
update_max-Fresh k m round now value v some_value =
    let current : Sample k = record { round = round; at = now; value = value } in
    let nonzero : (value == 0) ≡ false = ground arith in
    let restart =
      m.s0.value == 0
      || leb m.s0.value value
      || (leb m.s2.round round && ltb m.window (round - m.s2.round))
      || expired k m m.s0 now in
    elim (Bool-cases restart) [
      | inl all ↦
          simp (nonzero, all)
            (record {
              ordered = record {
                value0 = omega arith;
                value1 = omega arith;
                round0 = omega arith;
                round1 = omega arith;
                round2 = omega arith;
              };
              covers = omega arith;
              recent = omega arith;
              same = refl;
            })
      | inr below ↦
          let less : value < m.s0.value = ground (arith, below) in
          let near : round ≤ m.s2.round + m.window = ground (arith, below, v.round2) in
          let (ordered, low, later, window) = lower-IsOrdered k m current v less in
          let w =
            sub_window_update-Fresh k (lower k m current) current ordered low
              (omega (arith, near, later, window)) in
          simp (nonzero, below)
            (record {
              ordered = w.ordered;
              covers = w.covers;
              recent = w.recent;
              same = w.same ∙ window;
            })
    ]

-- All three samples satisfy a predicate.
abbrev Each : (k : Clock) → (Sample k → Type 0) → MinMax k → Type 0
Each k P m = P m.s0 × P m.s1 × P m.s2

module _ (k : Clock) (P : Sample k → Type 0) (m : MinMax k) (s : Sample k) (h : P s)
    (e : Each k P m) where
  lower-Each : Each k P (lower k m s)
  unfolding lower
  lower-Each = elim (Bool-cases (leb m.s1.value s.value)) [
    | inl two ↦ rw two (e.0, h, h)
    | inr above ↦ elim (Bool-cases (leb m.s2.value s.value)) [
      | inl one ↦ rw (above, one) (e.0, e.1, h)
      | inr below ↦ rw (above, below) e
    ]
  ]

  sub_window_update-Each : Each k P (sub_window_update k m s)
  unfolding sub_window_update
  sub_window_update-Each = elim (Bool-cases (ltb s.round m.s0.round)) [
    | inl behind ↦ simp behind e
    | inr ahead ↦ elim (Bool-cases (ltb m.window (s.round - m.s0.round))) [
      | inl old ↦
          elim (Bool-cases (leb m.s1.round s.round && ltb m.window (s.round - m.s1.round))) [
            | inl both ↦ simp (ahead, old, both) (e.2, h, h)
            | inr one ↦ simp (ahead, old, one) (e.1, e.2, h)
          ]
      | inr new ↦
          elim (Bool-cases (
            m.s1.value == m.s0.value
            && (leb m.s1.round s.round && ltb (m.window / 4) (s.round - m.s1.round)))) [
              | inl quarter ↦ simp (ahead, new, quarter) (e.0, h, h)
              | inr early ↦
                  elim (Bool-cases (
                    m.s2.value == m.s1.value
                    && (leb m.s2.round s.round && ltb (m.window / 2) (s.round - m.s2.round)))) [
                      | inl half ↦ simp (ahead, new, early, half) (e.0, e.1, h)
                      | inr young ↦ simp (ahead, new, early, young) e
                    ]
            ]
    ]
  ]

-- An update puts the new sample in, and otherwise moves the old ones.
update_max-Each :
    (k : Clock) (P : Sample k → Type 0) (m : MinMax k) (round : ℕ) (now : k.Time) (value : ℕ)
    → P (record { round = round; at = now; value = value })
    → 0 < value
    → (m.s0.value ≢ 0 → Each k P m)
    → Each k P (update_max k m round now value)
unfolding update_max
update_max-Each k P m round now value h some_value e =
    let current : Sample k = record { round = round; at = now; value = value } in
    let nonzero : (value == 0) ≡ false = ground arith in
    let restart =
      m.s0.value == 0
      || leb m.s0.value value
      || (leb m.s2.round round && ltb m.window (round - m.s2.round))
      || expired k m m.s0 now in
    elim (Bool-cases restart) [
      | inl all ↦ simp (nonzero, all) (h, h, h)
      | inr below ↦
          let live : m.s0.value ≢ 0 = ground (arith, below) in
          simp (nonzero, below)
            (sub_window_update-Each k P (lower k m current) current h
              (lower-Each k P m current h (e live)))
    ]

-- The filter after the samples of a list, the latest first.
unfoldable pub recorded : (k : Clock) → List (Sample k) → MinMax k
recorded k [] = new_min_max k
recorded k (s ∷ ss) = update_max k (recorded k ss) s.round s.at s.value

-- Samples of ascending rounds, none of them zero.
abbrev pub Ascending : (k : Clock) → List (Sample k) → Type 0
Ascending k [] = Unit {0}
Ascending k (s ∷ []) = 0 < s.value
Ascending k (s ∷ t ∷ ss) = (0 < s.value) × (t.round ≤ s.round) × Ascending k (t ∷ ss)

abbrev pub Among : (k : Clock) → Sample k → List (Sample k) → Type 0
Among k s [] = ⊥
Among k s (t ∷ ts) = (s ≡ t) ⊎ Among k s ts

IsOrdered-le : (k : Clock) (m : MinMax k) (a b : ℕ) → a ≤ b → IsOrdered k m a → IsOrdered k m b
IsOrdered-le k m a b h v = record {
  value0 = v.value0;
  value1 = v.value1;
  round0 = v.round0;
  round1 = v.round1;
  round2 = omega (arith, v.round2);
}

new_min_max-IsOrdered : (k : Clock) (round : ℕ) → IsOrdered k (new_min_max k) round
unfolding new_min_max
new_min_max-IsOrdered k round = record {
  value0 = omega arith;
  value1 = omega arith;
  round0 = omega arith;
  round1 = omega arith;
  round2 = omega arith;
}

recorded-Fresh :
    (k : Clock) (s : Sample k) (ss : List (Sample k))
    → Ascending k (s ∷ ss)
    → Fresh k (new_min_max k) (recorded k (s ∷ ss)) s
unfolding recorded
recorded-Fresh k s [] a =
    update_max-Fresh k (new_min_max k) s.round s.at s.value (new_min_max-IsOrdered k s.round) a
recorded-Fresh k s (t ∷ ss) a =
    let m = recorded k (t ∷ ss) in
    let before = recorded-Fresh k t ss a.2 in
    let w =
      update_max-Fresh k m s.round s.at s.value
        (IsOrdered-le k m t.round s.round a.1 before.ordered) a.0 in
    record {
      ordered = w.ordered;
      covers = w.covers;
      recent = w.recent;
      same = w.same ∙ before.same;
    }

recorded-Each :
    (k : Clock) (s : Sample k) (ss : List (Sample k))
    → Ascending k (s ∷ ss)
    → Each k (λ t. Among k t (s ∷ ss)) (recorded k (s ∷ ss))
unfolding recorded new_min_max
recorded-Each k s [] a =
    update_max-Each k (λ t. Among k t (s ∷ [])) (new_min_max k) s.round s.at s.value (inl refl) a
      (λ live. absurd (live refl))
recorded-Each k s (t ∷ ss) a =
    let before = recorded-Each k t ss a.2 in
    update_max-Each k (λ u. Among k u (s ∷ t ∷ ss)) (recorded k (t ∷ ss)) s.round s.at s.value
      (inl refl) a.0 (λ live. (inr before.0, inr before.1, inr before.2))

-- After any samples that are not zero and whose rounds do not go back, whatever the clock says, the
-- estimate is the value of one of the samples, of a round at most ten before the latest, and it is
-- no lower than the latest.
pub get-recorded :
    (k : Clock) (s : Sample k) (ss : List (Sample k))
    → Ascending k (s ∷ ss)
    → (t : Sample k) × Among k t (s ∷ ss)
      × (get k (recorded k (s ∷ ss)) ≡ t.value)
      × (s.value ≤ t.value)
      × (s.round ≤ t.round + 10)
unfolding get new_min_max
get-recorded k s ss a =
    let w = recorded-Fresh k s ss a in
    (
      (recorded k (s ∷ ss)).s0,
      (recorded-Each k s ss a).0,
      refl,
      w.covers,
      omega (arith, w.recent, w.same),
    )

-- An estimate that stale reports is given up for the next sample, however low.
pub update_max-stale :
    (k : Clock) (m : MinMax k) (round : ℕ) (now : k.Time) (value : ℕ)
    → stale k m now ≡ true
    → 0 < value
    → get k (update_max k m round now value) ≡ value
unfolding get update_max stale
update_max-stale k m round now value h some_value =
    let nonzero : (value == 0) ≡ false = ground arith in
    let old : expired k m m.s0 now ≡ true = ground (arith, h) in ground (arith, nonzero, old)

-- Whatever the round trip, in nanoseconds: the memory that setRoundTrip derives from it is ten round
-- trips, but at least one second and at most ten, and the product does not wrap around.
pub set_round_trip_bounds :
    (k : Clock) (m : MinMax k) (rtt : ℕ)
    → 0 < rtt
    → (set_round_trip k m rtt).time_window ≡ max second (min (10 * rtt) (10 * second))
unfolding set_round_trip
set_round_trip_bounds k m rtt h = ground arith
