-- ===== src/Pep/AckTracker/History.antt =====
-- Any sequence of calls on the tracker of internal/pep/acktrack.go, from a new one on.
use niulang.Prelude.{
  ℕ, ◌+◌, ◌%◌, ◌^◌, ◌≤◌, ◌<◌, ◌≡◌, ◌≢◌, ◌↔◌, refl, sym, ap, ◌∙◌, arith, Bool, true, false, ◌||◌,
  some, List, [], ◌∷◌, ltb, leb, Bool-cases, inl, inr,
}
use niulang.Protocol.AckRanges.{Range}
use niulang.Pep.AckTracker.{
  Tracker, new_ack_tracker, compact, merge, advance, add, touch, close, covered, wait_change,
  delivered,
}
use niulang.Pep.AckTracker.Sets.{in_ranges, acked, IsMerged}
use niulang.Pep.AckTracker.Covered.{covered_iff}
use niulang.Pep.AckTracker.Updates.{acked-advance, acked-add, advance-IsMerged, add-IsMerged}

-- A call of one of the tracker's methods that write.
pub data Call : Type 0 where
  advance_call : ℕ → Call
  add_call : List Range → Call
  touch_call close_call : Call

abbrev pub apply : Tracker → Call → Tracker
apply t (advance_call sequence) = advance t sequence
apply t (add_call rs) = add t rs
apply t touch_call = touch t
apply t close_call = close t

pub run : Tracker → List Call → Tracker
run t [] = t
run t (c ∷ cs) = run (apply t c) cs

-- Whether a call reports a byte, and whether any of the calls does.
abbrev pub reports : Call → ℕ → Bool
reports (advance_call sequence) x = ltb x sequence
reports (add_call rs) x = in_ranges x rs
reports touch_call x = false
reports close_call x = false

abbrev pub reported : List Call → ℕ → Bool
reported [] x = false
reported (c ∷ cs) x = reports c x || reported cs x

apply-IsMerged : (t : Tracker) (c : Call) → IsMerged t → IsMerged (apply t c)
unfolding touch close
apply-IsMerged t (advance_call sequence) m = advance-IsMerged t sequence m
apply-IsMerged t (add_call rs) m = add-IsMerged t rs m
apply-IsMerged t touch_call m = m
apply-IsMerged t close_call m = m

acked-apply :
    (t : Tracker) (c : Call) (x : ℕ) → IsMerged t → acked (apply t c) x ≡ (acked t x || reports c x)
unfolding touch close
acked-apply t (advance_call sequence) x m = acked-advance t sequence x
acked-apply t (add_call rs) x m = acked-add t rs x m
acked-apply t touch_call x m = ground arith
acked-apply t close_call x m = ground arith

pub run-IsMerged : (t : Tracker) (cs : List Call) → IsMerged t → IsMerged (run t cs)
unfolding run
run-IsMerged t [] m = m
run-IsMerged t (c ∷ cs) m = run-IsMerged (apply t c) cs (apply-IsMerged t c m)

acked-run :
    (t : Tracker) (cs : List Call) (x : ℕ)
    → IsMerged t
    → acked (run t cs) x ≡ (acked t x || reported cs x)
unfolding run
acked-run t [] x m = ground arith
acked-run t (c ∷ cs) x m =
    ground (arith, acked-run (apply t c) cs x (apply-IsMerged t c m), acked-apply t c x m)

-- After any calls on a new tracker, Covered says yes exactly when every byte of the range was
-- reported by one of them.
pub covered-run :
    (cs : List Call) (start end : ℕ)
    → (covered (run new_ack_tracker cs) start end ≡ true)
      ↔ ((x : ℕ) → start ≤ x → x < end → reported cs x ≡ true)
unfolding new_ack_tracker
covered-run cs start end =
    let t = run new_ack_tracker cs in
    let m = run-IsMerged new_ack_tracker cs tt in
    let e : (x : ℕ) → acked t x ≡ reported cs x =
      λ x. acked-run new_ack_tracker cs x tt ∙ ground arith in
    (
      λ c x l u. sym (e x) ∙ (covered_iff t start end m).0 c x l u,
      λ all. (covered_iff t start end m).1 (λ x l u. e x ∙ all x l u),
    )

gen-merge : (t : Tracker) → (merge t).gen ≡ t.gen
unfolding merge
gen-merge t = ground arith

gen-compact : (t : Tracker) → (compact t).gen ≡ t.gen
unfolding compact
gen-compact t = refl

advance-old :
    (t : Tracker) (sequence : ℕ) → leb sequence t.cumulative ≡ true → advance t sequence ≡ t
unfolding advance
advance-old t sequence old = rw old

-- A call that changes a byte's status advances the generation.
gen-apply :
    (t : Tracker) (c : Call) (x : ℕ)
    → acked (apply t c) x ≢ acked t x
    → (apply t c).gen ≡ (t.gen + 1) % 2 ^ 64
unfolding advance add touch close
gen-apply t (advance_call sequence) x ne = elim (Bool-cases (leb sequence t.cumulative)) [
  | inl old ↦ absurd (ne (ap (λ u. acked u x) (advance-old t sequence old)))
  | inr new ↦ rw (new, gen-compact)
]
gen-apply t (add_call []) x ne = absurd (ne refl)
gen-apply t (add_call (r ∷ rs)) x ne = rw (gen-compact, gen-merge)
gen-apply t touch_call x ne = refl
gen-apply t close_call x ne = absurd (ne refl)

-- A watcher misses nothing: when a call changes any byte's status, WaitChange on the generation
-- from before returns at once, with the new one.
pub wait_change-apply :
    (t : Tracker) (c : Call) (x : ℕ) (ctx : Bool)
    → t.gen < 2 ^ 64
    → acked (apply t c) x ≢ acked t x
    → wait_change (apply t c) t.gen ctx ≡ some ((apply t c).gen, delivered)
unfolding wait_change
wait_change-apply t c x ctx h ne = ground (arith, gen-apply t c x ne)
