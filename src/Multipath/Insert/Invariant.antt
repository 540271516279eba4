-- ===== src/Multipath/Insert/Invariant.antt =====
-- What holds of a reassembler of internal/multipath/reassembly.go between calls.
use niulang.Prelude.{
  ℕ, ◌+◌, ◌-◌, ◌^◌, ◌≤◌, ◌<◌, ◌≡◌, refl, arith, true, Option, none, some, length, All,
  if◌then◌else◌, ok, Bool-cases, inl, inr,
}
use niulang.MemLimit.{Budget}
use niulang.MemLimit.Laws.{release_charged, release_nil}
use niulang.Multipath.{Config, Segment, Reassembler, find}
use niulang.Multipath.Insert.{release_charge}
use niulang.Multipath.Buffer.{Spread, keys, total_bytes}

-- The shared budget has at least these bytes charged.
abbrev pub Paid : Option Budget → ℕ → Type 0
Paid none n = Unit {0}
Paid (some b) n = n ≤ b.used

-- What the budget holds for everyone else.
abbrev pub others : Option Budget → ℕ → ℕ
others none n = 0
others (some b) n = b.used - n

abbrev pub IsCharged : Segment → Type 0
IsCharged s = s.charged ≡ true

-- The limits are no larger than a Go int, so that no sum of lengths wraps.
abbrev pub IsSmall : Config → Type 0
IsSmall c = c.max_buffered_bytes < 2 ^ 63

-- A segment ends before 2^64.
abbrev pub IsBounded : Segment → Type 0
IsBounded s = s.sequence + length s.payload < 2 ^ 64

pub record IsValid (r : Reassembler) : Type 0 where
  pub indexed : r.order ≡ keys r.buffer
  pub spread : Spread 0 r.buffer
  pub gap : find r.next r.buffer ≡ none
  pub counted : r.bytes ≡ total_bytes r.buffer
  pub frames : length r.buffer ≤ r.cfg.max_buffered_frames
  pub within : r.bytes ≤ r.cfg.max_buffered_bytes
  pub charged : All IsCharged r.buffer
  pub paid : Paid r.memory r.bytes
  pub small : IsSmall r.cfg
  pub bounded : All IsBounded r.buffer

-- What a segment has charged.
abbrev pub charge_of : Segment → ℕ
charge_of s = if s.charged then length s.payload else 0

-- Releasing a segment's charge takes it from the budget and leaves everyone else's.
pub record Released (m : Option Budget) (s : Segment) (rest : ℕ) : Type 0 where
  pub memory : Option Budget
  pub result : release_charge m s ≡ ok memory
  pub paid : Paid memory rest
  pub same : others memory rest ≡ others m (rest + charge_of s)

pub release_charge-Released :
    (m : Option Budget) (s : Segment) (rest : ℕ) → Paid m (rest + charge_of s) → Released m s rest
unfolding release_charge
release_charge-Released none s rest h = record {
  memory = none;
  result = ground (arith, release_nil (length s.payload));
  paid = tt;
  same = refl;
}
release_charge-Released (some b) s rest h = elim (Bool-cases s.charged) [
  | inl owed ↦
      let charge : charge_of s ≡ length s.payload = rw owed in
      let (b', done, used) = release_charged b (length s.payload) (omega (arith, charge)) in
      record {
        memory = some b';
        result = rw (owed, done);
        paid = omega (arith, charge);
        same = omega (arith, charge);
      }
  | inr free ↦
      let charge : charge_of s ≡ 0 = rw free in
      record {
        memory = some b;
        result = rw free;
        paid = omega (arith, charge);
        same = omega (arith, charge);
      }
]
