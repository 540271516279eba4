-- ===== src/Classifier.antt =====
-- internal/classifier/classifier.go: the scheduling class of a flow. A duration is its number of
-- nanoseconds; none is negative. The rates are float64 values, which the source only compares.
pub mod Hysteresis
mod Examples
use niulang.Prelude.{
  ℕ, ◌+◌, ◌*◌, ◌^◌, ◌%◌, Bool, true, false, not, ◌&&◌, ◌||◌, leb, ◌==◌, if◌then◌else◌,
}

pub data Class : Type 0 where
  class_new class_interactive class_bulk : Class

-- float64: a constant, `a > b` and `a <= b`.
pub record Rates : Type 1 where
  pub Rate : Type 0
  pub constant : ℕ → Rate
  pub gt : Rate → Rate → Bool
  pub le : Rate → Rate → Bool

pub record Config (f : Rates) : Type 0 where
  pub new_bytes : ℕ
  pub new_age : ℕ
  pub bulk_bytes : ℕ
  pub bulk_rate_bytes_per_sec : f.Rate
  pub bulk_minimum_age : ℕ
  pub interactive_max_rate : f.Rate
  pub interactive_idle_gap : ℕ

abbrev pub second : ℕ
second = 1000000000

abbrev pub default_config : (f : Rates) → Config f
default_config f = record {
  new_bytes = 64 * 1024;
  new_age = 3 * second;
  bulk_bytes = 128 * 1024;
  bulk_rate_bytes_per_sec = f.constant (256 * 1024);
  bulk_minimum_age = second;
  interactive_max_rate = f.constant (1024 * 1024);
  interactive_idle_gap = 250000000;
}

pub record Observation (f : Rates) : Type 0 where
  pub bytes_up : ℕ
  pub bytes_down : ℕ
  pub up_rate : f.Rate
  pub down_rate : f.Rate
  pub age : ℕ
  pub since_last_payload : ℕ
  pub bidirectional : Bool
  pub small_bidirectional_bursts : Bool

pub record Classifier (f : Rates) : Type 0 where
  pub cfg : Config f
  pub class : Class

pub new : (f : Rates) → Config f → Classifier f
new f cfg =
    let unset =
      cfg.new_bytes == 0
      || cfg.new_age == 0
      || cfg.bulk_bytes == 0
      || f.le cfg.bulk_rate_bytes_per_sec (f.constant 0)
      || cfg.bulk_minimum_age == 0 in
    record { cfg = if unset then default_config f else cfg; class = class_new }

-- `o.BytesUp+o.BytesDown` on uint64.
pub bytes : (f : Rates) → Observation f → ℕ
bytes f o = (o.bytes_up + o.bytes_down) % 2 ^ 64

pub max_rate : (f : Rates) → f.Rate → f.Rate → f.Rate
max_rate f a b = if f.gt a b then a else b

pub is_bulk : (f : Rates) → Config f → Observation f → Bool
is_bulk f cfg o =
    leb cfg.bulk_minimum_age o.age
    && leb cfg.bulk_bytes (bytes f o)
    && (not o.bidirectional || not o.small_bidirectional_bursts)

pub is_interactive : (f : Rates) → Config f → Observation f → Bool
is_interactive f cfg o =
    if o.bidirectional && o.small_bidirectional_bursts
    then true
    else leb cfg.interactive_idle_gap o.since_last_payload
      && f.le (max_rate f o.up_rate o.down_rate) cfg.interactive_max_rate

pub is_bulk_class : Class → Bool
is_bulk_class class_bulk = true
is_bulk_class _ = false

pub is_new_class : Class → Bool
is_new_class class_new = true
is_new_class _ = false

pub observe : (f : Rates) → Classifier f → Observation f → Class × Classifier f
unfolding is_bulk_class is_new_class
observe f c o =
    let moves = is_new_class c.class && leb c.cfg.new_age o.age in
    let known = is_interactive f c.cfg o || leb c.cfg.new_bytes (bytes f o) in
    let class =
      if is_bulk_class c.class
      then c.class
      else if is_bulk f c.cfg o
      then class_bulk
      else if moves && known
      then class_interactive
      else c.class in
    (class, record c { class = class })
