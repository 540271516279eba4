-- ===== src/Congestion/MinMax.antt =====
-- internal/congestion/bbr_tuic_minmax.go: the maximum filter in constant space. A Duration is its
-- number of nanoseconds, and one that is not positive is 0; every test of the source treats all of
-- those alike.
pub mod Window
mod Examples
use niulang.Prelude.{
  ℕ, ◌-◌, ◌*◌, ◌/◌, ◌%◌, ◌^◌, Bool, true, false, ◌&&◌, ◌||◌, ltb, leb, ◌==◌, if◌then◌else◌,
}

-- The monotonic clock of quic-go: its type of times, the zero time, and the difference of two.
pub record Clock : Type 1 where
  pub Time : Type 0
  pub zero_time : Time
  pub is_zero : Time → Bool
  pub sub : Time → Time → ℕ

pub record Sample (k : Clock) : Type 0 where
  pub round : ℕ
  pub at : k.Time
  pub value : ℕ

pub record MinMax (k : Clock) : Type 0 where
  pub window : ℕ
  pub time_window : ℕ
  pub s0 : Sample k
  pub s1 : Sample k
  pub s2 : Sample k

abbrev pub second : ℕ
second = 1000000000

abbrev pub min_max_window : ℕ
min_max_window = 10

abbrev pub min_bandwidth_time_window : ℕ
min_bandwidth_time_window = second

abbrev pub max_bandwidth_time_window : ℕ
max_bandwidth_time_window = 10 * second

abbrev pub zero_sample : (k : Clock) → Sample k
zero_sample k = record { round = 0; at = k.zero_time; value = 0 }

pub new_min_max : (k : Clock) → MinMax k
new_min_max k = record {
  window = min_max_window;
  time_window = max_bandwidth_time_window;
  s0 = zero_sample k;
  s1 = zero_sample k;
  s2 = zero_sample k;
}

pub get : (k : Clock) → MinMax k → ℕ
get k m = m.s0.value

pub reset : (k : Clock) → MinMax k → MinMax k
reset k m = record m { s0 = zero_sample k; s1 = zero_sample k; s2 = zero_sample k }

pub set_round_trip : (k : Clock) → MinMax k → ℕ → MinMax k
set_round_trip k m rtt =
    let window = (min_max_window * rtt) % 2 ^ 64 in
    if rtt == 0
    then m
    else if leb (max_bandwidth_time_window / min_max_window) rtt
    then record m { time_window = max_bandwidth_time_window }
    else record m {
      time_window =
          if ltb window min_bandwidth_time_window then min_bandwidth_time_window else window;
    }

pub expired : (k : Clock) → MinMax k → Sample k → k.Time → Bool
expired k m s now =
    if k.is_zero s.at || k.is_zero now || m.time_window == 0
    then false
    else ltb m.time_window (k.sub now s.at)

pub stale : (k : Clock) → MinMax k → k.Time → Bool
stale k m now = if m.s0.value == 0 then false else expired k m m.s0 now

-- `samples[0], samples[1], samples[2] = samples[1], samples[2], sample`
abbrev pub shift : (k : Clock) → MinMax k → Sample k → MinMax k
shift k m s = record m { s0 = m.s1; s1 = m.s2; s2 = s }

-- `sample.round >= old.round && sample.round-old.round > span`
abbrev pub older : (k : Clock) → Sample k → Sample k → ℕ → Bool
older k old s span = leb old.round s.round && ltb span (s.round - old.round)

pub sub_window_update : (k : Clock) → MinMax k → Sample k → MinMax k
sub_window_update k m s =
    let shifted = shift k m s in
    if ltb s.round m.s0.round
    then m
    else if ltb m.window (s.round - m.s0.round)
    then if older k shifted.s0 s m.window then shift k shifted s else shifted
    else if m.s1.value == m.s0.value && older k m.s1 s (m.window / 4)
    then record m { s2 = s; s1 = s }
    else if m.s2.value == m.s1.value && older k m.s2 s (m.window / 2)
    then record m { s2 = s }
    else m

-- The second and third sample, for a value below the first.
pub lower : (k : Clock) → MinMax k → Sample k → MinMax k
lower k m s =
    if leb m.s1.value s.value
    then record m { s2 = s; s1 = s }
    else if leb m.s2.value s.value
    then record m { s2 = s }
    else m

pub update_max : (k : Clock) → MinMax k → ℕ → k.Time → ℕ → MinMax k
update_max k m round now value =
    let current : Sample k = record { round = round; at = now; value = value } in
    let window_expired = older k m.s2 current m.window in
    if value == 0
    then m
    else if m.s0.value == 0 || leb m.s0.value value || window_expired || expired k m m.s0 now
    then record m { s0 = current; s1 = current; s2 = current }
    else sub_window_update k (lower k m current) current
