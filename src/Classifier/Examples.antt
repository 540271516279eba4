-- ===== src/Classifier/Examples.antt =====
-- internal/classifier/classifier.go for a page and a download, with rates in whole bytes.
use niulang.Prelude.{ℕ, ◌*◌, ◌≡◌, refl, true, false, [], ◌∷◌, ltb, leb, if◌then◌else◌}
use niulang.Classifier.{
  class_new, class_interactive, class_bulk, Rates, Observation, second, default_config, new, bytes,
  max_rate, is_bulk, is_interactive, is_bulk_class, is_new_class, observe,
}
use niulang.Classifier.Hysteresis.{observe_all, any, shows_interactive, observe_all-new}

abbrev whole : Rates
whole = record { Rate = ℕ; constant = λ n. n; gt = λ a b. ltb b a; le = leb }

abbrev page : Observation whole
page = record {
  bytes_up = 2000;
  bytes_down = 30000;
  up_rate = 500;
  down_rate = 9000;
  age = 4 * second;
  since_last_payload = second;
  bidirectional = true;
  small_bidirectional_bursts = true;
}

abbrev download : Observation whole
download = record page { bytes_down = 900000; age = 9 * second; bidirectional = false }

class_of_page : (observe whole (new whole (default_config whole)) page).0 ≡ class_interactive
unfolding observe new is_bulk is_interactive bytes max_rate is_bulk_class is_new_class
class_of_page = refl

-- The download makes the flow bulk, and the page after it does not undo that.
class_of_download :
    (observe_all whole (new whole (default_config whole)) (page ∷ download ∷ page ∷ [])).class
    ≡ class_bulk
unfolding observe_all observe new is_bulk is_interactive bytes max_rate is_bulk_class is_new_class
class_of_download = refl

observe_all-new_example :
    (observe_all whole (new whole (default_config whole)) (page ∷ download ∷ page ∷ [])).class ≡ (
      if any whole
        (is_bulk whole (new whole (default_config whole)).cfg)
        (page ∷ download ∷ page ∷ [])
      then class_bulk
      else if any whole
          (shows_interactive whole (new whole (default_config whole)).cfg)
          (page ∷ download ∷ page ∷ [])
      then class_interactive
      else class_new)
observe_all-new_example = observe_all-new whole (default_config whole) (page ∷ download ∷ page ∷ [])
