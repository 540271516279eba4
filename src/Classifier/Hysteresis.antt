-- ===== src/Classifier/Hysteresis.antt =====
-- The class that internal/classifier/classifier.go settles on, told from all observations at once.
use niulang.Prelude.{
  ◌≡◌, refl, sym, ap, ◌∙◌, arith, Bool, false, not, ◌&&◌, ◌||◌, List, [], ◌∷◌, leb, if◌then◌else◌,
}
use niulang.Classifier.{
  Class, class_new, class_interactive, class_bulk, Rates, Config, Observation, Classifier, new,
  bytes, is_bulk, is_interactive, is_bulk_class, is_new_class, observe,
}

-- The classifier after a list of observations, the first first.
unfoldable pub observe_all : (f : Rates) → Classifier f → List (Observation f) → Classifier f
observe_all f c [] = c
observe_all f c (o ∷ os) = observe_all f (observe f c o).1 os

pub any : (f : Rates) → (Observation f → Bool) → List (Observation f) → Bool
any f p [] = false
any f p (o ∷ os) = p o || any f p os

-- An observation that shows a flow to be old enough, and interactive or no longer small.
pub shows_interactive : (f : Rates) → Config f → Observation f → Bool
shows_interactive f cfg o =
    leb cfg.new_age o.age && (is_interactive f cfg o || leb cfg.new_bytes (bytes f o))

-- The class, from a class to start with and whether any observation showed this or that.
pub settled : Class → Bool → Bool → Class
settled class bulk interactive =
    if is_bulk_class class || bulk
    then class_bulk
    else if not (is_new_class class) || interactive
    then class_interactive
    else class_new

settled-start : (class : Class) → settled class false false ≡ class
unfolding settled is_bulk_class is_new_class
settled-start class_new = refl
settled-start class_interactive = refl
settled-start class_bulk = refl

settled-step :
    (class : Class) (b a k bulk i : Bool)
    → settled
        (if is_bulk_class class
          then class
          else if b
          then class_bulk
          else if (is_new_class class && a) && k
          then class_interactive
          else class)
        bulk
        i
      ≡ settled class (b || bulk) ((a && k) || i)
unfolding settled is_bulk_class is_new_class
settled-step class_new b a k bulk i = ground arith
settled-step class_interactive b a k bulk i = ground arith
settled-step class_bulk b a k bulk i = refl

settled-observe :
    (f : Rates) (c : Classifier f) (o : Observation f) (bulk interactive : Bool)
    → settled (observe f c o).1.class bulk interactive
      ≡ settled c.class (is_bulk f c.cfg o || bulk) (shows_interactive f c.cfg o || interactive)
unfolding observe shows_interactive
settled-observe f c o bulk interactive =
    settled-step c.class (is_bulk f c.cfg o) (leb c.cfg.new_age o.age)
      (is_interactive f c.cfg o || leb c.cfg.new_bytes (bytes f o)) bulk interactive

observe-cfg : (f : Rates) (c : Classifier f) (o : Observation f) → (observe f c o).1.cfg ≡ c.cfg
unfolding observe
observe-cfg f c o = refl

observe_all-settled :
    (f : Rates) (c : Classifier f) (os : List (Observation f))
    → (observe_all f c os).class
      ≡ settled c.class (any f (is_bulk f c.cfg) os) (any f (shows_interactive f c.cfg) os)
unfolding observe_all any
observe_all-settled f c [] = sym (settled-start c.class)
observe_all-settled f c (o ∷ os) =
    let c' = (observe f c o).1 in
    observe_all-settled f c' os
    ∙ settled-observe f c o (any f (is_bulk f c'.cfg) os) (any f (shows_interactive f c'.cfg) os)
    ∙ ap
        (λ cfg.
          settled c.class (is_bulk f c.cfg o || any f (is_bulk f cfg) os)
            (shows_interactive f c.cfg o || any f (shows_interactive f cfg) os))
        (observe-cfg f c o)

-- Whatever is observed of a new flow and in whatever order: its class is bulk if any observation was
-- one of a bulk transfer, else interactive if any showed a flow that is old enough and interactive
-- or no longer small, else new.
pub observe_all-new :
    (f : Rates) (cfg : Config f) (os : List (Observation f))
    → (observe_all f (new f cfg) os).class ≡ (
        if any f (is_bulk f (new f cfg).cfg) os
        then class_bulk
        else if any f (shows_interactive f (new f cfg).cfg) os
        then class_interactive
        else class_new)
unfolding new settled is_bulk_class is_new_class
observe_all-new f cfg os = observe_all-settled f (new f cfg) os
