-- ===== src/Input/EvDevController.antt =====
-- include/crisp/input/EvDevController.hh and src/input/EvDevController.cc: the axes and buttons of an event
-- device, and the events that it reads; the arrays of the constructor are lists. libevdev's view of the device and the numbers of linux/input.h are
-- parameters. An axis or a button is found by its place.
pub mod Laws
pub mod Routing
pub mod Tests
use robocrisp.Base.{
  ℕ, zero, suc, Bool, not, ◌&&◌, ◌||◌, List, [], ◌∷◌, ◌++◌, map, set, get_elem?, Option, none, some,
  ◌==◌, if◌then◌else◌,
}
use robocrisp.Base.Int.{ℤ, eq}
use robocrisp.Input.Axis
use robocrisp.Input.Axis.{Real, RawConfig, relative, absolute}
use robocrisp.Input.Button

-- `struct input_absinfo`.
pub record AbsInfo : Type 0 where
  pub value : ℤ
  pub minimum : ℤ
  pub maximum : ℤ
  pub flat : ℤ

-- What the device says, and the constants.
pub record Device : Type 0 where
  pub has_event_type : ℕ → Bool
  pub has_event_code : ℕ → ℕ → Bool
  pub abs_info : ℕ → Option AbsInfo
  pub ev_key : ℕ
  pub ev_rel : ℕ
  pub ev_abs : ℕ
  pub abs_count : ℕ
  pub event_count : ℕ
  pub key_count : ℕ

-- An element of `_axes`; `absinfo` stays blank for a relative axis.
pub record Entry : Type 0 where
  pub type : ℕ
  pub code : ℕ
  pub absinfo : Option AbsInfo

abbrev pub with_found {ℓ} : {A : Type ℓ} → Option A → List A → List A
with_found none xs = xs
with_found (some x) xs = x ∷ xs

-- A loop over the numbers from `i` on, `n` of them, which collects what it finds.
unfoldable pub collect {ℓ} : {A : Type ℓ} → (ℕ → Option A) → ℕ → ℕ → List A
collect f i zero = []
collect f i (suc n) = with_found (f i) (collect f (suc i) n)

-- The elements of a list with their places, from `k` on.
unfoldable pub places {ℓ} : {A : Type ℓ} → ℕ → List A → List (A × ℕ)
places k [] = []
places k (x ∷ xs) = (x, k) ∷ places (suc k) xs

-- `find` of the maps, for keys of two numbers and of one.
unfoldable pub find_axis : ℕ → ℕ → List ((ℕ × ℕ) × ℕ) → Option ℕ
find_axis t c [] = none
find_axis t c (((t', c'), k) ∷ more) = if t' == t && c' == c then some k else find_axis t c more

unfoldable pub find_button : ℕ → List (ℕ × ℕ) → Option ℕ
find_button c [] = none
find_button c ((c', k) ∷ more) = if c' == c then some k else find_button c more

-- `ev.type`, `ev.code` and `ev.value`.
pub record Event : Type 0 where
  pub type : ℕ
  pub code : ℕ
  pub value : ℤ

abbrev pub is_axis : Device → Option AbsInfo → ℕ → Option Entry
is_axis d none i = none
is_axis d (some info) i =
    if not (eq info.minimum info.maximum)
    then some (record { type = d.ev_abs; code = i; absinfo = some info })
    else none

-- The absolute axes, where the range is not empty.
unfoldable pub abs_entry : Device → ℕ → Option Entry
abs_entry d i = is_axis d (d.abs_info i) i

unfoldable pub rel_entry : Device → ℕ → Option Entry
rel_entry d i =
    if d.has_event_code d.ev_rel i
    then some (record { type = d.ev_rel; code = i; absinfo = none })
    else none

unfoldable pub button_entry : Device → ℕ → Option ℕ
button_entry d i = if d.has_event_code d.ev_key i then some i else none

unfoldable pub entries : Device → List Entry
entries d =
    (if d.has_event_type d.ev_abs then collect (abs_entry d) 0 d.abs_count else [])
    ++ (if d.has_event_type d.ev_rel then collect (rel_entry d) 0 d.event_count else [])

unfoldable pub buttons_of : Device → List ℕ
buttons_of d = if d.has_event_type d.ev_key then collect (button_entry d) 0 d.key_count else []

module _ (R : Real) where
  -- A button has no state of its own.
  pub record EvDevController : Type 0 where
    pub axes : List (Axis.Axis R)
    pub buttons : List ℕ
    pub axis_map : List ((ℕ × ℕ) × ℕ)
    pub button_map : List (ℕ × ℕ)

  -- The axis of an element of `_axes`.
  unfoldable pub axis_of : Option AbsInfo → Axis.Axis R
  axis_of none = Axis.new R relative
  axis_of (some info) = Axis.new_linear R (record {
    neutral = info.value;
    minimum = info.minimum;
    maximum = info.maximum;
    deadzone_lower = info.flat;
    deadzone_upper = info.flat;
  })

  -- The constructor, where the device is opened.
  unfoldable pub new : Device → EvDevController
  new d = record {
    axes = map (λ e. axis_of e.absinfo) (entries d);
    buttons = buttons_of d;
    axis_map = map (λ p. ((p.0.type, p.0.code), p.1)) (places 0 (entries d));
    button_map = places 0 (buttons_of d);
  }

  -- What is emitted: the place of the axis or of the button, and the state.
  pub data Emission : Type 0 where
    axis_moved : (place : ℕ) → Axis.State R → Emission
    button_moved : (place : ℕ) → Button.State → Emission

  -- How an event or a run ends, and what was emitted; `post` of an axis may throw, and a place may be out of
  -- range.
  pub data Outcome : Type 0 where
    handled : EvDevController → List Emission → Outcome
    thrown : List Emission → Outcome
    out_of_range : Outcome

  abbrev posted : EvDevController → ℕ → Axis.Axis R × Option (Axis.State R) → Outcome
  posted c k (a, none) = thrown []
  posted c k (a, some st) = handled (record c { axes = set c.axes k a }) (axis_moved k st ∷ [])

  abbrev post_axis : EvDevController → ℤ → Option ℕ → Outcome
  post_axis c v none = handled c []
  post_axis c v (some k) = post_at (get_elem? c.axes k)
    where
      post_at : Option (Axis.Axis R) → Outcome
      post_at none = out_of_range
      post_at (some a) = posted c k (Axis.post R a v)

  abbrev post_button : EvDevController → ℤ → Option ℕ → Outcome
  post_button c v none = handled c []
  post_button c v (some k) = handled c (button_moved k (Button.post v) ∷ [])

  -- The `switch` of `run`.
  unfoldable pub handle : Device → EvDevController → Event → Outcome
  handle d c e =
      if e.type == d.ev_rel || (e.type == d.ev_abs)
      then post_axis c e.value (find_axis e.type e.code c.axis_map)
      else if e.type == d.ev_key
      then post_button c e.value (find_button e.code c.button_map)
      else handled c []

  abbrev behind : List Emission → Outcome → Outcome
  behind ms (handled c ms') = handled c (ms ++ ms')
  behind ms (thrown ms') = thrown (ms ++ ms')
  behind ms out_of_range = out_of_range

  abbrev and_then : Outcome → (EvDevController → Outcome) → Outcome
  and_then (handled c ms) f = behind ms (f c)
  and_then (thrown ms) f = thrown ms
  and_then out_of_range f = out_of_range

  -- `run` over the events that are read until a read fails.
  unfoldable pub run : Device → EvDevController → List Event → Outcome
  run d c [] = handled c []
  run d c (e ∷ es) = and_then (handle d c e) (λ c'. run d c' es)
