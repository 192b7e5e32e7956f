-- ===== src/Input/EvDevController/Routing.antt =====
-- Where the events of a device go.
use robocrisp.Base.{
  ℕ, zero, suc, ◌<◌, ◌≡◌, ◌≢◌, inl, inr, refl, sym, ap, ◌∙◌, Bool, true, false, ◌||◌, List, [], ◌∷◌,
  map, length, length-set, get_elem?, Option, none, some, some-injective, Option-cases, ◌==◌,
  ==_refl, if◌then◌else◌, All-get_elem?, arith,
}
use robocrisp.Base.Int.{ℤ, eq}
use robocrisp.Input.Axis
use robocrisp.Input.Axis.{Real, linear}
use robocrisp.Input.EvDevController.{
  AbsInfo, Device, Entry, Event, find_axis, entries, EvDevController, axis_of, posted, post_axis,
  post_button, behind, and_then, new, Emission, Outcome, handled, thrown, out_of_range, handle, run,
}
use robocrisp.Input.EvDevController.Laws.{
  if_true, find_axis-places, places-find_axis, IsEntry, entries-IsEntry, entries-there,
}

or_true : (p : Bool) → (p || true) ≡ true
or_true true = refl
or_true false = refl

in_range {ℓ} :
    {A : Type ℓ} (xs : List A) (k : ℕ) → k < length xs → (x : A) × (get_elem? xs k ≡ some x)
in_range [] k h = absurd (omega (arith, h))
in_range (x ∷ xs) zero h = (x, refl)
in_range (x ∷ xs) (suc k) h = in_range xs k (omega (arith, h))

below_length {ℓ} :
    {A : Type ℓ} (xs : List A) (k : ℕ) (x : A) → get_elem? xs k ≡ some x → k < length xs
below_length [] k x h = cc
below_length (y ∷ xs) zero x h = omega arith
below_length (y ∷ xs) (suc k) x h = omega (arith, below_length xs k x h)

module _ (R : Real) (d : Device) where
  get_elem?-map :
      (es : List Entry) (j : ℕ) (e : Entry)
      → get_elem? es j ≡ some e
      → get_elem? (map (λ e. axis_of R e.absinfo) es) j ≡ some (axis_of R e.absinfo)
  get_elem?-map [] j e h = cc
  get_elem?-map (x ∷ es) zero e h = ap (λ e. some (axis_of R e.absinfo)) (some-injective x e h)
  get_elem?-map (x ∷ es) (suc j) e h = get_elem?-map es j e h

  -- The axis that the maps find.
  found_axis :
      (t c k : ℕ)
      → find_axis t c (new R d).axis_map ≡ some k
      → (e : Entry) × (get_elem? (new R d).axes k ≡ some (axis_of R e.absinfo))
        × (e.type ≡ t)
        × (e.code ≡ c)
        × IsEntry d e
  unfolding new
  found_axis t c k h =
      let (e, j, at, there, type, code) = find_axis-places t c k (entries d) 0 h in
      (
        e,
        ap (get_elem? (map (λ e. axis_of R e.absinfo) (entries d))) (omega (arith, at))
            ∙ get_elem?-map (entries d) j e there,
        type,
        code,
        All-get_elem? (IsEntry d) (entries d) j e (entries-IsEntry d) there,
      )

  handle-post_axis :
      (c : EvDevController R) (e : Event)
      → e.type ≡ d.ev_abs
      → handle R d c e ≡ post_axis R c e.value (find_axis e.type e.code c.axis_map)
  unfolding handle
  handle-post_axis c e h = if_true _ _ _ either
    where
      either : ((e.type == d.ev_rel) || (e.type == d.ev_abs)) ≡ true
      either = rw (h, ==_refl d.ev_abs) (or_true (d.ev_abs == d.ev_rel))

  -- An event of an axis that the device has.
  handle-there :
      (code : ℕ) (info : AbsInfo) (value : ℤ)
      → d.ev_abs ≢ d.ev_rel
      → d.has_event_type d.ev_abs ≡ true
      → code < d.abs_count
      → d.abs_info code ≡ some info
      → eq info.minimum info.maximum ≡ false
      → (k : ℕ) × (get_elem? (new R d).axes k ≡ some (axis_of R (some info)))
        × (handle R d (new R d) (record { type = d.ev_abs; code = code; value = value })
            ≡ posted R (new R d) k (Axis.post R (axis_of R (some info)) value))
  unfolding new
  handle-there code info value differ t l h r =
      let (j, there) = entries-there d code info t l h r in
      let (k, found) = places-find_axis d.ev_abs code (entries d) 0 j _ there refl refl in
      let (e, at, type, same, sort) = found_axis d.ev_abs code k found in
      let axis : get_elem? (new R d).axes k ≡ some (axis_of R (some info)) =
        at ∙ ap (λ o. some (axis_of R o)) (info_of e type same sort) in
      (k, axis, handle-post_axis (new R d) _ refl ∙ rw (found, axis) refl)
    where
      info_of :
          (e : Entry) → e.type ≡ d.ev_abs → e.code ≡ code → IsEntry d e → e.absinfo ≡ some info
      info_of e type same (inl (rel, blank)) = absurd (differ (sym type ∙ rel))
      info_of e type same (inr (abs, info', told, has)) = has ∙ sym told ∙ ap d.abs_info same ∙ h

  -- An event of an axis that the device does not have.
  handle-absent :
      (code : ℕ) (value : ℤ)
      → d.ev_abs ≢ d.ev_rel
      → d.abs_info code ≡ none
      → handle R d (new R d) (record { type = d.ev_abs; code = code; value = value })
        ≡ handled (new R d) []
  handle-absent code value differ h =
      elim (Option-cases (find_axis d.ev_abs code (new R d).axis_map)) [
        | inl nowhere ↦ handle-post_axis (new R d) _ refl ∙ rw nowhere refl
        | inr (k, found) ↦
            let (e, at, type, same, sort) = found_axis d.ev_abs code k found in
            absurd (gone e type same sort)
      ]
    where
      gone : (e : Entry) → e.type ≡ d.ev_abs → e.code ≡ code → IsEntry d e → ⊥
      gone e type same (inl (rel, blank)) = differ (sym type ∙ rel)
      gone e type same (inr (abs, info, told, has)) =
          let both : none ≡ some info = sym h ∙ ap d.abs_info (sym same) ∙ told in cc

  -- The controller has the axes of the device, whatever they did.
  record IsSafe (c : EvDevController R) : Type 0 where
    same_map : c.axis_map ≡ (new R d).axis_map
    same_length : length c.axes ≡ length (new R d).axes

  data Fine : Outcome R → Type 0 where
    fine : {c : EvDevController R} {ms : List (Emission R)} → IsSafe c → Fine (handled c ms)
    throws : {ms : List (Emission R)} → Fine (thrown ms)

  behind-Fine : (ms : List (Emission R)) (o : Outcome R) → Fine o → Fine (behind R ms o)
  behind-Fine ms (handled c ms') (fine v) = fine v
  behind-Fine ms (thrown ms') throws = throws
  behind-Fine ms out_of_range v = elim v [ ]

  and_then-Fine :
      (o : Outcome R) (f : EvDevController R → Outcome R)
      → Fine o
      → ((c : EvDevController R) → IsSafe c → Fine (f c))
      → Fine (and_then R o f)
  and_then-Fine (handled c ms) f (fine v) h = behind-Fine ms (f c) (h c v)
  and_then-Fine (thrown ms) f throws h = throws
  and_then-Fine out_of_range f v h = elim v [ ]

  posted-Fine :
      (c : EvDevController R) (k : ℕ) (p : Axis.Axis R × Option (Axis.State R))
      → IsSafe c
      → Fine (posted R c k p)
  posted-Fine c k (a, none) v = throws
  posted-Fine c k (a, some st) v =
      fine (record { same_map = v.same_map; same_length = length-set c.axes k a ∙ v.same_length })

  post_axis-Fine :
      (c : EvDevController R) (t i : ℕ) (value : ℤ)
      → IsSafe c
      → Fine (post_axis R c value (find_axis t i c.axis_map))
  post_axis-Fine c t i value v = elim (Option-cases (find_axis t i c.axis_map)) [
    | inl nowhere ↦ rw nowhere (fine v)
    | inr (k, found) ↦
        let (e, at, type, same, sort) =
          found_axis t i k (ap (find_axis t i) (sym v.same_map) ∙ found) in
        let (a, there) =
          in_range c.axes k (omega (arith, v.same_length, below_length (new R d).axes k _ at)) in
        rw (found, there) (posted-Fine c k (Axis.post R a value) v)
  ]

  post_button-Fine :
      (c : EvDevController R) (value : ℤ) (o : Option ℕ) → IsSafe c → Fine (post_button R c value o)
  post_button-Fine c value none v = fine v
  post_button-Fine c value (some k) v = fine v

  handle-Fine : (c : EvDevController R) (e : Event) → IsSafe c → Fine (handle R d c e)
  unfolding handle
  handle-Fine c e v =
      choose ((e.type == d.ev_rel) || (e.type == d.ev_abs)) _ _
        (post_axis-Fine c e.type e.code e.value v)
        (choose (e.type == d.ev_key) _ _ (post_button-Fine c e.value _ v) (fine v))
    where
      choose : (p : Bool) (x y : Outcome R) → Fine x → Fine y → Fine (if p then x else y)
      choose true x y a b = a
      choose false x y a b = b

  run-Fine : (es : List Event) (c : EvDevController R) → IsSafe c → Fine (run R d c es)
  unfolding run
  run-Fine [] c v = fine v
  run-Fine (e ∷ es) c v =
      and_then-Fine (handle R d c e) (λ c'. run R d c' es) (handle-Fine c e v)
        (λ c' w. run-Fine es c' w)

  in_range_lem : (o : Outcome R) → Fine o → o ≢ out_of_range
  in_range_lem (handled c ms) (fine v) h = cc
  in_range_lem (thrown ms) throws h = cc
  in_range_lem out_of_range v h = elim v [ ]

  -- The numbers of the two types of axes differ, and the device has the absolute axis `code`, whose range is
  -- not empty, and not the absolute axis `absent`. Then the controller made of it has a linear axis whose
  -- neutral value is the device's value, whose range is the device's range, and whose dead zone is the
  -- device's flat value to both sides, and an event of `code` is posted to that axis; an event of `absent`
  -- changes and emits nothing; and whatever events are read, no place outside of the axes is looked at.
  pub events_arrive :
      (code absent : ℕ) (info : AbsInfo) (value : ℤ) (es : List Event)
      → d.ev_abs ≢ d.ev_rel
      → d.has_event_type d.ev_abs ≡ true
      → code < d.abs_count
      → d.abs_info code ≡ some info
      → eq info.minimum info.maximum ≡ false
      → d.abs_info absent ≡ none
      → ((k : ℕ) × (a : Axis.Axis R) × (get_elem? (new R d).axes k ≡ some a)
          × (a.map_method ≡ linear)
          × (a.raw.neutral ≡ info.value)
          × (a.raw.minimum ≡ info.minimum)
          × (a.raw.maximum ≡ info.maximum)
          × (a.raw.deadzone_lower ≡ info.flat)
          × (a.raw.deadzone_upper ≡ info.flat)
          × (handle R d (new R d) (record { type = d.ev_abs; code = code; value = value })
              ≡ posted R (new R d) k (Axis.post R a value)))
        × (handle R d (new R d) (record { type = d.ev_abs; code = absent; value = value })
            ≡ handled (new R d) [])
        × (run R d (new R d) es ≢ out_of_range)
  unfolding axis_of Axis.new_linear
  events_arrive code absent info value es differ t l h r gone = (
    (let (k, at, done) = handle-there code info value differ t l h r in
        (k, axis_of R (some info), at, refl, refl, refl, refl, refl, refl, done)),
    handle-absent absent value differ gone,
    in_range_lem (run R d (new R d) es)
        (run-Fine es (new R d) (record { same_map = refl; same_length = refl })),
  )
