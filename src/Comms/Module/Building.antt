-- ===== src/Comms/Module/Building.antt =====
-- Building a module by `add_input` and `add_sensor`, and looking an input up by its name.
use robocrisp.Base.{
  ℕ, suc, ◌+◌, ◌%◌, ◌<◌, ◌≡◌, refl, sym, ap, ◌∙◌, List, [], ◌∷◌, ◌++◌, map, length, get_or, set,
  length-append, sub_size, arith,
}
use robocrisp.Comms.Named.Codec.{restored_named}
use robocrisp.Comms.ModuleInput.{ModuleInput, input_head}
use robocrisp.Comms.Sensor.{Sensor, sensor_head}
use robocrisp.Comms.Module.{Module, add_input, add_sensor, with_id, new, next_id, back_or}
use robocrisp.Comms.Module.Form.{restored_module}

-- The identifiers count up from `n`.
abbrev pub Numbered {ℓ} : {A : Type ℓ} → (A → ℕ) → ℕ → List A → Type 0
Numbered id n [] = Unit {0}
Numbered id n (x ∷ xs) = (id x ≡ n) × Numbered id (suc n) xs

abbrev pub sensor_id : Sensor → ℕ
sensor_id s = s.head.id

abbrev pub input_id : ModuleInput → ℕ
input_id i = i.head

-- What holds of a module that was built by its methods: the counters count, every element bears its
-- index as its identifier, and the next identifiers follow.
pub record IsBuilt (m : Module) : Type 0 where
  pub inputs_counted : m.num_inputs ≡ length m.inputs
  pub sensors_counted : m.num_sensors ≡ length m.sensors
  pub next_input : m.next_input_id ≡ length m.inputs
  pub next_sensor : m.next_sensor_id ≡ length m.sensors
  pub inputs_numbered : Numbered input_id 0 m.inputs
  pub sensors_numbered : Numbered sensor_id 0 m.sensors
  pub inputs_bounded : length m.inputs < 256
  pub sensors_bounded : length m.sensors < 256

Numbered-append {ℓ} :
    {A : Type ℓ} (id : A → ℕ) (n : ℕ) (xs : List A) (y : A)
    → Numbered id n xs
    → id y ≡ n + length xs
    → Numbered id n (xs ++ y ∷ [])
Numbered-append id n [] y h e = (omega arith, tt)
Numbered-append id n (x ∷ xs) y h e = (h.0, Numbered-append id (suc n) xs y h.1 (omega arith))

pub new-IsBuilt : (name : List ℕ) → IsBuilt (new name)
unfolding new
new-IsBuilt name = record {
  inputs_counted = refl;
  sensors_counted = refl;
  next_input = refl;
  next_sensor = refl;
  inputs_numbered = tt;
  sensors_numbered = tt;
  inputs_bounded = omega arith;
  sensors_bounded = omega arith;
}

-- A module built by its methods stays so when an input is added, as long as there are fewer than 255;
-- the new input stands last, under the next identifier, with its other fields as they were given.
add_input-IsBuilt :
    (m : Module) (input : ModuleInput)
    → IsBuilt m
    → length m.inputs < 255
    → IsBuilt (add_input m input)
      × ((add_input m input).inputs ≡ m.inputs ++ record input { head = length m.inputs } ∷ [])
unfolding add_input
add_input-IsBuilt m input v h = (built, at_end)
  where
    at_end :
        m.inputs ++ record input { head = m.next_input_id } ∷ []
        ≡ m.inputs ++ record input { head = length m.inputs } ∷ []
    at_end = ap (λ n. m.inputs ++ record input { head = n } ∷ []) v.next_input

    grown : length (m.inputs ++ record input { head = m.next_input_id } ∷ []) ≡ length m.inputs + 1
    grown = omega (arith, length-append m.inputs (record input { head = m.next_input_id } ∷ []))

    built : IsBuilt (add_input m input)
    built = record {
      inputs_counted = omega (arith, grown, v.inputs_counted);
      sensors_counted = v.sensors_counted;
      next_input = omega (arith, grown, v.next_input);
      next_sensor = v.next_sensor;
      inputs_numbered =
          Numbered-append input_id 0 m.inputs (record input { head = m.next_input_id })
            v.inputs_numbered (omega (arith, v.next_input));
      sensors_numbered = v.sensors_numbered;
      inputs_bounded = omega (arith, grown);
      sensors_bounded = v.sensors_bounded;
    }

set-append_last {ℓ} :
    {A : Type ℓ} (xs : List A) (x y : A) → set (xs ++ x ∷ []) (length xs) y ≡ xs ++ y ∷ []
set-append_last [] x y = refl
set-append_last (z ∷ xs) x y = ap (◌∷◌ z) (set-append_last xs x y)

get_or-append_last {ℓ} :
    {A : Type ℓ} (xs : List A) (x d : A) → get_or (xs ++ x ∷ []) (length xs) d ≡ x
get_or-append_last [] x d = refl
get_or-append_last (z ∷ xs) x d = get_or-append_last xs x d

-- A module built by its methods stays so when a sensor is added, as long as there are fewer than
-- 255; the new sensor stands last, under the next identifier, with its other fields as they were
-- given, and it is the one that `add_sensor` finds again by the counter.
add_sensor-IsBuilt :
    (m : Module) (sensor : Sensor)
    → IsBuilt m
    → length m.sensors < 255
    → IsBuilt (add_sensor m sensor)
      × ((add_sensor m sensor).sensors ≡ m.sensors ++ with_id sensor (length m.sensors) ∷ [])
unfolding add_sensor with_id
add_sensor-IsBuilt m sensor v h = (built, at_end)
  where
    named : Sensor
    named = with_id sensor m.next_sensor_id

    found : sub_size ((m.num_sensors + 1) % 256) 1 ≡ length m.sensors
    found = omega (arith, v.sensors_counted)

    added : (add_sensor m sensor).sensors ≡ m.sensors ++ named ∷ []
    added =
        ap
          (λ at.
            set (m.sensors ++ sensor ∷ []) at
              (with_id (get_or (m.sensors ++ sensor ∷ []) at sensor) m.next_sensor_id))
          found
        ∙ ap (λ s. set (m.sensors ++ sensor ∷ []) (length m.sensors) (with_id s m.next_sensor_id))
            (get_or-append_last m.sensors sensor sensor)
        ∙ set-append_last m.sensors sensor named

    at_end : (add_sensor m sensor).sensors ≡ m.sensors ++ with_id sensor (length m.sensors) ∷ []
    at_end = added ∙ ap (λ n. m.sensors ++ with_id sensor n ∷ []) v.next_sensor

    grown : length (add_sensor m sensor).sensors ≡ length m.sensors + 1
    grown = omega (arith, ap length added, length-append m.sensors (named ∷ []))

    built : IsBuilt (add_sensor m sensor)
    built = record {
      inputs_counted = v.inputs_counted;
      sensors_counted = omega (arith, grown, v.sensors_counted);
      next_input = v.next_input;
      next_sensor = omega (arith, grown, v.next_sensor);
      inputs_numbered = v.inputs_numbered;
      sensors_numbered = rw added (
          Numbered-append sensor_id 0 m.sensors named v.sensors_numbered
            (omega (arith, v.next_sensor)));
      inputs_bounded = v.inputs_bounded;
      sensors_bounded = omega (arith, grown);
    }

Numbered-map {ℓ} :
    {A : Type ℓ} (id : A → ℕ) (g : A → A)
    → ((x : A) → id (g x) ≡ id x)
    → (n : ℕ) (xs : List A) → Numbered id n xs
    → Numbered id n (map g xs)
Numbered-map id g same n [] h = tt
Numbered-map id g same n (x ∷ xs) h = (same x ∙ h.0, Numbered-map id g same (suc n) xs h.1)

pub length-map {ℓ} : {A : Type ℓ} (g : A → A) (xs : List A) → length (map g xs) ≡ length xs
length-map g [] = refl
length-map g (x ∷ xs) = ap suc (length-map g xs)

-- The identifier behind the last one of a numbered list is its length.
next_id-Numbered {ℓ} :
    {A : Type ℓ} (id : A → ℕ) (xs : List A)
    → Numbered id 0 xs
    → length xs < 256
    → next_id id xs ≡ length xs
next_id-Numbered id [] h b = refl
next_id-Numbered {A} id (x ∷ xs) h b = omega (arith, last x xs 0 h)
  where
    last :
        (x : A) (xs : List A) (n : ℕ) → Numbered id n (x ∷ xs) → id (back_or xs x) ≡ n + length xs
    last x [] n h = omega (arith, h.0)
    last x (y ∷ ys) n h = omega (arith, last y ys (suc n) h.1)

-- What encoding and decoding makes of a module built by its methods is built by them again: the
-- counters and identifiers agree, so that its next inputs and sensors get identifiers that are not
-- yet taken.
pub restored_module-IsBuilt : (m : Module) → IsBuilt m → IsBuilt (restored_module m)
unfolding restored_module restored_named
restored_module-IsBuilt m v = record {
  inputs_counted = omega (arith, v.inputs_counted, length-map (restored_named input_head) m.inputs);
  sensors_counted =
      omega (arith, v.sensors_counted, length-map (restored_named sensor_head) m.sensors);
  next_input =
      next_id-Numbered input_id m.inputs v.inputs_numbered v.inputs_bounded
      ∙ sym (length-map (restored_named input_head) m.inputs);
  next_sensor =
      next_id-Numbered sensor_id m.sensors v.sensors_numbered v.sensors_bounded
      ∙ sym (length-map (restored_named sensor_head) m.sensors);
  inputs_numbered =
      Numbered-map input_id (restored_named input_head) (λ x. refl) 0 m.inputs v.inputs_numbered;
  sensors_numbered =
      Numbered-map sensor_id (restored_named sensor_head) (λ x. refl) 0 m.sensors
        v.sensors_numbered;
  inputs_bounded = omega (arith, v.inputs_bounded, length-map (restored_named input_head) m.inputs);
  sensors_bounded =
      omega (arith, v.sensors_bounded, length-map (restored_named sensor_head) m.sensors);
}

-- A module built by its methods stays so when an input and a sensor are added to it, as long as there
-- are fewer than 255 of each: the new input stands last among the inputs and the new sensor last among
-- the sensors, each under the next identifier, with its other fields as they were given. In which order
-- the two are added does not matter.
pub add-IsBuilt :
    (m : Module) (input : ModuleInput) (sensor : Sensor)
    → IsBuilt m
    → length m.inputs < 255
    → length m.sensors < 255
    → IsBuilt (add_input m input)
      × IsBuilt (add_sensor m sensor)
      × IsBuilt (add_sensor (add_input m input) sensor)
      × ((add_input m input).inputs ≡ m.inputs ++ record input { head = length m.inputs } ∷ [])
      × ((add_sensor m sensor).sensors ≡ m.sensors ++ with_id sensor (length m.sensors) ∷ [])
      × (add_sensor (add_input m input) sensor ≡ add_input (add_sensor m sensor) input)
unfolding add_input add_sensor
add-IsBuilt m input sensor v h k =
    let (with_input, input_last) = add_input-IsBuilt m input v h in
    let (with_sensor, sensor_last) = add_sensor-IsBuilt m sensor v k in
    (
      with_input,
      with_sensor,
      (add_sensor-IsBuilt (add_input m input) sensor with_input k).0,
      input_last,
      sensor_last,
      refl,
    )
