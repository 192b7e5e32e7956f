-- ===== src/Comms/Module/Decoding.antt =====
-- `Module::decode` restores a module from its encoded form.
use robocrisp.Base.{
  ℕ, ◌+◌, ◌%◌, ◌≡◌, refl, sym, ap, ◌∙◌, List, [], ◌∷◌, ◌++◌, map, All, length, subst, length-append,
  append_assoc, arith,
}
use robocrisp.Comms.Buffer.{DecodeBuffer, DecodeResult}
use robocrisp.Comms.Buffer.Laws.{
  ahead, advance, IsSmall, read-ahead, advance-zero, ahead-advance, advance-IsSmall,
}
use robocrisp.Comms.Encoder.{concat_map}
use robocrisp.Comms.Named.{name_bytes}
use robocrisp.Comms.Named.Codec.{restored_named, decode_name-advance, decode_copy-restored_named}
use robocrisp.Comms.ModuleInput
use robocrisp.Comms.ModuleInput.{ModuleInput, input_head}
use robocrisp.Comms.Sensor
use robocrisp.Comms.Sensor.{Sensor, SensorHead, sensor_head, get_name_length}
use robocrisp.Comms.Module.{
  Module, header, header_size, set_header, reset, decode, decode_each, next_id, back_or,
}
use robocrisp.Comms.Module.Form.{
  IsInput, IsSensor, input_bytes, sensor_bytes, IsModule, bytes, restored_module,
}

-- Decoding one element after the other.
pub decode_each-advance {ℓ κ} :
    {A : Type ℓ} (P : A → Type κ) (f : A → List ℕ) (g : A → A)
    (decode_one : DecodeBuffer → A × DecodeBuffer)
    → ((x : A) (b : DecodeBuffer) (ys : List ℕ)
        → P x
        → IsSmall b
        → ahead b ≡ f x ++ ys
        → decode_one b ≡ (g x, advance b (length (f x))))
    → (xs : List A) (b : DecodeBuffer) (ys : List ℕ) → All P xs
    → IsSmall b
    → ahead b ≡ concat_map f xs ++ ys
    → decode_each decode_one (length xs) b ≡ (map g xs, advance b (length (concat_map f xs)))
unfolding decode_each
decode_each-advance P f g one step [] b ys all s a = ap (λ c. ([], c)) (sym (advance-zero b))
decode_each-advance P f g one step (x ∷ xs) b ys all s a =
    rw
      (
        step x b (concat_map f xs ++ ys) all.0 s a',
        decode_each-advance P f g one step xs (advance b (length (f x))) ys all.1
            (advance-IsSmall b (f x) (concat_map f xs ++ ys) s a')
            (ahead-advance b (f x) (concat_map f xs ++ ys) a'),
      )
      (ap (λ k. (g x ∷ map g xs, record b { offset = k }))
        (omega (arith, length-append (f x) (concat_map f xs))))
  where
    a' : ahead b ≡ f x ++ (concat_map f xs ++ ys)
    a' = a ∙ append_assoc (f x) (concat_map f xs) ys

next_id-map {ℓ} :
    {A : Type ℓ} (id : A → ℕ) (g : A → A)
    → ((x : A) → id (g x) ≡ id x)
    → (xs : List A) → next_id id (map g xs) ≡ next_id id xs
next_id-map id g same [] = refl
next_id-map {A} id g same (x ∷ xs) = ap (λ k. (k + 1) % 256) (last x xs)
  where
    last : (x : A) (xs : List A) → id (back_or (map g xs) (g x)) ≡ id (back_or xs x)
    last x [] = same x
    last x (y ∷ ys) = last y ys

decode_input-restored :
    (fresh : ℕ → List ℕ) (m : ModuleInput) (b : DecodeBuffer) (ys : List ℕ)
    → IsInput m
    → IsSmall b
    → ahead b ≡ input_bytes m ++ ys
    → ModuleInput.decode_copy fresh b
      ≡ (restored_named input_head m, advance b (length (input_bytes m)))
unfolding ModuleInput.decode_copy
decode_input-restored fresh m b ys v s a = decode_copy-restored_named input_head fresh m b ys v s a

decode_sensor-restored :
    (fresh : ℕ → List ℕ) (m : Sensor) (b : DecodeBuffer) (ys : List ℕ)
    → IsSensor m
    → IsSmall b
    → ahead b ≡ sensor_bytes m ++ ys
    → Sensor.decode_copy fresh b
      ≡ (restored_named sensor_head m, advance b (length (sensor_bytes m)))
unfolding Sensor.decode_copy
decode_sensor-restored fresh m b ys v s a =
    decode_copy-restored_named sensor_head fresh m b ys v s a

-- Where the encoded form of `m` lies ahead, `decode` into any module gives `restored_module m`.
pub decode_module-restored :
    (fresh : ℕ → List ℕ) (old m : Module) (b : DecodeBuffer) (ys : List ℕ)
    → IsModule m
    → IsSmall b
    → ahead b ≡ bytes m ++ ys
    → decode fresh old b ≡ (DecodeResult.success, restored_module m, advance b (length (bytes m)))
unfolding decode restored_module set_header header
decode_module-restored fresh old m b ys v s a =
    rw
      (
        read-ahead b header_size (header m) (n ++ (i ++ (k ++ ys))) (header (reset old))
            length_header s a₁,
        decode_name-advance fresh m.name m.name_length b₁ (i ++ (k ++ ys)) v.named s₁ a₂,
        at_inputs,
        at_sensors,
        next_id-map (λ (x : ModuleInput). x.head) (restored_named input_head) same_head m.inputs,
        next_id-map (λ (x : Sensor). x.head.id) (restored_named sensor_head) same_id m.sensors,
      )
      (ap (λ j. (DecodeResult.success, restored_module m, record b { offset = j })) ends)
  where
    n : List ℕ
    n = name_bytes m.name m.name_length

    i : List ℕ
    i = concat_map input_bytes m.inputs

    k : List ℕ
    k = concat_map sensor_bytes m.sensors

    length_header : length (header m) ≡ header_size
    length_header = refl

    a₁ : ahead b ≡ header m ++ (n ++ (i ++ (k ++ ys)))
    a₁ =
        a
        ∙ append_assoc (header m) (n ++ (i ++ k)) ys
        ∙ ap (◌++◌ (header m)) (append_assoc n (i ++ k) ys ∙ ap (◌++◌ n) (append_assoc i k ys))

    b₁ : DecodeBuffer
    b₁ = advance b (length (header m))

    a₂ : ahead b₁ ≡ n ++ (i ++ (k ++ ys))
    a₂ = ahead-advance b (header m) (n ++ (i ++ (k ++ ys))) a₁

    s₁ : IsSmall b₁
    s₁ = advance-IsSmall b (header m) (n ++ (i ++ (k ++ ys))) s a₁

    b₂ : DecodeBuffer
    b₂ = advance b₁ m.name_length

    a₃ : ahead b₂ ≡ i ++ (k ++ ys)
    a₃ =
        subst (λ j. ahead (advance b₁ j) ≡ i ++ (k ++ ys)) v.named
          (ahead-advance b₁ n (i ++ (k ++ ys)) a₂)

    s₂ : IsSmall b₂
    s₂ = subst (λ j. IsSmall (advance b₁ j)) v.named (advance-IsSmall b₁ n (i ++ (k ++ ys)) s₁ a₂)

    b₃ : DecodeBuffer
    b₃ = advance b₂ (length i)

    a₄ : ahead b₃ ≡ k ++ ys
    a₄ = ahead-advance b₂ i (k ++ ys) a₃

    s₃ : IsSmall b₃
    s₃ = advance-IsSmall b₂ i (k ++ ys) s₂ a₃

    at_inputs :
        decode_each (ModuleInput.decode_copy fresh) m.num_inputs b₂
        ≡ (map (restored_named input_head) m.inputs, b₃)
    at_inputs = rw v.inputs_counted (
        decode_each-advance IsInput input_bytes (restored_named input_head)
          (ModuleInput.decode_copy fresh) (decode_input-restored fresh) m.inputs b₂ (k ++ ys)
          v.inputs_fit s₂ a₃)

    at_sensors :
        decode_each (Sensor.decode_copy fresh) m.num_sensors b₃
        ≡ (map (restored_named sensor_head) m.sensors, advance b₃ (length k))
    at_sensors = rw v.sensors_counted (
        decode_each-advance IsSensor sensor_bytes (restored_named sensor_head)
          (Sensor.decode_copy fresh) (decode_sensor-restored fresh) m.sensors b₃ ys v.sensors_fit s₃
          a₄)

    same_head : (x : ModuleInput) → (restored_named input_head x).head ≡ x.head
    same_head x = unfold restored_named in refl

    same_id : (x : Sensor) → (restored_named sensor_head x).head.id ≡ x.head.id
    same_id x = unfold restored_named in refl

    ends :
        b.offset + length (header m) + m.name_length + length i + length k
        ≡ b.offset + length (bytes m)
    ends = omega (
      arith,
      length-append (header m) (n ++ (i ++ k)),
      length-append n (i ++ k),
      length-append i k,
      v.named,
    )
