-- ===== src/Comms/DataValue/Codec.antt =====
-- Encoding and decoding of the values of include/crisp/comms/DataValue.hh.
use robocrisp.Base.{
  ℕ, ◌*◌, ◌%◌, ◌≤◌, ◌<◌, ◌≡◌, refl, sym, ap, ◌∙◌, subst, false, true, List, ◌++◌, length, take,
  take-length, size_mod, sub_size, ltb_le, length-append, length-replicate, arith,
}
use robocrisp.Comms.Buffer.{DecodeBuffer}
use robocrisp.Comms.Buffer.Laws.{ahead, advance, IsSmall, length-ahead, read-ahead}
use robocrisp.Comms.Encoder.{Emits, write-Emits}
use robocrisp.Comms.DataDeclaration.{DataDeclaration}
use robocrisp.Comms.DataValue.{DataValue, new, decode, decode_count, encode, get_encoded_size}

-- A single value, of as many bytes as its type says, and the object's own.
pub record IsSingle (v : DataValue) : Type 0 where
  pub single : v.data_type.is_array ≡ false
  pub sized : length v.value ≡ v.data_type.width
  pub narrow : v.data_type.width < 32
  pub owned : v.owns_value ≡ true

pub encode-Emits : (v : DataValue) → IsSingle v → Emits (encode v) v.value
unfolding encode
encode-Emits v s =
    subst (λ xs. Emits (λ b. robocrisp.Comms.Buffer.write b xs) v.value) whole (write-Emits v.value)
  where
    whole : v.value ≡ take v.data_type.width v.value
    whole = sym (ap (λ n. take n v.value) (sym s.sized) ∙ take-length v.value)

pub get_encoded_size-length : (v : DataValue) → IsSingle v → get_encoded_size v ≡ length v.value
unfolding get_encoded_size
get_encoded_size-length v s = sym s.sized

pub decode-value :
    (fresh : ℕ → List ℕ) (v : DataValue) (b : DecodeBuffer) (rest : List ℕ)
    → IsSingle v
    → IsSmall b
    → ahead b ≡ v.value ++ rest
    → decode fresh v.data_type b ≡ (v, advance b (length v.value))
unfolding decode decode_count
decode-value fresh v b rest s small h =
    rw
      (
        s.single,
        whole,
        ltb_le (sub_size (length b.block) b.offset) v.data_type.width fits,
        read-ahead b v.data_type.width v.value rest (fresh v.data_type.width) s.sized small h,
        s.owned,
      )
      refl
  where
    whole : (1 * v.data_type.width) % size_mod ≡ v.data_type.width
    whole = omega (arith, s.narrow)

    fits : v.data_type.width ≤ sub_size (length b.block) b.offset
    fits = omega (arith, s.sized, length-ahead b, ap length h, length-append v.value rest)

pub new-IsSingle : (d : DataDeclaration) → d.is_array ≡ false → d.width < 32 → IsSingle (new d)
unfolding new
new-IsSingle d h n = record {
  single = h;
  sized = length-replicate d.width 0;
  narrow = n;
  owned = refl;
}
