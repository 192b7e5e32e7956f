-- ===== src/Comms/Configuration/Codec.antt =====
-- Encoding a configuration and decoding it again, and what is reported when the space or the bytes
-- run out.
use robocrisp.Base.{
  ℕ, zero, suc, ◌≤◌, ◌≡◌, refl, sym, ap, ◌∙◌, true, List, [], ◌∷◌, ◌++◌, map, All, length, ==_refl,
  length-append, append_assoc, append-nil, subst, arith,
}
use robocrisp.Comms.Buffer.{EncodeBuffer, DecodeBuffer, DecodeResult, EncodeResult}
use robocrisp.Comms.Buffer.Laws.{
  ahead, advance, IsSmall, IsValid, room, written, put, reopen, ahead-put, reopen-IsSmall,
  advance-reopen, written-put, read-ahead, advance-zero, ahead-advance, advance-IsSmall,
}
use robocrisp.Comms.Encoder.{concat_map, Emits, write-Emits, >>-Emits, done-Emits, each-Emits}
use robocrisp.Comms.Module
use robocrisp.Comms.Module.{Module, all_equal, sum_map}
use robocrisp.Comms.Module.Form
use robocrisp.Comms.Module.Form.{IsModule, restored_module}
use robocrisp.Comms.Module.Encoding.{encode_module-Emits}
use robocrisp.Comms.Module.Decoding.{decode_module-restored}
use robocrisp.Comms.Module.Equality.{
  equal-restored_module, get_encoded_size-length_module, all_equal-map,
}
use robocrisp.Comms.Configuration.{
  Configuration, encode, decode, decode_modules, get_encoded_size, size_of_first, equal,
}

-- The counter counts, and every module can be encoded.
pub record IsConfiguration (c : Configuration) : Type 0 where
  pub modules_counted : c.num_modules ≡ length c.modules
  pub modules_fit : All IsModule c.modules

-- The encoded form.
abbrev pub bytes : Configuration → List ℕ
bytes c = (c.num_modules ∷ []) ++ concat_map Form.bytes c.modules

-- What `decode` makes of the encoded form.
unfoldable pub restored_configuration : Configuration → Configuration
restored_configuration c = record {
  num_modules = c.num_modules;
  modules = map restored_module c.modules;
  next_module_id = 0;
}

pub encode_configuration-Emits :
    (c : Configuration) → IsConfiguration c → Emits (encode c) (bytes c)
unfolding encode
encode_configuration-Emits c v = >>-Emits _ _ _ _ (write-Emits (c.num_modules ∷ [])) (
    subst (Emits _) (append-nil (concat_map Form.bytes c.modules)) (
      >>-Emits _ _ _ _
        (each-Emits IsModule Module.encode Form.bytes encode_module-Emits c.modules v.modules_fit)
        done-Emits))

length-size_of_first :
    (n : ℕ) (ms : List Module)
    → n ≡ length ms
    → All IsModule ms
    → size_of_first n ms ≡ length (concat_map Form.bytes ms)
unfolding size_of_first
length-size_of_first zero [] h all = refl
length-size_of_first zero (m ∷ ms) h all = absurd (omega arith)
length-size_of_first (suc n) [] h all = absurd (omega arith)
length-size_of_first (suc n) (m ∷ ms) h all = omega (
  arith,
  get_encoded_size-length_module m all.0,
  length-size_of_first n ms (omega arith) all.1,
  length-append (Form.bytes m) (concat_map Form.bytes ms),
)

-- For a configuration whose counters count and whose fields hold what they can hold,
-- `get_encoded_size` is the number of bytes of its encoded form.
pub get_encoded_size-length_configuration :
    (c : Configuration) → IsConfiguration c → get_encoded_size c ≡ length (bytes c)
unfolding get_encoded_size
get_encoded_size-length_configuration c v = omega (
  arith,
  length-size_of_first c.num_modules c.modules v.modules_counted v.modules_fit,
  length-append (c.num_modules ∷ []) (concat_map Form.bytes c.modules),
)

decode_modules-restored :
    (fresh : ℕ → List ℕ) (n : ℕ) (ms : List Module) (b : DecodeBuffer) (ys : List ℕ)
    → n ≡ length ms
    → All IsModule ms
    → IsSmall b
    → ahead b ≡ concat_map Form.bytes ms ++ ys
    → decode_modules fresh n b ≡ (
      DecodeResult.success,
      map restored_module ms,
      advance b (length (concat_map Form.bytes ms)),
    )
unfolding decode_modules
decode_modules-restored fresh zero [] b ys h all s a =
    ap (λ c. (DecodeResult.success, [], c)) (sym (advance-zero b))
decode_modules-restored fresh zero (m ∷ ms) b ys h all s a = absurd (omega arith)
decode_modules-restored fresh (suc n) [] b ys h all s a = absurd (omega arith)
decode_modules-restored fresh (suc n) (m ∷ ms) b ys h all s a =
    rw
      (
        decode_module-restored fresh Module.blank m b (concat_map Form.bytes ms ++ ys) all.0 s a',
        decode_modules-restored fresh n ms (advance b (length (Form.bytes m))) ys (omega arith)
            all.1 (advance-IsSmall b (Form.bytes m) (concat_map Form.bytes ms ++ ys) s a')
            (ahead-advance b (Form.bytes m) (concat_map Form.bytes ms ++ ys) a'),
      )
      (ap
        (λ k. (
          DecodeResult.success,
          restored_module m ∷ map restored_module ms,
          record b { offset = k },
        ))
        (omega (arith, length-append (Form.bytes m) (concat_map Form.bytes ms))))
  where
    a' : ahead b ≡ Form.bytes m ++ (concat_map Form.bytes ms ++ ys)
    a' = a ∙ append_assoc (Form.bytes m) (concat_map Form.bytes ms) ys

pub decode_configuration-restored :
    (fresh : ℕ → List ℕ) (old c : Configuration) (b : DecodeBuffer) (ys : List ℕ)
    → IsConfiguration c
    → IsSmall b
    → ahead b ≡ bytes c ++ ys
    → decode fresh old b
      ≡ (DecodeResult.success, restored_configuration c, advance b (length (bytes c)))
unfolding decode restored_configuration
decode_configuration-restored fresh old c b ys v s a =
    rw
      (
        read-ahead b 1 (c.num_modules ∷ []) (ms ++ ys) (0 ∷ []) refl s a,
        decode_modules-restored fresh c.num_modules c.modules (advance b 1) ys v.modules_counted
            v.modules_fit (advance-IsSmall b (c.num_modules ∷ []) (ms ++ ys) s a)
            (ahead-advance b (c.num_modules ∷ []) (ms ++ ys) a),
      )
      (ap (λ k. (DecodeResult.success, restored_configuration c, record b { offset = k }))
        (omega arith))
  where
    ms : List ℕ
    ms = concat_map Form.bytes c.modules

pub equal-restored_configuration :
    (c : Configuration) → IsConfiguration c → equal c (restored_configuration c) ≡ true
unfolding equal restored_configuration
equal-restored_configuration c v = rw (
  ==_refl c.num_modules,
  all_equal-map IsModule Module.equal restored_module equal-restored_module c.num_modules c.modules
      v.modules_counted v.modules_fit,
)

-- A configuration whose counters count, whose fields hold what they can hold and whose names are
-- there is encoded with SUCCESS into a well-formed buffer with room for `get_encoded_size` bytes:
-- its encoded form is appended to what was written, and decoding from where it began, into any
-- configuration, gives SUCCESS, stops where the encoder stopped, and makes a configuration that is
-- `==` to the one encoded.
pub decode-encode_configuration :
    (fresh : ℕ → List ℕ) (c old : Configuration) (b : EncodeBuffer)
    → IsConfiguration c
    → IsValid b
    → get_encoded_size c ≤ room b
    → let (r, b') = encode c b in
      (r ≡ EncodeResult.success)
      × (written b' ≡ written b ++ bytes c)
      × (decode fresh old (reopen b' b.offset)
          ≡ (DecodeResult.success, restored_configuration c, reopen b' b'.offset))
      × (equal c (restored_configuration c) ≡ true)
decode-encode_configuration fresh c old b v w h = rw (encode_configuration-Emits c v b w fits) (
  refl,
  written-put b (bytes c) w fits,
  decode_configuration-restored fresh old c (reopen (put b (bytes c)) b.offset) _ v
        (reopen-IsSmall b (bytes c) w fits) (ahead-put b (bytes c) w fits)
      ∙ ap (λ d. (DecodeResult.success, restored_configuration c, d))
          (advance-reopen b (bytes c) w fits),
  equal-restored_configuration c v,
)
  where
    fits : length (bytes c) ≤ room b
    fits = omega (arith, get_encoded_size-length_configuration c v)
