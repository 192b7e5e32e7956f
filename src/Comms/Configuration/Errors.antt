-- ===== src/Comms/Configuration/Errors.antt =====
-- What `Configuration::decode` reports of a message that was cut short, and what it forgets.
use robocrisp.Base.{ℕ, zero, suc, ◌≤◌, ◌≡◌, ◌⊎◌, inl, inr, refl, ap, List, [], ◌∷◌, length, arith}
use robocrisp.Comms.Buffer.{DecodeBuffer, DecodeResult}
use robocrisp.Comms.Buffer.Laws.{ahead, IsSmall, read-ahead, read_short}
use robocrisp.Comms.Module
use robocrisp.Comms.Module.{Module}
use robocrisp.Comms.Configuration.{Configuration, blank, decode, decode_modules}

-- However few bytes there are, the loop makes `n` modules and reports SUCCESS.
decode_modules-success :
    (fresh : ℕ → List ℕ) (n : ℕ) (b : DecodeBuffer)
    → ((decode_modules fresh n b).0 ≡ DecodeResult.success)
      × (length (decode_modules fresh n b).1 ≡ n)
unfolding decode_modules Module.decode
decode_modules-success fresh zero b = (refl, refl)
decode_modules-success fresh (suc n) b =
    let rest = decode_modules-success fresh n _ in (rest.0, ap suc rest.1)

-- Where not one byte is left, `decode` reports BUFFER_UNDERFLOW and the configuration is empty.
decode_exhausted :
    (fresh : ℕ → List ℕ) (old : Configuration) (b : DecodeBuffer)
    → IsSmall b
    → ahead b ≡ []
    → decode fresh old b ≡ (DecodeResult.buffer_underflow, blank, b)
unfolding decode
decode_exhausted fresh old b s e = rw (read_short b 1 (0 ∷ []) s (omega (arith, ap length e)))

-- Where the count `n` can be read, `decode` reports SUCCESS and makes `n` modules, however few the bytes that
-- follow; and the next identifier is 0, whatever the modules' identifiers are.
decode_truncated :
    (fresh : ℕ → List ℕ) (old : Configuration) (b : DecodeBuffer) (n : ℕ) (ys : List ℕ)
    → IsSmall b
    → ahead b ≡ n ∷ ys
    → let (r, c, b') = decode fresh old b in
      (r ≡ DecodeResult.success)
      × (c.num_modules ≡ n)
      × (length c.modules ≡ n)
      × (c.next_module_id ≡ 0)
unfolding decode
decode_truncated fresh old b n ys s e =
    rw (read-ahead b 1 (n ∷ []) ys (0 ∷ []) refl s e)
      ((decode_modules-success fresh n _).0, refl, (decode_modules-success fresh n _).1, refl)

-- At most one byte of a configuration is there. Where there is none, `decode` reports BUFFER_UNDERFLOW and the
-- configuration is empty. Where there is one, the count of the modules, it reports SUCCESS all the same
-- and makes that many modules, and the next identifier is 0.
pub decode_cut :
    (fresh : ℕ → List ℕ) (old : Configuration) (b : DecodeBuffer)
    → IsSmall b
    → length (ahead b) ≤ 1
    → let (r, c, b') = decode fresh old b in
      ((ahead b ≡ []) × (decode fresh old b ≡ (DecodeResult.buffer_underflow, blank, b)))
      ⊎ ((n : ℕ) × (ahead b ≡ n ∷ [])
          × (r ≡ DecodeResult.success)
          × (c.num_modules ≡ n)
          × (length c.modules ≡ n)
          × (c.next_module_id ≡ 0))
decode_cut fresh old b s short = by_bytes (ahead b) refl
  where
    by_bytes :
        (xs : List ℕ)
        → ahead b ≡ xs
        → let (r, c, b') = decode fresh old b in
          ((ahead b ≡ []) × (decode fresh old b ≡ (DecodeResult.buffer_underflow, blank, b)))
          ⊎ ((n : ℕ) × (ahead b ≡ n ∷ [])
              × (r ≡ DecodeResult.success)
              × (c.num_modules ≡ n)
              × (length c.modules ≡ n)
              × (c.next_module_id ≡ 0))
    by_bytes [] e = inl (e, decode_exhausted fresh old b s e)
    by_bytes (n ∷ []) e =
        let (r, counted, made, next) = decode_truncated fresh old b n [] s e in
        inr (n, e, r, counted, made, next)
    by_bytes (n ∷ y ∷ ys) e = absurd (omega (arith, short, ap length e))
