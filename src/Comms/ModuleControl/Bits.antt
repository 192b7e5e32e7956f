-- ===== src/Comms/ModuleControl/Bits.antt =====
-- The bit-field `input_ids` of include/crisp/comms/ModuleControl.hh.
use robocrisp.Base.{
  ℕ, zero, suc, ◌+◌, ◌*◌, ◌/◌, ◌%◌, ◌≤◌, ◌<◌, ◌≡◌, ◌≢◌, refl, ap, true, false, arith, ◌==◌,
}
use robocrisp.Comms.ModuleControl.{has_bit, set_bit, count_bits}

halved : (x r : ℕ) → r < 2 → (2 * x + r) / 2 ≡ x
halved x r h = omega arith

pub has_bit-set_bit : (ids j : ℕ) → has_bit (set_bit ids j) j ≡ true
unfolding has_bit set_bit
has_bit-set_bit ids zero = ground arith
has_bit-set_bit ids (suc j) =
    rw (halved (set_bit (ids / 2) j) (ids % 2) (omega arith)) (has_bit-set_bit (ids / 2) j)

pub has_bit-set_bit_other : (ids j k : ℕ) → k ≢ j → has_bit (set_bit ids j) k ≡ has_bit ids k
unfolding has_bit set_bit
has_bit-set_bit_other ids zero zero h = absurd (h refl)
has_bit-set_bit_other ids zero (suc k) h = rw (halved (ids / 2) 1 (omega arith)) refl
has_bit-set_bit_other ids (suc j) zero h = ap (λ b. b == 1) low
  where
    low : (2 * set_bit (ids / 2) j + ids % 2) % 2 ≡ ids % 2
    low = omega arith
has_bit-set_bit_other ids (suc j) (suc k) h =
    rw (halved (set_bit (ids / 2) j) (ids % 2) (omega arith))
      (has_bit-set_bit_other (ids / 2) j k (λ e. h (ap suc e)))

-- The numbers that `n` bits hold are those below this.
unfoldable pub bound : ℕ → ℕ
bound zero = 1
bound (suc n) = 2 * bound n

pub set_bit-bound : (n ids j : ℕ) → j < n → ids < bound n → set_bit ids j < bound n
unfolding set_bit bound
set_bit-bound zero ids j h b = absurd (omega arith)
set_bit-bound (suc n) ids zero h b = omega arith
set_bit-bound (suc n) ids (suc j) h b =
    omega (arith, set_bit-bound n (ids / 2) j (omega arith) (omega arith))

pub count_bits-bound : (n ids : ℕ) → count_bits n ids ≤ n
unfolding count_bits
count_bits-bound zero ids = omega arith
count_bits-bound (suc n) ids = omega (arith, count_bits-bound n (ids / 2))

-- A number of `n` bits has no bit from the `n`-th on.
pub has_bit-bound : (n j ids : ℕ) → n ≤ j → ids < bound n → has_bit ids j ≡ false
unfolding has_bit bound
has_bit-bound zero zero ids h b = ground arith
has_bit-bound zero (suc j) ids h b = has_bit-bound zero j (ids / 2) (omega arith) (omega arith)
has_bit-bound (suc n) zero ids h b = absurd (omega arith)
has_bit-bound (suc n) (suc j) ids h b = has_bit-bound n j (ids / 2) (omega arith) (omega arith)
