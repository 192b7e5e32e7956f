-- ===== src/Comms/ModuleControl/Errors.antt =====
-- Inputs that the bit-field of include/crisp/comms/ModuleControl.hh has no bit for.
use robocrisp.Base.{ℕ, zero, suc, List}
use robocrisp.Comms.ModuleInput.{ModuleInput}
use robocrisp.Comms.Module.{Module}
use robocrisp.Comms.DataValue
use robocrisp.Comms.ModuleControl.{ModuleControl, ValuePair, add_pair}

-- The control after `n` calls of `value_for` that each add a pair.
unfoldable pub added :
    (List ValuePair → List ValuePair) → ModuleInput → ℕ → ModuleControl → ModuleControl
added sort input zero mc = mc
added sort input (suc n) mc = add_pair sort input (added sort input n mc)
