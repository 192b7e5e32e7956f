-- ===== src/Comms/ModuleControl/Clearing.antt =====
-- `clear` of include/crisp/comms/ModuleControl.hh.
use robocrisp.Base.{ℕ, ◌<◌, ◌≡◌, length, none, arith}
use robocrisp.Comms.ModuleInput.{ModuleInput}
use robocrisp.Comms.Module.{Module}
use robocrisp.Comms.Configuration.{Configuration}
use robocrisp.Comms.ModuleControl.{ModuleControl, set_bit, clear, clear_bit}
use robocrisp.Comms.ModuleControl.Codec.{IsControl, get_num_values-length}

-- The bits after `clear`.
abbrev cleared_ids : ℕ → ℕ → ℕ
cleared_ids ids id = set_bit (set_bit ids clear_bit) id

-- On a control for a module that holds values, `clear` stops at its assertion.
pub clear_refused :
    (config : Configuration) (m : Module) (input : ModuleInput) (mc : ModuleControl)
    → IsControl config m mc
    → 0 < length mc.values
    → clear input mc ≡ none
unfolding clear
clear_refused config m input mc v h = ground (arith, get_num_values-length config m mc v)
