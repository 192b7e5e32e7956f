-- ===== src/Input/Button.antt =====
-- include/crisp/input/Button.hh and src/input/Button.cc, with `post` of
-- include/crisp/input/MappedEventSource.hh.
use robocrisp.Base.{if◌then◌else◌}
use robocrisp.Base.Int.{ℤ, pos, eq}

pub data ButtonState : Type 0 where
  unknown pressed released : ButtonState

-- What handlers of the signal are called with.
pub record State : Type 0 where
  pub raw_value : ℤ
  pub value : ButtonState

unfoldable pub map : ℤ → ButtonState
map raw_value = if eq raw_value (pos 0) then released else pressed

unfoldable pub post : ℤ → State
post raw_value = record { raw_value = raw_value; value = map raw_value }
