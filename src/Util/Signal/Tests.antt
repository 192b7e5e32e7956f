-- ===== src/Util/Signal/Tests.antt =====
-- An emission during which a handler is removed: the theorem at it.
use robocrisp.Base.{[], ◌∷◌}
use robocrisp.Util.Signal.{Signal, Emission}

abbrev both : Signal
both = record { actions = 1 ∷ 0 ∷ []; next_action = 2 }

-- The first handler was called, then the second was removed and another one connected.
abbrev over : Emission
over = record {
  signal = record { actions = 2 ∷ 0 ∷ []; next_action = 3 };
  pending = [];
  called = 0 ∷ [];
}

-- Where the second was just removed.
abbrev removed : Emission
removed = record {
  signal = record { actions = 0 ∷ []; next_action = 2 };
  pending = 1 ∷ [];
  called = 0 ∷ [];
}
