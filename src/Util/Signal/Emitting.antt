-- ===== src/Util/Signal/Emitting.antt =====
-- Which handlers an emission of include/crisp/util/bits/Signal.tcc calls.
use robocrisp.Base.{ℕ, ◌+◌, ◌≤◌, ◌<◌, ◌≡◌, ◌⊎◌, List, []}
use robocrisp.Util.Signal.{Signal, Emission, count}

-- The handlers of a signal: each is connected once, and has a number that was given out.
pub record IsSignal (s : Signal) : Type 0 where
  pub once : (x : ℕ) → count x s.actions ≤ 1
  pub given : (x : ℕ) → s.next_action ≤ x → count x s.actions ≡ 0

-- What holds of an emission over `snapshot`: a handler is called or to be looked at as often as it was
-- connected when the emission began, unless it was removed.
pub record IsEmission (snapshot : List ℕ) (e : Emission) : Type 0 where
  pub sound : IsSignal e.signal
  pub older : (x : ℕ) → e.signal.next_action ≤ x → count x snapshot ≡ 0
  pub most : (x : ℕ) → count x e.called + count x e.pending ≤ count x snapshot
  pub kept :
      (x : ℕ)
      → (count x e.signal.actions ≡ 0) ⊎ (count x e.called + count x e.pending ≡ count x snapshot)

-- An emission of a signal that begins, with its handlers in some order.
abbrev pub begin : Signal → List ℕ → Emission
begin s snapshot = record { signal = s; pending = snapshot; called = [] }

-- A handler that was removed, and has a number that was given out.
abbrev IsGone : ℕ → Emission → Type 0
IsGone x e = (count x e.signal.actions ≡ 0) × (x < e.signal.next_action)
