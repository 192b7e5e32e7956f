-- ===== src/Util/Signal.antt =====
-- include/crisp/util/Signal.hh and include/crisp/util/bits/Signal.tcc: handlers that are called when a
-- signal is emitted. A connection is the number of its handler, given out in order, and a weak pointer
-- to a handler has expired when the handler is connected no more. An emission goes through the handlers
-- that were connected when it began, in an order that the hash set chooses, and the signal may change
-- between two of them, by another thread or by a handler. Where the signal has an `io_service`, a handler
-- that is called here is posted to it. A handler that is removed while another emission of the signal is
-- calling it expires at once here, and after that call in the code.
pub mod Emitting
pub mod Tests
use robocrisp.Base.{
  ℕ, zero, suc, ◌+◌, ◌≡◌, Bool, true, false, List, [], ◌∷◌, ◌++◌, ltb, ◌==◌, if◌then◌else◌,
}

pub record Signal : Type 0 where
  pub actions : List ℕ
  pub next_action : ℕ

-- How often a number is in a list.
unfoldable pub count : ℕ → List ℕ → ℕ
count x [] = 0
count x (y ∷ ys) = if y == x then suc (count x ys) else count x ys

-- `Signal()`.
abbrev pub blank : Signal
blank = record { actions = []; next_action = 0 }

-- `connect`: the connection and the signal.
unfoldable pub connect : Signal → ℕ × Signal
connect s =
    (s.next_action, record { actions = s.next_action ∷ s.actions; next_action = s.next_action + 1 })

unfoldable pub erase : ℕ → List ℕ → List ℕ
erase x [] = []
erase x (y ∷ ys) = if y == x then ys else y ∷ erase x ys

-- `remove`; a connection that has expired is not in the set.
unfoldable pub remove : ℕ → Signal → Signal
remove x s = record s { actions = erase x s.actions }

-- `clear`.
unfoldable pub clear : Signal → Signal
clear s = record s { actions = [] }

-- An emission: the weak pointers that are still to be looked at, and the handlers that were called.
pub record Emission : Type 0 where
  pub signal : Signal
  pub pending : List ℕ
  pub called : List ℕ

-- A round of the loops of `emit`: the handler is called if it is connected still.
unfoldable pub invoke : ℕ → List ℕ → Emission → Emission
invoke x rest e =
    if ltb 0 (count x e.signal.actions)
    then record e { pending = rest; called = e.called ++ x ∷ [] }
    else record e { pending = rest }

-- What can happen while a signal is emitted.
pub data Step : Emission → Emission → Type 0 where
  invokes : {e : Emission} (x : ℕ) (rest : List ℕ) → e.pending ≡ x ∷ rest → Step e (invoke x rest e)
  connects : {e : Emission} → Step e (record e { signal = (connect e.signal).1 })
  removes : {e : Emission} (x : ℕ) → Step e (record e { signal = remove x e.signal })
  clears : {e : Emission} → Step e (record e { signal = clear e.signal })

pub data Reach (start : Emission) : Emission → Type 0 where
  stays : Reach start start
  goes : {e e' : Emission} → Reach start e → Step e e' → Reach start e'
