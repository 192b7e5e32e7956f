-- ===== src/Input/MultiplexController.antt =====
-- src/input/MultiplexController.cc: a controller of several controllers. Controllers, axes and buttons are
-- shared, and stand here for the numbers that tell them apart; a controller that is added comes with those of
-- its axes and buttons that it has then.
pub mod Laws
use robocrisp.Base.{ℕ, List, [], ◌∷◌, ◌++◌, Option, none, some, ◌==◌, if◌then◌else◌}

pub record Controller : Type 0 where
  pub this : ℕ
  pub axes : List ℕ
  pub buttons : List ℕ

pub record MultiplexController : Type 0 where
  pub controllers : List ℕ
  pub axes : List ℕ
  pub buttons : List ℕ

-- `MultiplexController()`.
unfoldable pub new : MultiplexController
new = record { controllers = []; axes = []; buttons = [] }

unfoldable pub add : Controller → MultiplexController → MultiplexController
add c m = record {
  controllers = m.controllers ++ c.this ∷ [];
  axes = m.axes ++ c.axes;
  buttons = m.buttons ++ c.buttons;
}

-- `back()` of a vector that begins with `x`.
unfoldable pub back : ℕ → List ℕ → ℕ
back x [] = x
back x (y ∷ ys) = back y ys

-- The loop of `run`: the controllers that get a thread of their own, those before the first that is `last`.
unfoldable pub threads : ℕ → List ℕ → List ℕ
threads last [] = []
threads last (x ∷ xs) = let rest = threads last xs in if x == last then [] else x ∷ rest

-- Which controllers run: in threads, and in the thread that called `run`.
pub record Running : Type 0 where
  pub detached : List ℕ
  pub here : ℕ

-- `run`; where there is no controller, `back()` is not defined.
unfoldable pub run_all : List ℕ → Option Running
run_all [] = none
run_all (x ∷ xs) = some (record { detached = threads (back x xs) (x ∷ xs); here = back x xs })

unfoldable pub run : MultiplexController → Option Running
run m = run_all m.controllers

-- The calls of `stop`.
unfoldable pub stop : MultiplexController → List ℕ
stop m = m.controllers
