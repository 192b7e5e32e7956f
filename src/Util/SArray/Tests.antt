-- ===== src/Util/SArray/Tests.antt =====
-- An array of capacity 1 that holds a number and grows.
use robocrisp.Base.{ℕ, refl, [], ◌∷◌, arith}
use robocrisp.Util.SArray.{SArray, push, ensure_capacity, copy, assign, assign_self, clear}
use robocrisp.Util.SArray.Laws.{Holds, operations-Hold}

abbrev one : SArray ℕ
one = record { cells = 5 ∷ []; size = 1; capacity = 1 }

one-Holds : Holds one (5 ∷ [])
one-Holds = record { allocated = refl; sized = refl; inside = omega arith; holds = refl }

abbrev none_yet : SArray ℕ
none_yet = record { cells = []; size = 0; capacity = 0 }

none_yet-Holds : Holds none_yet []
none_yet-Holds = record { allocated = refl; sized = refl; inside = omega arith; holds = refl }

operations-Hold_example :
    Holds (push 0 7 one) (5 ∷ 7 ∷ [])
    × Holds (ensure_capacity 0 9 one) (5 ∷ [])
    × Holds (copy 0 one) (5 ∷ [])
    × Holds (assign 0 none_yet one) (5 ∷ [])
    × Holds (assign_self 0 one) []
    × Holds (clear 0 one) []
operations-Hold_example = operations-Hold 0 one none_yet (5 ∷ []) [] 7 9 one-Holds none_yet-Holds
