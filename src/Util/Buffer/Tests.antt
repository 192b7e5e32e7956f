-- ===== src/Util/Buffer/Tests.antt =====
-- Buffers over small blocks: the theorems at them.
use robocrisp.Base.{
  ℕ, ◌≡◌, refl, true, List, [], ◌∷◌, length-replicate, replicate, set, some, none, arith,
}
use robocrisp.Util.Buffer.{Memory, Buffer, block, contents, destroy, reset}
use robocrisp.Util.Buffer.Laws.{IsOver, IsOwner, Gives}
use robocrisp.Util.Buffer.Owning.{Resized, resize-contents, destroy-reset}

abbrev memory : Memory
memory = some (1 ∷ 2 ∷ 3 ∷ []) ∷ some (4 ∷ 5 ∷ []) ∷ []

abbrev three : Buffer
three = record { pointer = some 0; length = 3; owns_data = true; free_function = true }

abbrev two : Buffer
two = record { pointer = some 1; length = 2; owns_data = true; free_function = true }

abbrev nines : ℕ → List ℕ
nines n = replicate n 9

nines-Gives : Gives nines
nines-Gives n = length-replicate n 9

three-IsOver : IsOver memory three 0 (1 ∷ 2 ∷ 3 ∷ [])
unfolding block
three-IsOver = record { points = refl; there = refl; sized = refl }

two-IsOver : IsOver memory two 1 (4 ∷ 5 ∷ [])
unfolding block
two-IsOver = record { points = refl; there = refl; sized = refl }

three-IsOwner : IsOwner three
three-IsOwner = record { owns = refl; frees = refl }

two-IsOwner : IsOwner two
two-IsOwner = record { owns = refl; frees = refl }

resize-contents_example : Resized nines nines-Gives 5 memory three 0 (1 ∷ 2 ∷ 3 ∷ []) three-IsOver
resize-contents_example =
    resize-contents nines 5 memory three 0 (1 ∷ 2 ∷ 3 ∷ []) nines-Gives three-IsOver

destroy-reset_example :
    (b' from' : Buffer) × (m' : Memory) × (reset three two memory ≡ some (b', from', m'))
    × (contents m' b' ≡ some (4 ∷ 5 ∷ []))
    × (block m' 0 ≡ none)
    × (destroy from' m' ≡ some m')
    × (destroy b' m' ≡ some (set m' 1 none))
destroy-reset_example =
    destroy-reset memory three two 0 1 (1 ∷ 2 ∷ 3 ∷ []) (4 ∷ 5 ∷ []) three-IsOver two-IsOver
      three-IsOwner two-IsOwner (λ e. absurd (omega (arith, e)))
