-- ===== src/Util/SArray.antt =====
-- include/crisp/util/SArray.hh: the growing array. `cells` is the memory that `data` points to, empty
-- where it is null; `cleared` stands for an element in zeroed memory.
pub mod Laws
pub mod Tests
use robocrisp.Base.{
  ℕ, ◌+◌, ◌-◌, ◌*◌, Bool, List, [], ◌∷◌, ◌++◌, length, set, take, replicate, ltb, ◌==◌,
  if◌then◌else◌,
}

pub record SArray {ℓ} (A : Type ℓ) : Type ℓ where
  pub cells : List A
  pub size : ℕ
  pub capacity : ℕ

module _ {ℓ} {A : Type ℓ} (cleared : A) where
  -- `SArray(s)`, and with 0 also `SArray()`.
  unfoldable pub new_array : ℕ → SArray A
  new_array s = record { cells = replicate s cleared; size = 0; capacity = s }

  -- The capacity that `ensure_capacity` chooses where there is too little.
  abbrev pub enlarged : ℕ → ℕ → ℕ
  enlarged capacity reqd_capacity =
      if ltb 0 capacity then capacity + 2 * (reqd_capacity - capacity) else reqd_capacity

  -- `ensure_capacity`: `realloc` keeps the cells that are there, and the new ones are zeroed.
  unfoldable pub ensure_capacity : ℕ → SArray A → SArray A
  ensure_capacity reqd_capacity s =
      if ltb s.capacity reqd_capacity
      then record s {
        cells = s.cells ++ replicate (enlarged s.capacity reqd_capacity - s.capacity) cleared;
        capacity = enlarged s.capacity reqd_capacity;
      }
      else s

  -- `push`, and `emplace` of the element that the arguments make.
  unfoldable pub push : A → SArray A → SArray A
  push v s =
      let t = ensure_capacity (s.size + 1) s in
      record t { cells = set t.cells t.size v; size = t.size + 1 }

  -- The loops of the copies: `emplace` of each element in order.
  unfoldable pub push_all : List A → SArray A → SArray A
  push_all [] s = s
  push_all (v ∷ vs) s = push_all vs (push v s)

  -- `clear`: the memory stays.
  unfoldable pub clear : SArray A → SArray A
  clear s = record s { size = 0 }

  -- The copy constructor.
  unfoldable pub copy : SArray A → SArray A
  copy s = push_all (take s.size s.cells) (new_array s.size)

  -- `operator =` of an array that is copied, where that is another array.
  unfoldable pub assign : SArray A → SArray A → SArray A
  assign s from = push_all (take from.size from.cells) (ensure_capacity from.capacity (clear s))

  -- `operator =` of an array to itself: what is copied has been cleared before.
  unfoldable pub assign_self : SArray A → SArray A
  assign_self s = assign (clear s) (clear s)
