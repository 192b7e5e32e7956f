-- ===== src/Util/Buffer.antt =====
-- include/crisp/util/Buffer.hh and src/util/Buffer.cc: blocks of bytes with or without an owner. The
-- memory is a list of blocks, `none` where one was freed, and a pointer is the place of its block;
-- `malloc` gives a new block. The functions that free a block, which callers hand over, are taken to do
-- what `free` does. A step that reads or frees what is not allocated, or calls an empty function, has no
-- result.
pub mod Laws
pub mod Owning
pub mod Tests
use robocrisp.Base.{
  ℕ, zero, suc, ◌+◌, ◌-◌, min, Bool, true, false, ◌&&◌, not, List, [], ◌∷◌, ◌++◌, length, take,
  replicate, set, get_elem?, memcpy, Option, none, some, ltb, ◌==◌, if◌then◌else◌,
}
use robocrisp.Comms.Message.{if_some}

abbrev pub Memory : Type 0
Memory = List (Option (List ℕ))

-- `free_function` says that there is one.
pub record Buffer : Type 0 where
  pub pointer : Option ℕ
  pub length : ℕ
  pub owns_data : Bool
  pub free_function : Bool

-- The bytes of the block that a pointer leads to.
unfoldable pub block : Memory → ℕ → Option (List ℕ)
block [] a = none
block (b ∷ m) zero = b
block (b ∷ m) (suc a) = block m a

-- `malloc`, for the bytes that the new block happens to hold.
unfoldable pub malloc : List ℕ → Memory → ℕ × Memory
malloc bytes m = (length m, m ++ some bytes ∷ [])

unfoldable pub free : ℕ → Memory → Option Memory
free a m = if_some (block m a) (λ _. some (set m a none))

-- `Buffer(const char*, size_t)` and `from_pointer`.
unfoldable pub from_pointer : ℕ → ℕ → Buffer
from_pointer a n = record { pointer = some a; length = n; owns_data = false; free_function = false }

-- `Buffer(char*, size_t, FreeFunctionType&&)` and `take_ownership`.
unfoldable pub take_ownership : ℕ → ℕ → Buffer
take_ownership a n = record { pointer = some a; length = n; owns_data = true; free_function = true }

-- `Buffer(size_t)` and `create`: the block is cleared.
unfoldable pub create : ℕ → Memory → Buffer × Memory
create n m =
    let (a, m') = malloc (replicate n 0) m in
    (record { pointer = some a; length = n; owns_data = true; free_function = true }, m')

-- `Buffer()`.
abbrev pub blank : Buffer
blank = record { pointer = none; length = 0; owns_data = false; free_function = false }

-- `Buffer(Buffer&&)`: the new buffer, and the one that was moved from.
unfoldable pub move : Buffer → Buffer × Buffer
move b = (b, record b { owns_data = false })

-- What a `memcpy` from a buffer may read: nothing where there is no block and the length is 0.
unfoldable pub readable : Memory → Buffer → Option (List ℕ)
readable m b = behind b.pointer
  where
    behind : Option ℕ → Option (List ℕ)
    behind none = if b.length == 0 then some [] else none
    behind (some a) = block m a

-- The bytes of a buffer.
unfoldable pub contents : Memory → Buffer → Option (List ℕ)
contents m b = if_some (readable m b) (λ bytes. some (take b.length bytes))

-- `Buffer(const Buffer&)`, `copy` and `copy_new`, with the bytes that `malloc` gives for a size.
unfoldable pub copy : (ℕ → List ℕ) → Buffer → Memory → Option (Buffer × Memory)
copy fresh b m = if_some (contents m b) (λ bytes.
    let (a, m') = malloc (memcpy (fresh b.length) 0 bytes) m in
    some
      (record { pointer = some a; length = b.length; owns_data = true; free_function = true }, m'))

-- `free_function(data)`.
abbrev pub release : Buffer → ℕ → Memory → Option Memory
release b a m = if b.free_function then free a m else none

-- `~Buffer()`.
unfoldable pub destroy : Buffer → Memory → Option Memory
destroy b m = when_data b.pointer
  where
    when_data : Option ℕ → Option Memory
    when_data none = some m
    when_data (some a) = if b.owns_data then release b a m else some m

-- `resize` of a buffer that does not own its block: a block of its own, filled up with zeros.
unfoldable pub resize_borrowed : (ℕ → List ℕ) → ℕ → Buffer → Memory → Option (Buffer × Memory)
resize_borrowed fresh capacity b m = if_some (readable m b) (λ bytes.
    let kept = take (min b.length capacity) bytes in
    let filled = memcpy (fresh capacity) 0 (kept ++ replicate (capacity - b.length) 0) in
    let (a', m') = malloc filled m in
    some (record b { pointer = some a'; length = capacity; owns_data = true }, m'))

-- `resize` of a buffer that owns its block: `realloc` keeps the bytes that fit.
unfoldable pub resize_owned : (ℕ → List ℕ) → ℕ → Buffer → Memory → Option (Buffer × Memory)
resize_owned fresh capacity b m = reallocated b.pointer
  where
    reallocated : Option ℕ → Option (Buffer × Memory)
    reallocated none =
        let (a', m') = malloc (fresh capacity) m in
        some (record b { pointer = some a'; length = capacity }, m')
    reallocated (some a) = if_some (block m a) (λ bytes.
        let (a', m') = malloc (memcpy (fresh capacity) 0 (take capacity bytes)) (set m a none) in
        some (record b { pointer = some a'; length = capacity }, m'))

-- `resize`.
unfoldable pub resize : (ℕ → List ℕ) → ℕ → Buffer → Memory → Option (Buffer × Memory)
resize fresh capacity b m =
    if b.owns_data then resize_owned fresh capacity b m else resize_borrowed fresh capacity b m

-- `reset` of a buffer to another, which is left empty: both, and the memory.
unfoldable pub reset : Buffer → Buffer → Memory → Option (Buffer × Buffer × Memory)
reset b from m = if_some (freed b.pointer) (λ m'.
    some (from, record from { pointer = none; owns_data = false; free_function = false }, m'))
  where
    freed : Option ℕ → Option Memory
    freed none = some m
    freed (some a) = if b.owns_data && b.free_function then free a m else some m
