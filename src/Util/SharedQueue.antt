-- ===== src/Util/SharedQueue.antt =====
-- include/crisp/util/SharedQueue.hh: a queue that several threads share. What a thread does while it
-- holds `m_mutex` is one step, so the steps are on the queue as a whole; a thread that waits on `m_cv`
-- is blocked until it is notified or wakes by itself, and goes on when it has the mutex again. The
-- masking of signals is left out.
pub mod Steps
pub mod Invariant
pub mod Preservation
pub mod Liveness
pub mod Tests
use robocrisp.Base.{
  ℕ, zero, suc, ◌+◌, ◌-◌, Bool, true, false, ◌&&◌, not, List, [], ◌∷◌, ◌++◌, map, Option, none,
  some, if◌then◌else◌,
}

pub record SharedQueue {ℓ} (A : Type ℓ) : Type ℓ where
  pub items : List A
  pub aborted : Bool
  -- `m_num_waiters`.
  pub waiters : ℕ

-- Where a thread is: outside of `next`; in it, before it locks the mutex, blocked on the condition
-- variable, or notified; or behind it, with an item, or without one. `told` says that it called `next`
-- with a pointer to a flag, or that this flag was set.
pub data Thread {ℓ} (A : Type ℓ) : Type ℓ where
  idle : Thread A
  entering blocked notified : (told : Bool) → Thread A
  got : A → Thread A
  interrupted : (told : Bool) → Thread A

module _ {ℓ} {A : Type ℓ} where
  -- The constructor does not initialise `m_num_waiters`.
  unfoldable pub new : ℕ → SharedQueue A
  new waiters = record { items = []; aborted = false; waiters = waiters }

  unfoldable pub empty : SharedQueue A → Bool
  empty q = is_empty q.items
    where
      is_empty : List A → Bool
      is_empty [] = true
      is_empty (x ∷ xs) = false

  -- `push` and `emplace`, without the notification.
  unfoldable pub push : A → SharedQueue A → SharedQueue A
  push x q = record q { items = q.items ++ x ∷ [] }

  -- `pop`. Of an empty queue the source leaves it undefined, and here nothing is done; no code calls it.
  unfoldable pub pop : SharedQueue A → SharedQueue A
  pop q = record q { items = rest q.items }
    where
      rest : List A → List A
      rest [] = []
      rest (x ∷ xs) = xs

  -- `wake_all`, without the notification.
  unfoldable pub abort : SharedQueue A → SharedQueue A
  abort q = record q { aborted = true }

  -- What `notify_all` does to a thread.
  unfoldable pub wake : Thread A → Thread A
  wake (blocked told) = notified told
  wake t = t

  -- The first lines of `next`: `m_aborted && aborted`.
  unfoldable pub check : Bool → SharedQueue A → Thread A
  check told q = if q.aborted && told then interrupted true else entering told

  -- The last lines of `next`, under the lock.
  unfoldable pub finish : Bool → SharedQueue A → Thread A × SharedQueue A
  finish told q = if q.aborted then (interrupted told, q) else front q.items
    where
      front : List A → Thread A × SharedQueue A
      front [] = (interrupted false, q)
      front (x ∷ xs) = (got x, record q { items = xs })

  -- The loop on the condition variable, when the thread has the mutex again: it waits on, or it is a
  -- waiter no more.
  unfoldable pub resume : Bool → SharedQueue A → Thread A × SharedQueue A
  resume told q =
      if empty q && not q.aborted
      then (blocked told, q)
      else finish told (record q { waiters = q.waiters - 1 })

  -- `next` from where it locks the mutex.
  unfoldable pub enter : Bool → SharedQueue A → Thread A × SharedQueue A
  enter told q =
      if empty q then resume told (record q { waiters = q.waiters + 1 }) else finish told q
