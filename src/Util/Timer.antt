-- ===== src/Util/Timer.antt =====
-- What src/util uses of a `steady_timer` of Boost.Asio: an interface that the models take as a parameter.
-- A wait is pending until the timer's time is reached, when it becomes due, or until it is cancelled;
-- the handler of a wait that is due is called without an error, and that of a cancelled one with one.
pub mod Counted
use robocrisp.Base.{ℕ, ◌+◌, ◌-◌, ◌≤◌, ◌<◌, ◌≡◌, Bool, true, false, ◌==◌, if◌then◌else◌}

-- Who waits: the owner of the timer, or an action with a number.
pub data Waiter : Type 0 where
  own : Waiter
  of_action : (id : ℕ) → Waiter

abbrev pub same_waiter : Waiter → Waiter → Bool
same_waiter own own = true
same_waiter own (of_action j) = false
same_waiter (of_action i) own = false
same_waiter (of_action i) (of_action j) = i == j

abbrev pub one_if : Bool → ℕ
one_if p = if p then 1 else 0

-- `reach` is what happens when the time is reached, and `complete` when the handler of a wait that is due
-- is called. `pending` and `due` say how many waits of a waiter there are.
pub record Timer (T : Type 0) : Type 0 where
  pub fresh : T
  pub expires_from_now : ℕ → T → T
  pub expires_at : ℕ → T → T
  pub cancel : T → T
  pub async_wait : Waiter → T → T
  pub reach : T → T
  pub complete : Waiter → T → T
  pub pending : Waiter → T → ℕ
  pub due : Waiter → T → ℕ

-- The documented behaviour: setting the expiry cancels the pending waits, and so does `cancel`; a wait
-- that is due cannot be cancelled.
pub record IsTimer {T : Type 0} (timer : Timer T) : Type 0 where
  pub none_at_first : (w : Waiter) → timer.pending w timer.fresh ≡ 0
  pub none_due_at_first : (w : Waiter) → timer.due w timer.fresh ≡ 0
  pub expires_cancels :
      (n : ℕ) (w : Waiter) (t : T) → timer.pending w (timer.expires_from_now n t) ≡ 0
  pub expires_keeps :
      (n : ℕ) (w : Waiter) (t : T) → timer.due w (timer.expires_from_now n t) ≡ timer.due w t
  pub at_cancels : (n : ℕ) (w : Waiter) (t : T) → timer.pending w (timer.expires_at n t) ≡ 0
  pub at_keeps : (n : ℕ) (w : Waiter) (t : T) → timer.due w (timer.expires_at n t) ≡ timer.due w t
  pub cancels : (w : Waiter) (t : T) → timer.pending w (timer.cancel t) ≡ 0
  pub cancel_keeps : (w : Waiter) (t : T) → timer.due w (timer.cancel t) ≡ timer.due w t
  pub waits :
      (w v : Waiter) (t : T)
      → timer.pending w (timer.async_wait v t) ≡ timer.pending w t + one_if (same_waiter v w)
  pub wait_keeps : (w v : Waiter) (t : T) → timer.due w (timer.async_wait v t) ≡ timer.due w t
  pub reached : (w : Waiter) (t : T) → timer.pending w (timer.reach t) ≡ 0
  pub reached_due :
      (w : Waiter) (t : T) → timer.due w (timer.reach t) ≡ timer.due w t + timer.pending w t
  pub completed : (w v : Waiter) (t : T) → timer.pending w (timer.complete v t) ≡ timer.pending w t
  pub completed_due :
      (w v : Waiter) (t : T)
      → timer.due w (timer.complete v t) ≡ timer.due w t - one_if (same_waiter v w)
