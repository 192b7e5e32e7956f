-- ===== src/Util/Timer/Counted.antt =====
-- A timer that counts its waits fills the interface.
use robocrisp.Base.{ℕ, ◌+◌, ◌-◌, refl}
use robocrisp.Util.Timer.{Waiter, same_waiter, one_if, Timer, IsTimer}

pub record Counts : Type 0 where
  pub pending : Waiter → ℕ
  pub due : Waiter → ℕ

abbrev pub counted : Timer Counts
counted = record {
  fresh = record { pending = λ w. 0; due = λ w. 0 };
  expires_from_now = λ n t. record t { pending = λ w. 0 };
  expires_at = λ n t. record t { pending = λ w. 0 };
  cancel = λ t. record t { pending = λ w. 0 };
  async_wait = λ v t. record t { pending = λ w. t.pending w + one_if (same_waiter v w) };
  reach = λ t. record { pending = λ w. 0; due = λ w. t.due w + t.pending w };
  complete = λ v t. record t { due = λ w. t.due w - one_if (same_waiter v w) };
  pending = λ w t. t.pending w;
  due = λ w t. t.due w;
}

pub counted-IsTimer : IsTimer counted
counted-IsTimer = record {
  none_at_first = λ w. refl;
  none_due_at_first = λ w. refl;
  expires_cancels = λ n w t. refl;
  expires_keeps = λ n w t. refl;
  at_cancels = λ n w t. refl;
  at_keeps = λ n w t. refl;
  cancels = λ w t. refl;
  cancel_keeps = λ w t. refl;
  waits = λ w v t. refl;
  wait_keeps = λ w v t. refl;
  reached = λ w t. refl;
  reached_due = λ w t. refl;
  completed = λ w v t. refl;
  completed_due = λ w v t. refl;
}
