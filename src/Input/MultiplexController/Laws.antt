-- ===== src/Input/MultiplexController/Laws.antt =====
-- Which controllers of src/input/MultiplexController.cc run.
use robocrisp.Base.{
  ℕ, ◌≡◌, refl, ap, ◌∙◌, false, List, [], ◌∷◌, ◌++◌, append_assoc, Option, some, All, ◌==◌, ==_refl,
}
use robocrisp.Input.MultiplexController.{
  Controller, MultiplexController, Running, add, back, threads, run_all, run,
}

back-append : (x : ℕ) (xs : List ℕ) (y : ℕ) → back x (xs ++ y ∷ []) ≡ y
unfolding back
back-append x [] y = refl
back-append x (z ∷ xs) y = back-append z xs y

threads-append :
    (last : ℕ) (xs ys : List ℕ)
    → All (λ x. (x == last) ≡ false) xs
    → threads last (xs ++ last ∷ ys) ≡ xs
unfolding threads
threads-append last [] ys v = rw (==_refl last) refl
threads-append last (x ∷ xs) ys v = rw v.0 (ap (◌∷◌ x) (threads-append last xs ys v.1))

abbrev running : List ℕ → ℕ → Option Running
running detached here = some (record { detached = detached; here = here })

run_all-append :
    (x : ℕ) (xs : List ℕ) (c : ℕ)
    → run_all (x ∷ (xs ++ c ∷ [])) ≡ running (threads c (x ∷ (xs ++ c ∷ []))) c
unfolding run_all
run_all-append x xs c = ap (λ e. running (threads e (x ∷ (xs ++ c ∷ []))) e) (back-append x xs c)

-- A controller that was not added before, and is added last, runs in the thread that calls `run`, and each of the
-- others in a thread of its own.
run-add :
    (c : Controller) (m : MultiplexController)
    → All (λ x. (x == c.this) ≡ false) m.controllers
    → run (add c m) ≡ running m.controllers c.this
unfolding run add run_all back
run-add c m = added c.this m.controllers
  where
    added :
        (c : ℕ) (xs : List ℕ)
        → All (λ x. (x == c) ≡ false) xs
        → run_all (xs ++ c ∷ []) ≡ running xs c
    added c [] v = ap (λ t. running t c) (threads-append c [] [] v)
    added c (x ∷ xs) v =
        run_all-append x xs c ∙ ap (λ t. running t c) (threads-append c (x ∷ xs) [] v)

-- A controller that is added again keeps those from running that were added between.
run-add_again :
    (c : Controller) (m : MultiplexController) (x : ℕ) (xs ys : List ℕ)
    → m.controllers ≡ x ∷ (xs ++ c.this ∷ ys)
    → All (λ x. (x == c.this) ≡ false) (x ∷ xs)
    → run (add c m) ≡ running (x ∷ xs) c.this
unfolding run add
run-add_again c m x xs ys h v =
    ap (λ l. run_all (l ++ c.this ∷ [])) h
    ∙ run_all-append x (xs ++ c.this ∷ ys) c.this
    ∙ ap (λ l. running (threads c.this (x ∷ l)) c.this)
        (append_assoc xs (c.this ∷ ys) (c.this ∷ []))
    ∙ ap (λ t. running t c.this) (threads-append c.this (x ∷ xs) (ys ++ c.this ∷ []) v)
