-- ===== src/Tests/Queue.antt =====
-- The properties of server/quitablequeue.h at a concrete run.
use batyr.Prelude.{◌≡◌, ◌≤◌, ◌⊎◌, refl, ℕ, [], ◌∷◌, ◌++◌, ◌+◌, List, some, true, false}
use batyr.Queue.{System, Action, calls, runs, notifies, quitting, pushing, idle, step, run, size}
use batyr.Queue.Order.{pushes, run-fifo}
use batyr.Queue.Wakeups.{run-wakes, quitting-taken}

-- A call sleeps, two items arrive, one is notified, and the call takes the first.
abbrev actions : List (Action ℕ)
actions = calls ∷ runs ∷ pushing 7 ∷ pushing 8 ∷ notifies ∷ runs ∷ []

abbrev reached : System ℕ
reached = record {
  shared = record { queue = 8 ∷ []; continue = true };
  ready = 0;
  waiting = 0;
  unlocked = 1;
  pushed = 7 ∷ 8 ∷ [];
  taken = 7 ∷ [];
}

reaches : run idle actions ≡ some reached
unfolding run step
reaches = refl

abbrev sleeping : System ℕ
sleeping = record {
  shared = record { queue = []; continue = true };
  ready = 0;
  waiting = 2;
  unlocked = 0;
  pushed = [];
  taken = [];
}

abbrev stopped : System ℕ
stopped = record {
  shared = record { queue = 5 ∷ []; continue = false };
  ready = 1;
  waiting = 0;
  unlocked = 1;
  pushed = 5 ∷ [];
  taken = [];
}

stops : run sleeping (quitting ∷ pushing 5 ∷ runs ∷ []) ≡ some stopped
unfolding run step
stops = refl

run-fifo_example : pushes actions ≡ reached.taken ++ reached.shared.queue
run-fifo_example = run-fifo actions reached reaches

run-wakes_example :
    (reached.waiting ≡ 0)
    ⊎ ((reached.shared.continue ≡ true) × (size reached.shared ≤ reached.ready + reached.unlocked))
run-wakes_example = run-wakes actions reached reaches

quitting-taken_example :
    (stopped.waiting ≡ 0) × (stopped.shared.continue ≡ false) × (stopped.taken ≡ sleeping.taken)
quitting-taken_example =
    quitting-taken sleeping stopped (pushing 5 ∷ runs ∷ []) ((λ e. cc e), ((λ e. cc e), tt)) stops
