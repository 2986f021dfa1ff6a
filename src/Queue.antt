-- ===== src/Queue.antt =====
-- server/quitablequeue.h: the queue that producers and consumers share. The functions below are
-- the parts of its methods that run under `mutex_`; `System` adds the threads that call them.
pub mod Order
pub mod Wakeups
use batyr.Prelude.{
  ℕ, zero, suc, ◌+◌, Bool, true, false, List, [], ◌∷◌, ◌++◌, Option, none, some, length,
  if◌then◌else◌,
}

pub record Queue {ℓ} (A : Type ℓ) : Type ℓ where
  pub queue : List A
  pub continue : Bool

-- One round of `popWait` with the mutex held: the loop's test, and what follows the loop.
pub data Round {ℓ} (A : Type ℓ) : Type ℓ where
  quits : Round A
  sleeps : Round A
  takes : A → Queue A → Round A

module _ {ℓ} {A : Type ℓ} where
  abbrev pub empty_queue : Queue A
  empty_queue = record { queue = []; continue = true }

  abbrev pub push : Queue A → A → Queue A
  push q x = record q { queue = q.queue ++ x ∷ [] }

  abbrev pub quit : Queue A → Queue A
  quit q = record q { continue = false }

  abbrev pub size : Queue A → ℕ
  size q = length q.queue

  unfoldable pub take_front : Queue A → List A → Round A
  take_front q [] = sleeps
  take_front q (x ∷ rest) = takes x (record q { queue = rest })

  unfoldable pub pop_round : Queue A → Round A
  unfolding take_front
  pop_round q = if q.continue then take_front q q.queue else quits

  unfoldable pub no_wait : Queue A → List A → Option A × Queue A
  no_wait q [] = (none, q)
  no_wait q (x ∷ rest) = (some x, record q { queue = rest })

  -- `popNoWait`, with what it stores in `item`; it does not look at `continue_`.
  unfoldable pub pop_no_wait : Queue A → Option A × Queue A
  unfolding no_wait
  pop_no_wait q = no_wait q q.queue

-- The queue with the calls in progress: `ready` calls of `popWait` want the mutex, `waiting` ones
-- sleep in `cond_.wait`, and `unlocked` calls of `push` have unlocked the mutex and are still to
-- call `cond_.notify_one`. `pushed` and `taken` record the items in the order of the calls.
pub record System {ℓ} (A : Type ℓ) : Type ℓ where
  pub shared : Queue A
  pub ready : ℕ
  pub waiting : ℕ
  pub unlocked : ℕ
  pub pushed : List A
  pub taken : List A

-- What some thread does next. `calls` enters `popWait`, `runs` gives a ready call the mutex for one
-- round, and `wakes` is a spurious wakeup. `pushing` is the part of `push` under the mutex, and
-- `notifies` the `cond_.notify_one()` of one of the calls that unlocked it.
pub data Action {ℓ} (A : Type ℓ) : Type ℓ where
  calls runs wakes notifies quitting polling : Action A
  pushing : A → Action A

module _ {ℓ} {A : Type ℓ} where
  abbrev pub idle : System A
  idle = record {
    shared = empty_queue;
    ready = 0;
    waiting = 0;
    unlocked = 0;
    pushed = [];
    taken = [];
  }

  -- `cond_.notify_one()` and `cond_.notify_all()`.
  notify_one : ℕ → System A → System A
  notify_one zero s = s
  notify_one (suc w) s = record s { ready = s.ready + 1; waiting = w }

  notify_all : System A → System A
  notify_all s = record s { ready = s.ready + s.waiting; waiting = 0 }

  -- A round of a call that is one of `suc r` ready ones.
  after_round : System A → ℕ → Round A → System A
  after_round s r quits = record s { ready = r }
  after_round s r sleeps = record s { ready = r; waiting = s.waiting + 1 }
  after_round s r (takes x q) = record s { shared = q; ready = r; taken = s.taken ++ x ∷ [] }

  run_ready : ℕ → System A → Option (System A)
  run_ready zero s = none
  run_ready (suc r) s = some (after_round s r (pop_round s.shared))

  wake_waiting : ℕ → System A → Option (System A)
  wake_waiting zero s = none
  wake_waiting (suc w) s = some (record s { ready = s.ready + 1; waiting = w })

  notify_unlocked : ℕ → System A → Option (System A)
  notify_unlocked zero s = none
  notify_unlocked (suc n) s = some (notify_one s.waiting (record s { unlocked = n }))

  polled : System A → Option A × Queue A → System A
  polled s (none, q) = record s { shared = q }
  polled s (some x, q) = record s { shared = q; taken = s.taken ++ x ∷ [] }

  -- `none` where no thread can take the action.
  unfoldable pub step : System A → Action A → Option (System A)
  unfolding notify_one notify_all after_round run_ready wake_waiting notify_unlocked polled
      pop_round pop_no_wait
  step s calls = some (if s.shared.continue then record s { ready = s.ready + 1 } else s)
  step s runs = run_ready s.ready s
  step s wakes = wake_waiting s.waiting s
  step s notifies = notify_unlocked s.unlocked s
  step s quitting = some (notify_all (record s { shared = quit s.shared }))
  step s polling = some (polled s (pop_no_wait s.shared))
  step s (pushing x) = some (record s {
    shared = push s.shared x;
    unlocked = s.unlocked + 1;
    pushed = s.pushed ++ x ∷ [];
  })

  unfoldable pub run : System A → List (Action A) → Option (System A)
  run s [] = some s
  run s (a ∷ rest) = elim (step s a) [ none ↦ none | some t ↦ run t rest ]
