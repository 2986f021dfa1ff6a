-- ===== src/Service/Liveness.antt =====
-- The workers come to an end of their work.
use batyr.Prelude.{
  ℕ, ◌+◌, ◌*◌, ◌≤◌, ◌<◌, ◌≡◌, refl, List, [], ◌∷◌, Option, none, some, get_elem?, length, Text,
  if_lem, arith, Option-cases, inl, inr,
}
use batyr.Json.{Json}
use batyr.Config.{Configuration}
use batyr.Db.{Postgres}
use batyr.Worker.{OgrFieldType}
use batyr.Job.{is_done}
use batyr.Worker.Loop.{Leaving, continues, rethrows, terminates, perform}
use batyr.Storage.{pop_no_wait, pop_wait}
use batyr.Queue.{Queue, take_front, no_wait}
use batyr.Queue
use batyr.Db.Connection.{connected}
use batyr.Service.{
  Phase, polling, waiting, left, thrown, holding, connecting, working, killed, closing, next_phase,
  close_job, Service, set_at, after_poll, after_wait, try_connection, after_round, World, Action,
  moves, advance, move_phase, move, step, run,
}
use batyr.Service.Count.{total, total-set_at, length-set_at}
use batyr.Service.Moves.{After}

-- How many actions a worker can take before it needs another job.
abbrev pub to_do : Phase → ℕ
to_do left = 0
to_do thrown = 0
to_do waiting = 1
to_do polling = 2
to_do (killed p) = 0
to_do (closing p r) = 3
to_do (working p) = 4
to_do (connecting p n) = 5
to_do (holding p) = 6

-- A bound on the actions that are left.
pub actions_left : Service → ℕ
actions_left s = 7 * length s.storage.queue.queue + total to_do s.workers

-- What a move leaves, and that it uses up some of the actions.
pub record Moved (s t : Service) : Type 0 where
  pub fewer : actions_left t < actions_left s
  pub goes_on : t.storage.queue.continue ≡ s.storage.queue.continue
  pub crew : length t.workers ≡ length s.workers
  pub jobs : t.next ≡ s.next

moved :
    (s t : Service) (i : ℕ) (old new : Phase)
    → get_elem? s.workers i ≡ some old
    → t.workers ≡ set_at i new s.workers
    → 7 * length t.storage.queue.queue + to_do new < 7 * length s.storage.queue.queue + to_do old
    → t.storage.queue.continue ≡ s.storage.queue.continue
    → t.next ≡ s.next
    → Moved s t
unfolding actions_left
moved s t i old new here workers less goes_on jobs = record {
  fewer = rw workers (omega (arith, total-set_at to_do i s.workers old new here, less));
  goes_on = goes_on;
  crew = rw workers (length-set_at i new s.workers);
  jobs = jobs;
}

module _ (s : Service) (i : ℕ) where
  poll-Moved :
      (l : List ℕ)
      → s.storage.queue.queue ≡ l
      → get_elem? s.workers i ≡ some polling
      → Moved s (
          after_poll i s
            (let (p, q) = no_wait s.storage.queue l in (p, record s.storage { queue = q })))
  unfolding after_poll no_wait
  poll-Moved [] e here = moved s _ i polling waiting here refl (omega arith) refl refl
  poll-Moved (x ∷ rest) e here =
      moved s _ i polling (holding x) here refl (rw e (omega arith)) refl refl

  wait-Moved :
      (l : List ℕ)
      → s.storage.queue.queue ≡ l
      → get_elem? s.workers i ≡ some waiting
      → After (Moved s) (after_wait i s (take_front s.storage.queue l))
  unfolding after_wait take_front
  wait-Moved [] e here = tt
  wait-Moved (x ∷ rest) e here =
      moved s _ i waiting (holding x) here refl (rw e (omega arith)) refl refl

next_phase-to_do : (l : Leaving) → to_do (next_phase l) ≤ 2
next_phase-to_do continues = omega arith
next_phase-to_do rethrows = omega arith
next_phase-to_do terminates = omega arith

module _ (pg : Postgres) (tn : OgrFieldType → ℕ) (parser : Text → Option Json)
    (c : Configuration) where
  advance-Moved :
      (w : World pg tn parser c) (i : ℕ) (s : Service) (ph : Phase)
      → w.reconnection ≡ connected
      → get_elem? s.workers i ≡ some ph
      → After (Moved s) (advance pg tn parser c w i s ph)
  unfolding advance pop_no_wait pop_wait Queue.pop_no_wait Queue.pop_round try_connection
      after_round close_job after_wait
  advance-Moved w i s polling up here = poll-Moved s i s.storage.queue.queue refl here
  advance-Moved w i s waiting up here =
      if_lem (λ r. After (Moved s) (after_wait i s r)) s.storage.queue.continue
        (take_front s.storage.queue s.storage.queue.queue) Queue.Round.quits
        (λ e. wait-Moved s i s.storage.queue.queue refl here)
        (λ e. moved s _ i waiting left here refl (omega arith) refl refl)
  advance-Moved w i s (holding p) up here =
      moved s _ i (holding p) (connecting p 0) here refl (omega arith) refl refl
  advance-Moved w i s (connecting p n) up here =
      rw up (moved s _ i (connecting p n) (working p) here refl (omega arith) refl refl)
  advance-Moved w i s (working p) up here =
      let r = perform pg tn w.now c w.dataset (s.heap p) w.database in
      if_lem (Moved s) (is_done r.job) _ _
        (λ e. moved s _ i (working p) (closing p r) here refl (omega arith) refl refl)
        (λ e. moved s _ i (working p) (killed p) here refl (omega arith) refl refl)
  advance-Moved w i s left up here = tt
  advance-Moved w i s thrown up here = tt
  advance-Moved w i s (killed p) up here = tt
  advance-Moved w i s (closing p r) up here =
      moved s _ i (closing p r) (next_phase r.leaving) here refl
        (omega (arith, next_phase-to_do r.leaving)) refl refl

  move-Moved :
      (w : World pg tn parser c) (i : ℕ) (s : Service)
      → w.reconnection ≡ connected
      → After (Moved s) (move pg tn parser c w i s)
  unfolding move move_phase
  move-Moved w i s up = elim (Option-cases (get_elem? s.workers i)) [
    | inl none_ ↦ rw none_ tt
    | inr (ph, here) ↦ rw here (advance-Moved w i s ph up here)
  ]

  pub step-Moved :
      (w : World pg tn parser c) (i : ℕ) (s : Service)
      → w.reconnection ≡ connected
      → After (Moved s) (step pg tn parser c s (moves w i))
  unfolding step
  step-Moved w i s up = move-Moved w i s up

  -- The moves of workers in their worlds.
  abbrev pub all_moves : List (World pg tn parser c × ℕ) → List (Action pg tn parser c)
  all_moves [] = []
  all_moves ((w, i) ∷ ms) = moves w i ∷ all_moves ms

  abbrev pub AllConnected : List (World pg tn parser c × ℕ) → Type 0
  AllConnected [] = Unit
  AllConnected ((w, i) ∷ ms) = (w.reconnection ≡ connected) × AllConnected ms

  pub run_none : (s t : Service) → run pg tn parser c s [] ≡ some t → s ≡ t
  unfolding run
  run_none s t e = cc e

  pub run_first :
      (a : Action pg tn parser c) (rest : List (Action pg tn parser c)) (s t : Service)
      → run pg tn parser c s (a ∷ rest) ≡ some t
      → (u : Service) × (step pg tn parser c s a ≡ some u) × (run pg tn parser c u rest ≡ some t)
  unfolding run
  run_first a rest s t =
      elim (step pg tn parser c s a)
        as (λ o.
          (elim o [ none ↦ none | some u ↦ run pg tn parser c u rest ]) ≡ some t
          → (u : Service) × (o ≡ some u) × (run pg tn parser c u rest ≡ some t)) [
            | none ↦ λ e. absurd (cc e)
            | some u ↦ λ e. (u, refl, e)
          ]

  pub run_then :
      (a : Action pg tn parser c) (rest : List (Action pg tn parser c)) (s u : Service)
      → step pg tn parser c s a ≡ some u
      → run pg tn parser c s (a ∷ rest) ≡ run pg tn parser c u rest
  unfolding run
  run_then a rest s u e = rw (run, e) refl
