-- ===== src/Service/Findable.antt =====
-- A job that a client has submitted is found by its id until the cleanup may remove it.
use batyr.Prelude.{
  ℕ, ◌≡◌, refl, sym, ap, ◌∙◌, ◌⊎◌, true, false, List, [], ◌∷◌, Option, none, some, Text, text_eq,
  text_eq_iff, get_elem?, ◌==◌, if_lem, Option-cases, Bool-cases, inl, inr, arith,
}
use batyr.Json.{Json}
use batyr.Job.{remove_dashes, is_done}
use batyr.Worker.Loop.{Round, after_exception, perform}
use batyr.Config.{Configuration}
use batyr.Db.{Postgres}
use batyr.Db.Connection.{Reconnection, connected, not_connected, failed}
use batyr.Worker.{OgrFieldType}
use batyr.Storage.{
  Heap, update, find, add_job, push, get_job, cleanup, is_expired, pop_no_wait, pop_wait, quit,
}
use batyr.Storage.Map.{find-put}
use batyr.Storage.Cleanup.{get_job-clean}
use batyr.Queue
use batyr.Queue.{take_front, no_wait}
use batyr.Http.Handlers.{State, Answer}
use batyr.Http.Handlers.Stored.{IsStored, stored, refused, submit-IsStored}
use batyr.Service.{
  Phase, polling, waiting, left, thrown, holding, connecting, working, killed, closing, close_job,
  Service, after_poll, after_wait, try_connection, after_round, answered, World, Action, handles,
  moves, cleans, quits, advance, move_phase, move, step,
}
use batyr.Service.Sound.{IsSound}
use batyr.Service.Moves.{After}
use batyr.Service.Waiting.{some_lem}
use batyr.Service.Reached.{Reached, Reached-IsSound, IsFresh, answered-stored, answered-refused}

-- The map of the jobs is as it was.
abbrev SameMap : Service → Service → Type 0
SameMap s t = t.storage.job_map ≡ s.storage.job_map

poll-SameMap :
    (i : ℕ) (s : Service) (l : List ℕ)
    → SameMap s (
        after_poll i s
          (let (p, q) = no_wait s.storage.queue l in (p, record s.storage { queue = q })))
unfolding after_poll no_wait
poll-SameMap i s [] = refl
poll-SameMap i s (x ∷ rest) = refl

wait-SameMap : (i : ℕ) (s : Service) (r : Queue.Round ℕ) → After (SameMap s) (after_wait i s r)
unfolding after_wait
wait-SameMap i s Queue.Round.quits = refl
wait-SameMap i s Queue.Round.sleeps = tt
wait-SameMap i s (Queue.Round.takes q rest) = refl

round-SameMap : (i p now : ℕ) (s : Service) (r : Round) → SameMap s (after_round i p now s r)
unfolding after_round
round-SameMap i p now s r = if_lem (SameMap s) (is_done r.job) _ _ (λ e. refl) (λ e. refl)

connect-SameMap :
    (i p n now : ℕ) (r : Reconnection) (s : Service) → SameMap s (try_connection i p n now r s)
unfolding try_connection
connect-SameMap i p n now connected s = refl
connect-SameMap i p n now not_connected s = if_lem (SameMap s) (n == 0) _ _ (λ e. refl) (λ e. refl)
connect-SameMap i p n now (failed e) s =
    round-SameMap i p now s (after_exception now (s.heap p) (some e))

-- A new job has a new id.
stored-found :
    (id i : Text) (p : ℕ) (s : Service) (ok : IsSound s) (a : Answer) (after : State)
    → find id s.storage.job_map ≡ none
    → find i s.storage.job_map ≡ some p
    → IsStored id s.next s.heap s.storage (a, after)
    → find i (answered s (a, after)).storage.job_map ≡ some p
unfolding push add_job update
stored-found id i p s ok a after fresh found (stored job same waits shown e) =
    let apart : text_eq job.id i ≡ false =
      ground (arith, text_eq_iff job.id i, fresh, found, same) in
    let itself : (s.next == s.next) ≡ true = ground arith in
    ap (λ (t : Service). find i t.storage.job_map) (answered-stored s ok job a after shown e)
    ∙ rw itself (rw (find-put i job.id s.next s.storage.job_map, apart) found)
stored-found id i p s ok a after fresh found (refused r sent status e) =
    ap (λ (t : Service). find i t.storage.job_map) (answered-refused s ok a r after sent e) ∙ found

module _ (pg : Postgres) (tn : OgrFieldType → ℕ) (parser : Text → Option Json)
    (c : Configuration) where
  advance-SameMap :
      (w : World pg tn parser c) (i : ℕ) (s : Service) (ph : Phase)
      → After (SameMap s) (advance pg tn parser c w i s ph)
  unfolding advance close_job pop_no_wait Queue.pop_no_wait
  advance-SameMap w i s polling = poll-SameMap i s s.storage.queue.queue
  advance-SameMap w i s waiting = wait-SameMap i s (pop_wait s.storage)
  advance-SameMap w i s (holding q) = refl
  advance-SameMap w i s (connecting q n) = connect-SameMap i q n w.now w.reconnection s
  advance-SameMap w i s (working q) =
      round-SameMap i q w.now s (perform pg tn w.now c w.dataset (s.heap q) w.database)
  advance-SameMap w i s left = tt
  advance-SameMap w i s thrown = tt
  advance-SameMap w i s (killed p) = tt
  advance-SameMap w i s (closing p r) = refl

  move-SameMap :
      (w : World pg tn parser c) (i : ℕ) (s : Service)
      → After (SameMap s) (move pg tn parser c w i s)
  unfolding move move_phase
  move-SameMap w i s = elim (Option-cases (get_elem? s.workers i)) [
    | inl none_ ↦ rw none_ tt
    | inr (ph, here) ↦ rw here (advance-SameMap w i s ph)
  ]

  -- The action is a cleanup at whose time the job has expired.
  abbrev pub Expires : Action pg tn parser c → Service → ℕ → Type 0
  Expires (handles type method body uuid now) s p = ⊥
  Expires (moves w i) s p = ⊥
  Expires (cleans now) s p = is_expired now s.storage.max_age_done_jobs (s.heap p) ≡ true
  Expires quits s p = ⊥

  step-found :
      (a : Action pg tn parser c) (s t : Service) (i : Text) (p : ℕ)
      → IsSound s
      → IsFresh pg tn parser c s a
      → step pg tn parser c s a ≡ some t
      → get_job i s.storage ≡ some p
      → (get_job i t.storage ≡ some p) ⊎ Expires a s p
  unfolding step get_job quit
  step-found (handles type method body uuid now) s t i p ok fresh went found = inl (
      ap (λ (u : Service). find i u.storage.job_map) (sym (some_lem _ t went))
      ∙ stored-found (remove_dashes uuid) i p s ok _ _ fresh found
          (submit-IsStored parser c type method body uuid now s.next s.heap s.storage))
  step-found (moves w j) s t i p ok fresh went found =
      inl (ap (find i) (rw went at (move-SameMap w j s)) ∙ found)
  step-found (cleans now) s t i p ok fresh went found =
      let e : record s { storage = cleanup s.heap now s.storage } ≡ t = some_lem _ t went in
      let kept = get_job-clean s.heap now i s.storage ok.distinct in
      elim (Bool-cases (is_expired now s.storage.max_age_done_jobs (s.heap p))) [
        | inl expired ↦ inr expired
        | inr stays ↦
            inl (
              ap (λ (u : Service). find i u.storage.job_map) (sym e)
              ∙ kept
              ∙ rw (found, stays) refl)
      ]
  step-found quits s t i p ok fresh went found =
      inl (ap (λ (u : Service). find i u.storage.job_map) (sym (some_lem _ t went)) ∙ found)

  -- In every action that the server takes in a state that it can reach, a job that is found by an id
  -- stays found by it, unless the action is a cleanup and the job is done and has been for longer than
  -- the maximal age. The id of a new job is taken to be new.
  pub Reached-found :
      (heap : Heap) (s t : Service) (a : Action pg tn parser c) (i : Text) (p : ℕ)
      → Reached pg tn parser c heap s
      → IsFresh pg tn parser c s a
      → step pg tn parser c s a ≡ some t
      → get_job i s.storage ≡ some p
      → (get_job i t.storage ≡ some p) ⊎ Expires a s p
  Reached-found heap s t a i p reached =
      step-found a s t i p (Reached-IsSound pg tn parser c heap s reached)
