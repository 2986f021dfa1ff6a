-- ===== src/Service/Waiting.antt =====
-- Worker::run: the loop that waits for a connection goes on while there is none.
use batyr.Prelude.{
  ℕ, zero, suc, ◌+◌, ◌≡◌, refl, sym, ap, ◌∙◌, false, List, [], ◌∷◌, Option, none, some, get_elem?,
  All, Text, ◌==◌, ==_iff, if_lem, Bool-cases, Option-cases, inl, inr, arith,
}
use batyr.Json.{Json}
use batyr.Config.{Configuration}
use batyr.Db.{Postgres}
use batyr.Db.Connection.{Reconnection, connected, not_connected, failed}
use batyr.Worker.{OgrFieldType}
use batyr.Storage.{JobStorage, pop_no_wait, pop_wait}
use batyr.Queue
use batyr.Job.{is_done}
use batyr.Worker.Loop.{Round, after_exception, perform}
use batyr.Service.{
  Phase, polling, waiting, left, thrown, holding, connecting, working, killed, closing, close_job,
  Service, set_at, after_poll, after_wait, try_connection, after_round, answered, World, Action,
  handles, moves, cleans, quits, advance, move_phase, move, step, run,
}
use batyr.Service.Moves.{After}
use batyr.Service.Liveness.{run_first, run_none}

-- Worker `i` waits for a connection, with the job at `p`.
unfoldable pub IsWaiting : ℕ → ℕ → Service → Type 0
IsWaiting i p s = (n : ℕ) × (get_elem? s.workers i ≡ some (connecting p n))

pub some_lem : (s t : Service) → some s ≡ some t → s ≡ t
some_lem s t e = cc e

get-set_at :
    (j i : ℕ) (ph : Phase) (ws : List Phase)
    → (j == i) ≡ false
    → get_elem? (set_at j ph ws) i ≡ get_elem? ws i
unfolding set_at
get-set_at j i ph [] apart = refl
get-set_at zero zero ph (w ∷ ws) apart = absurd (ground (arith, apart))
get-set_at zero (suc i) ph (w ∷ ws) apart = refl
get-set_at (suc j) zero ph (w ∷ ws) apart = refl
get-set_at (suc j) (suc i) ph (w ∷ ws) apart = get-set_at j i ph ws (ground (arith, apart))

get-set_at_same :
    (i : ℕ) (old new : Phase) (ws : List Phase)
    → get_elem? ws i ≡ some old
    → get_elem? (set_at i new ws) i ≡ some new
unfolding set_at
get-set_at_same i old new [] e = absurd (cc e)
get-set_at_same zero old new (w ∷ ws) e = refl
get-set_at_same (suc i) old new (w ∷ ws) e = get-set_at_same i old new ws e

-- A move of worker `j` changes its own phase only.
unfoldable pub Changes : ℕ → Service → Service → Type 0
Changes j s t = (new : Phase) × (t.workers ≡ set_at j new s.workers)

poll-Changes : (j : ℕ) (s : Service) (x : Option ℕ × JobStorage) → Changes j s (after_poll j s x)
unfolding Changes after_poll
poll-Changes j s (none, st) = (waiting, refl)
poll-Changes j s (some p, st) = (holding p, refl)

wait-Changes : (j : ℕ) (s : Service) (r : Queue.Round ℕ) → After (Changes j s) (after_wait j s r)
unfolding Changes after_wait
wait-Changes j s Queue.Round.quits = (left, refl)
wait-Changes j s Queue.Round.sleeps = tt
wait-Changes j s (Queue.Round.takes p q) = (holding p, refl)

round-Changes : (j p now : ℕ) (s : Service) (r : Round) → Changes j s (after_round j p now s r)
unfolding Changes after_round
round-Changes j p now s r =
    if_lem (λ (t : Service). (new : Phase) × (t.workers ≡ set_at j new s.workers)) (is_done r.job) _
      _ (λ e. (closing p r, refl)) (λ e. (killed p, refl))

connect-Changes :
    (j p n now : ℕ) (r : Reconnection) (s : Service) → Changes j s (try_connection j p n now r s)
unfolding Changes try_connection
connect-Changes j p n now connected s = (working p, refl)
connect-Changes j p n now not_connected s =
    if_lem (λ (t : Service). (new : Phase) × (t.workers ≡ set_at j new s.workers)) (n == 0) _ _
      (λ e. (connecting p (n + 1), refl)) (λ e. (connecting p (n + 1), refl))
connect-Changes j p n now (failed e) s =
    round-Changes j p now s (after_exception now (s.heap p) (some e))

-- The next round without a connection.
round-IsWaiting :
    (i p n now : ℕ) (s : Service)
    → get_elem? s.workers i ≡ some (connecting p n)
    → IsWaiting i p (try_connection i p n now not_connected s)
unfolding IsWaiting try_connection
round-IsWaiting i p n now s here =
    if_lem (λ (t : Service). (m : ℕ) × (get_elem? t.workers i ≡ some (connecting p m))) (n == 0) _ _
      (λ e. (n + 1, get-set_at_same i (connecting p n) (connecting p (n + 1)) s.workers here))
      (λ e. (n + 1, get-set_at_same i (connecting p n) (connecting p (n + 1)) s.workers here))

module _ (pg : Postgres) (tn : OgrFieldType → ℕ) (parser : Text → Option Json)
    (c : Configuration) where
  pub advance-Changes :
      (w : World pg tn parser c) (j : ℕ) (s : Service) (ph : Phase)
      → After (Changes j s) (advance pg tn parser c w j s ph)
  unfolding advance Changes close_job
  advance-Changes w j s polling = poll-Changes j s (pop_no_wait s.storage)
  advance-Changes w j s waiting = wait-Changes j s (pop_wait s.storage)
  advance-Changes w j s (holding p) = (connecting p 0, refl)
  advance-Changes w j s (connecting p n) = connect-Changes j p n w.now w.reconnection s
  advance-Changes w j s (working p) =
      round-Changes j p w.now s (perform pg tn w.now c w.dataset (s.heap p) w.database)
  advance-Changes w j s left = tt
  advance-Changes w j s thrown = tt
  advance-Changes w j s (killed p) = tt
  advance-Changes w j s (closing p r) = (_, refl)

  -- Another worker's move.
  other-IsWaiting :
      (w : World pg tn parser c) (i j p : ℕ) (s t : Service)
      → (j == i) ≡ false
      → IsWaiting i p s
      → move pg tn parser c w j s ≡ some t
      → IsWaiting i p t
  unfolding move move_phase Changes IsWaiting
  other-IsWaiting w i j p s t apart (n, here) went = elim (Option-cases (get_elem? s.workers j)) [
    | inl none_ ↦ absurd (cc (rw none_ at went))
    | inr (ph, at_j) ↦
        let went' : advance pg tn parser c w j s ph ≡ some t = rw at_j at went in
        let (new, changed) = rw went' at (advance-Changes w j s ph) in
        (n, ap (λ ws. get_elem? ws i) changed ∙ get-set_at j i new s.workers apart ∙ here)
  ]

  -- Its own move, without a connection.
  own-IsWaiting :
      (w : World pg tn parser c) (i p : ℕ) (s t : Service)
      → w.reconnection ≡ not_connected
      → IsWaiting i p s
      → move pg tn parser c w i s ≡ some t
      → IsWaiting i p t
  unfolding move move_phase advance IsWaiting
  own-IsWaiting w i p s t away (n, here) went =
      let e : some (try_connection i p n w.now not_connected s) ≡ some t =
        rw (here, away) at went in
      let same : try_connection i p n w.now not_connected s ≡ t = cc e in
      rw same at (round-IsWaiting i p n w.now s here)

  -- Worker `i` finds no connection in any of its moves.
  abbrev pub IsAway : ℕ → Action pg tn parser c → Type 0
  IsAway i (handles type method body uuid now) = Unit
  IsAway i (moves w j) = (j ≡ i) → (w.reconnection ≡ not_connected)
  IsAway i (cleans now) = Unit
  IsAway i quits = Unit

  step-IsWaiting :
      (i p : ℕ) (a : Action pg tn parser c) (s t : Service)
      → IsAway i a
      → IsWaiting i p s
      → step pg tn parser c s a ≡ some t
      → IsWaiting i p t
  unfolding step IsWaiting answered
  step-IsWaiting i p (handles type method body uuid now) s t away (n, here) went =
      (n, ap (λ (u : Service). get_elem? u.workers i) (sym (some_lem _ t went)) ∙ here)
  step-IsWaiting i p (moves w j) s t away waits went = elim (Bool-cases (j == i)) [
    | inl own ↦
        let e : j ≡ i = (==_iff j i).0 own in own-IsWaiting w i p s t (away e) waits (rw e at went)
    | inr other ↦ other-IsWaiting w i j p s t other waits went
  ]
  step-IsWaiting i p (cleans now) s t away (n, here) went =
      (n, ap (λ (u : Service). get_elem? u.workers i) (sym (some_lem _ t went)) ∙ here)
  step-IsWaiting i p quits s t away (n, here) went =
      (n, ap (λ (u : Service). get_elem? u.workers i) (sym (some_lem _ t went)) ∙ here)

  -- While the database cannot be reached, a worker that waits for a connection stays in its loop,
  -- whatever else happens, also after the queue was told to quit.
  pub run-IsWaiting :
      (i p : ℕ) (actions : List (Action pg tn parser c)) (s t : Service)
      → All (IsAway i) actions
      → IsWaiting i p s
      → run pg tn parser c s actions ≡ some t
      → IsWaiting i p t
  run-IsWaiting i p [] s t away waits ran = rw (run_none pg tn parser c s t ran) at waits
  run-IsWaiting i p (a ∷ actions) s t away waits ran =
      let (u, went, after) = run_first pg tn parser c a actions s t ran in
      run-IsWaiting i p actions u t away.1 (step-IsWaiting i p a s u away.0 waits went) after
