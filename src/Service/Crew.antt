-- ===== src/Service/Crew.antt =====
-- The number of workers is the one of the configuration.
use batyr.Prelude.{
  ℕ, zero, suc, ◌≡◌, refl, ap, ◌∙◌, Option, Text, get_elem?, length, Option-cases, inl, inr,
}
use batyr.Json.{Json}
use batyr.Config.{Configuration}
use batyr.Db.{Postgres}
use batyr.Worker.{OgrFieldType}
use batyr.Storage.{Heap}
use batyr.Service.{
  Service, started_workers, new_service, answered, World, Action, handles, moves, cleans, quits,
  advance, move_phase, move, step,
}
use batyr.Service.Count.{length-set_at}
use batyr.Service.Moves.{After}
use batyr.Service.Reached.{Reached, at_start, after_step}
use batyr.Service.Waiting.{Changes, advance-Changes}

length-started_workers : (n : ℕ) → length (started_workers n) ≡ n
unfolding started_workers
length-started_workers zero = refl
length-started_workers (suc n) = ap suc (length-started_workers n)

module _ (pg : Postgres) (tn : OgrFieldType → ℕ) (parser : Text → Option Json)
    (c : Configuration) where
  move-crew :
      (w : World pg tn parser c) (i : ℕ) (s : Service)
      → After (λ t. length t.workers ≡ length s.workers) (move pg tn parser c w i s)
  unfolding move move_phase Changes
  move-crew w i s = elim (Option-cases (get_elem? s.workers i)) [
    | inl none_ ↦ rw none_ tt
    | inr (ph, here) ↦ rw here (elim (Option-cases (advance pg tn parser c w i s ph)) [
      | inl stuck ↦ rw stuck tt
      | inr (t, went) ↦
          let (new, changed) = rw went at (advance-Changes pg tn parser c w i s ph) in
          rw went (ap length changed ∙ length-set_at i new s.workers)
    ])
  ]

  step-crew :
      (a : Action pg tn parser c) (s : Service)
      → After (λ t. length t.workers ≡ length s.workers) (step pg tn parser c s a)
  unfolding step answered
  step-crew (handles type method body uuid now) s = refl
  step-crew (moves w i) s = move-crew w i s
  step-crew (cleans now) s = refl
  step-crew quits s = refl

  pub Reached-crew :
      (heap : Heap) (s : Service)
      → Reached pg tn parser c heap s
      → length s.workers ≡ c.num_worker_threads
  unfolding new_service
  Reached-crew heap s at_start = length-started_workers c.num_worker_threads
  Reached-crew heap s (after_step r t a before fresh e) =
      (rw e at (step-crew a r)) ∙ Reached-crew heap r before
