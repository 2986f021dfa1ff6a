-- ===== src/Service/Stop.antt =====
-- Broker::stop: once the queue was told to quit, every worker returns.
use batyr.Prelude.{
  ℕ, zero, suc, ◌≤◌, ◌≡◌, refl, ◌∙◌, ◌⊎◌, false, List, [], ◌∷◌, Option, some, get_elem?, Text, ltb,
  if_lem, arith, Bool-cases, inl, inr,
}
use batyr.Json.{Json}
use batyr.Config.{Configuration}
use batyr.Db.{Postgres}
use batyr.Worker.{OgrFieldType}
use batyr.Storage.{pop_wait}
use batyr.Queue.{Queue, take_front}
use batyr.Queue
use batyr.Db.Connection.{connected}
use batyr.Service.{
  Phase, polling, waiting, left, thrown, holding, connecting, working, killed, closing, Service,
  after_wait, World, moves, advance, move_phase, move, step, run,
}
use batyr.Service.Count.{is_thrown, total, total-get, total-find}
use batyr.Service.Liveness.{Moved, step-Moved, run_then, actions_left, to_do}
use batyr.Service.Drain.{scheduled}

-- Every worker's `run` has ended, by its return or by an exception.
abbrev pub AllEnded : Service → Type 0
AllEnded s =
    (i : ℕ) (ph : Phase) → get_elem? s.workers i ≡ some ph → (ph ≡ left) ⊎ (is_thrown ph ≡ 1)

to_do-ended : (ph : Phase) → to_do ph ≡ 0 → (ph ≡ left) ⊎ (is_thrown ph ≡ 1)
to_do-ended polling e = absurd (omega (arith, e))
to_do-ended waiting e = absurd (omega (arith, e))
to_do-ended left e = inl refl
to_do-ended thrown e = inr refl
to_do-ended (holding p) e = absurd (omega (arith, e))
to_do-ended (connecting p n) e = absurd (omega (arith, e))
to_do-ended (working p) e = absurd (omega (arith, e))
to_do-ended (killed p) e = inr refl
to_do-ended (closing p r) e = absurd (omega (arith, e))

module _ (pg : Postgres) (tn : OgrFieldType → ℕ) (parser : Text → Option Json)
    (c : Configuration) where
  ends_or_moves :
      (w : World pg tn parser c) (i : ℕ) (s : Service) (ph : Phase)
      → s.storage.queue.continue ≡ false
      → 1 ≤ to_do ph
      → (t : Service) × (advance pg tn parser c w i s ph ≡ some t)
  unfolding advance after_wait pop_wait Queue.pop_round
  ends_or_moves w i s polling off h = (_, refl)
  ends_or_moves w i s waiting off h =
      if_lem (λ r. (t : Service) × (after_wait i s r ≡ some t)) s.storage.queue.continue
        (take_front s.storage.queue s.storage.queue.queue) Queue.Round.quits (λ on. cc (on, off))
        (λ e. (_, refl))
  ends_or_moves w i s left off h = absurd (omega (arith, h))
  ends_or_moves w i s thrown off h = absurd (omega (arith, h))
  ends_or_moves w i s (holding p) off h = (_, refl)
  ends_or_moves w i s (connecting p n) off h = (_, refl)
  ends_or_moves w i s (working p) off h = (_, refl)
  ends_or_moves w i s (killed p) off h = absurd (omega (arith, h))
  ends_or_moves w i s (closing p r) off h = (_, refl)

  quit_progress :
      (w : World pg tn parser c) (s : Service)
      → s.storage.queue.continue ≡ false
      → AllEnded s ⊎ ((i : ℕ) × (t : Service) × (move pg tn parser c w i s ≡ some t))
  unfolding move move_phase
  quit_progress w s off = elim (Bool-cases (ltb 0 (total to_do s.workers))) [
    | inl more ↦
        let (i, ph, here, has) = total-find to_do s.workers (ground (arith, more)) in
        let (t, went) = ends_or_moves w i s ph off has in inr (i, t, rw here went)
    | inr over ↦ inl (λ i ph here.
        let bound = total-get to_do i s.workers ph here in
        to_do-ended ph (ground (arith, over, bound)))
  ]

  -- A schedule after which every worker has ended.
  abbrev pub IsJoined : (ℕ → World pg tn parser c) → ℕ → Service → Type 0
  IsJoined world n s =
      (is : List ℕ) × (t : Service) × (run pg tn parser c s (scheduled pg tn parser c world n is)
        ≡ some t)
      × AllEnded t

  join_step :
      (world : ℕ → World pg tn parser c) (n : ℕ) (s : Service)
      → (world n).reconnection ≡ connected
      → s.storage.queue.continue ≡ false
      → ((t : Service) → Moved s t → IsJoined world (suc n) t)
      → IsJoined world n s
  unfolding run step
  join_step world n s up off later = elim (quit_progress (world n) s off) [
    | inl all ↦ ([], s, refl, all)
    | inr (i, t, went) ↦
        let (is, u, ran, end) = later t (rw went at (step-Moved pg tn parser c (world n) i s up)) in
        (
          i ∷ is,
          u,
          run_then pg tn parser c (moves (world n) i) (scheduled pg tn parser c world (suc n) is) s
                t went
              ∙ ran,
          end,
        )
  ]

  join :
      (world : ℕ → World pg tn parser c)
      → ((k : ℕ) → (world k).reconnection ≡ connected)
      → (fuel n : ℕ) (s : Service) → actions_left s ≤ fuel
      → s.storage.queue.continue ≡ false
      → IsJoined world n s
  join world up zero n s enough off =
      join_step world n s (up n) off (λ t m. absurd (omega (arith, m.fewer, enough)))
  join world up (suc fuel) n s enough off =
      join_step world n s (up n) off
        (λ t m. join world up fuel (suc n) t (omega (arith, m.fewer, enough)) (m.goes_on ∙ off))

  -- Once the queue was told to quit, the workers can go on in such a way, whatever they meet on the
  -- way as long as the database can be reached, that `run` has ended for every one of them: the
  -- `join` of `Broker::stop` can return.
  pub stop-IsJoined :
      (world : ℕ → World pg tn parser c) (s : Service)
      → ((k : ℕ) → (world k).reconnection ≡ connected)
      → s.storage.queue.continue ≡ false
      → IsJoined world 0 s
  stop-IsJoined world s up off = join world up (actions_left s) 0 s (omega arith) off
