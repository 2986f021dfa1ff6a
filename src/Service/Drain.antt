-- ===== src/Service/Drain.antt =====
-- The workers never get stuck with a job, and bring all jobs to an end.
use batyr.Prelude.{
  ℕ, zero, suc, ◌≤◌, ◌<◌, ◌≡◌, refl, ◌∙◌, ◌⊎◌, true, List, [], ◌∷◌, Option, none, some, get_elem?,
  length, Text, ltb, if_lem, arith, Bool-cases, inl, inr,
}
use batyr.Job.{queued, in_process, is_done}
use batyr.Json.{Json}
use batyr.Config.{Configuration}
use batyr.Db.{Postgres}
use batyr.Worker.{OgrFieldType}
use batyr.Storage.{Heap, pop_wait}
use batyr.Queue.{Queue, take_front, no_wait}
use batyr.Queue
use batyr.Db.Connection.{connected}
use batyr.Service.{
  Phase, polling, waiting, left, thrown, holding, connecting, working, killed, closing, Service,
  after_wait, World, Action, moves, advance, move_phase, move, step, run,
}
use batyr.Service.Count.{
  occurrences, just_got, total, has_status, has_job, is_left, is_thrown, total-get, total-find,
  total_mono, just_got-has_job, total-at_work,
}
use batyr.Service.Sound.{IsSound}
use batyr.Service.Moves.{move-IsSound}
use batyr.Service.Reached.{Reached, Reached-IsSound}
use batyr.Service.Crew.{Reached-crew}
use batyr.Service.Liveness.{Moved, step-Moved, run_then, actions_left}

-- Every job that there is is done.
abbrev pub AllDone : Service → Type 0
AllDone s = (p : ℕ) → p < s.next → is_done (s.heap p) ≡ true

status_done :
    (heap : Heap) (next p : ℕ)
    → p < next
    → has_status queued heap next p ≡ 0
    → has_status in_process heap next p ≡ 0
    → is_done (heap p) ≡ true
unfolding is_done
status_done heap next p known q w = ground (arith, known, q, w)

-- Where nothing is queued, no worker has a job and none was ended, all jobs are done.
idle-AllDone :
    (s : Service)
    → IsSound s
    → s.storage.queue.queue ≡ []
    → total has_job s.workers ≡ 0
    → total is_thrown s.workers ≡ 0
    → AllDone s
unfolding occurrences
idle-AllDone s ok empty idle none_gone p known =
    let none_in : occurrences p s.storage.queue.queue ≡ 0 = rw empty refl in
    let got = total_mono (just_got p) has_job s.workers (just_got-has_job p) in
    let work = total-at_work p s.workers in
    status_done s.heap s.next p known (omega (arith, ok.queue_counts p, none_in, got, idle))
      (omega (arith, ok.work_counts p, work, idle, none_gone))

List-cases : (l : List ℕ) → (l ≡ []) ⊎ ((x : ℕ) × (rest : List ℕ) × (l ≡ x ∷ rest))
List-cases [] = inl refl
List-cases (x ∷ rest) = inr (x, rest, refl)

first : (ws : List Phase) → 1 ≤ length ws → (ph : Phase) × (get_elem? ws 0 ≡ some ph)
first [] h = absurd (omega (arith, h))
first (w ∷ ws) h = (w, refl)

wait_takes :
    (i : ℕ) (s : Service) (l : List ℕ) (x : ℕ) (rest : List ℕ)
    → l ≡ x ∷ rest
    → (t : Service) × (after_wait i s (take_front s.storage.queue l) ≡ some t)
unfolding after_wait take_front
wait_takes i s [] x rest e = cc e
wait_takes i s (y ∷ ys) x rest e = (_, refl)

module _ (pg : Postgres) (tn : OgrFieldType → ℕ) (parser : Text → Option Json)
    (c : Configuration) where
  job_moves :
      (w : World pg tn parser c) (i : ℕ) (s : Service) (ph : Phase)
      → 1 ≤ has_job ph
      → (t : Service) × (advance pg tn parser c w i s ph ≡ some t)
  unfolding advance
  job_moves w i s polling h = absurd (omega (arith, h))
  job_moves w i s waiting h = absurd (omega (arith, h))
  job_moves w i s left h = absurd (omega (arith, h))
  job_moves w i s thrown h = absurd (omega (arith, h))
  job_moves w i s (holding p) h = (_, refl)
  job_moves w i s (connecting p n) h = (_, refl)
  job_moves w i s (working p) h = (_, refl)
  job_moves w i s (killed p) h = absurd (omega (arith, h))
  job_moves w i s (closing p r) h = (_, refl)

  idle_moves :
      (w : World pg tn parser c) (i : ℕ) (s : Service) (ph : Phase) (x : ℕ) (rest : List ℕ)
      → has_job ph ≡ 0
      → is_left ph ≡ 0
      → is_thrown ph ≡ 0
      → s.storage.queue.queue ≡ x ∷ rest
      → s.storage.queue.continue ≡ true
      → (t : Service) × (advance pg tn parser c w i s ph ≡ some t)
  unfolding advance after_wait pop_wait Queue.pop_round take_front
  idle_moves w i s polling x rest h l g e on = (_, refl)
  idle_moves w i s waiting x rest h l g e on =
      if_lem (λ r. (t : Service) × (after_wait i s r ≡ some t)) s.storage.queue.continue
        (take_front s.storage.queue s.storage.queue.queue) Queue.Round.quits
        (λ yes_. wait_takes i s s.storage.queue.queue x rest e) (λ off. cc (on, off))
  idle_moves w i s left x rest h l g e on = absurd (omega (arith, l))
  idle_moves w i s thrown x rest h l g e on = absurd (omega (arith, g))
  idle_moves w i s (holding p) x rest h l g e on = absurd (omega (arith, h))
  idle_moves w i s (connecting p n) x rest h l g e on = absurd (omega (arith, h))
  idle_moves w i s (working p) x rest h l g e on = absurd (omega (arith, h))
  idle_moves w i s (killed p) x rest h l g e on = absurd (omega (arith, g))
  idle_moves w i s (closing p r) x rest h l g e on = absurd (omega (arith, h))

  -- Some worker can take an action, or there is nothing more to do.
  progress :
      (w : World pg tn parser c) (s : Service)
      → IsSound s
      → s.storage.queue.continue ≡ true
      → total is_thrown s.workers ≡ 0
      → 1 ≤ length s.workers
      → AllDone s ⊎ ((i : ℕ) × (t : Service) × (move pg tn parser c w i s ≡ some t))
  unfolding move move_phase
  progress w s ok on none_gone crew = elim (Bool-cases (ltb 0 (total has_job s.workers))) [
    | inl some_job ↦
        let (i, ph, here, has) = total-find has_job s.workers (ground (arith, some_job)) in
        let (t, went) = job_moves w i s ph has in inr (i, t, rw here went)
    | inr no_job ↦
        let idle : total has_job s.workers ≡ 0 = ground (arith, no_job) in
        elim (List-cases s.storage.queue.queue) [
          | inl empty ↦ inl (idle-AllDone s ok empty idle none_gone)
          | inr (x, rest, e) ↦
              let (ph, here) = first s.workers crew in
              let h = total-get has_job 0 s.workers ph here in
              let l = total-get is_left 0 s.workers ph here in
              let g = total-get is_thrown 0 s.workers ph here in
              let (t, went) =
                idle_moves w 0 s ph x rest (omega (arith, h, idle)) (omega (arith, l, ok.stays on))
                  (omega (arith, g, none_gone)) e on in
              inr (0, t, rw here went)
        ]
  ]

  -- The workers of the list take their next actions, each in the world of that time.
  abbrev pub scheduled : (ℕ → World pg tn parser c) → ℕ → List ℕ → List (Action pg tn parser c)
  scheduled world n [] = []
  scheduled world n (i ∷ is) = moves (world n) i ∷ scheduled world (suc n) is

  -- The schedule ends where all jobs are done or a worker was thrown out of its loop.
  abbrev pub IsDrained : (ℕ → World pg tn parser c) → ℕ → Service → Type 0
  IsDrained world n s =
      (is : List ℕ) × (t : Service) × (run pg tn parser c s (scheduled world n is) ≡ some t)
      × (AllDone t ⊎ (1 ≤ total is_thrown t.workers))

  move_first :
      (world : ℕ → World pg tn parser c) (n i : ℕ) (s t : Service)
      → step pg tn parser c s (moves (world n) i) ≡ some t
      → IsDrained world (suc n) t
      → IsDrained world n s
  move_first world n i s t went (is, u, ran, end) = (
    i ∷ is,
    u,
    run_then pg tn parser c (moves (world n) i) (scheduled world (suc n) is) s t went ∙ ran,
    end,
  )

  drain_step :
      (world : ℕ → World pg tn parser c) (n : ℕ) (s : Service)
      → (world n).reconnection ≡ connected
      → IsSound s
      → s.storage.queue.continue ≡ true
      → 1 ≤ length s.workers
      → ((t : Service) → Moved s t → IsSound t → IsDrained world (suc n) t)
      → IsDrained world n s
  unfolding run step
  drain_step world n s up ok on crew later = elim (Bool-cases (ltb 0 (total is_thrown s.workers))) [
    | inl gone ↦ ([], s, refl, inr (ground (arith, gone)))
    | inr none_gone ↦ elim (progress (world n) s ok on (ground (arith, none_gone)) crew) [
      | inl all ↦ ([], s, refl, inl all)
      | inr (i, t, went) ↦
          let m : Moved s t = rw went at (step-Moved pg tn parser c (world n) i s up) in
          let sound : IsSound t = rw went at (move-IsSound pg tn parser c (world n) i s ok) in
          move_first world n i s t went (later t m sound)
    ]
  ]

  drain :
      (world : ℕ → World pg tn parser c)
      → ((k : ℕ) → (world k).reconnection ≡ connected)
      → (fuel n : ℕ) (s : Service) → actions_left s ≤ fuel
      → IsSound s
      → s.storage.queue.continue ≡ true
      → 1 ≤ length s.workers
      → IsDrained world n s
  drain world up zero n s enough ok on crew =
      drain_step world n s (up n) ok on crew (λ t m sound. absurd (omega (arith, m.fewer, enough)))
  drain world up (suc fuel) n s enough ok on crew =
      drain_step world n s (up n) ok on crew (λ t m sound.
        drain world up fuel (suc n) t (omega (arith, m.fewer, enough)) sound (m.goes_on ∙ on)
          (omega (arith, m.crew, crew)))

  -- From every state that the server can reach with a configuration of at least one worker, as every
  -- accepted one has, and in which its queue has not been told to quit, there is a way for the workers
  -- to go on, whatever they meet on the way as long as the database can be reached, that ends in a
  -- state in which every job is done, or in which an exception has ended a worker.
  pub Reached-IsDrained :
      (world : ℕ → World pg tn parser c) (heap : Heap) (s : Service)
      → ((k : ℕ) → (world k).reconnection ≡ connected)
      → 1 ≤ c.num_worker_threads
      → Reached pg tn parser c heap s
      → s.storage.queue.continue ≡ true
      → IsDrained world 0 s
  Reached-IsDrained world heap s up some_worker reached on =
      drain world up (actions_left s) 0 s (omega arith)
        (Reached-IsSound pg tn parser c heap s reached) on
        (omega (arith, some_worker, Reached-crew pg tn parser c heap s reached))

  -- The workers do not get stuck: in every state that the server can reach with a configuration of at
  -- least one worker, in which the queue has not been told to quit, no exception has ended a worker and
  -- no worker can take an action, every job is done.
  pub Reached-AllDone :
      (w : World pg tn parser c) (heap : Heap) (s : Service)
      → 1 ≤ c.num_worker_threads
      → Reached pg tn parser c heap s
      → s.storage.queue.continue ≡ true
      → total is_thrown s.workers ≡ 0
      → ((i : ℕ) → move pg tn parser c w i s ≡ none)
      → AllDone s
  Reached-AllDone w heap s some_worker reached on none_thrown stuck =
      elim (progress w s (Reached-IsSound pg tn parser c heap s reached) on none_thrown
        (omega (arith, some_worker, Reached-crew pg tn parser c heap s reached))) [
          | inl all ↦ all
          | inr (i, t, went) ↦ absurd (cc (stuck i, went))
        ]
