-- ===== src/Service/Moves.antt =====
-- Each action of a worker keeps the invariant.
use batyr.Prelude.{
  ℕ, ◌+◌, ◌≡◌, refl, sym, true, false, List, [], ◌∷◌, Option, none, some, get_elem?, Text, ◌==◌,
  if_lem, arith, Option-cases, inl, inr,
}
use batyr.Job.{
  Job, Status, queued, in_process, finished, failed as failed_status, is_done, set_status,
  set_message,
}
use batyr.Json.{Json}
use batyr.Config.{Configuration}
use batyr.Db.{Postgres}
use batyr.Worker.{OgrFieldType}
use batyr.Db.Connection.{Reconnection, connected, not_connected, failed}
use batyr.Worker.Loop.{Leaving, continues, rethrows, terminates, Round, after_exception, perform}
use batyr.Worker.Loop.Settled.{IsLeft, left_status, left_id, exception-IsLeft, perform-IsLeft}
use batyr.Storage.{update, pop_no_wait, pop_wait}
use batyr.Queue.{Queue, take_front, no_wait}
use batyr.Queue
use batyr.Service.{
  Phase, polling, waiting, left, thrown, holding, connecting, working, killed, closing, Service,
  change_job, completed, next_phase, close_job, move_to, after_poll, after_wait, waiting_message,
  try_connection, after_round, World, advance, move_phase, move,
}
use batyr.Service.Count.{
  one_if, occurrences, just_got, at_work, is_left, has_status-update, has_status-same,
}
use batyr.Service.Sound.{IsSound, moved-IsSound, just_got-has_status, at_work-has_status}

-- What is asked of a state, where there is one.
abbrev pub After {κ} : (Service → Type κ) → Option Service → Type κ
After P none = Unit
After P (some t) = P t

taken :
    (p x : ℕ) (rest queue : List ℕ) (n : ℕ)
    → queue ≡ x ∷ rest
    → occurrences p rest + one_if (x == p) + n ≡ occurrences p queue + 0 + n
unfolding occurrences
taken p x rest queue n e = rw e (omega arith)

next_phase-0 : (f : Phase → ℕ) (l : Leaving) → f polling ≡ 0 → f thrown ≡ 0 → f (next_phase l) ≡ 0
next_phase-0 f continues e h = e
next_phase-0 f rethrows e h = h
next_phase-0 f terminates e h = h

pub set_status-id : (st : Status) (now : ℕ) (j : Job) → (set_status st now j).id ≡ j.id
unfolding set_status is_done
set_status-id queued now j = refl
set_status-id in_process now j = refl
set_status-id finished now j = refl
set_status-id failed_status now j = refl

pub set_status-status : (st : Status) (now : ℕ) (j : Job) → (set_status st now j).status ≡ st
unfolding set_status is_done
set_status-status queued now j = refl
set_status-status in_process now j = refl
set_status-status finished now j = refl
set_status-status failed_status now j = refl

pub set_status-is_done :
    (now : ℕ) (done job : Job)
    → is_done done ≡ true
    → is_done (set_status done.status now job) ≡ true
unfolding is_done
set_status-is_done now done job e = rw (set_status-status done.status now job) e

module _ (s : Service) (i : ℕ) (ok : IsSound s) where
  poll-IsSound :
      (l : List ℕ)
      → s.storage.queue.queue ≡ l
      → get_elem? s.workers i ≡ some polling
      → IsSound (
          after_poll i s
            (let (p, q) = no_wait s.storage.queue l in (p, record s.storage { queue = q })))
  unfolding after_poll no_wait
  poll-IsSound [] e here =
      moved-IsSound s i polling waiting s.storage.queue s.heap ok here (λ p. refl) (λ p. refl)
        (λ p. refl) (λ p known h. h) (λ on. (on, refl))
  poll-IsSound (x ∷ rest) e here =
      moved-IsSound s i polling (holding x) (record s.storage.queue { queue = rest }) s.heap ok here
        (λ p. taken p x rest s.storage.queue.queue _ e) (λ p. refl) (λ p. refl) (λ p known h. h)
        (λ on. (on, refl))

  wait-IsSound :
      (l : List ℕ)
      → s.storage.queue.queue ≡ l
      → get_elem? s.workers i ≡ some waiting
      → After IsSound (after_wait i s (take_front s.storage.queue l))
  unfolding after_wait take_front
  wait-IsSound [] e here = tt
  wait-IsSound (x ∷ rest) e here =
      moved-IsSound s i waiting (holding x) (record s.storage.queue { queue = rest }) s.heap ok here
        (λ p. taken p x rest s.storage.queue.queue _ e) (λ p. refl) (λ p. refl) (λ p known h. h)
        (λ on. (on, refl))

  quits-IsSound :
      s.storage.queue.continue ≡ false
      → get_elem? s.workers i ≡ some waiting
      → IsSound (move_to i left s)
  quits-IsSound off here =
      moved-IsSound s i waiting left s.storage.queue s.heap ok here (λ p. refl) (λ p. refl)
        (λ p. refl) (λ p known h. h) (λ on. absurd (cc (on, off)))

  -- A worker with a job goes on with it, and may write to it.
  start-IsSound :
      (p now : ℕ)
      → get_elem? s.workers i ≡ some (holding p)
      → IsSound (change_job p (set_status in_process now (s.heap p)) (move_to i (connecting p 0) s))
  unfolding update set_status is_done
  start-IsSound p now here =
      let job = set_status in_process now (s.heap p) in
      let one = just_got-has_status s i p (holding p) ok here (ground arith) in
      moved-IsSound s i (holding p) (connecting p 0) s.storage.queue (update s.heap p job) ok here
        (λ x. ground (arith, one, has_status-update queued s.heap s.next p job x))
        (λ x. ground (arith, one, has_status-update in_process s.heap s.next p job x))
        (λ x. ground (arith)) (λ x known h. ground (arith, one, h)) (λ on. (on, refl))

  -- A worker that has a job in process may write to it and go on with it.
  write-IsSound :
      (p : ℕ) (old new : Phase) (job : Job)
      → get_elem? s.workers i ≡ some old
      → ((x : ℕ) → just_got x new ≡ just_got x old)
      → ((x : ℕ) → at_work x new ≡ at_work x old)
      → is_left new ≡ 0
      → job.id ≡ (s.heap p).id
      → job.status ≡ (s.heap p).status
      → IsSound (change_job p job (move_to i new s))
  unfolding update is_done
  write-IsSound p old new job here got work stays id status =
      moved-IsSound s i old new s.storage.queue (update s.heap p job) ok here
        (λ x. omega (arith, got x, has_status-same queued s.heap s.next p job x status))
        (λ x. omega (arith, work x, has_status-same in_process s.heap s.next p job x status))
        (λ x. ground (arith, id)) (λ x known h. ground (arith, h, status)) (λ on. (on, stays))

  -- The job in process becomes done.
  done-IsSound :
      (p : ℕ) (old new : Phase) (job : Job)
      → get_elem? s.workers i ≡ some old
      → ((x : ℕ) → just_got x old ≡ 0)
      → ((x : ℕ) → at_work x old ≡ one_if (p == x))
      → ((x : ℕ) → just_got x new ≡ 0)
      → ((x : ℕ) → at_work x new ≡ 0)
      → is_left new ≡ 0
      → job.id ≡ (s.heap p).id
      → is_done job ≡ true
      → IsSound (change_job p job (move_to i new s))
  unfolding update is_done
  done-IsSound p old new job here had works got work stays id done_ =
      let one = at_work-has_status s i p old ok here (ground (arith, works p)) in
      moved-IsSound s i old new s.storage.queue (update s.heap p job) ok here
        (λ x.
          ground (arith, one, got x, had x, done_, has_status-update queued s.heap s.next p job x))
        (λ x.
          ground (
            arith,
            one,
            work x,
            works x,
            done_,
            has_status-update in_process s.heap s.next p job x,
          ))
        (λ x. ground (arith, id)) (λ x known h. ground (arith, one, h, done_)) (λ on. (on, stays))

  -- A worker sets the status at the end of a job, or the program ends in its middle.
  finish-IsSound :
      (p now : ℕ) (old : Phase) (r : Round)
      → get_elem? s.workers i ≡ some old
      → ((x : ℕ) → just_got x old ≡ 0)
      → ((x : ℕ) → at_work x old ≡ one_if (p == x))
      → IsLeft now (s.heap p) r
      → IsSound (after_round i p now s r)
  unfolding after_round
  finish-IsSound p now old r here had works left_ =
      if_lem IsSound (is_done r.job) _ _
        (λ e.
          done-IsSound p old (closing p r) (set_status r.job.status now (s.heap p)) here had works
            (λ x. refl) (λ x. refl) refl (set_status-id r.job.status now (s.heap p))
            (set_status-is_done now r.job (s.heap p) e))
        (λ e.
          write-IsSound p old (killed p) r.job here (λ x. sym (had x)) (λ x. sym (works x)) refl
            (left_id now (s.heap p) r left_) (left_status now (s.heap p) r left_ e))

  close-IsSound :
      (p : ℕ) (r : Round) → get_elem? s.workers i ≡ some (closing p r) → IsSound (close_job i p r s)
  unfolding close_job
  close-IsSound p r here =
      let new = next_phase r.leaving in
      write-IsSound p (closing p r) new (completed r.job (s.heap p)) here
        (λ x. next_phase-0 (just_got x) r.leaving refl refl)
        (λ x. next_phase-0 (at_work x) r.leaving refl refl)
        (next_phase-0 is_left r.leaving refl refl) refl refl

  connect-IsSound :
      (p n now : ℕ) (r : Reconnection)
      → get_elem? s.workers i ≡ some (connecting p n)
      → IsSound (try_connection i p n now r s)
  unfolding try_connection set_message
  connect-IsSound p n now connected here =
      write-IsSound p (connecting p n) (working p) (set_message [] (s.heap p)) here (λ x. refl)
        (λ x. refl) refl refl refl
  connect-IsSound p n now not_connected here =
      if_lem IsSound (n == 0) _ _
        (λ first.
          write-IsSound p (connecting p n) (connecting p (n + 1))
            (set_message waiting_message (s.heap p)) here (λ x. refl) (λ x. refl) refl refl refl)
        (λ later.
          moved-IsSound s i (connecting p n) (connecting p (n + 1)) s.storage.queue s.heap ok here
            (λ x. refl) (λ x. refl) (λ x. refl) (λ x known h. h) (λ on. (on, refl)))
  connect-IsSound p n now (failed e) here =
      finish-IsSound p now (connecting p n) (after_exception now (s.heap p) (some e)) here
        (λ x. refl) (λ x. refl) (exception-IsLeft now (s.heap p) e)

module _ (pg : Postgres) (tn : OgrFieldType → ℕ) (parser : Text → Option Json)
    (c : Configuration) where
  advance-IsSound :
      (w : World pg tn parser c) (i : ℕ) (s : Service) (ph : Phase)
      → IsSound s
      → get_elem? s.workers i ≡ some ph
      → After IsSound (advance pg tn parser c w i s ph)
  unfolding advance pop_no_wait pop_wait Queue.pop_no_wait Queue.pop_round
  advance-IsSound w i s polling ok here = poll-IsSound s i ok s.storage.queue.queue refl here
  advance-IsSound w i s waiting ok here =
      if_lem (λ r. After IsSound (after_wait i s r)) s.storage.queue.continue
        (take_front s.storage.queue s.storage.queue.queue) Queue.Round.quits
        (λ e. wait-IsSound s i ok s.storage.queue.queue refl here)
        (λ e. quits-IsSound s i ok e here)
  advance-IsSound w i s (holding p) ok here = start-IsSound s i ok p w.now here
  advance-IsSound w i s (connecting p n) ok here =
      connect-IsSound s i ok p n w.now w.reconnection here
  advance-IsSound w i s (working p) ok here =
      finish-IsSound s i ok p w.now (working p)
        (perform pg tn w.now c w.dataset (s.heap p) w.database) here (λ x. refl) (λ x. refl)
        (perform-IsLeft pg tn w.now c w.dataset (s.heap p) w.database)
  advance-IsSound w i s left ok here = tt
  advance-IsSound w i s thrown ok here = tt
  advance-IsSound w i s (killed p) ok here = tt
  advance-IsSound w i s (closing p r) ok here = close-IsSound s i ok p r here

  pub move-IsSound :
      (w : World pg tn parser c) (i : ℕ) (s : Service)
      → IsSound s
      → After IsSound (move pg tn parser c w i s)
  unfolding move move_phase
  move-IsSound w i s ok = elim (Option-cases (get_elem? s.workers i)) [
    | inl none_ ↦ rw none_ tt
    | inr (ph, here) ↦ rw here (advance-IsSound w i s ph ok here)
  ]
