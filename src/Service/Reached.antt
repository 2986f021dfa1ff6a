-- ===== src/Service/Reached.antt =====
-- The invariant holds in every state that the server can come to.
use batyr.Prelude.{
  ℕ, zero, suc, ◌≡◌, refl, true, false, [], ◌∷◌, Option, none, some, Text, text_eq, text_eq_iff,
  text_eq_refl, ◌==◌, ==_iff, arith, Bool-cases, inl, inr,
}
use batyr.Job.{Job, queued, in_process, is_done, remove_dashes}
use batyr.Json.{Json}
use batyr.Config.{Configuration}
use batyr.Db.{Postgres}
use batyr.Worker.{OgrFieldType}
use batyr.Storage.{Heap, update, find, add_job, push, cleanup, get_job, quit}
use batyr.Storage.Map.{find-put, put-IsDistinct}
use batyr.Storage.Cleanup.{clean-IsDistinct, get_job-clean, is_expired_done}
use batyr.Http.Handlers.{State, Response, Answer, sends, shows}
use batyr.Http.Handlers.Stored.{IsStored, stored, refused, submit-IsStored}
use batyr.Service.{
  Phase, polling, Service, answered, Action, handles, moves, cleans, quits, step, new_service,
  started_workers,
}
use batyr.Service.Count.{
  occurrences, just_got, at_work, total, is_left, has_status-update, occurrences-append,
}
use batyr.Service.Sound.{IsSound}
use batyr.Service.Moves.{After, move-IsSound}

eq_refl : (n : ℕ) → (n == n) ≡ true
eq_refl n = (==_iff n n).1 refl

module _ (s : Service) (ok : IsSound s) where
  push-IsSound :
      (job : Job)
      → find job.id s.storage.job_map ≡ none
      → job.status ≡ queued
      → IsSound (record s {
        heap = update s.heap s.next job;
        storage = push (update s.heap s.next job) s.next s.storage;
        next = suc s.next;
      })
  unfolding push add_job occurrences update is_done
  push-IsSound job fresh waits =
      let heap = update s.heap s.next job in
      record {
        distinct = put-IsDistinct (heap s.next).id s.next s.storage.job_map ok.distinct;
        queue_counts = λ p. ground (
          arith,
          ok.queue_counts p,
          occurrences-append p s.storage.queue.queue (s.next ∷ []),
          has_status-update queued s.heap (suc s.next) s.next job p,
          waits,
        );
        work_counts = λ p. ground (
          arith,
          ok.work_counts p,
          has_status-update in_process s.heap (suc s.next) s.next job p,
          waits,
        );
        registered = λ p known open_. elim (Bool-cases (p == s.next)) [
          | inl new ↦
              rw (new, (==_iff p s.next).0 new)
                (rw (eq_refl s.next)
                  (rw (find-put job.id job.id s.next s.storage.job_map, text_eq_refl job.id) refl))
          | inr old ↦
              let id = (s.heap p).id in
              let found = ok.registered p (ground (arith, known, old)) (rw old at open_) in
              let apart : text_eq job.id id ≡ false =
                ground (arith, text_eq_iff job.id id, fresh, found) in
              rw (old, eq_refl s.next)
                (rw (find-put id job.id s.next s.storage.job_map, apart) found)
        ];
        stays = ok.stays;
      }

  cleanup-IsSound : (now : ℕ) → IsSound (record s { storage = cleanup s.heap now s.storage })
  unfolding cleanup get_job
  cleanup-IsSound now = record {
    distinct =
        clean-IsDistinct s.heap now s.storage.max_age_done_jobs s.storage.job_map ok.distinct;
    queue_counts = ok.queue_counts;
    work_counts = ok.work_counts;
    registered = λ p known open_.
        let kept = get_job-clean s.heap now (s.heap p).id s.storage ok.distinct in
        let found = ok.registered p known open_ in
        ground
          (arith, kept, found, open_, is_expired_done now s.storage.max_age_done_jobs (s.heap p));
    stays = ok.stays;
  }

  quit-IsSound : IsSound (record s { storage = quit s.storage })
  unfolding quit
  quit-IsSound = record {
    distinct = ok.distinct;
    queue_counts = ok.queue_counts;
    work_counts = ok.work_counts;
    registered = ok.registered;
    stays = λ on. absurd (cc on);
  }

  pub answered-stored :
      (job : Job) (a : Answer) (after : State)
      → a ≡ shows s.next
      → after ≡ record {
        heap = update s.heap s.next job;
        storage = some (push (update s.heap s.next job) s.next s.storage);
      }
      → answered s (a, after) ≡ record s {
        heap = update s.heap s.next job;
        storage = push (update s.heap s.next job) s.next s.storage;
        next = suc s.next;
      }
  unfolding answered
  answered-stored job a after shown e = rw (shown, e) refl

  pub answered-refused :
      (a : Answer) (r : Response) (after : State)
      → a ≡ sends r
      → after ≡ record { heap = s.heap; storage = some s.storage }
      → answered s (a, after) ≡ s
  unfolding answered
  answered-refused a r after sent e = rw (sent, e) refl

  answered-IsSound :
      (id : Text) (a : Answer) (after : State)
      → find id s.storage.job_map ≡ none
      → IsStored id s.next s.heap s.storage (a, after)
      → IsSound (answered s (a, after))
  answered-IsSound id a after fresh (stored job same waits shown e) =
      rw (answered-stored job a after shown e) (push-IsSound job (rw same fresh) waits)
  answered-IsSound id a after fresh (refused r sent status e) =
      rw (answered-refused a r after sent e) ok

started-total : (f : Phase → ℕ) (n : ℕ) → f polling ≡ 0 → total f (started_workers n) ≡ 0
unfolding total started_workers
started-total f zero e = refl
started-total f (suc n) e = omega (arith, e, started-total f n e)

new_service-IsSound : (heap : Heap) (c : Configuration) → IsSound (new_service heap c)
unfolding new_service occurrences
new_service-IsSound heap c = record {
  distinct = tt;
  queue_counts = λ p. ground (arith, started-total (just_got p) c.num_worker_threads refl);
  work_counts = λ p. ground (arith, started-total (at_work p) c.num_worker_threads refl);
  registered = λ p known open_. absurd (omega (arith, known));
  stays = λ on. started-total is_left c.num_worker_threads refl;
}

module _ (pg : Postgres) (tn : OgrFieldType → ℕ) (parser : Text → Option Json)
    (c : Configuration) where
  -- No job of the storage has the id that the generated UUID gives a new one.
  abbrev pub IsFresh : Service → Action pg tn parser c → Type 0
  IsFresh s (handles type method body uuid now) = get_job (remove_dashes uuid) s.storage ≡ none
  IsFresh s (moves w i) = Unit
  IsFresh s (cleans now) = Unit
  IsFresh s quits = Unit

  -- The states to which the server comes from its start, in any order of the actions of its threads.
  pub data Reached (heap : Heap) : Service → Type 0 where
    at_start : Reached heap (new_service heap c)
    after_step :
        (s t : Service) (a : Action pg tn parser c)
        → Reached heap s
        → IsFresh s a
        → step pg tn parser c s a ≡ some t
        → Reached heap t

  step-IsSound :
      (s : Service) (a : Action pg tn parser c)
      → IsSound s
      → IsFresh s a
      → After IsSound (step pg tn parser c s a)
  unfolding step get_job
  step-IsSound s (handles type method body uuid now) ok fresh =
      answered-IsSound s ok (remove_dashes uuid) _ _ fresh
        (submit-IsStored parser c type method body uuid now s.next s.heap s.storage)
  step-IsSound s (moves w i) ok fresh = move-IsSound pg tn parser c w i s ok
  step-IsSound s (cleans now) ok fresh = cleanup-IsSound s ok now
  step-IsSound s quits ok fresh = quit-IsSound s ok

  pub Reached-IsSound : (heap : Heap) (s : Service) → Reached heap s → IsSound s
  Reached-IsSound heap s at_start = new_service-IsSound heap c
  Reached-IsSound heap s (after_step r t a before fresh e) =
      rw e at (step-IsSound r a (Reached-IsSound heap r before) fresh)
