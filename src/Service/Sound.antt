-- ===== src/Service/Sound.antt =====
-- The invariant of the running server: every job that is not done stands in one place.
use batyr.Prelude.{ℕ, ◌+◌, ◌<◌, ◌≡◌, true, false, some, get_elem?, arith}
use batyr.Job.{queued, in_process, is_done}
use batyr.Storage.{Heap, find}
use batyr.Storage.Map.{IsDistinct}
use batyr.Queue.{Queue}
use batyr.Service.{Phase, Service, set_at}
use batyr.Service.Count.{
  occurrences, just_got, at_work, total, has_status, is_left, total-set_at, total-get,
}

-- A job that is queued stands in the queue, or a worker has just got it; a job in process is with a
-- worker. Each stands there once, and no other job does. A job that is not done is found by its id.
-- No worker returns before the queue is told to quit.
pub record IsSound (s : Service) : Type 0 where
  pub distinct : IsDistinct s.storage.job_map
  pub queue_counts :
      (p : ℕ)
      → occurrences p s.storage.queue.queue + total (just_got p) s.workers
        ≡ has_status queued s.heap s.next p
  pub work_counts : (p : ℕ) → total (at_work p) s.workers ≡ has_status in_process s.heap s.next p
  pub registered :
      (p : ℕ)
      → p < s.next
      → is_done (s.heap p) ≡ false
      → find (s.heap p).id s.storage.job_map ≡ some p
  pub stays : s.storage.queue.continue ≡ true → total is_left s.workers ≡ 0

-- A worker goes from one phase to another, and the queue and the jobs change so that the counts stay
-- right.
pub moved-IsSound :
    (s : Service) (i : ℕ) (old new : Phase) (q : Queue ℕ) (heap : Heap)
    → IsSound s
    → get_elem? s.workers i ≡ some old
    → ((p : ℕ)
        → occurrences p q.queue + just_got p new + has_status queued s.heap s.next p
          ≡ occurrences p s.storage.queue.queue + just_got p old + has_status queued heap s.next p)
    → ((p : ℕ)
        → at_work p new + has_status in_process s.heap s.next p
          ≡ at_work p old + has_status in_process heap s.next p)
    → ((p : ℕ) → (heap p).id ≡ (s.heap p).id)
    → ((p : ℕ) → p < s.next → is_done (heap p) ≡ false → is_done (s.heap p) ≡ false)
    → (q.continue ≡ true → (s.storage.queue.continue ≡ true) × (is_left new ≡ 0))
    → IsSound (record s {
      heap = heap;
      storage = record s.storage { queue = q };
      workers = set_at i new s.workers;
    })
moved-IsSound s i old new q heap ok here queue_moves work_moves ids undone stay = record {
  distinct = ok.distinct;
  queue_counts = λ p.
      omega (
        arith,
        ok.queue_counts p,
        queue_moves p,
        total-set_at (just_got p) i s.workers old new here,
      );
  work_counts = λ p.
      omega
        (arith, ok.work_counts p, work_moves p, total-set_at (at_work p) i s.workers old new here);
  registered = λ p known open_. rw (ids p) (ok.registered p known (undone p known open_));
  stays = λ on.
      omega
        (arith, ok.stays (stay on).0, (stay on).1, total-set_at is_left i s.workers old new here);
}

-- The job that a worker has just got is queued; the job that it works on is in process.
pub just_got-has_status :
    (s : Service) (i p : ℕ) (ph : Phase)
    → IsSound s
    → get_elem? s.workers i ≡ some ph
    → just_got p ph ≡ 1
    → has_status queued s.heap s.next p ≡ 1
just_got-has_status s i p ph ok here one =
    ground (arith, ok.queue_counts p, total-get (just_got p) i s.workers ph here, one)

pub at_work-has_status :
    (s : Service) (i p : ℕ) (ph : Phase)
    → IsSound s
    → get_elem? s.workers i ≡ some ph
    → at_work p ph ≡ 1
    → has_status in_process s.heap s.next p ≡ 1
at_work-has_status s i p ph ok here one =
    ground (arith, ok.work_counts p, total-get (at_work p) i s.workers ph here, one)
