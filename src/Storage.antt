-- ===== src/Storage.antt =====
-- server/jobstorage.h and server/jobstorage.cpp. A `Job::Ptr` is an address of the heap of jobs,
-- which the map, the queue and the worker threads share. `jobMap` is the list of its entries in
-- the order of its iteration, which nothing below relies on. Each method but `push` is one
-- step, as it holds `mapModificationMutex` (`getJob` reads without it). Nothing calls `removeJob`.
pub mod Map
pub mod Cleanup
pub mod Ordered
pub mod Stats
use batyr.Prelude.{
  ℕ, suc, ◌+◌, Bool, true, false, ◌&&◌, not, List, [], ◌∷◌, ◌++◌, map, Option, none, some, Text,
  text_eq, ltb, ◌==◌, if◌then◌else◌,
}
use batyr.Queue.{Queue, Round, empty_queue, size}
use batyr.Queue
use batyr.Job.{Job, Status, queued, in_process, finished, failed, is_done}

abbrev pub Heap : Type 0
Heap = ℕ → Job

-- A change of the job at an address.
unfoldable pub update : Heap → ℕ → Job → Heap
update heap p j q = if q == p then j else heap q

abbrev pub JobMap : Type 0
JobMap = List (Text × ℕ)

pub record JobStorage : Type 0 where
  pub job_map : JobMap
  pub queue : Queue ℕ
  pub max_age_done_jobs : ℕ

-- The constructor; the cleanup thread that it starts is `cleanup`, at times of its choice.
abbrev pub new_storage : ℕ → JobStorage
new_storage age = record { job_map = []; queue = empty_queue; max_age_done_jobs = age }

-- `jobMap.find(id)` and `jobMap[id] = p`.
unfoldable pub find : Text → JobMap → Option ℕ
find id [] = none
find id ((k, p) ∷ m) = if text_eq k id then some p else find id m

unfoldable pub put : Text → ℕ → JobMap → JobMap
put id p [] = (id, p) ∷ []
put id p ((k, q) ∷ m) = if text_eq k id then (k, p) ∷ m else (k, q) ∷ put id p m

unfoldable pub add_job : Heap → ℕ → JobStorage → JobStorage
add_job heap p s = record s { job_map = put (heap p).id p s.job_map }

-- `none` is the exception `std::out_of_range`.
unfoldable pub get_job : Text → JobStorage → Option ℕ
get_job id s = find id s.job_map

-- `addJob(_job)` and then `queue.push(_job)`, each under its own mutex.
unfoldable pub push : Heap → ℕ → JobStorage → JobStorage
push heap p s = let s' = add_job heap p s in record s' { queue = Queue.push s'.queue p }

unfoldable pub pop_no_wait : JobStorage → Option ℕ × JobStorage
pop_no_wait s = let (p, q) = Queue.pop_no_wait s.queue in (p, record s { queue = q })

-- A round of `popWait` on the queue.
unfoldable pub pop_wait : JobStorage → Round ℕ
pop_wait s = Queue.pop_round s.queue

abbrev pub queue_size : JobStorage → ℕ
queue_size s = size s.queue

unfoldable pub quit : JobStorage → JobStorage
quit s = record s { queue = Queue.quit s.queue }

-- `isDone()` and `getTimeFinished() < now - maxAgeDoneJobs`, with the subtraction moved over.
unfoldable pub is_expired : ℕ → ℕ → Job → Bool
is_expired now age j = is_done j && ltb (j.time_finished + age) now

-- The loop of the cleanup thread, with `numRemovedJobs`.
unfoldable pub clean : Heap → ℕ → ℕ → JobMap → JobMap × ℕ
clean heap now age [] = ([], 0)
clean heap now age ((k, p) ∷ m) =
    let (kept, removed) = clean heap now age m in
    if is_expired now age (heap p) then (kept, removed + 1) else ((k, p) ∷ kept, removed)

unfoldable pub cleanup : Heap → ℕ → JobStorage → JobStorage
unfolding clean
cleanup heap now s = record s { job_map = (clean heap now s.max_age_done_jobs s.job_map).0 }

pub record JobStats : Type 0 where
  pub num_queued_jobs : ℕ
  pub num_failed_jobs : ℕ
  pub num_in_process_jobs : ℕ
  pub num_finished_jobs : ℕ

abbrev pub no_jobs : JobStats
no_jobs = record {
  num_queued_jobs = 0;
  num_failed_jobs = 0;
  num_in_process_jobs = 0;
  num_finished_jobs = 0;
}

-- The switch in the loop of `getStats`.
unfoldable pub count_status : Status → JobStats → JobStats
count_status failed c = record c { num_failed_jobs = c.num_failed_jobs + 1 }
count_status in_process c = record c { num_in_process_jobs = c.num_in_process_jobs + 1 }
count_status finished c = record c { num_finished_jobs = c.num_finished_jobs + 1 }
count_status queued c = record c { num_queued_jobs = c.num_queued_jobs + 1 }

unfoldable pub stats_loop : Heap → JobMap → JobStats → JobStats
unfolding count_status
stats_loop heap [] c = c
stats_loop heap ((k, p) ∷ m) c = stats_loop heap m (count_status (heap p).status c)

unfoldable pub get_stats : Heap → JobStorage → JobStats
unfolding stats_loop
get_stats heap s = stats_loop heap s.job_map no_jobs

-- `std::sort` by the comparison `j2->getTimeAdded() < j1->getTimeAdded()`.
unfoldable pub insert_newest : Heap → ℕ → List ℕ → List ℕ
insert_newest heap p [] = p ∷ []
insert_newest heap p (q ∷ ps) =
    if ltb (heap p).time_added (heap q).time_added then q ∷ insert_newest heap p ps else p ∷ q ∷ ps

unfoldable pub sort_newest : Heap → List ℕ → List ℕ
unfolding insert_newest
sort_newest heap [] = []
sort_newest heap (p ∷ ps) = insert_newest heap p (sort_newest heap ps)

unfoldable pub get_ordered_jobs : Heap → JobStorage → List ℕ
unfolding sort_newest
get_ordered_jobs heap s = sort_newest heap (map (λ e. e.1) s.job_map)
