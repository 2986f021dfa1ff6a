-- ===== src/Storage/Stats.antt =====
-- The statistics count the jobs of the map by their status.
use batyr.Prelude.{ℕ, ◌+◌, ◌≡◌, ◌∙◌, Bool, true, false, [], ◌∷◌, length, if◌then◌else◌, arith}
use batyr.Job.{Status, queued, in_process, finished, failed}
use batyr.Storage.{Heap, JobMap, JobStorage, JobStats, no_jobs, count_status, stats_loop, get_stats}

abbrev pub status_eq : Status → Status → Bool
status_eq queued queued = true
status_eq in_process in_process = true
status_eq finished finished = true
status_eq failed failed = true
status_eq _ _ = false

-- The number of entries whose job has the status.
unfoldable pub count_jobs : Heap → Status → JobMap → ℕ
count_jobs heap st [] = 0
count_jobs heap st ((k, p) ∷ m) =
    (if status_eq (heap p).status st then 1 else 0) + count_jobs heap st m

-- The counter of a status.
abbrev pub counter : Status → JobStats → ℕ
counter queued c = c.num_queued_jobs
counter in_process c = c.num_in_process_jobs
counter finished c = c.num_finished_jobs
counter failed c = c.num_failed_jobs

counter-count_status :
    (s t : Status) (c : JobStats)
    → counter t (count_status s c) ≡ (if status_eq s t then 1 else 0) + counter t c
unfolding count_status
counter-count_status queued queued c = omega arith
counter-count_status queued _ c = omega arith
counter-count_status in_process queued c = omega arith
counter-count_status in_process _ c = omega arith
counter-count_status finished queued c = omega arith
counter-count_status finished _ c = omega arith
counter-count_status failed queued c = omega arith
counter-count_status failed _ c = omega arith

counter-stats_loop :
    (heap : Heap) (st : Status) (m : JobMap) (c : JobStats)
    → counter st (stats_loop heap m c) ≡ count_jobs heap st m + counter st c
unfolding stats_loop count_jobs
counter-stats_loop heap st [] c = omega arith
counter-stats_loop heap st ((k, p) ∷ m) c = omega (
  arith,
  counter-stats_loop heap st m (count_status (heap p).status c),
  counter-count_status (heap p).status st c,
)

total : JobStats → ℕ
total c = c.num_queued_jobs + c.num_failed_jobs + c.num_in_process_jobs + c.num_finished_jobs

total-count_status : (s : Status) (c : JobStats) → total (count_status s c) ≡ total c + 1
unfolding total count_status
total-count_status queued c = omega arith
total-count_status _ c = omega arith

total-stats_loop :
    (heap : Heap) (m : JobMap) (c : JobStats) → total (stats_loop heap m c) ≡ length m + total c
unfolding stats_loop
total-stats_loop heap [] c = omega arith
total-stats_loop heap ((k, p) ∷ m) c = omega (
  arith,
  total-stats_loop heap m (count_status (heap p).status c),
  total-count_status (heap p).status c,
)

none_before : (st : Status) (n : ℕ) → n + counter st no_jobs ≡ n
none_before queued n = omega arith
none_before in_process n = omega arith
none_before finished n = omega arith
none_before failed n = omega arith

-- Each counter of `getStats` is the number of stored jobs with its status, and together they
-- count every stored job once.
pub get_stats_counts :
    (heap : Heap) (s : JobStorage) (st : Status)
    → (counter st (get_stats heap s) ≡ count_jobs heap st s.job_map)
      × ((get_stats heap s).num_queued_jobs
            + (get_stats heap s).num_failed_jobs
            + (get_stats heap s).num_in_process_jobs
            + (get_stats heap s).num_finished_jobs
          ≡ length s.job_map)
unfolding get_stats total
get_stats_counts heap s st = (
  counter-stats_loop heap st s.job_map no_jobs ∙ none_before st (count_jobs heap st s.job_map),
  total-stats_loop heap s.job_map no_jobs ∙ omega arith,
)
