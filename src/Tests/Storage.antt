-- ===== src/Tests/Storage.antt =====
-- The properties of server/jobstorage.cpp at a storage of two jobs.
use mathlib.Core.List.{Perm}
use batyr.Prelude.{
  ◌≡◌, ◌↔◌, refl, ◌+◌, [], ◌∷◌, some, codes, text_eq, map, length, ◌==◌, if◌then◌else◌,
}
use batyr.Job.{pull, new_job, finished}
use batyr.Queue.{empty_queue}
use batyr.Storage.{Heap, JobStorage, get_job, cleanup, get_ordered_jobs, get_stats, find}
use batyr.Storage.Cleanup.{IsOutdated, get_job-cleanup}
use batyr.Storage.Stats.{counter, count_jobs, get_stats_counts}
use batyr.Storage.Ordered.{IsNewestFirst, get_ordered_jobs_lem}

-- The job at address 0 is finished, all others wait.
abbrev heap : Heap
heap p =
    if p == 0
    then record (new_job pull (codes "a-1") 3) { status = finished; time_finished = 10 }
    else new_job pull (codes "b-2") 5

abbrev storage : JobStorage
storage = record {
  job_map = (codes "a1", 0) ∷ (codes "b2", 1) ∷ [];
  queue = empty_queue;
  max_age_done_jobs = 100;
}

get_job-cleanup_example : (get_job (codes "b2") (cleanup heap 500 storage) ≡ some 1) ↔ (
    (get_job (codes "b2") storage ≡ some 1) × ¬ IsOutdated 500 storage.max_age_done_jobs (heap 1))
unfolding find text_eq
get_job-cleanup_example = get_job-cleanup heap 500 (codes "b2") 1 storage (refl, (refl, tt))

get_stats_counts_example :
    (counter finished (get_stats heap storage) ≡ count_jobs heap finished storage.job_map)
    × ((get_stats heap storage).num_queued_jobs
          + (get_stats heap storage).num_failed_jobs
          + (get_stats heap storage).num_in_process_jobs
          + (get_stats heap storage).num_finished_jobs
        ≡ length storage.job_map)
get_stats_counts_example = get_stats_counts heap storage finished

get_ordered_jobs_lem_example :
    Perm (get_ordered_jobs heap storage) (map (λ e. e.1) storage.job_map)
    × IsNewestFirst heap (get_ordered_jobs heap storage)
get_ordered_jobs_lem_example = get_ordered_jobs_lem heap storage
