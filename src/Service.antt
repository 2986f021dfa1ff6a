-- ===== src/Service.antt =====
-- The running server: the handlers that submit jobs, the threads of server/worker.cpp and the
-- cleanup thread, which share the storage and the jobs. Each action is what one thread does between
-- two points at which another may come in between.
pub mod Count
pub mod Sound
pub mod Moves
pub mod Reached
pub mod Liveness
pub mod Crew
pub mod Drain
pub mod Stop
pub mod Waiting
pub mod Forward
pub mod Findable
pub mod Answered
use batyr.Prelude.{
  ℕ, zero, suc, ◌+◌, Bool, true, false, List, [], ◌∷◌, Option, none, some, Text, codes, get_elem?,
  ◌==◌, if◌then◌else◌,
}
use batyr.Json.{Json}
use batyr.Http.Handlers.{State, Answer, sends, shows, submit}
use batyr.Config.{Layer, Configuration}
use batyr.Job.{Job, JobType, in_process, is_done, set_status, set_message}
use batyr.Db.{Postgres}
use batyr.Queue.{sleeps, takes}
use batyr.Queue
use batyr.Storage.{Heap, update, JobStorage, new_storage, pop_no_wait, pop_wait, cleanup, quit}
use batyr.Worker.{OgrFieldType, Dataset}
use batyr.Db.Connection.{Reconnection, connected, not_connected, failed}
use batyr.Worker.Loop.{Leaving, continues, rethrows, terminates, Round, after_exception, perform}

-- Where a worker stands in `Worker::run`: before `popNoWait`, in `popWait`, with a job that it has
-- just got, in the loop that waits for a connection (with `reconnectAttempts`), before the `switch`,
-- between `setStatus` at the end of a job and what it sets then, behind the outer loop, thrown out of
-- it by an exception, and in the middle of a job as the program ends. An exception that leaves `run`
-- ends the program too: what the other workers may do after that is more than what they do.
pub data Phase : Type 0 where
  polling waiting left thrown : Phase
  holding working killed : ℕ → Phase
  connecting : ℕ → ℕ → Phase
  closing : ℕ → Round → Phase

-- The addresses from `next` on are free.
pub record Service : Type 0 where
  pub heap : Heap
  pub storage : JobStorage
  pub next : ℕ
  pub workers : List Phase

-- `Broker::run` starts the workers.
unfoldable pub started_workers : ℕ → List Phase
started_workers zero = []
started_workers (suc n) = polling ∷ started_workers n

unfoldable pub set_at : ℕ → Phase → List Phase → List Phase
set_at i ph [] = []
set_at zero ph (w ∷ ws) = ph ∷ ws
set_at (suc i) ph (w ∷ ws) = w ∷ set_at i ph ws

abbrev pub move_to : ℕ → Phase → Service → Service
move_to i ph s = record s { workers = set_at i ph s.workers }

abbrev pub change_job : ℕ → Job → Service → Service
change_job p job s = record s { heap = update s.heap p job }

abbrev or_else : JobStorage → Option JobStorage → JobStorage
or_else d none = d
or_else d (some s) = s

abbrev next_address : ℕ → Answer → ℕ
next_address n (sends r) = n
next_address n (shows p) = suc n

-- A handler has decided on its answer; the address is in use where it took the job.
unfoldable pub answered : Service → Answer × State → Service
answered s (a, after) = record s {
  heap = after.heap;
  storage = or_else s.storage after.storage;
  next = next_address s.next a;
}

-- `popNoWait`; a worker that gets none goes on to `popWait`.
unfoldable pub after_poll : ℕ → Service → Option ℕ × JobStorage → Service
after_poll i s (none, storage) = move_to i waiting (record s { storage = storage })
after_poll i s (some p, storage) = move_to i (holding p) (record s { storage = storage })

-- A round of `popWait`, whenever it comes; when a sleeping call is woken is told in Queue. A call
-- that would sleep does nothing; a call that ends without a job ends the
-- worker.
unfoldable pub after_wait : ℕ → Service → Queue.Round ℕ → Option Service
after_wait i s Queue.Round.quits = some (move_to i left s)
after_wait i s sleeps = none
after_wait i s (takes p q) =
    some (move_to i (holding p) (record s { storage = record s.storage { queue = q } }))

abbrev pub waiting_message : Text
waiting_message = codes "Waiting to aquire a database connection"

-- The job was carried out: its status is set, FINISHED or FAILED. A job with another status is one
-- in whose middle the program ends.
unfoldable pub after_round : ℕ → ℕ → ℕ → Service → Round → Service
after_round i p now s r =
    if is_done r.job
    then change_job p (set_status r.job.status now (s.heap p)) (move_to i (closing p r) s)
    else change_job p r.job (move_to i (killed p) s)

-- What `setStatistics` and `setMessage` write behind `setStatus`.
abbrev pub completed : Job → Job → Job
completed done job = record job { message = done.message; statistics = done.statistics }

abbrev pub next_phase : Leaving → Phase
next_phase continues = polling
next_phase rethrows = thrown
next_phase terminates = thrown

unfoldable pub close_job : ℕ → ℕ → Round → Service → Service
close_job i p r s = change_job p (completed r.job (s.heap p)) (move_to i (next_phase r.leaving) s)

-- A round of the loop that waits for a connection, with what `reconnect` came to and the time.
unfoldable pub try_connection : ℕ → ℕ → ℕ → ℕ → Reconnection → Service → Service
unfolding after_round after_exception
try_connection i p n now connected s =
    change_job p (set_message [] (s.heap p)) (move_to i (working p) s)
try_connection i p n now not_connected s =
    let t = move_to i (connecting p (n + 1)) s in
    if n == 0 then change_job p (set_message waiting_message (s.heap p)) t else t
try_connection i p n now (failed e) s =
    after_round i p now s (after_exception now (s.heap p) (some e))

module _ (pg : Postgres) (tn : OgrFieldType → ℕ) (parser : Text → Option Json)
    (c : Configuration) where
  -- What a worker meets outside of the program: the time, what `reconnect` comes to, the state of
  -- the database and the sources of the layers.
  pub record World : Type 0 where
    pub now : ℕ
    pub reconnection : Reconnection
    pub database : pg.State
    pub dataset : Layer → Option Dataset

  -- The next action of worker `i`, by where it stands; `none` where it can do nothing.
  unfoldable pub advance : World → ℕ → Service → Phase → Option Service
  unfolding after_poll after_wait try_connection after_round close_job
  advance w i s polling = some (after_poll i s (pop_no_wait s.storage))
  advance w i s waiting = after_wait i s (pop_wait s.storage)
  advance w i s (holding p) =
      some (change_job p (set_status in_process w.now (s.heap p)) (move_to i (connecting p 0) s))
  advance w i s (connecting p n) = some (try_connection i p n w.now w.reconnection s)
  advance w i s (working p) =
      some (after_round i p w.now s (perform pg tn w.now c w.dataset (s.heap p) w.database))
  advance w i s left = none
  advance w i s thrown = none
  advance w i s (killed p) = none
  advance w i s (closing p r) = some (close_job i p r s)

  unfoldable pub move_phase : World → ℕ → Service → Option Phase → Option Service
  unfolding advance
  move_phase w i s none = none
  move_phase w i s (some ph) = advance w i s ph

  unfoldable pub move : World → ℕ → Service → Option Service
  unfolding move_phase
  move w i s = move_phase w i s (get_elem? s.workers i)

  -- `handles` is a request that submits a job: its type, its method and body, the generated UUID and
  -- the time.
  pub data Action : Type 0 where
    handles : JobType → Text → Text → Text → ℕ → Action
    moves : World → ℕ → Action
    cleans : ℕ → Action
    quits : Action

  unfoldable pub step : Service → Action → Option Service
  unfolding answered move
  step s (handles type method body uuid now) =
      let request : State = record { heap = s.heap; storage = some s.storage } in
      some (answered s (submit parser c type method body uuid now s.next request))
  step s (moves w i) = move w i s
  step s (cleans now) = some (record s { storage = cleanup s.heap now s.storage })
  step s quits = some (record s { storage = quit s.storage })

  unfoldable pub run : Service → List Action → Option Service
  run s [] = some s
  run s (a ∷ rest) = elim (step s a) [ none ↦ none | some t ↦ run t rest ]

-- The server at its start.
unfoldable pub new_service : Heap → Configuration → Service
unfolding started_workers
new_service heap c = record {
  heap = heap;
  storage = new_storage c.max_age_done_jobs;
  next = 0;
  workers = started_workers c.num_worker_threads;
}
