-- ===== src/Tests/Service.antt =====
-- The running server with one worker and one job.
use batyr.Prelude.{
  ℕ, zero, suc, ◌⊎◌, ◌≡◌, ◌<◌, refl, [], ◌∷◌, List, All, Option, none, some, true, false, Text,
  codes, length, arith,
}
use batyr.Json.{Json, object, member, string, no_members}
use batyr.Config.{Layer, new_layer, Configuration, information}
use batyr.Job.{Job, pull, new_job}
use batyr.Storage.{Heap, get_job}
use batyr.Tests.Db.{database}
use batyr.Worker.{OgrFieldType}
use batyr.Db.Connection.{connected, not_connected}
use batyr.Service.Count.{total}
use batyr.Service.{
  move, Service, World, Action, handles, moves, cleans, quits, step, run, new_service,
}
use batyr.Service.Reached.{Reached, at_start, after_step}
use batyr.Service.Drain.{AllDone, Reached-AllDone, IsDrained, Reached-IsDrained}
use batyr.Service.Findable.{Expires, Reached-found}
use batyr.Service.Waiting.{IsWaiting, run-IsWaiting}
use batyr.Http.Handlers.{submit}
use batyr.Service.Answered.{view, Later, at_once, after_action, IsAnswered, Reached-IsAnswered}
use batyr.Service.Stop.{IsJoined, stop-IsJoined}

abbrev type_number : OgrFieldType → ℕ
type_number t = 0

abbrev configuration : Configuration
configuration = record {
  layers = (codes "l", new_layer (codes "l")) ∷ [];
  http_port = 8090;
  num_worker_threads = 1;
  max_age_done_jobs = 3600;
  db_connection_string = [];
  loglevel = information;
  logfile = [];
  use_persistent_connections = true;
  access_control_allow_origin = [];
}

-- A parser that reads the one document of the test.
abbrev parse : Text → Option Json
parse s = some (object (member (codes "layerName") (string (codes "l")) no_members))

abbrev heap : Heap
heap p = new_job pull [] 0

abbrev world : World database type_number parse configuration
world = record { now = 7; reconnection = connected; database = 0; dataset = λ l. none }

abbrev from_some : Service → Option Service → Service
from_some s none = s
from_some s (some t) = t

abbrev request : Action database type_number parse configuration
request = handles pull (codes "POST") (codes "{}") (codes "a-1") 5

-- The job waits in the queue.
abbrev waits : Service
waits =
    from_some (new_service heap configuration)
      (step database type_number parse configuration (new_service heap configuration) request)

-- The worker has taken it.
abbrev taken : Service
taken = from_some waits (step database type_number parse configuration waits (moves world 0))

reached : Reached database type_number parse configuration heap taken
unfolding step new_service batyr.Storage.get_job batyr.Storage.find
reached =
    after_step waits taken (moves world 0)
      (after_step (new_service heap configuration) waits request at_start refl refl) tt refl

Reached-IsDrained_example : IsDrained database type_number parse configuration (λ n. world) 0 taken
unfolding step new_service batyr.Storage.pop_no_wait batyr.Queue.pop_no_wait
    batyr.Http.Handlers.submit batyr.Prelude.text_eq batyr.Job.Request.from_string
    batyr.Json.find_member batyr.Config.find_layer batyr.Json.c_str batyr.Storage.push
    batyr.Storage.add_job batyr.Service.set_at
Reached-IsDrained_example =
    Reached-IsDrained database type_number parse configuration (λ n. world) heap taken (λ k. refl)
      (omega arith) reached refl

-- The worker has set the status of the job, and has a connection.
abbrev started : Service
started = from_some taken (step database type_number parse configuration taken (moves world 0))

abbrev connected_ : Service
connected_ =
    from_some started (step database type_number parse configuration started (moves world 0))

-- The queue has been told to quit.
abbrev stopping : Service
stopping = from_some taken (step database type_number parse configuration taken quits)

stop-IsJoined_example : IsJoined database type_number parse configuration (λ n. world) 0 stopping
unfolding step batyr.Storage.quit
stop-IsJoined_example =
    stop-IsJoined database type_number parse configuration (λ n. world) stopping (λ k. refl) refl

-- The database cannot be reached.
abbrev away : World database type_number parse configuration
away = record world { reconnection = not_connected }

abbrev without_database : List (Action database type_number parse configuration)
without_database = moves away 0 ∷ quits ∷ moves away 0 ∷ []

abbrev stuck : Service
stuck = from_some started (run database type_number parse configuration started without_database)

still_waits : IsWaiting 0 0 started
unfolding step new_service batyr.Storage.pop_no_wait batyr.Queue.pop_no_wait
    batyr.Http.Handlers.submit batyr.Prelude.text_eq batyr.Job.Request.from_string
    batyr.Json.find_member batyr.Config.find_layer batyr.Json.c_str batyr.Storage.push
    batyr.Storage.add_job batyr.Service.set_at IsWaiting
still_waits = (0, refl)

comes : run database type_number parse configuration started without_database ≡ some stuck
unfolding step new_service batyr.Storage.pop_no_wait batyr.Queue.pop_no_wait
    batyr.Http.Handlers.submit batyr.Prelude.text_eq batyr.Job.Request.from_string
    batyr.Json.find_member batyr.Config.find_layer batyr.Json.c_str batyr.Storage.push
    batyr.Storage.add_job batyr.Service.set_at run batyr.Storage.quit
comes = refl

run-IsWaiting_example : IsWaiting 0 0 stuck
run-IsWaiting_example =
    run-IsWaiting database type_number parse configuration 0 0 without_database started stuck
      ((λ e. refl), (tt, ((λ e. refl), tt))) still_waits comes

Reached-found_example :
    (get_job (codes "a1") started.storage ≡ some 0)
    ⊎ Expires database type_number parse configuration (moves world 0) taken 0
unfolding step new_service batyr.Storage.pop_no_wait batyr.Queue.pop_no_wait
    batyr.Http.Handlers.submit batyr.Prelude.text_eq batyr.Job.Request.from_string
    batyr.Json.find_member batyr.Config.find_layer batyr.Json.c_str batyr.Storage.push
    batyr.Storage.add_job batyr.Service.set_at get_job batyr.Storage.put batyr.Storage.find
    batyr.Job.remove_dashes batyr.Job.new_job batyr.Storage.update
Reached-found_example =
    Reached-found database type_number parse configuration heap taken started (moves world 0)
      (codes "a1") 0 reached tt refl refl

abbrev go : Service → Service
go s = from_some s (step database type_number parse configuration s (moves world 0))

-- The status of the job is FAILED, as its source cannot be opened.
abbrev unopened : Service
unopened = go connected_

-- Its message is written.
abbrev written : Service
written = go unopened

-- The worker waits for another one.
abbrev over : Service
over = go written

reached_over : Reached database type_number parse configuration heap over
unfolding step new_service batyr.Storage.pop_no_wait batyr.Queue.pop_no_wait
    batyr.Http.Handlers.submit batyr.Prelude.text_eq batyr.Job.Request.from_string
    batyr.Json.find_member batyr.Config.find_layer batyr.Json.c_str batyr.Storage.push
    batyr.Storage.add_job batyr.Service.set_at batyr.Worker.Loop.perform batyr.Storage.update
    batyr.Job.set_message batyr.Job.set_status new_job batyr.Storage.pop_wait batyr.Queue.pop_round
reached_over =
    after_step written over (moves world 0)
      (after_step unopened written (moves world 0)
        (after_step connected_ unopened (moves world 0)
          (after_step started connected_ (moves world 0)
            (after_step taken started (moves world 0) reached tt refl) tt refl)
          tt refl)
        tt refl)
      tt refl

waits_idle : (i : ℕ) → move database type_number parse configuration world i over ≡ none
unfolding step new_service batyr.Storage.pop_no_wait batyr.Queue.pop_no_wait
    batyr.Http.Handlers.submit batyr.Prelude.text_eq batyr.Job.Request.from_string
    batyr.Json.find_member batyr.Config.find_layer batyr.Json.c_str batyr.Storage.push
    batyr.Storage.add_job batyr.Service.set_at batyr.Worker.Loop.perform batyr.Storage.update
    batyr.Job.set_message batyr.Job.set_status new_job batyr.Storage.pop_wait batyr.Queue.pop_round
    move
waits_idle zero = refl
waits_idle (suc i) = refl

Reached-AllDone_example : AllDone over
unfolding step new_service batyr.Storage.pop_no_wait batyr.Queue.pop_no_wait
    batyr.Http.Handlers.submit batyr.Prelude.text_eq batyr.Job.Request.from_string
    batyr.Json.find_member batyr.Config.find_layer batyr.Json.c_str batyr.Storage.push
    batyr.Storage.add_job batyr.Service.set_at batyr.Worker.Loop.perform batyr.Storage.update
    batyr.Job.set_message batyr.Job.set_status new_job batyr.Storage.pop_wait batyr.Queue.pop_round
    total
Reached-AllDone_example =
    Reached-AllDone database type_number parse configuration world heap over (omega arith)
      reached_over refl refl waits_idle

-- The worker changes the status of the job before the response is written.
goes_there : Later database type_number parse configuration 0 waits started
unfolding step new_service batyr.Storage.pop_no_wait batyr.Queue.pop_no_wait
    batyr.Http.Handlers.submit batyr.Prelude.text_eq batyr.Job.Request.from_string
    batyr.Json.find_member batyr.Config.find_layer batyr.Json.c_str batyr.Storage.push
    batyr.Storage.add_job batyr.Service.set_at
goes_there =
    after_action taken started (moves world 0)
      (after_action waits taken (moves world 0) at_once tt (λ e. e) refl) tt (λ e. e) refl

abbrev at_first : Service
at_first = new_service heap configuration

Reached-IsAnswered_example :
    IsAnswered database type_number parse configuration
      (codes "a1")
      (submit parse configuration pull
        (codes "POST")
        (codes "{}")
        (codes "a-1")
        5
        at_first.next
        (view at_first)).0
      at_first
      waits
      started
unfolding step new_service batyr.Storage.get_job batyr.Storage.find batyr.Job.remove_dashes
Reached-IsAnswered_example =
    Reached-IsAnswered database type_number parse configuration heap at_first waits started pull
      (codes "POST") (codes "{}") (codes "a-1") 5 at_start refl refl goes_there
