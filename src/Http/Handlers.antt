-- ===== src/Http/Handlers.antt =====
-- The handlers of the API. The state of the program is the heap of the jobs, the storage, and the
-- configuration; a response is its status and the JSON value that it sends.
pub mod Stored
use batyr.Prelude.{
  ℕ, suc, ◌+◌, ◌≡◌, ◌≢◌, refl, Bool, true, false, not, List, [], ◌∷◌, ◌++◌, Option, none, some,
  Text, codes, cat, text_eq, length, if◌then◌else◌,
}
use batyr.Json.{
  Json, string, number, object, array, Members, no_members, member, Elements, no_elements, element,
  c_str,
}
use batyr.Job.{Job, JobType, new_job}
use batyr.Job.Request.{Result, ok, invalid_argument, from_string}
use batyr.Job.Document.{to_json_value}
use batyr.Config.{Layer, Configuration, find_layer}
use batyr.Storage.{Heap, update, JobStorage, get_job, push, get_stats, get_ordered_jobs}

pub record State : Type 0 where
  pub heap : Heap
  pub storage : Option JobStorage

pub record Response : Type 0 where
  pub status : ℕ
  pub content : Json

-- `Json::toValue`, which keeps the whole text.
abbrev text_json : Text → Json
text_json s = string s

-- `Error` of server/error.cpp.
abbrev error_json : Text → Json
error_json message = object (member (codes "message") (text_json message) no_members)

-- What a handler that submits a job has decided to send: a response, or status 200 and the job at an
-- address, which is written only after the push, when a worker may have changed the job.
pub data Answer : Type 0 where
  sends : Response → Answer
  shows : ℕ → Answer

-- `out << *job`: the response, with the jobs as they are when it is written.
unfoldable pub respond : Heap → Answer → Response
respond heap (sends r) = r
respond heap (shows p) = record { status = 200; content = to_json_value (heap p) }

abbrev answer : ℕ → Json → State → Answer × State
answer status content s = (sends (record { status = status; content = content }), s)

-- The job stands at address `p` and is pushed to the storage, if that still lives.
unfoldable pub store : ℕ → Job → Heap → Option JobStorage → Answer × State
store p job heap (some s) =
    (shows p, record { heap = update heap p job; storage = some (push (update heap p job) p s) })
store p job heap none =
    answer 500 (error_json (codes "Could not get a lock on jobstorage"))
      (record { heap = heap; storage = none })

find_layer_first : ℕ → Job → State → Option Layer → Answer × State
unfolding store
find_layer_first p job s (some l) = store p job s.heap s.storage
find_layer_first p job s none =
    answer 404
      (error_json (cat (codes "Layer \"" ∷ job.layer_name ∷ codes "\" does not exist" ∷ []))) s

parsed_first : Configuration → ℕ → State → Result Job → Answer × State
unfolding find_layer_first
parsed_first c p s (ok job) = find_layer_first p job s (find_layer job.layer_name c.layers)
parsed_first c p s (invalid_argument m) = answer 400 (error_json (c_str m)) s

-- `PullHandler::handleRequest` and `RemoveByAttributesHandler::handleRequest`, which differ in the
-- type of the job: the method and the body of the request, the text of the generated UUID, the time
-- and the address of the new job. `parse` is rapidjson's parser.
unfoldable pub submit :
    (Text → Option Json)
    → Configuration
    → JobType
    → Text
    → Text
    → Text
    → ℕ
    → ℕ
    → State
    → Answer × State
unfolding parsed_first
submit parse c type method body uuid now p s =
    if text_eq method (codes "POST")
    then parsed_first c p s (from_string parse body (new_job type uuid now))
    else answer 400 (error_json (codes "Only POST requests are supported")) s

found_job : Text → Heap → Option ℕ → Response
found_job id heap (some p) = record { status = 200; content = to_json_value (heap p) }
found_job id heap none = record {
  status = 404;
  content = error_json (cat (codes "No job with the id " ∷ id ∷ codes " exists." ∷ []));
}

listed_job : Text → Heap → Option JobStorage → Option ℕ
listed_job id heap none = none
listed_job id heap (some s) = get_job id s

-- `GetJobHandler::handleRequest`.
unfoldable pub get_job_response : Text → State → Response
unfolding found_job listed_job
get_job_response id s = found_job id s.heap (listed_job id s.heap s.storage)

job_elements : Heap → List ℕ → Elements
job_elements heap [] = no_elements
job_elements heap (p ∷ ps) = element (to_json_value (heap p)) (job_elements heap ps)

listed_jobs : Heap → Option JobStorage → List ℕ
unfolding get_ordered_jobs
listed_jobs heap none = []
listed_jobs heap (some s) = get_ordered_jobs heap s

-- `JobListHandler::handleRequest`.
unfoldable pub job_list_response : Configuration → State → Response
unfolding listed_jobs job_elements
job_list_response c s = record {
  status = 200;
  content = object (
      member (codes "maxAgeDoneJobsSeconds") (number c.max_age_done_jobs) (
        member (codes "jobs") (array (job_elements s.heap (listed_jobs s.heap s.storage)))
          no_members));
}

layer_elements : List (Text × Layer) → Elements
layer_elements [] = no_elements
layer_elements ((k, l) ∷ rest) =
    element
      (object (
        member (codes "name") (text_json l.name)
          (member (codes "description") (text_json l.description) no_members)))
      (layer_elements rest)

-- `LayerListHandler::handleRequest`. The map of the layers stands in the order of their names, which
-- is the order of `getOrderedLayers`.
unfoldable pub layer_list_response : Configuration → Response
unfolding layer_elements
layer_list_response c = record {
  status = 200;
  content = object (member (codes "layers") (array (layer_elements c.layers)) no_members);
}

count_members : Option JobStorage → Heap → Members → Members
unfolding get_stats
count_members (some s) heap rest =
    let stats = get_stats heap s in
    member (codes "numQueuedJobs") (number stats.num_queued_jobs) (
      member (codes "numFailedJobs") (number stats.num_failed_jobs) (
        member (codes "numInProcessJobs") (number stats.num_in_process_jobs)
          (member (codes "numFinishedJobs") (number stats.num_finished_jobs) rest)))
count_members none heap rest = member (codes "numQueuedJobs") (string (codes "?")) (
    member (codes "numFailedJobs") (string (codes "?")) (
      member (codes "numInProcessJobs") (string (codes "?"))
        (member (codes "numFinishedJobs") (string (codes "?")) rest)))

-- The texts that the build sets: the name and the versions of the program.
pub record BuildInfo : Type 0 where
  pub app_name : Text
  pub version : Text
  pub git_version : Text

-- `StatusHandler::handleRequest`.
unfoldable pub status_response : BuildInfo → Configuration → State → Response
unfolding count_members
status_response b c s = record {
  status = 200;
  content = object (
      member (codes "appName") (string b.app_name) (
        member (codes "appVersion") (string b.version) (
          member (codes "appGitVersion") (string b.git_version) (
            member (codes "numLayers") (number (length c.layers)) (
              count_members s.storage s.heap
                (member (codes "numWorkers") (number c.num_worker_threads) no_members))))));
}
