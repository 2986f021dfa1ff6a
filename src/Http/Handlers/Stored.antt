-- ===== src/Http/Handlers/Stored.antt =====
-- What a request that submits a job does to the jobs and the storage.
use batyr.Prelude.{
  ℕ, ◌≡◌, ◌≢◌, refl, inl, inr, Option, none, some, Text, codes, text_eq, Bool-cases, arith,
}
use batyr.Json.{Json}
use batyr.Job.{Job, JobType, queued, new_job, remove_dashes}
use batyr.Job.Request.{Result, ok, invalid_argument}
use batyr.Job.Kept.{Keeps, from_string-Keeps}
use batyr.Config.{Layer, Configuration}
use batyr.Storage.{Heap, update, JobStorage, push, get_job}
use batyr.Http.Handlers.{
  State, Response, Answer, sends, shows, respond, found_job, listed_job, get_job_response, store,
  find_layer_first, parsed_first, submit,
}

-- A queued job of that id was put at the address and pushed, or nothing changed.
pub data IsStored (id : Text) (p : ℕ) (heap : Heap) (st : JobStorage) (x : Answer × State)
    : Type 0 where
  stored :
      (job : Job)
      → job.id ≡ id
      → job.status ≡ queued
      → x.0 ≡ shows p
      → x.1 ≡ record { heap = update heap p job; storage = some (push (update heap p job) p st) }
      → IsStored id p heap st x
  refused :
      (r : Response)
      → x.0 ≡ sends r
      → r.status ≢ 200
      → x.1 ≡ record { heap = heap; storage = some st }
      → IsStored id p heap st x

module _ (c : Configuration) (id : Text) (p : ℕ) (heap : Heap) (st : JobStorage) where
  abbrev before : State
  before = record { heap = heap; storage = some st }

  found-IsStored :
      (job : Job) (l : Option Layer)
      → job.id ≡ id
      → job.status ≡ queued
      → IsStored id p heap st (find_layer_first p job before l)
  unfolding find_layer_first store
  found-IsStored job (some l) i q = stored job i q refl refl
  found-IsStored job none i q = refused _ refl (λ e. omega arith) refl

  parsed-IsStored :
      (j : Job) (r : Result Job)
      → j.id ≡ id
      → j.status ≡ queued
      → Keeps j r
      → IsStored id p heap st (parsed_first c p before r)
  unfolding parsed_first
  parsed-IsStored j (ok job) i q k = found-IsStored job _ (cc (k.0, i)) (cc (k.1, q))
  parsed-IsStored j (invalid_argument m) i q k = refused _ refl (λ e. omega arith) refl

pub submit-IsStored :
    (parse : Text → Option Json) (c : Configuration) (type : JobType) (method body uuid : Text)
    (now p : ℕ) (heap : Heap) (st : JobStorage)
    → IsStored
        (remove_dashes uuid)
        p
        heap
        st
        (submit parse c type method body uuid now p (record { heap = heap; storage = some st }))
unfolding submit new_job
submit-IsStored parse c type method body uuid now p heap st =
    elim (Bool-cases (text_eq method (codes "POST"))) [
      | inl e ↦ rw e (
          parsed-IsStored c (remove_dashes uuid) p heap st (new_job type uuid now) _ refl refl
            (from_string-Keeps parse body (new_job type uuid now)))
      | inr e ↦ rw e (refused _ refl (λ x. omega arith) refl)
    ]

-- A request for a job that is found shows it as it is.
pub get_job_response_lem :
    (id : Text) (p : ℕ) (heap : Heap) (st : JobStorage)
    → get_job id st ≡ some p
    → get_job_response id (record { heap = heap; storage = some st }) ≡ respond heap (shows p)
unfolding get_job_response listed_job found_job respond
get_job_response_lem id p heap st found = rw found refl
