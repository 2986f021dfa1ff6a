-- ===== src/Service/Answered.antt =====
-- What a client that submits a job is told, whatever happens before the response is written.
use batyr.Prelude.{
  ℕ, ◌≡◌, ◌≢◌, refl, sym, ap, ◌∙◌, ◌⊎◌, Option, none, some, Text, text_eq_refl, inl, inr, arith,
}
use batyr.Json.{Json}
use batyr.Job.{Job, JobType, remove_dashes}
use batyr.Config.{Configuration}
use batyr.Db.{Postgres}
use batyr.Worker.{OgrFieldType}
use batyr.Storage.{Heap, update, add_job, push, get_job}
use batyr.Storage.Map.{find-put}
use batyr.Http.Handlers.{State, Response, Answer, sends, shows, respond, submit, get_job_response}
use batyr.Http.Handlers.Stored.{IsStored, stored, refused, submit-IsStored, get_job_response_lem}
use batyr.Service.{Service, answered, Action, handles, step}
use batyr.Service.Sound.{IsSound}
use batyr.Service.Waiting.{some_lem}
use batyr.Service.Reached.{
  Reached, after_step, Reached-IsSound, IsFresh, answered-stored, answered-refused,
}
use batyr.Service.Findable.{Expires, Reached-found}

-- What a handler sees of the server.
abbrev pub view : Service → State
view s = record { heap = s.heap; storage = some s.storage }

-- A job that was stored is found.
stored-found :
    (s : Service) (p : ℕ) (id : Text) (heap : Heap)
    → (heap p).id ≡ id
    → get_job id (push heap p s.storage) ≡ some p
unfolding get_job push add_job
stored-found s p id heap same =
    rw (find-put id (heap p).id p s.storage.job_map, same, text_eq_refl id) refl

update-same : (heap : Heap) (p : ℕ) (j : Job) → update heap p j p ≡ j
unfolding update
update-same heap p j = ground arith

module _ (pg : Postgres) (tn : OgrFieldType → ℕ) (parser : Text → Option Json)
    (c : Configuration) where
  -- The states to which the server goes on from a state, in any order of the actions of its threads,
  -- as long as no cleanup comes at whose time the job at `p` has expired.
  pub data Later (p : ℕ) (s : Service) : Service → Type 0 where
    at_once : Later p s s
    after_action :
        (t u : Service) (a : Action pg tn parser c)
        → Later p s t
        → IsFresh pg tn parser c t a
        → ¬ Expires pg tn parser c a t p
        → step pg tn parser c t a ≡ some u
        → Later p s u

  later-Reached :
      (heap : Heap) (p : ℕ) (s t : Service)
      → Reached pg tn parser c heap s
      → Later p s t
      → Reached pg tn parser c heap t
  later-Reached heap p s t reached at_once = reached
  later-Reached heap p s t reached (after_action r u a before fresh keeps e) =
      after_step r t a (later-Reached heap p s r reached before) fresh e

  stays_found :
      (heap : Heap) (i : Text) (p : ℕ) (s t : Service)
      → Reached pg tn parser c heap s
      → get_job i s.storage ≡ some p
      → Later p s t
      → get_job i t.storage ≡ some p
  stays_found heap i p s t reached found at_once = found
  stays_found heap i p s t reached found (after_action r u a before fresh keeps e) =
      elim (Reached-found pg tn parser c heap r t a i p (later-Reached heap p s r reached before)
        fresh e (stays_found heap i p s r reached found before)) [
          | inl there ↦ there
          | inr gone ↦ absurd (keeps gone)
        ]

  -- The answer shows the job, and the response that is written in the state `u` is what a request for
  -- the job gets in that state; or it is an error, and the state `t` after it is the one before.
  pub IsAnswered : Text → Answer → Service → Service → Service → Type 0
  IsAnswered id a s t u =
      ((a ≡ shows s.next) × (get_job_response id (view u) ≡ respond u.heap a))
      ⊎ ((r : Response) × (a ≡ sends r) × (r.status ≢ 200) × (t ≡ s))

  answered-IsAnswered :
      (heap : Heap) (id : Text) (a : Answer) (after : State) (s t u : Service)
      → IsSound s
      → answered s (a, after) ≡ t
      → Reached pg tn parser c heap t
      → IsStored id s.next s.heap s.storage (a, after)
      → Later s.next t u
      → IsAnswered id a s t u
  unfolding IsAnswered
  answered-IsAnswered heap id a after s t u ok went reached (refused r sent status e) later =
      inr (r, sent, status, sym went ∙ answered-refused s ok a r after sent e)
  answered-IsAnswered heap id a after s t u ok went reached (stored job same waits shown e) later =
      let here =
        stored-found s s.next id (update s.heap s.next job)
          (ap (λ (j : Job). j.id) (update-same s.heap s.next job) ∙ same) in
      let pushed =
        ap (λ (v : Service). get_job id v.storage)
          (sym went ∙ answered-stored s ok job a after shown e) in
      let found = stays_found heap id s.next t u reached (pushed ∙ here) later in
      inl (shown, rw shown (get_job_response_lem id s.next u.heap u.storage found))

  -- A request that submits a job with a new id, in a state that the server can reach: either it is
  -- answered with an error and has changed nothing, or it is answered with the job, in such a way that
  -- whatever the threads do between the push and the writing of the response, a request for the job by
  -- its id at the time of the writing gets the same response, unless the job has expired before.
  pub Reached-IsAnswered :
      (heap : Heap) (s t u : Service) (type : JobType) (method body uuid : Text) (now : ℕ)
      → Reached pg tn parser c heap s
      → get_job (remove_dashes uuid) s.storage ≡ none
      → step pg tn parser c s (handles type method body uuid now) ≡ some t
      → Later s.next t u
      → IsAnswered
          (remove_dashes uuid)
          (submit parser c type method body uuid now s.next (view s)).0
          s
          t
          u
  unfolding step
  Reached-IsAnswered heap s t u type method body uuid now reached fresh went later =
      answered-IsAnswered heap (remove_dashes uuid) _ _ s t u
        (Reached-IsSound pg tn parser c heap s reached) (some_lem _ t went)
        (after_step s t (handles type method body uuid now) reached fresh went)
        (submit-IsStored parser c type method body uuid now s.next s.heap s.storage) later
