-- ===== src/Worker/Loop/Settled.antt =====
-- A round of a worker leaves its job done, unless it ends the program.
use batyr.Prelude.{
  ℕ, ◌≡◌, ◌≢◌, refl, inl, inr, ◌⊎◌, Bool, true, false, Option, none, some, Bool-cases,
}
use batyr.Config.{Layer, Configuration, get_layer}
use batyr.Job.{
  Job, JobType, pull, remove_by_attributes, set_status, set_message, set_statistics, is_done,
}
use batyr.Db.{Exception, db_error, worker_error, runtime_error, logic_error, Rows, Postgres}
use batyr.Db.Transaction.{Tx, Outcome, returns, throws, begin}
use batyr.Worker.{OgrFieldType, Dataset, OgrLayer}
use batyr.Worker.Source.{
  Opened, opened, failed_to_open, filter_string, open_source, deletion_allowed,
}
use batyr.Worker.Pull.{
  Loaded, Changes, Pulled, load, change_target, conclude, after_load, with_transaction, pull_from,
}
use batyr.Worker.Removal.{
  removal_ended, removal_begun, delete_by_attributes, remove_by_attributes as remove,
}
use batyr.Worker.Loop.{
  Round, terminates, is_terminated, after_exception, after_block, carry_out, perform,
}

-- The job is done, and it was finished at the given time.
unfoldable pub IsSettled : ℕ → Job → Type 0
IsSettled now job = (is_done job ≡ true) × (job.time_finished ≡ now)

-- An exception leaves the function and the job has its status, or the job is settled; its id stays.
Settles : {S : Type 0} → ℕ → Job → Pulled S → Type 0
Settles now job p =
    (p.job.id ≡ job.id)
    × (((e : Exception) × (p.exception ≡ some e) × (p.job.status ≡ job.status))
        ⊎ IsSettled now p.job)

-- The job is settled, or it has its status and the program ends; its id stays.
pub IsLeft : ℕ → Job → Round → Type 0
IsLeft now job r =
    (r.job.id ≡ job.id)
    × (IsSettled now r.job ⊎ ((r.job.status ≡ job.status) × (r.leaving ≡ terminates)))

-- A job that is not settled has its status.
pub left_status :
    (now : ℕ) (job : Job) (r : Round)
    → IsLeft now job r
    → is_done r.job ≡ false
    → r.job.status ≡ job.status
unfolding IsLeft IsSettled
left_status now job r (i, inl h) open_ = absurd (cc (h.0, open_))
left_status now job r (i, inr (e, t)) open_ = e

pub left_id : (now : ℕ) (job : Job) (r : Round) → IsLeft now job r → r.job.id ≡ job.id
unfolding IsLeft
left_id now job r h = h.0

pub exception-IsLeft :
    (now : ℕ) (job : Job) (e : Exception) → IsLeft now job (after_exception now job (some e))
unfolding IsLeft IsSettled after_exception set_message set_status is_done
exception-IsLeft now job (db_error e) = (refl, inl (refl, refl))
exception-IsLeft now job (worker_error m) = (refl, inl (refl, refl))
exception-IsLeft now job (runtime_error m) = (refl, inl (refl, refl))
exception-IsLeft now job logic_error = (refl, inr (refl, refl))

-- What ends the program: an exception that leaves the destructor of the transaction, or a
-- `std::logic_error`.
EndsProgram : {S : Type 0} → Pulled S → Type 0
EndsProgram p = (is_terminated p.transaction ≡ true) ⊎ (p.exception ≡ some logic_error)

-- The job is settled, and the program goes on or throws an exception on, without one of the two
-- causes; or it ends, and there is one of them.
pub IsCarriedOut : {S : Type 0} → ℕ → Pulled S → Round → Type 0
IsCarriedOut now p r =
    (IsSettled now r.job × (r.leaving ≢ terminates) × ¬ EndsProgram p)
    ⊎ ((r.leaving ≡ terminates) × EndsProgram p)

module _ {S : Type 0} (now : ℕ) (job : Job) where
  caught-IsLeft :
      (p : Pulled S) (e : Option Exception)
      → p.exception ≡ e
      → Settles now job p
      → IsLeft now job (after_exception now p.job e)
  unfolding IsLeft IsSettled Settles after_exception set_message set_status is_done
  caught-IsLeft p none x (i, inl (y, t, same)) = absurd (cc (x, t))
  caught-IsLeft p none x (i, inr h) = (i, inl h)
  caught-IsLeft p (some (db_error e)) x (i, h) = (i, inl (refl, refl))
  caught-IsLeft p (some (worker_error m)) x (i, h) = (i, inl (refl, refl))
  caught-IsLeft p (some (runtime_error m)) x (i, h) = (i, inl (refl, refl))
  caught-IsLeft p (some logic_error) x (i, inl (y, t, same)) = (i, inr (same, refl))
  caught-IsLeft p (some logic_error) x (i, inr h) = (i, inl h)

  destroyed-IsLeft :
      (p : Pulled S)
      → Settles now job p
      → IsLeft now job (record { job = p.job; leaving = terminates })
  unfolding IsLeft Settles
  destroyed-IsLeft p (i, inl (y, t, same)) = (i, inr (same, refl))
  destroyed-IsLeft p (i, inr h) = (i, inl h)

  block-IsLeft : (p : Pulled S) → Settles now job p → IsLeft now job (after_block now p)
  unfolding after_block
  block-IsLeft p h = elim (Bool-cases (is_terminated p.transaction)) [
    | inl e ↦ rw e (destroyed-IsLeft p h)
    | inr e ↦ rw e (caught-IsLeft p p.exception refl h)
  ]

module _ (pg : Postgres) where
  open pg use {State}

  conclude-Settles :
      (now : ℕ) (job : Job) (x : Loaded) (out : Outcome (Tx State) Changes)
      → Settles now job (conclude pg now job x out)
  unfolding conclude Settles IsSettled set_status set_statistics is_done
  conclude-Settles now job x (returns c t) = (refl, inr (refl, refl))
  conclude-Settles now job x (throws e t) = (refl, inl (e, refl, refl))

  after_load-Settles :
      (now : ℕ) (allowed : Bool) (l : Layer) (job : Job) (out : Outcome (Tx State) Loaded)
      → Settles now job (after_load pg now allowed l job out)
  unfolding after_load Settles set_statistics
  after_load-Settles now allowed l job (returns x t) =
      conclude-Settles now (set_statistics x.counts.pulled 0 0 0 x.counts.ignored job) x _
  after_load-Settles now allowed l job (throws e t) = (refl, inl (e, refl, refl))

  with_transaction-Settles :
      (tn : OgrFieldType → ℕ) (now : ℕ) (allowed : Bool) (l : Layer) (job : Job) (o : OgrLayer)
      (out : Outcome (Tx State) Rows)
      → Settles now job (with_transaction pg tn now allowed l job o out)
  unfolding with_transaction Settles
  with_transaction-Settles tn now allowed l job o (returns r t) =
      after_load-Settles now allowed l job (load pg tn l job o t)
  with_transaction-Settles tn now allowed l job o (throws e t) = (refl, inl (e, refl, refl))

  pull_from-Settles :
      (tn : OgrFieldType → ℕ) (now : ℕ) (allowed : Bool) (l : Layer) (job : Job) (s : State)
      (source : Opened OgrLayer)
      → Settles now job (pull_from pg tn now allowed l job s source)
  unfolding pull_from Settles
  pull_from-Settles tn now allowed l job s (opened o) =
      with_transaction-Settles tn now allowed l job o (begin pg s)
  pull_from-Settles tn now allowed l job s (failed_to_open m) = (refl, inl (_, refl, refl))

  pull-Settles :
      (tn : OgrFieldType → ℕ) (now : ℕ) (l : Layer) (dataset : Option Dataset) (job : Job)
      (s : State)
      → Settles now job (batyr.Worker.Pull.pull pg tn now l dataset job s)
  unfolding batyr.Worker.Pull.pull
  pull-Settles tn now l dataset job s =
      pull_from-Settles tn now (deletion_allowed l (filter_string l.filter job.filter)) l job s
        (open_source l (filter_string l.filter job.filter) dataset)

  removal_ended-Settles :
      (now : ℕ) (job : Job) (out : Outcome (Tx State) ℕ)
      → Settles now job (removal_ended pg now job out)
  unfolding removal_ended Settles IsSettled set_status set_statistics is_done
  removal_ended-Settles now job (returns n t) = (refl, inr (refl, refl))
  removal_ended-Settles now job (throws e t) = (refl, inl (e, refl, refl))

  removal_begun-Settles :
      (now : ℕ) (l : Layer) (job : Job) (out : Outcome (Tx State) Rows)
      → Settles now job (removal_begun pg now l job out)
  unfolding removal_begun Settles
  removal_begun-Settles now l job (returns r t) =
      removal_ended-Settles now job (delete_by_attributes pg l job t)
  removal_begun-Settles now l job (throws e t) = (refl, inl (e, refl, refl))

  remove-Settles :
      (now : ℕ) (l : Layer) (job : Job) (s : State) → Settles now job (remove pg now l job s)
  unfolding remove Settles IsSettled set_status set_message is_done
  remove-Settles now l job s = elim (Bool-cases l.allow_feature_deletion) [
    | inl a ↦ rw a (removal_begun-Settles now l job (begin pg s))
    | inr a ↦ rw a (refl, inr (refl, refl))
  ]

  carry_out-Settles :
      (tn : OgrFieldType → ℕ) (now : ℕ) (dataset : Layer → Option Dataset) (job : Job) (s : State)
      (type : JobType) (l : Option Layer)
      → Settles now job (carry_out pg tn now dataset job s type l)
  unfolding carry_out Settles
  carry_out-Settles tn now dataset job s type none = (refl, inl (_, refl, refl))
  carry_out-Settles tn now dataset job s pull (some l) = pull-Settles tn now l (dataset l) job s
  carry_out-Settles tn now dataset job s remove_by_attributes (some l) = remove-Settles now l job s

  -- What a worker leaves of a job.
  pub perform-IsLeft :
      (tn : OgrFieldType → ℕ) (now : ℕ) (c : Configuration) (dataset : Layer → Option Dataset)
      (job : Job) (s : State)
      → IsLeft now job (perform pg tn now c dataset job s)
  unfolding perform
  perform-IsLeft tn now c dataset job s =
      block-IsLeft now job _
        (carry_out-Settles tn now dataset job s job.type (get_layer job.layer_name c))
