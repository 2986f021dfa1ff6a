-- ===== src/Worker/Loop.antt =====
-- `Worker::run`: what happens to one job, from its removal from the queue to the end of the round.
-- The wait for a connection is over: `reconnect` has returned true, and the message that it may
-- have set is cleared.
pub mod Settled
use batyr.Prelude.{
  ℕ, Bool, true, false, ◌∷◌, [], Option, none, some, Text, codes, cat, if◌then◌else◌,
}
use batyr.Config.{Layer, Configuration, get_layer}
use batyr.Job.{
  Job, JobType, pull, remove_by_attributes, in_process, failed, set_status, set_message,
}
use batyr.Db.{Exception, db_error, worker_error, runtime_error, logic_error, Postgres}
use batyr.Db.Transaction.{Ended, ended, terminated}
use batyr.Worker.{OgrFieldType, Dataset}
use batyr.Worker.Pull.{Pulled}
use batyr.Worker.Removal.{remove_by_attributes as remove}

-- What follows a job: the next round, an exception that the last `catch` block throws on, or the
-- end of the program, where an exception leaves a destructor or no `catch` block is for it.
pub data Leaving : Type 0 where
  continues rethrows terminates : Leaving

pub record Round : Type 0 where
  pub job : Job
  pub leaving : Leaving

abbrev failed_with : ℕ → Text → Job → Job
failed_with now m job = set_message m (set_status failed now job)

-- The `catch` blocks.
unfoldable pub after_exception : ℕ → Job → Option Exception → Round
after_exception now job none = record { job = job; leaving = continues }
after_exception now job (some (db_error e)) = record {
  job = failed_with now e.message job;
  leaving = continues;
}
after_exception now job (some (worker_error m)) = record {
  job = failed_with now m job;
  leaving = continues;
}
after_exception now job (some (runtime_error m)) = record {
  job = failed_with now m job;
  leaving = rethrows;
}
after_exception now job (some logic_error) = record { job = job; leaving = terminates }

-- An exception has left the destructor of the transaction, which ends the program.
unfoldable pub is_terminated : {S : Type 0} → Option (Ended S) → Bool
is_terminated none = false
is_terminated (some (ended t)) = false
is_terminated (some (terminated t)) = true

-- The destructor comes before the `catch` blocks.
unfoldable pub after_block : {S : Type 0} → ℕ → Pulled S → Round
unfolding after_exception is_terminated
after_block now p =
    if is_terminated p.transaction
    then record { job = p.job; leaving = terminates }
    else after_exception now p.job p.exception

-- The `ConfigurationError` of `getLayer`.
abbrev no_layer : {S : Type 0} → Job → Pulled S
no_layer job = record {
  job = job;
  exception =
      some (runtime_error (cat (codes "Layer " ∷ job.layer_name ∷ codes " not found" ∷ [])));
  transaction = none;
}

module _ (pg : Postgres) where
  open pg use {State}

  -- The `switch` over the type of the job; `dataset` opens the source of a layer.
  unfoldable pub carry_out :
      (OgrFieldType → ℕ)
      → ℕ
      → (Layer → Option Dataset)
      → Job
      → State
      → JobType
      → Option Layer
      → Pulled State
  unfolding batyr.Worker.Pull.pull remove
  carry_out tn now dataset job s type none = no_layer job
  carry_out tn now dataset job s pull (some l) =
      batyr.Worker.Pull.pull pg tn now l (dataset l) job s
  carry_out tn now dataset job s remove_by_attributes (some l) = remove pg now l job s

  -- The `switch` and the `catch` blocks, for a job that is in process, with the job as it is at the
  -- end; the threads of Service write its status first and the rest in another action.
  unfoldable pub perform :
      (OgrFieldType → ℕ) → ℕ → Configuration → (Layer → Option Dataset) → Job → State → Round
  unfolding carry_out after_block get_layer
  perform tn now c dataset job s =
      after_block now (carry_out tn now dataset job s job.type (get_layer job.layer_name c))

  unfoldable pub process :
      (OgrFieldType → ℕ) → ℕ → Configuration → (Layer → Option Dataset) → Job → State → Round
  unfolding perform
  process tn now c dataset job s =
      perform tn now c dataset (set_message [] (set_status in_process now job)) s
