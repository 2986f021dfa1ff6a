-- ===== src/Service/Forward.antt =====
-- The jobs go forward: they wait, are in process and are done, in this order.
use batyr.Prelude.{ℕ, suc, ◌≤◌, ◌<◌, ◌≡◌, true}
use batyr.Json.{Json}
use batyr.Job.{Job, Status, queued, in_process, finished, failed as failed_status, is_done}
use batyr.Db.Connection.{failed}
use batyr.Queue
use batyr.Service.{Service}
use batyr.Service.Count.{total, closes}
use batyr.Service.Reached.{Reached}

abbrev rank : Status → ℕ
rank queued = 0
rank in_process = 1
rank finished = 2
rank failed_status = 2

-- What a job may become in an action of a worker that does not have it as done: it keeps its id, it
-- goes on by one status at most and never back, and one that is done stays as it is.
record IsStep (before after : Job) : Type 0 where
  id : after.id ≡ before.id
  not_back : rank before.status ≤ rank after.status
  one_step : rank after.status ≤ suc (rank before.status)
  done_stays : is_done before ≡ true → after ≡ before

abbrev AllSteps : Service → Service → Type 0
AllSteps s t = (p : ℕ) → p < s.next → IsStep (s.heap p) (t.heap p)

-- What a job may become in any action: it keeps its id, it goes on by one status at most and never
-- back, and of one that is done only the message and the statistics may change.
pub record IsForward (before after : Job) : Type 0 where
  pub id : after.id ≡ before.id
  pub not_back : rank before.status ≤ rank after.status
  pub one_step : rank after.status ≤ suc (rank before.status)
  pub done_stays :
      is_done before ≡ true
      → after ≡ record before { message = after.message; statistics = after.statistics }

-- A job that is done, and that no worker closes, stays as it is.
abbrev pub Stays : Service → Service → ℕ → Type 0
Stays s t p = is_done (s.heap p) ≡ true → total (closes p) s.workers ≡ 0 → t.heap p ≡ s.heap p

-- Every job that there was has gone forward.
abbrev pub AllForward : Service → Service → Type 0
AllForward s t = (p : ℕ) → p < s.next → IsForward (s.heap p) (t.heap p) × Stays s t p
