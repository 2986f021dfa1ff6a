-- ===== src/Db/Transaction.antt =====
-- The class `Transaction` as a monad of state and exceptions.
use batyr.Prelude.{
  Bool, true, false, ◌||◌, List, [], ◌∷◌, ◌++◌, Option, none, some, Text, codes, map, if◌then◌else◌,
}
use batyr.Job.{NullableValue}
use batyr.Db.{
  plain_error, Exception, db_error, logic_error, Rows, Reply, no_result, fatal, rows,
  TransactionStatus, in_error, unknown, Parameter, Postgres,
}

pub data Outcome {ℓ κ} (S : Type ℓ) (A : Type κ) : Type (ℓ ⊔ κ) where
  returns : A → S → Outcome S A
  throws : Exception → S → Outcome S A

-- The members of `Transaction`, with the state of its connection; `sent` records the commands
-- that went through `exec`, the last one first.
pub record Tx (S : Type 0) : Type 0 where
  pub session : S
  pub exit_sqls : List Text
  pub rollback : Bool
  pub sent : List Text

abbrev pub M : Type 0 → Type 0 → Type 0
M S A = Tx S → Outcome (Tx S) A

module _ {S : Type 0} where
  infixl 5 ◌>>=◌ ◌>>◌
  abbrev pub ◌>>=◌ : {A B : Type 0} → M S A → (A → M S B) → M S B
  ◌>>=◌ m f t = elim (m t) [ returns a t' ↦ f a t' | throws e t' ↦ throws e t' ]

  abbrev pub ◌>>◌ : {A B : Type 0} → M S A → M S B → M S B
  m >> k = m >>= λ _. k

  abbrev pub pure : {A : Type 0} → A → M S A
  pure a t = returns a t

  abbrev pub throw : {A : Type 0} → Exception → M S A
  throw e t = throws e t

-- The state that an outcome leaves.
abbrev pub left {ℓ κ} : {S : Type ℓ} {A : Type κ} → Outcome S A → S
left (returns a s) = s
left (throws e s) = s

abbrev context_text : Option Text → Text
context_text none = []
context_text (some c) = c

-- `DbError(msg_primary, sqlstate)`, whose parameters are strings.
abbrev fatal_error : Option Text → Option Text → Option Text → Exception
fatal_error (some state) (some message) context =
    db_error (record { message = message; sqlstate = state; context = context_text context })
fatal_error _ _ context = logic_error

module _ {S : Type 0} where
  -- `checkResult`: every fatal error, of whatever class, sets `rollback`.
  unfoldable pub check_result : Reply → M S Rows
  check_result (no_result m) t =
      throws (db_error (plain_error (codes "query result was null: " ++ m)))
        (record t { rollback = true })
  check_result (fatal state message context) t =
      throws (fatal_error state message context) (record t { rollback = true })
  check_result (rows r) t = returns r t

  unfoldable pub answered : Text → Reply × S → M S Rows
  unfolding check_result
  answered sql (reply, s) t = check_result reply (record t { session = s; sent = sql ∷ t.sent })

  -- `exitSqls.push_back`.
  abbrev pub at_exit : Text → Rows → M S Rows
  at_exit sql r t = returns r (record t { exit_sqls = t.exit_sqls ++ sql ∷ [] })

-- `PGParams`: a null has no value, whatever it holds.
abbrev pub pg_params : List NullableValue → List Parameter
pg_params = map (λ v. if v.is_null then none else some v.value)

-- How the destructor ends: an exception that leaves it ends the program.
pub data Ended (S : Type 0) : Type 0 where
  ended : Tx S → Ended S
  terminated : Tx S → Ended S

module _ (pg : Postgres) where
  open pg use {
    State, exec as pq_exec, exec_params as pq_exec_params, prepare as pq_prepare,
    exec_prepared as pq_exec_prepared, transaction_status,
  }

  unfoldable pub exec : Text → M State Rows
  unfolding answered
  exec sql t = answered sql (pq_exec t.session sql) t

  unfoldable pub exec_params : Text → List Parameter → M State Rows
  unfolding answered
  exec_params sql params t = answered sql (pq_exec_params t.session sql params) t

  -- The statement is deallocated when the transaction ends, but only if it was prepared.
  unfoldable pub prepare : Text → Text → M State Rows
  unfolding answered
  prepare name sql = do
    result ← λ t. answered sql (pq_prepare t.session name sql) t
    at_exit (codes "deallocate " ++ (name ++ codes ";")) result

  unfoldable pub exec_prepared : Text → List NullableValue → M State Rows
  unfolding answered
  exec_prepared name values t = answered name (pq_exec_prepared t.session name (pg_params values)) t

  -- The constructor, on a connection in the given state.
  unfoldable pub begin : State → Outcome (Tx State) Rows
  unfolding exec
  begin s =
      exec (codes "begin;") (record { session = s; exit_sqls = []; rollback = false; sent = [] })

  unfoldable pub is_broken : TransactionStatus → Bool
  is_broken in_error = true
  is_broken unknown = true
  is_broken _ = false

  -- The decision of the destructor.
  unfoldable pub ending : Tx State → Text
  unfolding is_broken
  ending t =
      if t.rollback || is_broken (transaction_status t.session)
      then codes "rollback;"
      else codes "commit;"

  -- The `catch` of the loop over `exitSqls`.
  unfoldable pub goes_on : Outcome (Tx State) Rows → Bool
  goes_on (returns _ t) = true
  goes_on (throws (db_error e) t) = true
  goes_on (throws _ t) = false

  -- The loop over `exitSqls`: a `DbError` is logged, and the next command is sent.
  unfoldable pub run_exit_sqls : List Text → Tx State → Ended State
  unfolding exec goes_on
  run_exit_sqls [] t = ended (record t { exit_sqls = [] })
  run_exit_sqls (sql ∷ sqls) t =
      let out = exec sql t in
      let rest = run_exit_sqls sqls (left out) in
      if goes_on out then rest else terminated (left out)

  unfoldable pub after_ending : Outcome (Tx State) Rows → Ended State
  unfolding run_exit_sqls
  after_ending (returns _ t) = run_exit_sqls t.exit_sqls t
  after_ending (throws _ t) = terminated t

  -- `~Transaction`.
  unfoldable pub destroy : Tx State → Ended State
  unfolding exec ending after_ending
  destroy t = after_ending (exec (ending t) t)
