-- ===== src/Db.antt =====
-- server/db/transaction.h, server/db/transaction.cpp, server/db/postgis.cpp and the error class of
-- server/db/connection.h. libpq and the server behind it are the parameter `Postgres`.
pub mod Transaction
pub mod Fields
pub mod Quiet
pub mod Quoting
pub mod Ending
pub mod Connection
use batyr.Prelude.{
  ℕ, Bool, true, false, not, ◌&&◌, ◌||◌, List, [], ◌∷◌, ◌++◌, Option, none, some, Text, codes,
  text_eq, is_empty, take, if◌then◌else◌,
}

pub record DbError : Type 0 where
  pub message : Text
  pub sqlstate : Text
  pub context : Text

-- `DbError(message)`, where the state is the empty string.
abbrev pub plain_error : Text → DbError
plain_error m = record { message = m; sqlstate = []; context = [] }

-- `!sqlstate.empty() && sqlstate.compare(0, 2, "22") == 0`.
unfoldable pub is_data_exception : DbError → Bool
is_data_exception e = not (is_empty e.sqlstate) && text_eq (take 2 e.sqlstate) (codes "22")

unfoldable pub has_context : DbError → Bool
has_context e = not (is_empty e.context)

-- `WorkerError`, `DbError` and the other exceptions derived from `std::runtime_error`, and the
-- `std::logic_error` of a `std::string` that is made of a null pointer.
pub data Exception : Type 0 where
  db_error : DbError → Exception
  worker_error : Text → Exception
  runtime_error : Text → Exception
  logic_error : Exception

-- The tuples of a result, with the empty string for a null, and `PQcmdTuples`.
pub record Rows : Type 0 where
  pub tuples : List (List Text)
  pub cmd_tuples : Text

-- A `PGresult *`: null with the connection's message, `PGRES_FATAL_ERROR` with its SQLSTATE, primary
-- message and context, each of which may be null, or any other status.
pub data Reply : Type 0 where
  no_result : Text → Reply
  fatal : Option Text → Option Text → Option Text → Reply
  rows : Rows → Reply

-- `PQtransactionStatus`.
pub data TransactionStatus : Type 0 where
  idle active in_transaction in_error unknown : TransactionStatus

-- A parameter of a statement: `none` is NULL.
abbrev pub Parameter : Type 0
Parameter = Option Text

-- The functions of libpq that a transaction calls, over the state of the connection and the
-- database behind it. `escape_identifier` is `none` where libpq returns `nullptr`.
pub record Postgres : Type 1 where
  pub State : Type 0
  pub exec : State → Text → Reply × State
  pub exec_params : State → Text → List Parameter → Reply × State
  pub prepare : State → Text → Text → Reply × State
  pub exec_prepared : State → Text → List Parameter → Reply × State
  pub transaction_status : State → TransactionStatus
  pub escape_identifier : State → Text → Option Text
  pub error_message : State → Text
  pub server_version : State → ℕ
