-- ===== src/Db/Connection.antt =====
-- server/db/connection.h and server/db/connection.cpp: the connection of a worker to the database.
pub mod Restored
use batyr.Prelude.{
  ℕ, zero, suc, Bool, true, false, ◌++◌, Option, none, some, Text, codes, leb, if◌then◌else◌,
}
use batyr.Db.{plain_error, Exception, db_error, Postgres}
use batyr.Db.Transaction.{Outcome, returns, throws}

-- What `reconnect` comes to, as its caller sees it.
pub data Reconnection : Type 0 where
  connected not_connected : Reconnection
  failed : Exception → Reconnection

-- The other functions of libpq that a connection calls: `PQconnectdb`, `PQstatus` compared with
-- `CONNECTION_OK`, `PQreset`, `PQescapeLiteral` (`none` for `nullptr`) and `PQsetClientEncoding`.
pub record Link (pg : Postgres) : Type 0 where
  pub connectdb : Text → pg.State
  pub is_ok : pg.State → Bool
  pub reset : pg.State → pg.State
  pub escape_literal : pg.State → Text → Option Text
  pub set_client_encoding : pg.State → Text → pg.State

module _ (pg : Postgres) (link : Link pg) where
  open pg use {State, exec, server_version}

  -- The members of `Connection`; `none` is a null pointer.
  pub record Connection : Type 0 where
    pub pgconn : Option State
    pub connection_ok : Bool

  abbrev pub close : Connection → Connection
  close c = record c { pgconn = none }

  version_of : Option State → ℕ
  version_of none = 0
  version_of (some s) = server_version s

  known_version : Connection → ℕ → Outcome Connection ℕ
  known_version c zero =
      throws (db_error (plain_error (codes "could not determinate postgresql server version"))) c
  known_version c (suc v) = returns (suc v) c

  -- `getVersion`.
  unfoldable pub get_version : Connection → Outcome Connection ℕ
  unfolding version_of known_version
  get_version c = known_version c (version_of c.pgconn)

  send_name : State → Option Text → State
  send_name s none = s
  send_name s (some name) = (exec s (codes "set application_name to " ++ name)).1

  -- `setApplicationName` of an open connection, for the version that `getVersion` gives.
  unfoldable pub set_name : State → Outcome Connection ℕ → Outcome Connection State
  unfolding send_name
  set_name s (throws e c) = throws e c
  set_name s (returns version c) =
      returns
        (if leb 90000 version then send_name s (link.escape_literal s (codes "batyrd")) else s) c

  unfoldable pub set_application_name : State → Outcome Connection State
  unfolding get_version set_name
  set_application_name s =
      set_name s (get_version (record { pgconn = some s; connection_ok = true }))

  -- The end of `reconnect`, for a connection that is or is not open.
  unfoldable pub ends_open : State → Outcome Connection Bool
  ends_open s =
      returns true
        (record { pgconn = some (link.set_client_encoding s (codes "UTF8")); connection_ok = true })

  unfoldable pub ends_bad : State → Outcome Connection Bool
  ends_bad s = returns false (record { pgconn = some s; connection_ok = false })

  named : Outcome Connection State → Outcome Connection Bool
  unfolding ends_open
  named (returns s c) = ends_open s
  named (throws e c) = throws e c

  -- After `PQreset` and after `PQconnectdb`.
  unfoldable pub opened : State → Outcome Connection Bool
  unfolding named ends_bad set_application_name
  opened s = if link.is_ok s then named (set_application_name s) else ends_bad s

  -- The check of a connection that there is.
  unfoldable pub checked : Bool → State → Outcome Connection Bool
  unfolding opened ends_open ends_bad
  checked restore s =
      if link.is_ok s then ends_open s else if restore then opened (link.reset s) else ends_bad s

  reconnect_from : Text → Bool → Option State → Outcome Connection Bool
  unfolding checked opened
  reconnect_from dsn restore none = opened (link.connectdb dsn)
  reconnect_from dsn restore (some s) = checked restore (exec s (codes "select 1")).1

  -- `reconnect`; `dsn` is the connection string of the configuration.
  unfoldable pub reconnect : Text → Bool → Connection → Outcome Connection Bool
  unfolding reconnect_from
  reconnect dsn restore c = reconnect_from dsn restore c.pgconn

  -- What the loop of `Worker::run` sees.
  unfoldable pub reconnection : Outcome Connection Bool → Reconnection
  reconnection (returns true c) = connected
  reconnection (returns false c) = not_connected
  reconnection (throws e c) = failed e
