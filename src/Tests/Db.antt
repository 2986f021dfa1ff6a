-- ===== src/Tests/Db.antt =====
-- A database for the tests, and the property of the destructor at a transaction on it.
use batyr.Prelude.{◌==◌, ◌≡◌, refl, ℕ, [], ◌∷◌, ◌++◌, List, none, some, true, codes, reverse}
use batyr.Db.{Postgres, Reply, rows, fatal, Parameter, in_transaction}
use batyr.Db.Transaction.{returns, Tx, ended, ending, destroy}
use batyr.Db.Ending.{destroy-sent}
use batyr.Db.Connection.{Link, Connection, reconnect}
use batyr.Db.Connection.Restored.{IsReported, reconnect-IsReported}

-- The reply to a query: the version of PostGIS has no parameters, the SRID three, and the fields of
-- the table two.
abbrev pub reply : List Parameter → Reply
reply [] = rows (record { tuples = (codes "2.1.0" ∷ []) ∷ []; cmd_tuples = codes "1" })
reply (a ∷ b ∷ c ∷ ps) = rows (record { tuples = []; cmd_tuples = codes "0" })
reply _ = rows (record {
  tuples = (codes "id" ∷ codes "int4" ∷ codes "23" ∷ codes "Y" ∷ []) ∷ [];
  cmd_tuples = codes "1";
})

-- Every prepared statement fails with a data exception, and every other command succeeds.
abbrev pub database : Postgres
database = record {
  State = ℕ;
  exec = λ s sql. (rows (record { tuples = []; cmd_tuples = codes "2" }), s);
  exec_params = λ s sql ps. (reply ps, s);
  prepare = λ s name sql. (rows (record { tuples = []; cmd_tuples = [] }), s);
  exec_prepared =
      λ s name ps. (fatal (some (codes "22001")) (some (codes "value too long")) none, s);
  transaction_status = λ s. in_transaction;
  escape_identifier = λ s name. some (codes "\"" ++ (name ++ codes "\""));
  error_message = λ s. [];
  server_version = λ s. 90400;
}

abbrev open_transaction : Tx ℕ
open_transaction = record {
  session = 0;
  exit_sqls = codes "drop table if exists \"t\"" ∷ codes "deallocate s;" ∷ [];
  rollback = true;
  sent = codes "begin;" ∷ [];
}

abbrev closed_transaction : Tx ℕ
closed_transaction = record {
  session = 0;
  exit_sqls = [];
  rollback = true;
  sent =
      codes "deallocate s;"
      ∷ codes "drop table if exists \"t\""
      ∷ codes "rollback;"
      ∷ codes "begin;"
      ∷ [];
}

destroyed : destroy database open_transaction ≡ ended closed_transaction
unfolding destroy
destroyed = refl

destroy-sent_example :
    (closed_transaction.sent
      ≡ reverse open_transaction.exit_sqls
        ++ ending database open_transaction ∷ open_transaction.sent)
    × (closed_transaction.exit_sqls ≡ [])
destroy-sent_example = destroy-sent database open_transaction closed_transaction destroyed

-- A server that is away until the connection is reset.
abbrev link : Link database
link = record {
  connectdb = λ dsn. 0;
  is_ok = λ s. s == 1;
  reset = λ s. 1;
  escape_literal = λ s name. some (codes "'" ++ (name ++ codes "'"));
  set_client_encoding = λ s name. s;
}

abbrev away : Connection database link
away = record { pgconn = some 0; connection_ok = true }

restored :
    reconnect database link (codes "dbname=x") true away
    ≡ returns true (record { pgconn = some 1; connection_ok = true })
unfolding reconnect
restored = refl

reconnect-IsReported_example :
    IsReported database link (reconnect database link (codes "dbname=x") true away)
reconnect-IsReported_example = reconnect-IsReported database link (codes "dbname=x") true away
