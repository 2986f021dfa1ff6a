-- ===== src/Db/Connection/Restored.antt =====
-- Connection::reconnect: what its result says of the connection.
use batyr.Prelude.{
  ℕ, zero, suc, ◌≡◌, refl, ◌⊎◌, inl, inr, Bool, true, false, Option, none, some, Text, codes, leb,
  if_lem, ◌++◌,
}
use batyr.Db.{Postgres}
use batyr.Db.Transaction.{Outcome, returns, throws}
use batyr.Db.Connection.{
  Link, Connection, get_version, known_version, set_name, set_application_name, send_name,
  ends_open, ends_bad, named, opened, checked, reconnect_from, reconnect,
}

module _ (pg : Postgres) (link : Link pg) where
  open pg use {State, exec, server_version}

  -- What an end of `reconnect` says. True: there is a connection whose status was good, and whose
  -- client encoding has been set as the last thing. False: there is a connection, and its status is bad.
  -- An exception: the status was good, but the version of the server is not known.
  abbrev pub IsReported : Outcome (Connection pg link) Bool → Type 0
  IsReported (returns true c) =
      (c.connection_ok ≡ true)
      × ((s : State) × (t : State) × (link.is_ok s ≡ true)
          × ((t ≡ s) ⊎ ((sql : Text) × (t ≡ (exec s sql).1)))
          × (c.pgconn ≡ some (link.set_client_encoding t (codes "UTF8"))))
  IsReported (returns false c) =
      (c.connection_ok ≡ false) × ((s : State) × (c.pgconn ≡ some s) × (link.is_ok s ≡ false))
  IsReported (throws e c) =
      (c.connection_ok ≡ true)
      × ((s : State) × (c.pgconn ≡ some s) × (link.is_ok s ≡ true) × (server_version s ≡ 0))

  sent-IsReported :
      (s : State) (name : Option Text)
      → link.is_ok s ≡ true
      → IsReported (ends_open pg link (send_name pg link s name))
  unfolding ends_open send_name
  sent-IsReported s none ok = (refl, (s, s, ok, inl refl, refl))
  sent-IsReported s (some n) ok =
      (refl, (s, (exec s (codes "set application_name to " ++ n)).1, ok, inr (_, refl), refl))

  named-IsReported :
      (s : State) (v : ℕ)
      → link.is_ok s ≡ true
      → server_version s ≡ v
      → IsReported (
          named pg link (
            set_name pg link s
              (known_version pg link (record { pgconn = some s; connection_ok = true }) v)))
  unfolding named set_name known_version
  named-IsReported s zero ok e = (refl, (s, refl, ok, e))
  named-IsReported s (suc v) ok e =
      if_lem (λ t. IsReported (ends_open pg link t)) (leb 90000 (suc v)) _ s
        (λ new. sent-IsReported s (link.escape_literal s (codes "batyrd")) ok)
        (λ old. sent-IsReported s none ok)

  opened-IsReported : (s : State) → IsReported (opened pg link s)
  unfolding opened set_application_name get_version ends_bad
  opened-IsReported s =
      if_lem IsReported (link.is_ok s) _ _ (λ ok. named-IsReported s (server_version s) ok refl)
        (λ bad. (refl, (s, refl, bad)))

  checked-IsReported : (restore : Bool) (s : State) → IsReported (checked pg link restore s)
  unfolding checked ends_open ends_bad
  checked-IsReported restore s =
      if_lem IsReported (link.is_ok s) _ _ (λ ok. (refl, (s, s, ok, inl refl, refl)))
        (λ bad.
          if_lem IsReported restore _ _ (λ r. opened-IsReported (link.reset s))
            (λ r. (refl, (s, refl, bad))))

  from-IsReported :
      (dsn : Text) (restore : Bool) (c : Option State)
      → IsReported (reconnect_from pg link dsn restore c)
  unfolding reconnect_from
  from-IsReported dsn restore none = opened-IsReported (link.connectdb dsn)
  from-IsReported dsn restore (some s) = checked-IsReported restore (exec s (codes "select 1")).1

  -- Whatever the connection was and whatever libpq answers: where `reconnect` returns true, the status
  -- of the connection was good after the last check, reset or connect, and at most the name of the
  -- application and the encoding were set since; where it returns false, the status is bad; it throws
  -- only where the status was good and the version of the server is not known. In each case there is a
  -- connection afterwards, and `connection_ok` tells whether its status was good.
  pub reconnect-IsReported :
      (dsn : Text) (restore : Bool) (c : Connection pg link)
      → IsReported (reconnect pg link dsn restore c)
  unfolding reconnect
  reconnect-IsReported dsn restore c = from-IsReported dsn restore c.pgconn
