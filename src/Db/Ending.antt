-- ===== src/Db/Ending.antt =====
-- How a transaction ends: what its destructor sends.
use mathlib.Core.List.{append_assoc, reverse-cons}
use batyr.Prelude.{
  ◌≡◌, refl, sym, ap, ◌∙◌, inl, inr, Bool-cases, true, List, [], ◌∷◌, ◌++◌, reverse, Text,
}
use batyr.Db.{Postgres, Reply, no_result, fatal, rows}
use batyr.Db.Transaction.{
  Tx, left, after_ending, ended, answered, exec, ending, goes_on, run_exit_sqls, destroy,
}

module _ {S : Type 0} where
  pub answered-sent :
      (sql : Text) (r : Reply × S) (t : Tx S) → (left (answered sql r t)).sent ≡ sql ∷ t.sent
  unfolding answered
  answered-sent sql (no_result m, s) t = refl
  answered-sent sql (fatal a b c, s) t = refl
  answered-sent sql (rows x, s) t = refl

  pub answered-rollback :
      (sql : Text) (r : Reply × S) (t : Tx S)
      → t.rollback ≡ true
      → (left (answered sql r t)).rollback ≡ true
  unfolding answered
  answered-rollback sql (no_result m, s) t h = refl
  answered-rollback sql (fatal a b c, s) t h = refl
  answered-rollback sql (rows x, s) t h = h

module _ (pg : Postgres) where
  open pg use {State, exec as pq_exec}

  exec-sent : (sql : Text) (t : Tx State) → (left (exec pg sql t)).sent ≡ sql ∷ t.sent
  unfolding exec
  exec-sent sql t = answered-sent sql (pq_exec t.session sql) t

  -- A loop that ends has sent the commands of the list, and the list is empty.
  run_exit_sqls-sent :
      (sqls : List Text) (t u : Tx State)
      → run_exit_sqls pg sqls t ≡ ended u
      → (u.sent ≡ reverse sqls ++ t.sent) × (u.exit_sqls ≡ [])
  unfolding run_exit_sqls
  run_exit_sqls-sent [] t u e = (cc e, cc e)
  run_exit_sqls-sent (sql ∷ sqls) t u e = elim (Bool-cases (goes_on pg (exec pg sql t))) [
    | inl on ↦
        let (sent, gone) = run_exit_sqls-sent sqls (left (exec pg sql t)) u (rw on at e) in
        (
          sent
              ∙ ap (◌++◌ (reverse sqls)) (exec-sent sql t)
              ∙ sym (rw reverse-cons (append_assoc (reverse sqls) (sql ∷ []) t.sent)),
          gone,
        )
    | inr off ↦ absurd (cc (rw off at e))
  ]

  after_ending-sent :
      (sql : Text) (r : Reply × State) (t u : Tx State)
      → after_ending pg (answered sql r t) ≡ ended u
      → (u.sent ≡ reverse t.exit_sqls ++ sql ∷ t.sent) × (u.exit_sqls ≡ [])
  unfolding answered after_ending
  after_ending-sent sql (no_result m, s) t u e = cc
  after_ending-sent sql (fatal a b c, s) t u e = cc
  after_ending-sent sql (rows x, s) t u e =
      let t' : Tx State = record t { session = s; sent = sql ∷ t.sent } in
      run_exit_sqls-sent t.exit_sqls t' u e

  -- A destructor that ends has sent one command to end the transaction and after it each exit
  -- command in order, whatever `DbError`s those met, and has forgotten them.
  pub destroy-sent :
      (t u : Tx State)
      → destroy pg t ≡ ended u
      → (u.sent ≡ reverse t.exit_sqls ++ ending pg t ∷ t.sent) × (u.exit_sqls ≡ [])
  unfolding destroy exec
  destroy-sent t u e = after_ending-sent (ending pg t) (pq_exec t.session (ending pg t)) t u e
