-- ===== src/Db/Quiet.antt =====
-- Actions that return only with the transaction's mark as they found it.
use batyr.Prelude.{◌≡◌, refl, ◌∙◌, Bool, true, false, List, Text, if◌then◌else◌}
use batyr.Job.{NullableValue}
use batyr.Db.{Exception, Rows, Reply, no_result, fatal, rows, Parameter, Postgres}
use batyr.Db.Transaction.{
  Tx, M, Outcome, returns, throws, ◌>>=◌, pure, throw, answered, exec, exec_params, exec_prepared,
  prepare, at_exit,
}

pub record Quiet {S A : Type 0} (m : M S A) : Type 0 where
  pub apply : (t u : Tx S) (a : A) → m t ≡ returns a u → u.rollback ≡ t.rollback

module _ {S A B : Type 0} where
  -- A chain of two actions that returns, taken apart.
  pub >>=-eq-returns :
      (m : M S A) (f : A → M S B) (t u : Tx S) (b : B)
      → (m >>= f) t ≡ returns b u
      → (a : A) × (v : Tx S) × (m t ≡ returns a v) × (f a v ≡ returns b u)
  >>=-eq-returns m f t u b h = invert (m t) refl h
    where
      invert :
          (o : Outcome (Tx S) A)
          → m t ≡ o
          → ◌>>=◌ (λ _. o) f t ≡ returns b u
          → (a : A) × (v : Tx S) × (m t ≡ returns a v) × (f a v ≡ returns b u)
      invert (returns a v) e q = (a, v, e, q)
      invert (throws x v) e q = cc

  pub >>=-Quiet : {m : M S A} {f : A → M S B} → Quiet m → ((a : A) → Quiet (f a)) → Quiet (m >>= f)
  >>=-Quiet {m} {f} k l = record {
    apply = λ t u b h.
        let (a, v, e1, e2) = >>=-eq-returns m f t u b h in (l a).apply v u b e2 ∙ k.apply t v a e1;
  }

module _ {S A : Type 0} where
  pub pure-Quiet : (a : A) → Quiet (pure {S = S} a)
  pure-Quiet a = record { apply = λ t u b h. cc }

  pub throw-Quiet : (e : Exception) → Quiet (throw {S = S} {A = A} e)
  throw-Quiet e = record { apply = λ t u b h. cc }

  pub if-Quiet : (b : Bool) {m n : M S A} → Quiet m → Quiet n → Quiet (if b then m else n)
  if-Quiet true k l = k
  if-Quiet false k l = l

module _ {S : Type 0} where
  pub answered-Quiet : (sql : Text) (r : Reply × S) → Quiet (answered sql r)
  unfolding answered
  answered-Quiet sql (no_result m, s) = record { apply = λ t u b h. cc }
  answered-Quiet sql (fatal x y c, s) = record { apply = λ t u b h. cc }
  answered-Quiet sql (rows x, s) = record { apply = λ t u b h. cc }

  at_exit-Quiet : (sql : Text) (r : Rows) → Quiet (at_exit {S = S} sql r)
  at_exit-Quiet sql r = record { apply = λ t u b h. cc }

module _ (pg : Postgres) where
  open pg use {State}

  pub exec-Quiet : (sql : Text) → Quiet (exec pg sql)
  unfolding exec
  exec-Quiet sql = record { apply = λ t. (answered-Quiet sql (pg.exec t.session sql)).apply t }

  pub exec_params-Quiet : (sql : Text) (ps : List Parameter) → Quiet (exec_params pg sql ps)
  unfolding exec_params
  exec_params-Quiet sql ps = record { apply = λ t. (answered-Quiet sql _).apply t }

  pub exec_prepared-Quiet : (s : Text) (vs : List NullableValue) → Quiet (exec_prepared pg s vs)
  unfolding exec_prepared
  exec_prepared-Quiet s vs = record { apply = λ t. (answered-Quiet s _).apply t }

  pub prepare-Quiet : (name sql : Text) → Quiet (prepare pg name sql)
  unfolding prepare
  prepare-Quiet name sql =
      >>=-Quiet (record { apply = λ t. (answered-Quiet sql _).apply t }) λ r. at_exit-Quiet _ r
