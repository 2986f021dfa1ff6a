-- ===== src/Worker/Features/Ignored.antt =====
-- What leaving out a feature does to the transaction.
use batyr.Prelude.{
  ℕ, ◌+◌, ◌≤◌, ltb, lt→ltb, ◌≡◌, ◌≢◌, sym, refl, ◌∙◌, inl, inr, Bool, true, false, List, [], ◌∷◌,
  Text, codes, length, Bool-cases, arith,
}
use batyr.Job.{NullableValue}
use batyr.Db.{
  Postgres, Reply, no_result, fatal, rows, Exception, db_error, worker_error, runtime_error,
  logic_error, DbError, is_data_exception,
}
use batyr.Db.Transaction.{
  Tx, M, Outcome, returns, throws, left, ◌>>=◌, pure, throw, answered, exec, exec_prepared,
}
use batyr.Db.Ending.{answered-rollback}
use batyr.Db.Quiet.{
  Quiet, >>=-Quiet, >>=-eq-returns, pure-Quiet, throw-Quiet, exec-Quiet, exec_prepared-Quiet,
}
use batyr.Worker.{OgrFieldType, Feature}
use batyr.Worker.Convert.{Converted, converted, unsupported}
use batyr.Worker.Features.{
  Plan, Counts, feature_values, or_throw, try_insert, on_failure, caught, insert_feature, counted,
  insert_features,
}

-- Once the transaction is marked for a rollback, the action leaves it marked, however it ends.
pub record Keeps {S A : Type 0} (m : M S A) : Type 0 where
  pub apply : (t : Tx S) → t.rollback ≡ true → (left (m t)).rollback ≡ true

-- A `DbError` leaves the action with the transaction marked for a rollback.
pub record Marks {S A : Type 0} (m : M S A) : Type 0 where
  pub apply : (t u : Tx S) (e : DbError) → m t ≡ throws (db_error e) u → u.rollback ≡ true

module _ {S A B : Type 0} where
  pub >>=-Keeps : {m : M S A} {f : A → M S B} → Keeps m → ((a : A) → Keeps (f a)) → Keeps (m >>= f)
  >>=-Keeps {m} {f} k l = record { apply = λ t h. after t (m t) (k.apply t h) }
    where
      after :
          (t : Tx S) (o : Outcome (Tx S) A)
          → (left o).rollback ≡ true
          → (left (◌>>=◌ (λ _. o) f t)).rollback ≡ true
      after t (returns a u) r = (l a).apply u r
      after t (throws e u) r = r

  pub >>=-Marks : {m : M S A} {f : A → M S B} → Marks m → ((a : A) → Marks (f a)) → Marks (m >>= f)
  >>=-Marks {m} {f} k l = record { apply = λ t u e h. after t u e (m t) (k.apply t) h }
    where
      after :
          (t u : Tx S) (e : DbError) (o : Outcome (Tx S) A)
          → ((w : Tx S) (x : DbError) → o ≡ throws (db_error x) w → w.rollback ≡ true)
          → ◌>>=◌ (λ _. o) f t ≡ throws (db_error e) u
          → u.rollback ≡ true
      after t u e (returns a v) r q = (l a).apply v u e q
      after t u e (throws x v) r q = r u e (cc q)

module _ {S A : Type 0} where
  pub pure-Keeps : (a : A) → Keeps (pure {S = S} a)
  pure-Keeps a = record { apply = λ t h. h }

  pub throw-Keeps : (e : Exception) → Keeps (throw {S = S} {A = A} e)
  throw-Keeps e = record { apply = λ t h. h }

  pub pure-Marks : (a : A) → Marks (pure {S = S} a)
  pure-Marks a = record { apply = λ t u e h. cc }

module _ (pg : Postgres) where
  open pg use {State}

  pub exec-Keeps : (sql : Text) → Keeps (exec pg sql)
  unfolding exec
  exec-Keeps sql = record { apply = λ t h. answered-rollback sql (pg.exec t.session sql) t h }

  pub exec_prepared-Keeps : (s : Text) (vs : List NullableValue) → Keeps (exec_prepared pg s vs)
  unfolding exec_prepared
  exec_prepared-Keeps s vs = record { apply = λ t h. answered-rollback s _ t h }

  answered-Marks : (sql : Text) (r : Reply × State) → Marks (answered sql r)
  unfolding answered
  answered-Marks sql (no_result m, s) = record { apply = λ t u e h. ground arith }
  answered-Marks sql (fatal a b c, s) = record { apply = λ t u e h. ground arith }
  answered-Marks sql (rows x, s) = record { apply = λ t u e h. cc }

  exec-Marks : (sql : Text) → Marks (exec pg sql)
  unfolding exec
  exec-Marks sql = record { apply = λ t. (answered-Marks sql (pg.exec t.session sql)).apply t }

  exec_prepared-Marks : (s : Text) (vs : List NullableValue) → Marks (exec_prepared pg s vs)
  unfolding exec_prepared
  exec_prepared-Marks s vs = record { apply = λ t. (answered-Marks s _).apply t }

  try_insert-Keeps : (s : Text) (vs : List NullableValue) → Keeps (try_insert pg s vs)
  unfolding try_insert
  try_insert-Keeps s vs =
      >>=-Keeps (exec-Keeps _)
        λ _. >>=-Keeps (exec_prepared-Keeps s vs) λ _. >>=-Keeps (exec-Keeps _) λ _. pure-Keeps tt

  try_insert-Marks : (s : Text) (vs : List NullableValue) → Marks (try_insert pg s vs)
  unfolding try_insert
  try_insert-Marks s vs =
      >>=-Marks (exec-Marks _)
        λ _. >>=-Marks (exec_prepared-Marks s vs) λ _. >>=-Marks (exec-Marks _) λ _. pure-Marks tt

  on_failure-Keeps : (e : DbError) → Keeps (on_failure pg e)
  unfolding on_failure
  on_failure-Keeps e = elim (Bool-cases (is_data_exception e)) [
    | inl d ↦ rw d (>>=-Keeps (exec-Keeps _) λ _. pure-Keeps true)
    | inr d ↦ rw d (throw-Keeps _)
  ]

  caught-rollback :
      (o : Outcome (Tx State) (Unit {0}))
      → (left o).rollback ≡ true
      → (left (caught pg o)).rollback ≡ true
  unfolding caught
  caught-rollback (returns a t) h = h
  caught-rollback (throws (db_error e) t) h = (on_failure-Keeps e).apply t h
  caught-rollback (throws (worker_error m) t) h = h
  caught-rollback (throws (runtime_error m) t) h = h
  caught-rollback (throws logic_error t) h = h

  caught-ignored :
      (o : Outcome (Tx State) (Unit {0})) (u : Tx State)
      → ((w : Tx State) (e : DbError) → o ≡ throws (db_error e) w → w.rollback ≡ true)
      → caught pg o ≡ returns true u
      → u.rollback ≡ true
  unfolding caught
  caught-ignored (returns a t) u m h = cc
  caught-ignored (throws (db_error e) t) u m h = rw h at ((on_failure-Keeps e).apply t (m t e refl))
  caught-ignored (throws (worker_error x) t) u m h = cc
  caught-ignored (throws (runtime_error x) t) u m h = cc
  caught-ignored (throws logic_error t) u m h = cc

  insert_feature-Keeps : (p : Plan) (vs : List NullableValue) → Keeps (insert_feature pg p vs)
  unfolding insert_feature
  insert_feature-Keeps p vs = elim (Bool-cases p.ignore_failures) [
    | inl i ↦ rw i (record {
      apply = λ t h.
          caught-rollback (try_insert pg p.statement vs t)
            ((try_insert-Keeps p.statement vs).apply t h);
    })
    | inr i ↦ rw i (>>=-Keeps (exec_prepared-Keeps p.statement vs) λ _. pure-Keeps false)
  ]

  -- A feature that was left out has marked the transaction.
  insert_feature-ignored :
      (p : Plan) (vs : List NullableValue) (t u : Tx State)
      → insert_feature pg p vs t ≡ returns true u
      → u.rollback ≡ true
  unfolding insert_feature
  insert_feature-ignored p vs t u h = elim (Bool-cases p.ignore_failures) [
    | inl i ↦
        caught-ignored (try_insert pg p.statement vs t) u
          ((try_insert-Marks p.statement vs).apply t) (rw (i, insert_feature) at h)
    | inr i ↦
        let (r, v, e1, e2) =
          >>=-eq-returns (exec_prepared pg p.statement vs) (λ _. pure false) t u true
            (rw (i, insert_feature) at h) in
        cc e2
  ]

  or_throw-Keeps : {A : Type 0} (c : Converted A) → Keeps (or_throw pg c)
  or_throw-Keeps (converted a) = pure-Keeps a
  or_throw-Keeps (unsupported m) = throw-Keeps _

  try_insert-Quiet : (s : Text) (vs : List NullableValue) → Quiet (try_insert pg s vs)
  unfolding try_insert
  try_insert-Quiet s vs = >>=-Quiet (exec-Quiet pg _) λ _.
      >>=-Quiet (exec_prepared-Quiet pg s vs) λ _. >>=-Quiet (exec-Quiet pg _) λ _. pure-Quiet tt

  on_failure-ignores : (e : DbError) (t u : Tx State) → on_failure pg e t ≢ returns false u
  unfolding on_failure
  on_failure-ignores e t u h = elim (Bool-cases (is_data_exception e)) [
    | inl d ↦
        let (r, v, e1, e2) =
          >>=-eq-returns (exec pg (codes "rollback to savepoint insertfeature;")) (λ _. pure true) t
            u false (rw (d, on_failure) at h) in
        cc e2
    | inr d ↦ cc (rw (d, on_failure) at h)
  ]

  caught-inserted :
      (o : Outcome (Tx State) (Unit {0})) (b : Bool) (u : Tx State)
      → ((w : Tx State) (x : Unit {0}) → o ≡ returns x w → w.rollback ≡ b)
      → caught pg o ≡ returns false u
      → u.rollback ≡ b
  unfolding caught
  caught-inserted (returns a t) b u m h = cc (m t a refl)
  caught-inserted (throws (db_error e) t) b u m h = absurd (on_failure-ignores e t u h)
  caught-inserted (throws (worker_error x) t) b u m h = cc
  caught-inserted (throws (runtime_error x) t) b u m h = cc
  caught-inserted (throws logic_error t) b u m h = cc

  insert_feature-inserted :
      (p : Plan) (vs : List NullableValue) (t u : Tx State)
      → insert_feature pg p vs t ≡ returns false u
      → u.rollback ≡ t.rollback
  unfolding insert_feature
  insert_feature-inserted p vs t u h = elim (Bool-cases p.ignore_failures) [
    | inl i ↦
        caught-inserted (try_insert pg p.statement vs t) t.rollback u
          (λ w x e. (try_insert-Quiet p.statement vs).apply t w x e) (rw (i, insert_feature) at h)
    | inr i ↦
        (>>=-Quiet (exec_prepared-Quiet pg p.statement vs) λ _. pure-Quiet false).apply t u false
          (rw (i, insert_feature) at h)
  ]

  pub or_throw-Quiet : {A : Type 0} (c : Converted A) → Quiet (or_throw pg c)
  or_throw-Quiet (converted a) = pure-Quiet a
  or_throw-Quiet (unsupported m) = throw-Quiet _

  module _ (tn : OgrFieldType → ℕ) (p : Plan) where
    insert_features-Keeps : (fs : List Feature) (c : Counts) → Keeps (insert_features pg tn p fs c)
    unfolding insert_features
    insert_features-Keeps [] c = pure-Keeps c
    insert_features-Keeps (f ∷ fs) c =
        >>=-Keeps (or_throw-Keeps (feature_values tn p c.pulled f p.insert)) λ vs.
          >>=-Keeps (insert_feature-Keeps p vs)
            λ left_out. insert_features-Keeps fs (counted left_out c)

    -- One round of the loop, taken apart.
    insert_step :
        (f : Feature) (fs : List Feature) (c d : Counts) (t u : Tx State)
        → insert_features pg tn p (f ∷ fs) c t ≡ returns d u
        → (left_out : Bool) × (vs : List NullableValue) × (v w : Tx State) × (v.rollback
            ≡ t.rollback)
          × (insert_feature pg p vs v ≡ returns left_out w)
          × (insert_features pg tn p fs (counted left_out c) w ≡ returns d u)
    unfolding insert_features
    insert_step f fs c d t u h =
        let (vs, v, e1, e2) =
          >>=-eq-returns (or_throw pg (feature_values tn p c.pulled f p.insert)) _ t u d h in
        let (left_out, w, e3, e4) = >>=-eq-returns (insert_feature pg p vs) _ v u d e2 in
        (
          left_out,
          vs,
          v,
          w,
          (or_throw-Quiet (feature_values tn p c.pulled f p.insert)).apply t v vs e1,
          e3,
          e4,
        )

    pub insert_features-pulled :
        (fs : List Feature) (c d : Counts) (t u : Tx State)
        → insert_features pg tn p fs c t ≡ returns d u
        → d.pulled ≡ c.pulled + length fs
    unfolding insert_features
    insert_features-pulled [] c d t u h = ground arith
    insert_features-pulled (f ∷ fs) c d t u h =
        let (left_out, vs, v, w, e0, e1, e2) = insert_step f fs c d t u h in
        ground (arith, insert_features-pulled fs (counted left_out c) d w u e2)

    insert_features-ignored :
        (fs : List Feature) (c d : Counts) (t u : Tx State)
        → insert_features pg tn p fs c t ≡ returns d u
        → c.ignored ≤ d.ignored
    unfolding insert_features
    insert_features-ignored [] c d t u h = ground arith
    insert_features-ignored (f ∷ fs) c d t u h =
        let (left_out, vs, v, w, e0, e1, e2) = insert_step f fs c d t u h in
        grow left_out (insert_features-ignored fs (counted left_out c) d w u e2)
      where
        grow : (left_out : Bool) → (counted left_out c).ignored ≤ d.ignored → c.ignored ≤ d.ignored
        grow true h = omega arith
        grow false h = h

    -- A loop that returns has marked the transaction if it left a feature out, and only then.
    pub insert_features-rollback :
        (fs : List Feature) (c d : Counts) (t u : Tx State)
        → t.rollback ≡ false
        → insert_features pg tn p fs c t ≡ returns d u
        → u.rollback ≡ ltb c.ignored d.ignored
    unfolding insert_features
    insert_features-rollback [] c d t u r h =
        let e : c ≡ d = cc h in let e2 : t ≡ u = cc h in ground (arith, r, e, e2)
    insert_features-rollback (f ∷ fs) c d t u r h =
        let (left_out, vs, v, w, e0, e1, e2) = insert_step f fs c d t u h in
        marked left_out vs v w (e0 ∙ r) e1 e2
          (λ q l. insert_features-rollback fs (counted false c) d w u q l)
      where
        marked :
            (left_out : Bool) (vs : List NullableValue) (v w : Tx State)
            → v.rollback ≡ false
            → insert_feature pg p vs v ≡ returns left_out w
            → insert_features pg tn p fs (counted left_out c) w ≡ returns d u
            → (w.rollback ≡ false
                → insert_features pg tn p fs (counted false c) w ≡ returns d u
                → u.rollback ≡ ltb c.ignored d.ignored)
            → u.rollback ≡ ltb c.ignored d.ignored
        marked true vs v w r' e e2 rest =
            rw e2 at (
              (insert_features-Keeps fs (counted true c)).apply w
                (insert_feature-ignored p vs v w e))
            ∙ sym (
                lt→ltb c.ignored d.ignored
                  (ground (arith, insert_features-ignored fs (counted true c) d w u e2)))
        marked false vs v w r' e e2 rest = rest (insert_feature-inserted p vs v w e ∙ r') e2
