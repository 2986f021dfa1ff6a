-- ===== src/Worker/Pull/Ending.antt =====
-- What a pull that ends without an exception has done to its job and its transaction.
use batyr.Prelude.{
  ℕ, ◌+◌, ◌≡◌, refl, sym, ap, ◌∙◌, Bool, true, false, List, [], ◌++◌, Option, none, some, Text,
  codes, length, ltb, is_empty, arith, if◌then◌else◌,
}
use batyr.Config.{Layer, BulkDeleteMethod, bulk_delete, bulk_truncate}
use batyr.Job.{Job, finished, set_status, set_statistics, is_done}
use batyr.Db.{Rows, Postgres}
use batyr.Db.Transaction.{Tx, Outcome, returns, throws, begin, ending, is_broken, destroy}
use batyr.Db.Quiet.{
  Quiet, >>=-Quiet, >>=-eq-returns, pure-Quiet, throw-Quiet, if-Quiet, exec-Quiet, prepare-Quiet,
}
use batyr.Db.Fields.{
  undefined_srid, get_table_fields-Quiet, get_version-Quiet, get_geometry_column_srid-Quiet,
  create_temp_table-Quiet,
}
use batyr.Worker.{OgrFieldType, Dataset, OgrLayer}
use batyr.Worker.Source.{Opened, opened, failed_to_open, filter_string, open_source}
use batyr.Worker.Columns.{collect_ogr, resolve_columns, Checked, valid, invalid}
use batyr.Worker.Features.Ignored.{insert_features-rollback, insert_features-pulled}
use batyr.Worker.Features.{insert_features}
use batyr.Worker.Statements.{
  count_sql, truncate_sql, delete_all_sql, insert_all_sql, update_sql, insert_missing_sql,
  delete_removed_sql, insert_query, Piece, sql_text-Quiet, insert_query_values-Quiet,
}
use batyr.Worker.Pull.{
  first_key, first_value, count_of, setup, Loaded, Changes, Pulled, checked, run_counted, srid_of,
  load, empty_target, bulk, delete_removed, synchronize, change_target, conclude, after_load,
  with_transaction, pull_from, pull,
}

returns-injective :
    {S A : Type 0} {a b : A} {s t : S} → returns a s ≡ returns b t → (a ≡ b) × (s ≡ t)
returns-injective e = (cc, cc)

zero_plus : (n : ℕ) → 0 + n ≡ n
zero_plus n = omega arith

module _ (pg : Postgres) where
  open pg use {State, transaction_status}

  checked-Quiet : {A : Type 0} (c : Checked A) → Quiet (checked pg c)
  checked-Quiet (valid a) = pure-Quiet a
  checked-Quiet (invalid m) = throw-Quiet _

  run_counted-Quiet : (ps : List Piece) → Quiet (run_counted pg ps)
  unfolding run_counted
  run_counted-Quiet ps =
      >>=-Quiet (sql_text-Quiet pg ps) λ s. >>=-Quiet (exec-Quiet pg s) λ res. pure-Quiet _

  srid_of-Quiet : (l : Layer) (geometry : Text) → Quiet (srid_of pg l geometry)
  unfolding srid_of
  srid_of-Quiet l geometry =
      if-Quiet (is_empty geometry) (pure-Quiet _) (get_geometry_column_srid-Quiet pg _ _ geometry)

  empty_target-Quiet :
      (l : Layer) (m : BulkDeleteMethod) (key : List Text) → Quiet (empty_target pg l m key)
  unfolding empty_target
  empty_target-Quiet l bulk_truncate key =
      >>=-Quiet (sql_text-Quiet pg (count_sql l (first_key key))) λ count.
        >>=-Quiet (exec-Quiet pg count) λ res.
          >>=-Quiet (sql_text-Quiet pg (truncate_sql l))
            λ sql. >>=-Quiet (exec-Quiet pg sql) λ _. pure-Quiet (count_of (first_value res.tuples))
  empty_target-Quiet l bulk_delete key = run_counted-Quiet (delete_all_sql l)

  delete_removed-Quiet :
      (allowed : Bool) (l : Layer) (temp : Text) (key : List Text)
      → Quiet (delete_removed pg allowed l temp key)
  unfolding delete_removed
  delete_removed-Quiet true l temp key = run_counted-Quiet (delete_removed_sql l temp key)
  delete_removed-Quiet false l temp key = pure-Quiet 0

  change_target-Quiet :
      (allowed : Bool) (l : Layer) (temp : Text) (x : Loaded)
      → Quiet (change_target pg allowed l temp x)
  unfolding change_target bulk synchronize
  change_target-Quiet allowed l temp x =
      if-Quiet l.bulk_mode
        (>>=-Quiet (empty_target-Quiet l l.bulk_delete_method x.columns.primary_key) λ deleted.
          >>=-Quiet (run_counted-Quiet (insert_all_sql l temp x.columns.insert))
            λ created. pure-Quiet _)
        (>>=-Quiet
          (run_counted-Quiet
            (update_sql l temp x.version x.table x.columns.update x.columns.primary_key))
          λ updated.
            >>=-Quiet
              (run_counted-Quiet (insert_missing_sql l temp x.columns.insert x.columns.primary_key))
              λ created.
                >>=-Quiet (delete_removed-Quiet allowed l temp x.columns.primary_key)
                  λ deleted. pure-Quiet _)

  setup-Quiet :
      (tn : OgrFieldType → ℕ) (l : Layer) (job : Job) (o : OgrLayer) → Quiet (setup pg tn l job o)
  unfolding setup
  setup-Quiet tn l job o = >>=-Quiet (exec-Quiet pg (codes "set DateStyle to SQL, YMD")) λ _.
      >>=-Quiet (get_version-Quiet pg) λ version.
        >>=-Quiet
          (create_temp_table-Quiet pg l.target_table_schema l.target_table_name
            (codes "batyr_" ++ job.id))
          λ _.
            >>=-Quiet (get_table_fields-Quiet pg l.target_table_schema l.target_table_name) λ table.
              >>=-Quiet
                (checked-Quiet (
                  resolve_columns job.layer_name l.primary_key_columns (collect_ogr 0 o.fields [])
                    o.fid_column table))
                λ columns. >>=-Quiet (srid_of-Quiet l columns.geometry) λ srid.
                  >>=-Quiet
                    (insert_query_values-Quiet pg tn table (collect_ogr 0 o.fields []) srid
                      (undefined_srid version) 1 columns.insert)
                    λ values.
                      >>=-Quiet
                        (sql_text-Quiet pg
                          (insert_query (codes "batyr_" ++ job.id) columns.insert values))
                        λ sql.
                          >>=-Quiet (prepare-Quiet pg (codes "batyr_insert" ++ job.id) sql)
                            λ _. pure-Quiet _

  load-rollback :
      (tn : OgrFieldType → ℕ) (l : Layer) (job : Job) (o : OgrLayer) (t u : Tx State) (x : Loaded)
      → t.rollback ≡ false
      → load pg tn l job o t ≡ returns x u
      → (u.rollback ≡ ltb 0 x.counts.ignored)
        × (x.counts.pulled ≡ length (o.features (filter_string l.filter job.filter)))
  unfolding load
  load-rollback tn l job o t u x r h =
      let (y, v, e1, e2) = >>=-eq-returns (setup pg tn l job o) _ t u x h in
      let (counts, w, e3, e4) =
        >>=-eq-returns
          (insert_features pg tn y.plan (o.features (filter_string l.filter job.filter))
            (record { pulled = 0; ignored = 0 }))
          _ v u x e2 in
      let start : v.rollback ≡ false = (setup-Quiet tn l job o).apply t v y e1 ∙ r in
      let (ex, eu) = returns-injective e4 in
      (
        sym (ap (λ z. z.rollback) eu)
            ∙ insert_features-rollback pg tn y.plan _ _ counts v w start e3
            ∙ ap (λ z. ltb 0 z.counts.ignored) ex,
        sym (ap (λ z. z.counts.pulled) ex)
            ∙ insert_features-pulled pg tn y.plan _ _ counts v w e3
            ∙ zero_plus (length (o.features (filter_string l.filter job.filter))),
      )

  conclude-rollback :
      (now : ℕ) (job : Job) (x : Loaded) (out : Outcome (Tx State) Changes) (b : Bool)
      → ((u : Tx State) (c : Changes) → out ≡ returns c u → u.rollback ≡ b)
      → (conclude pg now job x out).exception ≡ none
      → ((conclude pg now job x out).job.status ≡ finished)
        × ((conclude pg now job x out).job.statistics.num_pulled ≡ x.counts.pulled)
        × ((conclude pg now job x out).job.statistics.num_ignored ≡ x.counts.ignored)
        × (u : Tx State) × ((conclude pg now job x out).transaction ≡ some (destroy pg u))
        × (u.rollback ≡ b)
  unfolding conclude set_status is_done set_statistics
  conclude-rollback now job x (returns c u) b q e = (refl, refl, refl, u, refl, q u c refl)
  conclude-rollback now job x (throws e' u) b q e = cc

  ending_lem :
      (u : Tx State) (marked : Bool)
      → u.rollback ≡ marked
      → ending pg u ≡ (
          if marked
          then codes "rollback;"
          else if is_broken pg (transaction_status u.session)
          then codes "rollback;"
          else codes "commit;")
  unfolding ending
  ending_lem u true h = rw h refl
  ending_lem u false h = rw h refl

  -- The job has finished with each feature read that passes the filter, and its transaction has
  -- been destroyed in a state `u`: the command that ends it.
  pub IsConcluded : Layer → Job → OgrLayer → Pulled State → Type 0
  IsConcluded l job o p =
      (p.job.status ≡ finished)
      × (p.job.statistics.num_pulled ≡ length (o.features (filter_string l.filter job.filter)))
      × (u : Tx State) × (p.transaction ≡ some (destroy pg u))
      × (ending pg u ≡ (
          if ltb 0 p.job.statistics.num_ignored
          then codes "rollback;"
          else if is_broken pg (transaction_status u.session)
          then codes "rollback;"
          else codes "commit;"))

  after_load-IsConcluded :
      (now : ℕ) (allowed : Bool) (l : Layer) (job : Job) (o : OgrLayer)
      (out : Outcome (Tx State) Loaded)
      → ((u : Tx State) (x : Loaded)
          → out ≡ returns x u
          → (u.rollback ≡ ltb 0 x.counts.ignored)
            × (x.counts.pulled ≡ length (o.features (filter_string l.filter job.filter))))
      → (after_load pg now allowed l job out).exception ≡ none
      → IsConcluded l job o (after_load pg now allowed l job out)
  unfolding after_load IsConcluded
  after_load-IsConcluded now allowed l job o (throws x u) q e = cc
  after_load-IsConcluded now allowed l job o (returns x t) q e =
      let (marked, all) = q t x refl in
      let (done, pulled, ignored, u, destroyed, r) =
        conclude-rollback now _ x (change_target pg allowed l (codes "batyr_" ++ job.id) x t)
          t.rollback
          (λ u c h. (change_target-Quiet allowed l (codes "batyr_" ++ job.id) x).apply t u c h) e in
      (done, pulled ∙ all, u, destroyed, ending_lem u _ (r ∙ marked ∙ sym (ap (ltb 0) ignored)))

  with_transaction-IsConcluded :
      (tn : OgrFieldType → ℕ) (now : ℕ) (allowed : Bool) (l : Layer) (job : Job) (o : OgrLayer)
      (out : Outcome (Tx State) Rows)
      → ((u : Tx State) (r : Rows) → out ≡ returns r u → u.rollback ≡ false)
      → (with_transaction pg tn now allowed l job o out).exception ≡ none
      → IsConcluded l job o (with_transaction pg tn now allowed l job o out)
  unfolding with_transaction
  with_transaction-IsConcluded tn now allowed l job o (throws x u) q e = cc
  with_transaction-IsConcluded tn now allowed l job o (returns r t) q e =
      after_load-IsConcluded now allowed l job o (load pg tn l job o t)
        (λ u x h. load-rollback tn l job o t u x (q t r refl) h) e

  begin-rollback :
      (s : State) (u : Tx State) (r : Rows) → begin pg s ≡ returns r u → u.rollback ≡ false
  unfolding begin
  begin-rollback s u r h = (exec-Quiet pg (codes "begin;")).apply _ u r h

  pull_from-IsConcluded :
      (tn : OgrFieldType → ℕ) (now : ℕ) (allowed : Bool) (l : Layer) (job : Job) (s : State)
      (source : Opened OgrLayer)
      → (pull_from pg tn now allowed l job s source).exception ≡ none
      → (o : OgrLayer) × (source ≡ opened o)
        × IsConcluded l job o (pull_from pg tn now allowed l job s source)
  unfolding pull_from
  pull_from-IsConcluded tn now allowed l job s (opened o) e = (
    o,
    refl,
    with_transaction-IsConcluded tn now allowed l job o (begin pg s) (begin-rollback s) e,
  )
  pull_from-IsConcluded tn now allowed l job s (failed_to_open m) e = cc

  -- A pull that ends without an exception has opened its source. Its job is FINISHED, its number of
  -- pulled features is the number of features that pass the filter, and its transaction has been
  -- destroyed: with "rollback;" if the job counts at least one ignored feature or the connection
  -- reports a failed transaction, and with "commit;" if not.
  pub pull-IsConcluded :
      (tn : OgrFieldType → ℕ) (now : ℕ) (l : Layer) (dataset : Option Dataset) (job : Job)
      (s : State)
      → (pull pg tn now l dataset job s).exception ≡ none
      → (o : OgrLayer) × (open_source l (filter_string l.filter job.filter) dataset ≡ opened o)
        × IsConcluded l job o (pull pg tn now l dataset job s)
  unfolding pull
  pull-IsConcluded tn now l dataset job s e =
      pull_from-IsConcluded tn now _ l job s
        (open_source l (filter_string l.filter job.filter) dataset) e
