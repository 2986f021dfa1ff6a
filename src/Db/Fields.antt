-- ===== src/Db/Fields.antt =====
-- server/db/field.h, `Transaction::getTableFields` and `createTempTable`, and server/db/postgis.cpp.
use batyr.Prelude.{
  ℕ, zero, suc, Bool, false, not, List, [], ◌∷◌, ◌++◌, Option, none, some, Text, codes, text_eq,
  text_lt, is_empty, get_elem?, ℤ, pos, negsuc, leb, ltb_ℤ, if◌then◌else◌,
}
use batyr.Numbers.{atoi}
use batyr.Strings.{split}
use batyr.Db.{plain_error, db_error, Rows, Postgres}
use batyr.Db.Transaction.{M, ◌>>=◌, pure, throw, exec, exec_params}
use batyr.Db.Quiet.{
  Quiet, >>=-Quiet, pure-Quiet, throw-Quiet, if-Quiet, exec-Quiet, exec_params-Quiet,
}
use batyr.Db.Quoting.{
  quote_ident-Quiet, quote_and_join_ident-Quiet, quote_ident, quote_and_join_ident,
}

pub record Field : Type 0 where
  pub name : Text
  pub pg_type_name : Text
  pub pg_type_oid : ℤ
  pub is_primary_key : Bool

-- `std::map<std::string, Field>`, in the order of its iteration.
abbrev pub FieldMap : Type 0
FieldMap = List (Text × Field)

unfoldable pub find_field : Text → FieldMap → Option Field
find_field name [] = none
find_field name ((k, f) ∷ m) = if text_eq k name then some f else find_field name m

unfoldable pub put_field : Text → Field → FieldMap → FieldMap
put_field name f [] = (name, f) ∷ []
put_field name f ((k, g) ∷ m) =
    if text_eq k name
    then (k, f) ∷ m
    else if text_lt name k
    then (name, f) ∷ (k, g) ∷ m
    else (k, g) ∷ put_field name f m

-- `PQgetvalue` of a column that the query selects.
abbrev pub column : ℕ → List Text → Text
column i row = elim (get_elem? row i) [ none ↦ [] | some v ↦ v ]

abbrev field_of_row : List Text → Field
field_of_row row = record {
  name = column 0 row;
  pg_type_name = column 1 row;
  pg_type_oid = atoi (column 2 row);
  is_primary_key = text_eq (column 3 row) (codes "Y");
}

-- Whether `fieldMap[attname]` has been given a name before.
has_name : Option Field → Bool
has_name none = false
has_name (some f) = not (is_empty f.name)

module _ {S : Type 0} where
  -- The loop over the tuples.
  unfoldable pub collect_fields : List (List Text) → FieldMap → M S FieldMap
  unfolding has_name
  collect_fields [] m = pure m
  collect_fields (row ∷ rest) m =
      let next = collect_fields rest (put_field (column 0 row) (field_of_row row) m) in
      if has_name (find_field (column 0 row) m)
      then throw (
          db_error (
            plain_error (
              codes "Tables with multiple columns with the same name are not supported. Column: "
              ++ column 0 row)))
      else next

abbrev table_fields_sql : Text
table_fields_sql =
    codes "select pa.attname, pt.typname, pt.oid, coalesce(is_pk.is_pk, 'N')::text as is_pk"
    ++ (codes " from pg_catalog.pg_attribute pa"
        ++ (codes " join pg_catalog.pg_class pc on pc.oid=pa.attrelid and pa.attnum>0"
            ++ (codes " join pg_catalog.pg_namespace pns on pc.relnamespace = pns.oid"
                ++ (codes " join pg_catalog.pg_type pt on pt.oid=pa.atttypid"
                    ++ (codes " left join ("
                        ++ (codes
                              "    select pcs.conrelid as relid, unnest(conkey) as attnum, 'Y'::text as is_pk "
                            ++ (codes "        from pg_catalog.pg_constraint pcs"
                                ++ (codes "        where pcs.contype = 'p'"
                                    ++ (codes
                                          " ) is_pk on is_pk.relid = pc.oid and is_pk.attnum=pa.attnum"
                                        ++ codes
                                            " where pc.relname = $1::text and pns.nspname = $2::text")))))))))

-- `postgis_lib_version()` by its first three parts.
pub record VersionTuple : Type 0 where
  pub major : ℤ
  pub minor : ℤ
  pub patch : ℤ

part : Option Text → ℤ
part none = pos 0
part (some s) = atoi s

unfoldable pub version_of_text : Text → VersionTuple
unfolding part
version_of_text s =
    let numbers = split s b'.' in
    record {
      major = part (get_elem? numbers 0);
      minor = part (get_elem? numbers 1);
      patch = part (get_elem? numbers 2);
    }

unfoldable pub undefined_srid : VersionTuple → ℤ
undefined_srid v = if ltb_ℤ v.major (pos 2) then negsuc 0 else pos 0

-- `POSTGIS_NO_SRID_FOUND`.
abbrev pub no_srid_found : ℤ
no_srid_found = negsuc 554

-- The loop of `getGeometryColumnSRID`: the last tuple counts.
unfoldable pub last_srid : ℤ → List (List Text) → ℤ
last_srid srid [] = srid
last_srid srid (row ∷ rest) = last_srid (atoi (column 0 row)) rest

abbrev srid_sql : Text
srid_sql =
    codes "select gc.srid::text"
    ++ (codes " from geometry_columns gc"
        ++ (codes " where gc.f_table_schema = $1::text "
            ++ (codes "   and gc.f_table_name = $2::text"
                ++ codes "   and gc.f_geometry_column = $3::text")))

module _ (pg : Postgres) where
  open pg use {State, server_version}

  unfoldable pub get_table_fields : Text → Text → M State FieldMap
  unfolding collect_fields
  get_table_fields schema name = do
    res ← exec_params pg table_fields_sql (some name ∷ some schema ∷ [])
    collect_fields res.tuples []

  first_version : List (List Text) → M State VersionTuple
  first_version [] = throw (db_error (plain_error (codes "postgis_lib_version returned nothing")))
  first_version (row ∷ rest) = pure (version_of_text (column 0 row))

  unfoldable pub get_version : M State VersionTuple
  unfolding first_version
  get_version = do
    res ← exec_params pg (codes "select postgis_lib_version();") []
    first_version res.tuples

  unfoldable pub get_geometry_column_srid : Text → Text → Text → M State ℤ
  get_geometry_column_srid schema table name = do
    res ← exec_params pg srid_sql (some schema ∷ some table ∷ some name ∷ [])
    pure (last_srid no_srid_found res.tuples)

  -- `Connection::getVersion`, where zero stands for a version that libpq does not know.
  known_version : ℕ → M State ℕ
  known_version zero =
      throw (db_error (plain_error (codes "could not determinate postgresql server version")))
  known_version (suc v) = pure (suc v)

  unfoldable pub connection_version : M State ℕ
  unfolding known_version
  connection_version t = known_version (server_version t.session) t

  -- The command that drops the table stands in `exitSqls` before the table is created.
  unfoldable pub create_temp_table : Text → Text → Text → M State Rows
  unfolding connection_version
  create_temp_table schema table temp = do
    q_temp ← quote_ident pg temp
    version ← connection_version
    q_existing ← quote_and_join_ident pg schema table
    let unlogged : Text = if leb 901000 version then codes " unlogged" else []
    λ t.
        exec pg
          (codes "create temporary"
            ++ (unlogged
                ++ (codes " table "
                    ++ (q_temp
                        ++ (codes " as"
                            ++ (codes " select * from"
                                ++ (codes " " ++ (q_existing ++ codes " limit 0"))))))))
          (record t { exit_sqls = t.exit_sqls ++ (codes "drop table if exists " ++ q_temp) ∷ [] })

  collect_fields-Quiet :
      (rs : List (List Text)) (m : FieldMap) → Quiet (collect_fields {S = State} rs m)
  unfolding collect_fields
  collect_fields-Quiet [] m = pure-Quiet m
  collect_fields-Quiet (row ∷ rest) m =
      if-Quiet _ (throw-Quiet _)
        (collect_fields-Quiet rest (put_field (column 0 row) (field_of_row row) m))

  pub get_table_fields-Quiet : (schema name : Text) → Quiet (get_table_fields schema name)
  unfolding get_table_fields
  get_table_fields-Quiet schema name =
      >>=-Quiet (exec_params-Quiet pg _ _) λ res. collect_fields-Quiet res.tuples []

  first_version-Quiet : (rs : List (List Text)) → Quiet (first_version rs)
  unfolding first_version
  first_version-Quiet [] = throw-Quiet _
  first_version-Quiet (row ∷ rest) = pure-Quiet _

  pub get_version-Quiet : Quiet get_version
  unfolding get_version
  get_version-Quiet = >>=-Quiet (exec_params-Quiet pg _ _) λ res. first_version-Quiet res.tuples

  pub get_geometry_column_srid-Quiet :
      (schema table name : Text) → Quiet (get_geometry_column_srid schema table name)
  unfolding get_geometry_column_srid
  get_geometry_column_srid-Quiet schema table name =
      >>=-Quiet (exec_params-Quiet pg _ _) λ res. pure-Quiet _

  known_version-Quiet : (v : ℕ) → Quiet (known_version v)
  unfolding known_version
  known_version-Quiet zero = throw-Quiet _
  known_version-Quiet (suc v) = pure-Quiet _

  pub create_temp_table-Quiet :
      (schema table temp : Text) → Quiet (create_temp_table schema table temp)
  unfolding create_temp_table
  create_temp_table-Quiet schema table temp = >>=-Quiet (quote_ident-Quiet pg temp) λ q_temp.
      >>=-Quiet (record { apply = λ t. (known_version-Quiet (server_version t.session)).apply t })
        λ version.
          >>=-Quiet (quote_and_join_ident-Quiet pg schema table)
            λ q_existing. record { apply = λ t. (exec-Quiet pg _).apply _ }
