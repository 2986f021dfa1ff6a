-- ===== src/Worker/Statements.antt =====
-- The SQL statements of `Worker::pull`.
use batyr.Prelude.{
  ℕ, ◌+◌, List, [], ◌∷◌, ◌++◌, Text, codes, cat, text_eq, map, ℤ, pos, ltb_ℤ, not, ◌||◌,
  if◌then◌else◌,
}
use batyr.Json.{to_string}
use batyr.Strings.{join}
use batyr.Config.{Layer}
use batyr.Db.{Postgres}
use batyr.Db.Transaction.{M, ◌>>=◌, pure}
use batyr.Db.Quiet.{Quiet, >>=-Quiet, pure-Quiet, if-Quiet}
use batyr.Db.Quoting.{
  quote_idents, quote_ident, quote_and_join_ident, quote_idents-Quiet, quote_ident-Quiet,
  quote_and_join_ident-Quiet,
}
use batyr.Worker.Features.Ignored.{or_throw-Quiet}
use batyr.Db.Fields.{FieldMap, VersionTuple, no_srid_found}
use batyr.Worker.{OgrFieldType}
use batyr.Worker.Convert.{to_string_int, get_postgres_type}
use batyr.Worker.Columns.{OgrFieldMap, ogr_field}
use batyr.Worker.Features.{type_name, or_throw}

-- The geometry column of a new row: without an SRID, with an undefined one, and with one that the
-- geometries are brought to.
unfoldable pub geometry_column_value : ℤ → ℤ → ℕ → Text → Text
geometry_column_value srid undefined i type =
    let wkb = cat (codes "$" ∷ to_string i ∷ codes "::text::" ∷ type ∷ []) in
    if not (ltb_ℤ srid no_srid_found || ltb_ℤ no_srid_found srid)
    then wkb
    else if ltb_ℤ (pos 0) srid
    then cat (
        codes "(select case when st_srid(foo.g) = "
        ∷ to_string_int undefined
        ∷ codes " then  st_setsrid(foo.g, "
        ∷ to_string_int srid
        ∷ codes ") else  st_transform(foo.g, "
        ∷ to_string_int srid
        ∷ codes ") end from ( select "
        ∷ wkb
        ∷ codes " as g  ) foo)"
        ∷ [])
    else cat (codes "st_setsrid(" ∷ wkb ∷ codes ", " ∷ to_string_int undefined ∷ codes ")" ∷ [])

-- What is written to the `std::stringstream` of a statement: a text, `quoteIdent`,
-- `quoteAndJoinIdent`, and `StringUtils::join(quoteIdent(names), separator)`.
pub data Piece : Type 0 where
  lit : Text → Piece
  ident : Text → Piece
  qualified : Text → Text → Piece
  idents : List Text → Text → Piece

-- A loop that writes a separator in front of all but the first.
unfoldable pub separated : Text → List (List Piece) → List Piece
separated sep [] = []
separated sep (p ∷ []) = p
separated sep (p ∷ ps) = p ++ (lit sep ∷ separated sep ps)

abbrev target : Layer → Piece
target l = qualified l.target_table_schema l.target_table_name

unfoldable pub insert_query : Text → List Text → List Text → List Piece
insert_query temp columns values =
    lit (codes "insert into ")
    ∷ ident temp
    ∷ lit (codes " (")
    ∷ idents columns (codes ", ")
    ∷ lit (codes ") select ")
    ∷ lit (join values (codes ", "))
    ∷ []

unfoldable pub count_sql : Layer → Text → List Piece
count_sql l key = lit (codes "select count(") ∷ lit key ∷ lit (codes ") from ") ∷ target l ∷ []

unfoldable pub truncate_sql : Layer → List Piece
truncate_sql l = lit (codes "truncate ") ∷ target l ∷ []

unfoldable pub delete_all_sql : Layer → List Piece
delete_all_sql l = lit (codes "delete from ") ∷ target l ∷ []

unfoldable pub insert_all_sql : Layer → Text → List Text → List Piece
insert_all_sql l temp columns =
    lit (codes "insert into ")
    ∷ target l
    ∷ lit (codes " ( ")
    ∷ idents columns (codes ", ")
    ∷ lit (codes ")  select ")
    ∷ idents columns (codes ", ")
    ∷ lit (codes "  from ")
    ∷ ident temp
    ∷ []

unfoldable pub insert_missing_sql : Layer → Text → List Text → List Text → List Piece
unfolding insert_all_sql
insert_missing_sql l temp columns key =
    insert_all_sql l temp columns
    ++ (lit (codes " where (")
        ∷ idents key (codes ", ")
        ∷ lit (codes ") not in ( select ")
        ∷ idents key (codes ",")
        ∷ lit (codes "        from ")
        ∷ target l
        ∷ lit (codes ")")
        ∷ [])

unfoldable pub delete_removed_sql : Layer → Text → List Text → List Piece
delete_removed_sql l temp key =
    lit (codes "delete from ")
    ∷ target l
    ∷ lit (codes " where (")
    ∷ idents key (codes ", ")
    ∷ lit (codes ") not in ( select ")
    ∷ idents key (codes ", ")
    ∷ lit (codes "        from ")
    ∷ ident temp
    ∷ lit (codes ")")
    ∷ []

-- Whether a geometry is a collection, which PostGIS before 2.0 has no function for.
unfoldable pub is_collection_sql : VersionTuple → Piece → Piece → List Piece
is_collection_sql v q_target q_temp =
    if ltb_ℤ v.major (pos 2)
    then lit (codes " or (st_geometrytype(")
      ∷ q_target
      ∷ lit (codes ") = 'ST_GeometryCollection' or st_geometrytype(")
      ∷ q_target
      ∷ lit (codes ") like 'ST_Multi%')  or (st_geometrytype(")
      ∷ q_temp
      ∷ lit (codes ") = 'ST_GeometryCollection' or st_geometrytype(")
      ∷ q_temp
      ∷ lit (codes ") like 'ST_Multi%') ")
      ∷ []
    else lit (codes " or st_iscollection(")
      ∷ q_target
      ∷ lit (codes ")  or st_iscollection(")
      ∷ q_temp
      ∷ lit (codes ") ")
      ∷ []

unfoldable pub geometry_differs_sql : VersionTuple → Piece → Piece → List Piece
unfolding is_collection_sql
geometry_differs_sql v q_target q_temp =
    (lit (codes "(case when (st_srid(")
      ∷ q_target
      ∷ lit (codes ") != st_srid(")
      ∷ q_temp
      ∷ lit (codes ")) ")
      ∷ [])
    ++ (is_collection_sql v q_target q_temp
        ++ (lit (codes "then ")
            ∷ q_target
            ∷ lit (codes "::bytea  is distinct from ")
            ∷ q_temp
            ∷ lit (codes "::bytea  else not st_equals(")
            ∷ q_target
            ∷ lit (codes ", ")
            ∷ q_temp
            ∷ lit (codes ") end )")
            ∷ []))

unfoldable pub differs_sql : Layer → Text → VersionTuple → FieldMap → Text → List Piece
unfolding geometry_differs_sql
differs_sql l temp v table c =
    if text_eq (type_name table c) (codes "geometry")
    then geometry_differs_sql v (qualified l.target_table_name c) (qualified temp c)
    else lit (codes "(")
      ∷ qualified l.target_table_name c
      ∷ lit (codes " is distinct from ")
      ∷ qualified temp c
      ∷ lit (codes ")")
      ∷ []

abbrev assigned : Text → Text → List Piece
assigned temp c = ident c ∷ lit (codes " = ") ∷ qualified temp c ∷ lit (codes " ") ∷ []

abbrev same_key : Layer → Text → Text → List Piece
same_key l temp k =
    qualified l.target_table_name k ∷ lit (codes " is not distinct from ") ∷ qualified temp k ∷ []

unfoldable pub update_sql :
    Layer → Text → VersionTuple → FieldMap → List Text → List Text → List Piece
unfolding separated differs_sql
update_sql l temp v table columns key =
    (lit (codes "update ") ∷ target l ∷ lit (codes "  set ") ∷ [])
    ++ (separated (codes ", ") (map (assigned temp) columns)
        ++ ((lit (codes " from ") ∷ ident temp ∷ lit (codes " where (") ∷ [])
            ++ (separated (codes " and ") (map (same_key l temp) key)
                ++ (lit (codes ") and (")
                    ∷ (separated (codes " or ") (map (differs_sql l temp v table) columns)
                        ++ (lit (codes ")") ∷ []))))))

module _ (pg : Postgres) where
  open pg use {State}

  piece : Piece → M State Text
  piece (lit s) = pure s
  piece (ident s) = quote_ident pg s
  piece (qualified s1 s2) = quote_and_join_ident pg s1 s2
  piece (idents names sep) = do qs ← quote_idents pg names; pure (join qs sep)

  -- The text of a statement.
  unfoldable pub sql_text : List Piece → M State Text
  unfolding piece
  sql_text [] = pure []
  sql_text (p ∷ ps) = do a ← piece p; rest ← sql_text ps; pure (a ++ rest)

  -- `insertQueryValues`, from the column with number `i`.
  unfoldable pub insert_query_values :
      (OgrFieldType → ℕ) → FieldMap → OgrFieldMap → ℤ → ℤ → ℕ → List Text → M State (List Text)
  unfolding geometry_column_value
  insert_query_values tn table fields srid undefined i [] = pure []
  insert_query_values tn table fields srid undefined i (c ∷ cs) = do
    value ←
        if text_eq (type_name table c) (codes "geometry")
        then pure (geometry_column_value srid undefined i (type_name table c))
        else (do
          t ← or_throw pg (get_postgres_type tn (ogr_field fields c).type)
          pure (
              cat (codes "$" ∷ to_string i ∷ codes "::" ∷ t ∷ codes "::" ∷ type_name table c ∷ [])))
    values ← insert_query_values tn table fields srid undefined (i + 1) cs
    pure (value ∷ values)

  piece-Quiet : (p : Piece) → Quiet (piece p)
  unfolding piece
  piece-Quiet (lit s) = pure-Quiet s
  piece-Quiet (ident s) = quote_ident-Quiet pg s
  piece-Quiet (qualified s1 s2) = quote_and_join_ident-Quiet pg s1 s2
  piece-Quiet (idents names sep) = >>=-Quiet (quote_idents-Quiet pg names) λ qs. pure-Quiet _

  pub sql_text-Quiet : (ps : List Piece) → Quiet (sql_text ps)
  unfolding sql_text
  sql_text-Quiet [] = pure-Quiet []
  sql_text-Quiet (p ∷ ps) =
      >>=-Quiet (piece-Quiet p) λ a. >>=-Quiet (sql_text-Quiet ps) λ rest. pure-Quiet _

  pub insert_query_values-Quiet :
      (tn : OgrFieldType → ℕ) (table : FieldMap) (fields : OgrFieldMap) (srid undefined : ℤ) (i : ℕ)
      (cs : List Text)
      → Quiet (insert_query_values tn table fields srid undefined i cs)
  unfolding insert_query_values
  insert_query_values-Quiet tn table fields srid undefined i [] = pure-Quiet []
  insert_query_values-Quiet tn table fields srid undefined i (c ∷ cs) =
      >>=-Quiet
        (if-Quiet (text_eq (type_name table c) (codes "geometry")) (pure-Quiet _) (
          >>=-Quiet (or_throw-Quiet pg (get_postgres_type tn (ogr_field fields c).type))
            λ t. pure-Quiet _))
        λ value.
          >>=-Quiet (insert_query_values-Quiet tn table fields srid undefined (i + 1) cs)
            λ values. pure-Quiet _
