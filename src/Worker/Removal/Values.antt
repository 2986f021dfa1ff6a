-- ===== src/Worker/Removal/Values.antt =====
-- The values that a removal sends, and when it sends a command at all.
use mathlib.Core.List.{append_assoc, append-nil}
use batyr.Prelude.{◌≡◌, sym, ap, ◌∙◌, List, [], ◌∷◌, ◌++◌, Text, codes}
use batyr.Config.{Layer}
use batyr.Job.{NullableValue, AttributeSet}
use batyr.Db.{Postgres}
use batyr.Db.Transaction.{Tx, returns}
use batyr.Db.Quiet.{>>=-eq-returns}
use batyr.Db.Quoting.{quote_and_join_ident}
use batyr.Db.Fields.{FieldMap, find_field}
use batyr.Worker.Removal.{Condition, field_or_throw, attribute_conditions, set_conditions}

-- The values of a set, and of all sets, in order.
abbrev set_values : AttributeSet → List NullableValue
set_values [] = []
set_values ((name, v) ∷ rest) = v ∷ set_values rest

abbrev pub all_values : List AttributeSet → List NullableValue
all_values [] = []
all_values (set ∷ sets) = set_values set ++ all_values sets

returns-fst : {S A : Type 0} {a b : A} {s t : S} → returns a s ≡ returns b t → a ≡ b
returns-fst e = cc

module _ (pg : Postgres) where
  open pg use {State}

  attribute_conditions-values :
      (name : Text) (l : Layer) (table : FieldMap) (sep : Text) (set : AttributeSet)
      (vs : List NullableValue) (t u : Tx State) (c : Condition)
      → attribute_conditions pg name l table sep set vs t ≡ returns c u
      → c.values ≡ vs ++ set_values set
  unfolding attribute_conditions
  attribute_conditions-values name l table sep [] vs t u c h =
      sym (ap (λ x. x.values) (returns-fst h)) ∙ sym (append-nil vs)
  attribute_conditions-values name l table sep ((k, v) ∷ rest) vs t u c h =
      let (f, t1, e1, h1) =
        >>=-eq-returns (field_or_throw pg name k (find_field k table)) _ t u c h in
      let (q, t2, e2, h2) =
        >>=-eq-returns (quote_and_join_ident pg l.target_table_name k) _ t1 u c h1 in
      let (d, t3, e3, h3) =
        >>=-eq-returns (attribute_conditions pg name l table (codes " and ") rest (vs ++ v ∷ [])) _
          t2 u c h2 in
      sym (ap (λ x. x.values) (returns-fst h3))
      ∙ attribute_conditions-values name l table (codes " and ") rest (vs ++ v ∷ []) t2 t3 d e3
      ∙ append_assoc vs (v ∷ []) (set_values rest)

  -- The values that the conditions collect are those of all attributes of all sets, in order.
  pub set_conditions-values :
      (name : Text) (l : Layer) (table : FieldMap) (sets : List AttributeSet)
      (vs : List NullableValue) (t u : Tx State) (c : Condition)
      → set_conditions pg name l table sets vs t ≡ returns c u
      → c.values ≡ vs ++ all_values sets
  unfolding set_conditions
  set_conditions-values name l table [] vs t u c h =
      sym (ap (λ x. x.values) (returns-fst h)) ∙ sym (append-nil vs)
  set_conditions-values name l table ([] ∷ sets) vs t u c h =
      set_conditions-values name l table sets vs t u c h
  set_conditions-values name l table ((a ∷ set) ∷ sets) vs t u c h =
      let (d, t1, e1, h1) =
        >>=-eq-returns (attribute_conditions pg name l table [] (a ∷ set) vs) _ t u c h in
      let (d2, t2, e2, h2) =
        >>=-eq-returns (set_conditions pg name l table sets d.values) _ t1 u c h1 in
      sym (ap (λ x. x.values) (returns-fst h2))
      ∙ set_conditions-values name l table sets d.values t1 t2 d2 e2
      ∙ ap (λ vs'. vs' ++ all_values sets)
          (attribute_conditions-values name l table [] (a ∷ set) vs t t1 d e1)
      ∙ append_assoc vs (set_values (a ∷ set)) (all_values sets)
