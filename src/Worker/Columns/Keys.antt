-- ===== src/Worker/Columns/Keys.antt =====
-- What holds of the columns once the checks of a pull have passed.
use mathlib.Core.Path.{subst}
use batyr.Prelude.{
  ◌≡◌, refl, sym, ap, ◌∙◌, inl, inr, ◌⊎◌, Bool, true, false, ◌||◌, List, [], ◌∷◌, ◌++◌, Text,
  text_eq, text_eq_iff, is_empty, All, All-append, Bool-cases, arith,
}
use batyr.Db.Fields.{Field, FieldMap, find_field}
use batyr.Worker.Columns.{
  OgrFieldMap, found, provides, Columns, Checked, valid, invalid, ◌>>=◌, no_columns, add_key,
  add_geometry, add_provided, sort_columns, check_configured, override_key, missing_keys, check_key,
  resolve_columns,
}

-- The text is an element of the list.
unfoldable pub contains : Text → List Text → Bool
contains t [] = false
contains t (u ∷ us) = text_eq u t || contains t us

pub contains-append :
    (t : Text) (us vs : List Text) → contains t (us ++ vs) ≡ (contains t us || contains t vs)
unfolding contains
contains-append t [] vs = refl
contains-append t (u ∷ us) vs = ground (arith, contains-append t us vs)

pub >>=-eq-valid :
    {A B : Type 0} (m : Checked A) (f : A → Checked B) {b : B}
    → (m >>= f) ≡ valid b
    → (a : A) × (m ≡ valid a) × (f a ≡ valid b)
>>=-eq-valid (valid a) f h = (a, refl, h)
>>=-eq-valid (invalid m) f h = cc

valid-injective : {A : Type 0} {a b : A} → valid a ≡ valid b → a ≡ b
valid-injective e = cc

-- A column of the table stands among the columns to insert if the source provides it.
module _ (layer_name : Text) (fields : OgrFieldMap) (fid : Text) where
  add_provided-contains :
      (f : Field) (c : Columns) (t : Text)
      → contains t c.insert ≡ true
      → contains t (add_provided fields fid f c).insert ≡ true
  unfolding add_provided
  add_provided-contains f c t h = ground (arith, contains-append t c.insert (f.name ∷ []))

  add_provided_self :
      (f : Field) (c : Columns)
      → provides fields fid f.name ≡ true
      → contains f.name (add_provided fields fid f c).insert ≡ true
  unfolding add_provided contains
  add_provided_self f c p =
      ground (arith, contains-append f.name c.insert (f.name ∷ []), text_eq_iff f.name f.name)

  add_geometry-insert :
      (f : Field) (c d : Columns) (t : Text)
      → add_geometry layer_name f (add_key f c) ≡ valid d
      → contains t c.insert ≡ true
      → contains t d.insert ≡ true
  unfolding add_geometry add_key
  add_geometry-insert f c d t e h = ground (arith, contains-append t c.insert (f.name ∷ []))

  add_geometry-key :
      (f : Field) (c d : Columns)
      → add_geometry layer_name f (add_key f c) ≡ valid d
      → (d.primary_key ≡ c.primary_key) ⊎ (d.primary_key ≡ c.primary_key ++ f.name ∷ [])
  unfolding add_geometry add_key
  add_geometry-key f c d e = ground arith

  -- The step of the loop on one field, taken apart.
  sort_step :
      (k : Text) (f : Field) (rest : FieldMap) (c d : Columns)
      → sort_columns layer_name fields fid ((k, f) ∷ rest) c ≡ valid d
      → (e : Columns) × (add_geometry layer_name f (add_key f c) ≡ valid e)
        × (sort_columns layer_name fields fid rest (add_provided fields fid f e) ≡ valid d)
  unfolding sort_columns
  sort_step k f rest c d h = >>=-eq-valid (add_geometry layer_name f (add_key f c)) _ h

  sort_columns-insert :
      (table : FieldMap) (c d : Columns) (t : Text)
      → sort_columns layer_name fields fid table c ≡ valid d
      → contains t c.insert ≡ true
      → contains t d.insert ≡ true
  unfolding sort_columns
  sort_columns-insert [] c d t e h = ground arith
  sort_columns-insert ((k, f) ∷ rest) c d t e h =
      let (g, e1, e2) = sort_step k f rest c d e in
      sort_columns-insert rest (add_provided fields fid f g) d t e2
        (add_provided-contains f g t (add_geometry-insert f c g t e1 h))

  -- The keys of the map are the names of the fields.
  abbrev pub IsNamed : FieldMap → Type 0
  IsNamed = All (λ e. e.1.name ≡ e.0)

  sort_columns-table :
      (table : FieldMap) (c d : Columns) (t : Text)
      → IsNamed table
      → sort_columns layer_name fields fid table c ≡ valid d
      → found (find_field t table) ≡ true
      → provides fields fid t ≡ true
      → contains t d.insert ≡ true
  unfolding find_field
  sort_columns-table [] c d t w e h p = cc
  sort_columns-table ((k, f) ∷ rest) c d t w e h p =
      let (g, e1, e2) = sort_step k f rest c d e in
      elim (Bool-cases (text_eq k t)) [
        | inl same ↦
            let name : f.name ≡ t = w.0 ∙ (text_eq_iff k t).0 same in
            sort_columns-insert rest (add_provided fields fid f g) d t e2 (
              subst (λ x. contains x (add_provided fields fid f g).insert ≡ true) name
                (add_provided_self f g (subst (λ x. provides fields fid x ≡ true) (sym name) p)))
        | inr other ↦
            sort_columns-table rest (add_provided fields fid f g) d t w.1 e2 (rw other at h) p
      ]

  -- Each key column that the source provides is among the columns to insert.
  abbrev IsCovered : List Text → List Text → Type 0
  IsCovered keys insert = All (λ k. provides fields fid k ≡ true → contains k insert ≡ true) keys

  IsCovered-mono :
      (keys us vs : List Text)
      → ((t : Text) → contains t us ≡ true → contains t vs ≡ true)
      → IsCovered keys us
      → IsCovered keys vs
  IsCovered-mono [] us vs m c = tt
  IsCovered-mono (k ∷ keys) us vs m c = (λ p. m k (c.0 p), IsCovered-mono keys us vs m c.1)

  step-IsCovered :
      (f : Field) (c e : Columns)
      → add_geometry layer_name f (add_key f c) ≡ valid e
      → IsCovered c.primary_key c.insert
      → IsCovered e.primary_key (add_provided fields fid f e).insert
  step-IsCovered f c e h v =
      let Covers = λ (ks : List Text). IsCovered ks (add_provided fields fid f e).insert in
      let old =
        IsCovered-mono c.primary_key c.insert (add_provided fields fid f e).insert
          (λ t x. add_provided-contains f e t (add_geometry-insert f c e t h x)) v in
      elim (add_geometry-key f c e h) [
        | inl same ↦ subst Covers (sym same) old
        | inr more ↦
            subst Covers (sym more) (All-append _ c.primary_key _ old (add_provided_self f e, tt))
      ]

  add_provided-key :
      (f : Field) (c : Columns) → (add_provided fields fid f c).primary_key ≡ c.primary_key
  unfolding add_provided
  add_provided-key f c = ground arith

  sort_columns-IsCovered :
      (table : FieldMap) (c d : Columns)
      → sort_columns layer_name fields fid table c ≡ valid d
      → IsCovered c.primary_key c.insert
      → IsCovered d.primary_key d.insert
  unfolding sort_columns
  sort_columns-IsCovered [] c d e v =
      subst (λ x. IsCovered x.primary_key x.insert) (valid-injective e) v
  sort_columns-IsCovered ((k, f) ∷ rest) c d e v =
      let (g, e1, e2) = sort_step k f rest c d e in
      sort_columns-IsCovered rest (add_provided fields fid f g) d e2
        (rw (add_provided-key f g) (step-IsCovered f c g e1 v))

  check_configured-valid :
      (table : FieldMap) (ks r : List Text)
      → check_configured layer_name table ks ≡ valid r
      → (r ≡ ks) × All (λ k. found (find_field k table) ≡ true) ks
  unfolding check_configured
  check_configured-valid table [] r e = (sym (valid-injective e), tt)
  check_configured-valid table (k ∷ ks) r e = elim (Bool-cases (found (find_field k table))) [
    | inl f ↦
        let (ks', e1, e2) =
          >>=-eq-valid (check_configured layer_name table ks) _ (rw (f, check_configured) at e) in
        let (same, all) = check_configured-valid table ks ks' e1 in
        (sym (valid-injective e2) ∙ ap (◌∷◌ k) same, (f, all))
    | inr f ↦ cc (rw (f, check_configured) at e)
  ]

  All-IsCovered :
      (table : FieldMap) (c d : Columns) (ks : List Text)
      → IsNamed table
      → sort_columns layer_name fields fid table c ≡ valid d
      → All (λ k. found (find_field k table) ≡ true) ks
      → IsCovered ks d.insert
  All-IsCovered table c d [] w s a = tt
  All-IsCovered table c d (k ∷ ks) w s a =
      (λ p. sort_columns-table table c d k w s a.0 p, All-IsCovered table c d ks w s a.1)

  -- The configured key, or that of the table.
  override-IsCovered :
      (configured : List Text) (table : FieldMap) (c d e : Columns)
      → IsNamed table
      → sort_columns layer_name fields fid table c ≡ valid d
      → IsCovered d.primary_key d.insert
      → override_key layer_name table configured d ≡ valid e
      → IsCovered e.primary_key e.insert
  unfolding override_key
  override-IsCovered [] table c d e w s v o =
      subst (λ x. IsCovered x.primary_key x.insert) (valid-injective o) v
  override-IsCovered (k ∷ ks) table c d e w s v o =
      let (r, e1, e2) = >>=-eq-valid (check_configured layer_name table (k ∷ ks)) _ o in
      let (same, all) = check_configured-valid table (k ∷ ks) r e1 in
      subst (λ x. IsCovered x.primary_key x.insert) (valid-injective e2)
        (subst (λ x. IsCovered x d.insert) (sym same) (All-IsCovered table c d (k ∷ ks) w s all))

  missing_keys-nil :
      (ks : List Text)
      → is_empty (missing_keys fields fid ks) ≡ true
      → All (λ k. provides fields fid k ≡ true) ks
  unfolding missing_keys
  missing_keys-nil [] e = tt
  missing_keys-nil (k ∷ ks) e = elim (Bool-cases (provides fields fid k)) [
    | inl p ↦ (p, missing_keys-nil ks (rw (p, missing_keys) at e))
    | inr p ↦ cc (rw (p, missing_keys) at e)
  ]

  check_key-valid :
      (c d : Columns)
      → check_key layer_name fields fid c ≡ valid d
      → (d ≡ c)
        × (is_empty c.primary_key ≡ false)
        × (is_empty (missing_keys fields fid c.primary_key) ≡ true)
  unfolding check_key
  check_key-valid c d e = (ground arith, ground arith, ground arith)

  provided-contains :
      (ks insert : List Text)
      → All (λ k. provides fields fid k ≡ true) ks
      → IsCovered ks insert
      → All (λ k. (provides fields fid k ≡ true) × (contains k insert ≡ true)) ks
  provided-contains [] insert p v = tt
  provided-contains (k ∷ ks) insert p v = ((p.0, v.0 p.0), provided-contains ks insert p.1 v.1)

  -- The columns that pass the checks of a pull have a primary key with at least one column; the
  -- source provides each column of the key, and each is among the columns to insert. The map of
  -- the table's fields has the fields under their names.
  pub resolve_columns-keys :
      (configured : List Text) (table : FieldMap) (d : Columns)
      → IsNamed table
      → resolve_columns layer_name configured fields fid table ≡ valid d
      → (is_empty d.primary_key ≡ false)
        × All (λ k. (provides fields fid k ≡ true) × (contains k d.insert ≡ true)) d.primary_key
  unfolding resolve_columns
  resolve_columns-keys configured table d w e =
      let (a, ea, e1) = >>=-eq-valid (sort_columns layer_name fields fid table no_columns) _ e in
      let (b, eb, e2) = >>=-eq-valid (override_key layer_name table configured a) _ e1 in
      let (same, some_key, none_missing) = check_key-valid b d e2 in
      let v =
        override-IsCovered configured table no_columns a b w ea
          (sort_columns-IsCovered table no_columns a ea tt) eb in
      subst
        (λ x.
          (is_empty x.primary_key ≡ false)
          × All (λ k. (provides fields fid k ≡ true) × (contains k x.insert ≡ true)) x.primary_key)
        (sym same)
        (
          some_key,
          provided-contains b.primary_key b.insert (missing_keys-nil b.primary_key none_missing) v,
        )
