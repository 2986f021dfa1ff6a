-- ===== src/Maps.antt =====
-- `std::map<std::string, V>`: the list of its entries in the order of its iteration.
use batyr.Prelude.{
  ◌≡◌, refl, List, [], ◌∷◌, Option, none, some, Text, text_eq, text_eq_iff, text_eq_refl, text_lt,
  All, if◌then◌else◌, Bool-cases, inl, inr, arith,
}

abbrev pub Map {ℓ} : Type ℓ → Type ℓ
Map V = List (Text × V)

module _ {ℓ} {V : Type ℓ} where
  -- `find`.
  unfoldable pub lookup : Text → Map V → Option V
  lookup k [] = none
  lookup k ((j, v) ∷ m) = if text_eq j k then some v else lookup k m

  -- An assignment to `m[k]`.
  unfoldable pub insert : Text → V → Map V → Map V
  insert k v [] = (k, v) ∷ []
  insert k v ((j, w) ∷ m) =
      if text_eq j k
      then (k, v) ∷ m
      else if text_lt k j
      then (k, v) ∷ (j, w) ∷ m
      else (j, w) ∷ insert k v m

  pub lookup-insert :
      (k j : Text) (v : V) (m : Map V)
      → lookup j (insert k v m) ≡ (if text_eq k j then some v else lookup j m)
  unfolding lookup insert
  lookup-insert k j v [] = refl
  lookup-insert k j v ((i, w) ∷ m) =
      ground (arith, text_eq_iff k j, text_eq_iff i k, text_eq_iff i j, lookup-insert k j v m)

  pub lookup-insert_self : (k : Text) (v : V) (m : Map V) → lookup k (insert k v m) ≡ some v
  lookup-insert_self k v m = rw (lookup-insert k k v m, text_eq_refl k) refl

  -- What holds of all old entries and of the new one holds of all entries.
  pub All-insert {κ} :
      (P : Text × V → Type κ) (k : Text) (v : V) (m : Map V)
      → All P m
      → P (k, v)
      → All P (insert k v m)
  unfolding insert
  All-insert P k v [] all new = (new, tt)
  All-insert P k v ((j, w) ∷ m) all new = elim (Bool-cases (text_eq j k)) [
    | inl same ↦ rw same (new, all.1)
    | inr other ↦ elim (Bool-cases (text_lt k j)) [
      | inl before ↦ rw (other, before) (new, all)
      | inr behind ↦ rw (other, behind) (all.0, All-insert P k v m all.1 new)
    ]
  ]

  -- An entry that is found has what holds of all entries.
  pub All-lookup {κ} :
      (P : Text × V → Type κ) (k : Text) (v : V) (m : Map V)
      → All P m
      → lookup k m ≡ some v
      → P (k, v)
  unfolding lookup
  All-lookup P k v [] all found = cc
  All-lookup P k v ((j, w) ∷ m) all found = elim (Bool-cases (text_eq j k)) [
    | inl same ↦
        let here : some w ≡ some v = rw same at found in
        let value : w ≡ v = cc here in rw ((text_eq_iff j k).0 same, value) at all.0
    | inr other ↦ All-lookup P k v m all.1 (rw other at found)
  ]
