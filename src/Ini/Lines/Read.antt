-- ===== src/Ini/Lines/Read.antt =====
-- Parser::parse: many lines with a key and a value.
use mathlib.Core.List.{append_assoc, append-nil}
use batyr.Prelude.{
  ◌+◌, ◌≡◌, refl, sym, ap, ◌∙◌, false, List, [], ◌∷◌, ◌++◌, map, none, some, Text, text_eq,
  text_eq_iff, text_eq_refl, length, ==_iff, All, arith,
}
use batyr.Maps.{Map, lookup, insert, lookup-insert}
use batyr.Ini.{write, Parser, done, ◌>>=◌, parse_lines, current_level}
use batyr.Ini.Lines.{Entry, print, IsEntry, entered, parse_line-entered}

-- No key occurs twice, nor among the values that there are.
abbrev pub AreNew : List Entry → Map Text → Type 0
AreNew [] values = Unit
AreNew (e ∷ es) values = (lookup e.key values ≡ none) × AreNew es (insert e.key e.value values)

-- The level that the parser is at has the values of the entries, in their order behind those that it
-- had, and the lines were counted.
pub record IsRead (es : List Entry) (p q : Parser) : Type 0 where
  pub place : q.current ≡ p.current
  pub values : All (λ e. lookup e.key (current_level q).values ≡ some e.value) es
  pub kept :
      (k v : Text)
      → lookup k (current_level p).values ≡ some v
      → lookup k (current_level q).values ≡ some v
  pub ordered :
      (current_level q).ordered_values ≡ (current_level p).ordered_values ++ map (λ e. e.key) es
  pub counted : q.ln ≡ p.ln + length es

entered-values :
    (e : Entry) (p : Parser)
    → (current_level (entered e p)).values ≡ insert e.key e.value (current_level p).values
unfolding write
entered-values e p = rw ((==_iff p.current p.current).1 refl) refl

entered-ordered :
    (e : Entry) (p : Parser)
    → (current_level (entered e p)).ordered_values ≡ (current_level p).ordered_values ++ e.key ∷ []
unfolding write
entered-ordered e p = rw ((==_iff p.current p.current).1 refl) refl

-- A line keeps the values that there were, whose keys are others.
entered-kept :
    (e : Entry) (p : Parser) (k v : Text)
    → lookup e.key (current_level p).values ≡ none
    → lookup k (current_level p).values ≡ some v
    → lookup k (current_level (entered e p)).values ≡ some v
entered-kept e p k v new old =
    let apart : text_eq e.key k ≡ false = ground (arith, text_eq_iff e.key k, new, old) in
    ap (lookup k) (entered-values e p)
    ∙ lookup-insert e.key k e.value (current_level p).values
    ∙ rw apart old

entered-lookup :
    (e : Entry) (p : Parser) → lookup e.key (current_level (entered e p)).values ≡ some e.value
entered-lookup e p =
    ap (lookup e.key) (entered-values e p)
    ∙ lookup-insert e.key e.key e.value (current_level p).values
    ∙ rw (text_eq_refl e.key) refl

entered-IsRead :
    (e : Entry) (es : List Entry) (p q : Parser)
    → lookup e.key (current_level p).values ≡ none
    → IsRead es (entered e p) q
    → IsRead (e ∷ es) p q
entered-IsRead e es p q new rest = record {
  place = rest.place;
  values = (rest.kept e.key e.value (entered-lookup e p), rest.values);
  kept = λ k v old. rest.kept k v (entered-kept e p k v new old);
  ordered =
      rest.ordered
      ∙ ap (λ t. t ++ map (λ x. x.key) es) (entered-ordered e p)
      ∙ append_assoc (current_level p).ordered_values (e.key ∷ []) (map (λ x. x.key) es);
  counted = omega (arith, rest.counted);
}

-- Lines of entries whose keys are new and distinct, with any blanks around their parts, are all
-- accepted: the level that the parser is at then has each value under its key, keeps the values that it
-- had, and lists the keys in the order of the lines behind those that it listed; the lines are counted.
pub parse_lines-print :
    (es : List Entry) (p : Parser)
    → All IsEntry es
    → AreNew es (current_level p).values
    → (q : Parser) × (parse_lines (map print es) p ≡ done q) × IsRead es p q
unfolding parse_lines
parse_lines-print [] p ok new = (
  p,
  refl,
  record {
    place = refl;
    values = tt;
    kept = λ k v h. h;
    ordered = sym (append-nil (current_level p).ordered_values);
    counted = omega arith;
  },
)
parse_lines-print (e ∷ es) p ok new =
    let (q, read, h) = parse_lines-print es (entered e p) ok.1 (rw (entered-values e p) new.1) in
    (
      q,
      ap (λ r. r >>= parse_lines (map print es)) (parse_line-entered e ok.0 p new.0) ∙ read,
      entered-IsRead e es p q new.0 h,
    )
