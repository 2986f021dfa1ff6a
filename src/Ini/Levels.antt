-- ===== src/Ini/Levels.antt =====
-- Parser::parse: walking up the levels never meets a null pointer.
use batyr.Prelude.{
  ℕ, suc, ◌+◌, ◌<◌, ◌≤◌, ◌≡◌, refl, true, false, ◌||◌, List, [], ◌∷◌, ◌++◌, Option, none, some,
  Text, codes, is_empty, ltb, ◌==◌, Bool-cases, Option-cases, inl, inr, arith,
}
use batyr.Ini.Ends.{Ends, Ends-bind, Ends-if}
use batyr.Ini.Tree.{Tree, IsParser, Tree-write, section_parent_lem, grown, Tree-grown}
use batyr.Maps.{lookup, All-lookup}
use batyr.Ini.{
  Level, Store, write, Parser, new_parser, done, append_line, section_level, set_parent,
  enter_level, enter_section, section_line, count_open, section_chars, insert_value, split_value,
  value_line, dispatch, content_line, parse_line, parse_lines, parse,
}
use batyr.Strings.{trim, blanks, find}

-- The section at an address, whose level is known to hang below the parent once that is set.
enter_level_lem :
    (name : Text) (depth parent : ℕ) (p : Parser) (a : ℕ) (s : Store)
    → a < s.next
    → Tree (record s {
      level = write a (set_parent depth parent (s.level a).parent (s.level a)) s.level;
    })
    → Ends IsParser (enter_level name depth parent p (a, s))
unfolding enter_level
enter_level_lem name depth parent p a s inside tree =
    let linked = write a (set_parent depth parent (s.level a).parent (s.level a)) s.level in
    elim (Bool-cases ((s.level a).depth == 0)) [
      | inl new ↦ rw new (record {
        tree =
            Tree-write s.next parent
              (record (linked parent) {
                ordered_sections = (linked parent).ordered_sections ++ name ∷ [];
              })
              linked refl refl refl tree;
        inside = inside;
      })
      | inr old ↦ rw old tt
    ]

-- The name of a section that is there already is refused.
enter_level_again :
    (name : Text) (depth parent : ℕ) (p : Parser) (a n : ℕ) (s : Store)
    → (s.level a).depth ≡ suc n
    → Ends IsParser (enter_level name depth parent p (a, s))
unfolding enter_level
enter_level_again name depth parent p a n s deep =
    let old : ((s.level a).depth == 0) ≡ false = ground (arith, deep) in rw old tt

enter_section_lem :
    (name : Text) (depth : ℕ) (p : Parser) (parent : ℕ)
    → IsParser p
    → parent < p.store.next
    → suc (p.store.level parent).depth ≡ depth
    → Ends IsParser (enter_section name depth p (some parent))
unfolding enter_section grown section_level
enter_section_lem name depth p parent ok inside deep =
    let old_level = p.store.level parent in
    elim (Option-cases (lookup name old_level.sections)) [
      | inl new ↦ rw new (
          enter_level_lem name depth parent p p.store.next
            (section_level name parent none p.store).1 (omega arith)
            (Tree-grown p.store.next parent name depth p.store.level inside deep ok.tree))
      | inr (a, old) ↦
          let P =
            λ (e : Text × ℕ). (e.1 < p.store.next) × ((p.store.level e.1).parent ≡ some parent) in
          let child = All-lookup P name a old_level.sections (ok.tree.children parent inside) old in
          rw old (elim (ok.tree.linked a child.0) [
            | inl (orphan, flat) ↦ absurd (cc (orphan, child.1))
            | inr (q, known, up, deeper) ↦
                enter_level_again name depth parent p a (p.store.level q).depth p.store deeper
          ])
    ]

-- A marker has a bracket at least.
section_line_lem :
    (line : Text) (p : Parser)
    → IsParser p
    → 1 ≤ count_open line
    → Ends IsParser (section_line line p)
unfolding section_line
section_line_lem line p ok low =
    let depth = count_open line in
    elim (Bool-cases (ltb ((p.store.level p.current).depth + 1) depth)) [
      | inl wrong ↦ rw wrong tt
      | inr fits ↦
          let (q, found, inside, deep) = section_parent_lem depth p ok low (ground (arith, fits)) in
          rw (fits, found) (enter_section_lem (trim line section_chars) depth p q ok inside deep)
    ]

-- A step that writes the level it is at, and leaves its place, keeps the tree.
current-Tree :
    (p : Parser) (l : Level) (key : Text) (n : ℕ)
    → IsParser p
    → l.parent ≡ (p.store.level p.current).parent
    → l.depth ≡ (p.store.level p.current).depth
    → l.sections ≡ (p.store.level p.current).sections
    → IsParser (record p {
      store = record p.store { level = write p.current l p.store.level };
      last_key = key;
      ln = n;
    })
current-Tree p l key n ok ep ed es = record {
  tree = Tree-write p.store.next p.current l p.store.level ep ed es ok.tree;
  inside = ok.inside;
}

append_line_lem : (line : Text) (p : Parser) → IsParser p → Ends IsParser (append_line line p)
unfolding append_line
append_line_lem line p ok = elim (Bool-cases (is_empty p.last_key)) [
  | inl none_ ↦ rw none_ tt
  | inr key ↦ rw key (current-Tree p _ p.last_key p.ln ok refl refl refl)
]

insert_value_lem :
    (key value : Text) (p : Parser) (found : Option Text)
    → IsParser p
    → Ends IsParser (insert_value key value p found)
unfolding insert_value
insert_value_lem key value p (some old) ok = tt
insert_value_lem key value p none ok = current-Tree p _ key p.ln ok refl refl refl

value_line_lem : (line : Text) (p : Parser) → IsParser p → Ends IsParser (value_line line p)
unfolding value_line split_value
value_line_lem line p ok = elim (Option-cases (find line (codes "="))) [
  | inl e ↦ rw e tt
  | inr (n, e) ↦ rw e (insert_value_lem _ _ p _ ok)
]

count_open_lem : (c : ℕ) (cs : Text) → (c == b'[') ≡ true → 1 ≤ count_open (c ∷ cs)
unfolding count_open
count_open_lem c cs open_ = ground (arith, open_)

dispatch_lem : (c : ℕ) (cs : Text) (p : Parser) → IsParser p → Ends IsParser (dispatch (c ∷ cs) c p)
unfolding dispatch
dispatch_lem c cs p ok =
    Ends-if IsParser (c == b'#' || c == b';') (done (record p { last_key = [] })) _
      (λ comment. record { tree = ok.tree; inside = ok.inside })
      (λ content.
        Ends-if IsParser (c == b'+') (append_line (c ∷ cs) p) _
          (λ plus. append_line_lem (c ∷ cs) p ok)
          (λ other.
            Ends-if IsParser (c == b'[') (section_line (c ∷ cs) p) (value_line (c ∷ cs) p)
              (λ marker. section_line_lem (c ∷ cs) p ok (count_open_lem c cs marker))
              (λ value. value_line_lem (c ∷ cs) p ok)))

content_line_lem : (line : Text) (p : Parser) → IsParser p → Ends IsParser (content_line line p)
unfolding content_line
content_line_lem [] p ok = record { tree = ok.tree; inside = ok.inside }
content_line_lem (c ∷ cs) p ok = dispatch_lem c cs p ok

parse_lines_lem :
    (lines : List Text) (p : Parser) → IsParser p → Ends IsParser (parse_lines lines p)
unfolding parse_lines parse_line
parse_lines_lem [] p ok = ok
parse_lines_lem (line ∷ lines) p ok =
    Ends-bind IsParser IsParser (parse_line line p) (parse_lines lines)
      (content_line_lem (trim line blanks) (record p { ln = p.ln + 1 })
        (record { tree = ok.tree; inside = ok.inside }))
      (parse_lines_lem lines)

-- On every stream the constructor of `Parser` ends with a `std::runtime_error` or a parser; it never
-- follows a null pointer on the way up to an outer section. The parser's levels form a tree: the top
-- has depth 0 and no parent, each other level has one that is one level higher, and every entry of a
-- level's `sections` is a level whose parent is that one.
pub parse-IsParser : (lines : List Text) → Ends IsParser (parse lines)
unfolding parse
parse-IsParser lines = parse_lines_lem lines new_parser (record {
  tree = record {
    root = (refl, refl);
    linked = λ a below. inl (refl, refl);
    children = λ a below. tt;
  };
  inside = omega arith;
})
