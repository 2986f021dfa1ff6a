-- ===== src/Ini.antt =====
-- common/iniparser.h and common/iniparser.cpp: the parser of the configuration file.
pub mod Ends
pub mod Tree
pub mod Levels
pub mod Lines
use batyr.Prelude.{
  ℕ, zero, suc, ◌+◌, ◌-◌, Bool, true, false, ◌||◌, List, [], ◌∷◌, ◌++◌, Option, none, some, Text,
  codes, cat, is_empty, length, take, drop, ltb, ◌==◌, if◌then◌else◌,
}
use batyr.Maps.{Map, lookup, insert}
use batyr.Json.{to_string}
use batyr.Strings.{trim, blanks, substr, find}

-- A `Level`, at an address of the store. `ordered_values` and `ordered_sections` hold the keys that
-- their iterators point to.
pub record Level : Type 0 where
  pub values : Map Text
  pub sections : Map ℕ
  pub ordered_values : List Text
  pub ordered_sections : List Text
  pub parent : Option ℕ
  pub depth : ℕ

abbrev pub new_level : Level
new_level = record {
  values = [];
  sections = [];
  ordered_values = [];
  ordered_sections = [];
  parent = none;
  depth = 0;
}

-- The levels that there are; the addresses from `next` on are free.
pub record Store : Type 0 where
  pub next : ℕ
  pub level : ℕ → Level

-- A change of the level at an address.
unfoldable pub write : ℕ → Level → (ℕ → Level) → ℕ → Level
write a l levels b = if b == a then l else levels b

-- The members of `Parser` and the variables of the innermost call of `parse`: the level `l` and
-- `lastKey`. A call that has read a section marker leaves the rest of the stream to the call for that
-- section, and ends when that ends.
pub record Parser : Type 0 where
  pub store : Store
  pub current : ℕ
  pub last_key : Text
  pub ln : ℕ

abbrev pub top : ℕ
top = 0

abbrev pub new_parser : Parser
new_parser = record {
  store = record { next = 1; level = λ a. new_level };
  current = top;
  last_key = [];
  ln = 0;
}

-- What a function ends with: a value, a `std::runtime_error`, or the use of a null pointer.
pub data Result (A : Type 0) : Type 0 where
  null_pointer : Result A
  runtime_error : Text → Result A
  done : A → Result A

infixl 5 ◌>>=◌
abbrev pub ◌>>=◌ : {A B : Type 0} → Result A → (A → Result B) → Result B
null_pointer >>= k = null_pointer
runtime_error m >>= k = runtime_error m
done a >>= k = k a

abbrev pub err : {A : Type 0} → Text → Parser → Result A
err s p = runtime_error (cat (s ∷ codes " on line " ∷ to_string p.ln ∷ []))

-- A change of the current level.
abbrev pub write_current : Level → Parser → Parser
write_current l p = record p { store = record p.store { level = write p.current l p.store.level } }

abbrev pub current_level : Parser → Level
current_level p = p.store.level p.current

or_empty : Option Text → Text
or_empty none = []
or_empty (some v) = v

-- A line that begins with a "+".
unfoldable pub append_line : Text → Parser → Result Parser
unfolding or_empty
append_line line p =
    let l = current_level p in
    let old = or_empty (lookup p.last_key l.values) in
    if is_empty p.last_key
    then err (codes "no key to append to") p
    else done (
        write_current
          (record l { values = insert p.last_key (old ++ (codes "\n" ++ drop 1 line)) l.values }) p)

-- The number of "[" at the beginning.
unfoldable pub count_open : Text → ℕ
count_open [] = 0
count_open (c ∷ cs) = if c == b'[' then suc (count_open cs) else 0

-- `for (size_t i=0; i<n; ++i) lp = lp->parent;`, where `none` is a null pointer.
unfoldable pub climb : (ℕ → Level) → ℕ → Option ℕ → Option ℕ
climb levels zero lp = lp
climb levels (suc n) none = none
climb levels (suc n) (some a) = climb levels n (levels a).parent

-- The parent of a new section at the given depth. The difference is never negative here, since
-- the depth exceeds that of the current level by one at most.
unfoldable pub section_parent : ℕ → Parser → Option ℕ
unfolding climb
section_parent depth p =
    let l = current_level p in
    if l.depth == depth - 1 then some p.current else climb p.store.level (l.depth - depth) l.parent

-- The address of `sections[name]`, and the store after a level was made where there was none.
unfoldable pub section_level : Text → ℕ → Option ℕ → Store → ℕ × Store
section_level name parent (some a) s = (a, s)
section_level name parent none s =
    let l = s.level parent in
    (
      s.next,
      record {
        next = suc s.next;
        level =
            write s.next new_level
              (write parent (record l { sections = insert name s.next l.sections }) s.level);
      },
    )

abbrev set_parent : ℕ → ℕ → Option ℕ → Level → Level
set_parent depth parent none l = record l { depth = depth; parent = some parent }
set_parent depth parent (some a) l = l

-- The call of `parse` for the section at `a`, after its parent has noted its name.
unfoldable pub enter_level : Text → ℕ → ℕ → Parser → ℕ × Store → Result Parser
enter_level name depth parent p (a, s) =
    let l = s.level a in
    let linked = write a (set_parent depth parent l.parent l) s.level in
    let q = linked parent in
    if l.depth == 0
    then done (record p {
      store = record s {
        level =
            write parent (record q { ordered_sections = q.ordered_sections ++ name ∷ [] }) linked;
      };
      current = a;
      last_key = [];
    })
    else err (codes "duplicate section name on the same level") p

unfoldable pub enter_section : Text → ℕ → Parser → Option ℕ → Result Parser
unfolding section_level enter_level
enter_section name depth p none = null_pointer
enter_section name depth p (some parent) =
    enter_level name depth parent p
      (section_level name parent (lookup name (p.store.level parent).sections) p.store)

abbrev pub section_chars : Text
section_chars = codes "\n\t []\r"

-- A line that begins with "[".
unfoldable pub section_line : Text → Parser → Result Parser
unfolding section_parent enter_section count_open
section_line line p =
    let depth = count_open line in
    if ltb ((current_level p).depth + 1) depth
    then err (codes "section with wrong depth") p
    else enter_section (trim line section_chars) depth p (section_parent depth p)

-- `values.insert` refuses a key that is there.
unfoldable pub insert_value : Text → Text → Parser → Option Text → Result Parser
insert_value key value p (some old) = err (codes "duplicated key found") p
insert_value key value p none =
    let l = current_level p in
    done
      (record (write_current
        (record l {
          values = insert key value l.values;
          ordered_values = l.ordered_values ++ key ∷ [];
        })
        p) { last_key = key })

unfoldable pub split_value : Text → Parser → Option ℕ → Result Parser
unfolding insert_value
split_value line p none = err (codes "no '=' found") p
split_value line p (some n) =
    let key = trim (substr line 0 n) blanks in
    insert_value key (trim (drop (suc n) line) blanks) p (lookup key (current_level p).values)

-- Any other line, which has a key and a value.
unfoldable pub value_line : Text → Parser → Result Parser
unfolding split_value
value_line line p = split_value line p (find line (codes "="))

-- The first character decides.
unfoldable pub dispatch : Text → ℕ → Parser → Result Parser
unfolding append_line section_line value_line
dispatch line c p =
    if c == b'#' || c == b';'
    then done (record p { last_key = [] })
    else if c == b'+'
    then append_line line p
    else if c == b'['
    then section_line line p
    else value_line line p

unfoldable pub content_line : Text → Parser → Result Parser
unfolding dispatch
content_line [] p = done (record p { last_key = [] })
content_line (c ∷ cs) p = dispatch (c ∷ cs) c p

-- A round of the loop, with the line that `getline` read.
unfoldable pub parse_line : Text → Parser → Result Parser
unfolding content_line
parse_line line p = content_line (trim line blanks) (record p { ln = p.ln + 1 })

unfoldable pub parse_lines : List Text → Parser → Result Parser
unfolding parse_line
parse_lines [] p = done p
parse_lines (line ∷ lines) p = parse_line line p >>= parse_lines lines

-- The constructor of `Parser`, on the lines of a stream.
unfoldable pub parse : List Text → Result Parser
unfolding parse_lines
parse lines = parse_lines lines new_parser
