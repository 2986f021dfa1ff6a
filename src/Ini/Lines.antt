-- ===== src/Ini/Lines.antt =====
-- Parser::parse: the lines with a key and a value are read as they were written.
pub mod Read
use mathlib.Core.List.{append_assoc, append-nil}
use batyr.Prelude.{
  ℕ, zero, suc, ◌+◌, ◌<◌, ◌≡◌, ◌≢◌, refl, sym, ap, ◌∙◌, Bool, true, false, ◌||◌, ◌&&◌, List, [],
  ◌∷◌, ◌++◌, map, Option, none, some, Text, codes, has_char, text_eq, text_eq_iff, text_eq_refl,
  length, take, drop, length-append, take-length-append, drop-length-append, ◌==◌, ==_iff,
  if◌then◌else◌, All, Bool-cases, inl, inr, arith,
}
use batyr.Strings.{size_mod, trim, blanks, find, substr}
use batyr.Strings.Split.{Lacks}
use batyr.Strings.Trim.{OnlyOf}
use batyr.Strings.Trim.Padded.{IsClean, trim_padded}
use batyr.Maps.{Map, lookup, insert, lookup-insert}
use batyr.Ini.{
  Level, Store, write, Parser, Result, done, ◌>>=◌, insert_value, split_value, value_line, dispatch,
  content_line, parse_line, parse_lines, current_level,
}

-- A key with its value, and the blanks at the four places around them.
pub record Entry : Type 0 where
  pub key : Text
  pub value : Text
  pub indent : Text
  pub before : Text
  pub behind : Text
  pub trailing : Text

-- The line of an entry.
abbrev pub print : Entry → Text
print e = e.indent ++ ((e.key ++ (e.before ++ b'=' ∷ (e.behind ++ e.value))) ++ e.trailing)

-- The bytes that begin another kind of line.
abbrev pub markers : Text
markers = codes "#;+["

-- An entry that can be written: the key has no "=" and does not begin with a marker, key and value
-- are not empty and have no blank at their ends, and the line is a text of the machine.
pub record IsEntry (e : Entry) : Type 0 where
  pub clean_key : IsClean blanks e.key
  pub clean_value : IsClean blanks e.value
  pub plain : Lacks b'=' e.key
  pub unmarked : has_char markers clean_key.head ≡ false
  pub indent_blank : OnlyOf blanks e.indent
  pub before_blank : OnlyOf blanks e.before
  pub behind_blank : OnlyOf blanks e.behind
  pub trailing_blank : OnlyOf blanks e.trailing
  pub short : length (print e) < size_mod

-- Blanks have no "=".
blank-Lacks : (s : Text) → OnlyOf blanks s → Lacks b'=' s
unfolding has_char
blank-Lacks [] o = tt
blank-Lacks (c ∷ cs) o = (ground (arith, o.0), blank-Lacks cs o.1)

Lacks-append : (c : ℕ) (s t : Text) → Lacks c s → Lacks c t → Lacks c (s ++ t)
Lacks-append c [] t h k = k
Lacks-append c (x ∷ xs) t h k = (h.0, Lacks-append c xs t h.1 k)

find-Lacks : (c : ℕ) (s rest : Text) → Lacks c s → find (s ++ c ∷ rest) (c ∷ []) ≡ some (length s)
unfolding find
find-Lacks c [] rest l = rw ((==_iff c c).1 refl) refl
find-Lacks c (x ∷ xs) rest l = rw (l.0, find-Lacks c xs rest l.1) refl

-- The parser after the line of an entry.
abbrev pub entered : Entry → Parser → Parser
entered e p =
    let l = current_level p in
    record p {
      store = record p.store {
        level =
            write p.current
              (record l {
                values = insert e.key e.value l.values;
                ordered_values = l.ordered_values ++ e.key ∷ [];
              })
              p.store.level;
      };
      last_key = e.key;
      ln = p.ln + 1;
    }

drop-suc : (xs : Text) (c : ℕ) (ys : Text) → drop (suc (length xs)) (xs ++ c ∷ ys) ≡ ys
drop-suc [] c ys = refl
drop-suc (x ∷ xs) c ys = drop-suc xs c ys

-- What is between the blanks at the two ends of the line.
abbrev middle : Entry → Text
middle e = e.key ++ (e.before ++ b'=' ∷ (e.behind ++ e.value))

module _ (e : Entry) (ok : IsEntry e) where
  middle_split : middle e ≡ (e.key ++ e.before) ++ b'=' ∷ (e.behind ++ e.value)
  middle_split = sym (append_assoc e.key e.before (b'=' ∷ (e.behind ++ e.value)))

  middle_short : length (middle e) < size_mod
  middle_short = omega (
    arith,
    ok.short,
    length-append e.indent (middle e ++ e.trailing),
    length-append (middle e) e.trailing,
  )

  middle-IsClean : IsClean blanks (middle e)
  middle-IsClean = record {
    head = ok.clean_key.head;
    rest = ok.clean_key.rest ++ (e.before ++ b'=' ∷ (e.behind ++ e.value));
    begins = ap (λ t. t ++ (e.before ++ b'=' ∷ (e.behind ++ e.value))) ok.clean_key.begins;
    head_kept = ok.clean_key.head_kept;
    front = e.key ++ (e.before ++ b'=' ∷ (e.behind ++ ok.clean_value.front));
    last = ok.clean_value.last;
    ends =
        ap (λ t. e.key ++ (e.before ++ b'=' ∷ (e.behind ++ t))) ok.clean_value.ends
        ∙ simp append_assoc refl;
    last_kept = ok.clean_value.last_kept;
  }

  key_trimmed : trim (e.key ++ e.before) blanks ≡ e.key
  key_trimmed =
      trim_padded blanks [] e.key e.before
        (omega (
          arith,
          middle_short,
          ap length middle_split,
          length-append (e.key ++ e.before) (b'=' ∷ (e.behind ++ e.value)),
        ))
        tt ok.before_blank ok.clean_key

  value_trimmed : trim (e.behind ++ e.value) blanks ≡ e.value
  value_trimmed =
      ap (λ t. trim (e.behind ++ t) blanks) (sym (append-nil e.value))
      ∙ trim_padded blanks e.behind e.value []
          (omega (
            arith,
            middle_short,
            ap length middle_split,
            length-append (e.key ++ e.before) (b'=' ∷ (e.behind ++ e.value)),
            ap length (append-nil e.value),
            length-append e.behind e.value,
            length-append e.behind (e.value ++ []),
          ))
          ok.behind_blank tt ok.clean_value

  found_equals : find (middle e) (codes "=") ≡ some (length (e.key ++ e.before))
  found_equals =
      ap (λ t. find t (codes "=")) middle_split
      ∙ find-Lacks b'=' (e.key ++ e.before) (e.behind ++ e.value)
          (Lacks-append b'=' e.key e.before ok.plain (blank-Lacks e.before ok.before_blank))

  value_line-middle :
      (p : Parser)
      → lookup e.key (current_level p).values ≡ none
      → value_line (middle e) p ≡ insert_value e.key e.value p none
  unfolding value_line split_value
  value_line-middle p new =
      let n = length (e.key ++ e.before) in
      let key : substr (middle e) 0 n ≡ e.key ++ e.before =
        ap (take n) middle_split
        ∙ take-length-append (e.key ++ e.before) (b'=' ∷ (e.behind ++ e.value)) in
      let value : drop (suc n) (middle e) ≡ e.behind ++ e.value =
        ap (drop (suc n)) middle_split ∙ drop-suc (e.key ++ e.before) b'=' (e.behind ++ e.value) in
      rw (found_equals) (rw (key, value) (rw (key_trimmed, value_trimmed) (rw new refl)))

  dispatch_value :
      (line : Text) (c : ℕ) (p : Parser)
      → has_char markers c ≡ false
      → dispatch line c p ≡ value_line line p
  unfolding dispatch has_char
  dispatch_value line c p plain =
      let comment : (c == b'#' || c == b';') ≡ false = ground (arith, plain) in
      let plus : (c == b'+') ≡ false = ground (arith, plain) in
      let section : (c == b'[') ≡ false = ground (arith, plain) in rw (comment, plus, section) refl

  content_line_value :
      (line : Text) (c : ℕ) (cs : Text) (p : Parser)
      → line ≡ c ∷ cs
      → has_char markers c ≡ false
      → content_line line p ≡ value_line line p
  unfolding content_line
  content_line_value line c cs p begins plain = rw begins (dispatch_value (c ∷ cs) c p plain)

  pub parse_line-entered :
      (p : Parser)
      → lookup e.key (current_level p).values ≡ none
      → parse_line (print e) p ≡ done (entered e p)
  unfolding parse_line insert_value
  parse_line-entered p new =
      let next : Parser = record p { ln = p.ln + 1 } in
      let trimmed : trim (print e) blanks ≡ middle e =
        trim_padded blanks e.indent (middle e) e.trailing ok.short ok.indent_blank ok.trailing_blank
          middle-IsClean in
      ap (λ t. content_line t next) trimmed
      ∙ content_line_value (middle e) ok.clean_key.head
          (ok.clean_key.rest ++ (e.before ++ b'=' ∷ (e.behind ++ e.value))) next
          (ap (λ t. t ++ (e.before ++ b'=' ∷ (e.behind ++ e.value))) ok.clean_key.begins)
          ok.unmarked
      ∙ value_line-middle next new
