-- ===== src/Json.antt =====
-- The JSON documents that the server reads and writes. The parser and the writer of the bundled
-- rapidjson are parameters where they are used; the tree below is what they exchange with the
-- server: `HasMember` and `operator[]` find the first member of that name.
pub mod Time
use batyr.Prelude.{
  ℕ, zero, suc, ◌+◌, ◌/◌, ◌%◌, Bool, true, false, List, [], ◌∷◌, ◌++◌, Option, none, some, Text,
  codes, text_eq, ◌==◌, ltb, if◌then◌else◌,
}

mutual
  pub data Json : Type 0 where
    null : Json
    boolean : Bool → Json
    number : ℕ → Json
    decimal : Text → Json
    string : Text → Json
    array : Elements → Json
    object : Members → Json

  pub data Elements : Type 0 where
    no_elements : Elements
    element : Json → Elements → Elements

  pub data Members : Type 0 where
    no_members : Members
    member : Text → Json → Members → Members

unfoldable pub find_member : Text → Members → Option Json
find_member name no_members = none
find_member name (member n v rest) = if text_eq n name then some v else find_member name rest

-- A text that is passed on as a `const char *`, as `id.c_str()`, `GetString()` and `e.what()` are:
-- it ends at the first NUL.
unfoldable pub c_str : Text → Text
c_str [] = []
c_str (c ∷ cs) = if c == 0 then [] else c ∷ c_str cs

-- `std::to_string` of a number that is not negative. The fuel `n + 1` is more than its digits.
digits : ℕ → ℕ → Text → Text
digits zero n acc = acc
digits (suc fuel) n acc =
    let rest = digits fuel (n / 10) ((b'0' + n % 10) ∷ acc) in
    if ltb n 10 then (b'0' + n) ∷ acc else rest

unfoldable pub to_string : ℕ → Text
unfolding digits
to_string n = digits (suc n) n []
