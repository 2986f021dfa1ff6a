-- ===== src/Numbers.antt =====
-- The conversions of the C++ library that the program uses: `std::stoi` and `std::atoi`.
use batyr.Prelude.{
  ℕ, zero, suc, ◌+◌, ◌-◌, ◌*◌, ◌^◌, ◌<◌, ◌≡◌, arith, Bool, ◌&&◌, ◌||◌, [], ◌∷◌, Option, none, some,
  Text, ℤ, pos, negsuc, leb, ltb, ◌==◌, if◌then◌else◌,
}

abbrev is_digit : ℕ → Bool
is_digit c = leb b'0' c && leb c b'9'

-- `isspace` in the C locale.
abbrev is_space : ℕ → Bool
is_space c = c == b' ' || leb 9 c && leb c 13

unfoldable pub skip_spaces : Text → Text
skip_spaces [] = []
skip_spaces (c ∷ cs) = if is_space c then skip_spaces cs else c ∷ cs

-- The value of the digits from here on, after those that make up `acc`.
unfoldable pub more_digits : ℕ → Text → ℕ
more_digits acc [] = acc
more_digits acc (c ∷ cs) =
    let next = more_digits (acc * 10 + (c - b'0')) cs in if is_digit c then next else acc

-- At least one digit is wanted.
unfoldable pub magnitude : Text → Option ℕ
unfolding more_digits
magnitude [] = none
magnitude (c ∷ cs) = if is_digit c then some (more_digits (c - b'0') cs) else none

abbrev negate : ℕ → ℤ
negate zero = pos 0
negate (suc n) = negsuc n

abbrev as_pos : Option ℕ → Option ℤ
as_pos none = none
as_pos (some n) = some (pos n)

abbrev as_neg : Option ℕ → Option ℤ
as_neg none = none
as_neg (some n) = some (negate n)

signed : Text → Option ℤ
unfolding magnitude
signed [] = none
signed (c ∷ cs) =
    if c == b'-'
    then as_neg (magnitude cs)
    else if c == b'+'
    then as_pos (magnitude cs)
    else as_pos (magnitude (c ∷ cs))

-- The integer that a text begins with, after spaces; what follows it is ignored.
unfoldable pub read_int : Text → Option ℤ
unfolding skip_spaces signed
read_int s = signed (skip_spaces s)

abbrev pub int_limit : ℕ
int_limit = 2 ^ 31

abbrev in_int : ℤ → Bool
in_int (pos n) = ltb n int_limit
in_int (negsuc n) = ltb n int_limit

abbrev within_int : Option ℤ → Option ℤ
within_int none = none
within_int (some i) = if in_int i then some i else none

-- `none` stands for `std::invalid_argument` and `std::out_of_range`.
unfoldable pub stoi : Text → Option ℤ
unfolding read_int
stoi s = within_int (read_int s)

-- An `int`.
abbrev pub IsInt : ℤ → Type 0
IsInt (pos n) = n < int_limit
IsInt (negsuc n) = n < int_limit

within_int-IsInt : (o : Option ℤ) (i : ℤ) → within_int o ≡ some i → IsInt i
within_int-IsInt none i e = cc
within_int-IsInt (some (pos n)) (pos m) e = ground (arith, e)
within_int-IsInt (some (pos n)) (negsuc m) e = ground (arith, e)
within_int-IsInt (some (negsuc n)) (pos m) e = ground (arith, e)
within_int-IsInt (some (negsuc n)) (negsuc m) e = ground (arith, e)

pub stoi-IsInt : (s : Text) (i : ℤ) → stoi s ≡ some i → IsInt i
unfolding stoi
stoi-IsInt s i e = within_int-IsInt (read_int s) i e

abbrev or_zero : Option ℤ → ℤ
or_zero none = pos 0
or_zero (some i) = i

-- For texts whose value an `int` can hold.
unfoldable pub atoi : Text → ℤ
unfolding read_int
atoi s = or_zero (read_int s)
