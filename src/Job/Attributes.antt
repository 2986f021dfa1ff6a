-- ===== src/Job/Attributes.antt =====
-- Attribute sets as `std::map` keeps them, with texts that a C string can hold.
use batyr.Prelude.{
  ◌≡◌, ◌≢◌, refl, inl, inr, true, false, [], ◌∷◌, ◌++◌, Text, text_eq, text_lt, All, Bool-cases,
  ◌==◌, text_lt-ne, text_lt-asymm, text_lt_trans, text_lt-total, arith,
}
use batyr.Json.{c_str}
use batyr.Job.{NullableValue, null_value, AttributeSet}
use batyr.Job.Request.{assign}

abbrev pub NoNul : Text → Type 0
NoNul = All (λ c. (c == 0) ≡ false)

pub c_str-NoNul : (s : Text) → NoNul (c_str s)
unfolding c_str
c_str-NoNul [] = tt
c_str-NoNul (c ∷ cs) = elim (Bool-cases (c == 0)) [
  | inl z ↦ rw z tt
  | inr z ↦ rw z (z, c_str-NoNul cs)
]

pub c_str_same : (s : Text) → NoNul s → c_str s ≡ s
unfolding c_str
c_str_same [] n = refl
c_str_same (c ∷ cs) n = rw (n.0, c_str_same cs n.1)

-- Every key is greater than `k`.
abbrev pub Above : Text → AttributeSet → Type 0
Above k = All (λ e. text_lt k e.0 ≡ true)

-- Keys ascend strictly.
abbrev pub IsAscending : AttributeSet → Type 0
IsAscending [] = Unit
IsAscending ((k, v) ∷ rest) = Above k rest × IsAscending rest

abbrev pub Printable : Text × NullableValue → Type 0
Printable e = NoNul e.0 × NoNul e.1.value

Above-mono : (j k : Text) (s : AttributeSet) → text_lt j k ≡ true → Above k s → Above j s
Above-mono j k [] h a = tt
Above-mono j k ((i, v) ∷ s) h a = (text_lt_trans j k i h a.0, Above-mono j k s h a.1)

Above-assign :
    (j k : Text) (f : NullableValue → NullableValue) (s : AttributeSet)
    → text_lt j k ≡ true
    → Above j s
    → Above j (assign k f s)
unfolding assign
Above-assign j k f [] h a = (h, tt)
Above-assign j k f ((i, v) ∷ s) h a = ground (arith, Above-assign j k f s h a.1)

-- `operator[]` keeps the order of the keys.
pub assign-IsAscending :
    (k : Text) (f : NullableValue → NullableValue) (s : AttributeSet)
    → IsAscending s
    → IsAscending (assign k f s)
unfolding assign
assign-IsAscending k f [] a = (tt, tt)
assign-IsAscending k f ((j, v) ∷ s) a = elim (Bool-cases (text_eq j k)) [
  | inl e ↦ rw e a
  | inr e ↦ elim (Bool-cases (text_lt k j)) [
    | inl l ↦ rw (e, l) ((l, Above-mono k j s l a.0), a)
    | inr l ↦
        rw (e, l) (Above-assign j k f s (text_lt-total j k e l) a.0, assign-IsAscending k f s a.1)
  ]
]

pub assign-Printable :
    (k : Text) (f : NullableValue → NullableValue) (s : AttributeSet)
    → NoNul k
    → ((v : NullableValue) → NoNul v.value → NoNul (f v).value)
    → All Printable s
    → All Printable (assign k f s)
unfolding assign
assign-Printable k f [] n g a = ((n, g null_value tt), tt)
assign-Printable k f ((j, v) ∷ s) n g a =
    let ih = assign-Printable k f s n g a.1 in
    let changed = g v a.0.1 in
    let fresh = g null_value tt in
    elim (Bool-cases (text_eq j k)) [
      | inl e ↦ rw e ((a.0.0, changed), a.1)
      | inr e ↦ elim (Bool-cases (text_lt k j)) [
        | inl l ↦ rw (e, l) ((n, fresh), a)
        | inr l ↦ rw (e, l) (a.0, ih)
      ]
    ]

pub assign-ne-nil :
    (k : Text) (f : NullableValue → NullableValue) (s : AttributeSet) → assign k f s ≢ []
unfolding assign
assign-ne-nil k f [] e = cc
assign-ne-nil k f ((j, v) ∷ s) e = ground arith

-- A key above all others goes to the end.
pub assign-last :
    (k : Text) (f : NullableValue → NullableValue) (s : AttributeSet)
    → All (λ e. text_lt e.0 k ≡ true) s
    → assign k f s ≡ s ++ (k, f null_value) ∷ []
unfolding assign
assign-last k f [] a = refl
assign-last k f ((j, v) ∷ s) a =
    rw (text_lt-ne j k a.0, text_lt-asymm j k a.0, assign-last k f s a.1)
