-- ===== src/Ini/Ends.antt =====
-- What is asked of the three ways in which a function of the configuration ends.
use batyr.Prelude.{◌≡◌, Bool, true, false, if◌then◌else◌, if_lem}
use batyr.Ini.{Result, null_pointer, runtime_error, done, ◌>>=◌}

-- No null pointer, and P of a value.
abbrev pub Ends : {A : Type 0} → (A → Type 0) → Result A → Type 0
Ends P null_pointer = ⊥
Ends P (runtime_error m) = Unit
Ends P (done a) = P a

pub Ends-bind :
    {A B : Type 0} (P : A → Type 0) (Q : B → Type 0) (r : Result A) (k : A → Result B)
    → Ends P r
    → ((a : A) → P a → Ends Q (k a))
    → Ends Q (r >>= k)
Ends-bind P Q null_pointer k h f = h
Ends-bind P Q (runtime_error m) k h f = tt
Ends-bind P Q (done a) k h f = f a h

pub Ends-if :
    {A : Type 0} (P : A → Type 0) (b : Bool) (x y : Result A)
    → (b ≡ true → Ends P x)
    → (b ≡ false → Ends P y)
    → Ends P (if b then x else y)
Ends-if P b x y hx hy = if_lem (Ends P) b x y hx hy
