-- ===== src/Prelude/Order.antt =====
-- The order of texts is total and strict.
use mathlib.Core.Path.{◌≡◌, refl}
use mathlib.Core.Bool.{true, false}
use mathlib.Core.List.{[], ◌∷◌}
use native.Mathlib.Omega.{arith}
use batyr.Prelude.Bytes.{Text, text_eq, text_lt}

pub text_lt-ne : (s t : Text) → text_lt s t ≡ true → text_eq s t ≡ false
unfolding text_lt text_eq
text_lt-ne s [] h = cc
text_lt-ne [] (y ∷ ys) h = refl
text_lt-ne (x ∷ xs) (y ∷ ys) h = ground (arith, text_lt-ne xs ys)

pub text_lt-asymm : (s t : Text) → text_lt s t ≡ true → text_lt t s ≡ false
unfolding text_lt
text_lt-asymm s [] h = cc
text_lt-asymm [] (y ∷ ys) h = refl
text_lt-asymm (x ∷ xs) (y ∷ ys) h = ground (arith, text_lt-asymm xs ys)

pub text_lt_trans : (s t u : Text) → text_lt s t ≡ true → text_lt t u ≡ true → text_lt s u ≡ true
unfolding text_lt
text_lt_trans s [] u h k = cc
text_lt_trans s (y ∷ ys) [] h k = cc
text_lt_trans [] (y ∷ ys) (z ∷ zs) h k = refl
text_lt_trans (x ∷ xs) (y ∷ ys) (z ∷ zs) h k = ground (arith, text_lt_trans xs ys zs)

pub text_lt-total : (s t : Text) → text_eq s t ≡ false → text_lt t s ≡ false → text_lt s t ≡ true
unfolding text_lt text_eq
text_lt-total [] [] e h = cc
text_lt-total [] (y ∷ ys) e h = refl
text_lt-total (x ∷ xs) [] e h = cc
text_lt-total (x ∷ xs) (y ∷ ys) e h = ground (arith, text_lt-total xs ys)
