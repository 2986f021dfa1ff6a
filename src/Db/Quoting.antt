-- ===== src/Db/Quoting.antt =====
-- `Transaction::quoteIdent` and `quoteAndJoinIdent`, built with `HAVE_PQ_ESCAPE_IDENTIFIER`.
use batyr.Prelude.{List, [], ◌∷◌, ◌++◌, Option, none, some, Text, codes}
use batyr.Strings.{join}
use batyr.Db.{plain_error, db_error, Postgres}
use batyr.Db.Quiet.{Quiet, >>=-Quiet, pure-Quiet, throw-Quiet}
use batyr.Db.Transaction.{M, returns, throws, ◌>>=◌, pure, throw}

module _ (pg : Postgres) where
  open pg use {State, escape_identifier, error_message}

  quoted_or_throw : Text → Option Text → M State Text
  quoted_or_throw s none t =
      throws
        (db_error (
          plain_error (
            codes "quoting sql identifier <"
            ++ (s ++ (codes "> failed: " ++ error_message t.session)))))
        t
  quoted_or_throw s (some q) t = returns q t

  quote_one : Text → M State Text
  unfolding quoted_or_throw
  quote_one s t = quoted_or_throw s (escape_identifier t.session s) t

  unfoldable pub quote_idents : List Text → M State (List Text)
  unfolding quote_one
  quote_idents [] = pure []
  quote_idents (s ∷ ss) = do q ← quote_one s; qs ← quote_idents ss; pure (q ∷ qs)

  single : List Text → M State Text
  single (q ∷ []) = pure q
  single _ =
      throw (db_error (plain_error (codes "Quoted vector should contain excatly one element.")))

  unfoldable pub quote_ident : Text → M State Text
  unfolding quote_idents single
  quote_ident s = do qs ← quote_idents (s ∷ []); single qs

  pair : List Text → M State Text
  pair (p ∷ q ∷ []) = pure (join (p ∷ q ∷ []) (codes "."))
  pair _ =
      throw (db_error (plain_error (codes "Quoted vector should contain exactly two elements.")))

  unfoldable pub quote_and_join_ident : Text → Text → M State Text
  unfolding quote_idents pair
  quote_and_join_ident s1 s2 = do qs ← quote_idents (s1 ∷ s2 ∷ []); pair qs

  quoted_or_throw-Quiet : (s : Text) (q : Option Text) → Quiet (quoted_or_throw s q)
  unfolding quoted_or_throw
  quoted_or_throw-Quiet s none = record { apply = λ t u b h. cc }
  quoted_or_throw-Quiet s (some q) = record { apply = λ t u b h. cc }

  pub quote_idents-Quiet : (ss : List Text) → Quiet (quote_idents ss)
  unfolding quote_idents
  quote_idents-Quiet [] = pure-Quiet []
  quote_idents-Quiet (s ∷ ss) =
      >>=-Quiet (record { apply = λ t. (quoted_or_throw-Quiet s _).apply t })
        λ q. >>=-Quiet (quote_idents-Quiet ss) λ qs. pure-Quiet (q ∷ qs)

  single-Quiet : (qs : List Text) → Quiet (single qs)
  unfolding single
  single-Quiet [] = throw-Quiet _
  single-Quiet (q ∷ []) = pure-Quiet q
  single-Quiet (p ∷ q ∷ qs) = throw-Quiet _

  pair-Quiet : (qs : List Text) → Quiet (pair qs)
  unfolding pair
  pair-Quiet [] = throw-Quiet _
  pair-Quiet (q ∷ []) = throw-Quiet _
  pair-Quiet (p ∷ q ∷ []) = pure-Quiet _
  pair-Quiet (p ∷ q ∷ r ∷ qs) = throw-Quiet _

  pub quote_ident-Quiet : (s : Text) → Quiet (quote_ident s)
  unfolding quote_ident
  quote_ident-Quiet s = >>=-Quiet (quote_idents-Quiet (s ∷ [])) single-Quiet

  pub quote_and_join_ident-Quiet : (s1 s2 : Text) → Quiet (quote_and_join_ident s1 s2)
  unfolding quote_and_join_ident
  quote_and_join_ident-Quiet s1 s2 = >>=-Quiet (quote_idents-Quiet (s1 ∷ s2 ∷ [])) pair-Quiet
