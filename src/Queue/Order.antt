-- ===== src/Queue/Order.antt =====
-- First in, first out: no item is lost, made up or overtaken.
use mathlib.Core.List.{append_assoc, append-nil}
use batyr.Prelude.{
  ℕ, ◌≡◌, refl, sym, ap, ◌∙◌, Bool, List, [], ◌∷◌, ◌++◌, some, Option-cases, inl, inr, arith,
}
use batyr.Queue.{
  System, Action, calls, runs, wakes, notifies, quitting, polling, pushing, idle, step, run,
}

module _ {ℓ} {A : Type ℓ} where
  -- What was pushed is what was taken, and then what waits.
  abbrev pub IsOrdered : System A → Type ℓ
  IsOrdered s = s.pushed ≡ s.taken ++ s.shared.queue

  runs-IsOrdered :
      (s t : System A) (r : ℕ) (go : Bool) (q : List A)
      → s.ready ≡ r
      → s.shared.continue ≡ go
      → s.shared.queue ≡ q
      → IsOrdered s
      → step s runs ≡ some t
      → IsOrdered t
  unfolding step
  runs-IsOrdered s t r go [] er eg eq h e = ground arith
  runs-IsOrdered s t r go (x ∷ q) er eg eq h e = ground (arith, append_assoc s.taken (x ∷ []) q)

  polling-IsOrdered :
      (s t : System A) (q : List A)
      → s.shared.queue ≡ q
      → IsOrdered s
      → step s polling ≡ some t
      → IsOrdered t
  unfolding step
  polling-IsOrdered s t [] eq h e = ground arith
  polling-IsOrdered s t (x ∷ q) eq h e = ground (arith, append_assoc s.taken (x ∷ []) q)

  pushing-IsOrdered :
      (s t : System A) (x : A) → IsOrdered s → step s (pushing x) ≡ some t → IsOrdered t
  unfolding step
  pushing-IsOrdered s t x h e = ground (arith, append_assoc s.taken s.shared.queue (x ∷ []))

  notifies-IsOrdered :
      (s t : System A) (w n : ℕ)
      → s.waiting ≡ w
      → s.unlocked ≡ n
      → IsOrdered s
      → step s notifies ≡ some t
      → IsOrdered t × (t.pushed ≡ s.pushed)
  unfolding step
  notifies-IsOrdered s t w n ew en h e = (ground arith, ground arith)

  pub step-IsOrdered :
      (s t : System A) (a : Action A) → IsOrdered s → step s a ≡ some t → IsOrdered t
  step-IsOrdered s t runs h e =
      runs-IsOrdered s t s.ready s.shared.continue s.shared.queue refl refl refl h e
  step-IsOrdered s t polling h e = polling-IsOrdered s t s.shared.queue refl h e
  step-IsOrdered s t (pushing x) h e = pushing-IsOrdered s t x h e
  step-IsOrdered s t notifies h e = (notifies-IsOrdered s t s.waiting s.unlocked refl refl h e).0
  step-IsOrdered s t calls h e = unfold step in ground arith
  step-IsOrdered s t wakes h e = unfold step in ground arith
  step-IsOrdered s t quitting h e = unfold step in ground arith

  -- The items that the actions push, in order.
  abbrev pub pushes : List (Action A) → List A
  pushes [] = []
  pushes (pushing x ∷ rest) = x ∷ pushes rest
  pushes (_ ∷ rest) = pushes rest

  pushed_by : (a : Action A) → List A
  pushed_by a = pushes (a ∷ [])

  pushes-cons :
      (a : Action A) (rest : List (Action A)) → pushes (a ∷ rest) ≡ pushed_by a ++ pushes rest
  unfolding pushed_by
  pushes-cons calls rest = refl
  pushes-cons _ rest = refl

  step-pushed :
      (s t : System A) (a : Action A) → step s a ≡ some t → t.pushed ≡ s.pushed ++ pushed_by a
  unfolding step pushed_by
  step-pushed s t calls e = ground (arith, append-nil s.pushed)
  step-pushed s t _ e = ground (arith, append-nil s.pushed)

  pub run-step :
      (s t : System A) (a : Action A) (rest : List (Action A))
      → run s (a ∷ rest) ≡ some t
      → (u : System A) × (step s a ≡ some u) × (run u rest ≡ some t)
  unfolding run
  run-step s t a rest e = elim (Option-cases (step s a)) [
    | inl n ↦ cc (rw (n, run) at e)
    | inr (u, m) ↦ (u, m, rw (m, run) at e)
  ]

  run-IsOrdered :
      (s t : System A) (actions : List (Action A))
      → IsOrdered s
      → run s actions ≡ some t
      → IsOrdered t × (t.pushed ≡ s.pushed ++ pushes actions)
  unfolding run
  run-IsOrdered s t [] h e = (ground arith, ground (arith, append-nil s.pushed))
  run-IsOrdered s t (a ∷ rest) h e =
      let (u, m, n) = run-step s t a rest e in
      let ih = run-IsOrdered u t rest (step-IsOrdered s u a h m) n in
      (
        ih.0,
        ih.1
            ∙ ap (λ p. p ++ pushes rest) (step-pushed s u a m)
            ∙ append_assoc s.pushed (pushed_by a) (pushes rest)
            ∙ ap (◌++◌ s.pushed) (sym (pushes-cons a rest)),
      )

  -- Whatever the producers, the consumers, the quitting thread and spurious wakeups do, the items
  -- that were handed out and then those that still wait are the pushed ones in their order.
  pub run-fifo :
      (actions : List (Action A)) (t : System A)
      → run idle actions ≡ some t
      → pushes actions ≡ t.taken ++ t.shared.queue
  run-fifo actions t e = let ih = run-IsOrdered idle t actions refl e in sym ih.1 ∙ ih.0
