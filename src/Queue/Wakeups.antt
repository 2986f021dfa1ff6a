-- ===== src/Queue/Wakeups.antt =====
-- No wakeup is lost: a call sleeps in `popWait` only while others answer for the waiting items.
use batyr.Prelude.{
  ◌+◌, ℕ, zero, suc, ◌≤◌, ◌≡◌, ◌≢◌, ◌∙◌, refl, All, ◌⊎◌, inl, Bool, true, false, List, [], ◌∷◌,
  some, length-append, arith,
}
use batyr.Queue.{System, Action, runs, quitting, polling, pushing, idle, step, run, size}
use batyr.Queue.Order.{run-step}

module _ {ℓ} {A : Type ℓ} where
  -- No call sleeps, or `quit` was not called and for each waiting item there is a ready call or a
  -- `notify_one` still to come.
  abbrev pub IsAwake : System A → Type 0
  IsAwake s =
      (s.waiting ≡ 0) ⊎ ((s.shared.continue ≡ true) × (size s.shared ≤ s.ready + s.unlocked))

  runs-IsAwake :
      (s t : System A) (r : ℕ) (go : Bool) (q : List A)
      → s.ready ≡ r
      → s.shared.continue ≡ go
      → s.shared.queue ≡ q
      → IsAwake s
      → step s runs ≡ some t
      → IsAwake t
  unfolding step
  runs-IsAwake s t zero go q er eg eq h e = ground arith
  runs-IsAwake s t (suc r) go [] er eg eq h e = ground arith
  runs-IsAwake s t (suc r) go (x ∷ q) er eg eq h e = ground arith

  polling-IsAwake :
      (s t : System A) (q : List A)
      → s.shared.queue ≡ q
      → IsAwake s
      → step s polling ≡ some t
      → IsAwake t
  unfolding step
  polling-IsAwake s t [] eq h e = ground arith
  polling-IsAwake s t (x ∷ q) eq h e = ground arith

  others-IsAwake :
      (s t : System A) (a : Action A) (w : ℕ)
      → s.waiting ≡ w
      → a ≢ runs
      → a ≢ polling
      → IsAwake s
      → step s a ≡ some t
      → IsAwake t
  unfolding step
  others-IsAwake s t runs w ew r p h e = absurd (r refl)
  others-IsAwake s t polling w ew r p h e = absurd (p refl)
  others-IsAwake s t (pushing x) w ew r p h e =
      ground (arith, length-append s.shared.queue (x ∷ []))
  others-IsAwake s t _ w ew r p h e = ground arith

  step-IsAwake : (s t : System A) (a : Action A) → IsAwake s → step s a ≡ some t → IsAwake t
  step-IsAwake s t runs h e =
      runs-IsAwake s t s.ready s.shared.continue s.shared.queue refl refl refl h e
  step-IsAwake s t polling h e = polling-IsAwake s t s.shared.queue refl h e
  step-IsAwake s t a h e = others-IsAwake s t a s.waiting refl (λ c. cc) (λ c. cc) h e

  run-IsAwake :
      (s t : System A) (actions : List (Action A)) → IsAwake s → run s actions ≡ some t → IsAwake t
  unfolding run
  run-IsAwake s t [] h e = ground arith
  run-IsAwake s t (a ∷ rest) h e =
      let (u, m, n) = run-step s t a rest e in run-IsAwake u t rest (step-IsAwake s u a h m) n

  -- However the threads interleave: while some call of `popWait` sleeps, `quit` has not been
  -- called, and at least as many calls of `popWait` are on their way to the mutex, or calls of `push`
  -- on their way to `notify_one`, as there are items in the queue.
  pub run-wakes :
      (actions : List (Action A)) (t : System A)
      → run idle actions ≡ some t
      → (t.waiting ≡ 0) ⊎ ((t.shared.continue ≡ true) × (size t.shared ≤ t.ready + t.unlocked))
  run-wakes actions t e = run-IsAwake idle t actions (inl refl) e

  abbrev pub Quiet : List (Action A) → Type ℓ
  Quiet = All (λ a. a ≢ polling)

  runs_after_quit :
      (s t : System A) (r : ℕ)
      → s.ready ≡ r
      → s.waiting ≡ 0
      → s.shared.continue ≡ false
      → step s runs ≡ some t
      → (t.waiting ≡ 0) × (t.shared.continue ≡ false) × (t.taken ≡ s.taken)
  unfolding step
  runs_after_quit s t zero er w c e = ground arith
  runs_after_quit s t (suc r) er w c e = ground arith

  step_after_quit :
      (s t : System A) (a : Action A)
      → s.waiting ≡ 0
      → s.shared.continue ≡ false
      → a ≢ polling
      → step s a ≡ some t
      → (t.waiting ≡ 0) × (t.shared.continue ≡ false) × (t.taken ≡ s.taken)
  unfolding step
  step_after_quit s t polling w c p e = absurd (p refl)
  step_after_quit s t runs w c p e = runs_after_quit s t s.ready refl w c e
  step_after_quit s t _ w c p e = ground arith

  run_after_quit :
      (s t : System A) (actions : List (Action A))
      → s.waiting ≡ 0
      → s.shared.continue ≡ false
      → Quiet actions
      → run s actions ≡ some t
      → (t.waiting ≡ 0) × (t.shared.continue ≡ false) × (t.taken ≡ s.taken)
  unfolding run
  run_after_quit s t [] w c q e = (ground arith, ground arith, ground arith)
  run_after_quit s t (a ∷ rest) w c q e =
      let (u, m, n) = run-step s t a rest e in
      let (w', c', k) = step_after_quit s u a w c q.0 m in
      let (w'', c'', k') = run_after_quit u t rest w' c' q.1 n in (w'', c'', k' ∙ k)

  quitting_lem :
      (s t : System A)
      → step s quitting ≡ some t
      → (t.waiting ≡ 0) × (t.shared.continue ≡ false) × (t.taken ≡ s.taken)
  unfolding step
  quitting_lem s t e = (ground arith, ground arith, ground arith)

  -- After `quit`, in any state and whatever the threads do next but `popNoWait`: no call of
  -- `popWait` sleeps, and none hands out an item.
  pub quitting-taken :
      (s t : System A) (actions : List (Action A))
      → Quiet actions
      → run s (quitting ∷ actions) ≡ some t
      → (t.waiting ≡ 0) × (t.shared.continue ≡ false) × (t.taken ≡ s.taken)
  quitting-taken s t actions q e =
      let (u, m, n) = run-step s t quitting actions e in
      let (w, c, k) = quitting_lem s u m in
      let (w', c', k') = run_after_quit u t actions w c q n in (w', c', k' ∙ k)
