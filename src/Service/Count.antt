-- ===== src/Service/Count.antt =====
-- How often a job stands in the queue and with the workers.
use batyr.Prelude.{
  ℕ, zero, suc, ◌+◌, ◌≤◌, ◌≡◌, refl, ap, Bool, true, false, ◌&&◌, List, [], ◌∷◌, ◌++◌, some,
  get_elem?, length, ltb, ◌==◌, ==_iff, if◌then◌else◌, arith, Bool-cases, inl, inr,
}
use batyr.Job.{Job, Status, queued, in_process, finished, failed}
use batyr.Storage.{Heap, update}
use batyr.Service.{
  Phase, polling, waiting, left, thrown, holding, connecting, working, killed, closing, set_at,
}

abbrev pub one_if : Bool → ℕ
one_if true = 1
one_if false = 0

-- In a list of addresses.
unfoldable pub occurrences : ℕ → List ℕ → ℕ
occurrences p [] = 0
occurrences p (q ∷ qs) = one_if (q == p) + occurrences p qs

-- With a worker that has got the job and not set its status yet.
abbrev pub just_got : ℕ → Phase → ℕ
just_got p polling = 0
just_got p waiting = 0
just_got p left = 0
just_got p thrown = 0
just_got p (holding q) = one_if (q == p)
just_got p (connecting q n) = 0
just_got p (working q) = 0
just_got p (killed q) = 0
just_got p (closing q r) = 0

-- With a worker that has set its status.
abbrev pub at_work : ℕ → Phase → ℕ
at_work p polling = 0
at_work p waiting = 0
at_work p left = 0
at_work p thrown = 0
at_work p (holding q) = 0
at_work p (connecting q n) = one_if (q == p)
at_work p (working q) = one_if (q == p)
at_work p (killed q) = one_if (q == p)
at_work p (closing q r) = 0

-- A count over all workers.
unfoldable pub total : (Phase → ℕ) → List Phase → ℕ
total f [] = 0
total f (w ∷ ws) = f w + total f ws

abbrev same_status : Status → Status → Bool
same_status queued queued = true
same_status queued in_process = false
same_status queued finished = false
same_status queued failed = false
same_status in_process queued = false
same_status in_process in_process = true
same_status in_process finished = false
same_status in_process failed = false
same_status finished queued = false
same_status finished in_process = false
same_status finished finished = true
same_status finished failed = false
same_status failed queued = false
same_status failed in_process = false
same_status failed finished = false
same_status failed failed = true

-- 1 for a job that there is and that has the status.
abbrev pub has_status : Status → Heap → ℕ → ℕ → ℕ
has_status st heap next p = one_if (ltb p next && same_status st (heap p).status)

pub occurrences-append :
    (p : ℕ) (xs ys : List ℕ) → occurrences p (xs ++ ys) ≡ occurrences p xs + occurrences p ys
unfolding occurrences
occurrences-append p [] ys = omega arith
occurrences-append p (x ∷ xs) ys = omega (arith, occurrences-append p xs ys)

pub total-set_at :
    (f : Phase → ℕ) (i : ℕ) (ws : List Phase) (old new : Phase)
    → get_elem? ws i ≡ some old
    → total f (set_at i new ws) + f old ≡ total f ws + f new
unfolding total set_at
total-set_at f i [] old new e = absurd (cc e)
total-set_at f zero (w ∷ ws) old new e = let same : w ≡ old = cc e in rw same (omega arith)
total-set_at f (suc i) (w ∷ ws) old new e = omega (arith, total-set_at f i ws old new e)

pub total-get :
    (f : Phase → ℕ) (i : ℕ) (ws : List Phase) (old : Phase)
    → get_elem? ws i ≡ some old
    → f old ≤ total f ws
unfolding total
total-get f i [] old e = absurd (cc e)
total-get f zero (w ∷ ws) old e = let same : w ≡ old = cc e in rw same (omega arith)
total-get f (suc i) (w ∷ ws) old e = omega (arith, total-get f i ws old e)

-- Where the count is not 0, a worker makes it so.
pub total-find :
    (f : Phase → ℕ) (ws : List Phase)
    → 1 ≤ total f ws
    → (i : ℕ) × (ph : Phase) × (get_elem? ws i ≡ some ph) × (1 ≤ f ph)
unfolding total
total-find f [] h = absurd (omega (arith, h))
total-find f (w ∷ ws) h = elim (Bool-cases (ltb 0 (f w))) [
  | inl here ↦ (0, w, refl, ground (arith, here))
  | inr there ↦
      let (i, ph, found, one) = total-find f ws (ground (arith, h, there)) in
      (suc i, ph, found, one)
]

pub length-set_at : (i : ℕ) (ph : Phase) (ws : List Phase) → length (set_at i ph ws) ≡ length ws
unfolding set_at
length-set_at i ph [] = refl
length-set_at zero ph (w ∷ ws) = refl
length-set_at (suc i) ph (w ∷ ws) = ap suc (length-set_at i ph ws)

-- A change of the job at `p` changes its own counts only.
pub has_status-update :
    (st : Status) (heap : Heap) (next p : ℕ) (job : Job) (x : ℕ)
    → has_status st (update heap p job) next x ≡ (
        if x == p
        then one_if (ltb p next && same_status st job.status)
        else has_status st heap next x)
unfolding update
has_status-update st heap next p job x = elim (Bool-cases (x == p)) [
  | inl same ↦ rw (same, (==_iff x p).0 same) refl
  | inr other ↦ rw other refl
]

-- A change that keeps the status of the job changes no counts.
pub has_status-same :
    (st : Status) (heap : Heap) (next p : ℕ) (job : Job) (x : ℕ)
    → job.status ≡ (heap p).status
    → has_status st (update heap p job) next x ≡ has_status st heap next x
unfolding update
has_status-same st heap next p job x h = elim (Bool-cases (x == p)) [
  | inl same ↦ rw (same, h, (==_iff x p).0 same) refl
  | inr other ↦ rw other refl
]

-- A larger count has a larger total.
pub total_mono :
    (f g : Phase → ℕ) (ws : List Phase) → ((ph : Phase) → f ph ≤ g ph) → total f ws ≤ total g ws
unfolding total
total_mono f g [] h = omega arith
total_mono f g (w ∷ ws) h = omega (arith, h w, total_mono f g ws h)

-- With a worker that has a job.
abbrev pub has_job : Phase → ℕ
has_job polling = 0
has_job waiting = 0
has_job left = 0
has_job thrown = 0
has_job (holding q) = 1
has_job (connecting q n) = 1
has_job (working q) = 1
has_job (killed q) = 0
has_job (closing q r) = 1

-- A worker whose `run` has returned.
abbrev pub is_left : Phase → ℕ
is_left polling = 0
is_left waiting = 0
is_left left = 1
is_left thrown = 0
is_left (holding q) = 0
is_left (connecting q n) = 0
is_left (working q) = 0
is_left (killed q) = 0
is_left (closing q r) = 0

-- A worker whose `run` was ended by an exception.
abbrev pub is_thrown : Phase → ℕ
is_thrown polling = 0
is_thrown waiting = 0
is_thrown left = 0
is_thrown thrown = 1
is_thrown (holding q) = 0
is_thrown (connecting q n) = 0
is_thrown (working q) = 0
is_thrown (killed q) = 1
is_thrown (closing q r) = 0

pub just_got-has_job : (p : ℕ) (ph : Phase) → just_got p ph ≤ has_job ph
just_got-has_job p polling = omega arith
just_got-has_job p waiting = omega arith
just_got-has_job p left = omega arith
just_got-has_job p thrown = omega arith
just_got-has_job p (holding q) = ground arith
just_got-has_job p (connecting q n) = omega arith
just_got-has_job p (working q) = omega arith
just_got-has_job p (killed q) = omega arith
just_got-has_job p (closing q r) = omega arith

-- A job in process is with a worker that goes on, or with one in whose middle the program ended.
at_work-has_job : (p : ℕ) (ph : Phase) → at_work p ph ≤ has_job ph + is_thrown ph
at_work-has_job p polling = omega arith
at_work-has_job p waiting = omega arith
at_work-has_job p left = omega arith
at_work-has_job p thrown = omega arith
at_work-has_job p (holding q) = omega arith
at_work-has_job p (connecting q n) = ground arith
at_work-has_job p (working q) = ground arith
at_work-has_job p (killed q) = ground arith
at_work-has_job p (closing q r) = omega arith

pub total-at_work :
    (p : ℕ) (ws : List Phase) → total (at_work p) ws ≤ total has_job ws + total is_thrown ws
unfolding total
total-at_work p [] = omega arith
total-at_work p (w ∷ ws) = omega (arith, at_work-has_job p w, total-at_work p ws)

-- With a worker that still writes to the done job.
abbrev pub closes : ℕ → Phase → ℕ
closes p (closing q r) = one_if (q == p)
closes p polling = 0
closes p waiting = 0
closes p left = 0
closes p thrown = 0
closes p (holding q) = 0
closes p (connecting q n) = 0
closes p (working q) = 0
closes p (killed q) = 0

same_status-eq : (a b : Status) → same_status a b ≡ true → b ≡ a
same_status-eq queued queued e = refl
same_status-eq queued in_process e = cc e
same_status-eq queued finished e = cc e
same_status-eq queued failed e = cc e
same_status-eq in_process queued e = cc e
same_status-eq in_process in_process e = refl
same_status-eq in_process finished e = cc e
same_status-eq in_process failed e = cc e
same_status-eq finished queued e = cc e
same_status-eq finished in_process e = cc e
same_status-eq finished finished e = refl
same_status-eq finished failed e = cc e
same_status-eq failed queued e = cc e
same_status-eq failed in_process e = cc e
same_status-eq failed finished e = cc e
same_status-eq failed failed e = refl

pub has_status-eq :
    (st : Status) (heap : Heap) (next p : ℕ) → has_status st heap next p ≡ 1 → (heap p).status ≡ st
has_status-eq st heap next p e = same_status-eq st (heap p).status (ground (arith, e))
