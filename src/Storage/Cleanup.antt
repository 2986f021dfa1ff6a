-- ===== src/Storage/Cleanup.antt =====
-- The cleanup thread removes the jobs that are done for long enough, and no others.
use batyr.Prelude.{
  ℕ, ◌+◌, ◌≡◌, ◌<◌, ◌⊎◌, ◌↔◌, refl, inl, inr, true, [], ◌∷◌, Option, none, some, Text, text_eq_iff,
  length, if◌then◌else◌, Bool-cases, arith,
}
use batyr.Job.{Job, Status, queued, in_process, finished, failed, is_done}
use batyr.Storage.{Heap, JobMap, JobStorage, find, clean, cleanup, get_job, is_expired}
use batyr.Storage.Map.{IsDistinct}

abbrev pub unless_expired : Heap → ℕ → ℕ → Option ℕ → Option ℕ
unless_expired heap now age none = none
unless_expired heap now age (some p) = if is_expired now age (heap p) then none else some p

find-none-clean :
    (heap : Heap) (now age : ℕ) (i : Text) (m : JobMap)
    → find i m ≡ none
    → find i (clean heap now age m).0 ≡ none
unfolding find clean
find-none-clean heap now age i [] h = refl
find-none-clean heap now age i ((k, p) ∷ m) h = ground (arith, find-none-clean heap now age i m)

find-clean :
    (heap : Heap) (now age : ℕ) (i : Text) (m : JobMap)
    → IsDistinct m
    → find i (clean heap now age m).0 ≡ unless_expired heap now age (find i m)
unfolding find clean
find-clean heap now age i [] d = refl
find-clean heap now age i ((k, p) ∷ m) d =
    ground (
      arith,
      find-clean heap now age i m d.1,
      find-none-clean heap now age i m,
      text_eq_iff k i,
      d.0,
    )

pub clean-IsDistinct :
    (heap : Heap) (now age : ℕ) (m : JobMap) → IsDistinct m → IsDistinct (clean heap now age m).0
unfolding clean
clean-IsDistinct heap now age [] d = tt
clean-IsDistinct heap now age ((k, p) ∷ m) d = elim (Bool-cases (is_expired now age (heap p))) [
  | inl e ↦ rw e (clean-IsDistinct heap now age m d.1)
  | inr e ↦ rw e (find-none-clean heap now age k m d.0, clean-IsDistinct heap now age m d.1)
]

pub get_job-clean :
    (heap : Heap) (now : ℕ) (i : Text) (s : JobStorage)
    → IsDistinct s.job_map
    → get_job i (cleanup heap now s) ≡ unless_expired heap now s.max_age_done_jobs (get_job i s)
unfolding get_job cleanup
get_job-clean heap now i s d = find-clean heap now s.max_age_done_jobs i s.job_map d

-- The job is FINISHED or FAILED, and more than `age` seconds have passed since its end.
abbrev pub IsOutdated : ℕ → ℕ → Job → Type 0
IsOutdated now age j = ((j.status ≡ finished) ⊎ (j.status ≡ failed)) × (j.time_finished + age < now)

expired-IsOutdated :
    (now age : ℕ) (j : Job) (st : Status)
    → j.status ≡ st
    → is_expired now age j ≡ true
    → IsOutdated now age j
unfolding is_expired is_done
expired-IsOutdated now age j queued e h = ground (arith, e, h)
expired-IsOutdated now age j in_process e h = ground (arith, e, h)
expired-IsOutdated now age j finished e h = (inl e, ground (arith, e, h))
expired-IsOutdated now age j failed e h = (inr e, ground (arith, e, h))

outdated_expired : (now age : ℕ) (j : Job) → IsOutdated now age j → is_expired now age j ≡ true
unfolding is_expired is_done
outdated_expired now age j (inl e, late) = ground (arith, e, late)
outdated_expired now age j (inr e, late) = ground (arith, e, late)

kept_lem :
    (heap : Heap) (now age : ℕ) (found : Option ℕ) (p : ℕ)
    → (unless_expired heap now age found ≡ some p)
      ↔ ((found ≡ some p) × ¬ IsOutdated now age (heap p))
kept_lem heap now age none p = ((λ e. absurd (cc e)), (λ (e, h). absurd (cc e)))
kept_lem heap now age (some q) p = (
  λ e. elim (Bool-cases (is_expired now age (heap q))) [
    | inl x ↦ absurd (cc (rw x at e))
    | inr x ↦
        let same : some q ≡ some p = rw x at e in
        let here : q ≡ p = cc same in
        (same, λ old. cc (rw here at x, outdated_expired now age (heap p) old))
  ],
  λ (e, fresh). elim (Bool-cases (is_expired now age (heap q))) [
    | inl x ↦
        let here : q ≡ p = cc e in
        absurd (fresh (expired-IsOutdated now age (heap p) (heap p).status refl (rw here at x)))
    | inr x ↦ rw x e
  ],
)

-- After a cleanup at the time `now` an id finds a job exactly if it found that job before, and the
-- job is not one that is FINISHED or FAILED with an end that lies more than the maximal age back.
pub get_job-cleanup :
    (heap : Heap) (now : ℕ) (i : Text) (p : ℕ) (s : JobStorage)
    → IsDistinct s.job_map
    → (get_job i (cleanup heap now s) ≡ some p)
      ↔ ((get_job i s ≡ some p) × ¬ IsOutdated now s.max_age_done_jobs (heap p))
get_job-cleanup heap now i p s d =
    rw (get_job-clean heap now i s d) (kept_lem heap now s.max_age_done_jobs (get_job i s) p)

-- The number of removed jobs that the cleanup reports is the number of entries that are gone.
pub clean-length :
    (heap : Heap) (now age : ℕ) (m : JobMap)
    → length (clean heap now age m).0 + (clean heap now age m).1 ≡ length m
unfolding clean
clean-length heap now age [] = omega arith
clean-length heap now age ((k, p) ∷ m) = ground (arith, clean-length heap now age m)

-- A job that waits or is in process does not expire.
pub is_expired_done : (now age : ℕ) (j : Job) → is_expired now age j ≡ true → is_done j ≡ true
unfolding is_expired
is_expired_done now age j h = ground arith
