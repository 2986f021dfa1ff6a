-- ===== src/Storage/Ordered.antt =====
-- The list of the jobs for clients: all of them, the newest first.
use mathlib.Core.List.{Perm}
use mathlib.Core.List.Perm
use batyr.Prelude.{ℕ, ◌≤◌, inl, inr, List, [], ◌∷◌, map, All, ltb, Bool-cases, arith}
use batyr.Storage.{Heap, JobStorage, insert_newest, sort_newest, get_ordered_jobs}

-- No job behind the address was added later.
abbrev pub NotNewer : Heap → ℕ → List ℕ → Type 0
NotNewer heap p = All (λ q. (heap q).time_added ≤ (heap p).time_added)

abbrev pub IsNewestFirst : Heap → List ℕ → Type 0
IsNewestFirst heap [] = Unit
IsNewestFirst heap (p ∷ ps) = NotNewer heap p ps × IsNewestFirst heap ps

insert_newest-perm : (heap : Heap) (p : ℕ) (ps : List ℕ) → Perm (insert_newest heap p ps) (p ∷ ps)
unfolding insert_newest
insert_newest-perm heap p [] = Perm.refl _
insert_newest-perm heap p (q ∷ ps) =
    elim (Bool-cases (ltb (heap p).time_added (heap q).time_added)) [
      | inl l ↦ rw l (Perm.trans (Perm.cons q (insert_newest-perm heap p ps)) (Perm.swap p q ps))
      | inr l ↦ rw l (Perm.refl _)
    ]

sort_newest-perm : (heap : Heap) (ps : List ℕ) → Perm (sort_newest heap ps) ps
unfolding sort_newest
sort_newest-perm heap [] = Perm.refl _
sort_newest-perm heap (p ∷ ps) =
    Perm.trans (insert_newest-perm heap p (sort_newest heap ps))
      (Perm.cons p (sort_newest-perm heap ps))

NotNewer-mono :
    (heap : Heap) (p q : ℕ) (ps : List ℕ)
    → (heap q).time_added ≤ (heap p).time_added
    → NotNewer heap q ps
    → NotNewer heap p ps
NotNewer-mono heap p q [] h n = tt
NotNewer-mono heap p q (r ∷ ps) h n = (omega arith, NotNewer-mono heap p q ps h n.1)

NotNewer-insert :
    (heap : Heap) (p q : ℕ) (ps : List ℕ)
    → (heap q).time_added ≤ (heap p).time_added
    → NotNewer heap p ps
    → NotNewer heap p (insert_newest heap q ps)
unfolding insert_newest
NotNewer-insert heap p q [] h n = (h, tt)
NotNewer-insert heap p q (r ∷ ps) h n = ground (arith, NotNewer-insert heap p q ps h n.1)

insert-IsNewestFirst :
    (heap : Heap) (p : ℕ) (ps : List ℕ)
    → IsNewestFirst heap ps
    → IsNewestFirst heap (insert_newest heap p ps)
unfolding insert_newest
insert-IsNewestFirst heap p [] s = (tt, tt)
insert-IsNewestFirst heap p (q ∷ ps) s =
    elim (Bool-cases (ltb (heap p).time_added (heap q).time_added)) [
      | inl l ↦
          rw l (NotNewer-insert heap q p ps (ground arith) s.0, insert-IsNewestFirst heap p ps s.1)
      | inr l ↦
          let h : (heap q).time_added ≤ (heap p).time_added = ground arith in
          rw l ((h, NotNewer-mono heap p q ps h s.0), s)
    ]

sort-IsNewestFirst : (heap : Heap) (ps : List ℕ) → IsNewestFirst heap (sort_newest heap ps)
unfolding sort_newest
sort-IsNewestFirst heap [] = tt
sort-IsNewestFirst heap (p ∷ ps) = insert-IsNewestFirst heap p _ (sort-IsNewestFirst heap ps)

-- `getOrderedJobs` lists every stored job once for its entry, the newest first.
pub get_ordered_jobs_lem :
    (heap : Heap) (s : JobStorage)
    → Perm (get_ordered_jobs heap s) (map (λ e. e.1) s.job_map)
      × IsNewestFirst heap (get_ordered_jobs heap s)
unfolding get_ordered_jobs
get_ordered_jobs_lem heap s =
    (sort_newest-perm heap _, sort-IsNewestFirst heap (map (λ e. e.1) s.job_map))
