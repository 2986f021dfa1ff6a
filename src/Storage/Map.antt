-- ===== src/Storage/Map.antt =====
-- The map of the jobs by their ids.
use batyr.Prelude.{
  ℕ, ◌≡◌, refl, inl, inr, [], ◌∷◌, none, some, Text, text_eq, text_eq_iff, if◌then◌else◌,
  Bool-cases, arith,
}
use batyr.Storage.{Heap, JobMap, JobStorage, find, put, add_job, get_job}

pub find-put :
    (i id : Text) (p : ℕ) (m : JobMap)
    → find i (put id p m) ≡ (if text_eq id i then some p else find i m)
unfolding find put
find-put i id p [] = refl
find-put i id p ((k, q) ∷ m) =
    ground (arith, text_eq_iff k id, text_eq_iff k i, text_eq_iff id i, find-put i id p m)

-- No key occurs twice.
abbrev pub IsDistinct : JobMap → Type 0
IsDistinct [] = Unit
IsDistinct ((k, p) ∷ m) = (find k m ≡ none) × IsDistinct m

pub put-IsDistinct : (id : Text) (p : ℕ) (m : JobMap) → IsDistinct m → IsDistinct (put id p m)
unfolding put find
put-IsDistinct id p [] d = (refl, tt)
put-IsDistinct id p ((k, q) ∷ m) d = elim (Bool-cases (text_eq k id)) [
  | inl e ↦ rw e d
  | inr e ↦ rw e (
    ground (arith, find-put k id p m, text_eq_iff k id, text_eq_iff id k, d.0),
    put-IsDistinct id p m d.1,
  )
]

-- A job that was added is found by its id; any other id finds what it found before.
pub get_job-add_job :
    (i : Text) (heap : Heap) (p : ℕ) (s : JobStorage)
    → get_job i (add_job heap p s) ≡ (if text_eq (heap p).id i then some p else get_job i s)
unfolding get_job add_job
get_job-add_job i heap p s = find-put i (heap p).id p s.job_map
