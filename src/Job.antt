-- ===== src/Job.antt =====
-- server/job.h, server/job.cpp and common/nullablevalue.h.
pub mod Request
pub mod Attributes
pub mod Document
pub mod WellFormed
pub mod RoundTrip
pub mod Kept
use Prim.Native.Nat.{ℕ}
use batyr.Prelude.{
  zero, suc, Bool, true, false, not, ◌||◌, List, [], ◌∷◌, ◌++◌, Option, none, some, Text, codes,
  text_eq, text_lt, is_empty, ◌==◌, if◌then◌else◌,
}

-- `NullableValue<std::string>`: the value stays when the flag is set.
pub record NullableValue : Type 0 where
  pub is_null : Bool
  pub value : Text

abbrev pub null_value : NullableValue
null_value = record { is_null = true; value = [] }

pub data JobType : Type 0 where
  pull remove_by_attributes : JobType

pub data Status : Type 0 where
  queued in_process finished failed : Status

-- `std::map<std::string, AttributeValue>`, in the order of its iteration.
abbrev pub AttributeSet : Type 0
AttributeSet = List (Text × NullableValue)

pub record Statistics : Type 0 where
  pub num_created : ℕ
  pub num_updated : ℕ
  pub num_deleted : ℕ
  pub num_pulled : ℕ
  pub num_ignored : ℕ

pub record Job : Type 0 where
  pub type : JobType
  pub message : Text
  pub layer_name : Text
  pub filter : Text
  pub id : Text
  pub status : Status
  pub time_added : ℕ
  pub time_finished : ℕ
  pub attribute_sets : List AttributeSet
  pub statistics : Statistics

abbrev pub no_statistics : Statistics
no_statistics = record {
  num_created = 0;
  num_updated = 0;
  num_deleted = 0;
  num_pulled = 0;
  num_ignored = 0;
}

-- `id.erase(std::remove(id.begin(), id.end(), '-'), id.end())`.
unfoldable pub remove_dashes : Text → Text
remove_dashes [] = []
remove_dashes (c ∷ cs) = if c == b'-' then remove_dashes cs else c ∷ remove_dashes cs

-- The constructor, with the text of the generated UUID and the time. `time_finished` is the epoch
-- until it is set.
unfoldable pub new_job : JobType → Text → ℕ → Job
new_job t uuid now = record {
  type = t;
  message = [];
  layer_name = [];
  filter = [];
  id = remove_dashes uuid;
  status = queued;
  time_added = now;
  time_finished = 0;
  attribute_sets = [];
  statistics = no_statistics;
}

abbrev done_status : Status → Bool
done_status finished = true
done_status failed = true
done_status _ = false

unfoldable pub is_done : Job → Bool
is_done j = done_status j.status

abbrev finish_time : Bool → ℕ → Job → Job
finish_time true now j = record j { time_finished = now }
finish_time false now j = j

unfoldable pub set_status : Status → ℕ → Job → Job
unfolding is_done
set_status s now j = let j' = record j { status = s } in finish_time (is_done j') now j'

unfoldable pub set_message : Text → Job → Job
set_message m j = record j { message = m }

unfoldable pub set_statistics : ℕ → ℕ → ℕ → ℕ → ℕ → Job → Job
set_statistics pulled created updated deleted ignored j = record j {
  statistics = record {
    num_created = created;
    num_updated = updated;
    num_deleted = deleted;
    num_pulled = pulled;
    num_ignored = ignored;
  };
}
