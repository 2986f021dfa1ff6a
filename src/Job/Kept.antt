-- ===== src/Job/Kept.antt =====
-- Job::fromString: what of a job stays as it was made.
use batyr.Prelude.{◌≡◌, refl, Option, none, some, Text, codes}
use batyr.Json.{Json, null, boolean, number, decimal, string, array, object, Members, find_member}
use batyr.Job.{Job}
use batyr.Job.Request.{
  Result, ok, invalid_argument, ◌>>=◌, read_layer_name, read_filter, read_attribute_sets,
  from_members, from_document, from_string,
}

-- A job that was read has the id and the status of the one that it was read into.
abbrev pub Keeps : Job → Result Job → Type 0
Keeps j (ok k) = (k.id ≡ j.id) × (k.status ≡ j.status)
Keeps j (invalid_argument m) = Unit

bind-Keeps :
    {A : Type 0} (j : Job) (r : Result A) (k : A → Result Job)
    → ((a : A) → Keeps j (k a))
    → Keeps j (r >>= k)
bind-Keeps j (ok a) k h = h a
bind-Keeps j (invalid_argument m) k h = tt

from_members-Keeps : (doc : Members) (j : Job) → Keeps j (from_members doc j)
unfolding from_members
from_members-Keeps doc j =
    bind-Keeps j (read_layer_name (find_member (codes "layerName") doc)) _ (λ layer_name.
      bind-Keeps j (read_filter j.filter (find_member (codes "filter") doc)) _ (λ filter.
        bind-Keeps j
          (read_attribute_sets j.attribute_sets (find_member (codes "attributeSets") doc)) _
          (λ sets. (refl, refl))))

from_document-Keeps : (doc : Option Json) (j : Job) → Keeps j (from_document doc j)
unfolding from_document
from_document-Keeps none j = tt
from_document-Keeps (some null) j = tt
from_document-Keeps (some (boolean b)) j = tt
from_document-Keeps (some (number n)) j = tt
from_document-Keeps (some (decimal t)) j = tt
from_document-Keeps (some (string t)) j = tt
from_document-Keeps (some (array es)) j = tt
from_document-Keeps (some (object members)) j = from_members-Keeps members j

pub from_string-Keeps :
    (parse : Text → Option Json) (text : Text) (j : Job) → Keeps j (from_string parse text j)
unfolding from_string
from_string-Keeps parse text j = from_document-Keeps _ j
