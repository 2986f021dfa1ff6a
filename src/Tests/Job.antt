-- ===== src/Tests/Job.antt =====
-- Tests for server/job.cpp and server/json.cpp.
use batyr.Prelude.{◌≡◌, refl, [], ◌∷◌, false, codes, text_eq, map}
use batyr.Json.{
  Members, member, object, string, no_members, array, element, no_elements, find_member, c_str,
  to_string,
}
use batyr.Json.Time.{stringify_time}
use batyr.Strings.{trim, blanks}
use batyr.Job.{Job, AttributeSet, new_job, pull, remove_by_attributes}
use batyr.Job.Request.{
  ok, assign, read_attributes, read_sets, read_layer_name, read_filter, read_attribute_sets,
  from_members,
}
use batyr.Job.Document.{to_members}
use batyr.Job.Attributes.{NoNul}
use batyr.Job.WellFormed.{IsReadable, from_members-IsReadable}
use batyr.Job.RoundTrip.{forget_all, from_members-to_members_remove, from_members-to_members-pull}

time_text : stringify_time 1424609071 ≡ codes "2015-02-22T12:44:31Z"
unfolding stringify_time to_string
time_text = refl

number_text : to_string 5040 ≡ codes "5040"
unfolding to_string
number_text = refl

abbrev base : Job
base = new_job remove_by_attributes (codes "a-1") 0

abbrev attributes : AttributeSet
attributes = (codes "k", record { is_null = false; value = codes "v" }) ∷ []

abbrev removal : Job
removal = record base { layer_name = codes "l"; attribute_sets = attributes ∷ [] }

attributes-IsReadable : IsReadable (attributes ∷ [])
attributes-IsReadable =
    (((λ e. cc e), record { ascending = (tt, tt); printable = (((refl, tt), (refl, tt)), tt) }), tt)

from_members-to_members_remove_example :
    from_members (to_members removal) base
    ≡ ok (record base { layer_name = codes "l"; attribute_sets = map forget_all (attributes ∷ []) })
unfolding new_job
from_members-to_members_remove_example =
    from_members-to_members_remove removal base refl refl (refl, tt) attributes-IsReadable

abbrev request : Job
request = record (new_job pull (codes "a-1") 0) { layer_name = codes "l"; filter = codes " x " }

from_members-to_members-pull_example :
    from_members (to_members request) base
    ≡ ok (record base { layer_name = codes "l"; filter = trim (codes " x ") blanks })
unfolding new_job
from_members-to_members-pull_example =
    from_members-to_members-pull request base refl (refl, tt) (refl, (refl, (refl, tt)))

abbrev document : Members
document = member (codes "layerName") (string (codes "l")) (
    member (codes "attributeSets")
      (array (element (object (member (codes "k") (string (codes "v")) no_members)) no_elements))
      no_members)

document_reads : from_members document base ≡ ok removal
unfolding from_members find_member read_layer_name read_filter read_attribute_sets read_sets
    read_attributes assign c_str text_eq new_job
document_reads = refl

from_members-IsReadable_example :
    NoNul removal.layer_name
    × IsReadable removal.attribute_sets
    × (removal ≡ record base {
      layer_name = removal.layer_name;
      filter = removal.filter;
      attribute_sets = removal.attribute_sets;
    })
unfolding new_job
from_members-IsReadable_example = from_members-IsReadable document base removal tt document_reads
