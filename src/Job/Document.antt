-- ===== src/Job/Document.antt =====
-- `Job::toJsonValue`: the document that describes a job to a client.
use batyr.Prelude.{List, [], ◌∷◌, Text, codes, if◌then◌else◌}
use batyr.Json.{
  Json, null, number, string, array, object, Elements, no_elements, element, Members, no_members,
  member, c_str,
}
use batyr.Json.Time.{stringify_time}
use batyr.Job.{
  Job, JobType, pull, remove_by_attributes, Status, queued, in_process, finished, failed,
  NullableValue, AttributeSet, Statistics, is_done,
}

pub type_string : JobType → Text
type_string pull = codes "pull"
type_string remove_by_attributes = codes "remove-by-attributes"

pub status_string : Status → Text
status_string queued = codes "queued"
status_string in_process = codes "in_process"
status_string finished = codes "finished"
status_string failed = codes "failed"

abbrev pub value_json : NullableValue → Json
value_json v = if v.is_null then null else string v.value

unfoldable pub set_members : AttributeSet → Members
set_members [] = no_members
set_members ((k, v) ∷ rest) = member (c_str k) (value_json v) (set_members rest)

unfoldable pub set_elements : List AttributeSet → Elements
unfolding set_members
set_elements [] = no_elements
set_elements (s ∷ rest) = element (object (set_members s)) (set_elements rest)

-- The members that depend on the type.
type_members : JobType → Job → Members → Members
unfolding set_elements
type_members pull j rest = member (codes "filter") (string j.filter) rest
type_members remove_by_attributes j rest =
    member (codes "attributeSets") (array (set_elements j.attribute_sets)) rest

statistics_members : Statistics → Members
statistics_members s = member (codes "numCreated") (number s.num_created) (
    member (codes "numUpdated") (number s.num_updated) (
      member (codes "numDeleted") (number s.num_deleted) (
        member (codes "numPulled") (number s.num_pulled)
          (member (codes "numIgnored") (number s.num_ignored) no_members))))

-- The members from `type` on.
described : Job → Members
unfolding type_string status_string type_members statistics_members is_done
described j = member (codes "type") (string (type_string j.type)) (
    member (codes "status") (string (status_string j.status)) (
      member (codes "layerName") (string j.layer_name) (
        type_members j.type j (
          member (codes "message") (string j.message)
            (if is_done j then statistics_members j.statistics else no_members)))))

unfoldable pub to_members : Job → Members
unfolding described
to_members j = member (codes "id") (string (c_str j.id)) (
    member (codes "timeAdded") (string (stringify_time j.time_added)) (
      if is_done j
      then member (codes "timeFinished") (string (stringify_time j.time_finished)) (described j)
      else described j))

abbrev pub to_json_value : Job → Json
to_json_value j = object (to_members j)
