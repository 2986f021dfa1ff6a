-- ===== src/Http.antt =====
-- server/http: which handler answers a request.
pub mod Routes
pub mod Handlers
use batyr.Prelude.{
  ℕ, suc, ◌+◌, Bool, true, false, not, ◌&&◌, ◌||◌, List, [], ◌∷◌, Option, none, some, Text, codes,
  text_eq, is_empty, take, drop, length, ltb, ◌==◌, ◌-◌, if◌then◌else◌,
}
use batyr.Strings.{find_first_not_of, substr, starts_with, shift_pos}

-- `find_first_of` for a single character.
unfoldable pub index_of : ℕ → Text → Option ℕ
index_of c [] = none
index_of c (d ∷ s) = if d == c then some 0 else shift_pos (index_of c s)

abbrev or_length : Text → Option ℕ → ℕ
or_length s none = length s
or_length s (some i) = i

abbrev start_of : Option ℕ → ℕ
start_of none = 1
start_of (some i) = i

-- `substr(pos_start, pos_end - pos_start)`: a difference below zero wraps around and takes the rest
-- of the text.
abbrev between : Text → ℕ → ℕ → Text
between s pos_start pos_end =
    if ltb pos_end pos_start then drop pos_start s else substr s pos_start (pos_end - pos_start)

unfoldable pub normalize_uri : Text → Text
unfolding index_of
normalize_uri uri =
    if is_empty uri
    then []
    else between uri (start_of (find_first_not_of uri (codes "./")))
        (or_length uri (index_of b'?' uri))

pub data Handler : Type 0 where
  pull remove_by_attributes job_list layer_list status not_found : Handler
  get_job : Text → Handler
  resource : Text → Handler

-- The handler, or the exception of `std::string::compare` for a position behind the end.
pub data Routed : Type 0 where
  routed : Handler → Routed
  out_of_range : Routed

abbrev pub hex_digits : Text
hex_digits = codes "abcdef0123456789"

abbrev pub job_path : Text
job_path = codes "api/v1/job/"

-- The loop over the resources of the web interface, by their file names.
unfoldable pub find_resource : Text → List Text → Handler
find_resource endpoint [] = not_found
find_resource endpoint (name ∷ rest) =
    if text_eq endpoint name || (is_empty endpoint && text_eq name (codes "index.html"))
    then resource name
    else find_resource endpoint rest

-- What follows the path of the jobs, with the position of its first other character.
unfoldable pub route_job : Handler → Text → Option ℕ → Routed
route_job otherwise rest none = out_of_range
route_job otherwise rest (some end_id) =
    if text_eq (drop end_id rest) (codes ".json") && not (end_id == 0)
    then routed (get_job (take end_id rest))
    else routed otherwise

unfoldable pub route_other : List Text → Text → Routed
unfolding find_resource route_job
route_other resources endpoint =
    let rest = drop 11 endpoint in
    if starts_with endpoint job_path
    then route_job (find_resource endpoint resources) rest (find_first_not_of rest hex_digits)
    else routed (find_resource endpoint resources)

-- The `if` chain of the endpoints.
unfoldable pub route : List Text → Text → Routed
unfolding route_other
route resources endpoint =
    if text_eq endpoint (codes "api/v1/pull")
    then routed pull
    else if text_eq endpoint (codes "api/v1/remove-by-attributes")
    then routed remove_by_attributes
    else if text_eq endpoint (codes "api/v1/jobs.json")
    then routed job_list
    else if text_eq endpoint (codes "api/v1/layers.json")
    then routed layer_list
    else if text_eq endpoint (codes "api/v1/status.json")
    then routed status
    else route_other resources endpoint

-- `createRequestHandler`, with the file names of the resources that the build embeds.
unfoldable pub create_request_handler : List Text → Text → Routed
unfolding normalize_uri route
create_request_handler resources uri = route resources (normalize_uri uri)
