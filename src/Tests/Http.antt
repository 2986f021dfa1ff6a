-- ===== src/Tests/Http.antt =====
-- The properties of server/http at concrete requests.
use batyr.Prelude.{◌≡◌, refl, [], ◌++◌, codes, has_char}
use batyr.Http.{normalize_uri, create_request_handler, routed, get_job, out_of_range, job_path}
use batyr.Http.Routes.{
  query, no_query, normalize_uri-endpoint, create_request_handler-job,
  create_request_handler-unfinished,
}

normalize_uri-endpoint_example :
    normalize_uri (codes "/" ++ (codes "jobs.json" ++ codes "?x")) ≡ codes "jobs.json"
unfolding has_char
normalize_uri-endpoint_example =
    normalize_uri-endpoint (codes "/") b'j' (codes "obs.json") (refl, tt) refl
      (refl, (refl, (refl, (refl, (refl, (refl, (refl, (refl, (refl, tt))))))))) (query (codes "x"))

create_request_handler-job_example :
    create_request_handler [] (codes "/" ++ ((job_path ++ (codes "a1" ++ codes ".json")) ++ []))
    ≡ routed (get_job (codes "a1"))
unfolding has_char
create_request_handler-job_example =
    create_request_handler-job [] (codes "/") b'a' (codes "1") (refl, tt) (refl, (refl, tt))
      no_query

create_request_handler-unfinished_example :
    create_request_handler [] (codes "/" ++ ((job_path ++ codes "a1") ++ [])) ≡ out_of_range
unfolding has_char
create_request_handler-unfinished_example =
    create_request_handler-unfinished [] (codes "/") (codes "a1") (refl, tt) (refl, (refl, tt))
      no_query
