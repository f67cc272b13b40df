-- ===== src/Tests/Starting.antt =====
-- A worker that starts, its cron and its client, on sample data.
use gitlab_elt.Common.{
  String, true, false, none, some, [], ◌∷◌, lookup, insert, ap, inl, inr, ◌≡◌, ◌==◌, string_eq,
  if◌then◌else◌, refl, arith,
}
use gitlab_elt.Domain.{GitlabProject}
use gitlab_elt.Repository.{Db, ok, err, api_failure, statement, record_metric, projects_monitored}
use gitlab_elt.Repository.Mappings.{list_state_mappings, list_metadata_mappings}
use gitlab_elt.Text.{trim_space, trim_left, trim_right, is_space, map_runes, decimal}
use gitlab_elt.Text.Integers.{format_int}
use gitlab_elt.Mapper.{Mapper, load_from_db, load_states, load_metadata, normalize_label}
use gitlab_elt.Gitlab.Client.{Requests, response, do_get, try_from, get_paginated, get_pages}
use gitlab_elt.Gitlab.Endpoints.{
  Http, Client, get, get_page, build_url, query, page_params, projects_path, client,
}
use gitlab_elt.Gitlab.Endpoints.Complete.{IsWhole, group_projects, call, call-IsWhole}
use gitlab_elt.Gitlab.Endpoints.Negative.{client_negative}
use gitlab_elt.Scheduler.{Cron, start, discovery_job}
use gitlab_elt.Scheduler.Started.{jobs}
use gitlab_elt.Worker.{Worker}
use gitlab_elt.Config.Types.{Config, Result}
use gitlab_elt.Worker.Startup.{Outside, running, with_config, worker, scheduler, start_worker}
use gitlab_elt.Worker.Startup.Ready.{Untouched}
use gitlab_elt.Worker.Startup.Lifetime.{Fires, rests, fires}
use gitlab_elt.Worker.Startup.Idle.{Fires-Untouched}
use gitlab_elt.Tests.Sample.{text_lib, codec, env, db}
use gitlab_elt.Tests.Configuring.{os, floats, config, os_projects, config_projects, loaded_projects}

abbrev project : GitlabProject
project = record { id = 3; name = "p"; path_with_namespace = "g/p" }

-- Page 1 of the projects of the group 1, and an error for any other address.
abbrev first_page : String
first_page = "https://git.example/api/v4/groups/1/projects?page=1&per_page=100"

abbrev answer : String → Requests
answer url = record {
  cancelled = λ n. false;
  attempt = λ n. if url == first_page then response 200 "[p]" "" else response 404 "" "";
}

abbrev http : Http
http = record {
  exchange = λ rate tick n url. answer url;
  zone = λ t. record { east = true; minutes = 0 };
  walk = λ params. params;
  decode_projects = λ body. some (project ∷ []);
  decode_issues = λ body. none;
  decode_label_events = λ body. none;
  decode_notes = λ body. none;
  max_pages = 5;
}

abbrev gitlab_client : Client
gitlab_client = record {
  base_url = "https://git.example";
  token = "t";
  rate_limit = 20;
  max_retries = 3;
}

one_page : call (client http gitlab_client) (group_projects 1) 7 ≡ ok (project ∷ [])
unfolding client get_paginated get_pages get_page get do_get try_from build_url query page_params
    projects_path format_int decimal lookup insert
one_page = refl

call-IsWhole_example :
    IsWhole http gitlab_client http.decode_projects 7 "/api/v4/groups/1/projects" [] (project ∷ [])
unfolding query format_int page_params decimal
call-IsWhole_example = call-IsWhole http gitlab_client (group_projects 1) 7 (project ∷ []) one_page

-- -1 retries.
abbrev hopeless : Client
hopeless = record gitlab_client { max_retries = 18446744073709551615 }

client_negative_example :
    ((client http hopeless).group_projects 7 1 ≡ err api_failure)
    × ((client http hopeless).issues 7 3 0 ≡ err api_failure)
    × ((client http hopeless).label_events 7 3 5 ≡ err api_failure)
    × ((client http hopeless).notes 7 3 5 ≡ err api_failure)
    × ((q : Requests) → (get hopeless q).attempts ≡ 0)
client_negative_example = client_negative http hopeless (omega arith) 7 1 3 0 5

abbrev out : Outside
out = record {
  os = os;
  lib = text_lib;
  codec = codec;
  http = http;
  env = env;
  connects = λ address. true;
  pings = λ address. true;
  accepts = λ spec. true;
}

abbrev loaded_mapper : Mapper
loaded_mapper = record { state_mappings = ("doing", "IN_PROGRESS") ∷ []; metadata_mappings = [] }

abbrev w : Worker
w = worker out config loaded_mapper

abbrev cron : Cron
cron = record { entries = jobs (scheduler out config w); running = true }

abbrev after : Db
after = record db { tick = 2; metrics = projects_monitored 0 ∷ [] }

-- A worker for a project, on an empty database.
abbrev out_projects : Outside
out_projects = record out { os = os_projects }

abbrev w_projects : Worker
w_projects = worker out_projects config_projects loaded_mapper

abbrev cron_projects : Cron
cron_projects = record {
  entries = jobs (scheduler out_projects config_projects w_projects);
  running = true;
}

abbrev empty_db : Db
empty_db = record db { raw_projects = []; raw_events = [] }

abbrev after_projects : Db
after_projects = record empty_db { tick = 2; metrics = projects_monitored 1 ∷ [] }

started_projects :
    start_worker out_projects floats empty_db
    ≡ running config_projects w_projects cron_projects after_projects
unfolding start_worker load_from_db load_states load_metadata list_state_mappings
    list_metadata_mappings statement normalize_label trim_space trim_left trim_right is_space
    map_runes insert record_metric start
started_projects = ap (λ (r : Result Config). with_config out_projects r empty_db) loaded_projects

abbrev discovered_none : Db
discovered_none = discovery_job (scheduler out_projects config_projects w_projects) 9 after_projects

once : Fires cron_projects after_projects discovered_none
once = fires after_projects discovered_none 9 _ rests (inr (inr (inl refl))) refl

Fires-Untouched_example : Untouched empty_db discovered_none
Fires-Untouched_example =
    Fires-Untouched out_projects floats empty_db config_projects w_projects cron_projects
      started_projects refl refl refl refl once
