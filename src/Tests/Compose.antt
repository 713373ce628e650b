-- ===== src/Tests/Compose.antt =====
-- The theorems of Compose at concrete files.
use swarm_sentinel.Base.{
  pos, Text, text, text_eq, int_eq, [], ◌∷◌, none, some, Result, success, failure, ◌≡◌, ◌≢◌, refl,
}
use swarm_sentinel.Base.Dict.{Dict, lookup, insert, NodupKeys}
use swarm_sentinel.Base.Sort.{text_le, sort_texts}
use swarm_sentinel.Compose.Types.{DesiredService, DesiredState}
use swarm_sentinel.Compose.Names.{drop_repeats, normalize_names}
use swarm_sentinel.Compose.Parse.{
  ServiceConfig, Project, missing_source, undefined, empty_body, resolve_source, resolve_sources,
  resolve_names, deploy_mode, declared_replicas, parse_service, parse_services, parse_desired_state,
}
use swarm_sentinel.Compose.Project.{IsParsed, parse_desired_state-IsParsed}

unfoldable pub program : Unit {0}
unfolding text_eq int_eq lookup insert text_le sort_texts drop_repeats normalize_names
    resolve_source resolve_sources resolve_names deploy_mode declared_replicas parse_service
    parse_services parse_desired_state
program = tt

abbrev web : ServiceConfig
web = record {
  image = text "nginx";
  deploy = some (record { mode = []; replicas = some (pos 2) });
  scale = none;
  configs = text "b" ∷ text "a" ∷ text "b" ∷ [];
  secrets = [];
}

abbrev agent : ServiceConfig
agent = record {
  image = text "agent";
  deploy = some (record { mode = text "global"; replicas = none });
  scale = none;
  configs = [];
  secrets = [];
}

abbrev table : Dict Text Text
table = (text "a", []) ∷ (text "b", text "bee") ∷ []

abbrev project : Project
project = record {
  services = (text "web", web) ∷ (text "agent", agent) ∷ [];
  configs = table;
  secrets = [];
}

abbrev load : Text → Result Text Project
load body = success project

abbrev web_service : DesiredService
web_service = record {
  image = text "nginx";
  mode = text "replicated";
  replicas = pos 2;
  configs = text "a" ∷ text "bee" ∷ [];
  secrets = [];
}

abbrev agent_service : DesiredService
agent_service = record {
  image = text "agent";
  mode = text "global";
  replicas = pos 0;
  configs = [];
  secrets = [];
}

abbrev state : DesiredState
state = record { services = (text "web", web_service) ∷ (text "agent", agent_service) ∷ [] }

errors :
    (parse_desired_state load [] ≡ failure empty_body)
    × (resolve_names ([] ∷ []) table ≡ failure missing_source)
    × (resolve_names (text "c" ∷ []) table ≡ failure (undefined (text "c")))
unfolding program
errors = (refl, refl, refl)

parsed : parse_desired_state load (text "x") ≡ success state
unfolding program
parsed = refl

project-NodupKeys : NodupKeys project.services
unfolding lookup text_eq
project-NodupKeys = (refl, (refl, tt))

parse_desired_state-IsParsed_example :
    (text "x" ≢ [])
    × (project.services ≢ [])
    × IsParsed project [] state.services (text "web") (lookup (text "web") project.services)
parse_desired_state-IsParsed_example =
    parse_desired_state-IsParsed load (text "x") project state (text "web") refl project-NodupKeys
      parsed
