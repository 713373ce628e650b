-- ===== src/Compose/Parse.antt =====
-- Parsing of a compose file: internal/compose/parse.go. The file is read by compose-go, which is a
-- parameter; of its types only the fields that the code reads are here.
use swarm_sentinel.Base.{
  ℤ, pos, Text, text, text_eq, List, [], ◌∷◌, Option, none, some, not, ◌==◌, is_nil, Result,
  success, failure, ◌>>=◌, ◌>>◌, require, map_failure, if◌then◌else◌,
}
use swarm_sentinel.Base.Dict.{Dict, lookup, insert}
use swarm_sentinel.Compose.Types.{DesiredService, DesiredState}
use swarm_sentinel.Compose.Names.{normalize_names}

-- types.DeployConfig
pub record DeployConfig : Type 0 where
  pub mode : Text
  pub replicas : Option ℤ

-- types.ServiceConfig; of a config or secret reference the source
pub record ServiceConfig : Type 0 where
  pub image : Text
  pub deploy : Option DeployConfig
  pub scale : Option ℤ
  pub configs : List Text
  pub secrets : List Text

-- types.Project; of a config or secret the name
pub record Project : Type 0 where
  pub services : Dict Text ServiceConfig
  pub configs : Dict Text Text
  pub secrets : Dict Text Text

pub data ReferenceError : Type 0 where
  missing_source : ReferenceError
  undefined : Text → ReferenceError

pub data ParseError : Type 0 where
  empty_body no_services : ParseError
  load_failed missing_image : Text → ParseError
  bad_configs bad_secrets : Text → ReferenceError → ParseError

-- The name of a defined config or secret: its source where it has none.
unfoldable pub resolve_source : Text → Option Text → Result ReferenceError Text
resolve_source source none = failure (undefined source)
resolve_source source (some name) = success (if is_nil name then source else name)

-- The loop of resolveConfigNames, and of resolveSecretNames, which is the same.
unfoldable pub resolve_sources : List Text → Dict Text Text → Result ReferenceError (List Text)
resolve_sources [] table = success []
resolve_sources (source ∷ sources) table = do
  require (not (is_nil source)) missing_source
  found ← resolve_source source (lookup source table)
  names ← resolve_sources sources table
  success (found ∷ names)

-- resolveConfigNames and resolveSecretNames
unfoldable pub resolve_names : List Text → Dict Text Text → Result ReferenceError (List Text)
resolve_names sources table = do
  names ← resolve_sources sources table
  success (normalize_names names)

-- The mode of a service: "replicated" where none is given.
unfoldable pub deploy_mode : Option DeployConfig → Text
deploy_mode none = text "replicated"
deploy_mode (some d) = if is_nil d.mode then text "replicated" else d.mode

-- `scale`, or the default of one
abbrev scaled : Option ℤ → ℤ
scaled none = pos 1
scaled (some n) = n

-- The replicas that a service wants, the mode being known.
unfoldable pub declared_replicas : Text → ServiceConfig → ℤ
declared_replicas mode service = if mode == text "global" then pos 0 else elim service.deploy [
  | none ↦ scaled service.scale
  | some d ↦ elim d.replicas [ none ↦ scaled service.scale | some n ↦ n ]
]

-- The body of the loop over the services.
unfoldable pub parse_service : Project → Text → ServiceConfig → Result ParseError DesiredService
unfolding deploy_mode declared_replicas
parse_service project name service = do
  require (not (is_nil service.image)) (missing_image name)
  let mode = deploy_mode service.deploy
  configs ← map_failure (bad_configs name) (resolve_names service.configs project.configs)
  secrets ← map_failure (bad_secrets name) (resolve_names service.secrets project.secrets)
  success (record {
    image = service.image;
    mode = mode;
    replicas = declared_replicas mode service;
    configs = configs;
    secrets = secrets;
  })

unfoldable pub parse_services :
    Project
    → Dict Text ServiceConfig
    → Dict Text DesiredService
    → Result ParseError (Dict Text DesiredService)
parse_services project [] services = success services
parse_services project ((name, service) ∷ rest) services = do
  parsed ← parse_service project name service
  parse_services project rest (insert name parsed services)

-- ParseDesiredState; `load` is the loader of compose-go.
unfoldable pub parse_desired_state :
    (Text → Result Text Project) → Text → Result ParseError DesiredState
parse_desired_state load body = do
  require (not (is_nil body)) empty_body
  project ← map_failure load_failed (load body)
  require (not (is_nil project.services)) no_services
  services ← parse_services project project.services []
  success (record { services = services })
