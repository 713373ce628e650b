-- ===== src/Config/Env.antt =====
-- Settings read off the environment: lookupTrimmed, lookupBool, loadSecretFromFile and FindMappingFile
-- of internal/config/config.go, with the readings that Load makes of a number.
use mathlib.Core.Option
use swarm_sentinel.Base.{
  ℤ, pos, ltb_ℤ, leb_ℤ, Text, text, text_eq, nat_eq, trim_space, List, [], ◌∷◌, ◌++◌, Option, none,
  some, Bool, true, false, ◌&&◌, contains, Result, success, failure, require, ◌>>◌, if◌then◌else◌,
}
use swarm_sentinel.Base.Numeral.{atoi}
use swarm_sentinel.Config.Url.{Parser, UrlError}

-- What the program meets: the error of loading `.env`, if it is there but cannot be read, the
-- environment after that, the files, and time.ParseDuration, url.Parse and filepath.Join.
pub record System : Type 0 where
  pub dotenv_error : Option Text
  pub env : Text → Option Text
  pub read_file : Text → Result Text Text
  pub is_file : Text → Bool
  pub parse_duration : Text → Result Text ℤ
  pub parse_url : Parser
  pub join_path : Text → Text → Text

-- The errors of Load, with the name of the setting.
pub data ConfigError : Type 0 where
  dotenv_failed : Text → ConfigError
  invalid_setting not_positive not_a_port empty_setting : Text → ConfigError
  mapping_not_found : Text → ConfigError
  both_sources : Text → ConfigError
  no_source : ConfigError
  bad_url : Text → UrlError → ConfigError
  tls_incomplete : List Text → ConfigError
  https_without_tls : ConfigError

-- lookupTrimmed
unfoldable pub lookup_trimmed : System → Text → Option Text
unfolding trim_space
lookup_trimmed system key = Option.map trim_space (system.env key)

-- A text setting and its default.
unfoldable pub text_setting : System → Text → Text → Text
text_setting system key default = elim (lookup_trimmed system key) [
  | none ↦ default
  | some value ↦ value
]

-- strconv.ParseBool
unfoldable pub parse_bool : Text → Option Bool
parse_bool s =
    if contains (text "1" ∷ text "t" ∷ text "T" ∷ text "TRUE" ∷ text "true" ∷ text "True" ∷ []) s
    then some true
    else if contains
        (text "0" ∷ text "f" ∷ text "F" ∷ text "FALSE" ∷ text "false" ∷ text "False" ∷ []) s
    then some false
    else none

-- lookupBool: none for a variable that is not set
unfoldable pub lookup_bool : System → Text → Result ConfigError (Option Bool)
unfolding lookup_trimmed parse_bool
lookup_bool system key = elim (lookup_trimmed system key) [
  | none ↦ success none
  | some value ↦ elim (parse_bool value) [
    | none ↦ failure (invalid_setting key)
    | some b ↦ success (some b)
  ]
]

-- A duration that must be greater than zero.
unfoldable pub duration_setting : System → Text → ℤ → Result ConfigError ℤ
unfolding lookup_trimmed
duration_setting system key default = elim (lookup_trimmed system key) [
  | none ↦ success default
  | some value ↦ elim (system.parse_duration value) [
    | failure e ↦ failure (invalid_setting key)
    | success d ↦ require (ltb_ℤ (pos 0) d) (not_positive key) >> success d
  ]
]

-- A number that must pass a test.
unfoldable pub int_setting :
    System → Text → ℤ → (ℤ → Bool) → (Text → ConfigError) → Result ConfigError ℤ
unfolding lookup_trimmed atoi
int_setting system key default test error = elim (lookup_trimmed system key) [
  | none ↦ success default
  | some value ↦ elim (atoi value) [
    | none ↦ failure (invalid_setting key)
    | some n ↦ require (test n) (error key) >> success n
  ]
]

-- `parsed < 0 || parsed > 65535` refused
abbrev pub is_port : ℤ → Bool
is_port n = leb_ℤ (pos 0) n && leb_ℤ n (pos 65535)

-- loadSecretFromFile
unfoldable pub load_secret_from_file : System → Text → Text
unfolding lookup_trimmed trim_space
load_secret_from_file system key =
    let direct = trim_space (elim (system.env key) [ none ↦ [] | some value ↦ value ]) in
    elim (lookup_trimmed system (key ++ text "_FILE")) [
      | none ↦ direct
      | some path ↦ elim (system.read_file path) [
        | failure e ↦ direct
        | success content ↦ trim_space content
      ]
    ]

-- FindMappingFile: an empty path for none
unfoldable pub find_mapping_file : System → Result ConfigError Text
unfolding lookup_trimmed
find_mapping_file system = elim (lookup_trimmed system (text "SS_COMPOSE_MAPPING_FILE")) [
  | some path ↦ if system.is_file path then success path else failure (mapping_not_found path)
  | none ↦
      if system.is_file (text "/run/configs/compose-mapping.yaml")
      then success (text "/run/configs/compose-mapping.yaml")
      else if system.is_file (text "/run/secrets/compose-mapping.yaml")
      then success (text "/run/secrets/compose-mapping.yaml")
      else if system.is_file (text "./compose-mapping.yaml")
      then success (text "./compose-mapping.yaml")
      else success []
]
