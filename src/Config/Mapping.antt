-- ===== src/Config/Mapping.antt =====
-- The file of stacks: internal/config/mapping.go. The YAML decoder and the file are parameters.
use swarm_sentinel.Base.{
  ℕ, suc, ℤ, pos, leb_ℤ, Text, text_eq, List, [], ◌∷◌, not, contains, is_nil, Result, success,
  require, map_failure, ◌>>=◌, ◌>>◌, if◌then◌else◌,
}
use swarm_sentinel.Config.Url.{Parser, UrlError, validate_http_url}

pub record StackMapping : Type 0 where
  pub name : Text
  pub compose_url : Text
  pub timeout : ℤ

-- The errors of the loop carry the index or the name of the stack.
pub data MappingError : Type 0 where
  read_failed parse_failed : Text → MappingError
  no_stacks : MappingError
  name_required : ℕ → MappingError
  url_required duplicate_name negative_timeout : Text → MappingError
  bad_url : Text → UrlError → MappingError

-- The body of the loop of validateMappings.
unfoldable pub validate_mapping :
    Parser → ℕ → List Text → StackMapping → Result MappingError (Unit {0})
unfolding validate_http_url
validate_mapping parse i seen m =
    require (not (is_nil m.name)) (name_required i)
    >> require (not (is_nil m.compose_url)) (url_required m.name)
    >> map_failure (bad_url m.name) (validate_http_url parse m.compose_url)
    >> require (not (contains seen m.name)) (duplicate_name m.name)
    >> require (leb_ℤ (pos 0) m.timeout) (negative_timeout m.name)

-- The loop, with the index and the names seen.
unfoldable pub validate_from :
    Parser → ℕ → List Text → List StackMapping → Result MappingError (Unit {0})
unfolding validate_mapping
validate_from parse i seen [] = success tt
validate_from parse i seen (m ∷ ms) =
    validate_mapping parse i seen m >> validate_from parse (suc i) (m.name ∷ seen) ms

-- validateMappings
unfoldable pub validate_mappings : Parser → List StackMapping → Result MappingError (Unit {0})
unfolding validate_from
validate_mappings parse mappings =
    require (not (is_nil mappings)) no_stacks >> validate_from parse 0 [] mappings

-- LoadMappingFile
unfoldable pub load_mapping_file :
    Parser
    → (Text → Result Text Text)
    → (Text → Result Text (List StackMapping))
    → Text
    → Result MappingError (List StackMapping)
unfolding validate_mappings
load_mapping_file parse read_file unmarshal path =
    if is_nil path
    then success []
    else map_failure read_failed (read_file path) >>= λ bytes.
        map_failure parse_failed (unmarshal bytes) >>= λ stacks.
        validate_mappings parse stacks >> success stacks
