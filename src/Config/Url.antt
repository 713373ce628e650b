-- ===== src/Config/Url.antt =====
-- Validation of URLs: validateURL, validateHTTPURL and validateNotMetadataEndpoint of
-- internal/config/config.go.
use swarm_sentinel.Base.{
  Text, text, text_eq, has_prefix, to_lower, List, [], ◌∷◌, Bool, not, ◌&&◌, ◌||◌, contains, is_nil,
  Result, success, failure, require, ◌>>=◌, ◌>>◌, ◌==◌,
}

-- What the code reads of a *url.URL.
pub record Url : Type 0 where
  pub scheme : Text
  pub host : Text
  pub hostname : Text

-- url.Parse
abbrev pub Parser : Type 0
Parser = Text → Result Text Url

pub data UrlError : Type 0 where
  not_parsed : Text → UrlError
  no_scheme_or_host not_http : UrlError
  metadata_endpoint link_local : Text → UrlError

abbrev pub blocked_hosts : List Text
blocked_hosts =
    text "169.254.169.254"
    ∷ text "metadata.google.internal"
    ∷ text "metadata.goog"
    ∷ text "metadata.azure.com"
    ∷ text "169.254.170.2"
    ∷ text "fd00:ec2::254"
    ∷ []

-- validateNotMetadataEndpoint
unfoldable pub validate_not_metadata_endpoint : Url → Result UrlError (Unit {0})
unfolding to_lower has_prefix
validate_not_metadata_endpoint u =
    let hostname = to_lower u.hostname in
    require (not (contains blocked_hosts hostname)) (metadata_endpoint hostname)
    >> require (not (has_prefix hostname (text "169.254."))) (link_local hostname)

-- The error of url.Parse, wrapped.
unfoldable pub parsed_url : Parser → Text → Result UrlError Url
parsed_url parse value = elim (parse value) [
  | failure e ↦ failure (not_parsed e)
  | success u ↦ success u
]

-- The test that both validations start with.
abbrev pub has_scheme_and_host : Url → Bool
has_scheme_and_host u = not (is_nil u.scheme) && not (is_nil u.host)

-- validateURL
unfoldable pub validate_url : Parser → Text → Result UrlError (Unit {0})
unfolding parsed_url
validate_url parse value =
    parsed_url parse value >>= λ u. require (has_scheme_and_host u) no_scheme_or_host

-- validateHTTPURL
unfoldable pub validate_http_url : Parser → Text → Result UrlError (Unit {0})
unfolding parsed_url validate_not_metadata_endpoint
validate_http_url parse value = parsed_url parse value >>= λ u.
    require (has_scheme_and_host u) no_scheme_or_host
    >> require (u.scheme == text "http" || u.scheme == text "https") not_http
    >> validate_not_metadata_endpoint u
