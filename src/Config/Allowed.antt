-- ===== src/Config/Allowed.antt =====
-- Which URLs the validations of internal/config/config.go let through.
use swarm_sentinel.Base.{
  Text, text, text_eq, to_lower, has_prefix, false, inl, inr, ◌⊎◌, ◌≡◌, arith, contains, is_nil,
  success, Result-cases,
}
use swarm_sentinel.Config.Url.{
  Url, Parser, blocked_hosts, validate_not_metadata_endpoint, parsed_url, validate_url,
  validate_http_url,
}

-- The text is a URL with a scheme and a host.
abbrev pub IsUrl : Parser → Text → Type 0
IsUrl parse value =
    (u : Url) × (parse value ≡ success u) × (is_nil u.scheme ≡ false) × (is_nil u.host ≡ false)

-- It is one of http or https besides, whose host is neither a metadata service nor link-local.
abbrev pub IsHttpUrl : Parser → Text → Type 0
IsHttpUrl parse value =
    (u : Url) × (parse value ≡ success u)
    × (is_nil u.host ≡ false)
    × ((u.scheme ≡ text "http") ⊎ (u.scheme ≡ text "https"))
    × (contains blocked_hosts (to_lower u.hostname) ≡ false)
    × (has_prefix (to_lower u.hostname) (text "169.254.") ≡ false)

pub validate_url-IsUrl :
    (parse : Parser) (value : Text) → validate_url parse value ≡ success tt → IsUrl parse value
unfolding validate_url parsed_url
validate_url-IsUrl parse value h = elim (Result-cases (parse value)) [
  | inl (u, found) ↦ (u, found, ground arith, ground arith)
  | inr (e, found) ↦ absurd (ground arith)
]

pub validate_http_url-IsHttpUrl :
    (parse : Parser) (value : Text)
    → validate_http_url parse value ≡ success tt
    → IsHttpUrl parse value
unfolding validate_http_url parsed_url validate_not_metadata_endpoint
validate_http_url-IsHttpUrl parse value h = elim (Result-cases (parse value)) [
  | inl (u, found) ↦ (u, found, ground arith, ground arith, ground arith, ground arith)
  | inr (e, found) ↦ absurd (ground arith)
]

pub IsHttpUrl-validate_http_url :
    (parse : Parser) (value : Text)
    → IsHttpUrl parse value
    → validate_http_url parse value ≡ success tt
unfolding validate_http_url parsed_url validate_not_metadata_endpoint
IsHttpUrl-validate_http_url parse value (u, found, host, scheme, open_host, routed) = ground arith
