-- ===== src/Swarm/Connect.antt =====
-- The construction of the Docker client: NewDockerClient and normalizeDockerHost of
-- internal/swarm/docker_client.go. The files of the certificates and the SDK are parameters.
use swarm_sentinel.Base.{
  ℤ, pos, leb_ℤ, Text, text, text_eq, ◌++◌, Option, none, some, Bool, not, ◌&&◌, ◌||◌, is_nil,
  Result, success, failure, require, ◌>>=◌, ◌>>◌, ◌==◌, if◌then◌else◌,
}
use swarm_sentinel.Config.Url.{Parser}

pub record TlsConfig : Type 0 where
  pub enabled : Bool
  pub verify : Bool
  pub ca_file : Text
  pub cert_file : Text
  pub key_file : Text

-- normalizeDockerHost
unfoldable pub normalize_docker_host : Parser → Text → Bool → Result Text Text
normalize_docker_host parse host tls_enabled = elim (parse host) [
  | failure e ↦ failure e
  | success u ↦
      let tcp = if is_nil u.host then host else text "tcp://" ++ u.host in
      if is_nil u.scheme
      then success host
      else if u.scheme == text "http"
      then success tcp
      else if u.scheme == text "https"
      then (if tls_enabled
          then success tcp
          else failure (text "https docker host requires TLS configuration"))
      else if (u.scheme == text "unix" || u.scheme == text "npipe") && tls_enabled
      then failure (text "docker tls is not supported for unix or npipe hosts")
      else success host
]

-- The client that is made: the scheme and the host that the SDK is given, none for its own host, and
-- the timeout of a call.
pub record DockerClient : Type 0 where
  pub scheme : Text
  pub host : Option Text
  pub timeout : ℤ

abbrev pub default_api_timeout : ℤ
default_api_timeout = pos 30_000_000_000

-- NewDockerClient, with the errors of loading the certificates and of the SDK
unfoldable pub new_docker_client :
    Parser
    → (TlsConfig → Option Text)
    → Option Text
    → Text
    → ℤ
    → TlsConfig
    → Result Text DockerClient
unfolding normalize_docker_host
new_docker_client parse load_error sdk_error host timeout tls = do
  require (not tls.enabled || not (is_nil tls.cert_file || is_nil tls.key_file))
      (text "docker tls enabled but cert/key are required")
  require (not tls.enabled || not (tls.verify && is_nil tls.ca_file))
      (text "docker tls verify enabled but CA is required")
  (if tls.enabled
      then (elim (load_error tls) [ none ↦ success tt | some e ↦ failure e ])
      else success tt)
  chosen ←
      (if is_nil host
        then success none
        else normalize_docker_host parse host tls.enabled >>= λ h. success (some h))
  (elim sdk_error [ none ↦ success tt | some e ↦ failure e ])
  success (record {
    scheme = if tls.enabled then text "https" else text "http";
    host = chosen;
    timeout = if leb_ℤ timeout (pos 0) then default_api_timeout else timeout;
  })
