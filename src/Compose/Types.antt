-- ===== src/Compose/Types.antt =====
-- The desired state of a stack: internal/compose/parse.go (DesiredState, DesiredService).
use swarm_sentinel.Base.{ℤ, Text, List, Bool}
use swarm_sentinel.Base.Dict.{Dict}

pub record DesiredService : Type 0 where
  pub image : Text
  pub mode : Text
  pub replicas : ℤ
  pub configs : List Text
  pub secrets : List Text

pub record DesiredState : Type 0 where
  pub services : Dict Text DesiredService

-- FetchResult of internal/compose/fetcher.go
pub record FetchResult : Type 0 where
  pub body : Text
  pub etag : Text
  pub last_modified : Text
  pub not_modified : Bool
