-- ===== src/Swarm/Image.antt =====
-- Image references: internal/swarm/image.go.
use swarm_sentinel.Base.{Text, text, index_of, take, none, some}

abbrev pub digest_marker : Text
digest_marker = text "@sha256:"

-- NormalizeImage
unfoldable pub normalize_image : Text → Text
unfolding index_of
normalize_image image = elim (index_of image digest_marker) [
  | none ↦ image
  | some idx ↦ take idx image
]
