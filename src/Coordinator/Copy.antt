-- ===== src/Coordinator/Copy.antt =====
-- GetRunners of internal/coordinator/coordinator.go.
use swarm_sentinel.Base.{Text, text_eq, [], ◌∷◌, none, some, ◌≡◌, ◌∙◌, refl, arith, ==_iff}
use swarm_sentinel.Base.Dict.{Dict, lookup, insert, lookup-insert, lookup-nil, NodupKeys}
use swarm_sentinel.Runner.Options.{Runner}
use swarm_sentinel.Coordinator.Spawn.{Spawned}

-- The loop over the map.
unfoldable copy_runners : Dict Text Runner → Dict Text Runner → Dict Text Runner
unfolding insert
copy_runners [] result = result
copy_runners ((k, v) ∷ runners) result = copy_runners runners (insert k v result)

unfoldable pub get_runners : Spawned → Dict Text Runner
unfolding copy_runners
get_runners spawned = copy_runners spawned.runners []

lookup-copy_runners :
    (n : Text) (runners result : Dict Text Runner)
    → NodupKeys runners
    → lookup n (copy_runners runners result)
      ≡ (elim (lookup n runners) [ none ↦ lookup n result | some r ↦ some r ])
unfolding copy_runners lookup
lookup-copy_runners n [] result distinct = refl
lookup-copy_runners n ((k, v) ∷ runners) result (fresh, distinct) =
    lookup-copy_runners n runners (insert k v result) distinct
    ∙ ground (arith, fresh, lookup-insert n k v result, (==_iff n k).0)

-- The copy has the same runner under each name, whatever the order of the loop.
pub lookup-get_runners :
    (n : Text) (spawned : Spawned)
    → NodupKeys spawned.runners
    → lookup n (get_runners spawned) ≡ lookup n spawned.runners
unfolding get_runners
lookup-get_runners n spawned distinct =
    lookup-copy_runners n spawned.runners [] distinct ∙ ground (arith, lookup-nil {V = Runner} n)
