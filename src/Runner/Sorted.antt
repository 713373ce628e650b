-- ===== src/Runner/Sorted.antt =====
-- What the loop of stabilizeTransitions over the services leaves in its two maps.
use swarm_sentinel.Base.{
  ℤ, Text, text_eq, [], ◌∷◌, none, some, Bool, ◌≡◌, ◌∙◌, refl, arith, if◌then◌else◌,
}
use swarm_sentinel.Base.Dict.{Dict, lookup, NodupKeys, lookup-insert, insert-NodupKeys}
use swarm_sentinel.Health.Types.{ServiceHealth, status_eq}
use swarm_sentinel.Runner.Stabilize.{should_notify, observed, updated, stabilize_services}

module _ (cycles : ℤ) (first_run : Bool) (prev : Dict Text ServiceHealth) where
  pub lookup-stabilize_services_kept :
      (current : Dict Text ServiceHealth) (kept eligible : Dict Text ServiceHealth) (n : Text)
      → NodupKeys current
      → lookup n (stabilize_services cycles first_run prev current (kept, eligible)).0
        ≡ elim (lookup n current) [
          | none ↦ lookup n kept
          | some s ↦ some (updated cycles first_run (lookup n prev) s)
        ]
  unfolding stabilize_services lookup
  lookup-stabilize_services_kept [] kept eligible n u = refl
  lookup-stabilize_services_kept ((k, s) ∷ current) kept eligible n u =
      lookup-stabilize_services_kept current _ _ n u.1
      ∙ ground (arith, lookup-insert n k (updated cycles first_run (lookup k prev) s) kept)

  pub lookup-stabilize_services_eligible :
      (current : Dict Text ServiceHealth) (kept eligible : Dict Text ServiceHealth) (n : Text)
      → NodupKeys current
      → lookup n (stabilize_services cycles first_run prev current (kept, eligible)).1
        ≡ elim (lookup n current) [
          | none ↦ lookup n eligible
          | some s ↦
              if should_notify cycles first_run (lookup n prev) s.status
              then some (observed (lookup n prev) s)
              else lookup n eligible
        ]
  unfolding stabilize_services lookup
  lookup-stabilize_services_eligible [] kept eligible n u = refl
  lookup-stabilize_services_eligible ((k, s) ∷ current) kept eligible n u =
      lookup-stabilize_services_eligible current _ _ n u.1
      ∙ ground (arith, lookup-insert n k (observed (lookup k prev) s) eligible)

  pub stabilize_services-NodupKeys :
      (current : Dict Text ServiceHealth) (kept eligible : Dict Text ServiceHealth)
      → NodupKeys eligible
      → NodupKeys (stabilize_services cycles first_run prev current (kept, eligible)).1
  unfolding stabilize_services
  stabilize_services-NodupKeys [] kept eligible v = v
  stabilize_services-NodupKeys ((k, s) ∷ current) kept eligible v =
      stabilize_services-NodupKeys current _ _
        (ground (arith, insert-NodupKeys k (observed (lookup k prev) s) eligible v))
