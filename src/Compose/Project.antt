-- ===== src/Compose/Project.antt =====
-- What ParseDesiredState makes of a project that compose-go has loaded.
use mathlib.Core.Option.{some-ne-none}
use mathlib.Core.Path.{subst}
use swarm_sentinel.Base.{
  ℕ, Text, text_eq, List, [], ◌∷◌, map, Option, none, some, Bool, true, false, not, ◌&&◌, ◌==◌,
  is_nil, is_some, Bool-cases, inl, inr, Result, success, failure, ◌>>=◌, >>=-eq-success,
  require-eq-success, ◌≡◌, ◌≢◌, ◌∙◌, refl, ap, ==_iff, arith, if◌then◌else◌,
}
use swarm_sentinel.Base.Dict.{Dict, lookup, insert, NodupKeys, lookup-insert}
use swarm_sentinel.Compose.Types.{DesiredService, DesiredState}
use swarm_sentinel.Compose.Names.{normalize_names}
use swarm_sentinel.Compose.Parse.{
  ServiceConfig, Project, ReferenceError, resolve_source, resolve_sources, resolve_names,
  parse_service, parse_services, parse_desired_state,
}

-- A reference that has a source, and one that the project defines.
abbrev pub is_resolvable : Dict Text Text → Text → Bool
is_resolvable table source = not (is_nil source) && is_some (lookup source table)

abbrev pub all_resolvable : Dict Text Text → List Text → Bool
all_resolvable table [] = true
all_resolvable table (s ∷ ss) = is_resolvable table s && all_resolvable table ss

-- The name of the config or secret that a source stands for.
abbrev pub resolved_name : Dict Text Text → Text → Text
resolved_name table source = elim (lookup source table) [
  | none ↦ source
  | some name ↦ if is_nil name then source else name
]

-- All references resolve and give their names, or one does not and there is an error.
abbrev pub IsResolved :
    (List Text → List Text)
    → Dict Text Text
    → List Text
    → Result ReferenceError (List Text)
    → Type 0
IsResolved order table sources (success names) =
    (all_resolvable table sources ≡ true) × (names ≡ order (map (resolved_name table) sources))
IsResolved order table sources (failure e) = all_resolvable table sources ≡ false

IsResolved-cons :
    (table : Dict Text Text) (c : ℕ) (source : Text) (sources : List Text) (found : Option Text)
    (rest : Result ReferenceError (List Text))
    → lookup (c ∷ source) table ≡ found
    → IsResolved (λ l. l) table sources rest
    → IsResolved
        (λ l. l)
        table
        ((c ∷ source) ∷ sources)
        (do name ← resolve_source (c ∷ source) found; names ← rest; success (name ∷ names))
unfolding resolve_source
IsResolved-cons table c source sources none rest e h = ground arith
IsResolved-cons table c source sources (some name) (failure x) e h = ground arith
IsResolved-cons table c source sources (some name) (success names) e h = ground arith

resolve_sources-IsResolved :
    (table : Dict Text Text) (sources : List Text)
    → IsResolved (λ l. l) table sources (resolve_sources sources table)
unfolding resolve_sources
resolve_sources-IsResolved table [] = (refl, refl)
resolve_sources-IsResolved table ([] ∷ sources) = refl
resolve_sources-IsResolved table ((c ∷ source) ∷ sources) =
    IsResolved-cons table c source sources (lookup (c ∷ source) table) _ refl
      (resolve_sources-IsResolved table sources)

-- Names are resolved exactly if every reference has a source that the project defines. They are
-- then the names of the definitions (or the sources, where those have none), in order and once each.
pub resolve_names_lem :
    (sources : List Text) (table : Dict Text Text)
    → IsResolved normalize_names table sources (resolve_names sources table)
unfolding resolve_names
resolve_names_lem sources table =
    go (resolve_sources sources table) (resolve_sources-IsResolved table sources)
  where
    go :
        (r : Result ReferenceError (List Text))
        → IsResolved (λ l. l) table sources r
        → IsResolved normalize_names table sources (do names ← r; success (normalize_names names))
    go (success names) h = (h.0, ap normalize_names h.1)
    go (failure e) h = h

-- The service under a name has been parsed; a name that the project lacks stands as it did.
abbrev pub IsParsed :
    Project
    → Dict Text DesiredService
    → Dict Text DesiredService
    → Text
    → Option ServiceConfig
    → Type 0
IsParsed project before after n none = lookup n after ≡ lookup n before
IsParsed project before after n (some c) =
    (d : DesiredService) × (parse_service project n c ≡ success d) × (lookup n after ≡ some d)

IsParsed-cons :
    (project : Project) (before after : Dict Text DesiredService) (k n : Text) (c : ServiceConfig)
    (d : DesiredService) (found : Option ServiceConfig)
    → parse_service project k c ≡ success d
    → (n ≡ k → found ≡ none)
    → IsParsed project (insert k d before) after n found
    → IsParsed project before after n (if n == k then some c else found)
IsParsed-cons project before after k n c d none p fresh h = elim (Bool-cases (n == k)) [
  | inl same ↦
      let e : n ≡ k = (==_iff n k).0 same in
      rw same (d, rw e p, h ∙ lookup-insert n k d before ∙ rw same)
  | inr other ↦ rw other (h ∙ lookup-insert n k d before ∙ rw other)
]
IsParsed-cons project before after k n c d (some c') p fresh h = elim (Bool-cases (n == k)) [
  | inl same ↦ absurd (some-ne-none c' (fresh ((==_iff n k).0 same)))
  | inr other ↦ rw other h
]

parse_services-IsParsed :
    (project : Project) (configs : Dict Text ServiceConfig) (before : Dict Text DesiredService)
    {after : Dict Text DesiredService} (n : Text)
    → NodupKeys configs
    → parse_services project configs before ≡ success after
    → IsParsed project before after n (lookup n configs)
unfolding parse_services lookup
parse_services-IsParsed project [] before n u e = ground arith
parse_services-IsParsed project ((k, c) ∷ configs) before n u e =
    let (d, parsed, rest) = >>=-eq-success (parse_service project k c) _ e in
    IsParsed-cons project before _ k n c d (lookup n configs) parsed (λ same. rw same u.0)
      (parse_services-IsParsed project configs (insert k d before) n u.1 rest)

-- A file that is accepted has a body that is not empty, and the project that compose-go makes of
-- it has services. The result holds, under the name of each service of the project, that service
-- as it is parsed, and nothing under any other name.
pub parse_desired_state-IsParsed :
    (load : Text → Result Text Project) (body : Text) (project : Project) (state : DesiredState)
    (n : Text)
    → load body ≡ success project
    → NodupKeys project.services
    → parse_desired_state load body ≡ success state
    → (body ≢ [])
      × (project.services ≢ [])
      × IsParsed project [] state.services n (lookup n project.services)
unfolding parse_desired_state
parse_desired_state-IsParsed load [] project state n loaded u e = cc
parse_desired_state-IsParsed load (c ∷ body) project state n loaded u e =
    let e₁ = rw loaded at e in
    let (some_services, e₂) = require-eq-success (not (is_nil project.services)) _ _ e₁ in
    let (services, parsed, e₃) = >>=-eq-success (parse_services project project.services []) _ e₂ in
    let same : services ≡ state.services = cc in
    (
      λ empty. cc,
      (λ empty. ground arith),
      subst (λ m. IsParsed project [] m n (lookup n project.services)) same
          (parse_services-IsParsed project project.services [] n u parsed),
    )
