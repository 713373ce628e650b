-- ===== src/Coordinator/Outcomes.antt =====
-- Which stacks get a runner: Run and spawnRunner of internal/coordinator/coordinator.go.
use mathlib.Core.Path.{subst}
use swarm_sentinel.Base.{
  ℕ, ◌<◌, length, pos, ◌<ℤ◌, Text, text, text_eq, trim_space, trim_space-visible, has_prefix,
  has_prefix-take, drop, List, [], ◌∷◌, ◌++◌, none, some, Bool, true, false, ◌||◌, Bool-cases, All,
  is_nil, inl, inr, ◌⊎◌, ◌==◌, ==_iff, ◌≡◌, ◌∙◌, sym, ap, refl, arith, success, failure,
  Result-cases,
}
use swarm_sentinel.Base.Dict.{Dict, lookup, insert, lookup-insert}
use swarm_sentinel.Compose.Fetch.{new_http_fetcher}
use swarm_sentinel.Config.Url.{Parser}
use swarm_sentinel.Config.Mapping.{StackMapping, validate_mappings}
use swarm_sentinel.Config.Stacks.{HasDistinctNames, validate_mappings_lem}
use swarm_sentinel.Runner.Options.{
  Runner, with_compose_fetcher, with_swarm_client, with_stack_name, with_state_store, with_notifier,
  with_alert_stabilization_cycles, with_cycle_tracker, with_metrics, with_stacks_evaluated,
  apply_runner_options, new_runner,
}
use swarm_sentinel.Coordinator.Spawn.{
  Coordinator, Spawned, stack_timeout, runner_options, spawn_runner, spawn_all, spawn,
}

-- The test of NewHTTPFetcher on a URL, which goes by the letters as they are written.
abbrev pub has_plain_scheme : Text → Bool
has_plain_scheme url = has_prefix url (text "http://") || has_prefix url (text "https://")

-- What the coordinator has for a stack: a runner under its name, or an error.
abbrev pub HasOutcome : Dict Text Runner → Dict Text Text → StackMapping → Type 0
HasOutcome runners errors m =
    ((has_plain_scheme m.compose_url ≡ true)
      × ((r : Runner) × (lookup m.name runners ≡ some r) × (r.settings.stack_name ≡ m.name))
      × (lookup m.name errors ≡ none))
    ⊎ ((has_plain_scheme m.compose_url ≡ false)
        × (lookup m.name runners ≡ none)
        × ((e : Text) × (lookup m.name errors ≡ some e)))

starts-visible :
    (c : ℕ) (p url : Text)
    → 32 < c
    → has_prefix url (c ∷ p) ≡ true
    → is_nil (trim_space url) ≡ false
starts-visible c p url visible h =
    ap (λ s. is_nil (trim_space s)) (has_prefix-take url (c ∷ p) h)
    ∙ trim_space-visible c (p ++ drop (length (c ∷ p)) url) visible

plain_scheme-visible : (url : Text) → has_plain_scheme url ≡ true → is_nil (trim_space url) ≡ false
plain_scheme-visible url h = elim (Bool-cases (has_prefix url (text "http://"))) [
  | inl http ↦ starts-visible b'h' (text "ttp://") url (omega arith) http
  | inr other ↦ starts-visible b'h' (text "ttps://") url (omega arith) (ground arith)
]

spawn_runner-plain :
    (c : Coordinator) (m : StackMapping)
    → pos 0 <ℤ c.cfg.compose_timeout
    → has_plain_scheme m.compose_url ≡ true
    → (r : Runner) × (spawn_runner c m ≡ success r) × (r.settings.stack_name ≡ m.name)
unfolding spawn_runner new_http_fetcher stack_timeout runner_options new_runner apply_runner_options
    with_compose_fetcher with_swarm_client with_stack_name with_state_store with_notifier
    with_alert_stabilization_cycles with_cycle_tracker with_metrics with_stacks_evaluated
spawn_runner-plain c m positive plain = elim (Result-cases (spawn_runner c m)) [
  | inl (r, made) ↦ (r, made, ground arith)
  | inr (e, failed) ↦ absurd (ground (arith, plain_scheme-visible m.compose_url plain))
]

spawn_runner-other :
    (c : Coordinator) (m : StackMapping)
    → has_plain_scheme m.compose_url ≡ false
    → (e : Text) × (spawn_runner c m ≡ failure e)
unfolding spawn_runner new_http_fetcher
spawn_runner-other c m other = elim (Result-cases (spawn_runner c m)) [
  | inl (r, made) ↦ absurd (ground arith)
  | inr (e, failed) ↦ (e, failed)
]

-- The names of the rest are others.
abbrev AreOthers : Text → List StackMapping → Type 0
AreOthers n = All (λ o. (o.name == n) ≡ false)

==-false_comm : (a b : Text) → (a == b) ≡ false → (b == a) ≡ false
==-false_comm a b differ = elim (Bool-cases (b == a)) [
  | inl same ↦ absurd (ground (arith, (==_iff a b).1 (sym ((==_iff b a).0 same))))
  | inr other ↦ other
]

lookup-insert_other {ℓ} :
    {V : Type ℓ} (n name : Text) (v : V) (d : Dict Text V)
    → (name == n) ≡ false
    → lookup n (insert name v d) ≡ lookup n d
lookup-insert_other n name v d other =
    lookup-insert n name v d ∙ ground (arith, ==-false_comm name n other)

spawn_all-others :
    (c : Coordinator) (n : Text) (ms : List StackMapping) (s : Spawned)
    → AreOthers n ms
    → (lookup n (spawn_all c ms s).runners ≡ lookup n s.runners)
      × (lookup n (spawn_all c ms s).runner_errors ≡ lookup n s.runner_errors)
unfolding spawn_all
spawn_all-others c n [] s others = (refl, refl)
spawn_all-others c n (m ∷ ms) s (other, others) = elim (Result-cases (spawn_runner c m)) [
  | inl (r, made) ↦
      let s' = record s { runners = insert m.name r s.runners } in
      let (runners, errors) = spawn_all-others c n ms s' others in
      rw (made, spawn_all) (runners ∙ lookup-insert_other n m.name r s.runners other, errors)
  | inr (e, failed) ↦
      let s' = record s { runner_errors = insert m.name e s.runner_errors } in
      let (runners, errors) = spawn_all-others c n ms s' others in
      rw (failed, spawn_all)
        (runners, errors ∙ lookup-insert_other n m.name e s.runner_errors other)
]

-- Nothing stands under the names of the stacks.
abbrev AreFree : List StackMapping → Spawned → Type 0
AreFree ms s =
    All (λ m. (lookup m.name s.runners ≡ none) × (lookup m.name s.runner_errors ≡ none)) ms

-- Another name leaves them free.
insert-AreFree :
    (n : Text) (r : Runner) (ms : List StackMapping) (s : Spawned)
    → AreOthers n ms
    → AreFree ms s
    → AreFree ms (record s { runners = insert n r s.runners })
insert-AreFree n r [] s others free = tt
insert-AreFree n r (m ∷ ms) s (other, others) ((no_runner, no_error), free) = (
  (lookup-insert_other m.name n r s.runners (==-false_comm m.name n other) ∙ no_runner, no_error),
  insert-AreFree n r ms s others free,
)

insert_error-AreFree :
    (n e : Text) (ms : List StackMapping) (s : Spawned)
    → AreOthers n ms
    → AreFree ms s
    → AreFree ms (record s { runner_errors = insert n e s.runner_errors })
insert_error-AreFree n e [] s others free = tt
insert_error-AreFree n e (m ∷ ms) s (other, others) ((no_runner, no_error), free) = (
  (
    no_runner,
    lookup-insert_other m.name n e s.runner_errors (==-false_comm m.name n other) ∙ no_error,
  ),
  insert_error-AreFree n e ms s others free,
)

lookup-insert_own {ℓ} :
    {V : Type ℓ} (n : Text) (v : V) (d : Dict Text V) → lookup n (insert n v d) ≡ some v
lookup-insert_own n v d = lookup-insert n n v d ∙ ground (arith, (==_iff n n).1 refl)

spawn_all-success :
    (c : Coordinator) (m : StackMapping) (ms : List StackMapping) (s : Spawned) (r : Runner)
    → spawn_runner c m ≡ success r
    → spawn_all c ms (record s { runners = insert m.name r s.runners }) ≡ spawn_all c (m ∷ ms) s
unfolding spawn_all
spawn_all-success c m ms s r made = rw (made, spawn_all) refl

spawn_all-failure :
    (c : Coordinator) (m : StackMapping) (ms : List StackMapping) (s : Spawned) (e : Text)
    → spawn_runner c m ≡ failure e
    → spawn_all c ms (record s { runner_errors = insert m.name e s.runner_errors })
      ≡ spawn_all c (m ∷ ms) s
unfolding spawn_all
spawn_all-failure c m ms s e failed = rw (failed, spawn_all) refl

-- The stacks have their outcomes at the end of the loop.
abbrev HaveOutcomes : List StackMapping → Spawned → Type 0
HaveOutcomes ms s = All (HasOutcome s.runners s.runner_errors) ms

spawn_all-HaveOutcomes :
    (c : Coordinator) (ms : List StackMapping) (s : Spawned)
    → pos 0 <ℤ c.cfg.compose_timeout
    → HasDistinctNames ms
    → AreFree ms s
    → HaveOutcomes ms (spawn_all c ms s)
spawn_all-HaveOutcomes c [] s positive distinct free = tt
spawn_all-HaveOutcomes c (m ∷ ms) s positive (others, distinct) ((no_runner, no_error), free) =
    elim (Bool-cases (has_plain_scheme m.compose_url)) [
      | inl plain ↦
          let (r, made, named) = spawn_runner-plain c m positive plain in
          let s' = record s { runners = insert m.name r s.runners } in
          let (runners, errors) = spawn_all-others c m.name ms s' others in
          subst (HaveOutcomes (m ∷ ms)) (spawn_all-success c m ms s r made) (
            inl (
              plain,
              (r, runners ∙ lookup-insert_own m.name r s.runners, named),
              errors ∙ no_error,
            ),
            spawn_all-HaveOutcomes c ms s' positive distinct
                (insert-AreFree m.name r ms s others free),
          )
      | inr other ↦
          let (e, failed) = spawn_runner-other c m other in
          let s' = record s { runner_errors = insert m.name e s.runner_errors } in
          let (runners, errors) = spawn_all-others c m.name ms s' others in
          subst (HaveOutcomes (m ∷ ms)) (spawn_all-failure c m ms s e failed) (
            inr (
              other,
              runners ∙ no_runner,
              (e, errors ∙ lookup-insert_own m.name e s.runner_errors),
            ),
            spawn_all-HaveOutcomes c ms s' positive distinct
                (insert_error-AreFree m.name e ms s others free),
          )
    ]

empty-AreFree : (ms : List StackMapping) → AreFree ms (record { runners = []; runner_errors = [] })
unfolding lookup
empty-AreFree [] = tt
empty-AreFree (m ∷ ms) = ((refl, refl), empty-AreFree ms)

-- With the stacks of a mapping file that is accepted and a timeout above zero, every stack whose URL
-- starts with "http://" or "https://" in lower case gets a runner of its name and no error; every
-- other one gets an error and no runner.
pub spawn-outcomes :
    (c : Coordinator) (parse : Parser)
    → pos 0 <ℤ c.cfg.compose_timeout
    → validate_mappings parse c.mappings ≡ success tt
    → All (HasOutcome (spawn c).runners (spawn c).runner_errors) c.mappings
unfolding spawn
spawn-outcomes c parse positive accepted =
    let (some_ms, stacks, distinct) = (validate_mappings_lem parse c.mappings).0 accepted in
    spawn_all-HaveOutcomes c c.mappings (record { runners = []; runner_errors = [] }) positive
      distinct (empty-AreFree c.mappings)
