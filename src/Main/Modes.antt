-- ===== src/Main/Modes.antt =====
-- Which of its two modes main of cmd/swarm-sentinel/main.go enters.
use mathlib.Core.Path.{subst}
use swarm_sentinel.Config.Valid.{load_config-IsValid}
use swarm_sentinel.Coordinator.Outcomes.{HasOutcome, spawn-outcomes}
use swarm_sentinel.Base.{
  All, ◌<ℤ◌, pos, int_eq, Text, text_eq, List, [], true, false, Bool-cases, not, is_nil, inl, inr,
  ◌⊎◌, ◌≡◌, ◌∙◌, sym, ap, refl, arith, Result, success, require, success-injective, map_failure,
  map_failure-eq-success, >>=-eq-success, >>-eq-success, ◌>>=◌, ◌>>◌,
}
use swarm_sentinel.Config.Env.{find_mapping_file}
use swarm_sentinel.Config.Url.{Parser}
use swarm_sentinel.Config.Types.{Config}
use swarm_sentinel.Config.Load.{load_config}
use swarm_sentinel.Config.Mapping.{
  StackMapping, read_failed, parse_failed, load_mapping_file, validate_mappings,
}
use swarm_sentinel.Compose.Fetch.{new_http_fetcher}
use swarm_sentinel.Runner.Options.{Runner}
use swarm_sentinel.Swarm.Retry.{with_retry}
use swarm_sentinel.Swarm.Connect.{new_docker_client}
use swarm_sentinel.Notify.Fanout.{new_webhook_notifier}
use swarm_sentinel.Coordinator.Spawn.{
  Coordinator, share_state_store, share_notifier, apply_stabilization, share_cycle_tracker,
  share_metrics, apply_coordinator_options, spawn, new_coordinator,
}
use swarm_sentinel.Main.Start.{
  Machine, Mode, coordinates, runs_one, Started, config_failed, docker_failed, docker_unreachable,
  webhook_failed, no_mapping_file, mapping_failed, compose_url_required, fetcher_failed,
  start_coordinator, start_runner, start_mode, tls_of, start_with, start,
}

load_mapping_file-accepted :
    (parse : Parser) (read : Text → Result Text Text)
    (decode : Text → Result Text (List StackMapping)) (path : Text) (ms : List StackMapping)
    → is_nil path ≡ false
    → load_mapping_file parse read decode path ≡ success ms
    → validate_mappings parse ms ≡ success tt
unfolding load_mapping_file
load_mapping_file-accepted parse read decode path ms given h =
    let h0 : (map_failure read_failed (read path) >>= λ bytes.
    map_failure parse_failed (decode bytes) >>= λ stacks.
    validate_mappings parse stacks >> success stacks)
        ≡ success ms =
      ground arith in
    let (bytes, e1, h1) = >>=-eq-success (map_failure read_failed (read path)) _ h0 in
    let (stacks, e2, h2) = >>=-eq-success (map_failure parse_failed (decode bytes)) _ h1 in
    let (accepted, same) = >>-eq-success (validate_mappings parse stacks) (success stacks) h2 in
    ground arith

-- The mode that a mapping file leads to, and the one without.
abbrev pub Coordinates : Machine → Config → Mode → Type 0
Coordinates machine cfg mode =
    (c : Coordinator) × (mode ≡ coordinates c)
    × (c.cfg ≡ cfg)
    × (c.has_state_store ≡ true)
    × (c.has_state_lock ≡ true)
    × (validate_mappings machine.system.parse_url c.mappings ≡ success tt)

abbrev pub RunsOne : Config → Mode → Type 0
RunsOne cfg mode =
    (r : Runner) × (mode ≡ runs_one r)
    × (r.has_state_store ≡ true)
    × (r.has_state_lock ≡ true)
    × (r.settings.stack_name ≡ cfg.stack_name)

start_coordinator-Coordinates :
    (machine : Machine) (cfg : Config) (path : Text) (mode : Mode)
    → is_nil path ≡ false
    → start_coordinator machine cfg path ≡ success mode
    → Coordinates machine cfg mode
unfolding start_coordinator new_coordinator apply_coordinator_options share_state_store
    share_notifier apply_stabilization share_cycle_tracker share_metrics
start_coordinator-Coordinates machine cfg path mode given h =
    let load =
      load_mapping_file machine.system.parse_url machine.system.read_file machine.decode_mappings
        path in
    let (ms, loaded, rest) = >>=-eq-success (map_failure mapping_failed load) _ h in
    (
      _,
      sym (success-injective rest),
      refl,
      refl,
      refl,
      load_mapping_file-accepted machine.system.parse_url machine.system.read_file
          machine.decode_mappings path ms given (map_failure-eq-success mapping_failed load loaded),
    )

start_runner-RunsOne :
    (cfg : Config) (mode : Mode) → start_runner cfg ≡ success mode → RunsOne cfg mode
unfolding start_runner
start_runner-RunsOne cfg mode h =
    let fetch =
      map_failure fetcher_failed
        (new_http_fetcher cfg.compose_url cfg.compose_timeout (pos 0) []) in
    let (fetcher, made, rest) =
      >>=-eq-success (require (not (is_nil cfg.compose_url)) compose_url_required >> fetch) _ h in
    (_, sym (success-injective rest), refl, refl, refl)

start_with-mode :
    (machine : Machine) (cfg : Config) (s : Started)
    → start_with machine cfg ≡ success s
    → (cfg ≡ s.cfg)
      × (path : Text) × (find_mapping_file machine.system ≡ success path)
      × (start_mode machine cfg path ≡ success s.mode)
unfolding start_with
start_with-mode machine cfg s h =
    let system = machine.system in
    let (client, e2, h2) =
      >>=-eq-success
        (map_failure docker_failed (
          new_docker_client system.parse_url machine.load_error machine.sdk_error
            cfg.docker_proxy_url cfg.docker_api_timeout (tls_of cfg)))
        _ h in
    let (pong, e3, h3) =
      >>=-eq-success (map_failure docker_unreachable (with_retry machine.ping []).result) _ h2 in
    let (webhook, e4, h4) =
      >>=-eq-success
        (map_failure webhook_failed (
          new_webhook_notifier cfg.webhook_url cfg.webhook_template machine.webhook_channel
            machine.parse_template))
        _ h3 in
    let (path, e5, h5) =
      >>=-eq-success (map_failure no_mapping_file (find_mapping_file system)) _ h4 in
    let (mode, e6, h6) = >>=-eq-success (start_mode machine cfg path) _ h5 in
    (
      ap (λ r. r.cfg) (success-injective h6),
      path,
      map_failure-eq-success no_mapping_file (find_mapping_file system) e5,
      e6 ∙ ap (λ r. success r.mode) (success-injective h6),
    )

-- The coordinator, with what its loop gives each stack: a runner or an error.
abbrev pub Supervises : Machine → Config → Mode → Type 0
Supervises machine cfg mode =
    (c : Coordinator) × (mode ≡ coordinates c)
    × (c.cfg ≡ cfg)
    × (c.has_state_store ≡ true)
    × (c.has_state_lock ≡ true)
    × (validate_mappings machine.system.parse_url c.mappings ≡ success tt)
    × All (HasOutcome (spawn c).runners (spawn c).runner_errors) c.mappings

Coordinates-Supervises :
    (machine : Machine) (cfg : Config) (mode : Mode)
    → load_config machine.system ≡ success cfg
    → Coordinates machine cfg mode
    → Supervises machine cfg mode
Coordinates-Supervises machine cfg mode loaded (c, same, own, store, lock, accepted) =
    let (path, found, in_range, consistent) = load_config-IsValid machine.system cfg loaded in
    let positive : pos 0 <ℤ c.cfg.compose_timeout =
      subst (λ (o : Config). pos 0 <ℤ o.compose_timeout) (sym own) in_range.1 in
    (
      c,
      same,
      own,
      store,
      lock,
      accepted,
      spawn-outcomes c machine.system.parse_url positive accepted,
    )

start_mode-modes :
    (machine : Machine) (cfg : Config) (path : Text) (mode : Mode)
    → load_config machine.system ≡ success cfg
    → start_mode machine cfg path ≡ success mode
    → ((is_nil path ≡ false) × Supervises machine cfg mode)
      ⊎ ((is_nil path ≡ true) × RunsOne cfg mode)
unfolding start_mode
start_mode-modes machine cfg path mode loaded h = elim (Bool-cases (is_nil path)) [
  | inl none_given ↦ inr (none_given, start_runner-RunsOne cfg mode (ground arith))
  | inr given ↦ inl (
    given,
    Coordinates-Supervises machine cfg mode loaded
        (start_coordinator-Coordinates machine cfg path mode given (ground arith)),
  )
]

-- When main starts, its configuration is one that Load returns. With a mapping file it runs the
-- coordinator, with a shared store and its lock and with stacks that validateMappings accepts, and
-- every stack has a runner if its URL starts with http:// or https:// in lower case, and else an
-- error. Without one it runs one runner, with a store and a lock, for the stack that is configured.
pub start-mode :
    (machine : Machine) (s : Started)
    → start machine ≡ success s
    → (load_config machine.system ≡ success s.cfg)
      × (path : Text) × (find_mapping_file machine.system ≡ success path)
      × (((is_nil path ≡ false) × Supervises machine s.cfg s.mode)
          ⊎ ((is_nil path ≡ true) × RunsOne s.cfg s.mode))
unfolding start
start-mode machine s h =
    let load = load_config machine.system in
    let (cfg, e, h1) = >>=-eq-success (map_failure config_failed load) _ h in
    let (same, path, found, entered) = start_with-mode machine cfg s h1 in
    let loaded : load ≡ success s.cfg =
      map_failure-eq-success config_failed load e ∙ ap success same in
    let entered' : start_mode machine s.cfg path ≡ success s.mode =
      sym (ap (λ (o : Config). start_mode machine o path) same) ∙ entered in
    (loaded, path, found, start_mode-modes machine s.cfg path s.mode loaded entered')
