-- ===== src/Lib.antt =====
-- A model of swarm-sentinel, the watcher that compares the services of a Docker Swarm with the
-- compose file that describes them and reports what changes.
--
-- How the program works. A runner (internal/runner/runner.go) makes a cycle at once and then one at
-- each tick. A cycle fetches the compose file with an ETag (internal/compose/fetcher.go), parses it
-- into a desired state where its fingerprint is new (internal/compose/parse.go, fingerprint.go), reads
-- the actual state off the Docker API (internal/swarm/docker_client.go, pagination.go), evaluates the
-- health of every service and of the stack (internal/health/evaluate.go), counts for how many cycles
-- a status has lasted (stabilizeTransitions of the runner), derives the transitions to report
-- (internal/transition/transition.go), saves the snapshot of its stack in the state that all the
-- stacks share (internal/state), and last updates metrics and calls the notifier (internal/notify).
-- The program (cmd/swarm-sentinel/main.go) loads its configuration (internal/config) and starts one
-- runner or, with a mapping file, a coordinator (internal/coordinator) that runs a runner for each
-- stack over one store. The health endpoints (internal/healthcheck) answer by the last cycle.
--
-- Which file models what:
--   Base        what the other files share: Go's integers of 64 bits with their wrap-around (Int),
--               bytes and the functions of package strings (Bytes), maps (Dict), sorting (Sort),
--               results with errors (Outcome), strconv.Atoi (Numeral)
--   Compose     internal/compose: Types (DesiredState, FetchResult), Names (normalizeNames), Parse
--               (resolveConfigNames, resolveSecretNames, ParseDesiredState), Project (proofs on it),
--               Fetch (NewHTTPFetcher, Fetch, doFetch, calculateBackoff, isRetryableError,
--               readWithLimit), Fetching (proofs on it)
--   Config      internal/config: Types (Config and its defaults), Url (validateURL, validateHTTPURL,
--               validateNotMetadataEndpoint), Env (lookupTrimmed, lookupBool, loadSecretFromFile,
--               FindMappingFile), Load (Load), Mapping (mapping.go); proofs in Allowed, Stacks and Valid
--   Swarm       internal/swarm: Types, Image (NormalizeImage), Docker (the fields read of the SDK's
--               types), Service (normalizeServiceName, serviceModeAndReplicas, summarizeTasks), Retry
--               (withRetry, isRetryableDockerError), Pagination (pagination.go), Client (listServices,
--               listTasks, collectServiceState, GetActualState), Connect (NewDockerClient); proofs in
--               RetryBounds, RetrySteps, RetryEnds, Pages, Paging and Inventory
--   Health      internal/health: Types (health.go), Evaluate (evaluate.go); proofs in Drift, Service
--               and Stack
--   State       internal/state: Types (state.go), File (FileStore: Load, Save); proofs in
--               Atomic and Cell
--   Transition  internal/transition: Types, Detect (DetectServiceTransitions), Laws (proofs)
--   Runner      internal/runner: Options (New and its options), Stabilize (stabilizeTransitions),
--               Types (the settings, the memory of the runner, its collaborators and its effects),
--               Cycle (RunOnce, defaultRunOnce, evaluateAndPersist, recordMetrics, Run), Phases (the
--               cycle cut at withStateLock); proofs in Sorted, Alerts, History, Streak, Persist, Effects,
--               Errors, Refresh and Loop
--   Metrics     internal/metrics: Client (what is used of the Prometheus client), Collectors (metrics.go
--               and the calls of it); proofs in Totals, Published, Readings, Cycles and Saved
--   Notify      internal/notify: Slack (buildSlackMessages, buildSlackMessage, buildTransitionBlock and
--               their formats), Batches (proofs on it), Poster (postOnce, postWithRetry,
--               parseRetryAfter), Posting (proofs on it), Limits (newHTTPPoster, getLimiter,
--               waitForRateLimit), Pacing (proofs on it), Fanout (Notify of slack.go, webhook.go,
--               multi.go, noop.go and dry_run.go)
--   Coordinator internal/coordinator: Spawn (New, spawnRunner, the loop of Run), Turns (the cycles of
--               the runners over one store, one after the other), Threads (the runners as threads, step
--               by step), Lifecycle (Run and Stop with the goroutines), Copy (GetRunners); proofs in
--               Outcomes, Own, Others, Steps, Isolation and Fleet on Spawn and Turns, in Sections, Later,
--               Critical, Locked, UnderLock, Serial and Waiting on Threads, and in Stopping and Ending on
--               Lifecycle
--   Healthcheck internal/healthcheck and internal/server: Tracker (tracker.go, handlers.go, Start of
--               server.go), Answers (proofs on it), Tracked (the cycles of runners that share a
--               tracker)
--   Main        cmd/swarm-sentinel/main.go: Start (main, secretStatus), Modes (proofs on it),
--               Probe (runHealthcheck); Level (parseLevel and NewWithLevel of
--               internal/logging)
--   Tests       runs on concrete data, and the theorems at such data
--
-- How the code is read. A function of the code is a function of the same name; a pointer that may be
-- nil is an option; a value with an error is a Result. A map is an association list, read in the order
-- in which the loop happens to take it, and the theorems on maps hold for every list whose keys are
-- distinct, so for every order. An int is an integer that wraps at 64 bits; a time is the number that
-- the clock shows; texts are lists of bytes, and lower case and white space are those of ASCII.
-- Fields of the code that no modelled function reads are left out.
--
-- Loops. The loops over lists are structural. withRetry runs on the attempts that are left, four
-- of them, Fetch on the retries that are left, and the paging on the levels below a prefix, at
-- most one; these are the bounds of the code. Run consumes a list of the events that wake it, and
-- postWithRetry, which the code does not bound, a list of the attempts that it comes to.
--
-- Goroutines. The runners of a coordinator meet each other only in the store. Threads has a step for
-- each call that touches it, which are the lock, Load, Save and the unlock, and its steps interleave in
-- any order; what a runner does before the lock and after the unlock reads nothing that another one
-- changes. Turns, on the other hand, takes whole cycles one after the other.
--
-- What is a parameter: the compose-go loader and SHA-256 (the functions in Runner.Types.World), the
-- HTTP client and the server (Compose.Fetch.Network, Notify.Poster.Attempt), the Docker API
-- (Swarm.Client.Daemon), the clock, the state store and the notifier (Runner.Types.World), the JSON
-- encoding and the faults of the file system (State.File), the environment, the files,
-- time.ParseDuration, url.Parse and filepath.Join (Config.Env.System), the YAML decoder, the backoff
-- package, http.ParseTime and the templates of package notify, the rate limiter
-- (Notify.Limits.RateLimiting, with what it documents in IsPaced), the certificates and the Docker SDK
-- (Main.Start.Machine), and the Prometheus client (Metrics.Client.Prometheus, with what it documents in
-- IsDocumented, which asks for valid descriptors with distinct names and for values of labels in UTF-8).
-- Each answers at each attempt whatever it likes; the theorems name what they ask of it. The effects of
-- a cycle are a list in the order in which they happen.
--
-- Not modelled: log lines, the handler of the Prometheus registry, the servers of net/http and their
-- shutdown, several calls of Run or Stop of one coordinator, and of cmd/swarm-sentinel the flags and
-- the signals.
pub mod Base
pub mod Compose
pub mod Swarm
pub mod Health
pub mod State
pub mod Transition
pub mod Runner
pub mod Metrics
pub mod Notify
pub mod Healthcheck
pub mod Config
pub mod Coordinator
pub mod Main
mod Tests
