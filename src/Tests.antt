-- ===== src/Tests.antt =====
-- Runs of the definitions on concrete data, and the theorems at such data.
mod Health
mod Runner
mod Cycle
mod Compose
mod Swarm
mod Fetch
mod State
mod Notify
mod Healthcheck
mod Config
mod Coordinator
mod Threads
mod Metrics
mod Lifecycle
mod Pacing
mod Main
