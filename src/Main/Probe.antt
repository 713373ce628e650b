-- ===== src/Main/Probe.antt =====
-- The health check of a container: runHealthcheck of cmd/swarm-sentinel/main.go.
use swarm_sentinel.Base.{
  ℕ, nat_eq, Text, text, [], ◌∷◌, concat_texts, Option, none, some, is_nil, Result, success,
  failure, ◌==◌, ◌≡◌, ◌↔◌, arith, if◌then◌else◌,
}

-- The URL that is asked, with the value of SS_HEALTH_PORT, none if it is not set.
unfoldable pub probe_url : Option Text → Text
unfolding concat_texts
probe_url port =
    let given : Text = elim port [ none ↦ [] | some value ↦ value ] in
    concat_texts (
      text "http://localhost:"
      ∷ (if is_nil given then text "8080" else given)
      ∷ text "/healthz"
      ∷ [])

-- The exit code, with client.Get a parameter that gives the status code of the response.
unfoldable pub run_healthcheck : Option Text → (Text → Result Text ℕ) → ℕ
unfolding probe_url
run_healthcheck port get = elim (get (probe_url port)) [
  | failure e ↦ 1
  | success status ↦ if status == 200 then 0 else 1
]

-- The exit code is 0 exactly if the endpoint is reached and answers 200.
pub run_healthcheck_lem :
    (port : Option Text) (get : Text → Result Text ℕ)
    → (run_healthcheck port get ≡ 0) ↔ (get (probe_url port) ≡ success 200)
unfolding run_healthcheck
run_healthcheck_lem port get = (λ h. ground arith, λ h. ground arith)
