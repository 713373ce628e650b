-- ===== src/Tests/Pacing.antt =====
-- A limiter that lets events through as soon as its interval allows, and the posts of two stacks.
use swarm_sentinel.Base.{
  ℕ, Text, text, List, [], ◌∷◌, Option, none, some, success, refl, ◌+◌, arith, if◌then◌else◌, ltb,
}
use swarm_sentinel.Notify.Limits.{default_timing, RateLimiting, IsPaced, new_http_poster, wait_all}
use swarm_sentinel.Notify.Pacing.{passes_of, AreSpaced, wait_all_lem}

record Bucket : Type 0 where
  interval : ℕ
  last : Option ℕ

abbrev pass_time : Bucket → ℕ → ℕ
pass_time b now = elim b.last [
  | none ↦ now
  | some u ↦ if ltb now (u + b.interval) then u + b.interval else now
]

abbrev eager : RateLimiting
eager = record {
  Limiter = Bucket;
  new_limiter = λ interval burst. record { interval = interval; last = none };
  wait = λ b now. (success (pass_time b now), record b { last = some (pass_time b now) });
}

eager-IsPaced : IsPaced eager
eager-IsPaced = record {
  interval = λ b. b.interval;
  last = λ b. b.last;
  begins = λ i. (refl, refl);
  lets_through = λ b now t passed. ground arith;
  gives_up = λ b now e failed. absurd (ground (arith, failed));
}

abbrev calls : List (Text × ℕ)
calls = (text "shop", 5) ∷ (text "blog", 6) ∷ (text "shop", 7) ∷ []

wait_all_lem_example :
    AreSpaced default_timing.rate_interval none
      (passes_of (text "shop") (wait_all eager calls (new_http_poster eager default_timing)).0)
wait_all_lem_example = wait_all_lem eager eager-IsPaced default_timing calls (text "shop") refl
