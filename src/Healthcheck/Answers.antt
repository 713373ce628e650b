-- ===== src/Healthcheck/Answers.antt =====
-- What the health endpoints answer after a history of cycles: internal/healthcheck.
use swarm_sentinel.Base.{
  ℕ, ◌+◌, ◌*◌, ◌^◌, ◌<◌, ltb, leb, ℤ, pos, leb_ℤ, ◌-ℤ◌, +ᵢ-pos, List, [], ◌∷◌, Option, none, some,
  All, ◌&&◌, ◌≡◌, ◌∙◌, refl, arith, if◌then◌else◌,
}
use swarm_sentinel.Healthcheck.Tracker.{
  Snapshot, Tracker, new_tracker, record_cycle, milliseconds, tracker_snapshot, time_sub,
  is_healthy, empty_snapshot, answer_by, health_handler, ready_handler,
}

-- A cycle that has been recorded.
pub record Recorded : Type 0 where
  pub time : ℕ
  pub duration : ℤ
  pub stacks : ℤ

abbrev pub record_all : List Recorded → Tracker → Tracker
record_all [] t = t
record_all (c ∷ cs) t = record_all cs (record_cycle (pos c.time) c.duration c.stacks t)

-- The last of the cycles.
abbrev pub last_recorded : List Recorded → Option Recorded
last_recorded [] = none
last_recorded (c ∷ cs) = elim (last_recorded cs) [ none ↦ some c | some d ↦ some d ]

-- What the tracker holds of the last cycle.
abbrev tracker_at : Option Recorded → Tracker → Tracker
tracker_at none t = t
tracker_at (some c) t = record_cycle (pos c.time) c.duration c.stacks t

record_all-last :
    (cs : List Recorded) (t : Tracker) → record_all cs t ≡ tracker_at (last_recorded cs) t
unfolding record_cycle
record_all-last [] t = refl
record_all-last (c ∷ cs) t =
    record_all-last cs (record_cycle (pos c.time) c.duration c.stacks t) ∙ ground arith

time_sub-leb :
    (now last limit : ℕ)
    → now < 2 ^ 63
    → last < 2 ^ 63
    → leb_ℤ (time_sub (pos now) (pos last)) (pos limit) ≡ leb now (last + limit)
unfolding time_sub ◌-ℤ◌
time_sub-leb now last limit early past = ground arith

is_healthy_at :
    (now poll last : ℕ) (duration stacks : ℤ) (t : Tracker)
    → poll < 2 ^ 62
    → now < 2 ^ 63
    → last < 2 ^ 63
    → is_healthy (pos now) (pos poll) (record_cycle (pos last) duration stacks t)
      ≡ (ltb 0 poll && leb now (last + (poll + poll)))
unfolding is_healthy record_cycle
is_healthy_at now poll last duration stacks t small early past =
    rw (+ᵢ-pos poll poll (omega arith))
      (ground (arith, time_sub-leb now last (poll + poll) early past))

-- What the endpoints are to answer: 503 before the first cycle has been recorded. Afterwards /readyz
-- answers 200, and /healthz does unless the last cycle lies more than two poll intervals back.
abbrev pub ready_status : Option Recorded → ℕ
ready_status none = 503
ready_status (some c) = 200

abbrev pub health_status : ℕ → ℕ → Option Recorded → ℕ
health_status now poll none = 503
health_status now poll (some c) = if ltb (c.time + 2 * poll) now then 503 else 200

abbrev pub body_of : Option Recorded → Snapshot
body_of none = empty_snapshot
body_of (some c) = record {
  last_cycle_time = some (pos c.time);
  cycle_duration_ms = milliseconds c.duration;
  stacks_evaluated = c.stacks;
}

abbrev InTime : Option Recorded → Type 0
InTime none = Unit
InTime (some c) = c.time < 2 ^ 63

last_recorded-InTime :
    (cs : List Recorded) → All (λ c. c.time < 2 ^ 63) cs → InTime (last_recorded cs)
last_recorded-InTime [] h = tt
last_recorded-InTime (c ∷ cs) h = of_last (last_recorded cs) (last_recorded-InTime cs h.1)
  where
    of_last : (o : Option Recorded) → InTime o → InTime (elim o [ none ↦ some c | some d ↦ some d ])
    of_last none k = h.0
    of_last (some d) k = k

healthy_ready :
    (c : Recorded)
    → ready_handler (some (tracker_at (some c) new_tracker))
      ≡ record { status = 200; body = body_of (some c) }
unfolding ready_handler tracker_snapshot record_cycle answer_by
healthy_ready c = ground arith

healthy_status :
    (c : Recorded) (now poll : ℕ)
    → 0 < poll
    → is_healthy (pos now) (pos poll) (record_cycle (pos c.time) c.duration c.stacks new_tracker)
      ≡ (ltb 0 poll && leb now (c.time + (poll + poll)))
    → health_handler (pos poll) (some (tracker_at (some c) new_tracker)) (pos now)
      ≡ record { status = health_status now poll (some c); body = body_of (some c) }
unfolding health_handler tracker_snapshot answer_by record_cycle
healthy_status c now poll positive fresh = ground (arith, fresh)

answers_at :
    (o : Option Recorded) (now poll : ℕ)
    → 0 < poll
    → poll < 2 ^ 62
    → now < 2 ^ 63
    → InTime o
    → let t = some (tracker_at o new_tracker) in
      (ready_handler t ≡ record { status = ready_status o; body = body_of o })
      × (health_handler (pos poll) t (pos now)
          ≡ record { status = health_status now poll o; body = body_of o })
unfolding ready_handler health_handler answer_by tracker_snapshot is_healthy
answers_at none now poll positive small early past = (ground arith, ground arith)
answers_at (some c) now poll positive small early past =
    let fresh = is_healthy_at now poll c.time c.duration c.stacks new_tracker small early past in
    (healthy_ready c, healthy_status c now poll positive fresh)

-- After any history of cycles both endpoints answer with the details of the last one. /readyz answers
-- 200 exactly if a cycle has been recorded; /healthz answers 200 exactly if the last one lies no more
-- than two poll intervals back. The poll interval is above 0 and below 2^62 nanoseconds, and the times
-- are below 2^63.
pub handlers-last :
    (cycles : List Recorded) (now poll : ℕ)
    → 0 < poll
    → poll < 2 ^ 62
    → now < 2 ^ 63
    → All (λ c. c.time < 2 ^ 63) cycles
    → let t = some (record_all cycles new_tracker) in
      let last = last_recorded cycles in
      (ready_handler t ≡ record { status = ready_status last; body = body_of last })
      × (health_handler (pos poll) t (pos now)
          ≡ record { status = health_status now poll last; body = body_of last })
unfolding ready_handler health_handler answer_by
handlers-last cycles now poll positive small early past = rw (record_all-last cycles new_tracker) (
    answers_at (last_recorded cycles) now poll positive small early
      (last_recorded-InTime cycles past))
