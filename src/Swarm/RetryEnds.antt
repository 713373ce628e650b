-- ===== src/Swarm/RetryEnds.antt =====
-- How withRetry of internal/swarm/docker_client.go ends, how often it calls and how long it waits.
use swarm_sentinel.Base.{
  ℕ, zero, suc, ◌+◌, ◌≤◌, List, Bool-cases, ap, ◌∙◌, inl, inr, ◌≡◌, [], ◌∷◌, ◌++◌, take, refl,
  nat_eq, arith,
}
use swarm_sentinel.Swarm.Retry.{
  Attempts, Retried, default_retry_backoffs, backoff_at, retry_from, with_retry,
}
use swarm_sentinel.Swarm.RetryBounds.{RetriesThrough, is_final}
use swarm_sentinel.Swarm.RetrySteps.{
  EndsAt, waits_from, Ends, Ends-done, Ends-final, Ends-waiting, is_final-false, retry_from-again,
  EndsAt-again,
}

module _ {ℓ} {A : Type ℓ} (world : Attempts A) (backoffs : List ℕ) where
  retry_from-Ends :
      (left attempt : ℕ)
      → left + attempt ≡ 5
      → 1 ≤ left
      → Ends world backoffs attempt (retry_from world backoffs left attempt)
  retry_from-Ends zero attempt sum some_left = absurd (omega arith)
  retry_from-Ends (suc left) attempt sum some_left =
      let room : attempt ≤ 4 = omega arith in
      elim (Bool-cases (world.is_done attempt)) [
        | inl done ↦ Ends-done world backoffs left attempt room done
        | inr live ↦ elim (Bool-cases (is_final world attempt (world.call attempt))) [
          | inl final ↦ Ends-final world backoffs left attempt room live final
          | inr again ↦ elim (Bool-cases (world.is_done_waiting attempt)) [
            | inl done ↦ Ends-waiting world backoffs left attempt room live again done
            | inr waiting ↦
                let (e, failed, retried, early) = is_final-false world backoffs attempt again in
                let some_more : 1 ≤ left = ground arith in
                let (k, last, place, in_room, through, ends) =
                  retry_from-Ends left (attempt + 1) (omega arith) some_more in
                (
                  suc k,
                  last,
                  omega arith,
                  in_room,
                  (live, (e, failed, retried), waiting, through),
                  EndsAt-again world backoffs attempt k last
                      (retry_from world backoffs left (attempt + 1)) _
                      (retry_from-again world backoffs left attempt live again waiting) ends,
                )
          ]
        ]
      ]

-- The backoffs of three waits: the list, with its last entry repeated.
abbrev last_of : List ℕ → ℕ
last_of [] = 0
last_of (b ∷ []) = b
last_of (b ∷ c ∷ bs) = last_of (c ∷ bs)

abbrev pub three_waits : List ℕ → List ℕ
three_waits bs = take 3 (bs ++ (last_of bs ∷ last_of bs ∷ last_of bs ∷ []))

-- The backoffs that are in force.
abbrev pub in_force : List ℕ → List ℕ
in_force [] = 1_000_000_000 ∷ 2_000_000_000 ∷ 4_000_000_000 ∷ []
in_force (b ∷ bs) = b ∷ bs

module _ {ℓ} {A : Type ℓ} (world : Attempts A) where
  waits_from-three : (bs : List ℕ) → waits_from world bs 1 3 ≡ three_waits bs
  unfolding waits_from backoff_at
  waits_from-three [] = refl
  waits_from-three (b ∷ []) = refl
  waits_from-three (b ∷ c ∷ []) = refl
  waits_from-three (b ∷ c ∷ d ∷ []) = refl
  waits_from-three (b ∷ c ∷ d ∷ e ∷ bs) = refl

  waits_from-take :
      (bs : List ℕ) (k : ℕ) → k ≤ 3 → waits_from world bs 1 k ≡ take k (waits_from world bs 1 3)
  unfolding waits_from
  waits_from-take bs zero room = refl
  waits_from-take bs (suc zero) room = refl
  waits_from-take bs (suc (suc zero)) room = refl
  waits_from-take bs (suc (suc (suc zero))) room = refl
  waits_from-take bs (suc (suc (suc (suc k)))) room = absurd (omega arith)

  waits_from_lem : (bs : List ℕ) (k : ℕ) → k ≤ 3 → waits_from world bs 1 k ≡ take k (three_waits bs)
  waits_from_lem bs k room = waits_from-take bs k room ∙ ap (take k) (waits_from-three bs)

  EndsAt-waits :
      (bs : List ℕ) (k last : ℕ) (r : Retried A)
      → k + 1 ≡ last
      → last ≤ 4
      → EndsAt world (waits_from world bs 1) k last r
      → EndsAt world (λ j. take j (three_waits bs)) k last r
  EndsAt-waits bs k last r place room (inl (done, result, calls, waits)) =
      inl (done, result, calls, waits ∙ waits_from_lem bs k (omega arith))
  EndsAt-waits bs k last r place room (inr (inl (live, final, result, calls, waits))) =
      inr (inl (live, final, result, calls, waits ∙ waits_from_lem bs k (omega arith)))
  EndsAt-waits bs k last r place room (inr (inr (live, again, waiting, result, calls, waits))) =
      let (e, failed, retried, early) = is_final-false world bs last again in
      let more : suc k ≤ 3 = ground arith in
      inr (inr (live, again, waiting, result, calls, waits ∙ waits_from_lem bs (suc k) more))

-- withRetry ends after at most three calls that are retried: `k` calls fail with errors that are retried,
-- each followed by a wait; at call k + 1 the context is done before it, or its answer is returned, which
-- is a success, an error that is not retried or the fourth error, or the context is done during the wait
-- after it. The calls are k or k + 1, and the waits are the first of the backoffs, 1, 2 and 4 seconds by
-- default, with the last one repeated.
pub with_retry_lem {ℓ} :
    {A : Type ℓ} (world : Attempts A) (backoffs : List ℕ)
    → (k : ℕ) × (last : ℕ) × (k + 1 ≡ last)
      × (last ≤ 4)
      × RetriesThrough world 1 k
      × EndsAt world
          (λ j. take j (three_waits (in_force backoffs)))
          k
          last
          (with_retry world backoffs)
unfolding with_retry
with_retry_lem world [] =
    let (k, last, place, room, through, ends) =
      retry_from-Ends world default_retry_backoffs 4 1 refl (omega arith) in
    (
      k,
      last,
      place,
      room,
      through,
      EndsAt-waits world default_retry_backoffs k last _ place room ends,
    )
with_retry_lem world (b ∷ bs) =
    let (k, last, place, room, through, ends) =
      retry_from-Ends world (b ∷ bs) 4 1 refl (omega arith) in
    (k, last, place, room, through, EndsAt-waits world (b ∷ bs) k last _ place room ends)
