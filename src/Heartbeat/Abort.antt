-- ===== src/Heartbeat/Abort.antt =====
-- When a heartbeat with the action `abort` gives up.
use fuzzing_framework.Prelude.{
  ℕ, suc, ◌+◌, ◌<◌, ◌≤◌, ◌≡◌, refl, sym, ap, ◌∙◌, subst, true, false, List, [], ◌∷◌, All, arith,
  length, ltb, Bool-cases, inl, inr,
}
use fuzzing_framework.Heartbeat.{
  HeartbeatConfig, HeartbeatState, Outcome, going, aborted, abort, failed, Event, build_raises,
  send_raises, received, Reconnection, Input, handle_failure, take_action, is_valid_response,
  handle_again, round, heartbeat_loop,
}

-- A round without an answer that counts.
abbrev pub Fails : HeartbeatConfig → Input → Type 0
Fails config (build_raises, first, second) = Unit
Fails config (send_raises, first, second) = Unit
Fails config (received response, first, second) =
    (config.expect_response ≡ true) × (is_valid_response response config ≡ false)

-- Behind `n` failures: below the maximum the loop goes on with all of them counted, and otherwise it is
-- aborted, no later than one above the maximum.
abbrev pub IsAfter : HeartbeatConfig → ℕ → Outcome → Type 0
IsAfter config n (going s) = (s.failures ≡ n) × (n < config.max_failures)
IsAfter config n (aborted s) = (config.max_failures ≤ n) × (config.max_failures ≤ s.failures)

module _ (config : HeartbeatConfig) (aborts : config.action ≡ abort) where
  handle_failure-IsAfter :
      (r : Reconnection) (s : HeartbeatState)
      → IsAfter config (s.failures + 1) (handle_failure config r s)
  unfolding handle_failure take_action
  handle_failure-IsAfter r s = elim (Bool-cases (ltb (s.failures + 1) config.max_failures)) [
    | inl below ↦ rw below (refl, ground arith)
    | inr reached ↦ rw (reached, aborts) (ground arith, ground arith)
  ]

  again-IsAfter :
      (r : Reconnection) (n : ℕ) (o : Outcome)
      → IsAfter config n o
      → IsAfter config n (handle_again config r o)
  again-IsAfter r n (going s) h = unfold handle_again in h
  again-IsAfter r n (aborted s) h =
      unfold handle_again in by_outcome (handle_failure config r s) (handle_failure-IsAfter r s)
    where
      by_outcome : (o : Outcome) → IsAfter config (s.failures + 1) o → IsAfter config n o
      by_outcome (going t) k = absurd (omega arith)
      by_outcome (aborted t) k = (h.0, k.1)

  abbrev sent_one : HeartbeatState → HeartbeatState
  sent_one s = record s { total_sent = s.total_sent + 1 }

  invalid_round :
      (response : List ℕ) (first second : Reconnection) (s : HeartbeatState)
      → config.expect_response ≡ true
      → is_valid_response response config ≡ false
      → round config (received response) first second s
        ≡ handle_again config second (handle_failure config first (sent_one s))
  unfolding round
  invalid_round response first second s expects invalid = ground (arith, expects, invalid)

  round-IsAfter :
      (e : Event) (first second : Reconnection) (s : HeartbeatState)
      → Fails config (e, first, second)
      → IsAfter config (s.failures + 1) (round config e first second s)
  unfolding round
  round-IsAfter build_raises first second s h = handle_failure-IsAfter first s
  round-IsAfter send_raises first second s h = handle_failure-IsAfter first s
  round-IsAfter (received response) first second s h =
      subst (IsAfter config (s.failures + 1)) (sym (invalid_round response first second s h.0 h.1))
        (again-IsAfter second (s.failures + 1) _ (handle_failure-IsAfter first (sent_one s)))

  -- what the loop makes of a round
  abbrev loop_on : List Input → Outcome → Outcome
  loop_on inputs (going t) = heartbeat_loop config inputs t
  loop_on inputs (aborted t) = aborted (record t { status = failed })

  heartbeat_loop-cons :
      (e : Event) (first second : Reconnection) (inputs : List Input) (s : HeartbeatState)
      → heartbeat_loop config ((e, first, second) ∷ inputs) s
        ≡ loop_on inputs (round config e first second s)
  unfolding heartbeat_loop
  heartbeat_loop-cons e first second inputs s = by_outcome (round config e first second s)
    where
      by_outcome :
          (o : Outcome)
          → (elim o [
            | going t ↦ heartbeat_loop config inputs t
            | aborted t ↦ aborted (record t { status = failed })
          ])
            ≡ loop_on inputs o
      by_outcome (going t) = refl
      by_outcome (aborted t) = refl

  -- With the action `abort`, a loop whose rounds all fail goes on, with every failure counted, as long
  -- as there are fewer than `max_failures` in a row, and is aborted from then on.
  pub heartbeat_loop-IsAfter :
      (inputs : List Input) (s : HeartbeatState)
      → All (Fails config) inputs
      → s.failures < config.max_failures
      → IsAfter config (s.failures + length inputs) (heartbeat_loop config inputs s)
  heartbeat_loop-IsAfter [] s h below = unfold heartbeat_loop in (omega arith, omega arith)
  heartbeat_loop-IsAfter ((e, first, second) ∷ inputs) s h below =
      subst (IsAfter config (s.failures + suc (length inputs)))
        (sym (heartbeat_loop-cons e first second inputs s))
        (by_outcome (λ t k. heartbeat_loop-IsAfter inputs t h.1 k) (round config e first second s)
          (round-IsAfter e first second s h.0))
    where
      by_outcome :
          ((t : HeartbeatState)
            → t.failures < config.max_failures
            → IsAfter config (t.failures + length inputs) (heartbeat_loop config inputs t))
          → (o : Outcome) → IsAfter config (s.failures + 1) o
          → IsAfter config (s.failures + suc (length inputs)) (loop_on inputs o)
      by_outcome later (going t) k =
          subst (λ n. IsAfter config n (heartbeat_loop config inputs t)) (omega (arith, k.0))
            (later t (omega (arith, k.0, k.1)))
      by_outcome later (aborted t) k = (omega (arith, k.0), k.1)

  reached_maximum :
      (r : Reconnection) (s : HeartbeatState)
      → config.max_failures ≤ s.failures + 1
      → handle_failure config r s
        ≡ aborted (record s {
          failures = s.failures + 1;
          heartbeat_failures = s.failures + 1;
          status = failed;
        })
  unfolding handle_failure take_action
  reached_maximum r s reached = ground (arith, aborts)

  -- With the action `abort`, an invalid response that reaches `max_failures` aborts the round with two
  -- more failures instead of one.
  pub round_counts_twice :
      (response : List ℕ) (first second : Reconnection) (s : HeartbeatState)
      → config.expect_response ≡ true
      → is_valid_response response config ≡ false
      → config.max_failures ≤ s.failures + 1
      → round config (received response) first second s
        ≡ aborted (record s {
          total_sent = s.total_sent + 1;
          failures = s.failures + 2;
          heartbeat_failures = s.failures + 2;
          status = failed;
        })
  round_counts_twice response first second s expects invalid reached =
      invalid_round response first second s expects invalid
      ∙ ap (handle_again config second) (reached_maximum first (sent_one s) reached)
      ∙ unfold handle_again in
        reached_maximum second
          (record (sent_one s) {
            failures = s.failures + 1;
            heartbeat_failures = s.failures + 1;
            status = failed;
          })
          (omega arith)
        ∙ ap
            (λ (n : ℕ). aborted (record s {
              total_sent = s.total_sent + 1;
              failures = n;
              heartbeat_failures = n;
              status = failed;
            }))
            (omega arith)
