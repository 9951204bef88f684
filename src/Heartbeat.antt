-- ===== src/Heartbeat.antt =====
-- core/engine/heartbeat_scheduler.py: a round of `_heartbeat_loop`, and `_handle_failure`. What the
-- connection does is the input of a round. Times and log lines are left out.
pub mod Abort
use fuzzing_framework.Prelude.{
  ℕ, suc, ◌+◌, Bool, true, false, ◌&&◌, Option, none, some, List, [], ◌∷◌, ltb, ◌==◌, if◌then◌else◌,
}

pub data HeartbeatStatus : Type 0 where
  healthy warning failed disabled stopped : HeartbeatStatus

-- `on_timeout["action"]`
pub data Action : Type 0 where
  warn reconnect abort other_action : Action

pub record HeartbeatConfig : Type 0 where
  pub expect_response : Bool
  pub expected_response : Option (List ℕ)
  pub max_failures : ℕ
  pub action : Action

-- The counters of `HeartbeatState`, and the session's copy of the failures.
pub record HeartbeatState : Type 0 where
  pub status : HeartbeatStatus
  pub failures : ℕ
  pub total_sent : ℕ
  pub total_acks : ℕ
  pub heartbeat_failures : ℕ

-- A reconnection raises, or it succeeds and the callback raises, or both succeed.
pub data Reconnection : Type 0 where
  not_connected callback_raises reconnected : Reconnection

-- `aborted` is a raised HeartbeatAbortError.
pub data Outcome : Type 0 where
  going aborted : HeartbeatState → Outcome

abbrev restored : HeartbeatState → HeartbeatState
restored s = record s { status = healthy; failures = 0; heartbeat_failures = 0 }

-- The action of `_handle_failure` at the maximum.
unfoldable pub take_action : Action → Reconnection → HeartbeatState → Outcome
take_action abort r s = aborted s
take_action reconnect not_connected s = aborted s
take_action reconnect callback_raises s = aborted (restored s)
take_action reconnect reconnected s = going (restored s)
take_action warn r s = going s
take_action other_action r s = going s

-- `_handle_failure`
unfoldable pub handle_failure : HeartbeatConfig → Reconnection → HeartbeatState → Outcome
unfolding take_action
handle_failure config r s =
    let counted : HeartbeatState = record s {
      failures = s.failures + 1;
      heartbeat_failures = s.failures + 1;
    } in
    if ltb counted.failures config.max_failures
    then going (record counted { status = warning })
    else take_action config.action r (record counted { status = failed })

-- `response.startswith(expected)`
unfoldable pub starts_with : List ℕ → List ℕ → Bool
starts_with bs [] = true
starts_with [] (e ∷ expected) = false
starts_with (b ∷ bs) (e ∷ expected) = b == e && starts_with bs expected

-- `_is_valid_response`
unfoldable pub is_valid_response : List ℕ → HeartbeatConfig → Bool
unfolding starts_with
is_valid_response [] config = false
is_valid_response (b ∷ bs) config = elim config.expected_response [
  | none ↦ true
  | some expected ↦ starts_with (b ∷ bs) expected
]

-- What happens in a round, behind its wait.
pub data Event : Type 0 where
  build_raises send_raises : Event
  received : List ℕ → Event

-- `except Exception` around the exchange: it also takes the HeartbeatAbortError of the failure that an
-- invalid response has counted, and counts a failure again.
unfoldable pub handle_again : HeartbeatConfig → Reconnection → Outcome → Outcome
unfolding handle_failure
handle_again config r (going s) = going s
handle_again config r (aborted s) = handle_failure config r s

-- A round; `first` and `second` are what the reconnections do, if there are any.
unfoldable pub round :
    HeartbeatConfig → Event → Reconnection → Reconnection → HeartbeatState → Outcome
unfolding handle_failure is_valid_response handle_again
round config build_raises first second s = handle_failure config first s
round config send_raises first second s = handle_failure config first s
round config (received response) first second s =
    let sent : HeartbeatState = record s { total_sent = s.total_sent + 1 } in
    if config.expect_response
    then (if is_valid_response response config
        then going (record sent {
          total_acks = sent.total_acks + 1;
          failures = 0;
          status = healthy;
          heartbeat_failures = 0;
        })
        else handle_again config second (handle_failure config first sent))
    else going (record sent { failures = 0; status = healthy })

-- The input of a round.
abbrev pub Input : Type 0
Input = Event × Reconnection × Reconnection

-- `_heartbeat_loop` over the rounds until it is stopped; an abort ends it with the status `failed`.
unfoldable pub heartbeat_loop : HeartbeatConfig → List Input → HeartbeatState → Outcome
unfolding round
heartbeat_loop config [] s = going s
heartbeat_loop config ((e, first, second) ∷ inputs) s = elim (round config e first second s) [
  | going t ↦ heartbeat_loop config inputs t
  | aborted t ↦ aborted (record t { status = failed })
]
