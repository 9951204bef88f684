-- ===== src/Tests/Beats.antt =====
-- Heartbeats: the witnesses of the theorems on giving up, and a run.
use fuzzing_framework.Prelude.{◌+◌, ◌≡◌, refl, true, none, List, [], ◌∷◌, arith}
use fuzzing_framework.Heartbeat.{
  HeartbeatConfig, HeartbeatState, aborted, abort, healthy, failed, build_raises, send_raises,
  received, not_connected, Input, is_valid_response, round, heartbeat_loop,
}
use fuzzing_framework.Heartbeat.Abort.{IsAfter, heartbeat_loop-IsAfter, round_counts_twice}

abbrev config : HeartbeatConfig
config = record {
  expect_response = true;
  expected_response = none;
  max_failures = 3;
  action = abort;
}

abbrev started : HeartbeatState
started = record {
  status = healthy;
  failures = 0;
  total_sent = 0;
  total_acks = 0;
  heartbeat_failures = 0;
}

-- A message that is not built, and one that is not sent.
abbrev two_failures : List Input
two_failures =
    (build_raises, not_connected, not_connected) ∷ (send_raises, not_connected, not_connected) ∷ []

heartbeat_loop-IsAfter_example : IsAfter config (0 + 2) (heartbeat_loop config two_failures started)
heartbeat_loop-IsAfter_example =
    heartbeat_loop-IsAfter config refl two_failures started (tt, (tt, tt)) (omega arith)

abbrev failed_twice : HeartbeatState
failed_twice = record started { failures = 2 }

round_counts_twice_example :
    round config (received []) not_connected not_connected failed_twice
    ≡ aborted (record failed_twice {
      total_sent = 1;
      failures = 4;
      heartbeat_failures = 4;
      status = failed;
    })
round_counts_twice_example =
    round_counts_twice config refl [] not_connected not_connected failed_twice refl
      (unfold is_valid_response in refl) (omega arith)
