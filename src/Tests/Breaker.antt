-- ===== src/Tests/Breaker.antt =====
-- circuit.py at small inputs.
use agent_storm.Prelude.{◌+◌, true, false, some, [], ◌∷◌, ◌++◌, ◌≡◌, refl, arith}
use agent_storm.Tests.Fixtures.{breaker_config, probing}
use agent_storm.Circuit.{
  closed, open_state, new, acquire, granted, plain_permit, record_terminal, probe_permit,
  nanoseconds,
}
use agent_storm.Circuit.Invariant.{IsSound, acquires, records, replay, replay-new-IsSound}
use agent_storm.Circuit.Admission.{fail_all, fail_all_opens}
use agent_storm.Circuit.Refinement.{responses, promises, passing, responses-new}
use agent_storm.Circuit.Probes.{second_probe}

responses-new_example :
    responses breaker_config
      (acquires 3
        ∷ records 4 plain_permit false "provider"
        ∷ records 5 plain_permit false "provider"
        ∷ acquires 6
        ∷ [])
      new
    ≡ promises breaker_config
        (acquires 3
          ∷ records 4 plain_permit false "provider"
          ∷ records 5 plain_permit false "provider"
          ∷ acquires 6
          ∷ [])
        (passing 0)
responses-new_example =
    responses-new breaker_config
      (acquires 3
        ∷ records 4 plain_permit false "provider"
        ∷ records 5 plain_permit false "provider"
        ∷ acquires 6
        ∷ [])
      (omega arith)

replay-new-IsSound_example :
    IsSound breaker_config
      (replay breaker_config (acquires 3 ∷ records 4 plain_permit false "provider" ∷ []) new)
replay-new-IsSound_example =
    replay-new-IsSound breaker_config (acquires 3 ∷ records 4 plain_permit false "provider" ∷ [])
      (omega arith)

fail_all_opens_example :
    ((fail_all breaker_config (3 ∷ []) new).state ≡ closed)
    × ((fail_all breaker_config ((3 ∷ []) ++ 5 ∷ []) new).state ≡ open_state)
    × ((fail_all breaker_config ((3 ∷ []) ++ 5 ∷ []) new).open_until
        ≡ 5 + nanoseconds breaker_config.open_duration_ms)
fail_all_opens_example = fail_all_opens breaker_config (3 ∷ []) 5 new refl (omega arith)

second_probe_example :
    let closed_again = (record_terminal (some breaker_config) 10 plain_permit true "" probing).1 in
    (acquire
      (some breaker_config)
      9000000
      (fail_all breaker_config ((11 ∷ []) ++ 12 ∷ []) closed_again)).0
    ≡ granted probe_permit
second_probe_example =
    second_probe breaker_config 10 (11 ∷ []) 12 9000000 probing refl refl (omega arith)
