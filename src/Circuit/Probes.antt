-- ===== src/Circuit/Probes.antt =====
-- circuit.py: how many half-open probes are in flight at once.
use agent_storm.Prelude.{
  ℕ, ◌+◌, ◌≤◌, true, false, some, List, [], ◌∷◌, ◌++◌, ◌≡◌, refl, arith, length, All, ap, ◌∙◌,
}
use agent_storm.Config.{CircuitBreakerConfig}
use agent_storm.Circuit.{
  CircuitBreaker, closed, open_state, half_open, acquire, record_terminal, granted, rejected,
  plain_permit, probe_permit, nanoseconds, circuit_open,
}
use agent_storm.Circuit.Invariant.{Call, acquires, records, perform, replay}
use agent_storm.Circuit.Admission.{fail_all, fail_all_opens}

-- Calls other than the record of a probe and the record of a success.
abbrev pub IsQuiet : Call → Type 0
IsQuiet (acquires now) = Unit
IsQuiet (records now permit ok category) = (permit.probe ≡ false) × (ok ≡ false)

perform_half_open :
    (config : CircuitBreakerConfig) (c : Call) (b : CircuitBreaker)
    → IsQuiet c
    → b.state ≡ half_open
    → (perform config c b).state ≡ half_open
unfolding perform acquire record_terminal
perform_half_open config (acquires now) b q h = ground arith
perform_half_open config (records now permit ok category) b q h = ground arith

replay_half_open :
    (config : CircuitBreakerConfig) (calls : List Call) (b : CircuitBreaker)
    → All IsQuiet calls
    → b.state ≡ half_open
    → (replay config calls b).state ≡ half_open
unfolding replay
replay_half_open config [] b q h = h
replay_half_open config (c ∷ calls) b q h =
    replay_half_open config calls (perform config c b) q.1 (perform_half_open config c b q.0 h)

acquire_half_open :
    (config : CircuitBreakerConfig) (now : ℕ) (b : CircuitBreaker)
    → b.state ≡ half_open
    → acquire (some config) now b ≡ (rejected circuit_open, b)
unfolding acquire
acquire_half_open config now b h = ground arith

-- In the half-open state no further case is admitted, at any time, after any acquisitions and any
-- failures under plain permits: only the record of a probe or of a success ends that.
pub single_probe :
    (config : CircuitBreakerConfig) (calls : List Call) (now : ℕ) (b : CircuitBreaker)
    → b.state ≡ half_open
    → All IsQuiet calls
    → (acquire (some config) now (replay config calls b)).0 ≡ rejected circuit_open
single_probe config calls now b h q =
    ap (λ r. r.0) (acquire_half_open config now _ (replay_half_open config calls b q h))

success_closes :
    (config : CircuitBreakerConfig) (now : ℕ) (b : CircuitBreaker)
    → b.state ≡ half_open
    → let after = (record_terminal (some config) now plain_permit true "" b).1 in
      (after.state ≡ closed) × (after.consecutive_failures ≡ 0) × (after.probe_in_flight ≡ false)
unfolding record_terminal
success_closes config now b h = ground arith

fail_all_flag :
    (config : CircuitBreakerConfig) (times : List ℕ) (b : CircuitBreaker)
    → (fail_all config times b).probe_in_flight ≡ b.probe_in_flight
unfolding fail_all record_terminal
fail_all_flag config [] b = refl
fail_all_flag config (now ∷ times) b =
    fail_all_flag config times (record_terminal (some config) now plain_permit false "provider" b).1
    ∙ (ground arith)

acquire_due :
    (config : CircuitBreakerConfig) (now : ℕ) (b : CircuitBreaker)
    → b.state ≡ open_state
    → b.open_until ≤ now
    → b.probe_in_flight ≡ false
    → (acquire (some config) now b).0 ≡ granted probe_permit
unfolding acquire
acquire_due config now b o u f = ground arith

-- A half-open breaker admits a second probe while its first probe has not been recorded: a case that
-- was admitted before the breaker opened succeeds, as many provider failures as the threshold follow,
-- and the duration passes.
pub second_probe :
    (config : CircuitBreakerConfig) (success : ℕ) (times : List ℕ) (last now : ℕ)
    (b : CircuitBreaker)
    → b.state ≡ half_open
    → length times + 1 ≡ config.failure_threshold
    → last + nanoseconds config.open_duration_ms ≤ now
    → let closed_again = (record_terminal (some config) success plain_permit true "" b).1 in
      (acquire (some config) now (fail_all config (times ++ last ∷ []) closed_again)).0
      ≡ granted probe_permit
second_probe config success times last now b h n d =
    let (c, z, f) = success_closes config success b h in
    let b' = (record_terminal (some config) success plain_permit true "" b).1 in
    let (_, o, u) = fail_all_opens config times last b' c (omega (arith, z)) in
    acquire_due config now _ o (omega (arith, u)) (fail_all_flag config (times ++ last ∷ []) _ ∙ f)
