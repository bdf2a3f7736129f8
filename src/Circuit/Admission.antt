-- ===== src/Circuit/Admission.antt =====
-- circuit.py: when a case is admitted, and what opens the breaker.
use agent_storm.Prelude.{
  ℕ, ◌+◌, ◌≤◌, ◌<◌, String, false, Option, none, some, List, [], ◌∷◌, ◌++◌, ◌≡◌, refl, length,
  str_eq, ◌⊎◌, arith,
}
use agent_storm.Config.{CircuitBreakerConfig}
use agent_storm.Circuit.{
  CircuitBreaker, closed, open_state, half_open, acquire, record_terminal, granted, rejected,
  plain_permit, probe_permit, nanoseconds, circuit_open,
}
use agent_storm.Circuit.Invariant.{IsSound}

-- For a sound breaker: `acquire` grants a plain permit exactly when the breaker is closed; it grants
-- a probe exactly when the breaker is open and its deadline has come, and is then half-open;
-- otherwise it rejects with `circuit_open` and changes nothing.
pub acquire_cases :
    (config : CircuitBreakerConfig) (now : ℕ) (b : CircuitBreaker)
    → IsSound config b
    → let (answer, after) = acquire (some config) now b in
      ((b.state ≡ closed) × (answer ≡ granted plain_permit) × (after ≡ b))
      ⊎ ((b.state ≡ open_state)
          × (b.open_until ≤ now)
          × (answer ≡ granted probe_permit)
          × (after.state ≡ half_open))
      ⊎ ((b.state ≡ open_state)
          × (now < b.open_until)
          × (answer ≡ rejected circuit_open)
          × (after ≡ b))
      ⊎ ((b.state ≡ half_open) × (answer ≡ rejected circuit_open) × (after ≡ b))
unfolding acquire
acquire_cases config now b s = ground arith

-- The breaker after provider failures under plain permits, at the given clock readings.
unfoldable pub fail_all : CircuitBreakerConfig → List ℕ → CircuitBreaker → CircuitBreaker
fail_all config [] b = b
fail_all config (now ∷ times) b =
    fail_all config times (record_terminal (some config) now plain_permit false "provider" b).1

fail_below :
    (config : CircuitBreakerConfig) (now : ℕ) (b : CircuitBreaker)
    → b.state ≡ closed
    → b.consecutive_failures + 1 < config.failure_threshold
    → let after = (record_terminal (some config) now plain_permit false "provider" b).1 in
      (after.state ≡ closed) × (after.consecutive_failures ≡ b.consecutive_failures + 1)
unfolding record_terminal
fail_below config now b c h = ground arith

fail_reaching :
    (config : CircuitBreakerConfig) (now : ℕ) (b : CircuitBreaker)
    → b.state ≡ closed
    → b.consecutive_failures + 1 ≡ config.failure_threshold
    → let after = (record_terminal (some config) now plain_permit false "provider" b).1 in
      (after.state ≡ open_state)
      × (after.open_until ≡ now + nanoseconds config.open_duration_ms)
      × (after.probe_in_flight ≡ b.probe_in_flight)
unfolding record_terminal
fail_reaching config now b c h = ground arith

-- Fewer provider failures in a row than the threshold leaves room for: the breaker stays closed and
-- has counted each of them.
pub fail_all_closed :
    (config : CircuitBreakerConfig) (times : List ℕ) (b : CircuitBreaker)
    → b.state ≡ closed
    → b.consecutive_failures + length times < config.failure_threshold
    → ((fail_all config times b).state ≡ closed)
      × ((fail_all config times b).consecutive_failures ≡ b.consecutive_failures + length times)
unfolding fail_all
fail_all_closed config [] b c h = (c, omega arith)
fail_all_closed config (now ∷ times) b c h =
    let b' = (record_terminal (some config) now plain_permit false "provider" b).1 in
    let (c', n) = fail_below config now b c (omega arith) in
    let (c'', m) = fail_all_closed config times b' c' (omega (arith, n)) in
    (c'', omega (arith, n, m))

fail_all-append :
    (config : CircuitBreakerConfig) (xs ys : List ℕ) (b : CircuitBreaker)
    → fail_all config (xs ++ ys) b ≡ fail_all config ys (fail_all config xs b)
unfolding fail_all
fail_all-append config [] ys b = refl
fail_all-append config (x ∷ xs) ys b =
    fail_all-append config xs ys (record_terminal (some config) x plain_permit false "provider" b).1

-- The provider failure that brings a closed breaker's count to the threshold opens it, until the
-- configured duration after that failure; the failures before it do not.
pub fail_all_opens :
    (config : CircuitBreakerConfig) (times : List ℕ) (now : ℕ) (b : CircuitBreaker)
    → b.state ≡ closed
    → b.consecutive_failures + length times + 1 ≡ config.failure_threshold
    → ((fail_all config times b).state ≡ closed)
      × ((fail_all config (times ++ now ∷ []) b).state ≡ open_state)
      × ((fail_all config (times ++ now ∷ []) b).open_until
          ≡ now + nanoseconds config.open_duration_ms)
fail_all_opens config times now b c h =
    let (c', n) = fail_all_closed config times b c (omega arith) in
    let (o, u, _) = fail_reaching config now (fail_all config times b) c' (omega (arith, n)) in
    (c', rw fail_all-append (unfold fail_all in o), rw fail_all-append (unfold fail_all in u))

-- A failure of any category but `provider` under a plain permit leaves the breaker as it is, in every
-- state, and reports no event.
pub record_other_unchanged :
    (config : Option CircuitBreakerConfig) (now : ℕ) (category : String) (b : CircuitBreaker)
    → str_eq category "provider" ≡ false
    → record_terminal config now plain_permit false category b ≡ ([], b)
unfolding record_terminal
record_other_unchanged none now category b h = refl
record_other_unchanged (some config) now category b h = rw h
