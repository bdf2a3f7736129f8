-- ===== src/Circuit/Invariant.antt =====
-- circuit.py: what holds of the breaker after any calls of `acquire` and `record_terminal`, in any
-- order, with any permits and outcomes.
use agent_storm.Prelude.{ℕ, ◌≤◌, ◌<◌, String, Bool, true, some, List, [], ◌∷◌, ◌≡◌, arith}
use agent_storm.Config.{CircuitBreakerConfig}
use agent_storm.Circuit.{
  CircuitBreaker, CircuitPermit, closed, half_open, new, acquire, record_terminal,
}

-- One call of a method, at a clock reading.
pub data Call : Type 0 where
  acquires : (now : ℕ) → Call
  records :
      (now : ℕ) (permit : CircuitPermit) (provider_succeeded : Bool) (failure_category : String)
      → Call

unfoldable pub perform : CircuitBreakerConfig → Call → CircuitBreaker → CircuitBreaker
perform config (acquires now) b = (acquire (some config) now b).1
perform config (records now permit ok category) b =
    (record_terminal (some config) now permit ok category b).1

unfoldable pub replay : CircuitBreakerConfig → List Call → CircuitBreaker → CircuitBreaker
replay config [] b = b
replay config (c ∷ cs) b = replay config cs (perform config c b)

-- The probe flag is up exactly in the half-open state, and a closed breaker is below its threshold.
pub record IsSound (config : CircuitBreakerConfig) (b : CircuitBreaker) : Type 0 where
  pub probing : b.probe_in_flight ≡ true → b.state ≡ half_open
  pub probed : b.state ≡ half_open → b.probe_in_flight ≡ true
  pub below : b.state ≡ closed → b.consecutive_failures < config.failure_threshold

pub perform-IsSound :
    (config : CircuitBreakerConfig) (c : Call) (b : CircuitBreaker)
    → 1 ≤ config.failure_threshold
    → IsSound config b
    → IsSound config (perform config c b)
unfolding perform acquire record_terminal
perform-IsSound config (acquires now) b h s = ground arith
perform-IsSound config (records now permit ok category) b h s = ground arith

pub replay-IsSound :
    (config : CircuitBreakerConfig) (calls : List Call) (b : CircuitBreaker)
    → 1 ≤ config.failure_threshold
    → IsSound config b
    → IsSound config (replay config calls b)
unfolding replay
replay-IsSound config [] b h s = s
replay-IsSound config (c ∷ calls) b h s =
    replay-IsSound config calls (perform config c b) h (perform-IsSound config c b h s)

pub new-IsSound :
    (config : CircuitBreakerConfig) → 1 ≤ config.failure_threshold → IsSound config new
new-IsSound config h = record { probing = λ p. cc; probed = λ p. cc; below = λ p. h }

-- From the initial breaker, with a threshold of at least one, after any calls: the probe flag is up
-- exactly when the state is half-open, and a closed breaker has counted fewer consecutive failures
-- than the threshold.
pub replay-new-IsSound :
    (config : CircuitBreakerConfig) (calls : List Call)
    → 1 ≤ config.failure_threshold
    → IsSound config (replay config calls new)
replay-new-IsSound config calls h = replay-IsSound config calls new h (new-IsSound config h)
