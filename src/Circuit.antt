-- ===== src/Circuit.antt =====
-- worker/src/agentstorm_worker/circuit.py: the worker-local circuit breaker.
-- Clock readings are nanoseconds, so `open_duration_ms / 1000` seconds is a whole number of them.
-- `asyncio.Lock` makes each method one step; the clock is read once in each and is an argument.
pub mod Invariant
pub mod Admission
pub mod Probes
pub mod Refinement
use agent_storm.Prelude.{
  ℕ, ◌+◌, ◌*◌, max, String, Bool, true, false, not, ◌&&◌, Option, none, some, List, [], ◌∷◌, leb,
  str_eq, if◌then◌else◌,
}
use agent_storm.Errors.{ExecutionError}
use agent_storm.Config.{CircuitBreakerConfig}

pub data State : Type 0 where
  closed open_state half_open : State

pub record CircuitPermit : Type 0 where
  pub probe : Bool
  pub events : List String

-- The mutable fields of `CircuitBreaker`; `_config` is an argument of each method.
pub record CircuitBreaker : Type 0 where
  pub state : State
  pub consecutive_failures : ℕ
  pub open_until : ℕ
  pub probe_in_flight : Bool

-- `__init__`
abbrev pub new : CircuitBreaker
new = record { state = closed; consecutive_failures = 0; open_until = 0; probe_in_flight = false }

pub data Acquired : Type 0 where
  granted : CircuitPermit → Acquired
  rejected : ExecutionError → Acquired

abbrev pub is_closed : State → Bool
is_closed closed = true
is_closed _ = false

abbrev pub is_open : State → Bool
is_open open_state = true
is_open _ = false

abbrev pub nanoseconds : ℕ → ℕ
nanoseconds ms = ms * 1_000_000

abbrev pub plain_permit : CircuitPermit
plain_permit = record { probe = false; events = [] }

abbrev pub probe_permit : CircuitPermit
probe_permit = record { probe = true; events = "half_open" ∷ [] }

abbrev pub circuit_open : ExecutionError
circuit_open = record {
  category = "provider";
  code = "circuit_open";
  failure_kind = "provider";
  ambiguous = false;
  safe_to_retry = false;
  response = none;
  injected_rule = "";
  injected_fault = "";
  usage_complete = true;
  circuit_events = "reject" ∷ [];
}

-- `acquire`
unfoldable pub acquire :
    Option CircuitBreakerConfig → ℕ → CircuitBreaker → Acquired × CircuitBreaker
acquire none now b = (granted plain_permit, b)
acquire (some config) now b =
    if is_closed b.state
    then (granted plain_permit, b)
    else if is_open b.state && leb b.open_until now && not b.probe_in_flight
    then (granted probe_permit, record b { state = half_open; probe_in_flight = true })
    else (rejected circuit_open, b)

-- The branch of `record_terminal` for the permit of a probe.
record_probe :
    CircuitBreakerConfig → ℕ → Bool → String → CircuitBreaker → List String × CircuitBreaker
record_probe config now provider_succeeded failure_category b =
    if provider_succeeded
    then (
      "close" ∷ [],
      record b { state = closed; consecutive_failures = 0; probe_in_flight = false },
    )
    else if str_eq failure_category "provider"
    then (
      "open" ∷ [],
      record b {
        state = open_state;
        open_until = now + nanoseconds config.open_duration_ms;
        probe_in_flight = false;
      },
    )
    else ([], record b { state = open_state; open_until = now; probe_in_flight = false })

-- The branch of `record_terminal` for a provider success under a plain permit.
record_success : CircuitBreaker → List String × CircuitBreaker
record_success b = if is_closed b.state then ([], record b { consecutive_failures = 0 }) else (
  "close" ∷ [],
  record b { state = closed; consecutive_failures = 0; probe_in_flight = false },
)

-- The branch of `record_terminal` for a provider failure under a plain permit.
record_failure : CircuitBreakerConfig → ℕ → CircuitBreaker → List String × CircuitBreaker
record_failure config now b =
    if is_closed b.state
    then (if leb config.failure_threshold (b.consecutive_failures + 1)
        then (
          "open" ∷ [],
          record b {
            state = open_state;
            consecutive_failures = b.consecutive_failures + 1;
            open_until = now + nanoseconds config.open_duration_ms;
          },
        )
        else ([], record b { consecutive_failures = b.consecutive_failures + 1 }))
    else if is_open b.state
    then (
      [],
      record b { open_until = max b.open_until (now + nanoseconds config.open_duration_ms) },
    )
    else ([], b)

-- `record_terminal`
unfoldable pub record_terminal :
    Option CircuitBreakerConfig
    → ℕ
    → CircuitPermit
    → (provider_succeeded : Bool) (failure_category : String) → CircuitBreaker
    → List String × CircuitBreaker
unfolding record_probe record_success record_failure
record_terminal none now permit provider_succeeded failure_category b = ([], b)
record_terminal (some config) now permit provider_succeeded failure_category b =
    if permit.probe
    then record_probe config now provider_succeeded failure_category b
    else if provider_succeeded
    then record_success b
    else if not (str_eq failure_category "provider")
    then ([], b)
    else record_failure config now b
