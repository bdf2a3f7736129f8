-- ===== src/Circuit/Refinement.antt =====
-- circuit.py: what the breaker promises, as a machine of three states, and the code.
use agent_storm.Prelude.{
  ℕ, ◌+◌, ◌≤◌, max, String, Bool, true, false, some, List, [], ◌∷◌, ◌≡◌, refl, ap, arith, leb,
  str_eq, if◌then◌else◌,
}
use agent_storm.Config.{CircuitBreakerConfig}
use agent_storm.Circuit.{
  State, CircuitBreaker, Acquired, acquire, record_terminal, granted, rejected, closed, open_state,
  half_open, new, plain_permit, probe_permit, circuit_open, nanoseconds,
}
use agent_storm.Circuit.Invariant.{
  Call, acquires, records, IsSound, perform, perform-IsSound, new-IsSound,
}

-- Closed after so many provider failures in a row, open until an instant, or waiting for its probe.
pub data Breaker : Type 0 where
  passing : (failures : ℕ) → Breaker
  blocking : (until : ℕ) → Breaker
  probing : Breaker

-- What a call gives back: the answer of `acquire`, or the events of `record_terminal`.
pub data Answer : Type 0 where
  acquired : Acquired → Answer
  events : List String → Answer

-- The abstract breaker: admission.
admit : ℕ → Breaker → Answer × Breaker
admit now (passing n) = (acquired (granted plain_permit), passing n)
admit now (blocking until) =
    if leb until now
    then (acquired (granted probe_permit), probing)
    else (acquired (rejected circuit_open), blocking until)
admit now probing = (acquired (rejected circuit_open), probing)

-- The abstract breaker: the outcome of the probe settles it whatever its state.
settle : (reopened : ℕ) → ℕ → Bool → Bool → Answer × Breaker
settle reopened now true provider = (events ("close" ∷ []), passing 0)
settle reopened now false true = (events ("open" ∷ []), blocking reopened)
settle reopened now false false = (events [], blocking now)

-- The abstract breaker: a success closes it, a provider failure counts or prolongs.
succeed : Breaker → Answer × Breaker
succeed (passing n) = (events [], passing 0)
succeed _ = (events ("close" ∷ []), passing 0)

fail : (threshold reopened : ℕ) → Breaker → Answer × Breaker
fail threshold reopened (passing n) =
    if leb threshold (n + 1)
    then (events ("open" ∷ []), blocking reopened)
    else (events [], passing (n + 1))
fail threshold reopened (blocking until) = (events [], blocking (max until reopened))
fail threshold reopened probing = (events [], probing)

-- The abstract breaker: one call.
unfoldable pub promised : CircuitBreakerConfig → Call → Breaker → Answer × Breaker
unfolding admit settle succeed fail
promised config (acquires now) b = admit now b
promised config (records now permit ok category) b =
    let reopened = now + nanoseconds config.open_duration_ms in
    if permit.probe
    then settle reopened now ok (str_eq category "provider")
    else if ok
    then succeed b
    else if str_eq category "provider"
    then fail config.failure_threshold reopened b
    else (events [], b)

-- The code: one call, with what it gives back.
unfoldable pub respond : CircuitBreakerConfig → Call → CircuitBreaker → Answer × CircuitBreaker
respond config (acquires now) b =
    let (answer, after) = acquire (some config) now b in (acquired answer, after)
respond config (records now permit ok category) b =
    let (reported, after) = record_terminal (some config) now permit ok category b in
    (events reported, after)

abbrev view_of : State → (failures until : ℕ) → Breaker
view_of closed failures until = passing failures
view_of open_state failures until = blocking until
view_of half_open failures until = probing

-- The abstract breaker that a breaker stands for.
abbrev pub view : CircuitBreaker → Breaker
view b = view_of b.state b.consecutive_failures b.open_until

-- On a sound breaker each call gives the promised answer and leaves the promised breaker.
pub respond_refines :
    (config : CircuitBreakerConfig) (c : Call) (b : CircuitBreaker)
    → IsSound config b
    → let (answer, after) = respond config c b in (answer, view after) ≡ promised config c (view b)
unfolding respond promised acquire record_terminal
respond_refines config (acquires now) b s = ground arith
respond_refines config (records now permit ok category) b s = ground arith

-- All answers of a sequence of calls.
unfoldable pub responses : CircuitBreakerConfig → List Call → CircuitBreaker → List Answer
responses config [] b = []
responses config (c ∷ cs) b =
    let (answer, after) = respond config c b in answer ∷ responses config cs after

unfoldable pub promises : CircuitBreakerConfig → List Call → Breaker → List Answer
promises config [] b = []
promises config (c ∷ cs) b =
    let (answer, after) = promised config c b in answer ∷ promises config cs after

respond-perform :
    (config : CircuitBreakerConfig) (c : Call) (b : CircuitBreaker)
    → (respond config c b).1 ≡ perform config c b
unfolding respond perform
respond-perform config (acquires now) b = refl
respond-perform config (records now permit ok category) b = refl

responses_refine :
    (config : CircuitBreakerConfig) (calls : List Call) (b : CircuitBreaker)
    → 1 ≤ config.failure_threshold
    → IsSound config b
    → responses config calls b ≡ promises config calls (view b)
unfolding responses promises
responses_refine config [] b h s = refl
responses_refine config (c ∷ calls) b h s = rw (← respond_refines config c b s) (
    ap (λ rest. (respond config c b).0 ∷ rest)
      (responses_refine config calls (respond config c b).1 h
        (rw (respond-perform config c b) (perform-IsSound config c b h s))))

-- No sequence of calls tells a new breaker, with a threshold of at least one, from the machine of
-- three states: each `acquire` gives the answer and each `record_terminal` the events that the
-- machine promises.
pub responses-new :
    (config : CircuitBreakerConfig) (calls : List Call)
    → 1 ≤ config.failure_threshold
    → responses config calls new ≡ promises config calls (passing 0)
responses-new config calls h = responses_refine config calls new h (new-IsSound config h)
