-- ===== src/Scheduler.antt =====
-- worker/src/agentstorm_worker/scheduler.py: the permit of the distributed limiter.
-- The result API and the clock, in nanoseconds, are readings: round n of the wait reads `round n`.
pub mod Waiting
pub mod Served
pub mod Renewal
use agent_storm.Prelude.{
  ℕ, zero, suc, ◌+◌, ◌-◌, ◌*◌, min, String, Bool, true, false, Option, none, some, ◌==◌, leb,
  if◌then◌else◌,
}
use agent_storm.Prelude.Int.{ℤ}
use agent_storm.Errors.{ExecutionError, execution_error}
use agent_storm.Circuit.{nanoseconds}

-- `PermitGrant`
pub record PermitGrant : Type 0 where
  pub permit_id : String
  pub lease_token : String
  pub renew_after_ms : ℤ

-- What `acquire_permit` does: a grant, `SchedulerBusy`, another `ResultSinkError`, or another
-- exception.
pub data Answer : Type 0 where
  leased : PermitGrant → Answer
  busy : (retry_after_ms : ℕ) → Answer
  unavailable crashed : Answer

pub record Round : Type 0 where
  pub stopped : Bool
  pub now : ℕ
  pub answer : Answer
  pub now_after : ℕ
  pub stopped_after : Bool
  pub woken : Bool

pub data Waited : Type 0 where
  obtained : PermitGrant → Waited
  refused : ExecutionError → Waited
  -- the fuel is used up; a `CancelledError`; another exception of `acquire_permit`
  stuck cancelled broken : Waited

pub limit_timeout : ExecutionError
limit_timeout = execution_error "provider" "distributed_limit_timeout" "provider"

pub scheduler_unavailable : ExecutionError
scheduler_unavailable = execution_error "harness" "distributed_scheduler_unavailable" "harness"

-- The sleep after a busy answer.
abbrev pub busy_delay : (deadline retry_after_ms now_after : ℕ) → ℕ
busy_delay deadline retry_after_ms now_after =
    min (nanoseconds retry_after_ms) (deadline - now_after)

-- One round on the answer; `again` is the rest of the loop.
unfoldable pub after_answer : (deadline : ℕ) → Round → Answer → Waited → Waited
after_answer deadline r (leased grant) again = obtained grant
after_answer deadline r unavailable again = refused scheduler_unavailable
after_answer deadline r crashed again = broken
after_answer deadline r (busy retry_after_ms) again =
    if busy_delay deadline retry_after_ms r.now_after == 0
    then (if r.stopped_after then cancelled else refused limit_timeout)
    else if r.woken
    then cancelled
    else again

unfoldable pub wait_round : (deadline : ℕ) → Round → Waited → Waited
unfolding after_answer
wait_round deadline r again =
    if r.stopped
    then cancelled
    else if leb deadline r.now
    then refused limit_timeout
    else after_answer deadline r r.answer again

-- `_wait_for_grant`, from round `n` on.
unfoldable pub wait_for_grant : (deadline : ℕ) → (ℕ → Round) → (fuel n : ℕ) → Waited
unfolding wait_round
wait_for_grant deadline round zero n = stuck
wait_for_grant deadline round (suc fuel) n =
    wait_round deadline (round n) (wait_for_grant deadline round fuel (suc n))

-- How the body of the `async with` ends.
pub data Body : Type 0 where
  completed : Body
  body_cancelled : Body
  failed : ExecutionError → Body

-- How the whole `async with` ends, and whether `release_permit` was called.
pub data PermitEnd : Type 0 where
  passed : PermitEnd
  permit_cancelled permit_crashed : PermitEnd
  raised : ExecutionError → PermitEnd

pub permit_lost : ExecutionError
permit_lost = execution_error "harness" "distributed_permit_lost" "harness"

unfoldable pub body_end : (renewal_failed : Bool) → Body → PermitEnd
body_end renewal_failed completed = if renewal_failed then raised permit_lost else passed
body_end renewal_failed body_cancelled =
    if renewal_failed then raised permit_lost else permit_cancelled
body_end renewal_failed (failed error) = raised error

-- `permit`, after the wait.
unfoldable pub permit : Waited → (stopped renewal_failed : Bool) → Body → PermitEnd × Bool
unfolding body_end
permit (obtained grant) stopped renewal_failed body =
    if stopped then (permit_cancelled, false) else (body_end renewal_failed body, true)
permit (refused error) stopped renewal_failed body = (raised error, false)
permit stuck stopped renewal_failed body = (permit_cancelled, false)
permit cancelled stopped renewal_failed body = (permit_cancelled, false)
permit broken stopped renewal_failed body = (permit_crashed, false)
