-- ===== src/Scheduler/Served.antt =====
-- scheduler.py over results.py: the wait for a grant, with the replies of the result API.
use agent_storm.Prelude.{ℕ, ◌<◌, String, false, ◌≡◌, subst}
use agent_storm.Models.{Fields}
use agent_storm.Config.Readers.{Python}
use agent_storm.Results.{
  Web, ResultSinkConfig, Request, Reply, answered, sink_error, busy, raised, acquire_permit,
  permit_request,
}
use agent_storm.Results
use agent_storm.Results.Replies.{HasObject}
use agent_storm.Results.Permits.{IsGrant, IsAcquired, acquire_permit-IsAcquired}
use agent_storm.Scheduler.{
  PermitGrant, Answer, leased, unavailable, crashed, Round, Waited, obtained, wait_for_grant,
}
use agent_storm.Scheduler
use agent_storm.Scheduler.Waiting.{IsExplained, wait_for_grant-IsExplained}

-- The `except` clauses: SchedulerBusy, then ResultSinkError.
unfoldable pub answer_of : Results.Answer PermitGrant → Answer
answer_of (answered grant) = leased grant
answer_of (busy retry_after_ms) = Scheduler.busy retry_after_ms
answer_of sink_error = unavailable
answer_of raised = crashed

answered_of_leased :
    (answer : Results.Answer PermitGrant) (grant : PermitGrant)
    → answer_of answer ≡ leased grant
    → answer ≡ answered grant
unfolding answer_of
answered_of_leased (answered g) grant h = cc
answered_of_leased (busy ms) grant h = cc
answered_of_leased sink_error grant h = cc
answered_of_leased raised grant h = cc

module _ (py : Python) (web : Web) (config : ResultSinkConfig)
    (run_id request_id worker_id provider : String) (send : ℕ → Request → Reply) where
  -- A round with what the client makes of the reply in it.
  unfoldable pub served : (ℕ → Round) → ℕ → Round
  served reading n = record (reading n) {
    answer = answer_of (acquire_permit py web config (send n) run_id request_id worker_id provider);
  }

  explained-IsGrant :
      (deadline : ℕ) (reading : ℕ → Round) (grant : PermitGrant)
      → IsExplained deadline (served reading) (obtained grant)
      → (n : ℕ) × ((reading n).stopped ≡ false)
        × ((reading n).now < deadline)
        × ((fields : Fields) × HasObject
              (send n (permit_request py web config (send n) run_id request_id worker_id provider))
              fields
            × IsGrant py fields grant)
  unfolding served
  explained-IsGrant deadline reading grant (n, a, s, d) = (
    n,
    s,
    d,
    subst (IsAcquired py _)
        (answered_of_leased
          (acquire_permit py web config (send n) run_id request_id worker_id provider) grant a)
        (acquire_permit-IsAcquired py web config (send n) run_id request_id worker_id provider),
  )

  -- A grant that the limiter obtains is the one in a successful reply of the result API, to a request
  -- made before the deadline and while the run was not stopped, whatever the replies before it were.
  pub obtained-IsGrant :
      (deadline : ℕ) (reading : ℕ → Round) (fuel : ℕ) (grant : PermitGrant)
      → wait_for_grant deadline (served reading) fuel 0 ≡ obtained grant
      → (n : ℕ) × ((reading n).stopped ≡ false)
        × ((reading n).now < deadline)
        × ((fields : Fields) × HasObject
              (send n (permit_request py web config (send n) run_id request_id worker_id provider))
              fields
            × IsGrant py fields grant)
  obtained-IsGrant deadline reading fuel grant h = explained-IsGrant deadline reading grant (
      subst (IsExplained deadline (served reading)) h
        (wait_for_grant-IsExplained deadline (served reading) fuel 0))
