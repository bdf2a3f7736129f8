-- ===== src/Worker.antt =====
-- worker/src/agentstorm_worker/__main__.py: the worker process. What the calls do is a record of
-- readings; the process leaves a trace of those that others see, in their order, and an exit code.
-- Signals and the renewal of the lease are the flags that the process reads after the run; .Lease has
-- the task that renews.
pub mod Settings
pub mod Effects
pub mod History
pub mod Exits
pub mod Connected
pub mod Lease
use agent_storm.Prelude.{
  ℕ, zero, suc, String, Bool, true, false, not, ◌&&◌, ◌||◌, Option, none, some, List, [], ◌∷◌, ◌++◌,
  str_eq, if◌then◌else◌, has_text, is_some, is_true,
}
use agent_storm.Worker.Settings.{
  getenv, Environment, environment_boolean, provider_spend_allowed, client_from_environment,
  integer_or,
}
use agent_storm.Config.{RunConfig}
use agent_storm.Config.Readers.{Python}
use agent_storm.Results.{Web}

-- The exceptions that the process tells apart.
pub data Failure : Type 0 where
  sink plugin other : Failure

-- A call of the client, of the runner or of the file system, when it is made.
pub data Effect : Type 0 where
  registers claims runs writes uploads : Effect
  marks : (status reason_code : String) → Effect

-- What a call does: `none` returns, `some f` raises.
abbrev pub Call : Type 0
Call = Option Failure

-- The claim of a shard: none left, a lease, or an exception.
pub data Claim : Type 0 where
  no_shard leased : Claim
  not_claimed : Failure → Claim

-- What the calls of a run do, and the flags that are read after the runner has returned.
pub record Outside : Type 0 where
  pub config : Option RunConfig
  pub case_count : Option ℕ
  pub validates : Bool
  pub environment : Environment
  pub telemetry : Call
  pub register : Call
  pub claim : Claim
  pub adapter : Call
  pub construct : Call
  pub runner : Call
  pub lease_lost : Bool
  pub permit_lost : Bool
  pub stopped : Bool
  pub thresholds_passed : Bool
  pub write : Call
  pub upload : Call
  -- whether the mark of a cancelled run returned within its ten seconds
  pub in_time : Bool

-- The variables that the exception handler reads, and the trace.
pub record Progress : Type 0 where
  pub connected : Bool
  pub registered : Bool
  pub queue_mode : Bool
  pub trace : List Effect

pub data Result (A : Type 0) : Type 0 where
  ok : A → Result A
  thrown : Failure → Result A

abbrev pub Process : Type 0 → Type 0
Process A = Progress → Result A × Progress

abbrev pub continue : {A B : Type 0} → Result A → (A → Process B) → Process B
continue (ok a) f s = f a s
continue (thrown e) f s = (thrown e, s)

infixl 2 ◌>>=◌
abbrev pub ◌>>=◌ : {A B : Type 0} → Process A → (A → Process B) → Process B
(p >>= f) s = let (r, s') = p s in continue r f s'

abbrev pub give : {A : Type 0} → A → Process A
give a s = (ok a, s)

abbrev outcome : Call → Result Bool
outcome none = ok true
outcome (some e) = thrown e

abbrev noted : Effect → Progress → Progress
noted effect s = record s { trace = s.trace ++ effect ∷ [] }

-- A call that others see, and one that they do not see.
abbrev calls : Effect → Call → Process Bool
calls effect call s = (outcome call, noted effect s)

abbrev quiet : Call → Process Bool
quiet call s = (outcome call, s)

abbrev required : {A : Type 0} → Option A → Process A
required none s = (thrown other, s)
required (some a) s = (ok a, s)

-- `_finish_cancelled`: exceptions of its calls are swallowed, and the mark may take too long.
unfoldable pub finish_cancelled : Outside → Progress → Progress
finish_cancelled o s =
    if not s.connected
    then noted writes s
    else (let marked = noted (marks "cancelled" "cancellation_requested") s in
        if o.in_time then noted uploads (noted writes marked) else marked)

-- The upload of a run that has a client.
upload_results : Outside → Process Bool
upload_results o s = if s.connected then calls uploads o.upload s else (ok true, s)

-- The results are written and uploaded, and the thresholds give the code.
report : Outside → Process ℕ
unfolding upload_results
report o = do
  written ← calls writes o.write
  uploaded ← upload_results o
  give (if o.thresholds_passed then 0 else 2)

-- What follows the runner; `limits` is whether there is a distributed limiter.
unfoldable pub after_run : Outside → (limits : Bool) → Process ℕ
unfolding finish_cancelled report
after_run o limits s =
    if o.lease_lost
    then (ok 3, s)
    else if limits && o.permit_lost
    then (
      ok 3,
      if s.connected then noted (marks "harness_failed" "distributed_permit_lost") s else s,
    )
    else if o.stopped
    then (ok 130, finish_cancelled o s)
    else report o s

-- `distributed_limiter is not None`
limits_of : Outside → Process Bool
limits_of o s =
    if s.connected
    then required (environment_boolean o.environment "AGENTSTORM_DISTRIBUTED_LIMITS" false) s
    else (ok false, s)

-- The adapter, the runner and what follows.
unfoldable pub run_shard : Outside → Process ℕ
unfolding after_run limits_of
run_shard o = do
  adapter ← quiet o.adapter
  limits ← limits_of o
  runner ← quiet o.construct
  ran ← calls runs o.runner
  after_run o limits

-- A claim is followed by the run, unless no shard is left.
claim_shard : Outside → Claim → Process ℕ
unfolding run_shard
claim_shard o no_shard s = (ok 0, s)
claim_shard o leased s = run_shard o s
claim_shard o (not_claimed e) s = (thrown e, s)

-- Queue mode needs the client.
queued : Outside → (queue_mode : Bool) → Process ℕ
unfolding claim_shard
queued o false s = run_shard o s
queued o true s = if s.connected then claim_shard o o.claim (noted claims s) else (thrown other, s)

is_pre_registered : Environment → Bool
is_pre_registered environment =
    is_true (getenv environment "AGENTSTORM_RESULT_PRE_REGISTERED" "false")

registered_by : Call → Process Bool
registered_by none s = (ok true, record s { registered = true })
registered_by (some e) s = (thrown e, s)

-- `register_run`, unless the controller has done it.
register : Outside → Process Bool
unfolding registered_by is_pre_registered
register o s =
    if not s.connected
    then (ok false, s)
    else if is_pre_registered o.environment
    then (ok true, record s { registered = true })
    else registered_by o.register (noted registers s)

connect : Bool → Process Bool
connect connected s = (ok connected, record s { connected = connected })

enter_queue : Bool → Process Bool
enter_queue queue_mode s = (ok queue_mode, record s { queue_mode = queue_mode })

-- The body of the `try`.
unfoldable pub attempt : Python → Web → Outside → Process ℕ
unfolding connect register enter_queue queued
attempt py web o = do
  client ← required (client_from_environment py web o.environment)
  connected ← connect (is_some client)
  registered ← register o
  queue_mode ← required (environment_boolean o.environment "AGENTSTORM_QUEUE_MODE" false)
  entered ← enter_queue queue_mode
  queued o queue_mode

is_sink : Failure → Bool
is_sink sink = true
is_sink _ = false

abbrev pub failure_reason : Failure → String
failure_reason plugin = "adapter_plugin_invalid"
failure_reason _ = "worker_harness_failure"

-- The `except` clause.
unfoldable pub handle : Failure → Progress → Progress
unfolding is_sink
handle e s =
    if s.registered && s.connected && not (s.queue_mode && is_sink e)
    then noted (marks "harness_failed" (failure_reason e)) s
    else s

-- The exit code and the trace.
unfoldable pub settled : Result ℕ × Progress → ℕ × List Effect
settled (ok code, s) = (code, s.trace)
settled (thrown e, s) = (3, (handle e s).trace)

abbrev pub start : Progress
start = record { connected = false; registered = false; queue_mode = false; trace = [] }

-- `execute` after the inputs are read; an exception before the `try` reaches `main`.
unfoldable pub execute_run : Python → Web → Outside → RunConfig → ℕ × List Effect
unfolding settled
execute_run py web o config =
    if o.validates
    then (0, [])
    else if not (provider_spend_allowed o.environment config.target.provider)
    then (3, [])
    else if not (
        is_some (integer_or py o.environment "AGENTSTORM_SHARD_COUNT" "1")
        && is_some (integer_or py o.environment "AGENTSTORM_SHARD_INDEX" "0")
        && not (is_some o.telemetry))
    then (3, [])
    else settled (attempt py web o start)

main_with : Python → Web → Outside → Option RunConfig → ℕ × List Effect
unfolding execute_run
main_with py web o none = (3, [])
main_with py web o (some config) =
    if is_some o.case_count then execute_run py web o config else (3, [])

-- `main` and `execute`: an exception that leaves `execute` is code 3.
unfoldable pub main : Python → Web → Outside → ℕ × List Effect
unfolding main_with
main py web o = main_with py web o o.config
