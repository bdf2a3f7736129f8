-- ===== src/Worker/Connected.antt =====
-- __main__.py: whether there is a client does not change after the start.
use agent_storm.Prelude.{
  ℕ, Bool, true, false, not, ◌&&◌, Option, none, some, ◌≡◌, refl, if_elim, is_some,
}
use agent_storm.Config.Readers.{Python}
use agent_storm.Results.{Web, ResultSinkConfig}
use agent_storm.Worker.Settings.{environment_boolean, client_from_environment}
use agent_storm.Worker.{
  registers, claims, runs, writes, Call, Claim, no_shard, leased, not_claimed, Failure, Outside,
  Progress, Result, ok, thrown, Process, continue, ◌>>=◌, noted, calls, quiet, required,
  finish_cancelled, upload_results, report, after_run, limits_of, run_shard, claim_shard, queued,
  registered_by, register, connect, enter_queue, attempt, handle, start, is_pre_registered, is_sink,
}

-- The process leaves it as it was.
abbrev Linked : Bool → {A : Type 0} → Process A → Type 0
Linked c p = (s : Progress) → s.connected ≡ c → (p s).1.connected ≡ c

continue-connected :
    {A B : Type 0} (c : Bool) (f : A → Process B) (r : Result A × Progress)
    → r.1.connected ≡ c
    → ((a : A) → Linked c (f a))
    → (continue r.0 f r.1).1.connected ≡ c
continue-connected c f (ok a, s) e k = k a s e
continue-connected c f (thrown x, s) e k = e

bind-Linked :
    {A B : Type 0} (c : Bool) (p : Process A) (f : A → Process B)
    → Linked c p
    → ((a : A) → Linked c (f a))
    → Linked c (p >>= f)
bind-Linked c p f h k s e = continue-connected c f (p s) (h s e) k

required-Linked : {A : Type 0} (c : Bool) (x : Option A) → Linked c (required x)
required-Linked c none s e = e
required-Linked c (some a) s e = e

module _ (o : Outside) (c : Bool) where
  Has : Progress → Type 0
  Has s = s.connected ≡ c

  Gives : {A : Type 0} → Result A × Progress → Type 0
  Gives r = r.1.connected ≡ c

  finish_cancelled-Has : (s : Progress) → Has s → Has (finish_cancelled o s)
  unfolding finish_cancelled Has
  finish_cancelled-Has s h =
      if_elim Has (not s.connected) _ _ (λ e. h) (λ e. if_elim Has o.in_time _ _ (λ f. h) (λ f. h))

  upload_results-Linked : Linked c (upload_results o)
  unfolding upload_results Gives
  upload_results-Linked s h = if_elim (Gives {A = Bool}) s.connected _ _ (λ e. h) (λ e. h)

  report-Linked : Linked c (report o)
  unfolding report
  report-Linked =
      bind-Linked c (calls writes o.write) _ (λ s h. h)
        λ a. bind-Linked c (upload_results o) _ upload_results-Linked λ b s h. h

  after_run-Linked : (limits : Bool) → Linked c (after_run o limits)
  unfolding after_run Gives Has
  after_run-Linked limits s h =
      let P = Gives {A = ℕ} in
      if_elim P o.lease_lost _ _ (λ e. h)
        λ e.
          if_elim P (limits && o.permit_lost) _ _
            (λ f. if_elim Has s.connected _ _ (λ g. h) (λ g. h))
            (λ f. if_elim P o.stopped _ _ (λ g. finish_cancelled-Has s h) (λ g. report-Linked s h))

  limits_of-Linked : Linked c (limits_of o)
  unfolding limits_of Gives
  limits_of-Linked s h =
      if_elim (Gives {A = Bool}) s.connected _ _ (λ e. required-Linked c _ s h) (λ e. h)

  run_shard-Linked : Linked c (run_shard o)
  unfolding run_shard
  run_shard-Linked =
      bind-Linked c (quiet o.adapter) _ (λ s h. h)
        λ a. bind-Linked c (limits_of o) _ limits_of-Linked λ limits.
          bind-Linked c (quiet o.construct) _ (λ s h. h)
            λ r. bind-Linked c (calls runs o.runner) _ (λ s h. h) λ ran. after_run-Linked limits

  claim_shard-Linked : (claim : Claim) → Linked c (claim_shard o claim)
  unfolding claim_shard
  claim_shard-Linked no_shard s h = h
  claim_shard-Linked leased s h = run_shard-Linked s h
  claim_shard-Linked (not_claimed e) s h = h

  queued-Linked : (queue_mode : Bool) → Linked c (queued o queue_mode)
  unfolding queued Gives
  queued-Linked false s h = run_shard-Linked s h
  queued-Linked true s h =
      if_elim (Gives {A = ℕ}) s.connected _ _ (λ e. claim_shard-Linked o.claim (noted claims s) h)
        (λ e. h)

  registered_by-Linked : (call : Call) → Linked c (registered_by call)
  unfolding registered_by
  registered_by-Linked none s h = h
  registered_by-Linked (some e) s h = h

  register-Linked : Linked c (register o)
  unfolding register Gives
  register-Linked s h =
      let P = Gives {A = Bool} in
      if_elim P (not s.connected) _ _ (λ e. h)
        λ e.
          if_elim P (is_pre_registered o.environment) _ _ (λ f. h)
            (λ f. registered_by-Linked o.register (noted registers s) h)

  -- What follows `connect`.
  connected-Linked : Linked c (do
    registered ← register o
    queue_mode ← required (environment_boolean o.environment "AGENTSTORM_QUEUE_MODE" false)
    entered ← enter_queue queue_mode
    queued o queue_mode)
  unfolding enter_queue
  connected-Linked = bind-Linked c (register o) _ register-Linked λ r.
      bind-Linked c (required _) _ (required-Linked c _) λ queue_mode.
        bind-Linked c (enter_queue queue_mode) (λ q. queued o queue_mode) (λ s h. h)
          λ q. queued-Linked queue_mode

abbrev known : Option (Option ResultSinkConfig) → Bool
known none = false
known (some client) = is_some client

-- There is a client: the address of the result API is given.
abbrev pub has_client : Python → Web → Outside → Bool
has_client py web o = known (client_from_environment py web o.environment)

pub handle-connected : (e : Failure) (s : Progress) → (handle e s).connected ≡ s.connected
unfolding handle
handle-connected e s =
    if_elim (λ (t : Progress). t.connected ≡ s.connected)
      (s.registered && s.connected && not (s.queue_mode && is_sink e)) _ _ (λ f. refl) (λ f. refl)

-- What `attempt` does with the client.
abbrev with_client : Outside → Option (Option ResultSinkConfig) → Process ℕ
with_client o x = do
  client ← required x
  connected ← connect (is_some client)
  registered ← register o
  queue_mode ← required (environment_boolean o.environment "AGENTSTORM_QUEUE_MODE" false)
  entered ← enter_queue queue_mode
  queued o queue_mode

with_client-connected :
    (o : Outside) (x : Option (Option ResultSinkConfig))
    → (with_client o x start).1.connected ≡ known x
unfolding connect
with_client-connected o none = refl
with_client-connected o (some client) =
    connected-Linked o (is_some client) (record start { connected = is_some client }) refl

pub attempt-connected :
    (py : Python) (web : Web) (o : Outside)
    → (attempt py web o start).1.connected ≡ has_client py web o
unfolding attempt
attempt-connected py web o = with_client-connected o (client_from_environment py web o.environment)
