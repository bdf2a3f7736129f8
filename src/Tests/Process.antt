-- ===== src/Tests/Process.antt =====
-- __main__.py at small inputs.
use agent_storm.Prelude.{
  if◌then◌else◌, String, true, false, Option, none, some, [], ◌∷◌, refl, str_eq,
}
use agent_storm.Tests.Fixtures.{plain_run}
use agent_storm.Config.{RunConfig}
use agent_storm.Worker.{Outside, leased}
use agent_storm.Worker.Lease.{
  Lease, claimed, wakes, fails, Reach, here, next, IsHeeded, Reach-IsHeeded,
}
use agent_storm.Scheduler.Renewal.{asking, failed}
use agent_storm.Worker.{Progress, registers, claims, runs}

abbrev environment : String → Option String
environment = λ name.
    if◌then◌else◌ (str_eq name "AGENTSTORM_RESULT_API_URL") (some "https://results.test")
      (if◌then◌else◌ (str_eq name "AGENTSTORM_RESULT_WRITE_TOKEN") (some "token") none)

abbrev outside : RunConfig → Outside
outside run = record {
  config = some run;
  case_count = some 1;
  validates = false;
  environment = environment;
  telemetry = none;
  register = none;
  claim = leased;
  adapter = none;
  construct = none;
  runner = none;
  lease_lost = false;
  permit_lost = false;
  stopped = true;
  thresholds_passed = true;
  write = none;
  upload = none;
  in_time = true;
}

abbrev renewing : Lease
renewing = record (claimed false) { renewal = asking }

-- Its first renewal failed.
abbrev lost : Lease
lost = record renewing { renewal = failed; lease_lost = true; stop_event = true }

lost-Reach : Reach (claimed false) lost
lost-Reach = next (next here (wakes (claimed false) refl)) (fails renewing refl)

abbrev after_runner : Progress
after_runner = record {
  connected = true;
  registered = true;
  queue_mode = true;
  trace = registers ∷ claims ∷ runs ∷ [];
}

Reach-IsHeeded_example :
    IsHeeded lost (record (outside plain_run) { lease_lost = true }) false after_runner
Reach-IsHeeded_example =
    Reach-IsHeeded false lost (record (outside plain_run) { lease_lost = true }) false after_runner
      lost-Reach refl
