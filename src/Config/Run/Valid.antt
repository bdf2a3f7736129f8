-- ===== src/Config/Run/Valid.antt =====
-- config.py: what an accepted run configuration satisfies.
use agent_storm.Prelude.{
  not-true, String, Bool, true, false, not, Option, none, some, ◌≡◌, guard, guard-some, bind-some,
  str_eq_iff, str_eq,
}
use agent_storm.Prelude.Yields.{Yields, Yields-some, Yields-guard, Yields-bind}
use agent_storm.Models.{Value, Fields}
use agent_storm.Models.Json
use agent_storm.Models.Json.{get}
use agent_storm.Config.{TargetConfig, WorkloadConfig, EvaluationConfig, RunConfig}
use agent_storm.Config.Readers.{get_or, Python}
use agent_storm.Config.Reliability.{parse_reliability}
use agent_storm.Config.Reliability.Validity.{IsValid, parse_reliability-IsValid}
use agent_storm.Chat.Validators.{Url, validate_base_url, validate_pinned_model}
use agent_storm.Chat.Validators.Bounds.{validate_pinned_model-true, validate_base_url-true}
use agent_storm.Config.Run.Sections.{
  IfGiven, IsTarget, IsWorkload, IsTelemetry, workload_of-IsWorkload, target_of-IsTarget,
  telemetry_of-IsTelemetry,
}
use agent_storm.Config.Run.{
  section_of, telemetry_of, target_of, workload_of, evaluation_of, is_usable_target,
  is_usable_entrypoint, checked_run_of, load_run_config,
}

pub record IsRun (py : Python) (urlsplit : String → Option Url) (config : RunConfig) : Type 0 where
  pub target : IsTarget py config.target
  pub workload : IsWorkload config.workload
  pub telemetry : IsTelemetry py config.telemetry
  pub reliability : IfGiven IsValid config.reliability
  pub pinned :
      config.target.provider ≡ "openai-compatible"
      → (validate_pinned_model config.target.model ≡ some true)
        × (str_eq config.target.base_url "" ≡ false)
        × (validate_base_url urlsplit config.target.base_url ≡ some true)
  pub entrypoint : is_usable_entrypoint config.target.adapter_entrypoint ≡ true

reliability-IfGiven : (value : Option Value) → Yields (IfGiven IsValid) (parse_reliability value)
reliability-IfGiven value none h = tt
reliability-IfGiven value (some r) h = parse_reliability-IsValid value r h

usable-pinned :
    (urlsplit : String → Option Url) (target : TargetConfig) (b : Bool)
    → is_usable_target urlsplit target ≡ some b
    → target.provider ≡ "openai-compatible"
    → (validate_pinned_model target.model ≡ some true)
      × (str_eq target.base_url "" ≡ false)
      × (validate_base_url urlsplit target.base_url ≡ some true)
unfolding is_usable_target
usable-pinned urlsplit target b h e =
    let t : str_eq target.provider "openai-compatible" ≡ true =
      (str_eq_iff target.provider "openai-compatible").1 e in
    let k = rw t at h in
    let (p, pinned, rest) = bind-some (validate_pinned_model target.model) _ b k in
    let (q, addressed, last) = bind-some (guard (not (str_eq target.base_url ""))) _ b rest in
    (
      validate_pinned_model-true target.model p pinned,
      not-true _ (guard-some _ q addressed),
      validate_base_url-true urlsplit target.base_url b last,
    )

checked-IsRun :
    (py : Python) (urlsplit : String → Option Url) (raw source dataset : Fields)
    (target : TargetConfig) (workload : WorkloadConfig) (evaluation : EvaluationConfig)
    → IsTarget py target
    → IsWorkload workload
    → Yields
        (IsRun py urlsplit)
        (checked_run_of py urlsplit raw source dataset target workload evaluation)
unfolding checked_run_of
checked-IsRun py urlsplit raw source dataset target workload evaluation t w =
    Yields-bind _ (telemetry_of py (get_or "telemetry" (Json.object Json.end) raw)) _ λ telemetry a.
      Yields-bind _ (parse_reliability (get "reliability" raw)) _ λ reliability b.
        Yields-bind _ (is_usable_target urlsplit target) _ λ usable c.
          Yields-guard _ (is_usable_entrypoint target.adapter_entrypoint) _ λ referenced.
            Yields-some _ _ (record {
              target = t;
              workload = w;
              telemetry = telemetry_of-IsTelemetry py _ telemetry a;
              reliability = reliability-IfGiven (get "reliability" raw) reliability b;
              pinned = usable-pinned urlsplit target usable c;
              entrypoint = referenced;
            })

-- An accepted run configuration: its workload numbers are positive, the output limit is at most
-- 131072, the HTTP tries at most 16 and their wait at most 300 seconds; the request fields set
-- nothing that the request, the temperature or the token limit sets; at most 20 redaction patterns,
-- of at most 256 bytes each, that compile; an accepted reliability section; a pinned model and an
-- acceptable address where the provider is openai-compatible; and a proper adapter entrypoint.
pub load_run_config-IsRun :
    (py : Python) (urlsplit : String → Option Url) (raw : Fields) (config : RunConfig)
    → load_run_config py urlsplit raw ≡ some config
    → IsRun py urlsplit config
unfolding load_run_config
load_run_config-IsRun py urlsplit raw = Yields-bind _ (section_of "source" raw) _ λ source a.
    Yields-bind _ (section_of "dataset" raw) _ λ dataset b.
      Yields-bind _ (section_of "target" raw) _ λ t c.
        Yields-bind _ (section_of "workload" raw) _ λ w d.
          Yields-bind _ (section_of "evaluation" raw) _ λ v e.
            Yields-bind _ (target_of py t) _ λ target f.
              Yields-bind _ (workload_of py w) _ λ workload g.
                Yields-bind _ (evaluation_of py v) _ λ evaluation h.
                  checked-IsRun py urlsplit raw source dataset target workload evaluation
                    (target_of-IsTarget py t target f) (workload_of-IsWorkload py w workload g)
