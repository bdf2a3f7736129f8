-- ===== src/Chat/Construction/Accepted.antt =====
-- adapters/__init__.py and openai_compatible.py: the adapter of an accepted run configuration.
use agent_storm.Prelude.{
  ℕ, suc, ◌≤◌, String, true, false, Option, none, some, [], ◌≡◌, refl, sym, subst, leb,
  if◌then◌else◌, str_eq, str_eq_iff, is_some, byte_count, arith, Bool-cases, inl, inr,
}
use agent_storm.Prelude.Int.{pos}
use agent_storm.Models.{Fields}
use agent_storm.Models.Json
use agent_storm.Models.Json.{get, number}
use agent_storm.Config.{TargetConfig, RunConfig}
use agent_storm.Config.Readers.{Python, at_least, int_from, strict_int}
use agent_storm.Config.Run.{load_run_config}
use agent_storm.Config.Run.Sections.{IsTarget, target_keys}
use agent_storm.Config.Run.Valid.{load_run_config-IsRun}
use agent_storm.Chat.Post.{Client}
use agent_storm.Chat.Validators.{Url, validate_base_url, validate_pinned_model, field_count}
use agent_storm.Chat.Validators.Bounds.{
  validate_up_to_again, validate_request_fields_again, validate_request_fields_many,
}
use agent_storm.Chat.Construction.{
  Arguments, new_client, Plugin, chat, Creation, created, value_error, target_client, chat_creation,
  create_adapter,
}
use agent_storm.Chat.Construction.Sent.{charged_output, IsSent, sent, tried, waited, waits_within}

-- What is said of an adapter that was created for a target, or was not: the bounds of a client, whose
-- model calls are 8; and a ValueError is one field too many, the limit of the output besides 16 others.
pub record IsBounded (target : TargetConfig) (client : Client) : Type 0 where
  pub calls : client.max_model_calls ≡ 8
  pub tries : (1 ≤ client.max_http_attempts) × (client.max_http_attempts ≤ 16)
  pub ordered : client.retry_initial ≤ client.retry_max
  pub longest : client.retry_max ≤ 300_000_000_000
  pub input : client.input_allowance ≡ 8192
  pub output : client.output_allowance ≡ charged_output target.max_output_tokens
  pub room : (is_some target.max_output_tokens ≡ true) → field_count target.request_fields ≤ 15

abbrev pub IsCreated : TargetConfig → Creation → Type 0
IsCreated target (created (chat client)) = IsBounded target client
IsCreated target value_error =
    (is_some target.max_output_tokens ≡ true) × (field_count target.request_fields ≡ 16)
IsCreated target _ = ⊥

room_left :
    (limit : Option ℕ) (before after : ℕ)
    → after ≡ (if is_some limit then suc before else before)
    → leb after 16 ≡ true
    → is_some limit ≡ true
    → before ≤ 15
room_left none before after e h l = cc
room_left (some n) before after e h l = ground (arith, e, h)

one_too_many :
    (limit : Option ℕ) (before after : ℕ)
    → after ≡ (if is_some limit then suc before else before)
    → before ≤ 16
    → leb after 16 ≡ false
    → (is_some limit ≡ true) × (before ≡ 16)
one_too_many none before after e few h = let wrong : ⊥ = ground (arith, e, few, h) in elim wrong [ ]
one_too_many (some n) before after e few h = (refl, ground (arith, e, few, h))

module _ (py : Python) (urlsplit : String → Option Url) (api_key : String) where
  -- The arguments that a target makes.
  abbrev arguments : TargetConfig → Fields → (tries s : ℕ) → Arguments
  arguments target fields tries s = record {
    model = target.model;
    base_url = target.base_url;
    tools = [];
    max_model_calls = pos 8;
    request_timeout_seconds = (pos 120, 0);
    request_fields = some (Json.object fields);
    unknown_input_tokens = number 8192;
    max_http_attempts = number tries;
    retry_initial_backoff_seconds = (pos 1, 1);
    retry_max_backoff_seconds = (pos s, 0);
  }

  new_client-IsCreated :
      (target : TargetConfig) (fields : Fields) (tries s : ℕ)
      → validate_pinned_model target.model ≡ some true
      → validate_base_url urlsplit target.base_url ≡ some true
      → (1 ≤ tries) × (tries ≤ 16)
      → (1 ≤ s) × (s ≤ 300)
      → IsSent py target.max_output_tokens target.request_fields fields
      → field_count target.request_fields ≤ 16
      → IsCreated target
          (chat_creation (new_client py urlsplit api_key (arguments target fields tries s)))
  unfolding new_client chat_creation at_least int_from strict_int
  new_client-IsCreated target fields tries s m b t w sent few =
      elim (Bool-cases (leb (field_count fields) 16)) [
        | inl e ↦
            rw
              (
                m,
                b,
                validate_up_to_again 16 tries t.0 t.1,
                waits_within s w.0 w.1,
                validate_request_fields_again py [] fields (ground (arith, e), sent.clean),
              )
              (record {
                calls = refl;
                tries = t;
                ordered = omega (arith, w);
                longest = omega (arith, w);
                input = refl;
                output = sent.allowance;
                room =
                    room_left target.max_output_tokens (field_count target.request_fields)
                      (field_count fields) sent.size e;
              })
        | inr e ↦
            rw
              (
                m,
                b,
                validate_up_to_again 16 tries t.0 t.1,
                waits_within s w.0 w.1,
                validate_request_fields_many py [] fields (ground (arith, e)),
              )
              (one_too_many target.max_output_tokens (field_count target.request_fields)
                (field_count fields) sent.size few e)
      ]

  target_client-IsCreated :
      (target : TargetConfig)
      → ((n : ℕ) → n ≤ 131_072 → byte_count (py.dumps (number n)) ≤ 1024)
      → IsTarget py target
      → validate_pinned_model target.model ≡ some true
      → validate_base_url urlsplit target.base_url ≡ some true
      → IsCreated target (chat_creation (target_client py urlsplit api_key target))
  unfolding target_client
  target_client-IsCreated target d t m b =
      let (fields, s) =
        sent py target.max_output_tokens target.request_fields d t.output_bound t.clean
          (t.unreserved "max_tokens" refl) in
      let (tries, e, low, high) = tried target.http_retry_attempts t.attempts_bound in
      let (seconds, f, short, long) = waited target.http_retry_max_wait_seconds t.wait_bound in
      rw (validate_request_fields_again py target_keys target.request_fields t.clean, s.made, e, f)
        (new_client-IsCreated target fields tries seconds m b (low, high) (short, long) s t.clean.0)

  -- An accepted run of an openai-compatible target without a plugin gets its client, with 8 model
  -- calls, at most 16 tries of a request, waits of at most 300 seconds, and the configured limit as the
  -- charge of an unknown call; but for exactly one case, which raises a ValueError: a limit of the
  -- output is configured besides 16 request fields. `json.dumps` of a number in range has at most 1024 bytes.
  pub create_adapter-IsCreated :
      (plugin : (module_name function_name : String) → Plugin) (raw : Fields) (config : RunConfig)
      → ((n : ℕ) → n ≤ 131_072 → byte_count (py.dumps (number n)) ≤ 1024)
      → load_run_config py urlsplit raw ≡ some config
      → config.target.adapter_entrypoint ≡ ""
      → config.target.provider ≡ "openai-compatible"
      → IsCreated config.target (create_adapter py urlsplit plugin api_key config.target)
  unfolding create_adapter
  create_adapter-IsCreated plugin raw config d h e p =
      let run = load_run_config-IsRun py urlsplit raw config h in
      let (m, filled, b) = run.pinned p in
      let client = target_client-IsCreated config.target d run.target m b in
      let bare : str_eq config.target.adapter_entrypoint "" ≡ true =
        (str_eq_iff config.target.adapter_entrypoint "").1 e in
      let real : str_eq config.target.provider "fake" ≡ false =
        subst (λ s. str_eq s "fake" ≡ false) (sym p) refl in
      let known : str_eq config.target.provider "openai-compatible" ≡ true =
        (str_eq_iff config.target.provider "openai-compatible").1 p in
      rw (bare, real, known) client
