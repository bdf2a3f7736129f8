-- ===== src/Telemetry/Exported.antt =====
-- telemetry.py: what reaches OpenTelemetry.
use agent_storm.Prelude.{String, List, [], ◌∷◌, ◌≡◌}
use agent_storm.Prelude.Yields.{Yields}
use agent_storm.Telemetry.{
  AttributeValue, text_attribute, other_attribute, Call, start_span, start_detached_span,
  set_attribute, set_error, end_span, shutdown,
}
use agent_storm.Telemetry.Cleaning.{IsSanitizedOf}

module _ (sub : (pattern value : String) → String) (patterns : List String) where
  -- A text had every pattern replaced and is cut; all else is the same.
  abbrev pub IsRedacted : (before after : AttributeValue) → Type 0
  IsRedacted (text_attribute s) (text_attribute t) = IsSanitizedOf sub patterns s t
  IsRedacted (other_attribute v) (other_attribute w) = v ≡ w
  IsRedacted _ _ = ⊥

  abbrev pub AreRedacted : (before after : List (String × AttributeValue)) → Type 0
  AreRedacted [] [] = Unit
  AreRedacted ((name, value) ∷ before) ((name', value') ∷ after) =
      (name ≡ name') × IsRedacted value value' × AreRedacted before after
  AreRedacted _ _ = ⊥

  -- The same call with its attributes redacted. The type of an error is not one of them.
  abbrev pub IsRedactedCall : (before after : Call) → Type 0
  IsRedactedCall (start_span n vs) (start_span m ws) = (n ≡ m) × AreRedacted vs ws
  IsRedactedCall (start_detached_span n vs) (start_detached_span m ws) = (n ≡ m) × AreRedacted vs ws
  IsRedactedCall (set_attribute n v) (set_attribute m w) = (n ≡ m) × IsRedacted v w
  IsRedactedCall (set_error type) (set_error type') = type ≡ type'
  IsRedactedCall end_span end_span = Unit
  IsRedactedCall shutdown shutdown = Unit
  IsRedactedCall _ _ = ⊥

  abbrev pub AreRedactedCalls : (before after : List Call) → Type 0
  AreRedactedCalls [] [] = Unit
  AreRedactedCalls (call ∷ before) (call' ∷ after) =
      IsRedactedCall call call' × AreRedactedCalls before after
  AreRedactedCalls _ _ = ⊥
