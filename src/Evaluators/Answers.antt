-- ===== src/Evaluators/Answers.antt =====
-- evaluators.py: what a verdict that was returned or raised says, and the verdicts of plugins.
use agent_storm.Prelude.{
  ℕ, String, Bool, true, false, Option, none, some, ◌≡◌, refl, ◌↔◌, str_eq, str_eq_iff, arith,
}
use agent_storm.Models.{Value}
use agent_storm.Models.Json
use agent_storm.Models.Json.{get}
use agent_storm.Evaluators.{
  Raised, returned, raised, Verdict, verdict, with_message, passed_field, plugin_verdict,
  outcome_of,
}

-- The message of a plugin's dictionary may be a text or None.
abbrev IsMessage : Option Value → Type 0
IsMessage none = Unit
IsMessage (some Json.null) = Unit
IsMessage (some (Json.text s)) = Unit
IsMessage (some _) = ⊥

-- A plugin says yes: True, or a dictionary whose `passed` is True, with a proper message.
abbrev pub Approves : Raised Value → Type 0
Approves (raised text) = ⊥
Approves (returned (Json.boolean passed)) = passed ≡ true
Approves (returned (Json.object fields)) =
    (get "passed" fields ≡ some (Json.boolean true)) × IsMessage (get "message" fields)
Approves (returned _) = ⊥

distinct : (s t : String) → str_eq s t ≡ false → ¬ (s ≡ t)
distinct s t h e = ground (arith, e, str_eq_iff s t)

pub outcome_of-index : (i : ℕ) (t : String) (v : Raised Verdict) → (outcome_of i t v).index ≡ i
unfolding outcome_of
outcome_of-index i t (raised text) = refl
outcome_of-index i t (returned v) = refl

pub outcome_of-type : (i : ℕ) (t : String) (v : Raised Verdict) → (outcome_of i t v).type ≡ t
unfolding outcome_of
outcome_of-type i t (raised text) = refl
outcome_of-type i t (returned v) = refl

-- What a returned or raised verdict says.
pub record Says (P : Type 0) (v : Raised Verdict) : Type 0 where
  pub reason :
      (i : ℕ) (t : String)
      → ((outcome_of i t v).passed ≡ true) ↔ ((outcome_of i t v).reason_code ≡ "passed")
  pub meets : (i : ℕ) (t : String) → ((outcome_of i t v).passed ≡ true) ↔ P

pub Says-raised : (P : Type 0) (text : String) → (P → ⊥) → Says P (raised text)
unfolding outcome_of
Says-raised P text n = record {
  reason = λ i t. (λ h. cc, λ h. cc);
  meets = λ i t. (λ h. cc, λ p. absurd (n p));
}

pub Says-verdict :
    (P : Type 0) (b : Bool) (otherwise : String) (message : Option String)
    → str_eq otherwise "passed" ≡ false
    → (b ≡ true) ↔ P
    → Says P (returned (verdict b otherwise message))
unfolding outcome_of
Says-verdict P true otherwise message d h = record {
  reason = λ i t. (λ e. refl, λ e. refl);
  meets = λ i t. h;
}
Says-verdict P false otherwise message d h = record {
  reason = λ i t. (λ e. cc, λ e. absurd (distinct otherwise "passed" d e));
  meets = λ i t. h;
}

-- The rest of the dictionary is proper.
says_passed :
    (b : Bool) (P : Type 0)
    → P
    → (b ≡ true) ↔ ((◌≡◌ {A = Option Value} (some (Json.boolean b)) (some (Json.boolean true))) × P)
says_passed b P p = (λ h. (cc, p), λ (e, p). cc)

Says-IsMessage :
    (b : Bool) (message : Option Value)
    → Says
        ((◌≡◌ {A = Option Value} (some (Json.boolean b)) (some (Json.boolean true)))
          × IsMessage message)
        (with_message b message)
unfolding with_message
Says-IsMessage b none = Says-verdict _ b "mismatch" none refl (says_passed b Unit tt)
Says-IsMessage b (some Json.null) = Says-verdict _ b "mismatch" none refl (says_passed b Unit tt)
Says-IsMessage b (some (Json.text s)) =
    Says-verdict _ b "mismatch" (some s) refl (says_passed b Unit tt)
Says-IsMessage b (some (Json.boolean c)) = Says-raised _ _ (λ p. p.1)
Says-IsMessage b (some (Json.int n)) = Says-raised _ _ (λ p. p.1)
Says-IsMessage b (some (Json.float x)) = Says-raised _ _ (λ p. p.1)
Says-IsMessage b (some (Json.array items)) = Says-raised _ _ (λ p. p.1)
Says-IsMessage b (some (Json.object fields)) = Says-raised _ _ (λ p. p.1)

Says-fields :
    (passed message : Option Value)
    → Says ((passed ≡ some (Json.boolean true)) × IsMessage message) (passed_field passed message)
unfolding passed_field
Says-fields (some (Json.boolean b)) message = Says-IsMessage b message
Says-fields none message = Says-raised _ _ (λ p. cc)
Says-fields (some Json.null) message = Says-raised _ _ (λ p. cc)
Says-fields (some (Json.int n)) message = Says-raised _ _ (λ p. cc)
Says-fields (some (Json.float x)) message = Says-raised _ _ (λ p. cc)
Says-fields (some (Json.text s)) message = Says-raised _ _ (λ p. cc)
Says-fields (some (Json.array items)) message = Says-raised _ _ (λ p. cc)
Says-fields (some (Json.object fields)) message = Says-raised _ _ (λ p. cc)

pub Says-plugin : (answer : Raised Value) → Says (Approves answer) (plugin_verdict answer)
unfolding plugin_verdict
Says-plugin (raised text) = Says-raised ⊥ text (λ p. p)
Says-plugin (returned (Json.boolean b)) =
    Says-verdict (b ≡ true) b "mismatch" none refl (λ h. h, λ h. h)
Says-plugin (returned (Json.object fields)) =
    Says-fields (get "passed" fields) (get "message" fields)
Says-plugin (returned Json.null) = Says-raised ⊥ _ (λ p. p)
Says-plugin (returned (Json.int n)) = Says-raised ⊥ _ (λ p. p)
Says-plugin (returned (Json.float x)) = Says-raised ⊥ _ (λ p. p)
Says-plugin (returned (Json.text s)) = Says-raised ⊥ _ (λ p. p)
Says-plugin (returned (Json.array items)) = Says-raised ⊥ _ (λ p. p)

pub Says-iff : (P Q : Type 0) (v : Raised Verdict) → P ↔ Q → Says P v → Says Q v
Says-iff P Q v h s = record {
  reason = s.reason;
  meets = λ i t. (λ e. h.0 ((s.meets i t).0 e), λ q. (s.meets i t).1 (h.1 q));
}
