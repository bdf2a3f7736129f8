-- ===== src/Results/Permits.antt =====
-- results.py: what the answer to the request for a permit says of its reply.
use agent_storm.Prelude.{
  ◌≤◌, String, Option, none, some, ◌≡◌, refl, ap, subst, ◌⊎◌, inl, inr, ◌>>=◌, bind-some,
  eq_of_some-eq,
}
use agent_storm.Prelude.Int.{ℤ}
use agent_storm.Models.{Value, Fields}
use agent_storm.Models.Json.{get}
use agent_storm.Config.Readers.{Python, str_of}
use agent_storm.Config.Run.{int_of}
use agent_storm.Scheduler.{PermitGrant}
use agent_storm.Results.{
  Web, ResultSinkConfig, Request, Body, Reply, replied, http_error, Answer, answered, sink_error,
  busy, raised, and_then, post_reply, or_raised, required, text_field, int_field, permit_request,
  granted, acquire_permit,
}
use agent_storm.Results.Replies.{HasObject, IsPosted, post_reply-IsPosted}

and_then_inverse :
    {A B : Type 0} (m : Answer A) (f : A → Answer B) (b : B)
    → and_then m f ≡ answered b
    → (a : A) × (m ≡ answered a) × (f a ≡ answered b)
and_then_inverse (answered a) f b h = (a, refl, h)
and_then_inverse sink_error f b h = cc
and_then_inverse (busy ms) f b h = cc
and_then_inverse raised f b h = cc

eq_of_answered-eq : {A : Type 0} {a b : A} → answered a ≡ answered b → a ≡ b
eq_of_answered-eq h = cc

answered_inverse : {A : Type 0} (o : Option A) (a : A) → or_raised o ≡ answered a → o ≡ some a
unfolding or_raised
answered_inverse none a h = cc
answered_inverse (some b) a h = ap some (eq_of_answered-eq h)

required_inverse :
    {A : Type 0} (convert : Value → Option A) (key : String) (fields : Fields) (a : A)
    → required convert key fields ≡ answered a
    → (v : Value) × (get key fields ≡ some v) × (convert v ≡ some a)
unfolding required or_raised
required_inverse convert key fields a h =
    let (v, e, k) =
      bind-some (get key fields) convert a (answered_inverse (get key fields >>= convert) a h) in
    (v, e, k)

-- A field that the reply has, as a text and as an integer.
abbrev HasText : Python → Fields → String → String → Type 0
HasText py fields key s = (v : Value) × (get key fields ≡ some v) × (str_of py v ≡ s)

abbrev HasInt : Python → Fields → String → ℤ → Type 0
HasInt py fields key n = (v : Value) × (get key fields ≡ some v) × (int_of py v ≡ some n)

pub record IsGrant (py : Python) (fields : Fields) (grant : PermitGrant) : Type 0 where
  pub permit : HasText py fields "permit_id" grant.permit_id
  pub lease : HasText py fields "lease_token" grant.lease_token
  pub renewal : HasInt py fields "renew_after_ms" grant.renew_after_ms

-- A field is missing, or the time is no integer.
abbrev pub LacksGrant : Python → Fields → Type 0
LacksGrant py fields =
    (get "permit_id" fields ≡ none)
    ⊎ (get "lease_token" fields ≡ none)
    ⊎ ((v : Value) → get "renew_after_ms" fields ≡ some v → int_of py v ≡ none)

-- What each answer to the request for a permit says of its reply.
abbrev pub IsAcquired : Python → Reply → Answer PermitGrant → Type 0
IsAcquired py reply (answered grant) =
    (fields : Fields) × HasObject reply fields × IsGrant py fields grant
IsAcquired py reply (busy ms) = (1 ≤ ms) × ((body : Body) × (reply ≡ http_error 429 body))
IsAcquired py reply sink_error =
    IsPosted reply sink_error ⊎ ((body : Body) × (reply ≡ replied 204 body))
IsAcquired py reply raised =
    IsPosted reply raised ⊎ ((fields : Fields) × HasObject reply fields × LacksGrant py fields)

-- An answer that was found in a reply, or an exception on the way.
data IsPlain {A : Type 0} : Answer A → Type 0 where
  found : (a : A) → IsPlain (answered a)
  thrown : IsPlain raised

or_raised-IsPlain : {A : Type 0} (o : Option A) → IsPlain (or_raised o)
unfolding or_raised
or_raised-IsPlain none = thrown
or_raised-IsPlain (some a) = found a

and_then-IsPlain :
    {A B : Type 0} (m : Answer A) (f : A → Answer B)
    → IsPlain m
    → ((a : A) → IsPlain (f a))
    → IsPlain (and_then m f)
and_then-IsPlain (answered a) f p q = q a
and_then-IsPlain raised f p q = thrown
and_then-IsPlain sink_error f p q = elim p [ ]
and_then-IsPlain (busy ms) f p q = elim p [ ]

required-IsPlain :
    {A : Type 0} (convert : Value → Option A) (key : String) (fields : Fields)
    → IsPlain (required convert key fields)
unfolding required
required-IsPlain convert key fields = or_raised-IsPlain (get key fields >>= convert)

absent : {A : Type 0} (o : Option A) → ((a : A) → o ≡ some a → ⊥) → o ≡ none
absent none h = refl
absent (some a) h = absurd (h a refl)

not_answered : {A : Type 0} (o : Option A) → or_raised o ≡ raised → o ≡ none
unfolding or_raised
not_answered none h = refl
not_answered (some a) h = cc

and_then_raised :
    {A B : Type 0} (m : Answer A) (f : A → Answer B)
    → and_then m f ≡ raised
    → (m ≡ raised) ⊎ ((a : A) × (m ≡ answered a) × (f a ≡ raised))
and_then_raised (answered a) f h = inr (a, refl, h)
and_then_raised sink_error f h = cc
and_then_raised (busy ms) f h = cc
and_then_raised raised f h = inl refl

required_raised :
    {A : Type 0} (convert : Value → Option A) (key : String) (fields : Fields)
    → required convert key fields ≡ raised
    → (v : Value) → get key fields ≡ some v
    → convert v ≡ none
unfolding required or_raised
required_raised convert key fields h v g = not_answered (convert v) (rw g at h)

module _ (py : Python) (web : Web) (config : ResultSinkConfig) (send : Request → Reply) where
  granted-IsGrant :
      (fields : Fields) (grant : PermitGrant)
      → granted py web config send (some fields) ≡ answered grant
      → IsGrant py fields grant
  unfolding granted text_field int_field
  granted-IsGrant fields grant h =
      let (permit, a, h') = and_then_inverse (text_field py "permit_id" fields) _ grant h in
      let (lease, b, h'') = and_then_inverse (text_field py "lease_token" fields) _ grant h' in
      let (renew, c, e) = and_then_inverse (int_field py "renew_after_ms" fields) _ grant h'' in
      let (v, va, ve) = required_inverse _ "permit_id" fields permit a in
      let (w, wa, we) = required_inverse _ "lease_token" fields lease b in
      let (u, ua, ue) = required_inverse _ "renew_after_ms" fields renew c in
      subst (IsGrant py fields) (eq_of_answered-eq e) (record {
        permit = (v, va, eq_of_some-eq ve);
        lease = (w, wa, eq_of_some-eq we);
        renewal = (u, ua, ue);
      })

  granted-IsPlain : (fields : Fields) → IsPlain (granted py web config send (some fields))
  unfolding granted text_field int_field
  granted-IsPlain fields =
      and_then-IsPlain (text_field py "permit_id" fields) _ (required-IsPlain _ "permit_id" fields)
        λ permit.
          and_then-IsPlain (text_field py "lease_token" fields) _
            (required-IsPlain _ "lease_token" fields)
            λ lease.
              and_then-IsPlain (int_field py "renew_after_ms" fields) _
                (required-IsPlain (int_of py) "renew_after_ms" fields) λ renew. found _

  text_missing :
      (key : String) (fields : Fields) → text_field py key fields ≡ raised → get key fields ≡ none
  unfolding text_field
  text_missing key fields h =
      absent (get key fields)
        λ v g. let wrong = required_raised (λ v. some (str_of py v)) key fields h v g in cc

  granted-LacksGrant :
      (fields : Fields) → granted py web config send (some fields) ≡ raised → LacksGrant py fields
  unfolding granted int_field
  granted-LacksGrant fields h = elim (and_then_raised (text_field py "permit_id" fields) _ h) [
    | inl a ↦ inl (text_missing "permit_id" fields a)
    | inr (permit, a, h') ↦ elim (and_then_raised (text_field py "lease_token" fields) _ h') [
      | inl b ↦ inr (inl (text_missing "lease_token" fields b))
      | inr (lease, b, h'') ↦ elim (and_then_raised (int_field py "renew_after_ms" fields) _ h'') [
        | inl c ↦ inr (inr (required_raised (int_of py) "renew_after_ms" fields c))
        | inr (renew, c, wrong) ↦ cc
      ]
    ]
  ]

  grant_of_object :
      (reply : Reply) (fields : Fields) (answer : Answer PermitGrant)
      → HasObject reply fields
      → IsPlain answer
      → granted py web config send (some fields) ≡ answer
      → IsAcquired py reply answer
  grant_of_object reply fields (answered grant) o p e = (fields, o, granted-IsGrant fields grant e)
  grant_of_object reply fields raised o p e = inr (fields, o, granted-LacksGrant fields e)
  grant_of_object reply fields sink_error o p e = elim p [ ]
  grant_of_object reply fields (busy ms) o p e = elim p [ ]

  granted-IsAcquired :
      (reply : Reply) (answer : Answer (Option Fields))
      → IsPosted reply answer
      → IsAcquired py reply (and_then answer (granted py web config send))
  unfolding granted
  granted-IsAcquired reply (answered none) p = inr p
  granted-IsAcquired reply (answered (some fields)) p =
      grant_of_object reply fields _ p (granted-IsPlain fields) refl
  granted-IsAcquired reply (busy ms) p = p
  granted-IsAcquired reply sink_error p = inl p
  granted-IsAcquired reply raised p = inl p

pub acquire_permit-IsAcquired :
    (py : Python) (web : Web) (config : ResultSinkConfig) (send : Request → Reply)
    (run_id request_id worker_id provider : String)
    → IsAcquired py
        (send (permit_request py web config send run_id request_id worker_id provider))
        (acquire_permit py web config send run_id request_id worker_id provider)
unfolding acquire_permit
acquire_permit-IsAcquired py web config send run_id request_id worker_id provider =
    let reply = send (permit_request py web config send run_id request_id worker_id provider) in
    granted-IsAcquired py web config send reply (post_reply py reply) (post_reply-IsPosted py reply)
