-- ===== src/Chat/Post/Retries.antt =====
-- openai_compatible.py: the repetitions of a request end, and what they leave in the ledger.
use agent_storm.Prelude.{
  refl, subst, ℕ, zero, suc, ◌+◌, ◌-◌, ◌≤◌, ◌<◌, max, String, true, false, Option, none, some, [],
  ◌∷◌, ◌≡◌, ◌==◌, leb, leb→le, if◌then◌else◌, arith, length, length-append, All, Bool-cases, inl,
  inr,
}
use agent_storm.Models.{Fields}
use agent_storm.Chat.Codes.{retry_delay_le, allowlisted_provider_code}
use agent_storm.Chat.Ledger.{
  Ledger, note_retryable, priced_unknown, charge_unknown_call, ledger_error,
}
use agent_storm.Chat.Post.Follows.{Follows, post_tries-Follows}
use agent_storm.Chat.Post.{
  Client, Exchange, answered, http_error, timed_out, url_error, io_error, interrupted, post, Ending,
  returned, failed, cancelled, stuck, Retried, after_reply, after_post, post_tries, post_with_retry,
  slept, unpriced,
}

-- A reply leaves the counts of the ledger as they were and adds an event for each 429; a request that
-- broke off is one call of unknown usage, charged the allowances while usage is known.
abbrev pub IsEnded : (client : Client) (made tries : ℕ) (before after : Ledger) → Ending → Type 0
IsEnded client made tries before after (returned status body) =
    (length after.rate_limit_events
      ≡ length before.rate_limit_events + (if status == 429 then made else made - 1))
    × (status ≡ 429 → max 1 client.max_http_attempts ≤ tries)
    × (after.model_calls ≡ before.model_calls)
    × (after.input_tokens ≡ before.input_tokens)
    × (after.output_tokens ≡ before.output_tokens)
    × (after.usage_known ≡ before.usage_known)
    × (after.unknown_calls ≡ before.unknown_calls)
IsEnded client made tries before after (failed error) =
    (length after.rate_limit_events ≡ length before.rate_limit_events + (made - 1))
    × (error.ambiguous ≡ true)
    × (error.safe_to_retry ≡ false)
    × (after.model_calls ≡ before.model_calls)
    × (after.usage_known ≡ before.usage_known)
    × (after.unknown_calls ≡ before.unknown_calls + 1)
    × (before.usage_known ≡ true
        → (after.input_tokens ≡ before.input_tokens + client.input_allowance)
          × (after.output_tokens ≡ before.output_tokens + client.output_allowance))
IsEnded client made tries before after cancelled =
    (length after.rate_limit_events ≡ length before.rate_limit_events + (made - 1))
    × (after.model_calls ≡ before.model_calls)
    × (after.input_tokens ≡ before.input_tokens)
    × (after.output_tokens ≡ before.output_tokens)
    × (after.unknown_calls ≡ before.unknown_calls)
IsEnded client made tries before after stuck = ⊥

-- From `start` requests on: between one more and the maximum, a sleep between two requests, and
-- each within the maximum.
pub record IsRetried (client : Client) (start : ℕ) (before : Ledger) (r : Retried) : Type 0 where
  pub more : start < r.tries
  pub enough : r.tries ≤ max 1 client.max_http_attempts
  pub sleeps : length r.delays + suc start ≡ r.tries
  pub short : All (λ d. d ≤ client.retry_max) r.delays
  pub ended : IsEnded client (r.tries - start) r.tries before r.ledger r.ending

IsEnded-note :
    (client : Client) (code : String) (made tries : ℕ) (before after : Ledger) (ending : Ending)
    → 0 < made
    → IsEnded client made tries (note_retryable code before) after ending
    → IsEnded client (suc made) tries before after ending
unfolding note_retryable
IsEnded-note client code made tries before after (returned status body) p h =
    ground (arith, length-append before.rate_limit_events (code ∷ []))
IsEnded-note client code made tries before after (failed error) p h =
    ground (arith, length-append before.rate_limit_events (code ∷ []))
IsEnded-note client code made tries before after cancelled p h =
    ground (arith, length-append before.rate_limit_events (code ∷ []))
IsEnded-note client code made tries before after stuck p h = h

slept-IsRetried :
    (client : Client) (code : String) (start delay : ℕ) (before : Ledger) (r : Retried)
    → delay ≤ client.retry_max
    → IsRetried client (start + 1) (note_retryable code before) r
    → IsRetried client start before (slept delay r)
unfolding slept
slept-IsRetried client code start delay before r d h = record {
  more = omega (arith, h.more);
  enough = h.enough;
  sleeps = omega (arith, h.sleeps);
  short = (d, h.short);
  ended =
      subst (λ made. IsEnded client made r.tries before r.ledger r.ending) (omega (arith, h.more))
        (IsEnded-note client code (r.tries - (start + 1)) r.tries before r.ledger r.ending
          (omega (arith, h.more)) h.ended);
}

other-IsEnded :
    (client : Client) (made tries status : ℕ) (body : Option Fields) (l : Ledger)
    → (status == 429) ≡ false
    → made ≡ 1
    → IsEnded client made tries l l (returned status body)
other-IsEnded client made tries status body l e m = ground arith

noted-IsEnded :
    (client : Client) (code : String) (made tries status : ℕ) (body : Option Fields) (l : Ledger)
    → (status == 429) ≡ true
    → made ≡ 1
    → max 1 client.max_http_attempts ≤ tries
    → IsEnded client made tries l (note_retryable code l) (returned status body)
unfolding note_retryable
noted-IsEnded client code made tries status body l e m t =
    ground (arith, length-append l.rate_limit_events (code ∷ []))

cancelled-IsEnded :
    (client : Client) (made tries : ℕ) (l : Ledger)
    → made ≡ 1
    → IsEnded client made tries l l cancelled
cancelled-IsEnded client made tries l m = (omega (arith, m), refl, refl, refl, refl)

unpriced-IsEnded :
    (client : Client) (code kind : String) (made tries : ℕ) (l : Ledger)
    → made ≡ 1
    → let (error, charged) =
        priced_unknown code kind client.input_allowance client.output_allowance [] l in
      IsEnded client made tries l charged (failed error)
unfolding priced_unknown charge_unknown_call ledger_error
unpriced-IsEnded client code kind made tries l m = ground arith

module _ (client : Client) where
  after_reply-IsRetried :
      (tries status : ℕ) (body : Option Fields) (retry_after : Option ℕ) (l : Ledger)
      (again : Ledger → Retried)
      → tries < max 1 client.max_http_attempts
      → ((noted : Ledger)
          → tries + 1 < max 1 client.max_http_attempts
          → IsRetried client (tries + 1) noted (again noted))
      → IsRetried client tries l (after_reply client (tries + 1) status body retry_after l again)
  unfolding after_reply
  after_reply-IsRetried tries status body retry_after l again t h =
      let noted = note_retryable (allowlisted_provider_code body client.api_key) l in
      elim (Bool-cases (status == 429)) [
        | inr e ↦ rw e (record {
          more = omega arith;
          enough = omega (arith, t);
          sleeps = omega arith;
          short = tt;
          ended = other-IsEnded client _ _ status body l e (omega arith);
        })
        | inl e ↦ elim (Bool-cases (leb client.max_http_attempts (tries + 1))) [
          | inl m ↦
              rw (e, m)
                (record {
                  more = omega arith;
                  enough = omega (arith, t);
                  sleeps = omega arith;
                  short = tt;
                  ended =
                      noted-IsEnded client _ _ _ status body l e (omega arith)
                        (grind (arith, t, leb→le client.max_http_attempts (tries + 1) m));
                })
          | inr m ↦
              rw (e, m)
                (slept-IsRetried client _ tries _ l (again noted)
                  (retry_delay_le (tries + 1) retry_after client.retry_initial client.retry_max)
                  (h noted (ground (arith, t))))
        ]
      ]

  broken-IsRetried :
      (tries : ℕ) (code kind : String) (l : Ledger)
      → tries < max 1 client.max_http_attempts
      → let (error, charged) =
          priced_unknown code kind client.input_allowance client.output_allowance [] l in
        IsRetried client tries l
          (record { ending = failed error; ledger = charged; tries = tries + 1; delays = [] })
  broken-IsRetried tries code kind l t = record {
    more = omega arith;
    enough = omega (arith, t);
    sleeps = omega arith;
    short = tt;
    ended = unpriced-IsEnded client code kind (tries + 1 - tries) (tries + 1) l (omega arith);
  }

  cancelled-IsRetried :
      (tries : ℕ) (l : Ledger)
      → tries < max 1 client.max_http_attempts
      → IsRetried client tries l
          (record { ending = cancelled; ledger = l; tries = tries + 1; delays = [] })
  cancelled-IsRetried tries l t = record {
    more = omega arith;
    enough = omega (arith, t);
    sleeps = omega arith;
    short = tt;
    ended = cancelled-IsEnded client (tries + 1 - tries) (tries + 1) l (omega arith);
  }

  after_post-IsRetried :
      (x : Exchange) (tries : ℕ) (l : Ledger) (again : Ledger → Retried)
      → tries < max 1 client.max_http_attempts
      → ((noted : Ledger)
          → tries + 1 < max 1 client.max_http_attempts
          → IsRetried client (tries + 1) noted (again noted))
      → IsRetried client tries l (after_post client (tries + 1) (post client x l) l again)
  unfolding after_post post unpriced
  after_post-IsRetried (answered status retry_after body) tries l again t h =
      after_reply-IsRetried tries status _ retry_after l again t h
  after_post-IsRetried (http_error status retry_after (some body)) tries l again t h =
      after_reply-IsRetried tries status _ retry_after l again t h
  after_post-IsRetried (http_error status retry_after none) tries l again t h =
      broken-IsRetried tries _ _ l t
  after_post-IsRetried timed_out tries l again t h = broken-IsRetried tries _ _ l t
  after_post-IsRetried (url_error true) tries l again t h = broken-IsRetried tries _ _ l t
  after_post-IsRetried (url_error false) tries l again t h = broken-IsRetried tries _ _ l t
  after_post-IsRetried io_error tries l again t h = broken-IsRetried tries _ _ l t
  after_post-IsRetried interrupted tries l again t h = cancelled-IsRetried tries l t

module _ (client : Client) (exchange : ℕ → Exchange) where
  post_tries-IsRetried :
      (fuel tries : ℕ) (l : Ledger)
      → tries < max 1 client.max_http_attempts
      → client.max_http_attempts < fuel + tries
      → IsRetried client tries l (post_tries client exchange fuel tries l)
  unfolding post_tries
  post_tries-IsRetried zero tries l t f = let absurd : ⊥ = omega (arith, t, f) in elim absurd [ ]
  post_tries-IsRetried (suc fuel) tries l t f =
      after_post-IsRetried client (exchange tries) tries l
        (post_tries client exchange fuel (tries + 1)) t
        (λ noted m. post_tries-IsRetried fuel (tries + 1) noted m (omega (arith, f)))

  -- A request and its repetitions come to an end: at least one request is made and at most the
  -- configured number, with one sleep between two, each within the maximum. Each request but the last
  -- was answered with a 429, and a 429 is returned only after the last allowed try; the returned
  -- status is that of the last request, an error is the last request's breaking off, by a timeout or
  -- without an answer, and a cancellation is that of the last. A 429 adds an event to the ledger and
  -- neither tokens nor calls; a request that breaks off counts one call of unknown usage, charged the
  -- allowances while usage is known; and a cancelled one leaves tokens and calls as they were.
  pub post_with_retry-IsRetried :
      (l : Ledger)
      → IsRetried client 0 l (post_with_retry client exchange l)
        × Follows exchange 0 (post_with_retry client exchange l)
  unfolding post_with_retry
  post_with_retry-IsRetried l = (
    post_tries-IsRetried (suc client.max_http_attempts) 0 l (omega arith) (omega arith),
    post_tries-Follows client exchange (suc client.max_http_attempts) 0 l (omega arith)
        (omega arith),
  )
