-- ===== src/Chat/Run/Turns.antt =====
-- openai_compatible.py: `run` ends within its model calls and requests, and what it answers.
use native.Mathlib.Nat.{add-mul, one-mul, zero-add, sub-zero}
use agent_storm.Prelude.{
  false, is_blank, ℕ, zero, suc, ◌+◌, ◌-◌, ◌*◌, ◌≤◌, ◌<◌, max, String, ◌&&◌, Option, none, some, [],
  ◌∷◌, ◌++◌, ◌≡◌, refl, ap, ◌∙◌, ◌≢◌, ◌==◌, leb, arith, length, Bool-cases, inl, inr, str_eq,
}
use agent_storm.Models.{Items}
use agent_storm.Models.Json
use agent_storm.Errors.{ExecutionError}
use agent_storm.Chat.Ledger.{Ledger, add_usage, ledger_response}
use agent_storm.Chat.Ledger.Charges.{status_error-IsCharged}
use agent_storm.Chat.Completion.{AssistantMessage, Completion, parse_completion, message_text}
use agent_storm.Chat.Codes.{allowlisted_token, allowlisted_provider_code}
use agent_storm.Chat.Post.{Client, Ending, returned, failed, cancelled, stuck, Retried}
use agent_storm.Chat.Post.Retries.{IsRetried, IsEnded, post_with_retry-IsRetried}
use agent_storm.Chat.Tools.{Session, World, Stepped, went, broke, dropped}
use agent_storm.Chat.Run.{
  opening, RunEnding, responded, stopped, withdrawn, tool_withdrawn, endless, Ran, respond,
  after_tools, after_completion, after_body, after_ending, posted_session, turns, run, max_turns,
  text_or_empty, items_of, assistant_message,
}
use agent_storm.Chat.Tools.Tally.{IsTallied, IsTooled, execute_tools-IsTooled}

-- What is said of a call that ended: an answer counts the tools that were started and the model calls.
abbrev pub IsFinished : RunEnding → Session → Type 0
IsFinished (responded response) s =
    (response.tool_call_count ≡ some (length s.started))
    × (response.model_call_count ≡ some s.ledger.model_calls)
IsFinished (stopped error) s = Unit
IsFinished withdrawn s = s.ledger.usage_known ≡ false
IsFinished tool_withdrawn s = Unit
IsFinished endless s = ⊥

-- At most `calls` model calls and `requests` requests, and the above.
pub record IsDone (calls requests : ℕ) (ran : Ran) : Type 0 where
  pub called : ran.session.ledger.model_calls ≤ calls
  pub requested : ran.session.requests ≤ requests
  pub finished : IsFinished ran.ending ran.session

stopped-IsDone :
    (calls requests : ℕ) (error : ExecutionError) (s : Session)
    → s.ledger.model_calls ≤ calls
    → s.requests ≤ requests
    → IsDone calls requests (record { ending = stopped error; session = s })
stopped-IsDone calls requests error s c r = record { called = c; requested = r; finished = tt }

respond-IsFinished :
    (content : Option String) (finish : String) (s : Session)
    → IsTallied s
    → IsFinished (respond content finish s) s
unfolding respond ledger_response text_or_empty
respond-IsFinished none finish s h = elim (Bool-cases (str_eq finish "length" && is_blank "")) [
  | inl e ↦ rw e tt
  | inr e ↦ rw e tt
]
respond-IsFinished (some text) finish s h =
    elim (Bool-cases (str_eq finish "length" && is_blank text)) [
      | inl e ↦ rw e tt
      | inr e ↦ rw e (elim (Bool-cases (str_eq finish "")) [
        | inl f ↦ rw f (ap some h, refl)
        | inr f ↦ rw f (ap some h, refl)
      ])
    ]

add_usage-calls :
    (used : Option (ℕ × ℕ)) (l : Ledger) → (add_usage used l).model_calls ≡ l.model_calls
unfolding add_usage
add_usage-calls none l = refl
add_usage-calls (some (input, output)) l = refl

module _ (world : World) (calls requests : ℕ) where
  -- What the next turn may rely on and gives.
  abbrev IsNext : (s : Session) → (Session → Ran) → Type 0
  IsNext s again =
      (t : Session)
      → IsTallied t
      → t.ledger.model_calls ≡ s.ledger.model_calls
      → t.requests ≡ s.requests
      → IsDone calls requests (again t)

  after_tools-IsDone :
      (stepped : Stepped) (s : Session) (again : Session → Ran)
      → IsTooled s 0 stepped
      → s.ledger.model_calls ≤ calls
      → s.requests ≤ requests
      → IsNext s again
      → IsDone calls requests (after_tools stepped again)
  unfolding after_tools
  after_tools-IsDone (went t) s again (a, b, c) h k next =
      next t (omega (arith, a)) (ap Ledger.model_calls b) c
  after_tools-IsDone (broke error t) s again (b, c) h k next =
      stopped-IsDone calls requests error t (omega (arith, ap Ledger.model_calls b, h))
        (omega (arith, c, k))
  after_tools-IsDone (dropped t) s again (b, c) h k next = record {
    called = omega (arith, ap Ledger.model_calls b, h);
    requested = omega (arith, c, k);
    finished = tt;
  }

  after_completion-IsDone :
      (message : AssistantMessage) (finish : String) (items : Items) (s : Session)
      (again : Session → Ran)
      → IsTallied s
      → s.ledger.model_calls ≤ calls
      → s.requests ≤ requests
      → IsNext s again
      → IsDone calls requests (after_completion world message finish items s again)
  unfolding after_completion
  after_completion-IsDone message finish Json.nil s again t h k next = record {
    called = h;
    requested = k;
    finished = respond-IsFinished (message_text message.content) finish s t;
  }
  after_completion-IsDone message finish (Json.cons call rest) s again t h k next =
      let asked = record s { messages = s.messages ++ assistant_message message ∷ [] } in
      elim (Bool-cases (leb world.client.max_model_calls s.ledger.model_calls)) [
        | inl e ↦ rw e (stopped-IsDone calls requests (max_turns s.ledger) s h k)
        | inr e ↦ rw e (
            after_tools-IsDone _ asked again
              (execute_tools-IsTooled world (Json.cons call rest) asked t) h k next)
      ]

  after_body-IsDone :
      (completion : Option Completion) (s : Session) (again : Session → Ran)
      → IsTallied s
      → s.ledger.model_calls ≤ calls
      → s.requests ≤ requests
      → IsNext s again
      → IsDone calls requests (after_body world completion s again)
  unfolding after_body
  after_body-IsDone none s again t h k next = stopped-IsDone calls requests _ _ h k
  after_body-IsDone (some completion) s again t h k next =
      let same = add_usage-calls completion.used s.ledger in
      after_completion-IsDone completion.message
        (allowlisted_token (some (Json.text completion.finish_reason)))
        (items_of completion.message.tool_calls)
        (record s { ledger = add_usage completion.used s.ledger }) again t (omega (arith, same, h))
        k (λ u a b. next u a (b ∙ same))

  after_ending-IsDone :
      (ending : Ending) (s : Session) (again : Session → Ran)
      → ending ≢ stuck
      → IsTallied s
      → s.ledger.model_calls < calls
      → s.requests ≤ requests
      → ((t : Session)
          → IsTallied t
          → t.ledger.model_calls ≡ s.ledger.model_calls + 1
          → t.requests ≡ s.requests
          → IsDone calls requests (again t))
      → IsDone calls requests (after_ending world ending s again)
  unfolding after_ending
  after_ending-IsDone stuck s again over t h k next = let absurd : ⊥ = over refl in elim absurd [ ]
  after_ending-IsDone cancelled s again over t h k next = record {
    called = omega (arith, h);
    requested = k;
    finished = refl;
  }
  after_ending-IsDone (failed error) s again over t h k next =
      stopped-IsDone calls requests error s (omega (arith, h)) k
  after_ending-IsDone (returned status body) s again over t h k next =
      elim (Bool-cases (status == 200)) [
        | inl e ↦ rw e (
            after_body-IsDone (parse_completion body)
              (record s { ledger = record s.ledger { model_calls = s.ledger.model_calls + 1 } })
              again t (omega (arith, h)) k next)
        | inr e ↦ rw e (
            let client = world.client in
            let code = allowlisted_provider_code body client.api_key in
            let charged =
              status_error-IsCharged status code client.input_allowance client.output_allowance
                s.ledger in
            stopped-IsDone calls requests _ _ (omega (arith, charged.kept.1, h)) k)
      ]

-- The requests that a session may still make, with those it made.
budget : World → Session → ℕ
budget world s =
    s.requests
    + (world.client.max_model_calls - s.ledger.model_calls) * max 1 world.client.max_http_attempts

IsDone-mono :
    (calls few many : ℕ) (ran : Ran) → few ≤ many → IsDone calls few ran → IsDone calls many ran
IsDone-mono calls few many ran h d = record {
  called = d.called;
  requested = omega (arith, d.requested, h);
  finished = d.finished;
}

step_budget : (m c h : ℕ) → c < m → (m - c) * h ≡ h + (m - (c + 1)) * h
step_budget m c h p =
    ap (λ k. k * h) (omega arith)
    ∙ add-mul 1 (m - (c + 1)) h
    ∙ ap (λ k. k + (m - (c + 1)) * h) (one-mul h)

IsEnded-calls :
    (client : Client) (made tries : ℕ) (before after : Ledger) (ending : Ending)
    → IsEnded client made tries before after ending
    → (ending ≢ stuck) × (after.model_calls ≡ before.model_calls)
IsEnded-calls client made tries before after (returned status body) h = (λ e. cc, h.2)
IsEnded-calls client made tries before after (failed error) h = (λ e. cc, h.3)
IsEnded-calls client made tries before after cancelled h = (λ e. cc, h.1)
IsEnded-calls client made tries before after stuck h = let absurd : ⊥ = h in elim absurd [ ]

module _ (world : World) where
  -- A turn from the next turns: the requests it makes are those of one model call.
  turn-IsDone :
      (s : Session) (retried : Retried) (again : Session → Ran)
      → IsRetried world.client 0 s.ledger retried
      → IsTallied s
      → s.ledger.model_calls < world.client.max_model_calls
      → ((u : Session)
          → IsTallied u
          → u.ledger.model_calls ≡ s.ledger.model_calls + 1
          → IsDone world.client.max_model_calls (budget world u) (again u))
      → IsDone world.client.max_model_calls
          (budget world s)
          (after_ending world retried.ending (posted_session retried s) again)
  unfolding posted_session budget
  turn-IsDone s retried again r t h next =
      let m = world.client.max_model_calls in
      let c = s.ledger.model_calls in
      let limit = max 1 world.client.max_http_attempts in
      let (moving, same) =
        IsEnded-calls world.client _ _ s.ledger retried.ledger retried.ending r.ended in
      let split = step_budget m c limit h in
      after_ending-IsDone world m (budget world s) retried.ending (posted_session retried s) again
        moving t (omega (arith, same, h)) (omega (arith, r.enough, split))
        (λ u a b q.
          let called = b ∙ ap (λ k. k + 1) same in
          IsDone-mono m (budget world u) (budget world s) (again u)
            (rw called (omega (arith, q, r.enough, split))) (next u a called))

  turns-IsDone :
      (fuel : ℕ) (s : Session)
      → IsTallied s
      → s.ledger.model_calls ≤ world.client.max_model_calls
      → world.client.max_model_calls < fuel + s.ledger.model_calls
      → IsDone world.client.max_model_calls (budget world s) (turns fuel world s)
  unfolding turns posted_session budget
  turns-IsDone zero s t h f = let absurd : ⊥ = omega (arith, h, f) in elim absurd [ ]
  turns-IsDone (suc fuel) s t h f =
      elim (Bool-cases (leb world.client.max_model_calls s.ledger.model_calls)) [
        | inl e ↦ rw e (stopped-IsDone _ _ _ s h (omega arith))
        | inr e ↦ rw e (
            turn-IsDone s _ (turns fuel world)
              (post_with_retry-IsRetried world.client
                (λ n. world.exchange s.messages (s.requests + n)) s.ledger).0
              t (ground arith)
              (λ u a b. turns-IsDone fuel u a (ground (arith, b)) (omega (arith, f, b))))
      ]

budget-opening :
    (world : World) (instructions prompt : String)
    → budget world (opening instructions prompt)
      ≡ world.client.max_model_calls * max 1 world.client.max_http_attempts
unfolding budget opening
budget-opening world instructions prompt =
    zero-add _
    ∙ ap (λ k. k * max 1 world.client.max_http_attempts) (sub-zero world.client.max_model_calls)

-- A call of the chat client ends, whatever the provider and the tools do: it makes at most the
-- configured number of model calls, and at most that number times the tries of one call of requests;
-- an answer reports how many tools were started and how many model calls were made; and after a
-- cancellation during a request its usage is not known.
pub run-IsDone :
    (world : World) (instructions prompt : String)
    → IsDone world.client.max_model_calls
        (world.client.max_model_calls * max 1 world.client.max_http_attempts)
        (run world instructions prompt)
unfolding run opening
run-IsDone world instructions prompt =
    let start = opening instructions prompt in
    IsDone-mono world.client.max_model_calls (budget world start) _ (run world instructions prompt)
      (omega (arith, budget-opening world instructions prompt))
      (turns-IsDone world (suc world.client.max_model_calls) start refl (omega arith) (omega arith))
