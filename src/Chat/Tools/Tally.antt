-- ===== src/Chat/Tools/Tally.antt =====
-- openai_compatible.py: what tool calls leave as it was, and that they are counted.
use agent_storm.Prelude.{
  ℕ, ◌+◌, Option, none, some, [], ◌∷◌, ◌++◌, ◌≡◌, refl, arith, length, length-append, Bool-cases,
  inl, inr, has_text,
}
use agent_storm.Models.{Items}
use agent_storm.Models.Json
use agent_storm.Chat.Completion.{ToolCall, parse_tool_call}
use agent_storm.Chat.Tools.{
  Session, World, Handled, produced, execution_failed, type_failed, other_failed, interrupted,
  Stepped, went, broke, dropped, after_handler, start_tool, tool_step, parsed_step, after_tool,
  execute_tools,
}

-- Between two turns every tool that was started was executed.
abbrev pub IsTallied : Session → Type 0
IsTallied s = s.tool_count ≡ length s.started

-- Tool calls touch neither the ledger nor the number of requests.
abbrev pub IsTooled : (s : Session) (extra : ℕ) → Stepped → Type 0
IsTooled s extra (went after) =
    (after.tool_count + extra ≡ length after.started)
    × (after.ledger ≡ s.ledger)
    × (after.requests ≡ s.requests)
IsTooled s extra (broke error after) = (after.ledger ≡ s.ledger) × (after.requests ≡ s.requests)
IsTooled s extra (dropped after) = (after.ledger ≡ s.ledger) × (after.requests ≡ s.requests)

after_handler-IsTooled :
    (call : ToolCall) (handled : Handled) (s : Session)
    → s.tool_count + 1 ≡ length s.started
    → IsTooled s 1 (after_handler call handled s)
unfolding after_handler
after_handler-IsTooled call (produced content) s h = (h, refl, refl)
after_handler-IsTooled call (execution_failed error) s h = (refl, refl)
after_handler-IsTooled call type_failed s h = (refl, refl)
after_handler-IsTooled call other_failed s h = (refl, refl)
after_handler-IsTooled call interrupted s h = (refl, refl)

module _ (world : World) where
  start_tool-IsTooled :
      (call : ToolCall) (s : Session) → IsTallied s → IsTooled s 1 (start_tool world call s)
  unfolding start_tool
  start_tool-IsTooled call s h = elim (Bool-cases (has_text call.name world.tools)) [
    | inl e ↦ rw e (
        after_handler-IsTooled call (world.handle s.tool_count call)
          (record s { started = s.started ++ call.name ∷ [] })
          (omega (arith, h, length-append s.started (call.name ∷ []))))
    | inr e ↦ rw e (refl, refl)
  ]

  parsed_step-IsTooled :
      (parsed : Option ToolCall) (s : Session)
      → IsTallied s
      → IsTooled s 1 (parsed_step world parsed s)
  unfolding parsed_step
  parsed_step-IsTooled none s h = (refl, refl)
  parsed_step-IsTooled (some call) s h = start_tool-IsTooled call s h

  after_tool-IsTooled :
      (stepped : Stepped) (s : Session) (again : Session → Stepped)
      → IsTooled s 1 stepped
      → ((t : Session) → IsTallied t → IsTooled t 0 (again t))
      → IsTooled s 0 (after_tool stepped again)
  unfolding after_tool
  after_tool-IsTooled (broke error t) s again h k = h
  after_tool-IsTooled (dropped t) s again h k = h
  after_tool-IsTooled (went t) s again (tallied, ledger, requests) k =
      moved (again (record t { tool_count = t.tool_count + 1 }))
        (k (record t { tool_count = t.tool_count + 1 }) tallied)
    where
      moved :
          (stepped : Stepped)
          → IsTooled (record t { tool_count = t.tool_count + 1 }) 0 stepped
          → IsTooled s 0 stepped
      moved (went u) (a, b, c) = (a, cc, cc)
      moved (broke error u) (b, c) = (cc, cc)
      moved (dropped u) (b, c) = (cc, cc)

  pub execute_tools-IsTooled :
      (calls : Items) (s : Session) → IsTallied s → IsTooled s 0 (execute_tools world calls s)
  unfolding execute_tools tool_step
  execute_tools-IsTooled Json.nil s h = (omega (arith, h), refl, refl)
  execute_tools-IsTooled (Json.cons value calls) s h =
      after_tool-IsTooled (tool_step world value s) s (execute_tools world calls)
        (parsed_step-IsTooled (parse_tool_call world.loads value) s h)
        (execute_tools-IsTooled calls)
