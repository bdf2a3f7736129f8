-- ===== src/Worker/Exits.antt =====
-- __main__.py: every process, from its start to its exit code.
use agent_storm.Prelude.{ℕ, Bool, some, List, ◌≡◌, ◌⊎◌}
use agent_storm.Worker.{Effect, Outside, Progress}
use agent_storm.Worker.Effects.{Phase, opening, enrolled, history, At}
use agent_storm.Worker.History.{IsExit}

-- Before the claim.
abbrev IsEarly : Progress → Type 0
IsEarly s = At opening s ⊎ At enrolled s

-- The exit code and the trace of a process.
abbrev pub IsHistory : Outside → (connected : Bool) → ℕ × List Effect → Type 0
IsHistory o connected (code, trace) =
    (phase : Phase) × (history (some opening) trace ≡ some phase) × IsExit o connected code phase
