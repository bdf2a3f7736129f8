-- ===== src/Runner/Workers.antt =====
-- runner.py: the tasks of `WorkloadRunner.execute` that take work under `index_lock`, as a step
-- relation. `n` is the length of the work, and items of work are their positions in it. An exception
-- of a case is one of the whole run, which then has no results: it is no step.
pub mod Once
use agent_storm.Prelude.{
  ℕ, zero, suc, ◌+◌, ◌≤◌, ◌<◌, min, Bool, true, false, List, [], ◌∷◌, ◌++◌, ◌≡◌,
}

-- A task: at its loop test, awaiting `_execute_case` of an item, or returned or cancelled.
pub data Task : Type 0 where
  idle gone : Task
  running : ℕ → Task

pub record Pool : Type 0 where
  pub next_index : ℕ
  pub stopped : Bool
  pub tasks : List Task
  pub results : List ℕ

abbrev pub replicate : ℕ → Task → List Task
replicate zero t = []
replicate (suc k) t = t ∷ replicate k t

-- `min(concurrency, len(work))` tasks.
abbrev pub start : (concurrency n : ℕ) → Pool
start concurrency n = record {
  next_index = 0;
  stopped = false;
  tasks = replicate (min concurrency n) idle;
  results = [];
}

pub data Step (n : ℕ) : Pool → Pool → Type 0 where
  -- the locked block takes the next item
  takes :
      (p : Pool) (ws vs : List Task)
      → p.tasks ≡ ws ++ idle ∷ vs
      → p.stopped ≡ false
      → p.next_index < n
      → Step n p
          (record p { next_index = p.next_index + 1; tasks = ws ++ running p.next_index ∷ vs })
  -- no item is left, or the run is stopped
  returns_empty :
      (p : Pool) (ws vs : List Task)
      → p.tasks ≡ ws ++ idle ∷ vs
      → n ≤ p.next_index
      → Step n p (record p { tasks = ws ++ gone ∷ vs })
  returns_stopped :
      (p : Pool) (ws vs : List Task)
      → p.tasks ≡ ws ++ idle ∷ vs
      → p.stopped ≡ true
      → Step n p (record p { tasks = ws ++ gone ∷ vs })
  -- `results.append`
  finishes :
      (p : Pool) (ws vs : List Task) (i : ℕ)
      → p.tasks ≡ ws ++ running i ∷ vs
      → Step n p (record p { tasks = ws ++ idle ∷ vs; results = p.results ++ i ∷ [] })
  -- the stop event is set, and then unfinished tasks are cancelled
  stops : (p : Pool) → Step n p (record p { stopped = true })
  cancels :
      (p : Pool) (ws vs : List Task) (i : ℕ)
      → p.tasks ≡ ws ++ running i ∷ vs
      → p.stopped ≡ true
      → Step n p (record p { tasks = ws ++ gone ∷ vs })

pub data Reach (n : ℕ) (p : Pool) : Pool → Type 0 where
  here : Reach n p p
  next : {q r : Pool} → Reach n p q → Step n q r → Reach n p r
