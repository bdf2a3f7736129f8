-- ===== src/Worker/Effects.antt =====
-- __main__.py: the order of the calls that others see, as an automaton, and a Hoare logic for the
-- process.
use agent_storm.Prelude.{
  String, Option, none, some, List, [], ◌∷◌, ◌++◌, ◌≡◌, refl, ◌∙◌, str_eq, if◌then◌else◌,
}
use agent_storm.Worker.{
  Effect, registers, claims, runs, writes, uploads, marks, Progress, Result, ok, thrown, Process,
  continue, ◌>>=◌, noted,
}

-- What has been done last. `closed` is a marked failure with nothing saved; `finished` is the end of
-- a run whose results were saved.
pub data Phase : Type 0 where
  opening enrolled claimed ran written uploaded : Phase
  cancelling saved finished closed : Phase

-- A failure is marked once, at the end, and not after the mark of a cancellation.
unfoldable pub after_mark : (status : String) → Phase → Option Phase
after_mark status cancelling = none
after_mark status saved = none
after_mark status finished = none
after_mark status closed = none
after_mark status ran = if str_eq status "cancelled" then some cancelling else some closed
after_mark status written = if str_eq status "cancelled" then none else some finished
after_mark status uploaded = if str_eq status "cancelled" then none else some finished
after_mark status _ = if str_eq status "cancelled" then none else some closed

unfoldable pub step : Phase → Effect → Option Phase
unfolding after_mark
step opening registers = some enrolled
step opening claims = some claimed
step enrolled claims = some claimed
step opening runs = some ran
step enrolled runs = some ran
step claimed runs = some ran
step ran writes = some written
step written uploads = some uploaded
step cancelling writes = some saved
step saved uploads = some finished
step phase (marks status reason) = after_mark status phase
step _ _ = none

step_on : Option Phase → Effect → Option Phase
unfolding step
step_on none effect = none
step_on (some phase) effect = step phase effect

unfoldable pub history : Option Phase → List Effect → Option Phase
unfolding step_on
history phase [] = phase
history phase (effect ∷ trace) = history (step_on phase effect) trace

history-append :
    (phase : Option Phase) (xs : List Effect) (effect : Effect)
    → history phase (xs ++ effect ∷ []) ≡ step_on (history phase xs) effect
unfolding history
history-append phase [] effect = refl
history-append phase (x ∷ xs) effect = history-append (step_on phase x) xs effect

-- The trace so far has brought the process to the phase.
abbrev pub At : Phase → Progress → Type 0
At phase s = history (some opening) s.trace ≡ some phase

pub noted-At :
    (effect : Effect) (phase next : Phase) (s : Progress)
    → step phase effect ≡ some next
    → At phase s
    → At next (noted effect s)
unfolding step_on
noted-At effect phase next s h a = history-append (some opening) s.trace effect ∙ (rw a h)

-- What a process leaves: `Q` with its value, or `E` where it raised.
abbrev pub Leaves :
    {A : Type 0} → (A → Progress → Type 0) → (Progress → Type 0) → Result A × Progress → Type 0
Leaves Q E (ok a, s) = Q a s
Leaves Q E (thrown e, s) = E s

abbrev pub Triple :
    {A : Type 0}
    → (Progress → Type 0)
    → Process A
    → (A → Progress → Type 0)
    → (Progress → Type 0)
    → Type 0
Triple P p Q E = (s : Progress) → P s → Leaves Q E (p s)

continue-Leaves :
    {A B : Type 0} (R : A → Progress → Type 0) (Q : B → Progress → Type 0) (E : Progress → Type 0)
    (f : A → Process B) (r : Result A × Progress)
    → Leaves R E r
    → ((a : A) → Triple (R a) (f a) Q E)
    → Leaves Q E (continue r.0 f r.1)
continue-Leaves R Q E f (ok a, s) l k = k a s l
continue-Leaves R Q E f (thrown e, s) l k = l

pub Triple-bind :
    {A B : Type 0} (P : Progress → Type 0) (R : A → Progress → Type 0) (Q : B → Progress → Type 0)
    (E : Progress → Type 0) (p : Process A) (f : A → Process B)
    → Triple P p R E
    → ((a : A) → Triple (R a) (f a) Q E)
    → Triple P (p >>= f) Q E
Triple-bind P R Q E p f h k s q = continue-Leaves R Q E f (p s) (h s q) k
