-- ===== src/Worker/Lease.antt =====
-- __main__.py: the task that renews the lease of a claimed shard, beside the process. Each stretch
-- between two awaits is one step, and the steps of the two interleave.
use agent_storm.Prelude.{Bool, true, false, ◌≡◌, refl, sym, ◌∙◌, ◌⊎◌, inl, inr}
use agent_storm.Scheduler.Renewal.{
  Renewal, asleep, asking, failed, stopped, has_failed, cancel, cancel_over, has_failed-cancel,
}
use agent_storm.Worker.{Outside, Progress, ok, after_run}

-- The task, the two events, and whether the `finally` block is over.
pub record Lease : Type 0 where
  pub renewal : Renewal
  pub lease_lost : Bool
  pub stop_event : Bool
  pub ended : Bool

-- A claimed shard; a signal may have come before.
abbrev pub claimed : (stop_event : Bool) → Lease
claimed stop_event = record {
  renewal = asleep;
  lease_lost = false;
  stop_event = stop_event;
  ended = false;
}

pub data Step : Lease → Lease → Type 0 where
  wakes : (p : Lease) → p.renewal ≡ asleep → Step p (record p { renewal = asking })
  renews : (p : Lease) → p.renewal ≡ asking → Step p (record p { renewal = asleep })
  -- the except clause
  fails :
      (p : Lease)
      → p.renewal ≡ asking
      → Step p (record p { renewal = failed; lease_lost = true; stop_event = true })
  -- a signal, or the loss of a permit
  stops : (p : Lease) → Step p (record p { stop_event = true })
  -- the `finally` block, however the process got there
  ends : (p : Lease) → Step p (record p { renewal = cancel p.renewal; ended = true })

pub data Reach (p : Lease) : Lease → Type 0 where
  here : Reach p p
  next : {q r : Lease} → Reach p q → Step q r → Reach p r

record IsHeld (p : Lease) : Type 0 where
  lost : p.lease_lost ≡ has_failed p.renewal
  told : p.lease_lost ≡ true → p.stop_event ≡ true
  over : p.ended ≡ true → (p.renewal ≡ failed) ⊎ (p.renewal ≡ stopped)

-- A renewal that goes on is not over.
going_on :
    (r : Renewal) (P : Type 0) → (r ≡ asleep) ⊎ (r ≡ asking) → (r ≡ failed) ⊎ (r ≡ stopped) → P
going_on r P (inl a) (inl b) = cc
going_on r P (inl a) (inr b) = cc
going_on r P (inr a) (inl b) = cc
going_on r P (inr a) (inr b) = cc

Step-IsHeld : {p q : Lease} → Step p q → IsHeld p → IsHeld q
Step-IsHeld (wakes p a) k = record {
  lost = rw a at k.lost;
  told = k.told;
  over = λ e. going_on p.renewal _ (inl a) (k.over e);
}
Step-IsHeld (renews p a) k = record {
  lost = rw a at k.lost;
  told = k.told;
  over = λ e. going_on p.renewal _ (inr a) (k.over e);
}
Step-IsHeld (fails p a) k = record { lost = refl; told = λ h. refl; over = λ e. inl refl }
Step-IsHeld (stops p) k = record { lost = k.lost; told = λ h. refl; over = k.over }
Step-IsHeld (ends p) k = record {
  lost = k.lost ∙ sym (has_failed-cancel p.renewal);
  told = k.told;
  over = λ e. cancel_over p.renewal;
}

Reach-IsHeld : (stop_event : Bool) (p : Lease) → Reach (claimed stop_event) p → IsHeld p
Reach-IsHeld stop_event p here = record { lost = refl; told = λ h. cc; over = λ h. cc }
Reach-IsHeld stop_event p (next r s) = Step-IsHeld s (Reach-IsHeld stop_event _ r)

-- What a process does that reads the flag of this lease after the run.
pub record IsHeeded (p : Lease) (o : Outside) (limits : Bool) (s : Progress) : Type 0 where
  pub lost :
      has_failed p.renewal ≡ true → (p.stop_event ≡ true) × (after_run o limits s ≡ (ok 3, s))
  pub kept : has_failed p.renewal ≡ false → o.lease_lost ≡ false
  pub over : p.ended ≡ true → (p.renewal ≡ failed) ⊎ (p.renewal ≡ stopped)

-- However the renewals of a shard's lease interleave with the process: once one has failed, the stop
-- event is set, and the process that reads the flag after its run ends with code 3 and makes no
-- further call, neither a write nor an upload nor a mark; the flag is not set before a renewal
-- failed; and after the process the task is over.
pub Reach-IsHeeded :
    (stop_event : Bool) (p : Lease) (o : Outside) (limits : Bool) (s : Progress)
    → Reach (claimed stop_event) p
    → o.lease_lost ≡ p.lease_lost
    → IsHeeded p o limits s
unfolding after_run
Reach-IsHeeded stop_event p o limits s r e =
    let k = Reach-IsHeld stop_event p r in
    record {
      lost = λ f. (k.told (k.lost ∙ f), rw (e ∙ k.lost ∙ f) refl);
      kept = λ f. e ∙ k.lost ∙ f;
      over = k.over;
    }
