-- ===== src/Scheduler/Renewal.antt =====
-- scheduler.py: the task that renews a permit, beside the body that holds it. Between two awaits
-- neither is interrupted: each such stretch is one step, and the steps of the two interleave.
use agent_storm.Prelude.{ℕ, ◌+◌, Bool, true, false, ◌≡◌, refl, sym, ap, ◌∙◌, ◌⊎◌, inl, inr, arith}
use agent_storm.Scheduler.{Body, PermitEnd, body_end}

-- `renew`: sleeping or asking for a renewal, or over: by an exception of `renew_permit`, or by
-- `renew_task.cancel()`.
pub data Renewal : Type 0 where
  asleep asking failed stopped : Renewal

-- The task that holds the permit: in the body, in the `finally` block, or out of it.
pub data Owner : Type 0 where
  inside : Owner
  leaving left : Body → PermitEnd → Owner

-- `cancelled` is whether `owner.cancel()` was called, and `releases` counts `release_permit`.
pub record Permit : Type 0 where
  pub renewal : Renewal
  pub owner : Owner
  pub lease_lost : Bool
  pub stop_event : Bool
  pub cancelled : Bool
  pub releases : ℕ

-- `renewal_failed.is_set()`
abbrev pub has_failed : Renewal → Bool
has_failed failed = true
has_failed _ = false

-- `renew_task.cancel()`, which does nothing to a task that is over.
abbrev pub cancel : Renewal → Renewal
cancel failed = failed
cancel _ = stopped

-- With a grant, after the stop event was looked at.
abbrev pub held : (lease_lost : Bool) → Permit
held lease_lost = record {
  renewal = asleep;
  owner = inside;
  lease_lost = lease_lost;
  stop_event = false;
  cancelled = false;
  releases = 0;
}

pub data Step : Permit → Permit → Type 0 where
  wakes : (p : Permit) → p.renewal ≡ asleep → Step p (record p { renewal = asking })
  renews : (p : Permit) → p.renewal ≡ asking → Step p (record p { renewal = asleep })
  -- the except clause
  fails :
      (p : Permit)
      → p.renewal ≡ asking
      → Step p
          (record p { renewal = failed; lease_lost = true; stop_event = true; cancelled = true })
  -- the stop event is set from outside, or another permit of the limiter is lost
  stops : (p : Permit) → Step p (record p { stop_event = true })
  loses : (p : Permit) → Step p (record p { lease_lost = true; stop_event = true })
  -- the body ends, however it does, and the `finally` block cancels the task
  ends :
      (p : Permit) (body : Body)
      → p.owner ≡ inside
      → Step p (record p {
        owner = leaving body (body_end (has_failed p.renewal) body);
        renewal = cancel p.renewal;
      })
  -- `release_permit`, whatever it does; the `finally` block is not cancelled itself
  releases :
      (p : Permit) (body : Body) (end : PermitEnd)
      → p.owner ≡ leaving body end
      → Step p (record p { owner = left body end; releases = p.releases + 1 })

pub data Reach (p : Permit) : Permit → Type 0 where
  here : Reach p p
  next : {q r : Permit} → Reach p q → Step q r → Reach p r

-- What is said of the task that holds the permit.
abbrev pub IsOwned : Renewal → Owner → ℕ → Type 0
IsOwned renewal inside count = count ≡ 0
IsOwned renewal (leaving body end) count =
    (count ≡ 0)
    × (end ≡ body_end (has_failed renewal) body)
    × ((renewal ≡ failed) ⊎ (renewal ≡ stopped))
IsOwned renewal (left body end) count =
    (count ≡ 1)
    × (end ≡ body_end (has_failed renewal) body)
    × ((renewal ≡ failed) ⊎ (renewal ≡ stopped))

pub record IsKept (p : Permit) : Type 0 where
  pub lost :
      has_failed p.renewal ≡ true
      → (p.lease_lost ≡ true) × (p.stop_event ≡ true) × (p.cancelled ≡ true)
  pub spared : p.cancelled ≡ true → has_failed p.renewal ≡ true
  pub owned : IsOwned p.renewal p.owner p.releases

pub cancel_over : (r : Renewal) → (cancel r ≡ failed) ⊎ (cancel r ≡ stopped)
cancel_over asleep = inr refl
cancel_over asking = inr refl
cancel_over failed = inl refl
cancel_over stopped = inr refl

pub has_failed-cancel : (r : Renewal) → has_failed (cancel r) ≡ has_failed r
has_failed-cancel asleep = refl
has_failed-cancel asking = refl
has_failed-cancel failed = refl
has_failed-cancel stopped = refl

-- While the task renews, the permit is held.
IsOwned-awake :
    (r s : Renewal) (o : Owner) (n : ℕ)
    → (r ≡ asleep) ⊎ (r ≡ asking)
    → IsOwned r o n
    → IsOwned s o n
IsOwned-awake r s inside n a k = k
IsOwned-awake r s (leaving body end) n (inl a) (z, e, inl f) = cc
IsOwned-awake r s (leaving body end) n (inl a) (z, e, inr f) = cc
IsOwned-awake r s (leaving body end) n (inr a) (z, e, inl f) = cc
IsOwned-awake r s (leaving body end) n (inr a) (z, e, inr f) = cc
IsOwned-awake r s (left body end) n (inl a) (z, e, inl f) = cc
IsOwned-awake r s (left body end) n (inl a) (z, e, inr f) = cc
IsOwned-awake r s (left body end) n (inr a) (z, e, inl f) = cc
IsOwned-awake r s (left body end) n (inr a) (z, e, inr f) = cc

awake-IsKept :
    (p : Permit) (r : Renewal)
    → (p.renewal ≡ asleep) ⊎ (p.renewal ≡ asking)
    → has_failed p.renewal ≡ false
    → has_failed r ≡ false
    → IsKept p
    → IsKept (record p { renewal = r })
awake-IsKept p r a f g k = record {
  lost = λ h. cc;
  spared = λ c. let h = k.spared c in cc;
  owned = IsOwned-awake p.renewal r p.owner p.releases a k.owned;
}

ended-IsOwned :
    (r : Renewal) (o : Owner) (n : ℕ) (body : Body)
    → o ≡ inside
    → IsOwned r o n
    → IsOwned (cancel r) (leaving body (body_end (has_failed r) body)) n
ended-IsOwned r inside n body e k =
    (k, ap (λ b. body_end b body) (sym (has_failed-cancel r)), cancel_over r)
ended-IsOwned r (leaving b end) n body e k = cc
ended-IsOwned r (left b end) n body e k = cc

released-IsOwned :
    (r : Renewal) (o : Owner) (n : ℕ) (body : Body) (end : PermitEnd)
    → o ≡ leaving body end
    → IsOwned r o n
    → IsOwned r (left body end) (n + 1)
released-IsOwned r inside n body end e k = cc
released-IsOwned r (leaving b f) n body end e (z, h, t) = (omega (arith, z), cc, t)
released-IsOwned r (left b f) n body end e k = cc

Step-IsKept : {p q : Permit} → Step p q → IsKept p → IsKept q
Step-IsKept (wakes p a) k = awake-IsKept p asking (inl a) (rw a refl) refl k
Step-IsKept (renews p a) k = awake-IsKept p asleep (inr a) (rw a refl) refl k
Step-IsKept (fails p a) k = record {
  lost = λ h. (refl, refl, refl);
  spared = λ c. refl;
  owned = IsOwned-awake p.renewal failed p.owner p.releases (inr a) k.owned;
}
Step-IsKept (stops p) k = record {
  lost = λ h. let (a, b, c) = k.lost h in (a, refl, c);
  spared = k.spared;
  owned = k.owned;
}
Step-IsKept (loses p) k = record {
  lost = λ h. let (a, b, c) = k.lost h in (refl, refl, c);
  spared = k.spared;
  owned = k.owned;
}
Step-IsKept (ends p body e) k = record {
  lost = λ h. k.lost (sym (has_failed-cancel p.renewal) ∙ h);
  spared = λ c. has_failed-cancel p.renewal ∙ k.spared c;
  owned = ended-IsOwned p.renewal p.owner p.releases body e k.owned;
}
Step-IsKept (releases p body end e) k = record {
  lost = k.lost;
  spared = k.spared;
  owned = released-IsOwned p.renewal p.owner p.releases body end e k.owned;
}

-- However the renewals of a permit interleave with the body that holds it: a failed renewal sets the
-- flag of the limiter and the stop event, and cancels the body, which nothing else of the permit does;
-- the permit is released once, after the body; and the body's end was judged by whether the renewal
-- had failed, which did not change afterwards.
pub Reach-IsKept : (lease_lost : Bool) (p : Permit) → Reach (held lease_lost) p → IsKept p
Reach-IsKept lease_lost p here = record { lost = λ h. cc; spared = λ c. cc; owned = refl }
Reach-IsKept lease_lost p (next r s) = Step-IsKept s (Reach-IsKept lease_lost _ r)
