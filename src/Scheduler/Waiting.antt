-- ===== src/Scheduler/Waiting.antt =====
-- scheduler.py: the wait for a grant ends, and when it obtains one.
use agent_storm.Prelude.{
  ℕ, zero, suc, ◌+◌, ◌-◌, ◌≤◌, ◌<◌, Bool, true, false, ◌≡◌, ◌≢◌, ◌↔◌, ◌⊎◌, inl, inr, refl, arith,
  leb, ◌==◌, Bool-cases,
}
use agent_storm.Errors.{ExecutionError}
use agent_storm.Scheduler.{
  PermitGrant, Answer, leased, busy, unavailable, crashed, Round, Waited, obtained, refused, stuck,
  cancelled, broken, busy_delay, after_answer, wait_round, wait_for_grant, limit_timeout,
  scheduler_unavailable, Body, completed, body_cancelled, failed, raised, permit, body_end,
  permit_lost,
}

-- A sleep that was not cut short takes its time.
pub record IsClock (deadline : ℕ) (round : ℕ → Round) : Type 0 where
  pub forwards : (n : ℕ) → (round n).now ≤ (round n).now_after
  pub sleeps :
      (n ms : ℕ)
      → (round n).answer ≡ busy ms
      → (round n).now_after + busy_delay deadline ms (round n).now_after ≤ (round (suc n)).now

after_answer_ends :
    (deadline : ℕ) (r : Round) (answer : Answer) (again : Waited)
    → ((ms : ℕ) → answer ≡ busy ms → 0 < busy_delay deadline ms r.now_after → again ≢ stuck)
    → after_answer deadline r answer again ≢ stuck
unfolding after_answer
after_answer_ends deadline r (leased grant) again h = λ e. cc
after_answer_ends deadline r unavailable again h = λ e. cc
after_answer_ends deadline r crashed again h = λ e. cc
after_answer_ends deadline r (busy ms) again h =
    elim (Bool-cases (busy_delay deadline ms r.now_after == 0)) [
      | inl e ↦
          rw e
            (elim (Bool-cases r.stopped_after) [ inl s ↦ rw s (λ x. cc) | inr s ↦ rw s (λ x. cc) ])
      | inr e ↦ rw e (elim (Bool-cases r.woken) [
        | inl w ↦ rw w (λ x. cc)
        | inr w ↦ rw w (h ms refl (ground (arith, e)))
      ])
    ]

wait_round_ends :
    (deadline : ℕ) (r : Round) (again : Waited)
    → (r.now < deadline
        → (ms : ℕ) → r.answer ≡ busy ms
        → 0 < busy_delay deadline ms r.now_after
        → again ≢ stuck)
    → wait_round deadline r again ≢ stuck
unfolding wait_round
wait_round_ends deadline r again h = elim (Bool-cases r.stopped) [
  | inl s ↦ rw s (λ x. cc)
  | inr s ↦ elim (Bool-cases (leb deadline r.now)) [
    | inl d ↦ rw (s, d) (λ x. cc)
    | inr d ↦ rw (s, d) (after_answer_ends deadline r r.answer again (h (ground (arith, d))))
  ]
]

-- With a clock that runs forwards and sleeps that take their time, the wait for a grant comes to an
-- end, whatever the scheduler answers: one round more than the nanoseconds that are left is enough.
pub wait_for_grant_ends :
    (deadline : ℕ) (round : ℕ → Round) (fuel n : ℕ)
    → IsClock deadline round
    → deadline - (round n).now < fuel
    → wait_for_grant deadline round fuel n ≢ stuck
unfolding wait_for_grant
wait_for_grant_ends deadline round zero n clock f =
    let absurd : ⊥ = omega (arith, f) in elim absurd [ ]
wait_for_grant_ends deadline round (suc fuel) n clock f =
    wait_round_ends deadline (round n) _ (λ early ms e d.
      wait_for_grant_ends deadline round fuel (suc n) clock
        (omega (arith, f, early, d, clock.forwards n, clock.sleeps n ms e)))

-- What each end of the wait says of a round of it.
abbrev pub IsExplained : (deadline : ℕ) → (ℕ → Round) → Waited → Type 0
IsExplained deadline round (obtained grant) =
    (n : ℕ) × ((round n).answer ≡ leased grant)
    × ((round n).stopped ≡ false)
    × ((round n).now < deadline)
IsExplained deadline round (refused error) =
    ((error ≡ limit_timeout)
      × ((n : ℕ) × ((deadline ≤ (round n).now)
            ⊎ ((ms : ℕ) × ((round n).answer ≡ busy ms)
                × (busy_delay deadline ms (round n).now_after ≡ 0)))))
    ⊎ ((error ≡ scheduler_unavailable) × ((n : ℕ) × ((round n).answer ≡ unavailable)))
IsExplained deadline round stuck = Unit
IsExplained deadline round broken = (n : ℕ) × ((round n).answer ≡ crashed)
IsExplained deadline round cancelled =
    (n : ℕ) × (((round n).stopped ≡ true)
      ⊎ ((round n).stopped_after ≡ true)
      ⊎ ((round n).woken ≡ true))

answer-IsExplained :
    (deadline : ℕ) (round : ℕ → Round) (n : ℕ) (answer : Answer) (again : Waited)
    → (round n).answer ≡ answer
    → (round n).stopped ≡ false
    → (round n).now < deadline
    → IsExplained deadline round again
    → IsExplained deadline round (after_answer deadline (round n) answer again)
unfolding after_answer
answer-IsExplained deadline round n (leased grant) again a s d h = (n, a, s, d)
answer-IsExplained deadline round n unavailable again a s d h = inr (refl, (n, a))
answer-IsExplained deadline round n crashed again a s d h = (n, a)
answer-IsExplained deadline round n (busy ms) again a s d h =
    let r = round n in
    elim (Bool-cases (busy_delay deadline ms r.now_after == 0)) [
      | inl z ↦ elim (Bool-cases r.stopped_after) [
        | inl t ↦ rw (z, t) (n, inr (inl t))
        | inr t ↦ rw (z, t) (inl (refl, (n, inr (ms, a, ground (arith, z)))))
      ]
      | inr z ↦ elim (Bool-cases r.woken) [
        | inl w ↦ rw (z, w) (n, inr (inr w))
        | inr w ↦ rw (z, w) h
      ]
    ]

-- A grant comes from an answer of a round before the deadline in which the run was not stopped; a
-- timeout from a round at the deadline or a sleep of no length; unavailability and another exception
-- from such an answer; and a cancellation from a stop.
pub wait_for_grant-IsExplained :
    (deadline : ℕ) (round : ℕ → Round) (fuel n : ℕ)
    → IsExplained deadline round (wait_for_grant deadline round fuel n)
unfolding wait_for_grant wait_round
wait_for_grant-IsExplained deadline round zero n = tt
wait_for_grant-IsExplained deadline round (suc fuel) n =
    let r = round n in
    elim (Bool-cases r.stopped) [
      | inl s ↦ rw s (n, inl s)
      | inr s ↦ elim (Bool-cases (leb deadline r.now)) [
        | inl d ↦ rw (s, d) (inl (refl, (n, inl (ground (arith, d)))))
        | inr d ↦
            rw (s, d)
              (answer-IsExplained deadline round n r.answer
                (wait_for_grant deadline round fuel (suc n)) refl s (ground (arith, d))
                (wait_for_grant-IsExplained deadline round fuel (suc n)))
      ]
    ]

-- A permit is released exactly when the wait obtained a grant and the run was not stopped by then;
-- and a body that ran while the renewal failed never passes: its end is its own error or the loss of
-- the permit.
pub permit_releases :
    (w : Waited) (stopped lost : Bool) (body : Body)
    → (((permit w stopped lost body).1 ≡ true)
        ↔ ((grant : PermitGrant) × (w ≡ obtained grant) × (stopped ≡ false)))
      × (lost ≡ true
          → (permit w stopped lost body).1 ≡ true
          → (permit w stopped lost body).0 ≡ raised permit_lost
            ⊎ ((error : ExecutionError) × (body ≡ failed error)))
unfolding permit body_end
permit_releases (obtained grant) true lost body = ((λ h. cc, λ (g, e, s). cc), λ l h. cc)
permit_releases (obtained grant) false true completed =
    ((λ h. (grant, refl, refl), λ h. refl), λ l h. inl refl)
permit_releases (obtained grant) false false completed =
    ((λ h. (grant, refl, refl), λ h. refl), λ l h. cc)
permit_releases (obtained grant) false true body_cancelled =
    ((λ h. (grant, refl, refl), λ h. refl), λ l h. inl refl)
permit_releases (obtained grant) false false body_cancelled =
    ((λ h. (grant, refl, refl), λ h. refl), λ l h. cc)
permit_releases (obtained grant) false lost (failed error) =
    ((λ h. (grant, refl, refl), λ h. refl), λ l h. inr (error, refl))
permit_releases (refused error) stopped lost body = ((λ h. cc, λ (g, e, s). cc), λ l h. cc)
permit_releases stuck stopped lost body = ((λ h. cc, λ (g, e, s). cc), λ l h. cc)
permit_releases cancelled stopped lost body = ((λ h. cc, λ (g, e, s). cc), λ l h. cc)
permit_releases broken stopped lost body = ((λ h. cc, λ (g, e, s). cc), λ l h. cc)
