-- ===== src/Worker/History.antt =====
-- __main__.py: the phases that each part of the process can leave.
use agent_storm.Prelude.{
  ℕ, String, Bool, true, false, not, ◌&&◌, Option, none, some, ◌≡◌, refl, if◌then◌else◌, if_elim,
  ◌⊎◌, inl, inr,
}
use agent_storm.Worker.Settings.{environment_boolean}
use agent_storm.Worker.{
  runs, writes, uploads, marks, Failure, Call, no_shard, Outside, Progress, give, noted, calls,
  quiet, required, finish_cancelled, upload_results, report, after_run, limits_of, run_shard,
}
use agent_storm.Worker.Effects.{
  Phase, opening, enrolled, claimed, ran, written, uploaded, cancelling, saved, finished, closed,
  after_mark, step, At, noted-At, Leaves, Triple, Triple-bind,
}

-- The code of a run that reports.
abbrev pub report_code : Outside → ℕ
report_code o = if o.thresholds_passed then 0 else 2

-- What an exit code says together with the last phase. Results are written and uploaded only where
-- the lease of the shard was kept.
abbrev pub IsExit : Outside → (connected : Bool) → ℕ → Phase → Type 0
IsExit o connected code opening = ((code ≡ 0) × (o.validates ≡ true)) ⊎ (code ≡ 3)
IsExit o connected code enrolled = code ≡ 3
IsExit o connected code claimed = ((code ≡ 0) × (o.claim ≡ no_shard)) ⊎ (code ≡ 3)
IsExit o connected code ran = code ≡ 3
IsExit o connected code written =
    (o.lease_lost ≡ false)
    × (((code ≡ 130) × (o.stopped ≡ true) × (connected ≡ false))
        ⊎ ((code ≡ report_code o) × (o.stopped ≡ false) × (o.write ≡ none) × (connected ≡ false))
        ⊎ ((code ≡ 3) × ((e : Failure) × (o.write ≡ some e))))
IsExit o connected code uploaded =
    (o.lease_lost ≡ false)
    × (o.stopped ≡ false)
    × (connected ≡ true)
    × (((code ≡ report_code o) × (o.write ≡ none) × (o.upload ≡ none))
        ⊎ ((code ≡ 3) × (o.write ≡ none) × ((e : Failure) × (o.upload ≡ some e))))
IsExit o connected code cancelling = (code ≡ 130) × (o.stopped ≡ true) × (o.lease_lost ≡ false)
IsExit o connected code saved = ⊥
IsExit o connected code finished =
    (o.lease_lost ≡ false) × (((code ≡ 130) × (o.stopped ≡ true)) ⊎ (code ≡ 3))
IsExit o connected code closed = code ≡ 3

-- A failure may be marked here, or be left unmarked.
abbrev pub CanFail : Outside → Progress → Type 0
CanFail o s =
    (phase : Phase) × (next : Phase) × At phase s
    × ((reason : String) → step phase (marks "harness_failed" reason) ≡ some next)
    × IsExit o s.connected 3 phase
    × IsExit o s.connected 3 next

-- The runner may start here.
abbrev pub CanRun : Outside → Progress → Type 0
CanRun o s =
    (phase : Phase) × At phase s
    × (step phase runs ≡ some ran)
    × ((reason : String) → step phase (marks "harness_failed" reason) ≡ some closed)
    × IsExit o s.connected 3 phase

abbrev pub Done : Outside → ℕ → Progress → Type 0
Done o code s = (phase : Phase) × At phase s × IsExit o s.connected code phase

abbrev pub Given {ℓ} : {A : Type 0} → (Progress → Type ℓ) → A → Progress → Type ℓ
Given P a = P

pub can_fail : (o : Outside) (s : Progress) → CanRun o s → CanFail o s
can_fail o s (phase, a, r, f, x) = (phase, closed, a, f, x, refl)

quiet-Triple :
    (o : Outside) (call : Call) → Triple (CanRun o) (quiet call) (Given (CanRun o)) (CanFail o)
quiet-Triple o none s p = p
quiet-Triple o (some e) s p = can_fail o s p

pub required-Triple :
    {A : Type 0} (o : Outside) (x : Option A)
    → Triple (CanRun o) (required x) (Given (CanRun o)) (CanFail o)
required-Triple o none s p = can_fail o s p
required-Triple o (some a) s p = p

ran_fails : (o : Outside) (s : Progress) → At ran s → CanFail o s
unfolding step after_mark
ran_fails o s a = (ran, closed, a, λ reason. refl, refl, refl)

runs-Triple :
    (o : Outside) (call : Call) → Triple (CanRun o) (calls runs call) (Given (At ran)) (CanFail o)
runs-Triple o none s (phase, a, r, f, x) = noted-At runs phase ran s r a
runs-Triple o (some e) s (phase, a, r, f, x) =
    ran_fails o (noted runs s) (noted-At runs phase ran s r a)

permit_marked :
    (o : Outside) (s : Progress)
    → At ran s
    → Done o 3
        (if s.connected then noted (marks "harness_failed" "distributed_permit_lost") s else s)
unfolding step after_mark
permit_marked o s a =
    if_elim (Done o 3) s.connected _ _
      (λ e. (
        closed,
        noted-At (marks "harness_failed" "distributed_permit_lost") ran closed s refl a,
        refl,
      ))
      (λ e. (ran, a, refl))

not-true : (b : Bool) → not b ≡ true → b ≡ false
not-true true h = cc
not-true false h = refl

-- Below, the lease of the shard was kept.
module _ (o : Outside) (kept : o.lease_lost ≡ false) where
  finish_cancelled-Done :
      (s : Progress) → o.stopped ≡ true → At ran s → Done o 130 (finish_cancelled o s)
  unfolding finish_cancelled step after_mark
  finish_cancelled-Done s stopped a =
      let cancel = marks "cancelled" "cancellation_requested" in
      let b : At cancelling (noted cancel s) = noted-At cancel ran cancelling s refl a in
      let c : At saved (noted writes (noted cancel s)) =
        noted-At writes cancelling saved (noted cancel s) refl b in
      if_elim (Done o 130) (not s.connected) _ _
        (λ e. (
          written,
          noted-At writes ran written s refl a,
          (kept, inl (refl, stopped, not-true s.connected e)),
        ))
        (λ e.
          if_elim (Done o 130) o.in_time _ _
            (λ f. (
              finished,
              noted-At uploads saved finished (noted writes (noted cancel s)) refl c,
              (kept, inl (refl, stopped)),
            ))
            (λ f. (cancelling, b, (refl, stopped, kept))))

  written_fails : (s : Progress) (e : Failure) → o.write ≡ some e → At written s → CanFail o s
  unfolding step after_mark
  written_fails s e w a =
      (written, finished, a, λ reason. refl, (kept, inr (inr (refl, (e, w)))), (kept, inr refl))

  module _ (going : o.stopped ≡ false) where
    uploaded_fails :
        (s : Progress) (e : Failure)
        → o.write ≡ none
        → o.upload ≡ some e
        → s.connected ≡ true
        → At uploaded s
        → CanFail o s
    unfolding step after_mark
    uploaded_fails s e w u c a = (
      uploaded,
      finished,
      a,
      λ reason. refl,
      (kept, going, c, inr (refl, w, (e, u))),
      (kept, inr refl),
    )

    -- After the write has returned: the call of the upload, if there is one.
    Reported : Bool → Progress → Type 0
    Reported sent s = Done o (report_code o) s

    uploads-Triple :
        (call : Call)
        → o.write ≡ none
        → o.upload ≡ call
        → Triple
            (λ s. At written s × (s.connected ≡ true))
            (calls uploads call)
            Reported
            (CanFail o)
    unfolding step Reported
    uploads-Triple none w u s (a, c) =
        (uploaded, noted-At uploads written uploaded s refl a, (kept, going, c, inl (refl, w, u)))
    uploads-Triple (some e) w u s (a, c) =
        uploaded_fails (noted uploads s) e w u c (noted-At uploads written uploaded s refl a)

    upload_results-Triple :
        o.write ≡ none → Triple (At written) (upload_results o) Reported (CanFail o)
    unfolding upload_results Reported
    upload_results-Triple w s a =
        if_elim (Leaves Reported (CanFail o)) s.connected _ _
          (λ e. uploads-Triple o.upload w refl s (a, e))
          (λ e. (written, a, (kept, inr (inl (refl, going, w, e)))))

    -- The write has returned.
    Saved : Bool → Progress → Type 0
    Saved done s = At written s × (o.write ≡ none)

    writes-Triple :
        (call : Call) → o.write ≡ call → Triple (At ran) (calls writes call) Saved (CanFail o)
    unfolding step Saved
    writes-Triple none w s a = (noted-At writes ran written s refl a, w)
    writes-Triple (some e) w s a =
        written_fails (noted writes s) e w (noted-At writes ran written s refl a)

    give_code : (sent : Bool) → Triple (Reported sent) (give (report_code o)) (Done o) (CanFail o)
    unfolding Reported
    give_code sent s d = d

    upload-Saved : (done : Bool) → Triple (Saved done) (upload_results o) Reported (CanFail o)
    unfolding Saved
    upload-Saved done s (a, w) = upload_results-Triple w s a

    report-Triple : Triple (At ran) (report o) (Done o) (CanFail o)
    unfolding report
    report-Triple =
        Triple-bind (At ran) Saved (Done o) (CanFail o) (calls writes o.write) _
          (writes-Triple o.write refl)
          (λ done.
            Triple-bind (Saved done) Reported (Done o) (CanFail o) (upload_results o) _
              (upload-Saved done) give_code)

after_run-Triple :
    (o : Outside) (limits : Bool) → Triple (At ran) (after_run o limits) (Done o) (CanFail o)
unfolding after_run
after_run-Triple o limits s a =
    let P = Leaves (Done o) (CanFail o) in
    if_elim P o.lease_lost _ _ (λ e. (ran, a, refl))
      (λ kept.
        if_elim P (limits && o.permit_lost) _ _ (λ f. permit_marked o s a)
          (λ f.
            if_elim P o.stopped _ _ (λ g. finish_cancelled-Done o kept s g a)
              (λ going. report-Triple o kept going s a)))

limits_of-Triple : (o : Outside) → Triple (CanRun o) (limits_of o) (Given (CanRun o)) (CanFail o)
unfolding limits_of
limits_of-Triple o s p =
    if_elim (Leaves (Given (CanRun o)) (CanFail o)) s.connected _ _
      (λ e.
        required-Triple o (environment_boolean o.environment "AGENTSTORM_DISTRIBUTED_LIMITS" false)
          s p)
      (λ e. p)

pub run_shard-Triple : (o : Outside) → Triple (CanRun o) (run_shard o) (Done o) (CanFail o)
unfolding run_shard
run_shard-Triple o =
    let can_run = CanRun o in
    let can_fail_here = CanFail o in
    Triple-bind can_run (Given can_run) (Done o) can_fail_here (quiet o.adapter) _
      (quiet-Triple o o.adapter)
      (λ adapter.
        Triple-bind can_run (Given can_run) (Done o) can_fail_here (limits_of o) _
          (limits_of-Triple o)
          (λ limits.
            Triple-bind can_run (Given can_run) (Done o) can_fail_here (quiet o.construct) _
              (quiet-Triple o o.construct)
              (λ runner.
                Triple-bind can_run (Given (At ran)) (Done o) can_fail_here (calls runs o.runner) _
                  (runs-Triple o o.runner) (λ r. after_run-Triple o limits))))
