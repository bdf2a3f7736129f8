-- ===== src/Tests/Permits.antt =====
-- scheduler.py: the renewal of a permit beside a body.
use agent_storm.Prelude.{true, false, refl}
use agent_storm.Scheduler.{completed, body_end}
use agent_storm.Scheduler.Renewal.{
  Renewal, asleep, asking, leaving, left, Permit, held, wakes, renews, fails, ends, releases, Reach,
  here, next, IsKept, Reach-IsKept,
}

-- The second renewal fails while the body runs.
abbrev asked : Permit
asked = record (held false) { renewal = asking }

abbrev asleep_again : Permit
asleep_again = record asked { renewal = asleep }

abbrev asked_again : Permit
asked_again = record asleep_again { renewal = asking }

abbrev lost : Permit
lost = record asked_again {
  renewal = Renewal.failed;
  lease_lost = true;
  stop_event = true;
  cancelled = true;
}

abbrev over : Permit
over = record lost { owner = leaving completed (body_end true completed); renewal = Renewal.failed }

abbrev released : Permit
released = record over { owner = left completed (body_end true completed); releases = 1 }

released-Reach : Reach (held false) released
unfolding body_end
released-Reach =
    next
      (next
        (next
          (next (next (next here (wakes (held false) refl)) (renews asked refl))
            (wakes asleep_again refl))
          (fails asked_again refl))
        (ends lost completed refl))
      (releases over completed (body_end true completed) refl)

Reach-IsKept_example : IsKept released
Reach-IsKept_example = Reach-IsKept false released released-Reach
