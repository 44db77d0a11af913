-- ===== src/Tests/Poll.antt =====
-- Polls of pkg/state/tracker.go on concrete sequences of steps.
use mutagen.Base.{false, ◌≡◌, refl, inl, arith}
use native.Mathlib.Decide.{ℕ_discrete}
use mutagen.Tracking.{Tracker, new_tracker, track_round, notify_of_change, wait_for_change}
use mutagen.Tracking.Steps.{IsReachable, started, then_step, tracked, waited, notified}
use mutagen.Tracking.Reachable.{IsValid, IsAnswered, reachable-IsValid, pending-IsAnswered}

-- A poll waits for a change from index 1, the loop sleeps, and then there is a change.
abbrev polled : Tracker
polled = notify_of_change (track_round (wait_for_change 5 1 new_tracker).1)

polled-IsReachable : IsReachable polled
unfolding new_tracker wait_for_change ℕ_discrete
polled-IsReachable =
    then_step (then_step (then_step started (waited 5 1)) (tracked refl refl)) notified

reachable-IsValid_example : IsValid polled
reachable-IsValid_example = reachable-IsValid polled-IsReachable

pending-IsAnswered_example :
    (polled.waits ≡ false)
    × (polled.done ≡ false)
    × IsAnswered 5 polled.index polled.terminated (track_round polled).responses
unfolding new_tracker wait_for_change track_round notify_of_change ℕ_discrete
pending-IsAnswered_example =
    pending-IsAnswered 5 1 polled-IsReachable (inl (refl, refl)) (inl (omega arith))
