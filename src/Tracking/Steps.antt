-- ===== src/Tracking/Steps.antt =====
-- The interleavings of the tracking loop of pkg/state/tracker.go with the calls of its methods:
-- each step is a critical section.
use mutagen.Base.{ℕ, false, ◌≡◌}
use mutagen.Tracking.{
  Tracker, new_tracker, track_round, terminate, notify_of_change, wait_for_change, cancel,
}

pub data Step (t : Tracker) : Tracker → Type 0 where
  tracked : t.waits ≡ false → t.done ≡ false → Step t (track_round t)
  terminating : Step t (terminate t)
  notified : Step t (notify_of_change t)
  waited : (id previous_index : ℕ) → Step t (wait_for_change id previous_index t).1
  cancelled : (id : ℕ) → Step t (cancel id t).1

-- The trackers that some sequence of steps from the new one gives.
pub data IsReachable : Tracker → Type 0 where
  started : IsReachable new_tracker
  then_step : {t u : Tracker} → IsReachable t → Step t u → IsReachable u
