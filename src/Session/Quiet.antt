-- ===== src/Session/Quiet.antt =====
-- About alpha in the synchronization loop of pkg/synchronization/controller.go in one-way modes.
use mutagen.Base.{Bytes, false, Option, none, some, List, [], ◌∷◌, ◌≡◌, refl, ap, ◌∙◌}
use mutagen.Entry.{Entry}
use mutagen.Change.{Change}
use mutagen.Reconcile.{Plan, reconcile}
use mutagen.Reconcile.Sound.{changes_alpha}
use mutagen.Reconcile.Safety.{alpha_changes-nil}
use mutagen.Staging.{transition_dependencies, find_all}
use mutagen.Session.{
  Configuration, Circumstances, Endpoint, Snapshot, Scanned, Transitioned, Loop, SyncRound,
  effective_mode, endpoint_event, flush_requested, polling_cancelled, alpha_poll_failed,
  beta_poll_failed, Trigger,
}
use mutagen.Session.Saving.{then_loop}
use mutagen.Session.Cycle.{
  transition_side, transition_both, stage_side, carry_out, check_plan, use_plan, reconcile_contents,
  use_snapshots, check_scans, scan_both, poll_then_scan, synchronize_round, synchronize_loop,
}

module _ {W R : Type 0} where
  -- The same endpoint with other methods to stage and to transition.
  abbrev pub with_writes :
      Endpoint W R
      → (List Bytes → List (Option Bytes) → W → Option (List Bytes × R) × W)
      → (List Change → W → Transitioned × W)
      → Endpoint W R
  with_writes e stage transition = record e { stage = stage; transition = transition }

module _ {W R : Type 0} (c : Configuration) (alpha beta : Endpoint W R)
    (stage : List Bytes → List (Option Bytes) → W → Option (List Bytes × R) × W)
    (transition : List Change → W → Transitioned × W) where
  abbrev other : Endpoint W R
  other = with_writes alpha stage transition

  carry_out_without_changes :
      (k : Circumstances) (plan : Plan) (l : Loop W)
      → plan.alpha_changes ≡ []
      → carry_out k alpha beta plan l ≡ carry_out k other beta plan l
  unfolding carry_out stage_side transition_both transition_side transition_dependencies find_all
  carry_out_without_changes k plan l e = rw e refl

  check_plan_without_changes :
      (k : Circumstances) (plan : Plan) (l : Loop W)
      → plan.alpha_changes ≡ []
      → check_plan k alpha beta plan l ≡ check_plan k other beta plan l
  unfolding check_plan
  check_plan_without_changes k plan l e = rw (carry_out_without_changes k plan _ e) refl

  use_plan_without_changes :
      (k : Circumstances) (l : Loop W) (α β : Entry) (plan : Option Plan)
      → reconcile l.ancestor α β (effective_mode c.synchronization_mode) ≡ plan
      → changes_alpha (effective_mode c.synchronization_mode) ≡ false
      → use_plan k alpha beta l plan ≡ use_plan k other beta l plan
  use_plan_without_changes k l α β none e m = refl
  use_plan_without_changes k l α β (some plan) e m =
      check_plan_without_changes k plan l
        (alpha_changes-nil (effective_mode c.synchronization_mode) l.ancestor α β e m)

  module _ (m : changes_alpha (effective_mode c.synchronization_mode) ≡ false) where
    use_snapshots_same :
        (k : Circumstances) (a b : Snapshot) (l : Loop W)
        → use_snapshots c k alpha beta a b l ≡ use_snapshots c k other beta a b l
    unfolding use_snapshots reconcile_contents
    use_snapshots_same k a b l = rw (use_plan_without_changes k _ _ _ _ refl m) refl

    check_scans_same :
        (k : Circumstances) (a b : Scanned) (l : Loop W)
        → check_scans c k alpha beta a b l ≡ check_scans c k other beta a b l
    unfolding check_scans
    check_scans_same k a b l = rw (use_snapshots_same k _ _ _) refl

    scan_both_same :
        (k : Circumstances) (l : Loop W) → scan_both c k alpha beta l ≡ scan_both c k other beta l
    unfolding scan_both
    scan_both_same k l = check_scans_same k _ _ _

    poll_then_scan_same :
        (k : Circumstances) (l : Loop W) (t : Trigger)
        → poll_then_scan c k alpha beta l t ≡ poll_then_scan c k other beta l t
    poll_then_scan_same k l endpoint_event = scan_both_same k l
    poll_then_scan_same k l flush_requested = scan_both_same k _
    poll_then_scan_same k l polling_cancelled = refl
    poll_then_scan_same k l alpha_poll_failed = refl
    poll_then_scan_same k l beta_poll_failed = refl

    synchronize_round_same :
        (k : Circumstances) (l : Loop W)
        → synchronize_round c k alpha beta l ≡ synchronize_round c k other beta l
    unfolding synchronize_round
    synchronize_round_same k l = rw (scan_both_same k _, poll_then_scan_same k _ k.trigger) refl

    then_loop_same :
        (f g : Loop W → SyncRound W) (r : SyncRound W) (exit : Option _)
        → ((l : Loop W) → f l ≡ g l)
        → then_loop f r exit ≡ then_loop g r exit
    then_loop_same f g r (some e) h = refl
    then_loop_same f g r none h = h r.after

    -- In the one-way modes any rounds of the loop end the same, with the same state, archive and
    -- world, whatever alpha would do to stage files or to make changes: it is not called for that.
    pub synchronize_loop_same :
        (ks : List Circumstances) (l : Loop W)
        → synchronize_loop c alpha beta ks l ≡ synchronize_loop c other beta ks l
    unfolding synchronize_loop
    synchronize_loop_same [] l = refl
    synchronize_loop_same (k ∷ ks) l =
        then_loop_same _ _ (synchronize_round c k alpha beta l)
          (synchronize_round c k alpha beta l).exit (synchronize_loop_same ks)
        ∙ ap (λ r. then_loop (synchronize_loop c other beta ks) r r.exit)
            (synchronize_round_same k l)
