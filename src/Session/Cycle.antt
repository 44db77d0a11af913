-- ===== src/Session/Cycle.antt =====
-- `synchronize` of pkg/synchronization/controller.go. The two scans, and the two transitions, which
-- run at the same time, stand one after the other. Logging and the monitoring of staging are left
-- out.
use mutagen.Base.{
  Bytes, true, false, ◌&&◌, ◌||◌, not, Option, none, some, List, [], ◌∷◌, is_empty, if◌then◌else◌,
}
use mutagen.Entry.{Entry}
use mutagen.Entry.Validity.{ensure_valid}
use mutagen.Change.{Change}
use mutagen.Reconcile.{Plan, reconcile}
use mutagen.Safety.{
  one_endpoint_emptied_root, contains_root_deletion, contains_root_type_change,
  filtered_paths_are_subset,
}
use mutagen.Staging.{transition_dependencies}
use mutagen.Session.{
  watching, scanning, staging_alpha, staging_beta, transitioning, halted_on_root_emptied,
  halted_on_root_deletion, halted_on_root_type_change, SyncError, unable_to_load_archive,
  invalid_archive, cancelled_during_polling, alpha_polling_error, beta_polling_error,
  cancelled_during_scanning, alpha_scan_error, beta_scan_error, unable_to_begin_staging_on_alpha,
  incorrect_subset_of_alpha, unable_to_stage_on_alpha, unable_to_begin_staging_on_beta,
  incorrect_subset_of_beta, unable_to_stage_on_beta, panicked, Configuration, effective_mode,
  disables_polling, Snapshot, State, Scanned, Transitioned, Endpoint, Loop, Trigger, endpoint_event,
  flush_requested, polling_cancelled, alpha_poll_failed, beta_poll_failed, Circumstances, SyncRound,
}
use mutagen.Session.Saving.{
  reified_contents, propagated_contents, untouched, stop, with_status, halt, save, then_loop,
  record_scans, with_error, retry_scan,
}

module _ {W R : Type 0} where
  -- `Transition` of a side, if it has transitions.
  unfoldable pub transition_side : Endpoint W R → List Change → W → Transitioned × W
  transition_side e ts w = if is_empty ts then (untouched, w) else e.transition ts w

  unfoldable pub transition_both :
      Circumstances → Endpoint W R → Endpoint W R → Plan → Loop W → SyncRound W
  transition_both k alpha beta plan l =
      let (α, w) = transition_side alpha plan.alpha_changes l.world in
      let (β, w') = transition_side beta plan.beta_changes w in
      save k plan α β (with_status transitioning (record l { world = w' }))

  -- What follows the beginning of a side's staging: the other side supplies what is missing.
  abbrev pub supply_staged :
      Endpoint W R
      → SyncError
      → SyncError
      → SyncError
      → List Bytes
      → (Loop W → SyncRound W)
      → Loop W
      → Option (List Bytes × R)
      → SyncRound W
  supply_staged source begin_error subset_error supply_error paths next l none = stop begin_error l
  supply_staged source begin_error subset_error supply_error paths next l
        (some (filtered, receiver)) =
      if not (filtered_paths_are_subset filtered paths)
      then stop subset_error l
      else if is_empty filtered
      then next l
      else if (source.supply filtered receiver l.world).0
      then next (record l { world = (source.supply filtered receiver l.world).1 })
      else stop supply_error (record l { world = (source.supply filtered receiver l.world).1 })

  -- The staging of a side's files.
  unfoldable pub stage_side :
      Endpoint W R
      → Endpoint W R
      → SyncError
      → SyncError
      → SyncError
      → List Change
      → (Loop W → SyncRound W)
      → Loop W
      → SyncRound W
  stage_side target source begin_error subset_error supply_error ts next l =
      let f = transition_dependencies ts in
      let (staged, w) = target.stage f.paths f.digests l.world in
      if is_empty f.paths
      then next l
      else supply_staged source begin_error subset_error supply_error f.paths next
          (record l { world = w }) staged

  -- The staging and what follows it.
  unfoldable pub carry_out :
      Circumstances → Endpoint W R → Endpoint W R → Plan → Loop W → SyncRound W
  carry_out k alpha beta plan l =
      stage_side alpha beta unable_to_begin_staging_on_alpha incorrect_subset_of_alpha
        unable_to_stage_on_alpha plan.alpha_changes
        (λ l.
          stage_side beta alpha unable_to_begin_staging_on_beta incorrect_subset_of_beta
            unable_to_stage_on_beta plan.beta_changes (transition_both k alpha beta plan)
            (with_status staging_beta l))
        (with_status staging_alpha l)

  -- The plan, and the checks that halt a session because of it.
  unfoldable pub check_plan :
      Circumstances → Endpoint W R → Endpoint W R → Plan → Loop W → SyncRound W
  check_plan k alpha beta plan l =
      let l' = record l { state = record l.state { conflicts = plan.conflicts } } in
      if contains_root_deletion plan.alpha_changes || contains_root_deletion plan.beta_changes
      then halt halted_on_root_deletion l'
      else if contains_root_type_change plan.alpha_changes
          || contains_root_type_change plan.beta_changes
      then halt halted_on_root_type_change l'
      else carry_out k alpha beta plan l'

  abbrev pub use_plan :
      Circumstances → Endpoint W R → Endpoint W R → Loop W → Option Plan → SyncRound W
  use_plan k alpha beta l none = stop panicked l
  use_plan k alpha beta l (some plan) = check_plan k alpha beta plan l

  unfoldable pub reconcile_contents :
      Configuration
      → Circumstances
      → Endpoint W R
      → Endpoint W R
      → Entry
      → Entry
      → Loop W
      → SyncRound W
  reconcile_contents c k alpha beta α β l =
      if one_endpoint_emptied_root l.ancestor α β
      then halt halted_on_root_emptied l
      else use_plan k alpha beta l
          (reconcile l.ancestor α β (effective_mode c.synchronization_mode))

  -- What follows two scans that succeeded.
  unfoldable pub use_snapshots :
      Configuration
      → Circumstances
      → Endpoint W R
      → Endpoint W R
      → Snapshot
      → Snapshot
      → Loop W
      → SyncRound W
  use_snapshots c k alpha beta a b l =
      let r = reified_contents c l.ancestor a b in
      let p = propagated_contents c l.ancestor a b r in
      reconcile_contents c k alpha beta p.alpha p.beta (record_scans a b r l)

  -- The checks of the two scans.
  unfoldable pub check_scans :
      Configuration
      → Circumstances
      → Endpoint W R
      → Endpoint W R
      → Scanned
      → Scanned
      → Loop W
      → SyncRound W
  check_scans c k alpha beta a b l =
      let l' = with_error a.scan_failed alpha_scan_error l in
      let l'' = with_error b.scan_failed beta_scan_error l' in
      if k.cancelled_in_scan
      then stop cancelled_during_scanning l
      else if a.scan_failed && not a.try_again
      then stop alpha_scan_error l
      else if b.scan_failed && not b.try_again
      then stop beta_scan_error l'
      else if a.try_again || b.try_again
      then retry_scan k l''
      else use_snapshots c k alpha beta a.snapshot b.snapshot l''

  unfoldable pub scan_both :
      Configuration → Circumstances → Endpoint W R → Endpoint W R → Loop W → SyncRound W
  scan_both c k alpha beta l =
      let (a, w) = alpha.scan l.ancestor l.flush_request l.world in
      let (b, w') = beta.scan l.ancestor l.flush_request w in
      check_scans c k alpha beta a b (with_status scanning (record l { world = w' }))

  -- A round that polls.
  abbrev pub poll_then_scan :
      Configuration → Circumstances → Endpoint W R → Endpoint W R → Loop W → Trigger → SyncRound W
  poll_then_scan c k alpha beta l endpoint_event = scan_both c k alpha beta l
  poll_then_scan c k alpha beta l flush_requested =
      scan_both c k alpha beta (record l { flush_request = true })
  poll_then_scan c k alpha beta l polling_cancelled = stop cancelled_during_polling l
  poll_then_scan c k alpha beta l alpha_poll_failed = stop alpha_polling_error l
  poll_then_scan c k alpha beta l beta_poll_failed = stop beta_polling_error l

  -- A round of the loop.
  unfoldable pub synchronize_round :
      Configuration → Circumstances → Endpoint W R → Endpoint W R → Loop W → SyncRound W
  synchronize_round c k alpha beta l =
      if l.skip_polling
      then scan_both c k alpha beta (record l { skip_polling = false })
      else poll_then_scan c k alpha beta (with_status watching l) k.trigger

  -- The loop, as long as circumstances are given for its rounds.
  unfoldable pub synchronize_loop :
      Configuration → Endpoint W R → Endpoint W R → List Circumstances → Loop W → SyncRound W
  synchronize_loop c alpha beta [] l = record { exit = none; after = l }
  synchronize_loop c alpha beta (k ∷ ks) l =
      let r = synchronize_round c k alpha beta l in
      then_loop (synchronize_loop c alpha beta ks) r r.exit

  -- `synchronize` with the archive that is loaded, `none` where loading fails.
  unfoldable pub synchronize :
      Configuration
      → Endpoint W R
      → Endpoint W R
      → List Circumstances
      → Option Entry
      → State
      → W
      → Option SyncError × State × W
  synchronize c alpha beta ks archive state w = elim archive [
    | none ↦ (some unable_to_load_archive, record state { last_error = none }, w)
    | some e ↦ elim (ensure_valid true e) [
      | some invalid ↦ (some invalid_archive, record state { last_error = none }, w)
      | none ↦
          let r = synchronize_loop c alpha beta ks (record {
            skip_polling =
                not (disables_polling c.alpha_watch_mode)
                || not (disables_polling c.beta_watch_mode);
            skipping_due_to_scan_error = false;
            skipping_due_to_missing_files = false;
            flush_request = false;
            ancestor = e;
            archive = e;
            state = record state { last_error = none };
            world = w;
          }) in
          (r.exit, r.after.state, r.after.world)
    ]
  ]
