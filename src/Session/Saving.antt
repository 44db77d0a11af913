-- ===== src/Session/Saving.antt =====
-- The parts of `synchronize` of pkg/synchronization/controller.go that call no endpoint: what is
-- reconciled, the retry of a scan, and the folding of the results into the ancestor and the archive.
use mutagen.Base.{
  ℕ, Bool, true, false, ◌&&◌, ◌||◌, not, Option, none, some, List, [], ◌∷◌, ◌++◌, is_empty,
  if◌then◌else◌, add_u64,
}
use mutagen.Entry.{Entry, nil, is_nil}
use mutagen.Entry.Measure.{problems}
use mutagen.Entry.Validity.{Check, ensure_valid}
use mutagen.Change.{Change}
use mutagen.Phantom.{reify_phantom_directories}
use mutagen.Executability.{propagate_executability}
use mutagen.Reconcile.{Plan}
use mutagen.Apply.{Applied, applied, unresolved, nil_dereference, apply}
use mutagen.Session.{
  Status, waiting_for_rescan, reconciling, saving, SyncError, cancelled_during_rescan_wait,
  halted_for_safety, unable_to_propagate_changes_to_ancestor, new_ancestor_is_invalid,
  unable_to_save_ancestor, unable_to_apply_changes_to_alpha, unable_to_apply_changes_to_beta,
  panicked, Configuration, is_docker, is_portable, Snapshot, EndpointState, Transitioned, Loop,
  Circumstances, SyncRound,
}

-- The contents that are reconciled, and the counts of directories.
pub record Prepared : Type 0 where
  pub alpha : Entry
  pub beta : Entry
  pub alpha_directories : ℕ
  pub beta_directories : ℕ

-- The reification of phantom directories under Docker's syntax.
unfoldable pub reified_contents : Configuration → Entry → Snapshot → Snapshot → Prepared
reified_contents c ancestor a b =
    let r = reify_phantom_directories ancestor a.content b.content in
    if is_docker c.ignore_syntax
    then record {
      alpha = r.alpha;
      beta = r.beta;
      alpha_directories = r.alpha_count;
      beta_directories = r.beta_count;
    }
    else record {
      alpha = a.content;
      beta = b.content;
      alpha_directories = a.directories;
      beta_directories = b.directories;
    }

-- The propagation of executability under portable permissions.
unfoldable pub propagated_contents :
    Configuration → Entry → Snapshot → Snapshot → Prepared → Prepared
propagated_contents c ancestor a b p =
    if not (is_portable c.permissions_mode)
    then p
    else if a.preserves_executability && not (is_nil p.beta) && not b.preserves_executability
    then record p { beta = propagate_executability ancestor p.alpha p.beta }
    else if b.preserves_executability && not (is_nil p.alpha) && not a.preserves_executability
    then record p { alpha = propagate_executability ancestor p.beta p.alpha }
    else p

-- The ancestor changes of a side that did not fail; `none` is an index out of range.
abbrev pub changes_of : List Change → List Entry → Option (List Change)
changes_of [] results = some []
changes_of (t ∷ ts) [] = none
changes_of (t ∷ ts) (r ∷ rs) = elim (changes_of ts rs) [
  | none ↦ none
  | some cs ↦ some (record { path = t.path; old = nil; new = r } ∷ cs)
]

abbrev pub changes_of_side : List Change → Transitioned → Option (List Change)
changes_of_side ts r = if r.transition_failed then some [] else changes_of ts r.results

abbrev pub scanned_state : EndpointState → Snapshot → ℕ → Entry → EndpointState
scanned_state s snapshot count content = record s {
  scanned = true;
  directories = count;
  files = snapshot.files;
  symbolic_links = snapshot.symbolic_links;
  total_file_size = snapshot.total_file_size;
  scan_problems = problems content;
}

-- The result of `Transition` that stands where it is not called.
abbrev pub untouched : Transitioned
untouched = record { results = []; problems = []; missing_files = false; transition_failed = false }

module _ {W : Type 0} where
  abbrev pub stop : SyncError → Loop W → SyncRound W
  stop e l = record { exit = some e; after = l }

  abbrev pub with_status : Status → Loop W → Loop W
  with_status s l = record l { state = record l.state { status = s } }

  abbrev pub halt : Status → Loop W → SyncRound W
  halt s l = stop halted_for_safety (with_status s l)

  -- The end of a round: the transition errors, the files that were missing, the count and the flush.
  unfoldable pub conclude : Transitioned → Transitioned → Loop W → SyncRound W
  conclude α β l =
      let again = (α.missing_files || β.missing_files) && not l.skipping_due_to_missing_files in
      if α.transition_failed
      then stop unable_to_apply_changes_to_alpha l
      else if β.transition_failed
      then stop unable_to_apply_changes_to_beta l
      else record {
        exit = none;
        after = record l {
          skip_polling = if again then true else l.skip_polling;
          skipping_due_to_missing_files = again;
          state = record l.state { successful_cycles = add_u64 l.state.successful_cycles 1 };
          flush_request = false;
        };
      }

  -- The check and the saving of the new ancestor: the variable changes before the check, the file
  -- after it.
  abbrev pub save_checked :
      Circumstances → (Loop W → SyncRound W) → Loop W → Entry → Check → SyncRound W
  save_checked k next l e (some invalid) = stop new_ancestor_is_invalid (record l { ancestor = e })
  save_checked k next l e none =
      if k.save_fails
      then stop unable_to_save_ancestor (record l { ancestor = e })
      else next (record l { ancestor = e; archive = e })

  abbrev pub save_applied : Circumstances → (Loop W → SyncRound W) → Loop W → Applied → SyncRound W
  save_applied k next l unresolved = stop unable_to_propagate_changes_to_ancestor l
  save_applied k next l nil_dereference = stop panicked l
  save_applied k next l (applied e) = save_checked k next l e (ensure_valid true e)

  -- The update of the ancestor by its changes, if there are any.
  unfoldable pub apply_to_ancestor :
      Circumstances → List Change → (Loop W → SyncRound W) → Loop W → SyncRound W
  apply_to_ancestor k changes next l =
      if is_empty changes then next l else save_applied k next l (apply l.ancestor changes)

  abbrev pub record_problems : Transitioned → Transitioned → Loop W → Loop W
  record_problems α β l = record l {
    state = record l.state {
      status = saving;
      alpha_state = record l.state.alpha_state { transition_problems = α.problems };
      beta_state = record l.state.beta_state { transition_problems = β.problems };
    };
  }

  -- The folding of both sides' changes into the ancestor.
  abbrev pub fold_changes :
      Circumstances
      → List Change
      → Transitioned
      → Transitioned
      → Option (List Change)
      → Option (List Change)
      → Loop W
      → SyncRound W
  fold_changes k changes α β none βs l = stop panicked l
  fold_changes k changes α β (some αs) none l = stop panicked l
  fold_changes k changes α β (some αs) (some βs) l =
      apply_to_ancestor k ((changes ++ αs) ++ βs) (conclude α β) (record_problems α β l)

  unfoldable pub save : Circumstances → Plan → Transitioned → Transitioned → Loop W → SyncRound W
  save k plan α β l =
      fold_changes k plan.ancestor_changes α β (changes_of_side plan.alpha_changes α)
        (changes_of_side plan.beta_changes β) l

  -- What follows a round.
  abbrev pub then_loop : (Loop W → SyncRound W) → SyncRound W → Option SyncError → SyncRound W
  then_loop rest r (some e) = r
  then_loop rest r none = rest r.after

  -- The state after two scans that succeeded.
  abbrev pub record_scans : Snapshot → Snapshot → Prepared → Loop W → Loop W
  record_scans a b r l = record l {
    skipping_due_to_scan_error = false;
    state = record l.state {
      last_error = none;
      status = reconciling;
      alpha_state = scanned_state l.state.alpha_state a r.alpha_directories r.alpha;
      beta_state = scanned_state l.state.beta_state b r.beta_directories r.beta;
    };
  }

  abbrev pub with_error : Bool → SyncError → Loop W → Loop W
  with_error failed e l =
      if failed then record l { state = record l.state { last_error = some e } } else l

  -- A scan is tried again; if this one was, after a wait.
  unfoldable pub retry_scan : Circumstances → Loop W → SyncRound W
  retry_scan k l =
      let l' = if l.skipping_due_to_scan_error then with_status waiting_for_rescan l else l in
      if l.skipping_due_to_scan_error && k.cancelled_in_wait
      then stop cancelled_during_rescan_wait l'
      else record {
        exit = none;
        after = record l' { skip_polling = true; skipping_due_to_scan_error = true };
      }
