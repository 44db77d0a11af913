-- ===== src/Session/Kept.antt =====
-- About the archive in the synchronization loop of pkg/synchronization/controller.go.
use mutagen.Base.{
  if-cases, Bytes, Bool, true, false, ◌&&◌, ◌||◌, not, Option, none, some, List, [], ◌∷◌, ◌++◌, ◌≡◌,
  refl, sym, is_empty, if◌then◌else◌,
}
use mutagen.Entry.{Entry}
use mutagen.Entry.Validity.{Check, ensure_valid}
use mutagen.Change.{Change}
use mutagen.Apply.{Applied, applied, unresolved, nil_dereference, apply}
use mutagen.Reconcile.{Plan, reconcile}
use mutagen.Session.{
  Configuration, Circumstances, SyncError, Endpoint, Snapshot, Scanned, Transitioned, Loop,
  SyncRound, effective_mode, endpoint_event, flush_requested, polling_cancelled, alpha_poll_failed,
  beta_poll_failed, waiting_for_rescan, alpha_scan_error, beta_scan_error, Trigger,
}
use mutagen.Staging.{transition_dependencies}
use mutagen.Safety.{
  contains_root_deletion, contains_root_type_change, filtered_paths_are_subset,
  one_endpoint_emptied_root,
}
use mutagen.Session.Saving.{
  conclude, save_checked, save_applied, apply_to_ancestor, save, fold_changes, then_loop,
  with_error, with_status, propagated_contents, reified_contents, retry_scan,
}
use mutagen.Session.Cycle.{
  supply_staged, use_plan, poll_then_scan, transition_both, stage_side, carry_out, check_plan,
  reconcile_contents, use_snapshots, check_scans, scan_both, synchronize_round, synchronize_loop,
}

module _ {W : Type 0} where
  -- The archive holds synchronizable content only, and the loop works with what it holds.
  pub record IsSaved (l : Loop W) : Type 0 where
    pub valid : ensure_valid true l.archive ≡ none
    pub same : l.ancestor ≡ l.archive

  -- Where the loop goes on, too.
  pub record KeepsArchive (r : SyncRound W) : Type 0 where
    pub valid : ensure_valid true r.after.archive ≡ none
    pub same : r.exit ≡ none → r.after.ancestor ≡ r.after.archive

  stops :
      {r : SyncRound W} {e : SyncError}
      → r.exit ≡ some e
      → ensure_valid true r.after.archive ≡ none
      → KeepsArchive r
  stops h v = record { valid = v; same = λ g. absurd (cc (g, h)) }

  either :
      {x y : SyncRound W} (b : Bool)
      → KeepsArchive x
      → KeepsArchive y
      → KeepsArchive (if b then x else y)
  either true h k = h
  either false h k = k

  goes_on : (l : Loop W) → IsSaved l → KeepsArchive (record { exit = none; after = l })
  goes_on l v = record { valid = v.valid; same = λ h. v.same }

  abbrev Keeps : (Loop W → SyncRound W) → Type 0
  Keeps f = (l : Loop W) → IsSaved l → KeepsArchive (f l)

  conclude-Keeps : (α β : Transitioned) → Keeps (conclude α β)
  unfolding conclude
  conclude-Keeps α β l v = either α.transition_failed (stops refl v.valid) (
      either β.transition_failed (stops refl v.valid)
        (goes_on _ (record { valid = v.valid; same = v.same })))

  save_checked-Keeps :
      (k : Circumstances) (next : Loop W → SyncRound W) (l : Loop W) (e : Entry) (check : Check)
      → Keeps next
      → IsSaved l
      → check ≡ ensure_valid true e
      → KeepsArchive (save_checked k next l e check)
  save_checked-Keeps k next l e (some invalid) keeps v h = stops refl v.valid
  save_checked-Keeps k next l e none keeps v h =
      either k.save_fails (stops refl v.valid) (keeps _ (record { valid = sym h; same = refl }))

  save_applied-Keeps :
      (k : Circumstances) (next : Loop W → SyncRound W) (l : Loop W) (r : Applied)
      → Keeps next
      → IsSaved l
      → KeepsArchive (save_applied k next l r)
  save_applied-Keeps k next l unresolved keeps v = stops refl v.valid
  save_applied-Keeps k next l nil_dereference keeps v = stops refl v.valid
  save_applied-Keeps k next l (applied e) keeps v =
      save_checked-Keeps k next l e (ensure_valid true e) keeps v refl

  apply_to_ancestor-Keeps :
      (k : Circumstances) (changes : List Change) (next : Loop W → SyncRound W)
      → Keeps next
      → Keeps (apply_to_ancestor k changes next)
  unfolding apply_to_ancestor
  apply_to_ancestor-Keeps k changes next keeps l v =
      either (is_empty changes) (keeps l v)
        (save_applied-Keeps k next l (apply l.ancestor changes) keeps v)

  fold_changes-Keeps :
      (k : Circumstances) (changes : List Change) (α β : Transitioned)
      (αs βs : Option (List Change)) (l : Loop W)
      → IsSaved l
      → KeepsArchive (fold_changes k changes α β αs βs l)
  fold_changes-Keeps k changes α β none βs l v = stops refl v.valid
  fold_changes-Keeps k changes α β (some αs) none l v = stops refl v.valid
  fold_changes-Keeps k changes α β (some αs) (some βs) l v =
      apply_to_ancestor-Keeps k ((changes ++ αs) ++ βs) (conclude α β) (conclude-Keeps α β) _
        (record { valid = v.valid; same = v.same })

  with_error-IsSaved :
      (failed : Bool) (e : SyncError) (l : Loop W) → IsSaved l → IsSaved (with_error failed e l)
  with_error-IsSaved true e l v = record { valid = v.valid; same = v.same }
  with_error-IsSaved false e l v = v

  retry_scan-Keeps : (k : Circumstances) → Keeps (retry_scan k)
  unfolding retry_scan
  retry_scan-Keeps k l v =
      let saved : IsSaved
          (if l.skipping_due_to_scan_error then with_status waiting_for_rescan l else l) =
        if-cases IsSaved l.skipping_due_to_scan_error _ _
          (λ _. record { valid = v.valid; same = v.same }) (λ _. v) in
      either (l.skipping_due_to_scan_error && k.cancelled_in_wait) (stops refl saved.valid)
        (goes_on _ (record { valid = saved.valid; same = saved.same }))

  then_loop-Keeps :
      (rest : Loop W → SyncRound W) (r : SyncRound W) (exit : Option SyncError)
      → Keeps rest
      → KeepsArchive r
      → exit ≡ r.exit
      → KeepsArchive (then_loop rest r exit)
  then_loop-Keeps rest r (some e) keeps v h = v
  then_loop-Keeps rest r none keeps v h =
      keeps r.after (record { valid = v.valid; same = v.same (sym h) })

module _ {W R : Type 0} where
  supply_staged-Keeps :
      (source : Endpoint W R) (e₁ e₂ e₃ : SyncError) (paths : List Bytes)
      (next : Loop W → SyncRound W) (l : Loop W) (staged : Option (List Bytes × R))
      → Keeps next
      → IsSaved l
      → KeepsArchive (supply_staged source e₁ e₂ e₃ paths next l staged)
  supply_staged-Keeps source e₁ e₂ e₃ paths next l none keeps v = stops refl v.valid
  supply_staged-Keeps source e₁ e₂ e₃ paths next l (some (filtered, receiver)) keeps v =
      either (not (filtered_paths_are_subset filtered paths)) (stops refl v.valid) (
        either (is_empty filtered) (keeps l v) (
          either (source.supply filtered receiver l.world).0
            (keeps _ (record { valid = v.valid; same = v.same })) (stops refl v.valid)))

  stage_side-Keeps :
      (target source : Endpoint W R) (e₁ e₂ e₃ : SyncError) (ts : List Change)
      (next : Loop W → SyncRound W)
      → Keeps next
      → Keeps (stage_side target source e₁ e₂ e₃ ts next)
  unfolding stage_side
  stage_side-Keeps target source e₁ e₂ e₃ ts next keeps l v =
      either (is_empty (transition_dependencies ts).paths) (keeps l v) (
        supply_staged-Keeps source e₁ e₂ e₃ (transition_dependencies ts).paths next _ _ keeps
          (record { valid = v.valid; same = v.same }))

  carry_out-Keeps :
      (k : Circumstances) (alpha beta : Endpoint W R) (plan : Plan)
      → Keeps (carry_out k alpha beta plan)
  unfolding carry_out transition_both save
  carry_out-Keeps k alpha beta plan l v =
      stage_side-Keeps alpha beta _ _ _ plan.alpha_changes _
        (λ l v.
          stage_side-Keeps beta alpha _ _ _ plan.beta_changes _
            (λ l v.
              fold_changes-Keeps k plan.ancestor_changes _ _ _ _ _
                (record { valid = v.valid; same = v.same }))
            _ (record { valid = v.valid; same = v.same }))
        _ (record { valid = v.valid; same = v.same })

  check_plan-Keeps :
      (k : Circumstances) (alpha beta : Endpoint W R) (plan : Plan)
      → Keeps (check_plan k alpha beta plan)
  unfolding check_plan
  check_plan-Keeps k alpha beta plan l v =
      either (contains_root_deletion plan.alpha_changes || contains_root_deletion plan.beta_changes)
        (stops refl v.valid)
        (either
          (contains_root_type_change plan.alpha_changes
            || contains_root_type_change plan.beta_changes)
          (stops refl v.valid)
          (carry_out-Keeps k alpha beta plan _ (record { valid = v.valid; same = v.same })))

  use_plan-Keeps :
      (k : Circumstances) (alpha beta : Endpoint W R) (l : Loop W) (plan : Option Plan)
      → IsSaved l
      → KeepsArchive (use_plan k alpha beta l plan)
  use_plan-Keeps k alpha beta l none v = stops refl v.valid
  use_plan-Keeps k alpha beta l (some plan) v = check_plan-Keeps k alpha beta plan l v

  use_snapshots-Keeps :
      (c : Configuration) (k : Circumstances) (alpha beta : Endpoint W R) (a b : Snapshot)
      → Keeps (use_snapshots c k alpha beta a b)
  unfolding use_snapshots reconcile_contents
  use_snapshots-Keeps c k alpha beta a b l v =
      let p = propagated_contents c l.ancestor a b (reified_contents c l.ancestor a b) in
      either (one_endpoint_emptied_root l.ancestor p.alpha p.beta) (stops refl v.valid) (
        use_plan-Keeps k alpha beta _
          (reconcile l.ancestor p.alpha p.beta (effective_mode c.synchronization_mode))
          (record { valid = v.valid; same = v.same }))

  check_scans-Keeps :
      (c : Configuration) (k : Circumstances) (alpha beta : Endpoint W R) (a b : Scanned)
      → Keeps (check_scans c k alpha beta a b)
  unfolding check_scans
  check_scans-Keeps c k alpha beta a b l v =
      let v' = with_error-IsSaved a.scan_failed alpha_scan_error l v in
      let v'' = with_error-IsSaved b.scan_failed beta_scan_error _ v' in
      either k.cancelled_in_scan (stops refl v.valid) (
        either (a.scan_failed && not a.try_again) (stops refl v.valid) (
          either (b.scan_failed && not b.try_again) (stops refl v'.valid) (
            either (a.try_again || b.try_again) (retry_scan-Keeps k _ v'')
              (use_snapshots-Keeps c k alpha beta a.snapshot b.snapshot _ v''))))

  poll_then_scan-Keeps :
      (c : Configuration) (k : Circumstances) (alpha beta : Endpoint W R) (l : Loop W) (t : Trigger)
      → IsSaved l
      → KeepsArchive (poll_then_scan c k alpha beta l t)
  unfolding scan_both
  poll_then_scan-Keeps c k alpha beta l endpoint_event v =
      check_scans-Keeps c k alpha beta _ _ _ (record { valid = v.valid; same = v.same })
  poll_then_scan-Keeps c k alpha beta l flush_requested v =
      check_scans-Keeps c k alpha beta _ _ _ (record { valid = v.valid; same = v.same })
  poll_then_scan-Keeps c k alpha beta l polling_cancelled v = stops refl v.valid
  poll_then_scan-Keeps c k alpha beta l alpha_poll_failed v = stops refl v.valid
  poll_then_scan-Keeps c k alpha beta l beta_poll_failed v = stops refl v.valid

  synchronize_round-Keeps :
      (c : Configuration) (k : Circumstances) (alpha beta : Endpoint W R)
      → Keeps (synchronize_round c k alpha beta)
  unfolding synchronize_round scan_both
  synchronize_round-Keeps c k alpha beta l v =
      either l.skip_polling
        (check_scans-Keeps c k alpha beta _ _ _ (record { valid = v.valid; same = v.same }))
        (poll_then_scan-Keeps c k alpha beta _ k.trigger
          (record { valid = v.valid; same = v.same }))

  -- If the archive holds synchronizable content only, and is the ancestor of the loop, then after any
  -- rounds of the loop, with any endpoints, errors and interruptions, the archive again holds
  -- synchronizable content only, and is the loop's ancestor as long as the loop goes on.
  pub synchronize_loop-KeepsArchive :
      (c : Configuration) (alpha beta : Endpoint W R) (ks : List Circumstances) (l : Loop W)
      → IsSaved l
      → KeepsArchive (synchronize_loop c alpha beta ks l)
  unfolding synchronize_loop
  synchronize_loop-KeepsArchive c alpha beta [] l v = goes_on l v
  synchronize_loop-KeepsArchive c alpha beta (k ∷ ks) l v =
      then_loop-Keeps (synchronize_loop c alpha beta ks) _ _
        (λ l v. synchronize_loop-KeepsArchive c alpha beta ks l v)
        (synchronize_round-Keeps c k alpha beta l v) refl
