-- ===== src/Tests/Rounds.antt =====
-- Rounds of the synchronization loop of pkg/synchronization/controller.go between two trees in
-- memory.
use mutagen.Base.{arith, Bytes, true, false, none, some, List, [], ◌∷◌, ◌≡◌, refl, map}
use mutagen.Entry.{Kind-discrete, Entry, nil, node, directory, made, end}
use mutagen.Change.{Change}
use mutagen.Apply.{Applied, applied, apply}
use mutagen.Reconcile.{Mode, two_way_safe, one_way_safe}
use mutagen.Reconcile.Sound.{Agree-refl}
use mutagen.Session.{
  disconnected, Configuration, mutagen_syntax, manual_permissions, portable_watch, effective_mode,
  Snapshot, EndpointState, Scanned, Transitioned, Endpoint, Loop, endpoint_event, Circumstances,
}
use mutagen.Session.Saving.{reified_contents, propagated_contents}
use mutagen.Session.Cycle.{use_snapshots, synchronize_loop}
use mutagen.Session.Kept.{IsSaved, KeepsArchive, synchronize_loop-KeepsArchive}
use mutagen.Session.Quiet.{with_writes, synchronize_loop_same}
use mutagen.Session.Halts.{IsHalted, LeavesWorld, use_snapshots-LeavesWorld}
use mutagen.Session.Losses.{
  IsLoss, IsEmptied, alpha_lost_root, alpha_lost_content, use_snapshots-IsHalted,
}
use mutagen.Reconcile.RootDeletion.{IsUnmodified}
use mutagen.Reconcile.{Mode}
use mutagen.Entry.Copy.{synchronizable}
use mutagen.Tests.Sync.{plain, old_tree, alpha_tree, beta_tree}
use mutagen.Tests.Content.{strictly_valid}

abbrev Trees : Type 0
Trees = Entry × Entry

abbrev snapshot_of : Entry → Snapshot
snapshot_of e = record {
  content = e;
  preserves_executability = true;
  directories = 1;
  files = 1;
  symbolic_links = 0;
  total_file_size = 1;
}

abbrev scan_of : Entry → Scanned
scan_of e = record { snapshot = snapshot_of e; scan_failed = false; try_again = false }

abbrev made_of : List Change → Transitioned
made_of cs = record {
  results = map (λ c. c.new) cs;
  problems = [];
  missing_files = false;
  transition_failed = false;
}

abbrev changed : Entry → Applied → Entry
changed e (applied f) = f
changed e _ = e

-- Endpoints that have every file staged, and make every change.
abbrev alpha_endpoint : Endpoint Trees (List Bytes)
alpha_endpoint = record {
  scan = λ ancestor full w. (scan_of w.0, w);
  stage = λ paths digests w. (some ([], paths), w);
  supply = λ paths receiver w. (true, w);
  transition = λ cs w. (made_of cs, (changed w.0 (apply w.0 cs), w.1));
}

abbrev beta_endpoint : Endpoint Trees (List Bytes)
beta_endpoint = record {
  scan = λ ancestor full w. (scan_of w.1, w);
  stage = λ paths digests w. (some ([], paths), w);
  supply = λ paths receiver w. (true, w);
  transition = λ cs w. (made_of cs, (w.0, changed w.1 (apply w.1 cs)));
}

abbrev configured : Mode → Configuration
configured mode = record {
  synchronization_mode = mode;
  ignore_syntax = mutagen_syntax;
  permissions_mode = manual_permissions;
  alpha_watch_mode = portable_watch;
  beta_watch_mode = portable_watch;
}

abbrev smooth : Circumstances
smooth = record {
  trigger = endpoint_event;
  cancelled_in_scan = false;
  cancelled_in_wait = false;
  save_fails = false;
}

abbrev unscanned : EndpointState
unscanned = record {
  scanned = false;
  directories = 0;
  files = 0;
  symbolic_links = 0;
  total_file_size = 0;
  scan_problems = [];
  transition_problems = [];
}

abbrev starting : Entry → Trees → Loop Trees
starting ancestor w = record {
  skip_polling = true;
  skipping_due_to_scan_error = false;
  skipping_due_to_missing_files = false;
  flush_request = false;
  ancestor = ancestor;
  archive = ancestor;
  state = record {
    status = disconnected;
    last_error = none;
    successful_cycles = 0;
    conflicts = [];
    alpha_state = unscanned;
    beta_state = unscanned;
  };
  world = w;
}

starting-IsSaved : IsSaved (starting old_tree (alpha_tree, beta_tree))
unfolding strictly_valid
starting-IsSaved = record { valid = refl; same = refl }

synchronize_loop-KeepsArchive_example : KeepsArchive (
    synchronize_loop
      (configured two_way_safe)
      alpha_endpoint
      beta_endpoint
      (smooth ∷ smooth ∷ [])
      (starting old_tree (alpha_tree, beta_tree)))
synchronize_loop-KeepsArchive_example =
    synchronize_loop-KeepsArchive (configured two_way_safe) alpha_endpoint beta_endpoint
      (smooth ∷ smooth ∷ []) (starting old_tree (alpha_tree, beta_tree)) starting-IsSaved

one_way : mutagen.Reconcile.Sound.changes_alpha (effective_mode one_way_safe) ≡ false
unfolding effective_mode
one_way = refl

synchronize_loop_same_example :
    synchronize_loop
      (configured one_way_safe)
      alpha_endpoint
      beta_endpoint
      (smooth ∷ [])
      (starting old_tree (alpha_tree, beta_tree))
    ≡ synchronize_loop
        (configured one_way_safe)
        (with_writes alpha_endpoint
          (λ paths digests w. (none, (nil, w.1)))
          (λ cs w. (made_of cs, (nil, w.1))))
        beta_endpoint
        (smooth ∷ [])
        (starting old_tree (alpha_tree, beta_tree))
synchronize_loop_same_example =
    synchronize_loop_same (configured one_way_safe) alpha_endpoint beta_endpoint
      (λ paths digests w. (none, (nil, w.1))) (λ cs w. (made_of cs, (nil, w.1))) one_way
      (smooth ∷ []) (starting old_tree (alpha_tree, beta_tree))

abbrev emptied_tree : Entry
emptied_tree = node (plain directory) (made end)

emptied : IsEmptied beta_tree emptied_tree beta_tree
unfolding Kind-discrete
emptied = record {
  ancestor_directory = refl;
  emptied_directory = refl;
  other_directory = refl;
  had_content = omega arith;
  has_none = refl;
  has_some = omega arith;
}

-- Alpha's root is empty.
emptied-IsLoss : (mode : Mode) → IsLoss mode beta_tree emptied_tree beta_tree
emptied-IsLoss mode = alpha_lost_content emptied

unmodified : IsUnmodified beta_tree beta_tree
unfolding Kind-discrete synchronizable
unmodified = record {
  exists = refl;
  unmodified = Agree-refl beta_tree;
  clean = Agree-refl beta_tree;
}

-- Alpha's root is gone.
use_snapshots-IsHalted_example : IsHalted (starting beta_tree (nil, beta_tree)) (
    use_snapshots
      (configured two_way_safe)
      smooth
      alpha_endpoint
      beta_endpoint
      (snapshot_of nil)
      (snapshot_of beta_tree)
      (starting beta_tree (nil, beta_tree)))
unfolding reified_contents propagated_contents
use_snapshots-IsHalted_example =
    use_snapshots-IsHalted (configured two_way_safe) smooth alpha_endpoint beta_endpoint
      (snapshot_of nil) (snapshot_of beta_tree) (starting beta_tree (nil, beta_tree))
      (alpha_lost_root refl unmodified)

use_snapshots-LeavesWorld_example : LeavesWorld (starting old_tree (alpha_tree, alpha_tree)) (
    use_snapshots
      (configured two_way_safe)
      smooth
      alpha_endpoint
      beta_endpoint
      (snapshot_of alpha_tree)
      (snapshot_of alpha_tree)
      (starting old_tree (alpha_tree, alpha_tree)))
unfolding reified_contents propagated_contents
use_snapshots-LeavesWorld_example =
    use_snapshots-LeavesWorld (configured two_way_safe) smooth alpha_endpoint beta_endpoint
      (snapshot_of alpha_tree) (snapshot_of alpha_tree) (starting old_tree (alpha_tree, alpha_tree))
      (Agree-refl alpha_tree)
