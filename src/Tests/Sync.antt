-- ===== src/Tests/Sync.antt =====
-- Reconciliation of a small tree: alpha modified one file and beta created another.
use native.Mathlib.Decide.{ℕ_discrete}
use mutagen.Base.{
  arith, Bytes, Digest-discrete, Bytes-discrete, true, false, none, some, List, [], ◌∷◌, ◌≡◌, ◌≢◌,
  ◌↔◌, refl, inl, inr, codes, All,
}
use mutagen.Entry.{
  Kind-discrete, Props, Kind, directory, file, Entry, nil, node, unset, made, end, item,
}
use mutagen.Entry.Compare.{equal, properties_match}
use mutagen.Entry.Copy.{copy, synchronizable}
use mutagen.Entry.Measure.{depth}
use mutagen.Entry.Tree.{descend, Agree}
use mutagen.Change.{diff, diff_from}
use mutagen.Reconcile.{
  Mode, default_mode, two_way_safe, one_way_safe, Plan, reconcile, handle_disagreement,
  handle_disagreement_bidirectional, handle_disagreement_one_way_safe,
  handle_disagreement_one_way_replica, resolve_modified, force_resolution,
  change_alpha_unless_blocked, change_beta_unless_blocked, extract_non_deletion_changes,
  reconcile_from, reconcile_actions, collect,
}
use mathlib.Core.Option
use mutagen.Entry.Validity.{check_symbolic_link, check_untracked, check_problematic}
use mutagen.Base.{Digest-discrete}
use mutagen.Entry.Validity.{
  Check, ensure_valid, check_node, check_name, check_directory_fields, check_file,
}
use mutagen.Reconcile.Sound.{protects_beta, Agree-refl}
use mutagen.Reconcile.Safety.{
  reconcile-Lossless, alpha_changes-nil, reconcile-Replaces, reconcile_returns, Lossless,
  ReplacesAt,
}
use mutagen.Reconcile.Agreement.{reconcile_of_Agree}
use mutagen.Change.Diff.{diff-nil_iff}

abbrev pub plain : Kind → Props
plain k = record { kind = k; executable = false; digest = none; target = []; problem = [] }

abbrev pub file_of : Bytes → Entry
file_of d = node (record (plain file) { digest = some d }) unset

abbrev pub a : Bytes
a = codes "a"

abbrev pub b : Bytes
b = codes "b"

abbrev pub old_tree : Entry
old_tree = node (plain directory) (made (item a (file_of (codes "1")) end))

abbrev pub alpha_tree : Entry
alpha_tree = node (plain directory) (made (item a (file_of (codes "2")) end))

abbrev pub beta_tree : Entry
beta_tree =
    node (plain directory) (made (item a (file_of (codes "1")) (item b (file_of (codes "3")) end)))

abbrev merged : Plan
merged = record {
  ancestor_changes = [];
  alpha_changes = record { path = b; old = nil; new = file_of (codes "3") } ∷ [];
  beta_changes = record { path = a; old = file_of (codes "1"); new = file_of (codes "2") } ∷ [];
  conflicts = [];
}

unfoldable pub run : Mode → mutagen.Base.Option Plan
unfolding reconcile reconcile_from handle_disagreement handle_disagreement_bidirectional
    handle_disagreement_one_way_safe handle_disagreement_one_way_replica resolve_modified
    force_resolution change_alpha_unless_blocked change_beta_unless_blocked
    extract_non_deletion_changes collect reconcile_actions equal properties_match copy
    synchronizable depth diff diff_from Kind-discrete Bytes-discrete ℕ_discrete Option.bind
run mode = reconcile old_tree alpha_tree beta_tree mode

merges : reconcile old_tree alpha_tree beta_tree two_way_safe ≡ some merged
unfolding run
merges = refl

unfoldable pub valid : Entry → Check
unfolding ensure_valid check_name check_node check_directory_fields check_file check_symbolic_link
    check_untracked check_problematic Kind-discrete Bytes-discrete Digest-discrete ℕ_discrete
valid e = ensure_valid false e

old_tree-is_valid : ensure_valid false old_tree ≡ none
unfolding valid
old_tree-is_valid = refl

alpha_tree-is_valid : ensure_valid false alpha_tree ≡ none
unfolding valid
alpha_tree-is_valid = refl

beta_tree-is_valid : ensure_valid false beta_tree ≡ none
unfolding valid
beta_tree-is_valid = refl

reconcile-Lossless_example :
    All (Lossless old_tree alpha_tree) merged.alpha_changes
    × (protects_beta two_way_safe ≡ true → All (Lossless old_tree beta_tree) merged.beta_changes)
reconcile-Lossless_example =
    reconcile-Lossless two_way_safe old_tree alpha_tree beta_tree merges false old_tree-is_valid
      alpha_tree-is_valid beta_tree-is_valid

-- Beta's new file is left alone in the one-way mode.
abbrev mirrored : Plan
mirrored = record {
  ancestor_changes = [];
  alpha_changes = [];
  beta_changes = record { path = a; old = file_of (codes "1"); new = file_of (codes "2") } ∷ [];
  conflicts = [];
}

mirrors : reconcile old_tree alpha_tree beta_tree one_way_safe ≡ some mirrored
unfolding run
mirrors = refl

alpha_changes-nil_example : mirrored.alpha_changes ≡ []
alpha_changes-nil_example =
    alpha_changes-nil one_way_safe old_tree alpha_tree beta_tree mirrors refl

reconcile-Replaces_example :
    All (λ c. (ns : List Bytes) × ReplacesAt alpha_tree c ns) merged.alpha_changes
    × All
        (λ c.
          (ns : List Bytes) × ReplacesAt beta_tree c ns
          × (c.new ≡ synchronizable (descend alpha_tree ns)))
        merged.beta_changes
reconcile-Replaces_example =
    reconcile-Replaces two_way_safe old_tree alpha_tree beta_tree merges false old_tree-is_valid
      alpha_tree-is_valid beta_tree-is_valid

mode_is_named : ◌≢◌ {A = Mode} two_way_safe default_mode
mode_is_named = grind arith

reconcile_returns_example :
    (r : Plan) × (reconcile old_tree alpha_tree beta_tree two_way_safe ≡ some r)
reconcile_returns_example =
    reconcile_returns two_way_safe old_tree alpha_tree beta_tree mode_is_named

abbrev nothing : Plan
nothing = record { ancestor_changes = []; alpha_changes = []; beta_changes = []; conflicts = [] }

settles : reconcile old_tree old_tree old_tree two_way_safe ≡ some nothing
unfolding run
settles = refl

reconcile_of_Agree_example :
    (nothing.alpha_changes ≡ []) × (nothing.beta_changes ≡ []) × (nothing.conflicts ≡ [])
reconcile_of_Agree_example =
    reconcile_of_Agree two_way_safe old_tree old_tree old_tree (Agree-refl old_tree) settles

diff-nil_iff_example : (diff a old_tree alpha_tree ≡ []) ↔ Agree old_tree alpha_tree
diff-nil_iff_example = diff-nil_iff a old_tree alpha_tree
