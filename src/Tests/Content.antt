-- ===== src/Tests/Content.antt =====
-- Validation, phantom directories, executability and Apply on small trees.
use native.Mathlib.Decide.{ℕ_discrete}
use mutagen.Base.{
  Bytes-discrete, Digest-discrete, true, false, none, some, [], ◌∷◌, ◌≡◌, ◌↔◌, refl, codes, All,
}
use mathlib.Core.List.{Sublist}
use mutagen.Entry.{Kind-discrete, directory, phantom_directory, Entry, node, unset, made, end, item}
use mutagen.Entry.Copy.{try_copy, copy, deep_preserving_leaves}
use mutagen.Entry.Copied.{try_copy-Agree}
use mutagen.Entry.Measure.{depth}
use mutagen.Entry.Tree.{descend, Agree}
use mutagen.Entry.Validity.{
  Check, check_name, check_node, check_directory_fields, check_file, check_symbolic_link,
  check_untracked, check_problematic, ensure_valid,
}
use mutagen.Change.{diff}
use mutagen.Apply.{applied, apply}
use mutagen.Apply.Laws.{apply-diff}
use mutagen.Phantom.{reify_phantom_directories, reify}
use mutagen.Phantom.Free.{PhantomFree, reify_phantom_directories-PhantomFree}
use mutagen.Executability.{propagate_executability}
use mutagen.Executability.Pointwise.{props_of, marked_entry, propagate_executability-marks}
use mutagen.Base.{Bytes, List, Option, inl, map}
use mutagen.Entry.{nil, file, is_kind}
use mutagen.Change.{Change, Conflict, slim_conflict}
use mutagen.Change.Validity.{ensure_valid_change, ensure_valid_changes, ensure_valid_conflict}
use mutagen.Change.Validity.Slim.{ensure_valid_conflict-slim}
use mutagen.Staging.{transition_dependencies, find_all, find_files}
use mutagen.Staging.Complete.{In, transition_dependencies_complete}
use mutagen.Base.{◌++◌}
use mutagen.Path.{joinable, dir, base}
use mutagen.Path.Join.{IsName}
use mutagen.Path.Parent.{dir-joinable}
use mutagen.Safety.{filtered_paths_are_subset}
use mutagen.Safety.Subset.{filtered_paths_are_subset_iff}
use mutagen.Reconcile.{two_way_safe, Plan, reconcile}
use mutagen.Reconcile.Conflicts.{Filled, conflicts-Filled}
use mutagen.Tests.Sync.{valid, run, plain, file_of, a, b, old_tree, alpha_tree}

abbrev rival_tree : Entry
rival_tree = node (plain directory) (made (item a (file_of (codes "4")) end))

unfoldable pub strictly_valid : Entry → Check
unfolding ensure_valid check_name check_node check_directory_fields check_file check_symbolic_link
    check_untracked check_problematic Kind-discrete Bytes-discrete Digest-discrete ℕ_discrete
strictly_valid e = ensure_valid true e

old-valid : ensure_valid false old_tree ≡ none
unfolding valid
old-valid = refl

alpha-valid : ensure_valid false alpha_tree ≡ none
unfolding valid
alpha-valid = refl

rival-valid : ensure_valid false rival_tree ≡ none
unfolding valid
rival-valid = refl

apply-diff_example :
    (r : Entry) × (apply old_tree (diff [] old_tree alpha_tree) ≡ applied r) × Agree r alpha_tree
apply-diff_example = apply-diff old_tree alpha_tree old-valid alpha-valid

-- A phantom root with an empty phantom directory and a file.
abbrev phantom_tree : Entry
phantom_tree =
    node (plain phantom_directory)
      (made (item a (node (plain phantom_directory) unset) (item b (file_of (codes "3")) end)))

phantom-valid : ensure_valid false phantom_tree ≡ none
unfolding valid
phantom-valid = refl

reify_phantom_directories-PhantomFree_example :
    PhantomFree (reify_phantom_directories old_tree alpha_tree phantom_tree).alpha
    × PhantomFree (reify_phantom_directories old_tree alpha_tree phantom_tree).beta
reify_phantom_directories-PhantomFree_example =
    reify_phantom_directories-PhantomFree old_tree alpha_tree phantom_tree alpha-valid phantom-valid

-- The two trees hold no phantom directory: reifying leaves them as they are.
both-PhantomFree : PhantomFree alpha_tree × PhantomFree rival_tree
unfolding reify_phantom_directories reify copy depth Kind-discrete Bytes-discrete ℕ_discrete
both-PhantomFree =
    reify_phantom_directories-PhantomFree old_tree alpha_tree rival_tree alpha-valid rival-valid

abbrev disputed : Plan
disputed = record {
  ancestor_changes = [];
  alpha_changes = [];
  beta_changes = [];
  conflicts =
      record {
        root = a;
        alpha_changes =
            record { path = a; old = file_of (codes "1"); new = file_of (codes "2") } ∷ [];
        beta_changes =
            record { path = a; old = file_of (codes "1"); new = file_of (codes "4") } ∷ [];
      }
      ∷ [];
}

disputes : reconcile old_tree alpha_tree rival_tree two_way_safe ≡ some disputed
unfolding run
disputes = refl

conflicts-Filled_example : All Filled disputed.conflicts
conflicts-Filled_example =
    conflicts-Filled two_way_safe old_tree alpha_tree rival_tree alpha-valid both-PhantomFree.0
      rival-valid both-PhantomFree.1 disputes

propagate_executability-marks_example :
    props_of (descend (propagate_executability old_tree rival_tree alpha_tree) (a ∷ []))
    ≡ marked_entry
        (descend old_tree (a ∷ []))
        (descend rival_tree (a ∷ []))
        (descend alpha_tree (a ∷ []))
propagate_executability-marks_example =
    propagate_executability-marks old_tree rival_tree alpha_tree (a ∷ []) alpha-valid
      both-PhantomFree.0

filtered_paths_are_subset_iff_example :
    (filtered_paths_are_subset (b ∷ []) (a ∷ b ∷ []) ≡ true) ↔ Sublist (b ∷ []) (a ∷ b ∷ [])
filtered_paths_are_subset_iff_example = filtered_paths_are_subset_iff (b ∷ []) (a ∷ b ∷ [])

try_copy-Agree_example :
    (r : Entry) × (try_copy deep_preserving_leaves alpha_tree ≡ some r) × Agree r alpha_tree
try_copy-Agree_example = try_copy-Agree false deep_preserving_leaves alpha_tree tt alpha-valid

is_file : is_kind file (descend alpha_tree (a ∷ [])) ≡ true
unfolding Kind-discrete Bytes-discrete ℕ_discrete
is_file = refl

abbrev transitions : List Change
transitions = record { path = b; old = nil; new = alpha_tree } ∷ []

transition_dependencies_complete_example :
    (staged : List (Bytes × Option Bytes)) × ((transition_dependencies transitions).paths
      ≡ map (λ s. s.0) staged)
    × ((transition_dependencies transitions).digests ≡ map (λ s. s.1) staged)
    × In (codes "b/a", some (codes "2")) staged
unfolding Bytes-discrete ℕ_discrete
transition_dependencies_complete_example =
    transition_dependencies_complete transitions (record { path = b; old = nil; new = alpha_tree })
      (a ∷ []) (inl refl) refl alpha-valid both-PhantomFree.0 is_file

needs_staging : (transition_dependencies transitions).paths ≡ codes "b/a" ∷ []
unfolding transition_dependencies find_all find_files Kind-discrete Bytes-discrete ℕ_discrete
needs_staging = refl

b-IsName : IsName b
unfolding ℕ_discrete
b-IsName = record { filled = refl; plain = refl }

dir-joinable_example : (dir (joinable a ++ b) ≡ some a) × (base (joinable a ++ b) ≡ some b)
dir-joinable_example = dir-joinable a b b-IsName

abbrev large_conflict : Conflict
large_conflict = record {
  root = b;
  alpha_changes = record { path = b; old = nil; new = alpha_tree } ∷ [];
  beta_changes = record { path = b; old = nil; new = rival_tree } ∷ [];
}

conflict-valid : ensure_valid_conflict large_conflict ≡ none
unfolding valid ensure_valid_conflict ensure_valid_changes ensure_valid_change
conflict-valid = refl

ensure_valid_conflict-slim_example : ensure_valid_conflict (slim_conflict large_conflict) ≡ none
ensure_valid_conflict-slim_example = ensure_valid_conflict-slim large_conflict conflict-valid
