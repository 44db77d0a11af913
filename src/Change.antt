-- ===== src/Change.antt =====
-- `Change`, `Conflict` and `Diff`: pkg/synchronization/core/change.go, conflict.go and diff.go.
pub mod Diff
pub mod Validity
use mutagen.Base.{
  ℕ, zero, suc, Bytes, Bool, false, ◌&&◌, not, List, [], ◌∷◌, ◌++◌, map, ◌==◌, bytes_eq,
  if◌then◌else◌, flat_map,
}
use mutagen.Path.{joinable}
use mutagen.Entry.{kind_eq, Entry, node, get_contents, child, name_union, is_nil}
use mutagen.Entry.Compare.{equal}
use mutagen.Entry.Copy.{copy, slim}
use mutagen.Entry.Measure.{depth}

pub record Change : Type 0 where
  pub path : Bytes
  pub old : Entry
  pub new : Entry

pub record Conflict : Type 0 where
  pub root : Bytes
  pub alpha_changes : List Change
  pub beta_changes : List Change

-- `IsRootDeletion`
unfoldable pub is_root_deletion : Change → Bool
is_root_deletion c = c.path == [] && not (is_nil c.old) && is_nil c.new

abbrev kinds_differ : Entry → Entry → Bool
kinds_differ (node p c) (node q d) = not (p.kind == q.kind)
kinds_differ _ _ = false

-- `IsRootTypeChange`: the kinds are compared where neither entry is nil.
unfoldable pub is_root_type_change : Change → Bool
is_root_type_change c = c.path == [] && kinds_differ c.old c.new

-- `Change.slim`
unfoldable pub slim_change : Change → Change
slim_change c = record { path = c.path; old = copy slim c.old; new = copy slim c.new }

-- `Conflict.Slim`
unfoldable pub slim_conflict : Conflict → Conflict
slim_conflict c = record {
  root = c.root;
  alpha_changes = map slim_change c.alpha_changes;
  beta_changes = map slim_change c.beta_changes;
}

-- The method `diff` of `differ`, as the list of the changes that it appends. Each level of the
-- recursion takes one unit of fuel.
unfoldable pub diff_from : ℕ → Bytes → Entry → Entry → List Change
diff_from zero path base target = []
diff_from (suc fuel) path base target =
    let base_contents = get_contents base in
    let target_contents = get_contents target in
    let inside =
      flat_map
        (λ name.
          diff_from fuel (joinable path ++ name) (child base_contents name)
            (child target_contents name))
        (name_union (base_contents ∷ target_contents ∷ [])) in
    if not (equal target base false)
    then record { path = path; old = base; new = target } ∷ []
    else inside

-- The function `diff`: one unit of fuel more than the target has levels.
unfoldable pub diff : Bytes → Entry → Entry → List Change
diff path base target = diff_from (suc (depth target)) path base target
