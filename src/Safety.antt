-- ===== src/Safety.antt =====
-- pkg/synchronization/safety.go: the checks that halt a session before changes are applied.
pub mod Subset
use mutagen.Base.{
  Bytes, Bool, true, false, ◌&&◌, ◌||◌, not, Option, none, some, List, [], ◌∷◌, ◌==◌, bytes_eq, ltb,
  nat_eq, if◌then◌else◌,
}
use mutagen.Entry.{Entry, directory, is_kind, items_of, get_contents, count_items}
use mutagen.Change.{Change, is_root_deletion, is_root_type_change}

abbrev pub count_contents : Entry → Prim.Native.Nat.ℕ
count_contents e = count_items (items_of (get_contents e))

-- `oneEndpointEmptiedRoot`
abbrev pub one_endpoint_emptied_root : Entry → Entry → Entry → Bool
one_endpoint_emptied_root ancestor alpha beta =
    if not (is_kind directory ancestor)
    then false
    else if not (is_kind directory alpha)
    then false
    else if not (is_kind directory beta)
    then false
    else if ltb (count_contents ancestor) 2
    then false
    else (count_contents alpha == 0 || count_contents beta == 0)
      && not (count_contents alpha == 0 && count_contents beta == 0)

-- `containsRootDeletion`
abbrev pub contains_root_deletion : List Change → Bool
contains_root_deletion [] = false
contains_root_deletion (c ∷ cs) = if is_root_deletion c then true else contains_root_deletion cs

-- `containsRootTypeChange`
abbrev pub contains_root_type_change : List Change → Bool
contains_root_type_change [] = false
contains_root_type_change (c ∷ cs) =
    if is_root_type_change c then true else contains_root_type_change cs

-- The inner loop: what remains of the original paths behind the first match.
abbrev pub after_match : Bytes → List Bytes → Option (List Bytes)
after_match filtered [] = none
after_match filtered (original ∷ rest) =
    if original == filtered then some rest else after_match filtered rest

-- `filteredPathsAreSubset`
unfoldable pub filtered_paths_are_subset : List Bytes → List Bytes → Bool
filtered_paths_are_subset [] original_paths = true
filtered_paths_are_subset (filtered ∷ rest) original_paths =
    elim (after_match filtered original_paths) [
      | none ↦ false
      | some remaining ↦ filtered_paths_are_subset rest remaining
    ]
