-- ===== src/Executability.antt =====
-- pkg/synchronization/core/executability.go. The mutations of the target are the result.
pub mod Pointwise
use mutagen.Base.{Bool, true, false, ◌&&◌, Option, none, Bytes, ◌==◌, nat_eq, if◌then◌else◌}
use mutagen.Entry.{
  Props, directory, file, kind_eq, Entry, nil, node, Contents, unset, made, Items, end, item,
  items_of, get_contents, child, count_items, is_kind, is_nil, bytes_equal,
}
use mutagen.Entry.Copy.{copy, deep}

-- Fields of an entry. The code reads them only after it found the entry not to be nil.
abbrev pub digest_of : Entry → Option Bytes
digest_of nil = none
digest_of (node p c) = p.digest

abbrev pub executable_of : Entry → Bool
executable_of nil = false
executable_of (node p c) = p.executable

-- The entry is a file with the given digest.
abbrev pub file_with : Entry → Option Bytes → Bool
file_with e digest = is_kind file e && bytes_equal (digest_of e) digest

-- The three heuristics for a file.
abbrev pub file_executability : Entry → Entry → Props → Bool
file_executability ancestor source p =
    if file_with source p.digest
    then executable_of source
    else if file_with ancestor p.digest
    then executable_of ancestor
    else if is_kind file source
        && is_kind file ancestor
        && bytes_equal (digest_of source) (digest_of ancestor)
    then executable_of source
    else p.executable

-- The cases of the target's kind; `contents` is what the loop over its contents leaves.
abbrev pub propagate_node : Entry → Entry → Props → Contents → Contents → Entry
propagate_node ancestor source p c contents =
    if is_nil ancestor && is_nil source
    then node p c
    else if p.kind == directory
    then if count_items (items_of (get_contents source)) == 0
        && count_items (items_of (get_contents ancestor)) == 0
      then node p c
      else node p contents
    else if p.kind == file
    then node (record p { executable = file_executability ancestor source p }) c
    else node p c

unfoldable mutual
  -- `propagateExecutabilityRecursive`
  pub propagate : Entry → Entry → Entry → Entry
  propagate ancestor source nil = nil
  propagate ancestor source (node p unset) = propagate_node ancestor source p unset unset
  propagate ancestor source (node p (made xs)) =
      propagate_node ancestor source p (made xs)
        (made (propagate_items (get_contents ancestor) (get_contents source) xs))

  pub propagate_items : Contents → Contents → Items → Items
  propagate_items ancestor source end = end
  propagate_items ancestor source (item n e xs) =
      item n (propagate (child ancestor n) (child source n) e) (propagate_items ancestor source xs)

-- `PropagateExecutability`
unfoldable pub propagate_executability : Entry → Entry → Entry → Entry
propagate_executability ancestor source target = propagate ancestor source (copy deep target)
