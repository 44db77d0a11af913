-- ===== src/Entry/Copy.antt =====
-- `Entry.Copy` and `Entry.synchronizable` of pkg/synchronization/core/entry.go. Entries are
-- values here: a copy is the entry that the new pointer leads to.
use mutagen.Base.{Bool, true, false, Option, none, some, Bytes, ◌||◌, [], ◌==◌, if◌then◌else◌}
use mutagen.Entry.{
  Props, directory, phantom_directory, kind_eq, Entry, nil, node, Contents, unset, made, Items, end,
  item, synchronizable_kind, is_kind,
}

pub data CopyBehavior : Type 0 where
  deep deep_preserving_leaves shallow slim : CopyBehavior

-- An empty content map is not copied: the copy has a nil map.
abbrev pub remade : Items → Contents
remade end = unset
remade (item n e xs) = made (item n e xs)

-- Where leaves are preserved, only directories of both kinds are copied. The kind of a nil child is
-- not there to be read: `copy_panics` below says where the source panics, and `try_copy` has no result
-- there.
abbrev pub copy_child : CopyBehavior → Entry → Entry → Entry
copy_child deep_preserving_leaves e copied =
    if is_kind directory e || is_kind phantom_directory e then copied else e
copy_child _ e copied = copied

unfoldable mutual
  pub copy : CopyBehavior → Entry → Entry
  copy b nil = nil
  copy b (node p unset) = node p unset
  copy b (node p (made xs)) = node p (elim b [
    | slim ↦ unset
    | shallow ↦ remade xs
    | deep ↦ remade (copy_items deep xs)
    | deep_preserving_leaves ↦ remade (copy_items deep_preserving_leaves xs)
  ])

  -- The loops over the contents of the two deep copies.
  pub copy_items : CopyBehavior → Items → Items
  copy_items b end = end
  copy_items b (item n e xs) = item n (copy_child b e (copy b e)) (copy_items b xs)

-- Whether the copy that preserves leaves meets a nil child, whose kind it would read.
unfoldable mutual
  pub copy_panics : Entry → Bool
  copy_panics nil = false
  copy_panics (node p unset) = false
  copy_panics (node p (made xs)) = items_panic xs

  pub items_panic : Items → Bool
  items_panic end = false
  items_panic (item n nil xs) = true
  items_panic (item n (node p c) xs) =
      let below = copy_panics (node p c) in
      let rest = items_panic xs in
      if p.kind == directory || p.kind == phantom_directory then below || rest else rest

-- `Copy`, with its panic.
abbrev pub try_copy : CopyBehavior → Entry → Option Entry
try_copy deep_preserving_leaves e =
    if copy_panics e then none else some (copy deep_preserving_leaves e)
try_copy b e = some (copy b e)

-- The four fields that the copy in `synchronizable` takes over.
abbrev pub without_problem : Props → Props
without_problem p = record p { problem = [] }

-- A child without synchronizable content is left out.
abbrev pub keep_item : Bytes → Entry → Items → Items
keep_item n nil xs = xs
keep_item n (node p c) xs = item n (node p c) xs

unfoldable mutual
  pub synchronizable : Entry → Entry
  synchronizable nil = nil
  synchronizable (node p unset) = if synchronizable_kind p.kind then node p unset else nil
  synchronizable (node p (made end)) = if synchronizable_kind p.kind then node p (made end) else nil
  synchronizable (node p (made (item n e xs))) =
      if synchronizable_kind p.kind
      then if p.kind == directory
        then node (without_problem p) (made (synchronizable_items (item n e xs)))
        else node p (made (item n e xs))
      else nil

  synchronizable_items : Items → Items
  synchronizable_items end = end
  synchronizable_items (item n e xs) = keep_item n (synchronizable e) (synchronizable_items xs)
