-- ===== src/Apply.antt =====
-- pkg/synchronization/core/apply.go. The deep copy that `Apply` mutates is a value here, and each
-- assignment through a pointer puts the new child back into its parents. This leaves out one
-- aliasing: the copy shares its leaves with the base, so a change below a leaf would reach the base.
pub mod Writes
pub mod Under
pub mod Roundtrip
pub mod Laws
use mutagen.Base.{Bytes, none, some, List, [], ◌∷◌, ◌==◌, bytes_eq, if◌then◌else◌}
use mutagen.Path.{split}
use mutagen.Entry.{Entry, nil, node, Props, Contents, unset, made, Items, end, item, items_of, find}
use mutagen.Entry.Copy.{copy, deep_preserving_leaves}
use mutagen.Change.{Change}

-- The error of `Apply`, and the panic of a field access through a nil pointer.
pub data Applied : Type 0 where
  applied : Entry → Applied
  unresolved nil_dereference : Applied

-- `m[name] = entry`
abbrev pub set_item : Bytes → Entry → Items → Items
set_item n e end = item n e end
set_item n e (item m d xs) = if m == n then item n e xs else item m d (set_item n e xs)

-- `delete(m, name)`
abbrev pub remove_item : Bytes → Items → Items
remove_item n end = end
remove_item n (item m d xs) = let rest = remove_item n xs in if m == n then rest else item m d rest

-- The assignment at the end of the crawl: a nil value removes, any other is copied.
abbrev pub assign : Bytes → Entry → Contents → Contents
assign n nil unset = unset
assign n nil (made xs) = made (remove_item n xs)
assign n (node q d) c = made (set_item n (copy deep_preserving_leaves (node q d)) (items_of c))

abbrev pub put_back : Bytes → Props → Contents → Applied → Applied
put_back n p c (applied e) = applied (node p (made (set_item n e (items_of c))))
put_back n p c unresolved = unresolved
put_back n p c nil_dereference = nil_dereference

-- The crawl down from an entry along the components, and the assignment below the last parent.
-- `strings.Split` yields at least one component.
unfoldable pub apply_at : List Bytes → Entry → Entry → Applied
apply_at [] new parent = unresolved
apply_at (n ∷ []) new nil = nil_dereference
apply_at (n ∷ []) new (node p c) = applied (node p (assign n new c))
apply_at (n ∷ m ∷ rest) new nil = nil_dereference
apply_at (n ∷ m ∷ rest) new (node p c) = elim (find (items_of c) n) [
  | none ↦ unresolved
  | some e ↦ put_back n p c (apply_at (m ∷ rest) new e)
]

-- One round of the loop over the changes.
unfoldable pub apply_change : Change → Entry → Applied
apply_change c result =
    if c.path == []
    then applied (copy deep_preserving_leaves c.new)
    else apply_at (split c.path) c.new result

abbrev pub and_then : Applied → (Entry → Applied) → Applied
and_then (applied e) f = f e
and_then unresolved f = unresolved
and_then nil_dereference f = nil_dereference

unfoldable pub apply_changes : List Change → Entry → Applied
apply_changes [] result = applied result
apply_changes (c ∷ cs) result = and_then (apply_change c result) (apply_changes cs)

-- `Apply`
unfoldable pub apply : Entry → List Change → Applied
apply base [] = applied base
apply base (c ∷ []) =
    if c.path == []
    then applied c.new
    else apply_changes (c ∷ []) (copy deep_preserving_leaves base)
apply base (c ∷ d ∷ cs) = apply_changes (c ∷ d ∷ cs) (copy deep_preserving_leaves base)
