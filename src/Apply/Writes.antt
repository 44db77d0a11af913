-- ===== src/Apply/Writes.antt =====
-- Changes as writes at addresses of names, and what one write does to the children of a node.
use mutagen.Base.{
  Bytes, none, some, List, [], ◌∷◌, ◌++◌, ◌≡◌, refl, arith, ◌==◌, bytes_eq, if◌then◌else◌,
}
use mutagen.Entry.{
  Props, Entry, nil, node, Contents, unset, made, Items, end, item, items_of, find, child,
}
use mutagen.Entry.Copy.{copy, deep_preserving_leaves}
use mutagen.Apply.{
  Applied, applied, unresolved, nil_dereference, set_item, remove_item, assign, apply_at, and_then,
}

-- A new value at an address of names.
abbrev pub Write : Type 0
Write = List Bytes × Entry

unfoldable pub write_all : List Write → Entry → Applied
write_all [] e = applied e
write_all ((ns, new) ∷ ws) e = and_then (apply_at ns new e) (write_all ws)

pub write_all-append :
    (vs ws : List Write) (e : Entry)
    → write_all (vs ++ ws) e ≡ and_then (write_all vs e) (write_all ws)
unfolding write_all
write_all-append [] ws e = refl
write_all-append ((ns, new) ∷ vs) ws e = after (apply_at ns new e) (write_all-append vs ws)
  where
    after :
        (r : Applied)
        → ((e : Entry) → write_all (vs ++ ws) e ≡ and_then (write_all vs e) (write_all ws))
        → and_then r (write_all (vs ++ ws)) ≡ and_then (and_then r (write_all vs)) (write_all ws)
    after (applied e) ih = ih e
    after unresolved ih = refl
    after nil_dereference ih = refl

find-set_item :
    (n m : Bytes) (e : Entry) (xs : Items)
    → find (set_item n e xs) m ≡ (if n == m then some e else find xs m)
find-set_item n m e end = refl
find-set_item n m e (item k d xs) = ground (arith, find-set_item n m e xs)

find-remove_item :
    (n m : Bytes) (xs : Items) → find (remove_item n xs) m ≡ (if n == m then none else find xs m)
find-remove_item n m end = ground arith
find-remove_item n m (item k d xs) = ground (arith, find-remove_item n m xs)

-- The children after an assignment.
pub child-assign :
    (n m : Bytes) (new : Entry) (c : Contents)
    → child (assign n new c) m ≡ (if n == m then copy deep_preserving_leaves new else child c m)
unfolding copy
child-assign n m nil unset = ground arith
child-assign n m nil (made xs) = ground (arith, find-remove_item n m xs)
child-assign n m (node q d) c =
    ground (arith, find-set_item n m (copy deep_preserving_leaves (node q d)) (items_of c))

-- The children after a child was changed in place.
pub child-set_item :
    (n m : Bytes) (e : Entry) (c : Contents)
    → child (made (set_item n e (items_of c))) m ≡ (if n == m then e else child c m)
child-set_item n m e c = ground (arith, find-set_item n m e (items_of c))

-- A child that is a node is found.
pub find-of_child :
    (c : Contents) (n : Bytes) (q : Props) (d : Contents)
    → child c n ≡ node q d
    → find (items_of c) n ≡ some (node q d)
find-of_child c n q d h = ground arith
