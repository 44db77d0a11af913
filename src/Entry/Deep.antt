-- ===== src/Entry/Deep.antt =====
-- About the deep `Copy` of pkg/synchronization/core/entry.go and the way down to an address.
use mutagen.Base.{
  Bytes, List, [], ◌∷◌, ◌≡◌, refl, ap, ◌∙◌, ◌==◌, inl, inr, Bool-cases, bytes_eq, nat_eq,
}
use mathlib.Core.Option.{get_or}
use mutagen.Entry.{
  kind_eq, Entry, nil, node, unset, made, Items, end, item, get_contents, find, child,
}
use mutagen.Entry.Copy.{copy, copy_items, deep, remade}
use mutagen.Entry.Tree.{descend}

find-copy_items :
    (xs : Items) (n : Bytes)
    → get_or (find (copy_items deep xs) n) nil ≡ copy deep (get_or (find xs n) nil)
unfolding copy
find-copy_items end n = refl
find-copy_items (item m e xs) n = elim (Bool-cases (m == n)) [
  | inl same ↦ rw same refl
  | inr differ ↦ rw differ (find-copy_items xs n)
]

child-remade : (xs : Items) (n : Bytes) → child (remade xs) n ≡ get_or (find xs n) nil
child-remade end n = refl
child-remade (item m e xs) n = refl

pub child-copy :
    (e : Entry) (n : Bytes)
    → child (get_contents (copy deep e)) n ≡ copy deep (child (get_contents e) n)
unfolding copy
child-copy nil n = refl
child-copy (node p unset) n = refl
child-copy (node p (made xs)) n = child-remade (copy_items deep xs) n ∙ find-copy_items xs n

pub descend-copy :
    (e : Entry) (ns : List Bytes) → descend (copy deep e) ns ≡ copy deep (descend e ns)
descend-copy e [] = refl
descend-copy e (n ∷ ns) =
    ap (λ x. descend x ns) (child-copy e n) ∙ descend-copy (child (get_contents e) n) ns
