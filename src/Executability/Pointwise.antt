-- ===== src/Executability/Pointwise.antt =====
-- About pkg/synchronization/core/executability.go: what becomes of the node at one address.
use mutagen.Base.{
  Bytes, true, false, ◌&&◌, Option, none, some, List, [], ◌∷◌, ◌≡◌, refl, sym, ap, ◌∙◌, arith, ◌==◌,
  inl, inr, Bool-cases, bytes_eq, nat_eq, ◌⊎◌, ◌||◌, ==→eq, if◌then◌else◌,
}
use mathlib.Core.Option.{get_or}
use mutagen.Entry.{
  Props, directory, file, kind_eq, Entry, nil, node, Contents, unset, made, Items, end, item,
  items_of, get_contents, find, child, count_items, is_kind, is_nil,
}
use mutagen.Entry.Copy.{copy, deep}
use mutagen.Entry.Tree.{descend}
use mutagen.Entry.{phantom_directory}
use mutagen.Entry.Names.{ensure_valid-descend}
use mutagen.Entry.Validity.{ensure_valid}
use mutagen.Phantom.{is_directory_kind}
use mutagen.Phantom.Free.{PhantomFree, child_of_leaf}
use mutagen.Executability.{
  file_executability, propagate_node, propagate, propagate_items, propagate_executability,
}
use mutagen.Entry.Deep.{child-copy, descend-copy}

-- The fields of an entry without its contents.
abbrev pub props_of : Entry → Option Props
props_of nil = none
props_of (node p c) = some p

-- What a node becomes, by what stands at its address in the ancestor and the source.
abbrev pub marked : Entry → Entry → Props → Props
marked ancestor source p =
    if p.kind == file then record p { executable = file_executability ancestor source p } else p

abbrev pub marked_entry : Entry → Entry → Entry → Option Props
marked_entry ancestor source nil = none
marked_entry ancestor source (node p c) = some (marked ancestor source p)

-- Only directories have contents, at every address.
abbrev pub ContentsInDirectories : Entry → Type 0
ContentsInDirectories e =
    (ns : List Bytes) (n : Bytes)
    → is_kind directory (descend e ns) ≡ false
    → child (get_contents (descend e ns)) n ≡ nil

-- With neither an ancestor nor a source a node stays as it is.
marked-nil : (p : Props) → marked nil nil p ≡ p
marked-nil p = ground arith

marked_entry-nil : (e : Entry) → marked_entry nil nil e ≡ props_of e
marked_entry-nil nil = refl
marked_entry-nil (node p c) = ap some (marked-nil p)

child_of_empty :
    (c : Contents) (n : Bytes) → (count_items (items_of c) == 0) ≡ true → child c n ≡ nil
child_of_empty unset n h = refl
child_of_empty (made end) n h = refl
child_of_empty (made (item m e xs)) n h = absurd (ground arith)

directory_not_file : (p : Props) → (p.kind == directory) ≡ true → (p.kind == file) ≡ false
directory_not_file p h = ground arith

own :
    (ancestor source : Entry) (p : Props) (c d : Contents)
    → props_of (propagate_node ancestor source p c d) ≡ some (marked ancestor source p)
own nil nil p c d = ap some (sym (marked-nil p))
own (node q x) source p c d = ground (arith, directory_not_file p)
own nil (node q x) p c d = ground (arith, directory_not_file p)

props_of-propagate :
    (ancestor source t : Entry)
    → props_of (propagate ancestor source t) ≡ marked_entry ancestor source t
unfolding propagate
props_of-propagate ancestor source nil = refl
props_of-propagate ancestor source (node p unset) = own ancestor source p unset unset
props_of-propagate ancestor source (node p (made xs)) = own ancestor source p (made xs) _

propagate-nil : (t : Entry) → propagate nil nil t ≡ t
unfolding propagate
propagate-nil nil = refl
propagate-nil (node p unset) = refl
propagate-nil (node p (made xs)) = refl

find-propagate_items :
    (ancestor source : Contents) (xs : Items) (n : Bytes)
    → get_or (find (propagate_items ancestor source xs) n) nil
      ≡ propagate (child ancestor n) (child source n) (get_or (find xs n) nil)
unfolding propagate
find-propagate_items ancestor source end n = refl
find-propagate_items ancestor source (item m e xs) n = elim (Bool-cases (m == n)) [
  | inl same ↦ rw same (ap (λ k. propagate (child ancestor k) (child source k) e) (==→eq m n same))
  | inr differ ↦ rw differ (find-propagate_items ancestor source xs n)
]

-- The child of a node that is left as it was, where nothing would reach the child either.
unreached :
    (a s : Contents) (c : Contents) (n : Bytes)
    → child a n ≡ nil
    → child s n ≡ nil
    → child c n ≡ propagate (child a n) (child s n) (child c n)
unreached a s c n h k = rw (h, k) (sym (propagate-nil (child c n)))

-- A node's contents are either left, or those that the loop leaves.
node_contents :
    (a s : Entry) (p : Props) (c d : Contents)
    → (get_contents (propagate_node a s p c d) ≡ d)
      ⊎ ((get_contents (propagate_node a s p c d) ≡ c)
          × ((((is_nil a && is_nil s)
                  || (count_items (items_of (get_contents s)) == 0
                      && count_items (items_of (get_contents a)) == 0))
                ≡ true)
              ⊎ ((p.kind == directory) ≡ false)))
node_contents a s p c d = elim (Bool-cases (is_nil a && is_nil s)) [
  | inl n ↦ rw n (inr (refl, inl refl))
  | inr m ↦ elim (Bool-cases (p.kind == directory)) [
    | inl k ↦
        elim (Bool-cases (
          count_items (items_of (get_contents s)) == 0
          && count_items (items_of (get_contents a)) == 0)) [
            | inl z ↦ rw (m, k, z) (inr (refl, inl refl))
            | inr z ↦ rw (m, k, z) (inl refl)
          ]
    | inr k ↦ elim (Bool-cases (p.kind == file)) [
      | inl f ↦ rw (m, k, f) (inr (refl, inr refl))
      | inr f ↦ rw (m, k, f) (inr (refl, inr refl))
    ]
  ]
]

nothing_below :
    (a s : Entry) (n : Bytes)
    → ((is_nil a && is_nil s)
        || (count_items (items_of (get_contents s)) == 0
            && count_items (items_of (get_contents a)) == 0))
      ≡ true
    → (child (get_contents a) n ≡ nil) × (child (get_contents s) n ≡ nil)
nothing_below nil nil n h = (refl, refl)
nothing_below nil (node q y) n h = (refl, child_of_empty y n (ground arith))
nothing_below (node p x) nil n h = (child_of_empty x n (ground arith), refl)
nothing_below (node p x) (node q y) n h =
    (child_of_empty x n (ground arith), child_of_empty y n (ground arith))

child-propagate_node :
    (a s : Entry) (p : Props) (c d : Contents) (n : Bytes)
    → ((p.kind == directory) ≡ false → child c n ≡ nil)
    → child d n ≡ propagate (child (get_contents a) n) (child (get_contents s) n) (child c n)
    → child (get_contents (propagate_node a s p c d)) n
      ≡ propagate (child (get_contents a) n) (child (get_contents s) n) (child c n)
unfolding propagate
child-propagate_node a s p c d n h k = elim (node_contents a s p c d) [
  | inl e ↦ ap (λ x. child x n) e ∙ k
  | inr (e, inl z) ↦
      ap (λ x. child x n) e
      ∙ unreached (get_contents a) (get_contents s) c n (nothing_below a s n z).0
          (nothing_below a s n z).1
  | inr (e, inr l) ↦
      ap (λ x. child x n) e
      ∙ h l
      ∙ sym (ap (propagate (child (get_contents a) n) (child (get_contents s) n)) (h l))
]

child-propagate :
    (ancestor source t : Entry) (n : Bytes)
    → (is_kind directory t ≡ false → child (get_contents t) n ≡ nil)
    → child (get_contents (propagate ancestor source t)) n
      ≡ propagate
          (child (get_contents ancestor) n)
          (child (get_contents source) n)
          (child (get_contents t) n)
unfolding propagate
child-propagate ancestor source nil n h = refl
child-propagate ancestor source (node p unset) n h =
    child-propagate_node ancestor source p unset unset n h refl
child-propagate ancestor source (node p (made xs)) n h =
    child-propagate_node ancestor source p (made xs) _ n h
      (find-propagate_items (get_contents ancestor) (get_contents source) xs n)

descend-propagate :
    (ancestor source t : Entry) (ns : List Bytes)
    → ContentsInDirectories t
    → descend (propagate ancestor source t) ns
      ≡ propagate (descend ancestor ns) (descend source ns) (descend t ns)
descend-propagate ancestor source t [] h = refl
descend-propagate ancestor source t (n ∷ ns) h =
    ap (λ e. descend e ns) (child-propagate ancestor source t n (h [] n))
    ∙ descend-propagate (child (get_contents ancestor) n) (child (get_contents source) n)
        (child (get_contents t) n) ns (λ ms. h (n ∷ ms))

kind-copy : (e : Entry) → is_kind directory (copy deep e) ≡ is_kind directory e
unfolding copy
kind-copy nil = refl
kind-copy (node p unset) = refl
kind-copy (node p (made xs)) = refl

marked-copy : (a s e : Entry) → marked_entry a s (copy deep e) ≡ marked_entry a s e
unfolding copy
marked-copy a s nil = refl
marked-copy a s (node p unset) = refl
marked-copy a s (node p (made xs)) = refl

ContentsInDirectories-copy :
    (e : Entry) → ContentsInDirectories e → ContentsInDirectories (copy deep e)
unfolding copy
ContentsInDirectories-copy e h ns n leaf =
    ap (λ x. child (get_contents x) n) (descend-copy e ns)
    ∙ child-copy (descend e ns) n
    ∙ ap (copy deep) (
        h ns n (
          sym (kind-copy (descend e ns)) ∙ ap (is_kind directory) (sym (descend-copy e ns)) ∙ leaf))

directory_kind :
    (e : Entry)
    → is_kind phantom_directory e ≡ false
    → is_kind directory e ≡ false
    → is_directory_kind e ≡ false
directory_kind e h k = rw (h, k) refl

pub ContentsInDirectories-of_valid :
    (e : Entry) → ensure_valid false e ≡ none → PhantomFree e → ContentsInDirectories e
ContentsInDirectories-of_valid e h free ns n leaf =
    child_of_leaf false (descend e ns) n (ensure_valid-descend false e ns h)
      (directory_kind (descend e ns) (free ns) leaf)

-- If the target is valid and holds no phantom directory, then what PropagateExecutability leaves
-- at an address has the fields that the target has there, but for a file's executability, which
-- the heuristics decide from what stands at this address in ancestor, source and target alone.
pub propagate_executability-marks :
    (ancestor source target : Entry) (ns : List Bytes)
    → ensure_valid false target ≡ none
    → PhantomFree target
    → props_of (descend (propagate_executability ancestor source target) ns)
      ≡ marked_entry (descend ancestor ns) (descend source ns) (descend target ns)
unfolding propagate_executability
propagate_executability-marks ancestor source target ns h free =
    ap props_of (
      descend-propagate ancestor source (copy deep target) ns
        (ContentsInDirectories-copy target (ContentsInDirectories-of_valid target h free)))
    ∙ props_of-propagate (descend ancestor ns) (descend source ns) (descend (copy deep target) ns)
    ∙ ap (marked_entry (descend ancestor ns) (descend source ns)) (descend-copy target ns)
    ∙ marked-copy (descend ancestor ns) (descend source ns) (descend target ns)
