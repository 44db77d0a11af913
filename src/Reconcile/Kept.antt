-- ===== src/Reconcile/Kept.antt =====
-- About `extractNonDeletionChanges` of pkg/synchronization/core/reconcile.go on a diff.
use mutagen.Base.{
  ℕ, zero, suc, ◌<◌, Bytes, true, false, List, [], ◌∷◌, ◌++◌, ◌≡◌, refl, sym, ap, ◌∙◌, ◌⊎◌, inl,
  inr, arith, bytes_eq, contains, flat_map, nil_of_flat_map, Bool-cases,
}
use mutagen.Path.{joinable}
use mutagen.Entry.{Entry, get_contents, child, name_union, is_nil}
use mutagen.Entry.Compare.{equal}
use mutagen.Entry.Measure.{depth}
use mutagen.Entry.Shallow.{Matches, Matches-symm, eq_nil_of_is_nil}
use mutagen.Entry.Tree.{descend, descend-nil, Covered}
use mutagen.Change.{Change, diff_from, diff}
use mutagen.Change.Diff.{diff_from-of_Matches, diff_from-of_differ, depth-listed, at_child}
use mutagen.Reconcile.{extract_non_deletion_changes}

extract-append :
    (xs ys : List Change)
    → extract_non_deletion_changes (xs ++ ys)
      ≡ extract_non_deletion_changes xs ++ extract_non_deletion_changes ys
unfolding extract_non_deletion_changes
extract-append [] ys = refl
extract-append (x ∷ xs) ys = ground (arith, extract-append xs ys)

extract-flat_map :
    (f : Bytes → List Change) (ns : List Bytes)
    → extract_non_deletion_changes (flat_map f ns)
      ≡ flat_map (λ n. extract_non_deletion_changes (f n)) ns
unfolding extract_non_deletion_changes
extract-flat_map f [] = refl
extract-flat_map f (n ∷ ns) =
    extract-append (f n) (flat_map f ns)
    ∙ ap (λ r. extract_non_deletion_changes (f n) ++ r) (extract-flat_map f ns)

nil_of_extract : (c : Change) → extract_non_deletion_changes (c ∷ []) ≡ [] → is_nil c.new ≡ true
unfolding extract_non_deletion_changes
nil_of_extract c h = ground arith

-- A change that replaces a whole entry and is no creation: the new entry is nil.
Covered-of_replaced :
    (f : ℕ) (path : Bytes) (a b : Entry)
    → equal b a false ≡ false
    → extract_non_deletion_changes (diff_from (suc f) path a b) ≡ []
    → Covered a b
Covered-of_replaced f path a b differ h ns = inl (rw (eq_nil_of_is_nil b gone, descend-nil))
  where
    gone : is_nil b ≡ true
    gone =
        nil_of_extract (record { path = path; old = a; new = b })
          (ap extract_non_deletion_changes (sym (diff_from-of_differ f path a b differ)) ∙ h)

-- Nothing is extracted from the changes below a listed child either.
extract-child :
    (f : ℕ) (path : Bytes) (a b : Entry) (n : Bytes)
    → Matches b a
    → contains (name_union (get_contents a ∷ get_contents b ∷ [])) n ≡ true
    → extract_non_deletion_changes (diff_from (suc f) path a b) ≡ []
    → extract_non_deletion_changes
        (diff_from f (joinable path ++ n) (child (get_contents a) n) (child (get_contents b) n))
      ≡ []
extract-child f path a b n same listed h =
    nil_of_flat_map
      (λ n.
        extract_non_deletion_changes
          (diff_from f (joinable path ++ n) (child (get_contents a) n) (child (get_contents b) n)))
      (name_union (get_contents a ∷ get_contents b ∷ [])) n
      (sym (extract-flat_map _ (name_union (get_contents a ∷ get_contents b ∷ [])))
        ∙ ap extract_non_deletion_changes (sym (diff_from-of_Matches f path a b same))
        ∙ h)
      listed

Covered-of_extract_from :
    (f : ℕ) (path : Bytes) (a b : Entry)
    → depth b < f
    → extract_non_deletion_changes (diff_from f path a b) ≡ []
    → Covered a b
Covered-of_extract_from zero path a b d h ns = absurd (omega arith)
Covered-of_extract_from (suc f) path a b d h [] = elim (Bool-cases (equal b a false)) [
  | inr differ ↦ Covered-of_replaced f path a b differ h []
  | inl same ↦ inr (Matches-symm b a same)
]
Covered-of_extract_from (suc f) path a b d h (n ∷ ns) = elim (Bool-cases (equal b a false)) [
  | inr differ ↦ Covered-of_replaced f path a b differ h (n ∷ ns)
  | inl same ↦
      at_child (λ x y. (is_nil (descend y ns) ≡ true) ⊎ Matches (descend x ns) (descend y ns))
        (inl (rw descend-nil)) a b n
        (λ listed.
          Covered-of_extract_from f (joinable path ++ n) (child (get_contents a) n)
            (child (get_contents b) n) (depth-listed a b n f same listed d)
            (extract-child f path a b n same listed h) ns)
]

-- If a diff holds deletions alone, every node of the target stands in the base, with matching
-- properties.
pub Covered-of_extract :
    (path : Bytes) (a b : Entry) → extract_non_deletion_changes (diff path a b) ≡ [] → Covered a b
unfolding diff
Covered-of_extract path a b h = Covered-of_extract_from (suc (depth b)) path a b (omega arith) h
