-- ===== src/Phantom/Free.antt =====
-- About pkg/synchronization/core/phantom.go: the kinds that reification leaves at each address.
use mutagen.Base.{
  ℕ, zero, suc, ◌<◌, ◌⊎◌, some, Bytes, Bool, true, false, ◌&&◌, not, none, List, [], ◌∷◌, map, ◌≡◌,
  ◌≢◌, ◌++◌, refl, sym, ap, ◌∙◌, arith, ◌==◌, bytes_eq, contains, inl, inr, Bool-cases,
  if◌then◌else◌, max,
}
use mathlib.Core.Option.{get_or}
use mutagen.Entry.{
  Kind-discrete, Props, directory, untracked, phantom_directory, kind_eq, Entry, nil, node,
  Contents, unset, made, Items, end, item, items_of, get_contents, find, child, names, name_union,
  is_kind, is_nil,
}
use mutagen.Entry.Measure.{depth}
use mutagen.Entry.Compare.{equal, properties_match}
use mutagen.Entry.Copy.{copy, deep_preserving_leaves}
use mutagen.Entry.Copied.{copy-Agree}
use mutagen.Entry.Names.{ensure_valid-descend}
use mutagen.Entry.Shallow.{Matches, is_nil_of_Matches, eq_nil_of_is_nil}
use mutagen.Entry.Validity.{
  Check, check_node, check_file, check_symbolic_link, check_untracked, check_problematic,
  ensure_valid,
}
use mutagen.Entry.Tree.{
  Agree, descend, descend-append, descend-nil, contains-name_union₂, depth-child,
}
use mutagen.Phantom.{
  Reified, Children, is_directory_kind, left_by, update_items, update_contents, reify_side, reify,
  reify_phantom_directories, with_kind,
}

-- At no address stands a phantom directory.
abbrev pub PhantomFree : Entry → Type 0
PhantomFree e = (ns : List Bytes) → is_kind phantom_directory (descend e ns) ≡ false

-- Only directories of both kinds have contents, at every address.
abbrev pub LeavesAreEmpty : Entry → Type 0
LeavesAreEmpty e =
    (ns : List Bytes) (n : Bytes)
    → is_directory_kind (descend e ns) ≡ false
    → child (get_contents (descend e ns)) n ≡ nil

directory-ne-phantom : (directory == phantom_directory) ≡ false
unfolding Kind-discrete
directory-ne-phantom = refl

untracked-ne-phantom : (untracked == phantom_directory) ≡ false
unfolding Kind-discrete
untracked-ne-phantom = refl

PhantomFree-nil : PhantomFree nil
PhantomFree-nil ns = rw descend-nil

PhantomFree-leaf : (e : Entry) → LeavesAreEmpty e → is_directory_kind e ≡ false → PhantomFree e
PhantomFree-leaf e h leaf [] = ground arith
PhantomFree-leaf e h leaf (n ∷ ns) = rw (h [] n leaf) (PhantomFree-nil ns)

left_by-map :
    (f : Reified → Entry) (g : Bytes → Reified) (ns : List Bytes) (n : Bytes) (e : Entry)
    → contains ns n ≡ true
    → left_by f (map (λ m. (m, g m)) ns) n e ≡ f (g n)
left_by-map f g [] n e h = absurd (ground arith)
left_by-map f g (m ∷ ns) n e h = ground (arith, left_by-map f g ns n e)

find-update_items :
    (f : Reified → Entry) (rs : Children) (xs : Items) (n : Bytes)
    → find (update_items f rs xs) n
      ≡ (if contains (names xs) n then some (left_by f rs n (get_or (find xs n) nil)) else none)
find-update_items f rs end n = refl
find-update_items f rs (item m e xs) n = ground (arith, find-update_items f rs xs n)

child-update_contents :
    (f : Reified → Entry) (g : Bytes → Reified) (ns : List Bytes) (c : Contents) (n : Bytes)
    → ((m : Bytes) → contains (names (items_of c)) m ≡ true → contains ns m ≡ true)
    → (child (update_contents f (map (λ m. (m, g m)) ns) c) n ≡ nil)
      ⊎ ((contains ns n ≡ true)
          × (child (update_contents f (map (λ m. (m, g m)) ns) c) n ≡ f (g n)))
child-update_contents f g ns unset n h = inl refl
child-update_contents f g ns (made xs) n h = elim (Bool-cases (contains (names xs) n)) [
  | inr absent ↦ inl (rw find-update_items (rw absent))
  | inl listed ↦
      inr (h n listed, rw find-update_items (rw listed (left_by-map f g ns n _ (h n listed))))
]

-- One side of a level, after the children were reified.
reify_side-PhantomFree :
    (f : Reified → Entry) (g : Bytes → Reified) (ns : List Bytes) (t : Bool) (e : Entry)
    → ((m : Bytes) → contains (names (items_of (get_contents e))) m ≡ true → contains ns m ≡ true)
    → ((m : Bytes) → contains ns m ≡ true → PhantomFree (f (g m)))
    → PhantomFree (reify_side t (update_contents f (map (λ m. (m, g m)) ns) (get_contents e)) e)
reify_side-PhantomFree f g ns t nil listed ih = PhantomFree-nil
reify_side-PhantomFree f g ns t (node p c) listed ih =
    elim (Bool-cases (is_directory_kind (node p c))) [
      | inr leaf ↦ rw leaf (unchanged leaf)
      | inl dir ↦ rw dir (λ ks. side t (p.kind == phantom_directory) refl ks)
    ]
  where
    below :
        (n : Bytes) (ks : List Bytes)
        → is_kind phantom_directory
            (descend (child (update_contents f (map (λ m. (m, g m)) ns) c) n) ks)
          ≡ false
    below n ks = elim (child-update_contents f g ns c n listed) [
      | inl gone ↦ rw gone (PhantomFree-nil ks)
      | inr kept ↦ rw kept.1 (ih n kept.0 ks)
    ]

    unchanged :
        is_directory_kind (node p c) ≡ false
        → PhantomFree (node p (update_contents f (map (λ m. (m, g m)) ns) c))
    unchanged leaf [] = ground arith
    unchanged leaf (n ∷ ks) = below n ks

    side :
        (t b : Bool)
        → b ≡ (p.kind == phantom_directory)
        → (ks : List Bytes)
        → is_kind phantom_directory (
            descend
              (if t
                then node (with_kind directory p) (update_contents f (map (λ m. (m, g m)) ns) c)
                else if b
                then node (with_kind untracked p) unset
                else node p (update_contents f (map (λ m. (m, g m)) ns) c))
              ks)
          ≡ false
    side true b e [] = directory-ne-phantom
    side true b e (n ∷ ks) = below n ks
    side false true e [] = untracked-ne-phantom
    side false true e (n ∷ ks) = PhantomFree-nil ks
    side false false e [] = sym e
    side false false e (n ∷ ks) = below n ks

depth_pos : (e : Entry) → is_directory_kind e ≡ true → 0 < depth e
unfolding depth
depth_pos nil h = absurd (ground arith)
depth_pos (node p unset) h = omega arith
depth_pos (node p (made xs)) h = omega arith

depth_below :
    (e : Entry) (n : Bytes) (f : ℕ) → depth e < suc f → 0 < f → depth (child (get_contents e) n) < f
unfolding depth
depth_below nil n f h k = k
depth_below (node p c) n f h k = depth-child p c n f h

-- Fuel for both sides, and no contents but in directories.
abbrev Fits : ℕ → Entry → Type 0
Fits f e = (depth e < f) × LeavesAreEmpty e

reify-PhantomFree :
    (f : ℕ) (ancestor alpha beta : Entry)
    → Fits f alpha
    → Fits f beta
    → PhantomFree (reify f ancestor alpha beta).alpha
      × PhantomFree (reify f ancestor alpha beta).beta
unfolding reify
reify-PhantomFree zero ancestor alpha beta h k = absurd (omega arith)
reify-PhantomFree (suc f) ancestor alpha beta h k =
    elim (Bool-cases (not (is_directory_kind alpha) && not (is_directory_kind beta))) [
      | inl leaves ↦
          rw leaves
            (PhantomFree-leaf alpha h.1 (ground arith), PhantomFree-leaf beta k.1 (ground arith))
      | inr dirs ↦ rw dirs (
        reify_side-PhantomFree (λ r. r.alpha) _
            (name_union (get_contents alpha ∷ get_contents beta ∷ [])) _ alpha
            (λ m listed.
              ground (arith, contains-name_union₂ (get_contents alpha) (get_contents beta) m))
            (λ m listed. (inside (reify-PhantomFree f) (positive dirs) m).0),
        reify_side-PhantomFree (λ r. r.beta) _
            (name_union (get_contents alpha ∷ get_contents beta ∷ [])) _ beta
            (λ m listed.
              ground (arith, contains-name_union₂ (get_contents alpha) (get_contents beta) m))
            (λ m listed. (inside (reify-PhantomFree f) (positive dirs) m).1),
      )
    ]
  where
    positive : (not (is_directory_kind alpha) && not (is_directory_kind beta)) ≡ false → 0 < f
    positive d = elim (Bool-cases (is_directory_kind alpha)) [
      | inl a ↦ omega (arith, depth_pos alpha a, h.0)
      | inr a ↦ omega (arith, depth_pos beta (ground arith), k.0)
    ]

    inside :
        ((ancestor alpha beta : Entry)
          → Fits f alpha
          → Fits f beta
          → PhantomFree (reify f ancestor alpha beta).alpha
            × PhantomFree (reify f ancestor alpha beta).beta)
        → 0 < f
        → (m : Bytes)
        → PhantomFree
            (reify f
              (child (get_contents ancestor) m)
              (child (get_contents alpha) m)
              (child (get_contents beta) m)).alpha
          × PhantomFree
              (reify f
                (child (get_contents ancestor) m)
                (child (get_contents alpha) m)
                (child (get_contents beta) m)).beta
    inside ih pos m =
        ih (child (get_contents ancestor) m) (child (get_contents alpha) m)
          (child (get_contents beta) m) (depth_below alpha m f h.0 pos, λ ns n. h.1 (m ∷ ns) n)
          (depth_below beta m f k.0 pos, λ ns n. k.1 (m ∷ ns) n)

no_contents :
    (s : Bool) (p : Props) (xs : Items) (r : Check)
    → is_directory_kind (node p (made xs)) ≡ false
    → check_node s p (made xs) r ≢ none
unfolding check_node check_file check_symbolic_link check_untracked check_problematic Kind-discrete
no_contents s p xs r leaf h = ground arith

pub child_of_leaf :
    (s : Bool) (e : Entry) (n : Bytes)
    → ensure_valid s e ≡ none
    → is_directory_kind e ≡ false
    → child (get_contents e) n ≡ nil
unfolding ensure_valid
child_of_leaf s nil n h leaf = refl
child_of_leaf s (node p unset) n h leaf = refl
child_of_leaf s (node p (made xs)) n h leaf = absurd (no_contents s p xs _ leaf h)

kind_of_Matches : (a b : Entry) → Matches a b → is_directory_kind a ≡ is_directory_kind b
unfolding equal properties_match
kind_of_Matches nil nil h = refl
kind_of_Matches nil (node q d) h = absurd (ground arith)
kind_of_Matches (node p c) nil h = absurd (ground arith)
kind_of_Matches (node p c) (node q d) h = ground arith

-- A copy of a valid entry has no contents but in directories.
copy-LeavesAreEmpty :
    (s : Bool) (e : Entry)
    → ensure_valid s e ≡ none
    → LeavesAreEmpty (copy deep_preserving_leaves e)
copy-LeavesAreEmpty s e h ns n leaf =
    sym (descend-append (copy deep_preserving_leaves e) ns (n ∷ []))
    ∙ eq_nil_of_is_nil _ (
        is_nil_of_Matches _ _ (same (ns ++ (n ∷ [])))
          (ap is_nil (descend-append e ns (n ∷ []) ∙ gone)))
  where
    same : Agree (copy deep_preserving_leaves e) e
    same = copy-Agree deep_preserving_leaves e tt

    gone : child (get_contents (descend e ns)) n ≡ nil
    gone =
        child_of_leaf s (descend e ns) n (ensure_valid-descend s e ns h)
          (sym (kind_of_Matches _ _ (same ns)) ∙ leaf)

-- After `ReifyPhantomDirectories` neither side holds a phantom directory at any address, if both
-- were valid.
pub reify_phantom_directories-PhantomFree :
    (ancestor alpha beta : Entry)
    → ensure_valid false alpha ≡ none
    → ensure_valid false beta ≡ none
    → PhantomFree (reify_phantom_directories ancestor alpha beta).alpha
      × PhantomFree (reify_phantom_directories ancestor alpha beta).beta
unfolding reify_phantom_directories
reify_phantom_directories-PhantomFree ancestor alpha beta h k =
    let α = copy deep_preserving_leaves alpha in
    let β = copy deep_preserving_leaves beta in
    reify-PhantomFree (suc (max (depth α) (depth β))) ancestor α β
      (omega arith, copy-LeavesAreEmpty false alpha h)
      (omega arith, copy-LeavesAreEmpty false beta k)
