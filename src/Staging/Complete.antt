-- ===== src/Staging/Complete.antt =====
-- About pkg/synchronization/core/stage.go: the files of the new entries among the dependencies.
use mutagen.Base.{
  Bytes, true, false, ◌⊎◌, inl, inr, Option, none, List, [], ◌∷◌, ◌++◌, map, append-nil,
  append_assoc, ◌≡◌, refl, sym, ap, ◌∙◌, arith, ◌==◌, Bool-cases, bytes_eq, ==→eq, if◌then◌else◌,
}
use mathlib.Core.Option.{get_or}
use mathlib.Core.Path.{subst}
use mutagen.Path.{joinable}
use mutagen.Path.Join.{path_at}
use mutagen.Entry.{
  Props, directory, file, kind_eq, Entry, nil, node, unset, made, Items, end, item, is_kind, find,
}
use mutagen.Entry.Tree.{descend, descend-nil}
use mutagen.Change.{Change}
use mutagen.Executability.{digest_of}
use mutagen.Entry.Validity.{ensure_valid}
use mutagen.Phantom.Free.{PhantomFree}
use mutagen.Executability.Pointwise.{ContentsInDirectories, ContentsInDirectories-of_valid}
use mutagen.Staging.{
  StagingPathFinder, content_path_prefix, find_node, find_files, find_in_contents, same_contents,
  find_all, transition_dependencies,
}

-- A file to stage: its path and its digest.
abbrev Staged : Type 0
Staged = Bytes × Option Bytes

abbrev pub In : {A : Type 0} → A → List A → Type 0
In a [] = ⊥
In a (x ∷ xs) = (x ≡ a) ⊎ In a xs

In-append₁ : {A : Type 0} (a : A) (xs ys : List A) → In a xs → In a (xs ++ ys)
In-append₁ a [] ys h = absurd h
In-append₁ a (x ∷ xs) ys (inl e) = inl e
In-append₁ a (x ∷ xs) ys (inr h) = inr (In-append₁ a xs ys h)

In-append₂ : {A : Type 0} (a : A) (xs ys : List A) → In a ys → In a (xs ++ ys)
In-append₂ a [] ys h = h
In-append₂ a (x ∷ xs) ys h = inr (In-append₂ a xs ys h)

abbrev files_node : Bytes → Props → List Staged → List Staged
files_node path p inside =
    if p.kind == directory then inside else if p.kind == file then (path, p.digest) ∷ [] else []

-- The files of an entry, in the order of the traversal.
unfoldable mutual
  files : Bytes → Entry → List Staged
  files path nil = []
  files path (node p unset) = files_node path p []
  files path (node p (made xs)) = files_node path p (files_in (joinable path) xs)

  files_in : Bytes → Items → List Staged
  files_in prefix end = []
  files_in prefix (item n e xs) = files (prefix ++ n) e ++ files_in prefix xs

abbrev added : StagingPathFinder → List Staged → StagingPathFinder
added f new = record {
  paths = f.paths ++ map (λ s. s.0) new;
  digests = f.digests ++ map (λ s. s.1) new;
}

map-append {ℓ κ} :
    {A : Type ℓ} {B : Type κ} (g : A → B) (xs ys : List A) → map g (xs ++ ys) ≡ map g xs ++ map g ys
map-append g [] ys = refl
map-append g (x ∷ xs) ys = ap (λ zs. g x ∷ zs) (map-append g xs ys)

added-nil : (f : StagingPathFinder) → added f [] ≡ f
added-nil f = rw (append-nil f.paths, append-nil f.digests) refl

added-append :
    (f : StagingPathFinder) (xs ys : List Staged) → added (added f xs) ys ≡ added f (xs ++ ys)
added-append f xs ys =
    rw
      (
        map-append (λ s. s.0) xs ys,
        map-append (λ s. s.1) xs ys,
        append_assoc f.paths (map (λ s. s.0) xs) (map (λ s. s.0) ys),
        append_assoc f.digests (map (λ s. s.1) xs) (map (λ s. s.1) ys),
      )
      refl

find_node-added :
    (path : Bytes) (p : Props) (f inside : StagingPathFinder) (new : List Staged)
    → inside ≡ added f new
    → find_node path p inside f ≡ added f (files_node path p new)
find_node-added path p f inside new h = elim (Bool-cases (p.kind == directory)) [
  | inl d ↦ rw d h
  | inr l ↦ elim (Bool-cases (p.kind == file)) [
    | inl y ↦ rw (l, y) refl
    | inr n ↦ rw (l, n) (sym (added-nil f))
  ]
]

prefix-item :
    (path n : Bytes) (e : Entry) (xs : Items)
    → content_path_prefix path (item n e xs) ≡ joinable path
prefix-item path n e xs = ground arith

mutual
  unfolding find_files files

  find_files-added :
      (path : Bytes) (e : Entry) (f : StagingPathFinder)
      → find_files path e f ≡ added f (files path e)
  find_files-added path nil f = sym (added-nil f)
  find_files-added path (node p unset) f = find_node-added path p f f [] (sym (added-nil f))
  find_files-added path (node p (made end)) f = find_node-added path p f f [] (sym (added-nil f))
  find_files-added path (node p (made (item n e xs))) f =
      find_node-added path p f _ (files_in (joinable path) (item n e xs)) (
        ap (λ prefix. find_in_contents prefix (item n e xs) f) (prefix-item path n e xs)
        ∙ find_in_contents-added (joinable path) (item n e xs) f)

  find_in_contents-added :
      (prefix : Bytes) (xs : Items) (f : StagingPathFinder)
      → find_in_contents prefix xs f ≡ added f (files_in prefix xs)
  find_in_contents-added prefix end f = sym (added-nil f)
  find_in_contents-added prefix (item n e xs) f =
      find_in_contents-added prefix xs (find_files (prefix ++ n) e f)
      ∙ ap (λ g. added g (files_in prefix xs)) (find_files-added (prefix ++ n) e f)
      ∙ added-append f (files (prefix ++ n) e) (files_in prefix xs)

file_not_directory : (p : Props) → (p.kind == file) ≡ true → (p.kind == directory) ≡ false
file_not_directory p h = ground arith

nothing_at : (ns : List Bytes) → is_kind file (descend nil ns) ≡ true → ⊥
nothing_at ns h = cc (ap (is_kind file) (descend-nil ns), h)

-- The file at an address, with the path that the address has.
abbrev staged_at : Bytes → Entry → List Bytes → Staged
staged_at path e ns = (path_at path ns, digest_of (descend e ns))

abbrev IsFile : Entry → List Bytes → Type 0
IsFile e ns = is_kind file (descend e ns) ≡ true

found_here :
    (m n : Bytes) (e : Entry) (xs : Items) → (m == n) ≡ true → get_or (find (item m e xs) n) nil ≡ e
found_here m n e xs h = rw h refl

found_later :
    (m n : Bytes) (e : Entry) (xs : Items)
    → (m == n) ≡ false
    → get_or (find (item m e xs) n) nil ≡ get_or (find xs n) nil
found_later m n e xs h = rw h refl

mutual
  unfolding files

  In-files :
      (path : Bytes) (e : Entry) (ns : List Bytes)
      → ContentsInDirectories e
      → IsFile e ns
      → In (staged_at path e ns) (files path e)
  In-files path nil ns h k = absurd (nothing_at ns k)
  In-files path (node p unset) [] h k = rw (k, file_not_directory p k) (inl refl)
  In-files path (node p unset) (n ∷ ns) h k = absurd (nothing_at ns k)
  In-files path (node p (made xs)) [] h k = rw (k, file_not_directory p k) (inl refl)
  In-files path (node p (made xs)) (n ∷ ns) h k = elim (Bool-cases (p.kind == directory)) [
    | inl d ↦ rw d (In-files_in (joinable path) xs n ns (λ ms. h (n ∷ ms)) k)
    | inr l ↦ absurd (nothing_at ns (subst (λ e. IsFile e ns) (h [] n l) k))
  ]

  In-files_in :
      (prefix : Bytes) (xs : Items) (n : Bytes) (ns : List Bytes)
      → ContentsInDirectories (get_or (find xs n) nil)
      → IsFile (get_or (find xs n) nil) ns
      → In (staged_at (prefix ++ n) (get_or (find xs n) nil) ns) (files_in prefix xs)
  In-files_in prefix end n ns h k = absurd (nothing_at ns k)
  In-files_in prefix (item m e xs) n ns h k = elim (Bool-cases (m == n)) [
    | inl same ↦
        subst
          (λ x.
            ContentsInDirectories x
            → IsFile x ns
            → In (staged_at (prefix ++ n) x ns) (files_in prefix (item m e xs)))
          (sym (found_here m n e xs same))
          (λ h' k'. In-append₁ _ (files (prefix ++ m) e) _ (
            subst (λ j. In (staged_at (prefix ++ n) e ns) (files (prefix ++ j) e))
              (sym (==→eq m n same)) (In-files (prefix ++ n) e ns h' k')))
          h k
    | inr differ ↦
        subst
          (λ x.
            ContentsInDirectories x
            → IsFile x ns
            → In (staged_at (prefix ++ n) x ns) (files_in prefix (item m e xs)))
          (sym (found_later m n e xs differ))
          (λ h' k'. In-append₂ _ (files (prefix ++ m) e) _ (In-files_in prefix xs n ns h' k')) h k
  ]

-- The files of the transitions, in order.
needed : List Change → List Staged
needed [] = []
needed (t ∷ ts) = if same_contents t then needed ts else files t.path t.new ++ needed ts

find_all-added : (ts : List Change) (f : StagingPathFinder) → find_all ts f ≡ added f (needed ts)
unfolding find_all needed
find_all-added [] f = sym (added-nil f)
find_all-added (t ∷ ts) f = elim (Bool-cases (same_contents t)) [
  | inl s ↦ rw s (find_all-added ts f)
  | inr d ↦ rw d (
      find_all-added ts (find_files t.path t.new f)
      ∙ ap (λ g. added g (needed ts)) (find_files-added t.path t.new f)
      ∙ added-append f (files t.path t.new) (needed ts))
]

In-needed :
    (ts : List Change) (t : Change) (s : Staged)
    → In t ts
    → same_contents t ≡ false
    → In s (files t.path t.new)
    → In s (needed ts)
unfolding needed
In-needed [] t s h d k = absurd h
In-needed (u ∷ ts) t s h d k = elim h [
  | inl e ↦ rw (ap same_contents e ∙ d) (
      In-append₁ s (files u.path u.new) (needed ts)
        (subst (λ v. In s (files v.path v.new)) (sym e) k))
  | inr later ↦ elim (Bool-cases (same_contents u)) [
    | inl y ↦ rw y (In-needed ts t s later d k)
    | inr n ↦ rw n (In-append₂ s (files u.path u.new) (needed ts) (In-needed ts t s later d k))
  ]
]

-- The paths and the digests that TransitionDependencies returns are the two halves of one list of
-- staged files. For each transition that does not only change executability, and whose new entry
-- is valid and holds no phantom directory, this list holds every file of the new entry: the path
-- of its address below the transition's path, and its digest.
pub transition_dependencies_complete :
    (ts : List Change) (t : Change) (ns : List Bytes)
    → In t ts
    → same_contents t ≡ false
    → ensure_valid false t.new ≡ none
    → PhantomFree t.new
    → is_kind file (descend t.new ns) ≡ true
    → (staged : List Staged) × ((transition_dependencies ts).paths ≡ map (λ s. s.0) staged)
      × ((transition_dependencies ts).digests ≡ map (λ s. s.1) staged)
      × In (path_at t.path ns, digest_of (descend t.new ns)) staged
unfolding transition_dependencies
transition_dependencies_complete ts t ns listed differ h free f =
    let all = find_all-added ts (record { paths = []; digests = [] }) in
    (
      needed ts,
      ap (λ g. g.paths) all,
      ap (λ g. g.digests) all,
      In-needed ts t _ listed differ
          (In-files t.path t.new ns (ContentsInDirectories-of_valid t.new h free) f),
    )
