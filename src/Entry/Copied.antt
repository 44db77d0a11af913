-- ===== src/Entry/Copied.antt =====
-- About the deep `Copy` of pkg/synchronization/core/entry.go and agreement.
use mutagen.Base.{
  Bool, false, none, some, if-cases, ◌||◌, Bytes, [], ◌∷◌, ◌≡◌, refl, inl, inr, ◌==◌, bytes_eq,
  Bool-cases,
}
use mathlib.Core.Option.{get_or}
use mutagen.Entry.{
  kind_eq, Entry, nil, node, unset, made, Items, end, item, items_of, find, is_kind, directory,
  phantom_directory,
}
use mutagen.Entry.Copy.{
  CopyBehavior, deep, deep_preserving_leaves, shallow, slim, copy, copy_items, copy_child, remade,
}
use mutagen.Entry.Shallow.{Matches-node, Matches-refl, Matches-symm, Matches-trans}
use mutagen.Entry.Tree.{descend, Agree}
use mutagen.Entry.Validity.{ensure_valid, ensure_valid_items, check_name}
use mutagen.Entry.Names.{both_none, contents_valid, check_content_parts}
use mutagen.Entry.Copy.{copy_panics, items_panic, try_copy}

pub Agree-refl : (a : Entry) → Agree a a
Agree-refl a ns = Matches-refl (descend a ns)

pub Agree-symm : (a b : Entry) → Agree a b → Agree b a
Agree-symm a b h ns = Matches-symm (descend a ns) (descend b ns) (h ns)

pub Agree-trans : (a b c : Entry) → Agree a b → Agree b c → Agree a c
Agree-trans a b c h k ns = Matches-trans (descend a ns) (descend b ns) (descend c ns) (h ns) (k ns)

items_of-remade : (xs : Items) → items_of (remade xs) ≡ xs
items_of-remade end = refl
items_of-remade (item n e xs) = refl

copy_child-Agree :
    (b : CopyBehavior) (e copied : Entry) → Agree copied e → Agree (copy_child b e copied) e
copy_child-Agree deep e copied h = h
copy_child-Agree slim e copied h = h
copy_child-Agree shallow e copied h = h
copy_child-Agree deep_preserving_leaves e copied h =
    elim (Bool-cases (is_kind directory e || is_kind phantom_directory e)) [
      | inl d ↦ rw d h
      | inr l ↦ rw l (Agree-refl e)
    ]

-- The two behaviours that copy the content maps of directories.
abbrev pub IsDeep : CopyBehavior → Type 0
IsDeep deep = Unit
IsDeep deep_preserving_leaves = Unit
IsDeep _ = ⊥

mutual
  unfolding copy

  copy-Agree_at : (b : CopyBehavior) (e : Entry) → IsDeep b → Agree (copy b e) e
  copy-Agree_at b nil h ns = Matches-refl (descend nil ns)
  copy-Agree_at b (node p unset) h ns = Matches-refl (descend (node p unset) ns)
  copy-Agree_at deep (node p (made xs)) h [] = Matches-node p _ _
  copy-Agree_at deep (node p (made xs)) h (n ∷ ns) =
      rw (items_of-remade (copy_items deep xs)) (copy_items-Agree deep xs n h ns)
  copy-Agree_at deep_preserving_leaves (node p (made xs)) h [] = Matches-node p _ _
  copy-Agree_at deep_preserving_leaves (node p (made xs)) h (n ∷ ns) =
      rw (items_of-remade (copy_items deep_preserving_leaves xs))
        (copy_items-Agree deep_preserving_leaves xs n h ns)
  copy-Agree_at _ (node p (made xs)) h ns = elim h [ ]

  copy_items-Agree :
      (b : CopyBehavior) (xs : Items) (n : Bytes)
      → IsDeep b
      → Agree (get_or (find (copy_items b xs) n) nil) (get_or (find xs n) nil)
  copy_items-Agree b end n h = Agree-refl nil
  copy_items-Agree b (item m e xs) n h = elim (Bool-cases (m == n)) [
    | inl same ↦ rw same (copy_child-Agree b e (copy b e) (copy-Agree_at b e h))
    | inr differ ↦ rw differ (copy_items-Agree b xs n h)
  ]

pub copy-Agree : (b : CopyBehavior) (e : Entry) → IsDeep b → Agree (copy b e) e
copy-Agree b e h = copy-Agree_at b e h

-- A valid content map holds no nil entry, and neither does any below it.
mutual
  unfolding copy_panics ensure_valid

  copy_panics-valid : (s : Bool) (e : Entry) → ensure_valid s e ≡ none → copy_panics e ≡ false
  copy_panics-valid s nil h = refl
  copy_panics-valid s (node p unset) h = refl
  copy_panics-valid s (node p (made xs)) h = items_panic-valid s xs (contents_valid s p xs _ h)

  items_panic-valid :
      (s : Bool) (xs : Items) → ensure_valid_items s xs ≡ none → items_panic xs ≡ false
  items_panic-valid s end h = refl
  items_panic-valid s (item n nil xs) h =
      absurd (cc (both_none (check_name n) _ (both_none _ _ h).0).1)
  items_panic-valid s (item n (node p c) xs) h =
      let (first, later) = both_none _ _ h in
      let below : copy_panics (node p c) ≡ false =
        copy_panics-valid s (node p c)
          (check_content_parts n (node p c) (ensure_valid s (node p c)) first).1 in
      let rest = items_panic-valid s xs later in
      if-cases (λ b. b ≡ false) (p.kind == directory || p.kind == phantom_directory) _ _
        (λ d. rw (below, rest) refl) (λ l. rest)

-- For a valid entry, `Copy` with either deep behaviour does not panic, and it gives an entry that
-- agrees with the original at every address.
pub try_copy-Agree :
    (s : Bool) (b : CopyBehavior) (e : Entry)
    → IsDeep b
    → ensure_valid s e ≡ none
    → (r : Entry) × (try_copy b e ≡ some r) × Agree r e
try_copy-Agree s deep e h v = (copy deep e, refl, copy-Agree deep e h)
try_copy-Agree s deep_preserving_leaves e h v = (
  copy deep_preserving_leaves e,
  rw (copy_panics-valid s e v) refl,
  copy-Agree deep_preserving_leaves e h,
)
try_copy-Agree s _ e h v = elim h [ ]
