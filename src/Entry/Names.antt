-- ===== src/Entry/Names.antt =====
-- About the content names that `EnsureValid` of pkg/synchronization/core/entry.go lets pass.
use mutagen.Base.{
  Bytes, Bool, true, none, some, List, [], ◌∷◌, ◌≡◌, refl, sym, ap, ◌∙◌, arith, ◌==◌, bytes_eq,
  nat_eq, contains, inl, inr, Bool-cases, ==→eq,
}
use mathlib.Core.Option.{get_or}
use mutagen.Path.Join.{IsName}
use mutagen.Entry.{
  Props, Entry, nil, node, unset, made, Items, end, item, items_of, get_contents, find, child,
  names,
}
use mutagen.Entry.Validity.{
  Check, ◌unless◌, check_name, check_content, check_node, check_file, check_symbolic_link,
  check_untracked, check_problematic, ensure_valid, ensure_valid_items,
}
use mutagen.Entry.Tree.{descend}

IsName-of_check : (n : Bytes) → check_name n ≡ none → IsName n
unfolding check_name
IsName-of_check [] h = absurd (ground arith)
IsName-of_check (c ∷ n) h = record { filled = refl; plain = ground arith }

pub both_none : (a b : Check) → (a unless b) ≡ none → (a ≡ none) × (b ≡ none)
both_none none b h = (refl, h)
both_none (some e) b h = cc

-- A valid node with a content map is a directory of either kind, and its contents were checked.
pub contents_valid :
    (s : Bool) (p : Props) (xs : Items) (r : Check) → check_node s p (made xs) r ≡ none → r ≡ none
unfolding check_node check_file check_symbolic_link check_untracked check_problematic
contents_valid s p xs r h = ground arith

-- At every address, every content name is a name.
abbrev pub WellNamed : Entry → Type 0
WellNamed e =
    (ns : List Bytes) (n : Bytes)
    → contains (names (items_of (get_contents (descend e ns)))) n ≡ true
    → IsName n

pub check_content_parts :
    (n : Bytes) (e : Entry) (r : Check)
    → check_content n e r ≡ none
    → (check_name n ≡ none) × (r ≡ none)
check_content_parts n nil r h = absurd (cc (both_none (check_name n) _ h).1)
check_content_parts n (node p c) r h = both_none (check_name n) r h

valid_item :
    (s : Bool) (xs : Items) (n : Bytes)
    → ensure_valid_items s xs ≡ none
    → (ensure_valid s (get_or (find xs n) nil) ≡ none)
      × (contains (names xs) n ≡ true → check_name n ≡ none)
unfolding ensure_valid
valid_item s end n h = (refl, λ m. absurd (ground arith))
valid_item s (item k e xs) n h =
    let (first, later) = both_none _ _ h in
    let (name, entry) = check_content_parts k e (ensure_valid s e) first in
    elim (Bool-cases (k == n)) [
      | inl same ↦ (rw same entry, λ m. ap check_name (sym (==→eq k n same)) ∙ name)
      | inr differ ↦
          (rw differ (valid_item s xs n later).0, λ m. (valid_item s xs n later).1 (ground arith))
    ]

-- The children of a valid entry are valid, and its content names are names.
pub ensure_valid-child :
    (s : Bool) (e : Entry) (n : Bytes)
    → ensure_valid s e ≡ none
    → (ensure_valid s (child (get_contents e) n) ≡ none)
      × (contains (names (items_of (get_contents e))) n ≡ true → IsName n)
unfolding ensure_valid
ensure_valid-child s nil n h = (refl, λ m. absurd (ground arith))
ensure_valid-child s (node p unset) n h = (refl, λ m. absurd (ground arith))
ensure_valid-child s (node p (made xs)) n h =
    let (entry, name) = valid_item s xs n (contents_valid s p xs _ h) in
    (entry, λ m. IsName-of_check n (name m))

pub ensure_valid-descend :
    (s : Bool) (e : Entry) (ns : List Bytes)
    → ensure_valid s e ≡ none
    → ensure_valid s (descend e ns) ≡ none
ensure_valid-descend s e [] h = h
ensure_valid-descend s e (n ∷ ns) h =
    ensure_valid-descend s (child (get_contents e) n) ns (ensure_valid-child s e n h).0

pub ensure_valid-WellNamed : (s : Bool) (e : Entry) → ensure_valid s e ≡ none → WellNamed e
ensure_valid-WellNamed s e h ns n =
    (ensure_valid-child s (descend e ns) n (ensure_valid-descend s e ns h)).1
