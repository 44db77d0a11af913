-- ===== src/Entry/Tree.antt =====
-- An entry as a tree addressed by lists of names: what stands at an address, how the names of
-- maps are found, and how deep the children of a node are.
use mutagen.Base.{
  ℕ, suc, ◌≤◌, ◌<◌, Bytes, true, false, ◌||◌, none, List, [], ◌∷◌, ◌++◌, ◌≡◌, refl, ◌⊎◌, inl, inr,
  arith, ◌==◌, bytes_eq, contains, Distinct, Bool-cases,
}
use mathlib.Core.Option.{get_or}
use mutagen.Entry.{
  Props, Entry, nil, node, Contents, unset, made, Items, end, item, items_of, get_contents, find,
  child, names, add_names, name_union, is_nil,
}
use mutagen.Entry.Measure.{depth, depth_items}
use mutagen.Entry.Shallow.{Matches, Matches-symm, Matches-trans, is_nil_of_Matches}

-- The entry at an address: nil where there is none.
abbrev pub descend : Entry → List Bytes → Entry
descend e [] = e
descend e (n ∷ ns) = descend (child (get_contents e) n) ns

pub descend-nil : (ns : List Bytes) → descend nil ns ≡ nil
descend-nil [] = refl
descend-nil (n ∷ ns) = descend-nil ns

pub descend-append :
    (e : Entry) (ns ms : List Bytes) → descend e (ns ++ ms) ≡ descend (descend e ns) ms
descend-append e [] ms = refl
descend-append e (n ∷ ns) ms = descend-append (child (get_contents e) n) ns ms

-- The two entries have the same nodes, with matching properties: the order of maps is forgotten.
abbrev pub Agree : Entry → Entry → Type 0
Agree a b = (ns : List Bytes) → Matches (descend a ns) (descend b ns)

-- Every node of `b` stands in `a` too, with matching properties.
abbrev pub Covered : Entry → Entry → Type 0
Covered a b =
    (ns : List Bytes) → (is_nil (descend b ns) ≡ true) ⊎ Matches (descend a ns) (descend b ns)

pub Covered-of_Agree : (a b : Entry) → Agree a b → Covered a b
Covered-of_Agree a b h ns = inr (h ns)

pub Covered-trans : (a b c : Entry) → Covered a b → Covered b c → Covered a c
Covered-trans a b c h k ns = elim (k ns) [
  | inl n ↦ inl n
  | inr m ↦ elim (h ns) [
    | inl n ↦ inl (is_nil_of_Matches (descend c ns) (descend b ns) (Matches-symm _ _ m) n)
    | inr l ↦ inr (Matches-trans (descend a ns) (descend b ns) (descend c ns) l m)
  ]
]

find-none : (xs : Items) (n : Bytes) → contains (names xs) n ≡ false → find xs n ≡ none
find-none end n h = refl
find-none (item m e xs) n h = ground (arith, find-none xs n)

-- A name that a map does not list reads as nil.
pub child-nil :
    (c : Contents) (n : Bytes) → contains (names (items_of c)) n ≡ false → child c n ≡ nil
child-nil c n h = ground (arith, find-none (items_of c) n)

contains-add_names :
    (ns result : List Bytes) (n : Bytes)
    → contains (add_names ns result) n ≡ (contains ns n || contains result n)
contains-add_names [] result n = refl
contains-add_names (m ∷ ns) result n =
    ground (arith, contains-add_names ns result n, contains-add_names ns result m)

Distinct-add_names : (ns result : List Bytes) → Distinct result → Distinct (add_names ns result)
Distinct-add_names [] result h = h
Distinct-add_names (m ∷ ns) result h = ground (arith, Distinct-add_names ns result h)

-- `nameUnion` of two maps lists a name exactly when one of them does.
pub contains-name_union₂ :
    (c d : Contents) (n : Bytes)
    → contains (name_union (c ∷ d ∷ [])) n
      ≡ (contains (names (items_of c)) n || contains (names (items_of d)) n)
contains-name_union₂ c d n = ground (
  arith,
  contains-add_names (names (items_of c)) (name_union (d ∷ [])) n,
  contains-add_names (names (items_of d)) [] n,
)

pub contains-name_union₃ :
    (b c d : Contents) (n : Bytes)
    → contains (name_union (b ∷ c ∷ d ∷ [])) n ≡ (
        contains (names (items_of b)) n
        || (contains (names (items_of c)) n || contains (names (items_of d)) n))
contains-name_union₃ b c d n = ground (
  arith,
  contains-add_names (names (items_of b)) (name_union (c ∷ d ∷ [])) n,
  contains-name_union₂ c d n,
)

pub Distinct-name_union : (cs : List Contents) → Distinct (name_union cs)
Distinct-name_union [] = tt
Distinct-name_union (c ∷ cs) =
    Distinct-add_names (names (items_of c)) (name_union cs) (Distinct-name_union cs)

depth-find : (xs : Items) (n : Bytes) → depth (get_or (find xs n) nil) ≤ depth_items xs
unfolding depth
depth-find end n = omega arith
depth-find (item m e xs) n = elim (Bool-cases (m == n)) [
  | inl same ↦ rw same (omega arith)
  | inr differ ↦ rw differ (omega (arith, depth-find xs n))
]

-- The children of a node are less deep than the node.
pub depth-child :
    (p : Props) (c : Contents) (n : Bytes) (f : ℕ)
    → depth (node p c) < suc f
    → depth (child c n) < f
unfolding depth
depth-child p unset n f h = omega arith
depth-child p (made xs) n f h = omega (arith, depth-find xs n)
