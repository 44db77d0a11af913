-- ===== src/Change/Diff.antt =====
-- About `Diff` of pkg/synchronization/core/diff.go and agreement.
use mutagen.Base.{
  ℕ, zero, suc, ◌<◌, Bytes, true, false, List, [], ◌∷◌, ◌++◌, ◌≡◌, sym, ◌∙◌, ◌↔◌, inl, inr, arith,
  bytes_eq, contains, flat_map, flat_map-eq-nil, nil_of_flat_map, Bool-cases,
}
use mathlib.Core.Path.{subst₂}
use mutagen.Path.{joinable}
use mutagen.Entry.{Entry, nil, node, Contents, get_contents, child, name_union}
use mutagen.Entry.Compare.{equal}
use mutagen.Entry.Measure.{depth}
use mutagen.Entry.Shallow.{Matches, Matches-refl, Matches-symm}
use mutagen.Entry.Tree.{descend, Agree, child-nil, contains-name_union₂, depth-child}
use mutagen.Change.{Change, diff_from, diff}

-- The changes inside of a node whose properties match.
abbrev pub diff_inside : ℕ → Bytes → Entry → Entry → List Change
diff_inside fuel path base target =
    flat_map
      (λ name.
        diff_from fuel (joinable path ++ name) (child (get_contents base) name)
          (child (get_contents target) name))
      (name_union (get_contents base ∷ get_contents target ∷ []))

pub diff_from-of_Matches :
    (fuel : ℕ) (path : Bytes) (base target : Entry)
    → Matches target base
    → diff_from (suc fuel) path base target ≡ diff_inside fuel path base target
unfolding diff_from
diff_from-of_Matches fuel path base target h = rw h

pub diff_from-of_differ :
    (fuel : ℕ) (path : Bytes) (base target : Entry)
    → equal target base false ≡ false
    → diff_from (suc fuel) path base target ≡ record { path = path; old = base; new = target } ∷ []
unfolding diff_from
diff_from-of_differ fuel path base target h = rw h

-- A child that either map lists is less deep than the fuel that is left.
pub depth-listed :
    (base target : Entry) (n : Bytes) (f : ℕ)
    → Matches target base
    → contains (name_union (get_contents base ∷ get_contents target ∷ [])) n ≡ true
    → depth target < suc f
    → depth (child (get_contents target) n) < f
unfolding equal
depth-listed base (node p c) n f h m d = depth-child p c n f d
depth-listed nil nil n f h m d = absurd (ground arith)
depth-listed (node q x) nil n f h m d = absurd (ground arith)

-- Names that neither map lists.
pub both-nil :
    (c d : Contents) (n : Bytes)
    → contains (name_union (c ∷ d ∷ [])) n ≡ false
    → (child c n ≡ nil) × (child d n ≡ nil)
both-nil c d n h = (
  child-nil c n (ground (arith, contains-name_union₂ c d n)),
  child-nil d n (ground (arith, contains-name_union₂ c d n)),
)

-- What holds of two nils and of the listed children holds of the children of every name.
pub at_child :
    (R : Entry → Entry → Type 0)
    → R nil nil
    → (a b : Entry) (n : Bytes)
    → (contains (name_union (get_contents a ∷ get_contents b ∷ [])) n ≡ true
        → R (child (get_contents a) n) (child (get_contents b) n))
    → R (child (get_contents a) n) (child (get_contents b) n)
at_child R base a b n h =
    elim (Bool-cases (contains (name_union (get_contents a ∷ get_contents b ∷ [])) n)) [
      | inl listed ↦ h listed
      | inr absent ↦
          let (l, r) = both-nil (get_contents a) (get_contents b) n absent in
          subst₂ R (sym l) (sym r) base
    ]

diff_from-nil_of_Agree :
    (f : ℕ) (path : Bytes) (a b : Entry) → depth b < f → Agree a b → diff_from f path a b ≡ []
diff_from-nil_of_Agree zero path a b d h = absurd (omega arith)
diff_from-nil_of_Agree (suc f) path a b d h =
    rw (diff_from-of_Matches f path a b (Matches-symm a b (h []))) (
      flat_map-eq-nil _ (name_union (get_contents a ∷ get_contents b ∷ [])) (λ n m.
        diff_from-nil_of_Agree f (joinable path ++ n) (child (get_contents a) n)
          (child (get_contents b) n) (depth-listed a b n f (Matches-symm a b (h [])) m d)
          (λ ns. h (n ∷ ns))))

-- With no change at all there is none inside.
inside-nil :
    (f : ℕ) (path : Bytes) (a b : Entry)
    → Matches b a
    → diff_from (suc f) path a b ≡ []
    → diff_inside f path a b ≡ []
inside-nil f path a b same h = sym (diff_from-of_Matches f path a b same) ∙ h

Agree-of_diff_from :
    (f : ℕ) (path : Bytes) (a b : Entry) → depth b < f → diff_from f path a b ≡ [] → Agree a b
Agree-of_diff_from zero path a b d h ns = absurd (omega arith)
Agree-of_diff_from (suc f) path a b d h [] = elim (Bool-cases (equal b a false)) [
  | inr differ ↦ cc (diff_from-of_differ f path a b differ)
  | inl same ↦ Matches-symm b a same
]
Agree-of_diff_from (suc f) path a b d h (n ∷ ns) = elim (Bool-cases (equal b a false)) [
  | inr differ ↦ cc (diff_from-of_differ f path a b differ)
  | inl same ↦
      at_child (λ x y. Matches (descend x ns) (descend y ns)) (Matches-refl (descend nil ns)) a b n
        (λ listed.
          Agree-of_diff_from f (joinable path ++ n) (child (get_contents a) n)
            (child (get_contents b) n) (depth-listed a b n f same listed d)
            (nil_of_flat_map _ (name_union (get_contents a ∷ get_contents b ∷ [])) n
              (inside-nil f path a b same h) listed)
            ns)
]

-- `diff` finds no change exactly when the two entries agree at every address.
pub diff-nil_iff : (path : Bytes) (a b : Entry) → (diff path a b ≡ []) ↔ Agree a b
unfolding diff
diff-nil_iff path a b = (
  λ h. Agree-of_diff_from (suc (depth b)) path a b (omega arith) h,
  λ h. diff_from-nil_of_Agree (suc (depth b)) path a b (omega arith) h,
)
