-- ===== src/Link/Inside.antt =====
-- About where the targets of pkg/synchronization/core/symbolic_link.go lead.
use mutagen.Base.{
  ℕ, suc, Bytes, Bool, true, false, Option, none, some, List, [], ◌∷◌, ◌==◌, ◌≡◌, refl, ap, inl,
  inr, Bool-cases, nat_eq, bytes_eq, is_empty, length, arith, All, ◌-◌, if◌then◌else◌,
}
use mutagen.Path.{split}
use mutagen.Link.{linked, normalize_symbolic_link_and_ensure_portable, escapes, count_slashes, dot}
use mutagen.Link.Portable.{normalize-IsPortable}

-- How a system follows components from a directory, which is given by the names on the way from the
-- root, the last one first: an empty component stays there, and `none` is outside the root. The
-- names on the way are taken for directories.
unfoldable pub follow : List Bytes → List Bytes → Option (List Bytes)
follow directory [] = some directory
follow directory (c ∷ cs) =
    let same = follow directory cs in
    let up : Option (List Bytes) = elim directory [
      | [] ↦ none
      | name ∷ parents ↦ follow parents cs
    ] in
    let down = follow (c ∷ directory) cs in
    if is_empty c
    then same
    else if c == (dot ∷ [])
    then same
    else if c == (dot ∷ dot ∷ [])
    then up
    else down

abbrev pub IsFilled : Bytes → Type 0
IsFilled c = is_empty c ≡ false

-- Below the root there is a parent, and it is one level less deep.
parent :
    (directory : List Bytes) (depth : ℕ) (rest : Bool)
    → length directory ≡ depth
    → (if depth == 0 then true else rest) ≡ false
    → (name : Bytes) × (parents : List Bytes) × (directory ≡ name ∷ parents)
      × (length parents ≡ depth - 1)
      × (rest ≡ false)
parent [] depth rest deep h = absurd (ground (arith, deep))
parent (name ∷ parents) depth rest deep h =
    (name, parents, refl, omega (arith, deep), ground (arith, deep))

follow_of_inside :
    (cs directory : List Bytes) (depth : ℕ)
    → length directory ≡ depth
    → escapes depth cs ≡ false
    → All IsFilled cs
    → (d : List Bytes) × (follow directory cs ≡ some d)
unfolding follow escapes
follow_of_inside [] directory depth deep inside filled = (directory, refl)
follow_of_inside (c ∷ cs) directory depth deep inside (some_name, filled) =
    elim (Bool-cases (c == (dot ∷ []))) [
      | inl stays ↦
          let (d, e) = follow_of_inside cs directory depth deep (rw stays at inside) filled in
          (d, rw (some_name, stays) e)
      | inr moves ↦ elim (Bool-cases (c == (dot ∷ dot ∷ []))) [
        | inl up ↦
            let (name, parents, below, deep', rest) =
              parent directory depth _ deep (rw (moves, up) at inside) in
            let (d, e) = follow_of_inside cs parents (depth - 1) deep' rest filled in
            (d, rw (below, some_name, moves, up) e)
        | inr down ↦
            let (d, e) =
              follow_of_inside cs (c ∷ directory) (suc depth) (ap suc deep)
                (rw (moves, down) at inside) filled in
            (d, rw (some_name, moves, down) e)
      ]
    ]

-- A target that is let through, and has no empty component, leads from the directory of the link,
-- which is as deep as the link's path has separators, to a directory inside the root, through
-- directories inside the root only.
pub normalize-follow :
    (windows : Bool) (path target t : Bytes) (directory : List Bytes)
    → normalize_symbolic_link_and_ensure_portable windows path target ≡ linked t
    → All IsFilled (split t)
    → length directory ≡ count_slashes path
    → (d : List Bytes) × (follow directory (split t) ≡ some d)
normalize-follow windows path target t directory h filled deep =
    follow_of_inside (split t) directory (count_slashes path) deep
      (normalize-IsPortable windows path target t h).inside filled
