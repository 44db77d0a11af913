-- ===== src/Path/Join.antt =====
-- About joined paths and `strings.Split`.
use mutagen.Base.{
  Bytes, false, List, [], ◌∷◌, ◌++◌, ◌≡◌, refl, sym, ap, ◌∙◌, arith, bytes_eq, nat_eq, contains,
  append-nil, append_assoc, All, is_empty,
}
use mutagen.Path.{separator, joinable, split_from, split}

-- The path below a list of names.
abbrev pub path_at : Bytes → List Bytes → Bytes
path_at path [] = path
path_at path (n ∷ ns) = path_at (joinable path ++ n) ns

-- A name that a path can be made of: it is not empty and holds no separator.
pub record IsName (n : Bytes) : Type 0 where
  pub filled : is_empty n ≡ false
  pub plain : contains n separator ≡ false

split_from-name :
    (component n rest : Bytes)
    → contains n separator ≡ false
    → split_from component (n ++ rest) ≡ split_from (component ++ n) rest
unfolding split_from
split_from-name component [] rest h = rw append-nil
split_from-name component (c ∷ n) rest h =
    let next : split_from (component ++ (c ∷ [])) (n ++ rest)
        ≡ split_from (component ++ (c ∷ n)) rest =
      split_from-name (component ++ (c ∷ [])) n rest (ground arith)
      ∙ ap (λ b. split_from b rest) (append_assoc component (c ∷ []) n) in
    ground arith

-- What a path adds to its first name.
abbrev tail_of : List Bytes → Bytes
tail_of [] = []
tail_of (n ∷ ns) = separator ∷ (n ++ tail_of ns)

pub joinable-filled : (q : Bytes) → is_empty q ≡ false → joinable q ≡ q ++ (separator ∷ [])
joinable-filled [] h = cc
joinable-filled (c ∷ q) h = ground arith

pub joinable-nil : joinable [] ≡ []
joinable-nil = ground arith

filled-append : (q r : Bytes) → is_empty q ≡ false → is_empty (q ++ r) ≡ false
filled-append [] r h = cc
filled-append (c ∷ q) r h = refl

path_at-filled : (q : Bytes) (ns : List Bytes) → is_empty q ≡ false → path_at q ns ≡ q ++ tail_of ns
path_at-filled q [] h = sym (append-nil q)
path_at-filled q (n ∷ ns) h = rw (joinable-filled q h) (
    path_at-filled ((q ++ (separator ∷ [])) ++ n) ns
      (filled-append (q ++ (separator ∷ [])) n (filled-append q (separator ∷ []) h))
    ∙ rw (append_assoc (q ++ (separator ∷ [])) n (tail_of ns))
        (append_assoc q (separator ∷ []) (n ++ tail_of ns)))

split-tail_of :
    (n : Bytes) (ns : List Bytes)
    → contains n separator ≡ false
    → All IsName ns
    → split_from [] (n ++ tail_of ns) ≡ n ∷ ns
unfolding split_from
split-tail_of n [] h hs = split_from-name [] n [] h
split-tail_of n (m ∷ ns) h (k, ks) =
    split_from-name [] n (separator ∷ (m ++ tail_of ns)) h
    ∙ ground (arith, split-tail_of m ns k.plain ks)

path_at-cons : (n : Bytes) (ns : List Bytes) → IsName n → path_at [] (n ∷ ns) ≡ n ++ tail_of ns
path_at-cons n ns h = rw joinable-nil (path_at-filled n ns h.filled)

-- `strings.Split` takes the path that is joined from one or more names apart into these names, and
-- that path is not the root's.
pub split-path_at :
    (n : Bytes) (ns : List Bytes)
    → All IsName (n ∷ ns)
    → (split (path_at [] (n ∷ ns)) ≡ n ∷ ns) × (is_empty (path_at [] (n ∷ ns)) ≡ false)
unfolding split
split-path_at n ns (h, hs) =
    rw (path_at-cons n ns h) (split-tail_of n ns h.plain hs, filled-append n (tail_of ns) h.filled)
