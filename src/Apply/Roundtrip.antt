-- ===== src/Apply/Roundtrip.antt =====
-- About pkg/synchronization/core/apply.go: the writes of a diff.
use mutagen.Base.{
  ℕ, zero, suc, ◌<◌, Bytes, true, false, not, List, [], ◌∷◌, ◌≡◌, refl, sym, ap, ◌∙◌, arith, ◌==◌,
  bytes_eq, if◌then◌else◌, flat_map, contains, Distinct, All, inl, inr, Bool-cases, All-flat_map,
  ==_self,
}
use mathlib.Core.Path.{subst}
use mutagen.Entry.{Props, Entry, nil, node, Contents, get_contents, child, name_union}
use mutagen.Entry.Compare.{equal}
use mutagen.Entry.Copy.{copy, deep_preserving_leaves}
use mutagen.Entry.Measure.{depth}
use mutagen.Entry.Shallow.{Matches, Matches-node, Matches-symm, Matches-trans}
use mutagen.Entry.Tree.{descend, Agree, Distinct-name_union, depth-child}
use mutagen.Entry.Copied.{copy-Agree}
use mutagen.Change.Diff.{both-nil}
use mutagen.Apply.{applied, assign, apply_at, and_then}
use mutagen.Apply.Writes.{Write, write_all, write_all-append, child-assign}
use mutagen.Apply.Under.{under, IsBelow, write_all-under}

-- The diff of two entries with the addresses of its changes in place of their paths.
unfoldable pub diff_writes : ℕ → Entry → Entry → List Write
diff_writes zero a b = []
diff_writes (suc f) a b =
    let inside =
      flat_map (λ n. under n (diff_writes f (child (get_contents a) n) (child (get_contents b) n)))
        (name_union (get_contents a ∷ get_contents b ∷ [])) in
    if not (equal b a false) then ([], b) ∷ [] else inside

abbrev pub writes_of : ℕ → Entry → Entry → List Bytes → List Write
writes_of f a b ns =
    flat_map (λ n. under n (diff_writes f (child (get_contents a) n) (child (get_contents b) n))) ns

abbrev pub inside_writes : ℕ → Entry → Entry → List Write
inside_writes f a b = writes_of f a b (name_union (get_contents a ∷ get_contents b ∷ []))

under-IsBelow : (n : Bytes) (ws : List Write) → All IsBelow (under n ws)
under-IsBelow n [] = tt
under-IsBelow n ((ns, e) ∷ ws) = (refl, under-IsBelow n ws)

pub inside-IsBelow : (f : ℕ) (a b : Entry) → All IsBelow (inside_writes f a b)
inside-IsBelow f a b =
    All-flat_map IsBelow _ (name_union (get_contents a ∷ get_contents b ∷ []))
      (λ n listed. under-IsBelow n _)

-- What the writes inside of two entries that match do to an entry that agrees with the first.
abbrev pub Merges : ℕ → Type 0
Merges f =
    (a b e : Entry)
    → depth b < suc f
    → Matches b a
    → Agree e a
    → (r : Entry) × (write_all (inside_writes f a b) e ≡ applied r) × Agree r b

-- The same of the writes below one child of a node.
abbrev MergesChild : ℕ → Type 0
MergesChild f =
    (a b : Entry) (p : Props) (c : Contents) (n : Bytes)
    → depth b < f
    → Agree (child c n) a
    → (c' : Contents) × (write_all (under n (diff_writes f a b)) (node p c) ≡ applied (node p c'))
      × Agree (child c' n) b
      × ((m : Bytes) → (n == m) ≡ false → child c' m ≡ child c m)

Agree-of_eq : (a b c : Entry) → a ≡ b → Agree b c → Agree a c
Agree-of_eq a b c e h = subst (λ x. Agree x c) (sym e) h

-- The child is replaced as a whole.
replaced :
    (b : Entry) (p : Props) (c : Contents) (n : Bytes)
    → (c' : Contents) × (write_all (under n (([], b) ∷ [])) (node p c) ≡ applied (node p c'))
      × Agree (child c' n) b
      × ((m : Bytes) → (n == m) ≡ false → child c' m ≡ child c m)
unfolding write_all apply_at
replaced b p c n = (
  assign n b c,
  refl,
  Agree-of_eq (child (assign n b c) n) (copy deep_preserving_leaves b) b
      (child-assign n n b c ∙ ground (arith, ==_self n)) (copy-Agree deep_preserving_leaves b tt),
  λ m differ. child-assign n m b c ∙ rw differ,
)

-- The child and its counterpart match: the writes are those inside of them.
node_of_Matches :
    (e : Entry) (p : Props) (c : Contents)
    → Matches e (node p c)
    → (q : Props) × (d : Contents) × (e ≡ node q d)
unfolding equal
node_of_Matches nil p c h = absurd (ground arith)
node_of_Matches (node q d) p c h = (q, d, refl)

continued :
    (f : ℕ) (a b : Entry) (p : Props) (c : Contents) (n : Bytes)
    → Merges f
    → depth b < suc f
    → Matches b a
    → Agree (child c n) a
    → (c' : Contents) × (write_all (under n (inside_writes f a b)) (node p c) ≡ applied (node p c'))
      × Agree (child c' n) b
      × ((m : Bytes) → (n == m) ≡ false → child c' m ≡ child c m)
unfolding equal write_all
continued f nil nil p c n ih d same h = (c, refl, h, λ m differ. refl)
continued f nil (node q y) p c n ih d same h = absurd (ground arith)
continued f (node o x) nil p c n ih d same h = absurd (ground arith)
continued f (node o x) (node q y) p c n ih d same h =
    let (k, z, isnode) = node_of_Matches (child c n) o x (h []) in
    let (r, run, agree) = ih (node o x) (node q y) (child c n) d same h in
    let (c', ran, only) =
      write_all-under n (inside_writes f (node o x) (node q y)) p k c z {e = r}
        (inside-IsBelow f (node o x) (node q y)) isnode
        (ap (write_all (inside_writes f (node o x) (node q y))) (sym isnode) ∙ run) in
    (
      c',
      ran,
      Agree-of_eq (child c' n) r (node q y) (only n ∙ ground (arith, ==_self n)) agree,
      λ m differ. only m ∙ rw differ,
    )

one_child : (f : ℕ) → Merges f → MergesChild (suc f)
unfolding diff_writes
one_child f ih a b p c n d h = elim (Bool-cases (equal b a false)) [
  | inr differ ↦ rw differ (replaced b p c n)
  | inl same ↦ rw same (continued f a b p c n ih d same h)
]

first_of_two :
    (k : Bytes) (ns : List Bytes) (n : Bytes)
    → contains (k ∷ ns) n ≡ true
    → contains ns n ≡ false
    → k ≡ n
first_of_two k ns n h absent = ground arith

-- The loop over names that are listed once each: the children of these names become the target's.
loop :
    (f : ℕ) (a b : Entry) (ns : List Bytes) (p : Props) (c : Contents)
    → MergesChild f
    → Distinct ns
    → ((n : Bytes) → contains ns n ≡ true → depth (child (get_contents b) n) < f)
    → ((n : Bytes) → contains ns n ≡ true → Agree (child c n) (child (get_contents a) n))
    → (c' : Contents) × (write_all (writes_of f a b ns) (node p c) ≡ applied (node p c'))
      × ((n : Bytes) → contains ns n ≡ true → Agree (child c' n) (child (get_contents b) n))
      × ((n : Bytes) → contains ns n ≡ false → child c' n ≡ child c n)
unfolding write_all
loop f a b [] p c one u d h = (c, refl, λ n m. absurd (ground arith), λ n m. refl)
loop f a b (k ∷ ns) p c one (fresh, u) d h =
    let (c₁, run₁, agree₁, keep₁) =
      one (child (get_contents a) k) (child (get_contents b) k) p c k
        (d k (ground (arith, ==_self k))) (h k (ground (arith, ==_self k))) in
    let (c₂, run₂, agree₂, keep₂) =
      loop f a b ns p c₁ one u (λ n m. d n (ground arith))
        (λ n m.
          Agree-of_eq (child c₁ n) (child c n) (child (get_contents a) n) (keep₁ n (ground arith))
            (h n (ground arith))) in
    (
      c₂,
      write_all-append (under k _) (writes_of f a b ns) (node p c)
          ∙ ap (λ r. and_then r (write_all (writes_of f a b ns))) run₁
          ∙ run₂,
      λ n m. elim (Bool-cases (contains ns n)) [
        | inl later ↦ agree₂ n later
        | inr absent ↦
            Agree-of_eq (child c₂ n) (child c₁ n) (child (get_contents b) n) (keep₂ n absent) (
              subst (λ x. Agree (child c₁ x) (child (get_contents b) x))
                (first_of_two k ns n m absent) agree₁)
      ],
      λ n m. keep₂ n (ground arith) ∙ keep₁ n (ground arith),
    )

merge_nodes :
    (f : ℕ) (o q : Props) (x y : Contents) (e : Entry)
    → MergesChild f
    → depth (node q y) < suc f
    → Matches (node q y) (node o x)
    → Agree e (node o x)
    → (r : Entry) × (write_all (inside_writes f (node o x) (node q y)) e ≡ applied r)
      × Agree r (node q y)
merge_nodes f o q x y e one d same h =
    let (k, z, isnode) = node_of_Matches e o x (h []) in
    let (c', run, agree, keep) =
      loop f (node o x) (node q y) (name_union (x ∷ y ∷ [])) k z one
        (Distinct-name_union (x ∷ y ∷ [])) (λ n m. depth-child q y n f d)
        (λ n m ns. Agree-of_eq (node k z) e (node o x) (sym isnode) h (n ∷ ns)) in
    (
      node k c',
      ap (write_all (inside_writes f (node o x) (node q y))) isnode ∙ run,
      joined k z c' isnode agree keep,
    )
  where
    joined :
        (k : Props) (z c' : Contents)
        → e ≡ node k z
        → ((n : Bytes)
            → contains (name_union (x ∷ y ∷ [])) n ≡ true
            → Agree (child c' n) (child y n))
        → ((n : Bytes) → contains (name_union (x ∷ y ∷ [])) n ≡ false → child c' n ≡ child z n)
        → Agree (node k c') (node q y)
    joined k z c' isnode agree keep [] =
        Matches-trans (node k c') (node o x) (node q y)
          (Matches-trans (node k c') (node k z) (node o x) (Matches-node k c' z)
            (subst (λ v. Matches v (node o x)) isnode (h [])))
          (Matches-symm (node q y) (node o x) same)
    joined k z c' isnode agree keep (n ∷ ns) =
        elim (Bool-cases (contains (name_union (x ∷ y ∷ [])) n)) [
          | inl listed ↦ agree n listed ns
          | inr absent ↦
              let (l, r) = both-nil x y n absent in
              subst (λ v. Matches (descend v ns) (descend (child y n) ns)) (sym (keep n absent))
                (subst (λ v. Matches (descend (child z n) ns) (descend v ns)) (l ∙ sym r)
                  (Agree-of_eq (node k z) e (node o x) (sym isnode) h (n ∷ ns)))
        ]

merge_with : (f : ℕ) → MergesChild f → Merges f
unfolding equal write_all
merge_with f one nil nil e d same h = (e, refl, h)
merge_with f one nil (node q y) e d same h = absurd (ground arith)
merge_with f one (node o x) nil e d same h = absurd (ground arith)
merge_with f one (node o x) (node q y) e d same h = merge_nodes f o q x y e one d same h

-- The writes inside of two entries that match, made to an entry that agrees with the first, give
-- an entry that agrees with the second.
pub merges : (f : ℕ) → Merges f
merges zero = merge_with zero (λ a b p c n d h. absurd (omega arith))
merges (suc f) = merge_with (suc f) (one_child f (merges f))
