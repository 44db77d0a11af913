-- ===== src/Apply/Laws.antt =====
-- `Apply` with the changes of `Diff`.
use mutagen.Base.{
  ℕ, zero, suc, Bytes, true, false, List, [], ◌∷◌, ◌++◌, ◌≡◌, none, refl, sym, ap, ◌∙◌, arith, ◌==◌,
  bytes_eq, is_empty, flat_map, contains, All, All-flat_map, inl, inr, Bool-cases, ==_ne,
}
use mathlib.Core.Path.{subst}
use mutagen.Path.{joinable, split}
use mutagen.Path.Join.{path_at, IsName, split-path_at}
use mutagen.Entry.{Entry, items_of, names, get_contents, child, name_union}
use mutagen.Entry.Compare.{equal}
use mutagen.Entry.Copy.{copy, deep_preserving_leaves}
use mutagen.Entry.Measure.{depth}
use mutagen.Entry.Validity.{ensure_valid}
use mutagen.Entry.Shallow.{Matches}
use mutagen.Entry.Tree.{Agree, contains-name_union₂}
use mutagen.Entry.Copied.{Agree-refl, copy-Agree}
use mutagen.Entry.Names.{WellNamed, ensure_valid-WellNamed}
use mutagen.Change.{Change, diff_from, diff}
use mutagen.Change.Diff.{diff-nil_iff, diff_from-of_differ}
use mutagen.Apply.{
  Applied, applied, unresolved, nil_dereference, apply_at, apply_change, apply_changes, apply,
  and_then,
}
use mutagen.Apply.Writes.{Write, write_all}
use mutagen.Apply.Under.{under}
use mutagen.Apply.Roundtrip.{diff_writes, inside_writes, merges, inside-IsBelow}

-- Changes that stand for writes below a path.
abbrev Renders : Bytes → List Change → List Write → Type 0
Renders path [] [] = Unit
Renders path (c ∷ cs) ((ns, e) ∷ ws) = (c.path ≡ path_at path ns) × (c.new ≡ e) × Renders path cs ws
Renders path _ _ = ⊥

Renders-append :
    (path : Bytes) (cs ds : List Change) (vs ws : List Write)
    → Renders path cs vs
    → Renders path ds ws
    → Renders path (cs ++ ds) (vs ++ ws)
Renders-append path [] ds [] ws h k = k
Renders-append path [] ds (v ∷ vs) ws h k = elim h [ ]
Renders-append path (c ∷ cs) ds [] ws h k = elim h [ ]
Renders-append path (c ∷ cs) ds ((ns, e) ∷ vs) ws (p, n, h) k =
    (p, n, Renders-append path cs ds vs ws h k)

Renders-under :
    (path n : Bytes) (cs : List Change) (ws : List Write)
    → Renders (joinable path ++ n) cs ws
    → Renders path cs (under n ws)
Renders-under path n [] [] h = tt
Renders-under path n [] (w ∷ ws) h = h
Renders-under path n (c ∷ cs) [] h = h
Renders-under path n (c ∷ cs) ((ns, e) ∷ ws) (p, k, h) = (p, k, Renders-under path n cs ws h)

Renders-flat_map :
    (path : Bytes) (f : Bytes → List Change) (g : Bytes → List Write) (ns : List Bytes)
    → ((n : Bytes) → Renders path (f n) (g n))
    → Renders path (flat_map f ns) (flat_map g ns)
Renders-flat_map path f g [] h = tt
Renders-flat_map path f g (n ∷ ns) h =
    Renders-append path (f n) (flat_map f ns) (g n) (flat_map g ns) (h n)
      (Renders-flat_map path f g ns h)

diff_from-Renders :
    (f : ℕ) (path : Bytes) (a b : Entry) → Renders path (diff_from f path a b) (diff_writes f a b)
unfolding diff_from diff_writes
diff_from-Renders zero path a b = tt
diff_from-Renders (suc f) path a b = elim (Bool-cases (equal b a false)) [
  | inr differ ↦ rw differ (refl, refl, tt)
  | inl same ↦ rw same (
      Renders-flat_map path _ _ (name_union (get_contents a ∷ get_contents b ∷ [])) (λ n.
        Renders-under path n _ _ (
          diff_from-Renders f (joinable path ++ n) (child (get_contents a) n)
            (child (get_contents b) n))))
]

abbrev IsNamed : Write → Type 0
IsNamed w = All IsName w.0

under-IsNamed : (n : Bytes) (ws : List Write) → IsName n → All IsNamed ws → All IsNamed (under n ws)
under-IsNamed n [] h hs = tt
under-IsNamed n ((ns, e) ∷ ws) h (k, ks) = ((h, k), under-IsNamed n ws h ks)

union-IsName :
    (a b : Entry) (n : Bytes)
    → WellNamed a
    → WellNamed b
    → contains (name_union (get_contents a ∷ get_contents b ∷ [])) n ≡ true
    → IsName n
union-IsName a b n h k listed = elim (Bool-cases (contains (names (items_of (get_contents a))) n)) [
  | inl m ↦ h [] n m
  | inr m ↦ k [] n (ground (arith, contains-name_union₂ (get_contents a) (get_contents b) n))
]

diff_writes-IsNamed :
    (f : ℕ) (a b : Entry) → WellNamed a → WellNamed b → All IsNamed (diff_writes f a b)
unfolding diff_writes
diff_writes-IsNamed zero a b h k = tt
diff_writes-IsNamed (suc f) a b h k = elim (Bool-cases (equal b a false)) [
  | inr differ ↦ rw differ (tt, tt)
  | inl same ↦ rw same (
      All-flat_map IsNamed _ (name_union (get_contents a ∷ get_contents b ∷ [])) (λ n listed.
        under-IsNamed n _ (union-IsName a b n h k listed) (
          diff_writes-IsNamed f (child (get_contents a) n) (child (get_contents b) n)
            (λ ns. h (n ∷ ns)) (λ ns. k (n ∷ ns)))))
]

apply_change-at :
    (c : Change) (n : Bytes) (ns : List Bytes) (e : Entry)
    → c.path ≡ path_at [] (n ∷ ns)
    → All IsName (n ∷ ns)
    → apply_change c e ≡ apply_at (n ∷ ns) c.new e
unfolding apply_change
apply_change-at c n ns e p k =
    let (parts, filled) = split-path_at n ns k in
    let proper : (c.path == []) ≡ false =
      ==_ne c.path [] (λ q. cc (ap is_empty (sym p ∙ q), filled)) in
    rw proper (ap (λ a. apply_at a c.new e) (ap split p ∙ parts))

and_then_congr :
    (r : Applied) (f g : Entry → Applied) → ((e : Entry) → f e ≡ g e) → and_then r f ≡ and_then r g
and_then_congr (applied e) f g h = h e
and_then_congr unresolved f g h = refl
and_then_congr nil_dereference f g h = refl

replaced_root :
    (base target : Entry)
    → (r : Entry) × (apply base (record { path = []; old = base; new = target } ∷ []) ≡ applied r)
      × Agree r target
unfolding apply
replaced_root base target = (target, ground arith, Agree-refl target)

-- Changes at named addresses below the root do what their writes do.
apply_changes-write_all :
    (cs : List Change) (ws : List Write) (e : Entry)
    → Renders [] cs ws
    → All (λ w. is_empty w.0 ≡ false) ws
    → All IsNamed ws
    → apply_changes cs e ≡ write_all ws e
unfolding apply_changes write_all
apply_changes-write_all [] [] e h b k = refl
apply_changes-write_all [] (w ∷ ws) e h b k = elim h [ ]
apply_changes-write_all (c ∷ cs) [] e h b k = elim h [ ]
apply_changes-write_all (c ∷ cs) (([], new) ∷ ws) e h (b, bs) k = absurd (cc b)
apply_changes-write_all (c ∷ cs) ((n ∷ ns, new) ∷ ws) e (p, q, h) (b, bs) (k, ks) =
    rw (apply_change-at c n ns e p k, q)
      (and_then_congr (apply_at (n ∷ ns) new e) (apply_changes cs) (write_all ws)
        (λ x. apply_changes-write_all cs ws x h bs ks))

not_root :
    (c : Change) (cs : List Change) (ws : List Write)
    → Renders [] (c ∷ cs) ws
    → All (λ w. is_empty w.0 ≡ false) ws
    → All IsNamed ws
    → (c.path == []) ≡ false
not_root c cs [] h b k = elim h [ ]
not_root c cs (([], new) ∷ ws) h (b, bs) k = absurd (cc b)
not_root c cs ((n ∷ ns, new) ∷ ws) (p, q, h) b (k, ks) =
    ==_ne c.path [] (λ e. cc (ap is_empty (sym p ∙ e), (split-path_at n ns k).1))

writes-inside : (f : ℕ) (a b : Entry) → Matches b a → diff_writes (suc f) a b ≡ inside_writes f a b
unfolding diff_writes
writes-inside f a b same = rw same

finish :
    (base target : Entry) (cs : List Change) (ws : List Write) {r : Entry}
    → Renders [] cs ws
    → All (λ w. is_empty w.0 ≡ false) ws
    → All IsNamed ws
    → write_all ws (copy deep_preserving_leaves base) ≡ applied r
    → Agree r target
    → (cs ≡ [] → Agree base target)
    → (r : Entry) × (apply base cs ≡ applied r) × Agree r target
unfolding apply
finish base target [] ws h b k run agree same = (base, refl, same refl)
finish base target (c ∷ []) ws {r} h b k run agree same = (
  r,
  rw (not_root c [] ws h b k)
      (apply_changes-write_all (c ∷ []) ws (copy deep_preserving_leaves base) h b k ∙ run),
  agree,
)
finish base target (c ∷ d ∷ cs) ws {r} h b k run agree same = (
  r,
  apply_changes-write_all (c ∷ d ∷ cs) ws (copy deep_preserving_leaves base) h b k ∙ run,
  agree,
)

-- `Diff` and then `Apply` give an entry that agrees with the target at every address, if base and
-- target are valid: every parent path is resolved and no nil pointer is followed.
pub apply-diff :
    (base target : Entry)
    → ensure_valid false base ≡ none
    → ensure_valid false target ≡ none
    → (r : Entry) × (apply base (diff [] base target) ≡ applied r) × Agree r target
unfolding diff
apply-diff base target h k = elim (Bool-cases (equal target base false)) [
  | inr differ ↦
      rw (diff_from-of_differ (depth target) [] base target differ) (replaced_root base target)
  | inl same ↦
      let (r, run, agree) =
        merges (depth target) base target (copy deep_preserving_leaves base) (omega arith) same
          (copy-Agree deep_preserving_leaves base tt) in
      finish base target (diff_from (suc (depth target)) [] base target)
        (inside_writes (depth target) base target)
        (subst (λ ws. Renders [] (diff_from (suc (depth target)) [] base target) ws)
          (writes-inside (depth target) base target same)
          (diff_from-Renders (suc (depth target)) [] base target))
        (inside-IsBelow (depth target) base target)
        (subst (All IsNamed) (writes-inside (depth target) base target same) (
          diff_writes-IsNamed (suc (depth target)) base target (ensure_valid-WellNamed false base h)
            (ensure_valid-WellNamed false target k)))
        run agree (λ e. (diff-nil_iff [] base target).0 (unfold diff in e))
]
