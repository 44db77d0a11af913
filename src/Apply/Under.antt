-- ===== src/Apply/Under.antt =====
-- About pkg/synchronization/core/apply.go: writes below one child of a node.
use mutagen.Base.{
  Bytes, false, List, [], ◌∷◌, ◌≡◌, refl, sym, ap, ◌∙◌, arith, ◌==◌, bytes_eq, is_empty,
  if◌then◌else◌, All, inl, inr, Option-cases, ==_self,
}
use mutagen.Entry.{Props, Entry, node, Contents, made, items_of, find, child}
use mutagen.Apply.{
  Applied, applied, unresolved, nil_dereference, set_item, assign, put_back, apply_at, and_then,
}
use mutagen.Apply.Writes.{Write, write_all, child-set_item, find-of_child}

abbrev pub under : Bytes → List Write → List Write
under n [] = []
under n ((ns, e) ∷ ws) = (n ∷ ns, e) ∷ under n ws

abbrev pub IsBelow : Write → Type 0
IsBelow w = is_empty w.0 ≡ false

-- What the children of a node are after its child `n` became `e`.
abbrev pub OnlyChild : Bytes → Entry → Contents → Contents → Type 0
OnlyChild n e c c' = (m : Bytes) → child c' m ≡ (if n == m then e else child c m)

put_back-node :
    (n : Bytes) (p : Props) (c : Contents) (r : Applied) {e : Entry}
    → put_back n p c r ≡ applied e
    → (d : Contents) × (e ≡ node p d)
put_back-node n p c (applied x) h = (made (set_item n x (items_of c)), ground arith)
put_back-node n p c unresolved h = absurd (ground arith)
put_back-node n p c nil_dereference h = absurd (ground arith)

-- A write below a node keeps the node's own properties.
apply_at-node :
    (k : Bytes) (ks : List Bytes) (new : Entry) (p : Props) (c : Contents) {e : Entry}
    → apply_at (k ∷ ks) new (node p c) ≡ applied e
    → (d : Contents) × (e ≡ node p d)
unfolding apply_at
apply_at-node k [] new p c h = (assign k new c, ground arith)
apply_at-node k (m ∷ ks) new p c h = elim (Option-cases (find (items_of c) k)) [
  | inl e ↦ absurd (cc (rw (e, apply_at) at h))
  | inr e ↦ put_back-node k p c _ (rw (e.1, apply_at) at h)
]

and_then-applied :
    (r : Applied) (f : Entry → Applied) {e : Entry}
    → and_then r f ≡ applied e
    → (x : Entry) × (r ≡ applied x) × (f x ≡ applied e)
and_then-applied (applied x) f h = (x, refl, h)
and_then-applied unresolved f h = absurd (ground arith)
and_then-applied nil_dereference f h = absurd (ground arith)

-- One write below a child that is a node: the child is put back.
apply_at-under :
    (n k : Bytes) (ks : List Bytes) (new : Entry) (p q : Props) (c d : Contents) (x : Entry)
    → child c n ≡ node q d
    → apply_at (k ∷ ks) new (node q d) ≡ applied x
    → apply_at (n ∷ k ∷ ks) new (node p c) ≡ applied (node p (made (set_item n x (items_of c))))
unfolding apply_at
apply_at-under n k ks new p q c d x h first =
    rw (find-of_child c n q d h, apply_at) (ap (put_back n p c) first)

OnlyChild-same : (n : Bytes) (c : Contents) (e : Entry) → child c n ≡ e → OnlyChild n e c c
OnlyChild-same n c e h m = ground arith

OnlyChild-trans :
    (n : Bytes) (x e : Entry) (c c' : Contents)
    → OnlyChild n e (made (set_item n x (items_of c))) c'
    → OnlyChild n e c c'
OnlyChild-trans n x e c c' h m = ground (arith, h m, child-set_item n m x c)

-- Writes below the child `n`, a node, leave its parent a node whose other children are as before,
-- and the child as if the writes had been made to it alone.
pub write_all-under :
    (n : Bytes) (ws : List Write) (p q : Props) (c d : Contents) {e : Entry}
    → All IsBelow ws
    → child c n ≡ node q d
    → write_all ws (node q d) ≡ applied e
    → (c' : Contents) × (write_all (under n ws) (node p c) ≡ applied (node p c'))
      × OnlyChild n e c c'
unfolding write_all
write_all-under n [] p q c d _ h done = (c, refl, OnlyChild-same n c _ (ground arith))
write_all-under n (([], new) ∷ ws) p q c d (b, bs) h done = absurd (cc b)
write_all-under n ((k ∷ ks, new) ∷ ws) p q c d {e} (b, bs) h done =
    let (x, first, later) =
      and_then-applied (apply_at (k ∷ ks) new (node q d)) (write_all ws) done in
    let (d', same) = apply_at-node k ks new q d first in
    let c₁ = made (set_item n x (items_of c)) in
    let (c', run, only) =
      write_all-under n ws p q c₁ d' {e = e} bs (child-set_item n n x c ∙ ground (arith, ==_self n))
        (ap (write_all ws) (sym same) ∙ later) in
    (
      c',
      ap (λ r. and_then r (write_all (under n ws))) (apply_at-under n k ks new p q c d x h first)
          ∙ run,
      OnlyChild-trans n x e c c' only,
    )
