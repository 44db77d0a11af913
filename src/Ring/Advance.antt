-- ===== src/Ring/Advance.antt =====
-- Taking data off the front of pkg/multiplexing/ring/buffer.go.
use mutagen.Base.{
  ℕ, Bytes, inl, inr, [], ◌++◌, ◌≡◌, refl, sym, ap, ◌∙◌, arith, append_assoc, append-nil, length,
  length-append, take, ltb, lt_of_ltb, le_of_ltb, drop, take-append-drop, drop-append,
  drop_of_length_le, length-take, length-drop, ◌+◌, ◌%◌, ◌≤◌, ◌<◌, nat_eq, Bool-cases,
}
use mathlib.Core.Path.{subst}
use native.Mathlib.Nat.{mod-lt, mod-eq_of_lt, mod_self}
use mutagen.Ring.{Buffer, advance, data_segment}
use mutagen.Ring.Layout.{
  Sized, Holds, linear, wrapped, take_at, drop_at, drop-append_le, take-append_le,
}

advance-Sized : (b : Buffer) (copied : ℕ) → Sized b → 0 < b.size → Sized (advance b copied)
unfolding advance
advance-Sized b copied s some_space = record {
  all = s.all;
  fits = omega (arith, s.fits);
  begins = omega (arith, mod-lt (b.start + copied) {m = b.size} some_space);
}

-- Part of the storage, cut out as the code cuts it.
segment_at :
    (n m : ℕ) (xs ys zs storage : Bytes)
    → storage ≡ xs ++ (ys ++ zs)
    → n ≡ length xs
    → m ≡ length ys
    → take m (drop n storage) ≡ ys
segment_at n m xs ys zs storage e at long =
    ap (λ s. take m (drop n s)) e
    ∙ ap (take m) (ap (λ k. drop k (xs ++ (ys ++ zs))) at ∙ drop-append xs (ys ++ zs))
    ∙ take_at m ys zs long

module _ (b : Buffer) (copied : ℕ) (some_space : 0 < b.size) where
  start_inside : b.start + copied < b.size → (advance b copied).start ≡ b.start + copied
  unfolding advance
  start_inside h = mod-eq_of_lt h

  start_end : b.start + copied ≡ b.size → (advance b copied).start ≡ 0
  unfolding advance
  start_end e = ap (λ n. n % b.size) e ∙ mod_self b.size

  -- Data in one piece.
  advance_linear :
      (p q f : Bytes)
      → Sized b
      → b.storage ≡ p ++ (q ++ f)
      → b.start ≡ length p
      → b.used ≡ length q
      → copied ≤ length q
      → Holds (advance b copied) (drop copied q)
  unfolding advance
  advance_linear p q f s e1 e2 e3 few =
      let total : length p + (length q + length f) ≡ b.size =
        omega (arith, ap length e1, length-append p (q ++ f), length-append q f, s.all) in
      elim (Bool-cases (ltb (length p + copied) b.size)) [
        | inl inside ↦
            let h = lt_of_ltb _ _ inside in
            linear (p ++ take copied q) f (advance-Sized b copied s some_space)
              (e1
                ∙ ap (λ xs. p ++ (xs ++ f)) (sym (take-append-drop copied q))
                ∙ rw (append_assoc, append_assoc) refl)
              (start_inside (omega (arith, h))
                ∙ omega (arith, length-append p (take copied q), length-take copied q))
              (omega (arith, length-drop copied q))
        | inr outside ↦
            let h = le_of_ltb _ _ outside in
            linear [] b.storage (advance-Sized b copied s some_space)
              (sym (ap (λ xs. xs ++ b.storage) (drop_of_length_le copied q (omega arith))))
              (start_end (omega arith)) (omega (arith, length-drop copied q))
      ]

  -- Data in two pieces.
  advance_wrapped :
      (h t f : Bytes)
      → Sized b
      → b.storage ≡ t ++ (f ++ h)
      → b.start ≡ length t + length f
      → b.used ≡ length h + length t
      → copied ≤ length h
      → Holds (advance b copied) (drop copied (h ++ t))
  unfolding advance
  advance_wrapped h t f s e1 e2 e3 few =
      let total : length t + (length f + length h) ≡ b.size =
        omega (arith, ap length e1, length-append t (f ++ h), length-append f h, s.all) in
      elim (Bool-cases (ltb copied (length h))) [
        | inl inside ↦
            let lt = lt_of_ltb _ _ inside in
            wrapped (drop copied h) t (f ++ take copied h) (advance-Sized b copied s some_space)
              (e1
                ∙ ap (λ xs. t ++ (f ++ xs)) (sym (take-append-drop copied h))
                ∙ rw append_assoc refl)
              (start_inside (omega (arith, lt))
                ∙ omega (arith, length-append f (take copied h), length-take copied h))
              (omega (arith, length-drop copied h)) (drop-append_le copied h t few)
              (omega (arith, lt, length-drop copied h))
        | inr outside ↦
            let whole : copied ≡ length h + 0 = omega (arith, le_of_ltb _ _ outside) in
            let rest : drop copied (h ++ t) ≡ t = drop_at copied 0 h t whole in
            linear [] (f ++ h) (advance-Sized b copied s some_space)
              (e1 ∙ ap (λ xs. xs ++ (f ++ h)) (sym rest)) (start_end (omega arith))
              (omega (arith, ap length rest))
      ]

-- Reading a part of the first segment takes it off the queue.
pub advance-Holds :
    (b : Buffer) (q : Bytes) (copied : ℕ)
    → Holds b q
    → 0 < b.used
    → copied ≤ length (data_segment b)
    → (take copied (data_segment b) ≡ take copied q)
      × (0 < length (data_segment b))
      × (length (data_segment b) ≤ length q)
      × Holds (advance b copied) (drop copied q)
advance-Holds b q copied (linear p f s e1 e2 e3) some_data few =
    let total : length p + (length q + length f) ≡ b.size =
      omega (arith, ap length e1, length-append p (q ++ f), length-append q f, s.all) in
    let cut : data_segment b ≡ q =
      segment_at b.start _ p q f b.storage e1 e2 (omega (arith, total)) in
    (
      ap (take copied) cut,
      omega (arith, ap length cut),
      omega (arith, ap length cut),
      advance_linear b copied (omega (arith, s.fits)) p q f s e1 e2 e3
          (omega (arith, ap length cut)),
    )
advance-Holds b q copied (wrapped h t f s e1 e2 e3 e4 pos) some_data few =
    let total : length t + (length f + length h) ≡ b.size =
      omega (arith, ap length e1, length-append t (f ++ h), length-append f h, s.all) in
    let cut : data_segment b ≡ h =
      segment_at b.start _ (t ++ f) h [] b.storage (e1 ∙ rw (append-nil h, append_assoc) refl)
        (e2 ∙ sym (length-append t f)) (omega (arith, total)) in
    let few_front : copied ≤ length h = omega (arith, few, ap length cut) in
    (
      ap (take copied) cut ∙ sym (ap (take copied) e4 ∙ take-append_le copied h t few_front),
      omega (arith, ap length cut),
      omega (arith, ap length cut, ap length e4, length-append h t),
      subst (λ xs. Holds (advance b copied) (drop copied xs)) (sym e4)
          (advance_wrapped b copied (omega (arith, s.fits)) h t f s e1 e2 e3 few_front),
    )
