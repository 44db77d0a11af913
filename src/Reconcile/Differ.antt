-- ===== src/Reconcile/Differ.antt =====
-- The synchronizable parts of two sides, where the reconciler of
-- pkg/synchronization/core/reconcile.go finds the sides to differ.
use mutagen.Base.{true, false, ◌&&◌, ◌||◌, none, [], ◌≡◌, refl, inl, inr, arith, Bool-cases, ◌==◌}
use mathlib.Core.Path.{subst}
use mutagen.Entry.{
  Kind-discrete, Props, kind_eq, directory, untracked, problematic, phantom_directory, Entry, nil,
  node, Contents, unset, made, end, item, is_kind, synchronizable_kind,
}
use mutagen.Entry.Compare.{equal, properties_match}
use mutagen.Entry.Copy.{synchronizable, without_problem}
use mutagen.Entry.Shallow.{Matches, Matches-symm, Matches-trans, properties_match_refl}
use mutagen.Entry.Validity.{
  Check, check_node, check_directory_fields, check_file, check_symbolic_link, ensure_valid,
  ensure_valid_items,
}
use mutagen.Reconcile.{nil_or_untracked}

-- A valid entry that is no phantom directory.
abbrev pub Ready : Entry → Type 0
Ready e = (ensure_valid false e ≡ none) × (is_kind phantom_directory e ≡ false)

check_synchronizable :
    (p : Props) (c : Contents) (r : Check)
    → check_node false p c r ≡ none
    → (p.kind == phantom_directory) ≡ false
    → (p.kind == problematic) ≡ false
    → (p.kind == untracked) ≡ false
    → (synchronizable_kind p.kind ≡ true) × (p.problem ≡ [])
unfolding check_node check_directory_fields check_file check_symbolic_link Kind-discrete
check_synchronizable p c r h a b d = ground arith

match_without_problem : (p : Props) → p.problem ≡ [] → properties_match (without_problem p) p ≡ true
unfolding properties_match
match_without_problem p h = ground arith

-- A valid node that is neither problematic, untracked nor phantom is synchronizable, and its
-- synchronizable part matches it.
synchronizable-Matches :
    (e : Entry)
    → Ready e
    → is_kind problematic e ≡ false
    → nil_or_untracked e ≡ false
    → Matches (synchronizable e) e
unfolding synchronizable equal ensure_valid
synchronizable-Matches nil h b u = absurd (ground arith)
synchronizable-Matches (node p unset) h b u =
    ground (arith, check_synchronizable p unset none, properties_match_refl p)
synchronizable-Matches (node p (made end)) h b u =
    ground (arith, check_synchronizable p (made end) none, properties_match_refl p)
synchronizable-Matches (node p (made (item n e xs))) h b u =
    let (kind, clean) =
      check_synchronizable p (made (item n e xs)) (ensure_valid_items false (item n e xs)) h.0 h.1 b
        u in
    elim (Bool-cases (p.kind == directory)) [
      | inl d ↦ rw (kind, d, match_without_problem p clean) refl
      | inr d ↦ rw (kind, d, properties_match_refl p) refl
    ]

synchronizable-nil : (e : Entry) → nil_or_untracked e ≡ true → synchronizable e ≡ nil
unfolding synchronizable Kind-discrete
synchronizable-nil nil h = refl
synchronizable-nil (node p unset) h = ground arith
synchronizable-nil (node p (made end)) h = ground arith
synchronizable-nil (node p (made (item n e xs))) h = ground arith

-- A side with something to synchronize is no match of an absent one.
nil-differs :
    (e : Entry)
    → Ready e
    → is_kind problematic e ≡ false
    → nil_or_untracked e ≡ false
    → Matches nil (synchronizable e)
    → ⊥
unfolding equal
nil-differs nil k p y m = absurd (ground arith)
nil-differs (node q c) k p y m = absurd (
    cc (
      Matches-trans nil (synchronizable (node q c)) (node q c) m
        (synchronizable-Matches (node q c) k p y)))

-- Sides that differ have synchronizable parts that differ.
pub differ-synchronizable :
    (alpha beta : Entry)
    → Ready alpha
    → Ready beta
    → (is_kind problematic alpha || is_kind problematic beta) ≡ false
    → (nil_or_untracked alpha && nil_or_untracked beta) ≡ false
    → equal alpha beta false ≡ false
    → Matches (synchronizable alpha) (synchronizable beta)
    → ⊥
unfolding equal
differ-synchronizable alpha beta h k p u d m = elim (Bool-cases (nil_or_untracked alpha)) [
  | inl x ↦ elim (Bool-cases (nil_or_untracked beta)) [
    | inl y ↦ ground arith
    | inr y ↦
        nil-differs beta k (ground arith) y
          (subst (λ e. Matches e (synchronizable beta)) (synchronizable-nil alpha x) m)
  ]
  | inr x ↦ elim (Bool-cases (nil_or_untracked beta)) [
    | inl y ↦ nil-differs alpha h (ground arith) x (
        subst (λ e. Matches e (synchronizable alpha)) (synchronizable-nil beta y)
          (Matches-symm _ _ m))
    | inr y ↦ absurd (
        cc (
          Matches-trans alpha (synchronizable alpha) beta
              (Matches-symm _ _ (synchronizable-Matches alpha h (ground arith) x))
              (Matches-trans (synchronizable alpha) (synchronizable beta) beta m
                (synchronizable-Matches beta k (ground arith) y)),
          d,
        ))
  ]
]
