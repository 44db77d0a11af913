-- ===== src/Reconcile/Conflicts.antt =====
-- The two lists of changes of the conflicts in pkg/synchronization/core/reconcile.go.
use mutagen.Base.{
  Bytes, true, false, ◌&&◌, ◌||◌, not, none, some, List, [], ◌∷◌, ◌≡◌, refl, inl, inr, is_empty,
  eq_nil_of_is_empty, All, All-map, Bool-cases,
}
use mutagen.Entry.{kind_eq, directory, Entry, is_nil, is_kind}
use mutagen.Entry.Compare.{equal}
use mutagen.Entry.Copy.{synchronizable}
use mutagen.Entry.Shallow.{Matches, Matches-symm, Matches-trans}
use mutagen.Entry.Tree.{descend}
use mutagen.Entry.Names.{ensure_valid-descend}
use mutagen.Entry.Validity.{ensure_valid}
use mutagen.Change.{Change, Conflict, diff}
use mutagen.Change.Diff.{diff-nil_iff}
use mutagen.Reconcile.{
  Mode, default_mode, two_way_safe, two_way_resolved, one_way_safe, one_way_replica, Action, report,
  nil_or_untracked, untrack, extract_non_deletion_changes, change_beta_unless_blocked,
  change_alpha_unless_blocked, resolve_modified, force_resolution, handle_disagreement,
  handle_disagreement_bidirectional, handle_disagreement_one_way_safe,
  handle_disagreement_one_way_replica, Plan, reconcile,
}
use mutagen.Reconcile.Locate.{own_actions, All-own_actions}
use mutagen.Reconcile.Safety.{AllPlan-reconcile}
use mutagen.Phantom.Free.{PhantomFree}
use mutagen.Reconcile.Differ.{Ready, differ-synchronizable}

abbrev pub Filled : Conflict → Type 0
Filled c = (is_empty c.alpha_changes ≡ false) × (is_empty c.beta_changes ≡ false)

abbrev IsFilled : Action → Type 0
IsFilled (report c) = Filled c
IsFilled _ = Unit

module _ (path : Bytes) where
  change_beta-IsFilled :
      (changes : List Change) (β : Entry) (c : Change) (beta : Entry)
      → is_empty changes ≡ false
      → All IsFilled (change_beta_unless_blocked path changes β c beta)
  unfolding change_beta_unless_blocked
  change_beta-IsFilled changes β c beta h = elim (Bool-cases (is_empty (diff path β beta))) [
    | inl free ↦ rw free (tt, tt)
    | inr blocked ↦ rw blocked ((h, blocked), tt)
  ]

  change_alpha-IsFilled :
      (changes : List Change) (α : Entry) (c : Change) (alpha : Entry)
      → is_empty changes ≡ false
      → All IsFilled (change_alpha_unless_blocked path changes α c alpha)
  unfolding change_alpha_unless_blocked
  change_alpha-IsFilled changes α c alpha h = elim (Bool-cases (is_empty (diff path α alpha))) [
    | inl free ↦ rw free (tt, tt)
    | inr blocked ↦ rw blocked ((blocked, h), tt)
  ]

force_resolution-IsFilled :
    (mode : Mode) (path : Bytes) (beta α β : Entry) (α_kept β_kept : List Change)
    → is_empty α_kept ≡ false
    → is_empty β_kept ≡ false
    → All IsFilled (force_resolution mode path beta α β α_kept β_kept)
unfolding force_resolution
force_resolution-IsFilled two_way_safe path beta α β α_kept β_kept a b = ((a, b), tt)
force_resolution-IsFilled _ path beta α β α_kept β_kept a b =
    change_beta-IsFilled path α_kept β _ beta a

resolve_modified-IsFilled :
    (mode : Mode) (path : Bytes) (alpha beta α β : Entry) (α_diff β_diff : List Change)
    → is_empty α_diff ≡ false
    → is_empty β_diff ≡ false
    → All IsFilled (resolve_modified mode path alpha beta α β α_diff β_diff)
unfolding resolve_modified
resolve_modified-IsFilled mode path alpha beta α β α_diff β_diff a b =
    elim (Bool-cases (is_empty (extract_non_deletion_changes β_diff))) [
      | inl y ↦ elim (Bool-cases (is_empty (extract_non_deletion_changes α_diff))) [
        | inl x ↦ elim (Bool-cases (is_nil α)) [
          | inl n ↦ rw (x, y, n) (change_beta-IsFilled path α_diff β _ beta a)
          | inr n ↦ rw (x, y, n) (change_alpha-IsFilled path β_diff α _ alpha b)
        ]
        | inr x ↦ rw (x, y) (change_beta-IsFilled path _ β _ beta x)
      ]
      | inr y ↦ elim (Bool-cases (is_empty (extract_non_deletion_changes α_diff))) [
        | inl x ↦ rw (x, y) (change_alpha-IsFilled path _ α _ alpha y)
        | inr x ↦ rw (x, y) (force_resolution-IsFilled mode path beta α β _ _ x y)
      ]
    ]

module _ (mode : Mode) (path : Bytes) (ancestor alpha beta : Entry) where
  handle_bidirectional-IsFilled :
      (Matches (synchronizable alpha) (synchronizable beta) → ⊥)
      → All IsFilled (handle_disagreement_bidirectional mode path ancestor alpha beta)
  unfolding handle_disagreement_bidirectional
  handle_bidirectional-IsFilled differ =
      elim (Bool-cases (is_empty (diff path ancestor (synchronizable beta)))) [
        | inl b ↦ elim (Bool-cases (is_empty (diff path ancestor (synchronizable alpha)))) [
          | inl a ↦ absurd (
              differ
                (Matches-trans _ _ _ (Matches-symm _ _ (unmodified alpha a)) (unmodified beta b)))
          | inr a ↦ rw b (change_beta-IsFilled path _ _ _ beta a)
        ]
        | inr b ↦ elim (Bool-cases (is_empty (diff path ancestor (synchronizable alpha)))) [
          | inl a ↦ rw (b, a) (change_alpha-IsFilled path _ _ _ alpha b)
          | inr a ↦ rw (b, a) (resolve_modified-IsFilled mode path alpha beta _ _ _ _ a b)
        ]
      ]
    where
      unmodified :
          (e : Entry)
          → is_empty (diff path ancestor (synchronizable e)) ≡ true
          → Matches ancestor (synchronizable e)
      unmodified e h = (diff-nil_iff path ancestor (synchronizable e)).0 (eq_nil_of_is_empty _ h) []

  untrack-IsFilled : All IsFilled (untrack path ancestor)
  untrack-IsFilled = elim (Bool-cases (is_nil ancestor)) [ inl n ↦ rw n tt | inr n ↦ rw n (tt, tt) ]

  handle_one_way_safe-IsFilled :
      All IsFilled (handle_disagreement_one_way_safe path ancestor alpha beta)
  unfolding handle_disagreement_one_way_safe
  handle_one_way_safe-IsFilled =
      elim (Bool-cases
        (is_empty (extract_non_deletion_changes (diff path ancestor (synchronizable beta))))) [
          | inl b ↦ rw b (change_beta-IsFilled path _ _ _ beta refl)
          | inr b ↦
              elim (Bool-cases (
                nil_or_untracked alpha
                && (not (is_kind directory ancestor) || not (is_kind directory beta)))) [
                  | inl u ↦ rw (b, u) untrack-IsFilled
                  | inr u ↦ rw (b, u) ((refl, b), tt)
                ]
        ]

handle_disagreement-IsFilled :
    (mode : Mode) (path : Bytes) (ancestor alpha beta : Entry)
    → (Matches (synchronizable alpha) (synchronizable beta) → ⊥)
    → All IsFilled (handle_disagreement mode path ancestor alpha beta)
unfolding handle_disagreement handle_disagreement_one_way_replica
handle_disagreement-IsFilled default_mode path ancestor alpha beta d = (tt, tt)
handle_disagreement-IsFilled two_way_safe path ancestor alpha beta d =
    handle_bidirectional-IsFilled two_way_safe path ancestor alpha beta d
handle_disagreement-IsFilled two_way_resolved path ancestor alpha beta d =
    handle_bidirectional-IsFilled two_way_resolved path ancestor alpha beta d
handle_disagreement-IsFilled one_way_safe path ancestor alpha beta d =
    handle_one_way_safe-IsFilled one_way_safe path ancestor alpha beta
handle_disagreement-IsFilled one_way_replica path ancestor alpha beta d =
    change_beta-IsFilled path _ _ _ beta refl

abbrev FilledIfReady : Bytes → Entry → Entry → Entry → Action → Type 0
FilledIfReady path ancestor alpha beta a = Ready alpha → Ready beta → IsFilled a

module _ (mode : Mode) (path : Bytes) (ancestor alpha beta : Entry) where
  IfReady :
      (actions : List Action)
      → (Ready alpha → Ready beta → All IsFilled actions)
      → All (FilledIfReady path ancestor alpha beta) actions
  IfReady [] f = tt
  IfReady (a ∷ actions) f = (λ h k. (f h k).0, IfReady actions (λ h k. (f h k).1))

  own_actions-FilledIfReady :
      All (FilledIfReady path ancestor alpha beta) (own_actions mode path ancestor alpha beta)
  own_actions-FilledIfReady =
      All-own_actions (FilledIfReady path ancestor alpha beta) mode path ancestor alpha beta
        (IfReady _ (λ _ _. untrack-IsFilled mode path ancestor alpha beta))
        (λ same. IfReady _ (λ _ _. elim (Bool-cases (equal ancestor alpha false)) [
          | inl e ↦ rw e tt
          | inr e ↦ rw e (tt, tt)
        ]))
        (λ p u d. IfReady _ (λ h k.
          handle_disagreement-IsFilled mode path ancestor alpha beta
            (differ-synchronizable alpha beta h k p u d)))

Ready-descend :
    (e : Entry) (ns : List Bytes)
    → ensure_valid false e ≡ none
    → PhantomFree e
    → Ready (descend e ns)
Ready-descend e ns h k = (ensure_valid-descend false e ns h, k ns)

-- If both sides are valid and hold no phantom directory, then each conflict that Reconcile returns
-- lists a change of alpha and a change of beta.
pub conflicts-Filled :
    (mode : Mode) (ancestor alpha beta : Entry) {r : Plan}
    → ensure_valid false alpha ≡ none
    → PhantomFree alpha
    → ensure_valid false beta ≡ none
    → PhantomFree beta
    → reconcile ancestor alpha beta mode ≡ some r
    → All Filled r.conflicts
conflicts-Filled mode ancestor alpha beta {r} h hp k kp done =
    All-map _ Filled r.conflicts
      (λ c f. f.1 (Ready-descend alpha f.0 h hp) (Ready-descend beta f.0 k kp))
      (AllPlan-reconcile FilledIfReady mode (own_actions-FilledIfReady mode) ancestor alpha beta
        done).in_conflicts
