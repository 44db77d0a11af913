-- ===== src/Reconcile/Sound.antt =====
-- Each change that `reconcile` makes, held against the level that it comes from.
use mutagen.Base.{
  Bytes, Bool, true, false, ◌&&◌, ◌||◌, List, ◌≡◌, refl, sym, ap, inl, inr, is_empty,
  eq_nil_of_is_empty, All, Bool-cases, not,
}
use mutagen.Entry.{Entry, is_nil, is_kind, directory, kind_eq}
use mutagen.Entry.Compare.{equal}
use mutagen.Entry.Copy.{synchronizable}
use mutagen.Entry.Shallow.{Matches-trans, Matches-refl, eq_nil_of_is_nil}
use mutagen.Entry.Tree.{Agree, Covered, Covered-of_Agree, Covered-trans}
use mutagen.Change.{Change, diff}
use mutagen.Change.Diff.{diff-nil_iff}
use mutagen.Reconcile.{
  Mode, default_mode, two_way_safe, two_way_resolved, one_way_safe, one_way_replica, Action,
  to_ancestor, to_alpha, to_beta, report, panics, exhausted, nil_or_untracked, untrack,
  update_ancestor, extract_non_deletion_changes, change_beta_unless_blocked,
  change_alpha_unless_blocked, resolve_modified, force_resolution, handle_disagreement,
  handle_disagreement_bidirectional, handle_disagreement_one_way_safe,
  handle_disagreement_one_way_replica,
}
use mutagen.Reconcile.Kept.{Covered-of_extract}
use mutagen.Reconcile.Locate.{own_actions, All-own_actions}

-- The modes that may change alpha, and those that keep what beta created or modified.
abbrev pub changes_alpha : Mode → Bool
changes_alpha two_way_safe = true
changes_alpha two_way_resolved = true
changes_alpha _ = false

abbrev pub protects_beta : Mode → Bool
protects_beta two_way_safe = true
protects_beta one_way_safe = true
protects_beta _ = false

-- A change of one side at a level: its path, and what it replaces. The old value is what the side
-- holds, the side holds nothing unsynchronizable there, and all that it holds stands in the
-- ancestor too.
abbrev pub Replaces : Bytes → Entry → Change → Type 0
Replaces path side c = (c.path ≡ path) × Agree c.old side × Agree (synchronizable side) side

abbrev pub Sound : Mode → Bytes → Entry → Entry → Entry → Action → Type 0
Sound mode path ancestor alpha beta (to_ancestor c) = c.path ≡ path
Sound mode path ancestor alpha beta (to_alpha c) =
    (changes_alpha mode ≡ true) × Replaces path alpha c × Covered ancestor alpha
Sound mode path ancestor alpha beta (to_beta c) =
    Replaces path beta c
    × (c.new ≡ synchronizable alpha)
    × (protects_beta mode ≡ true → Covered ancestor beta)
Sound mode path ancestor alpha beta (report c) = c.root ≡ path
Sound mode path ancestor alpha beta panics = mode ≡ default_mode
Sound mode path ancestor alpha beta exhausted = ⊥

pub Agree-refl : (a : Entry) → Agree a a
Agree-refl a ns = Matches-refl _

pub Agree-trans : (a b c : Entry) → Agree a b → Agree b c → Agree a c
Agree-trans a b c h k ns = Matches-trans _ _ _ (h ns) (k ns)

module _ (mode : Mode) (path : Bytes) (ancestor alpha beta : Entry) where
  abbrev pub AllSound : List Action → Type 0
  AllSound actions = All (Sound mode path ancestor alpha beta) actions

  pub change_beta-Sound :
      (changes : List Change) (c : Change)
      → c.path ≡ path
      → c.new ≡ synchronizable alpha
      → (Agree (synchronizable beta) beta → Agree c.old beta)
      → (protects_beta mode ≡ true → Covered ancestor (synchronizable beta))
      → AllSound (change_beta_unless_blocked path changes (synchronizable beta) c beta)
  unfolding change_beta_unless_blocked
  change_beta-Sound changes c p new old kept =
      elim (Bool-cases (is_empty (diff path (synchronizable beta) beta))) [
        | inr blocked ↦ rw blocked (refl, tt)
        | inl free ↦
            let same =
              (diff-nil_iff path (synchronizable beta) beta).0 (eq_nil_of_is_empty _ free) in
            rw free (
              (
                (p, old same, same),
                new,
                λ h. Covered-trans _ _ _ (kept h) (Covered-of_Agree _ _ same),
              ),
              tt,
            )
      ]

  pub change_alpha-Sound :
      (changes : List Change) (c : Change)
      → changes_alpha mode ≡ true
      → c.path ≡ path
      → (Agree (synchronizable alpha) alpha → Agree c.old alpha)
      → Covered ancestor (synchronizable alpha)
      → AllSound (change_alpha_unless_blocked path changes (synchronizable alpha) c alpha)
  unfolding change_alpha_unless_blocked
  change_alpha-Sound changes c m p old kept =
      elim (Bool-cases (is_empty (diff path (synchronizable alpha) alpha))) [
        | inr blocked ↦ rw blocked (refl, tt)
        | inl free ↦
            let same =
              (diff-nil_iff path (synchronizable alpha) alpha).0 (eq_nil_of_is_empty _ free) in
            rw free
              ((m, (p, old same, same), Covered-trans _ _ _ kept (Covered-of_Agree _ _ same)), tt)
      ]

  -- A side whose diff is empty, or has deletions alone, is covered by the ancestor.
  pub Covered-of_unmodified :
      (side : Entry) → is_empty (diff path ancestor side) ≡ true → Covered ancestor side
  Covered-of_unmodified side h =
      Covered-of_Agree _ _ ((diff-nil_iff path ancestor side).0 (eq_nil_of_is_empty _ h))

  pub Covered-of_deletions :
      (side : Entry)
      → is_empty (extract_non_deletion_changes (diff path ancestor side)) ≡ true
      → Covered ancestor side
  Covered-of_deletions side h = Covered-of_extract path ancestor side (eq_nil_of_is_empty _ h)

  -- A forced resolution happens in the mode that does not protect beta.
  force_resolution-Sound :
      (m : Mode) (α_kept β_kept : List Change)
      → m ≡ mode
      → changes_alpha mode ≡ true
      → AllSound
          (force_resolution m path beta (synchronizable alpha) (synchronizable beta) α_kept β_kept)
  unfolding force_resolution
  force_resolution-Sound two_way_safe α_kept β_kept e h = (refl, tt)
  force_resolution-Sound two_way_resolved α_kept β_kept e h =
      change_beta-Sound _ _ refl refl (λ s. s) (λ k. cc (ap protects_beta e))
  force_resolution-Sound _ α_kept β_kept e h = absurd (cc (ap changes_alpha e))

  resolve_modified-Sound :
      changes_alpha mode ≡ true
      → AllSound (
          resolve_modified mode path alpha beta
            (synchronizable alpha)
            (synchronizable beta)
            (diff path ancestor (synchronizable alpha))
            (diff path ancestor (synchronizable beta)))
  unfolding resolve_modified
  resolve_modified-Sound m =
      elim (Bool-cases
        (is_empty (extract_non_deletion_changes (diff path ancestor (synchronizable beta))))) [
          | inl b ↦
              elim (Bool-cases (
                is_empty
                  (extract_non_deletion_changes (diff path ancestor (synchronizable alpha))))) [
                    | inl a ↦ elim (Bool-cases (is_nil (synchronizable alpha))) [
                      | inl n ↦
                          rw (a, b, n)
                            (change_beta-Sound _ _ refl (sym (eq_nil_of_is_nil _ n)) (λ s. s)
                              (λ _. Covered-of_deletions _ b))
                      | inr s ↦
                          rw (a, b, s)
                            (change_alpha-Sound _ _ m refl (λ s. s) (Covered-of_deletions _ a))
                    ]
                    | inr a ↦
                        rw (a, b)
                          (change_beta-Sound _ _ refl refl (λ s. s) (λ _. Covered-of_deletions _ b))
                  ]
          | inr b ↦
              elim (Bool-cases (
                is_empty
                  (extract_non_deletion_changes (diff path ancestor (synchronizable alpha))))) [
                    | inl a ↦
                        rw (a, b)
                          (change_alpha-Sound _ _ m refl (λ s. s) (Covered-of_deletions _ a))
                    | inr a ↦ rw (a, b) (force_resolution-Sound mode _ _ refl m)
                  ]
        ]

  handle_bidirectional-Sound :
      changes_alpha mode ≡ true
      → AllSound (handle_disagreement_bidirectional mode path ancestor alpha beta)
  unfolding handle_disagreement_bidirectional
  handle_bidirectional-Sound m =
      elim (Bool-cases (is_empty (diff path ancestor (synchronizable beta)))) [
        | inl b ↦ rw b (
            change_beta-Sound _ _ refl refl
              (λ s.
                Agree-trans _ _ _
                  ((diff-nil_iff path ancestor (synchronizable beta)).0 (eq_nil_of_is_empty _ b)) s)
              (λ _. Covered-of_unmodified _ b))
        | inr b ↦ elim (Bool-cases (is_empty (diff path ancestor (synchronizable alpha)))) [
          | inl a ↦
              rw (b, a)
                (change_alpha-Sound _ _ m refl
                  (λ s.
                    Agree-trans _ _ _
                      ((diff-nil_iff path ancestor (synchronizable alpha)).0
                        (eq_nil_of_is_empty _ a))
                      s)
                  (Covered-of_unmodified _ a))
          | inr a ↦ rw (b, a) (resolve_modified-Sound m)
        ]
      ]

  untrack-Sound : AllSound (untrack path ancestor)
  untrack-Sound = elim (Bool-cases (is_nil ancestor)) [ inl n ↦ rw n tt | inr n ↦ rw n (refl, tt) ]

  handle_one_way_safe-Sound : AllSound (handle_disagreement_one_way_safe path ancestor alpha beta)
  unfolding handle_disagreement_one_way_safe
  handle_one_way_safe-Sound =
      elim (Bool-cases
        (is_empty (extract_non_deletion_changes (diff path ancestor (synchronizable beta))))) [
          | inl b ↦ rw b (
              change_beta-Sound _ _ refl refl (λ s. Agree-refl beta)
                (λ _. Covered-of_deletions _ b))
          | inr b ↦
              elim (Bool-cases (
                nil_or_untracked alpha
                && (not (is_kind directory ancestor) || not (is_kind directory beta)))) [
                  | inl u ↦ rw (b, u) untrack-Sound
                  | inr u ↦ rw (b, u) (refl, tt)
                ]
        ]

  handle_one_way_replica-Sound :
      protects_beta mode ≡ false
      → AllSound (handle_disagreement_one_way_replica path ancestor alpha beta)
  unfolding handle_disagreement_one_way_replica
  handle_one_way_replica-Sound m = change_beta-Sound _ _ refl refl (λ s. Agree-refl beta) (λ h. cc)

  update_ancestor-Sound : AllSound (update_ancestor path ancestor alpha)
  update_ancestor-Sound = elim (Bool-cases (equal ancestor alpha false)) [
    | inl e ↦ rw e tt
    | inr e ↦ rw e (refl, tt)
  ]

handle_disagreement-Sound :
    (mode : Mode) (path : Bytes) (ancestor alpha beta : Entry)
    → AllSound mode path ancestor alpha beta (handle_disagreement mode path ancestor alpha beta)
unfolding handle_disagreement
handle_disagreement-Sound default_mode path ancestor alpha beta = (refl, tt)
handle_disagreement-Sound two_way_safe path ancestor alpha beta =
    handle_bidirectional-Sound two_way_safe path ancestor alpha beta refl
handle_disagreement-Sound two_way_resolved path ancestor alpha beta =
    handle_bidirectional-Sound two_way_resolved path ancestor alpha beta refl
handle_disagreement-Sound one_way_safe path ancestor alpha beta =
    handle_one_way_safe-Sound one_way_safe path ancestor alpha beta
handle_disagreement-Sound one_way_replica path ancestor alpha beta =
    handle_one_way_replica-Sound one_way_replica path ancestor alpha beta refl

pub own_actions-Sound :
    (mode : Mode) (path : Bytes) (ancestor alpha beta : Entry)
    → AllSound mode path ancestor alpha beta (own_actions mode path ancestor alpha beta)
own_actions-Sound mode path ancestor alpha beta =
    All-own_actions (Sound mode path ancestor alpha beta) mode path ancestor alpha beta
      (untrack-Sound mode path ancestor alpha beta)
      (λ same. update_ancestor-Sound mode path ancestor alpha beta)
      (λ _ _ differ. handle_disagreement-Sound mode path ancestor alpha beta)
