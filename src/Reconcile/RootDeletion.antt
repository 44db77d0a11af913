-- ===== src/Reconcile/RootDeletion.antt =====
-- What `Reconcile` of pkg/synchronization/core/reconcile.go plans where one side has lost its root and
-- the other is as the last synchronization left it.
use mathlib.Core.Path.{subst}
use mathlib.Core.Option
use mutagen.Base.{
  Bytes, true, false, ◌&&◌, ◌||◌, inl, inr, Option, some, List, [], ◌∷◌, bytes_eq, nat_eq, ◌≡◌, ◌≢◌,
  refl, sym, ap, ◌∙◌, arith, is_empty, eq_nil_of_is_empty, ==_self, Bool-cases,
}
use mutagen.Entry.{
  Kind-discrete, kind_eq, problematic, Entry, nil, node, unset, made, end, item, is_kind, is_nil,
}
use mutagen.Entry.Compare.{equal}
use mutagen.Entry.Copy.{synchronizable}
use mutagen.Entry.Tree.{Agree}
use mutagen.Entry.Shallow.{Matches-symm, is_nil_of_Matches}
use mutagen.Change.{diff, is_root_deletion}
use mutagen.Change.Diff.{diff-nil_iff}
use mutagen.Reconcile.{
  Mode, default_mode, two_way_safe, two_way_resolved, one_way_safe, one_way_replica, Action,
  to_alpha, to_beta, Plan, nil_or_untracked, change_alpha_unless_blocked,
  change_beta_unless_blocked, handle_disagreement, handle_disagreement_bidirectional,
  handle_disagreement_one_way_safe, handle_disagreement_one_way_replica,
  extract_non_deletion_changes, reconcile_from, reconcile_actions, collect, reconcile,
}
use mutagen.Reconcile.Sound.{changes_alpha, Agree-trans}
use mutagen.Safety.{contains_root_deletion}

-- A side that was left as the last synchronization left it, with nothing unsynchronizable.
pub record IsUnmodified (ancestor side : Entry) : Type 0 where
  pub exists : is_nil ancestor ≡ false
  pub unmodified : Agree ancestor side
  pub clean : Agree (synchronizable side) side

unsynchronizable-nil :
    (e : Entry) → (is_kind problematic e || nil_or_untracked e) ≡ true → synchronizable e ≡ nil
unfolding synchronizable Kind-discrete
unsynchronizable-nil nil h = refl
unsynchronizable-nil (node p unset) h = ground arith
unsynchronizable-nil (node p (made end)) h = ground arith
unsynchronizable-nil (node p (made (item n e xs))) h = ground arith

module _ (ancestor side : Entry) (u : IsUnmodified ancestor side) where
  side_exists : is_nil side ≡ false
  side_exists = elim (Bool-cases (is_nil side)) [
    | inr e ↦ e
    | inl e ↦ absurd (cc (is_nil_of_Matches ancestor side (u.unmodified []) e, u.exists))
  ]

  side_synchronizable : (is_kind problematic side || nil_or_untracked side) ≡ false
  side_synchronizable = elim (Bool-cases (is_kind problematic side || nil_or_untracked side)) [
    | inr e ↦ e
    | inl e ↦ absurd (
        cc (
          is_nil_of_Matches side (synchronizable side) (Matches-symm _ _ (u.clean []))
              (ap is_nil (unsynchronizable-nil side e)),
          side_exists,
        ))
  ]

  no_diff : (path : Bytes) → diff path ancestor (synchronizable side) ≡ []
  no_diff path = (diff-nil_iff path ancestor (synchronizable side)).1 (
      Agree-trans ancestor side (synchronizable side) u.unmodified
        (λ ns. Matches-symm _ _ (u.clean ns)))

  no_block : (path : Bytes) → diff path (synchronizable side) side ≡ []
  no_block path = (diff-nil_iff path (synchronizable side) side).1 u.clean

  gone-differs : is_empty (diff [] ancestor nil) ≡ false
  gone-differs = elim (Bool-cases (is_empty (diff [] ancestor nil))) [
    | inr e ↦ e
    | inl e ↦ absurd (
        cc (
          is_nil_of_Matches ancestor nil
              ((diff-nil_iff [] ancestor nil).0 (eq_nil_of_is_empty _ e) []) refl,
          u.exists,
        ))
  ]

-- A traversal that stops at the root.
root_only :
    (mode : Mode) (ancestor alpha beta : Entry)
    → (is_kind problematic alpha || is_kind problematic beta) ≡ false
    → (nil_or_untracked alpha && nil_or_untracked beta) ≡ false
    → equal alpha beta false ≡ false
    → reconcile_actions mode ancestor alpha beta ≡ handle_disagreement mode [] ancestor alpha beta
unfolding reconcile_actions reconcile_from
root_only mode ancestor alpha beta p u d = rw (p, u, d) refl

deletes_root :
    (old : Entry)
    → is_nil old ≡ false
    → is_root_deletion (record { path = []; old = old; new = nil }) ≡ true
unfolding is_root_deletion
deletes_root old h = rw (==_self {A = Bytes} [], h) refl

-- There is a plan that deletes the root of a side.
abbrev pub DeletesRoot : Option Plan → Type 0
DeletesRoot o =
    (plan : Plan) × (o ≡ some plan)
    × ((contains_root_deletion plan.alpha_changes || contains_root_deletion plan.beta_changes)
        ≡ true)

alpha_deletion :
    (old : Entry)
    → is_nil old ≡ false
    → DeletesRoot (collect (to_alpha (record { path = []; old = old; new = nil }) ∷ []))
unfolding collect Option.bind
alpha_deletion old h = (_, refl, rw (deletes_root old h) refl)

beta_deletion :
    (old : Entry)
    → is_nil old ≡ false
    → DeletesRoot (collect (to_beta (record { path = []; old = old; new = nil }) ∷ []))
unfolding collect Option.bind
beta_deletion old h = (_, refl, rw (deletes_root old h) refl)

beta_lost-bidirectional :
    (mode : Mode) (ancestor alpha : Entry)
    → IsUnmodified ancestor alpha
    → handle_disagreement_bidirectional mode [] ancestor alpha nil
      ≡ to_alpha (record { path = []; old = ancestor; new = nil }) ∷ []
unfolding handle_disagreement_bidirectional change_alpha_unless_blocked synchronizable
beta_lost-bidirectional mode ancestor alpha u =
    rw (gone-differs ancestor alpha u, no_diff ancestor alpha u [], no_block ancestor alpha u [])
      refl

equal-nil :
    (e : Entry) → is_nil e ≡ false → (equal e nil false ≡ false) × (equal nil e false ≡ false)
unfolding equal
equal-nil nil h = absurd (cc h)
equal-nil (node p c) h = (refl, refl)

kept_root :
    (e : Entry)
    → (is_kind problematic e || nil_or_untracked e) ≡ false
    → (is_kind problematic e ≡ false) × (nil_or_untracked e ≡ false)
kept_root e h = (ground arith, ground arith)

pub beta_lost-DeletesRoot :
    (mode : Mode) (ancestor alpha : Entry)
    → changes_alpha mode ≡ true
    → IsUnmodified ancestor alpha
    → DeletesRoot (reconcile ancestor alpha nil mode)
unfolding reconcile handle_disagreement
beta_lost-DeletesRoot mode ancestor alpha m u =
    let (sound, tracked) = kept_root alpha (side_synchronizable ancestor alpha u) in
    let root =
      root_only mode ancestor alpha nil (ground arith) (ground arith)
        (equal-nil alpha (side_exists ancestor alpha u)).0 in
    subst (λ actions. DeletesRoot (collect actions)) (sym (root ∙ handled mode m))
      (alpha_deletion ancestor u.exists)
  where
    handled :
        (mode : Mode)
        → changes_alpha mode ≡ true
        → handle_disagreement mode [] ancestor alpha nil
          ≡ to_alpha (record { path = []; old = ancestor; new = nil }) ∷ []
    handled two_way_safe m = beta_lost-bidirectional two_way_safe ancestor alpha u
    handled two_way_resolved m = beta_lost-bidirectional two_way_resolved ancestor alpha u
    handled _ m = absurd (cc m)

-- The change of beta: its old value is the ancestor, or what beta holds.
abbrev DeletesBeta : List Action → Type 0
DeletesBeta actions =
    (old : Entry) × (is_nil old ≡ false)
    × (actions ≡ to_beta (record { path = []; old = old; new = nil }) ∷ [])

module _ (ancestor beta : Entry) (u : IsUnmodified ancestor beta) where
  alpha_lost-bidirectional :
      (mode : Mode) → DeletesBeta (handle_disagreement_bidirectional mode [] ancestor nil beta)
  unfolding handle_disagreement_bidirectional change_beta_unless_blocked synchronizable
  alpha_lost-bidirectional mode =
      (ancestor, u.exists, rw (no_diff ancestor beta u [], no_block ancestor beta u []) refl)

  alpha_lost-one_way_safe : DeletesBeta (handle_disagreement_one_way_safe [] ancestor nil beta)
  unfolding handle_disagreement_one_way_safe change_beta_unless_blocked extract_non_deletion_changes
      synchronizable
  alpha_lost-one_way_safe = (
    beta,
    side_exists ancestor beta u,
    rw (no_diff ancestor beta u [], no_block ancestor beta u []) refl,
  )

  alpha_lost-one_way_replica :
      DeletesBeta (handle_disagreement_one_way_replica [] ancestor nil beta)
  unfolding handle_disagreement_one_way_replica change_beta_unless_blocked synchronizable
  alpha_lost-one_way_replica =
      (beta, side_exists ancestor beta u, rw (no_block ancestor beta u []) refl)

  alpha_lost-handled :
      (mode : Mode)
      → mode ≢ default_mode
      → DeletesBeta (handle_disagreement mode [] ancestor nil beta)
  unfolding handle_disagreement
  alpha_lost-handled default_mode m = absurd (m refl)
  alpha_lost-handled two_way_safe m = alpha_lost-bidirectional two_way_safe
  alpha_lost-handled two_way_resolved m = alpha_lost-bidirectional two_way_resolved
  alpha_lost-handled one_way_safe m = alpha_lost-one_way_safe
  alpha_lost-handled one_way_replica m = alpha_lost-one_way_replica

  pub alpha_lost-DeletesRoot :
      (mode : Mode) → mode ≢ default_mode → DeletesRoot (reconcile ancestor nil beta mode)
  unfolding reconcile
  alpha_lost-DeletesRoot mode m =
      let (sound, tracked) = kept_root beta (side_synchronizable ancestor beta u) in
      let (old, exists, handled) = alpha_lost-handled mode m in
      let root =
        root_only mode ancestor nil beta sound tracked
          (equal-nil beta (side_exists ancestor beta u)).1 in
      subst (λ actions. DeletesRoot (collect actions)) (sym (root ∙ handled))
        (beta_deletion old exists)
