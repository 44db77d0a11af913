-- ===== src/Session/Losses.antt =====
-- That a side which lost its root, or the content of its root, halts a session
-- (pkg/synchronization/controller.go, safety.go).
use mutagen.Base.{
  Bytes, true, ◌⊎◌, inl, inr, List, [], nat_eq, length, ◌≡◌, ◌≢◌, refl, ap, ◌∙◌, arith, ◌<◌,
}
use mutagen.Entry.{
  directory, kind_eq, Entry, nil, Items, end, item, items_of, get_contents, names, count_items,
  is_kind,
}
use mutagen.Reconcile.{
  Mode, default_mode, two_way_safe, two_way_resolved, one_way_safe, one_way_replica, reconcile,
}
use mutagen.Reconcile.Sound.{changes_alpha}
use mutagen.Reconcile.RootDeletion.{IsUnmodified, alpha_lost-DeletesRoot, beta_lost-DeletesRoot}
use mutagen.Safety.{one_endpoint_emptied_root, count_contents}
use mutagen.Session.{Configuration, Circumstances, Endpoint, Snapshot, Loop, effective_mode}
use mutagen.Session.Cycle.{use_snapshots}
use mutagen.Session.Halts.{IsHalted, IsDangerous, prepared_contents, use_snapshots-halts}

abbrev pub content_names : Entry → List Bytes
content_names e = names (items_of (get_contents e))

-- All three are directories, the ancestor has two names or more, one side has none and the other has
-- some.
pub record IsEmptied (ancestor emptied other : Entry) : Type 0 where
  pub ancestor_directory : is_kind directory ancestor ≡ true
  pub emptied_directory : is_kind directory emptied ≡ true
  pub other_directory : is_kind directory other ≡ true
  pub had_content : 1 < length (content_names ancestor)
  pub has_none : content_names emptied ≡ []
  pub has_some : 0 < length (content_names other)

-- One side has lost its root, or all content of its root, and the other has not.
pub data IsLoss (mode : Mode) (ancestor alpha beta : Entry) : Type 0 where
  alpha_lost_root : alpha ≡ nil → IsUnmodified ancestor beta → IsLoss mode ancestor alpha beta
  beta_lost_root :
      changes_alpha mode ≡ true
      → beta ≡ nil
      → IsUnmodified ancestor alpha
      → IsLoss mode ancestor alpha beta
  alpha_lost_content : IsEmptied ancestor alpha beta → IsLoss mode ancestor alpha beta
  beta_lost_content : IsEmptied ancestor beta alpha → IsLoss mode ancestor alpha beta

count-names : (xs : Items) → count_items xs ≡ length (names xs)
count-names end = refl
count-names (item n e xs) = omega (arith, count-names xs)

emptied_root :
    (ancestor alpha beta : Entry)
    → is_kind directory ancestor ≡ true
    → is_kind directory alpha ≡ true
    → is_kind directory beta ≡ true
    → 1 < count_contents ancestor
    → ((count_contents alpha ≡ 0) × (0 < count_contents beta))
      ⊎ ((count_contents beta ≡ 0) × (0 < count_contents alpha))
    → one_endpoint_emptied_root ancestor alpha beta ≡ true
emptied_root ancestor alpha beta a b c more (inl (none_left, some_left)) = ground arith
emptied_root ancestor alpha beta a b c more (inr (none_left, some_left)) = ground arith

IsEmptied-counts :
    (ancestor emptied other : Entry)
    → IsEmptied ancestor emptied other
    → (1 < count_contents ancestor) × (count_contents emptied ≡ 0) × (0 < count_contents other)
IsEmptied-counts ancestor emptied other h = (
  omega (arith, count-names (items_of (get_contents ancestor)), h.had_content),
  omega (arith, count-names (items_of (get_contents emptied)), ap length h.has_none),
  omega (arith, count-names (items_of (get_contents other)), h.has_some),
)

effective_mode-named : (mode : Mode) → effective_mode mode ≢ default_mode
unfolding effective_mode
effective_mode-named default_mode = grind arith
effective_mode-named two_way_safe = grind arith
effective_mode-named two_way_resolved = grind arith
effective_mode-named one_way_safe = grind arith
effective_mode-named one_way_replica = grind arith

loss-IsDangerous :
    (c : Configuration) (ancestor alpha beta : Entry)
    → IsLoss (effective_mode c.synchronization_mode) ancestor alpha beta
    → IsDangerous c ancestor alpha beta
loss-IsDangerous c ancestor alpha beta (alpha_lost_root gone u) =
    let mode = effective_mode c.synchronization_mode in
    let (plan, e, deletes) =
      alpha_lost-DeletesRoot ancestor beta u mode (effective_mode-named c.synchronization_mode) in
    inr (plan, ap (λ a. reconcile ancestor a beta mode) gone ∙ e, inl deletes)
loss-IsDangerous c ancestor alpha beta (beta_lost_root m gone u) =
    let mode = effective_mode c.synchronization_mode in
    let (plan, e, deletes) = beta_lost-DeletesRoot mode ancestor alpha m u in
    inr (plan, ap (λ b. reconcile ancestor alpha b mode) gone ∙ e, inl deletes)
loss-IsDangerous c ancestor alpha beta (alpha_lost_content h) =
    let (more, none_left, some_left) = IsEmptied-counts ancestor alpha beta h in
    inl (
      emptied_root ancestor alpha beta h.ancestor_directory h.emptied_directory h.other_directory
        more (inl (none_left, some_left)))
loss-IsDangerous c ancestor alpha beta (beta_lost_content h) =
    let (more, none_left, some_left) = IsEmptied-counts ancestor beta alpha h in
    inl (
      emptied_root ancestor alpha beta h.ancestor_directory h.other_directory h.emptied_directory
        more (inr (none_left, some_left)))

-- If, after two scans that succeeded, one side has lost its root while the other is as the ancestor
-- has it, with nothing unsynchronizable, and the mode would carry this over, or one side has lost all
-- of the two or more contents that its root directory has in the ancestor while the other side's has
-- some, then the round ends for safety, with no call of an endpoint after the scans, and with the
-- archive and the ancestor as they were.
pub use_snapshots-IsHalted :
    {W R : Type 0} (c : Configuration) (k : Circumstances) (alpha beta : Endpoint W R)
    (a b : Snapshot) (l : Loop W)
    → IsLoss
        (effective_mode c.synchronization_mode)
        l.ancestor
        (prepared_contents c l.ancestor a b).alpha
        (prepared_contents c l.ancestor a b).beta
    → IsHalted l (use_snapshots c k alpha beta a b l)
use_snapshots-IsHalted c k alpha beta a b l loss = use_snapshots-halts c k alpha beta a b l (
    loss-IsDangerous c l.ancestor (prepared_contents c l.ancestor a b).alpha
      (prepared_contents c l.ancestor a b).beta loss)
