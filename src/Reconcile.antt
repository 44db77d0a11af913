-- ===== src/Reconcile.antt =====
-- pkg/synchronization/core/reconcile.go. The reconciler's four lists are only appended to, so its
-- methods return what they append, in order, each item marked with the list that it goes to.
pub mod Kept
pub mod Locate
pub mod Sound
pub mod Safety
pub mod Agreement
pub mod Differ
pub mod Conflicts
pub mod RootDeletion
use mutagen.Base.{
  ℕ, zero, suc, Bytes, Bool, true, false, ◌&&◌, ◌||◌, not, Option, none, some, List, [], ◌∷◌, ◌++◌,
  if◌then◌else◌, flat_map, is_empty,
}
use mathlib.Core.Option
use mutagen.Path.{joinable}
use mutagen.Entry.{
  directory, untracked, problematic, kind_eq, Entry, nil, Contents, unset, get_contents, child,
  name_union, is_kind, is_nil,
}
use mutagen.Entry.Compare.{equal}
use mutagen.Entry.Copy.{copy, slim, synchronizable}
use mutagen.Entry.Measure.{depth}
use mutagen.Change.{Change, Conflict, diff}

-- `SynchronizationMode`; `default_mode` stands for it and for every value without a name.
pub data Mode : Type 0 where
  default_mode two_way_safe two_way_resolved one_way_safe one_way_replica : Mode

-- An item of a list; a panic, or a traversal that goes deeper than its fuel, is an item too.
pub data Action : Type 0 where
  to_ancestor to_alpha to_beta : Change → Action
  report : Conflict → Action
  panics exhausted : Action

-- `extractNonDeletionChanges`
unfoldable pub extract_non_deletion_changes : List Change → List Change
extract_non_deletion_changes [] = []
extract_non_deletion_changes (c ∷ cs) =
    let rest = extract_non_deletion_changes cs in if is_nil c.new then rest else c ∷ rest

abbrev pub nil_or_untracked : Entry → Bool
nil_or_untracked e = is_nil e || is_kind untracked e

-- Nils out the ancestor, if it is not nil already.
abbrev pub untrack : Bytes → Entry → List Action
untrack path ancestor =
    if is_nil ancestor then [] else to_ancestor (record { path = path; old = nil; new = nil }) ∷ []

-- The step that the handlers share: a change goes to one side, unless this side holds
-- unsynchronizable content, which makes it a conflict. `β` is the synchronizable part of `beta`.
module _ (path : Bytes) where
  unfoldable pub change_beta_unless_blocked : List Change → Entry → Change → Entry → List Action
  change_beta_unless_blocked alpha_changes β change beta =
      let blocked = diff path β beta in
      if is_empty blocked
      then to_beta change ∷ []
      else report (record { root = path; alpha_changes = alpha_changes; beta_changes = blocked })
        ∷ []

  unfoldable pub change_alpha_unless_blocked : List Change → Entry → Change → Entry → List Action
  change_alpha_unless_blocked beta_changes α change alpha =
      let blocked = diff path α alpha in
      if is_empty blocked
      then to_alpha change ∷ []
      else report (record { root = path; alpha_changes = blocked; beta_changes = beta_changes })
        ∷ []

-- The end of `handleDisagreementBidirectional`: both sides hold new content.
unfoldable pub force_resolution :
    Mode → Bytes → Entry → Entry → Entry → List Change → List Change → List Action
force_resolution two_way_safe path beta α β α_kept β_kept =
    report (record { root = path; alpha_changes = α_kept; beta_changes = β_kept }) ∷ []
force_resolution _ path beta α β α_kept β_kept =
    change_beta_unless_blocked path α_kept β (record { path = path; old = β; new = α }) beta

-- The part of `handleDisagreementBidirectional` below the three-way merge: both sides changed.
unfoldable pub resolve_modified :
    Mode → Bytes → Entry → Entry → Entry → Entry → List Change → List Change → List Action
resolve_modified mode path alpha beta α β α_diff β_diff =
    let α_kept = extract_non_deletion_changes α_diff in
    let β_kept = extract_non_deletion_changes β_diff in
    if is_empty α_kept && is_empty β_kept
    then if is_nil α
      then change_beta_unless_blocked path α_diff β (record { path = path; old = β; new = nil })
          beta
      else change_alpha_unless_blocked path β_diff α (record { path = path; old = α; new = nil })
          alpha
    else if is_empty β_kept
    then change_beta_unless_blocked path α_kept β (record { path = path; old = β; new = α }) beta
    else if is_empty α_kept
    then change_alpha_unless_blocked path β_kept α (record { path = path; old = α; new = β }) alpha
    else force_resolution mode path beta α β α_kept β_kept

unfoldable pub handle_disagreement_bidirectional :
    Mode → Bytes → Entry → Entry → Entry → List Action
handle_disagreement_bidirectional mode path ancestor alpha beta =
    let α = synchronizable alpha in
    let β = synchronizable beta in
    let α_diff = diff path ancestor α in
    let β_diff = diff path ancestor β in
    if is_empty β_diff
    then change_beta_unless_blocked path α_diff β (record { path = path; old = ancestor; new = α })
        beta
    else if is_empty α_diff
    then change_alpha_unless_blocked path β_diff α (record { path = path; old = ancestor; new = β })
        alpha
    else resolve_modified mode path alpha beta α β α_diff β_diff

-- The "synthetic" change of alpha in the conflicts of the one-way modes.
abbrev pub synthetic : Bytes → Entry → Entry → List Change
synthetic path ancestor alpha = record { path = path; old = ancestor; new = alpha } ∷ []

unfoldable pub handle_disagreement_one_way_safe : Bytes → Entry → Entry → Entry → List Action
handle_disagreement_one_way_safe path ancestor alpha beta =
    let β = synchronizable beta in
    let β_kept = extract_non_deletion_changes (diff path ancestor β) in
    if is_empty β_kept
    then change_beta_unless_blocked path (synthetic path ancestor alpha) β
        (record { path = path; old = beta; new = synchronizable alpha }) beta
    else if nil_or_untracked alpha
        && (not (is_kind directory ancestor) || not (is_kind directory beta))
    then untrack path ancestor
    else report (record {
      root = path;
      alpha_changes = synthetic path ancestor alpha;
      beta_changes = β_kept;
    })
      ∷ []

unfoldable pub handle_disagreement_one_way_replica : Bytes → Entry → Entry → Entry → List Action
handle_disagreement_one_way_replica path ancestor alpha beta =
    change_beta_unless_blocked path (synthetic path ancestor alpha) (synchronizable beta)
      (record { path = path; old = beta; new = synchronizable alpha }) beta

-- The `switch` over the mode, with its panic.
unfoldable pub handle_disagreement : Mode → Bytes → Entry → Entry → Entry → List Action
handle_disagreement default_mode path ancestor alpha beta = panics ∷ []
handle_disagreement two_way_safe path ancestor alpha beta =
    handle_disagreement_bidirectional two_way_safe path ancestor alpha beta
handle_disagreement two_way_resolved path ancestor alpha beta =
    handle_disagreement_bidirectional two_way_resolved path ancestor alpha beta
handle_disagreement one_way_safe path ancestor alpha beta =
    handle_disagreement_one_way_safe path ancestor alpha beta
handle_disagreement one_way_replica path ancestor alpha beta =
    handle_disagreement_one_way_replica path ancestor alpha beta

-- Where both sides agree: the ancestor's contents that drive the traversal, and its change.
abbrev pub ancestor_contents : Entry → Entry → Contents
ancestor_contents ancestor alpha =
    if equal ancestor alpha false then get_contents ancestor else unset

abbrev pub update_ancestor : Bytes → Entry → Entry → List Action
update_ancestor path ancestor alpha =
    if equal ancestor alpha false
    then []
    else to_ancestor (record { path = path; old = nil; new = copy slim alpha }) ∷ []

-- The method `reconcile`. Each level of the recursion takes one unit of fuel; where none is left, the
-- traversal has not ended.
unfoldable pub reconcile_from : ℕ → Mode → Bytes → Entry → Entry → Entry → List Action
reconcile_from zero mode path ancestor alpha beta = exhausted ∷ []
reconcile_from (suc fuel) mode path ancestor alpha beta =
    let contents = ancestor_contents ancestor alpha in
    let agreed =
      update_ancestor path ancestor alpha
      ++ flat_map
          (λ name.
            reconcile_from fuel mode (joinable path ++ name) (child contents name)
              (child (get_contents alpha) name) (child (get_contents beta) name))
          (name_union (contents ∷ get_contents alpha ∷ get_contents beta ∷ [])) in
    if is_kind problematic alpha || is_kind problematic beta
    then []
    else if nil_or_untracked alpha && nil_or_untracked beta
    then untrack path ancestor
    else if equal alpha beta false
    then agreed
    else handle_disagreement mode path ancestor alpha beta

-- The recursion goes on only where alpha is a node, so alpha's levels bound it.
unfoldable pub reconcile_actions : Mode → Entry → Entry → Entry → List Action
reconcile_actions mode ancestor alpha beta =
    reconcile_from (suc (depth alpha)) mode [] ancestor alpha beta

pub record Plan : Type 0 where
  pub ancestor_changes : List Change
  pub alpha_changes : List Change
  pub beta_changes : List Change
  pub conflicts : List Conflict

abbrev pub add_action : Action → Plan → Option Plan
add_action (to_ancestor c) r = some (record r { ancestor_changes = c ∷ r.ancestor_changes })
add_action (to_alpha c) r = some (record r { alpha_changes = c ∷ r.alpha_changes })
add_action (to_beta c) r = some (record r { beta_changes = c ∷ r.beta_changes })
add_action (report c) r = some (record r { conflicts = c ∷ r.conflicts })
add_action panics r = none
add_action exhausted r = none

-- Each item in its list, in the order of the appends; a panic leaves no result, and neither does a
-- traversal that has not ended.
unfoldable pub collect : List Action → Option Plan
collect [] =
    some (record { ancestor_changes = []; alpha_changes = []; beta_changes = []; conflicts = [] })
collect (a ∷ actions) = Option.bind (collect actions) (add_action a)

-- `Reconcile`
unfoldable pub reconcile : Entry → Entry → Entry → Mode → Option Plan
unfolding collect reconcile_actions
reconcile ancestor alpha beta mode = collect (reconcile_actions mode ancestor alpha beta)
