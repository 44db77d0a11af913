-- ===== src/Phantom.antt =====
-- pkg/synchronization/core/phantom.go. The mutations of alpha and beta are part of the result.
pub mod Free
use mutagen.Base.{
  add_u64, ℕ, zero, suc, Bytes, Bool, true, false, ◌&&◌, ◌||◌, not, List, [], ◌∷◌, map, ◌==◌,
  bytes_eq, ltb, max, if◌then◌else◌,
}
use mutagen.Entry.{
  Props, Kind, directory, untracked, phantom_directory, kind_eq, Entry, nil, node, Contents, unset,
  made, Items, end, item, get_contents, child, name_union, is_kind, is_nil,
}
use mutagen.Entry.Copy.{copy, deep_preserving_leaves}
use mutagen.Entry.Measure.{depth}

-- The three results, and alpha and beta as they are left.
pub record Reified : Type 0 where
  pub tracked : Bool
  pub alpha_count : ℕ
  pub beta_count : ℕ
  pub alpha : Entry
  pub beta : Entry

abbrev pub is_directory_kind : Entry → Bool
is_directory_kind e = is_kind directory e || is_kind phantom_directory e

abbrev pub is_tracked_kind : Entry → Bool
is_tracked_kind e = not (is_nil e) && not (is_kind untracked e)

-- The results for the names of a level.
abbrev pub Children : Type 0
Children = List (Bytes × Reified)

abbrev pub any_tracked : Children → Bool
any_tracked [] = false
any_tracked ((n, r) ∷ rs) = r.tracked || any_tracked rs

abbrev pub sum_counts : (Reified → ℕ) → Children → ℕ → ℕ
sum_counts f [] total = total
sum_counts f ((n, r) ∷ rs) total = sum_counts f rs (add_u64 total (f r))

-- The child that a name's result leaves; a name without a result keeps its child.
abbrev pub left_by : (Reified → Entry) → Children → Bytes → Entry → Entry
left_by f [] name e = e
left_by f ((n, r) ∷ rs) name e = if n == name then f r else left_by f rs name e

abbrev pub update_items : (Reified → Entry) → Children → Items → Items
update_items f rs end = end
update_items f rs (item n e xs) = item n (left_by f rs n e) (update_items f rs xs)

abbrev pub update_contents : (Reified → Entry) → Children → Contents → Contents
update_contents f rs unset = unset
update_contents f rs (made xs) = made (update_items f rs xs)

abbrev pub with_kind : Kind → Props → Props
with_kind k p = record p { kind = k }

-- One side of a level: its directories become tracked, or its phantom directories untracked. The
-- content map is the one that the recursion left.
abbrev pub reify_side : Bool → Contents → Entry → Entry
reify_side to_tracked c nil = nil
reify_side to_tracked c (node p d) =
    if is_directory_kind (node p d)
    then if to_tracked
      then node (with_kind directory p) c
      else if p.kind == phantom_directory
      then node (with_kind untracked p) unset
      else node p c
    else node p c

-- Whether the level counts as a directory of its side.
abbrev pub counts_as_directory : Bool → Entry → Bool
counts_as_directory to_tracked e =
    is_directory_kind e && (to_tracked || not (is_kind phantom_directory e))

abbrev pub count_level : Bool → ℕ → ℕ
count_level here below = if here then add_u64 below 1 else below

abbrev pub reify_level : Entry → Entry → Entry → Children → Reified
reify_level ancestor alpha beta children =
    let to_tracked = any_tracked children || is_kind directory ancestor in
    let alpha_count =
      count_level (counts_as_directory to_tracked alpha)
        (sum_counts (λ r. r.alpha_count) children 0) in
    let beta_count =
      count_level (counts_as_directory to_tracked beta)
        (sum_counts (λ r. r.beta_count) children 0) in
    record {
      tracked = ltb 0 alpha_count || ltb 0 beta_count;
      alpha_count = alpha_count;
      beta_count = beta_count;
      alpha =
          reify_side to_tracked (update_contents (λ r. r.alpha) children (get_contents alpha))
            alpha;
      beta =
          reify_side to_tracked (update_contents (λ r. r.beta) children (get_contents beta)) beta;
    }

-- The level at which the recursion stops.
abbrev pub reify_leaf : Entry → Entry → Reified
reify_leaf alpha beta = record {
  tracked = is_tracked_kind alpha || is_tracked_kind beta;
  alpha_count = 0;
  beta_count = 0;
  alpha = alpha;
  beta = beta;
}

-- `reifyPhantomDirectories`. Each level of the recursion takes one unit of fuel.
unfoldable pub reify : ℕ → Entry → Entry → Entry → Reified
reify zero ancestor alpha beta = reify_leaf alpha beta
reify (suc f) ancestor alpha beta =
    let children =
      map
        (λ name. (
          name,
          reify f (child (get_contents ancestor) name) (child (get_contents alpha) name)
              (child (get_contents beta) name),
        ))
        (name_union (get_contents alpha ∷ get_contents beta ∷ [])) in
    if not (is_directory_kind alpha) && not (is_directory_kind beta)
    then reify_leaf alpha beta
    else reify_level ancestor alpha beta children

-- `ReifyPhantomDirectories`
unfoldable pub reify_phantom_directories : Entry → Entry → Entry → Reified
reify_phantom_directories ancestor alpha beta =
    let α = copy deep_preserving_leaves alpha in
    let β = copy deep_preserving_leaves beta in reify (suc (max (depth α) (depth β))) ancestor α β
