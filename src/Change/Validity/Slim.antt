-- ===== src/Change/Validity/Slim.antt =====
-- About `Conflict.Slim` of pkg/synchronization/core/conflict.go and validity.
use mutagen.Base.{Bool, false, none, List, [], ◌∷◌, map, ◌≡◌, refl, arith, is_empty}
use mutagen.Entry.{Props, Entry, nil, node, unset, made, Items}
use mutagen.Entry.Copy.{copy, slim}
use mutagen.Entry.Validity.{
  Check, check_node, check_file, check_symbolic_link, check_untracked, check_problematic,
  ensure_valid, ensure_valid_items,
}
use mutagen.Change.{Change, Conflict, slim_change, slim_conflict}
use mutagen.Change.Validity.{
  InvalidChange, InvalidConflict, invalid_alpha_change, invalid_beta_change, ensure_valid_change,
  ensure_valid_changes, ensure_valid_conflict,
}

slim_node :
    (s : Bool) (p : Props) (xs : Items) (r : Check)
    → check_node s p (made xs) r ≡ none
    → check_node s p unset none ≡ none
unfolding check_node check_file check_symbolic_link check_untracked check_problematic
slim_node s p xs r h = ground arith

ensure_valid-copy :
    (s : Bool) (e : Entry) → ensure_valid s e ≡ none → ensure_valid s (copy slim e) ≡ none
unfolding ensure_valid copy
ensure_valid-copy s nil h = h
ensure_valid-copy s (node p unset) h = h
ensure_valid-copy s (node p (made xs)) h = slim_node s p xs (ensure_valid_items s xs) h

ensure_valid_change-slim :
    (s : Bool) (c : Change)
    → ensure_valid_change s c ≡ none
    → ensure_valid_change s (slim_change c) ≡ none
unfolding ensure_valid_change slim_change
ensure_valid_change-slim s c h =
    ground (arith, ensure_valid-copy s c.old, ensure_valid-copy s c.new)

ensure_valid_changes-slim :
    (invalid : InvalidChange → InvalidConflict) (cs : List Change)
    → ensure_valid_changes invalid cs ≡ none
    → ensure_valid_changes invalid (map slim_change cs) ≡ none
unfolding ensure_valid_changes
ensure_valid_changes-slim invalid [] h = h
ensure_valid_changes-slim invalid (c ∷ cs) h =
    ground (arith, ensure_valid_change-slim false c, ensure_valid_changes-slim invalid cs)

is_empty-map : (cs : List Change) → is_empty (map slim_change cs) ≡ is_empty cs
is_empty-map [] = refl
is_empty-map (c ∷ cs) = refl

-- The slim copy of a valid conflict is valid.
pub ensure_valid_conflict-slim :
    (c : Conflict) → ensure_valid_conflict c ≡ none → ensure_valid_conflict (slim_conflict c) ≡ none
unfolding ensure_valid_conflict slim_conflict
ensure_valid_conflict-slim c h = ground (
  arith,
  is_empty-map c.alpha_changes,
  is_empty-map c.beta_changes,
  ensure_valid_changes-slim invalid_alpha_change c.alpha_changes,
  ensure_valid_changes-slim invalid_beta_change c.beta_changes,
)
