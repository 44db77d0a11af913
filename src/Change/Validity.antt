-- ===== src/Change/Validity.antt =====
-- `EnsureValid` of pkg/synchronization/core/change.go and conflict.go. A change or a conflict is a
-- value here, so the errors for nil pointers do not occur.
pub mod Slim
use mutagen.Base.{Bool, false, Option, none, some, List, [], ◌∷◌, is_empty, if◌then◌else◌}
use mutagen.Entry.Validity.{Invalid, ensure_valid}
use mutagen.Change.{Change, Conflict}

pub data InvalidChange : Type 0 where
  invalid_old invalid_new : Invalid → InvalidChange

pub data InvalidConflict : Type 0 where
  no_alpha_changes no_beta_changes : InvalidConflict
  invalid_alpha_change invalid_beta_change : InvalidChange → InvalidConflict

-- `Change.EnsureValid`
unfoldable pub ensure_valid_change : Bool → Change → Option InvalidChange
ensure_valid_change synchronizable c = elim (ensure_valid synchronizable c.old) [
  | some e ↦ some (invalid_old e)
  | none ↦ elim (ensure_valid synchronizable c.new) [ some e ↦ some (invalid_new e) | none ↦ none ]
]

-- The loop over the changes of one side.
unfoldable pub ensure_valid_changes :
    (InvalidChange → InvalidConflict) → List Change → Option InvalidConflict
ensure_valid_changes invalid [] = none
ensure_valid_changes invalid (c ∷ cs) = elim (ensure_valid_change false c) [
  | some e ↦ some (invalid e)
  | none ↦ ensure_valid_changes invalid cs
]

-- `Conflict.EnsureValid`
unfoldable pub ensure_valid_conflict : Conflict → Option InvalidConflict
ensure_valid_conflict c =
    if is_empty c.alpha_changes
    then some no_alpha_changes
    else elim (ensure_valid_changes invalid_alpha_change c.alpha_changes) [
      | some e ↦ some e
      | none ↦
          if is_empty c.beta_changes
          then some no_beta_changes
          else ensure_valid_changes invalid_beta_change c.beta_changes
    ]
