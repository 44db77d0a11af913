-- ===== src/Tests/Target.antt =====
-- Targets of pkg/synchronization/core/symbolic_link.go.
use native.Mathlib.Decide.{ℕ_discrete}
use mutagen.Base.{
  Bytes, Bytes-discrete, List, none, some, true, false, [], ◌∷◌, ◌≡◌, refl, codes, All,
}
use mutagen.Path.{split, split_from}
use mutagen.Link.{linked, escapes, normalize_symbolic_link_and_ensure_portable}
use mutagen.Link.Portable.{normalize-normalize}
use mutagen.Link.Inside.{follow, IsFilled, normalize-follow}

abbrev link_path : Bytes
link_path = codes "docs/link"

abbrev sibling : Bytes
sibling = codes "../src/main"

-- On Windows, `..\src\main` is let through with slashes.
normalizes :
    normalize_symbolic_link_and_ensure_portable true link_path (codes "..\\src\\main")
    ≡ linked sibling
unfolding normalize_symbolic_link_and_ensure_portable escapes split split_from Bytes-discrete
    ℕ_discrete
normalizes = refl

normalize-normalize_example :
    normalize_symbolic_link_and_ensure_portable false link_path sibling ≡ linked sibling
normalize-normalize_example =
    normalize-normalize true false link_path (codes "..\\src\\main") sibling normalizes

sibling-IsFilled : All IsFilled (split sibling)
unfolding split split_from ℕ_discrete
sibling-IsFilled = (refl, (refl, (refl, _)))

normalize-follow_example : (d : List Bytes) × (follow (codes "docs" ∷ []) (split sibling) ≡ some d)
unfolding ℕ_discrete
normalize-follow_example =
    normalize-follow true link_path (codes "..\\src\\main") sibling (codes "docs" ∷ []) normalizes
      sibling-IsFilled refl

-- The check counts an empty component as a level, the system stays where it is.
abbrev doubled : Bytes
doubled = codes "a//../../x"

lets_through :
    normalize_symbolic_link_and_ensure_portable false (codes "link") doubled ≡ linked doubled
unfolding normalize_symbolic_link_and_ensure_portable escapes split split_from Bytes-discrete
    ℕ_discrete
lets_through = refl

leads_outside : follow [] (split doubled) ≡ none
unfolding follow split split_from Bytes-discrete ℕ_discrete
leads_outside = refl
