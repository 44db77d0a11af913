-- ===== src/Entry/Measure.antt =====
-- `walk`, `Count` and `Problems` of pkg/synchronization/core/entry.go, and the depth that bounds
-- the recursion of the algorithms over entries.
use mutagen.Base.{
  add_u64, ℕ, zero, suc, ◌+◌, ◌%◌, ◌^◌, max, Bytes, Bool, true, false, List, [], ◌∷◌, ◌++◌, ◌==◌,
  if◌then◌else◌,
}
use mutagen.Path.{joinable}
use mutagen.Entry.{
  problematic, kind_eq, Entry, nil, node, unset, made, Items, end, item, synchronizable_kind,
}

-- What a visitor is called with.
abbrev pub Visit : Type 0
Visit = Bytes × Entry

-- The visits of `walk` in order: before the contents, or after them if `reverse`.
unfoldable mutual
  pub walk : Entry → Bytes → Bool → List Visit
  walk nil path reverse = (path, nil) ∷ []
  walk (node p unset) path reverse = (path, node p unset) ∷ []
  walk (node p (made xs)) path reverse =
      let inside = walk_items xs (joinable path) reverse in
      if reverse
      then inside ++ ((path, node p (made xs)) ∷ [])
      else (path, node p (made xs)) ∷ inside

  walk_items : Items → Bytes → Bool → List Visit
  walk_items end prefix reverse = []
  walk_items (item n e xs) prefix reverse =
      walk e (prefix ++ n) reverse ++ walk_items xs prefix reverse

-- `Count`. The loop adds to `result`, which begins at 1 for the entry itself.
unfoldable mutual
  pub count : Entry → ℕ
  count nil = 0
  count (node p unset) = if synchronizable_kind p.kind then 1 else 0
  count (node p (made xs)) = if synchronizable_kind p.kind then count_from xs 1 else 0

  count_from : Items → ℕ → ℕ
  count_from end result = result
  count_from (item n e xs) result = count_from xs (add_u64 result (count e))

pub record Problem : Type 0 where
  pub path : Bytes
  pub error : Bytes

abbrev pub visit_problem : Visit → List Problem
visit_problem (path, nil) = []
visit_problem (path, node p c) =
    if p.kind == problematic then record { path = path; error = p.problem } ∷ [] else []

-- `Problems`
unfoldable pub problems : Entry → List Problem
unfolding walk
problems e = mutagen.Base.flat_map visit_problem (walk e [] false)

-- How many levels of nodes an entry has.
unfoldable mutual
  pub depth : Entry → ℕ
  depth nil = 0
  depth (node p unset) = 1
  depth (node p (made xs)) = suc (depth_items xs)

  pub depth_items : Items → ℕ
  depth_items end = 0
  depth_items (item n e xs) = max (depth e) (depth_items xs)
