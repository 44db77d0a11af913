-- ===== src/Entry/Compare.antt =====
-- `Entry.Equal` of pkg/synchronization/core/entry.go.
use mutagen.Base.{
  Bytes, Bool, true, false, ◌&&◌, ◌||◌, not, some, none, codes, ◌==◌, bool_eq, bytes_eq, nat_eq,
  if◌then◌else◌,
}
use mutagen.Entry.{
  Props, kind_eq, Entry, nil, node, Contents, unset, made, Items, end, item, items_of, find,
  count_items, bytes_equal,
}

-- The variable `entryEqualWildcardProblemMatch`, which only tests set.
abbrev pub wildcard_problem_match : Bool
wildcard_problem_match = false

abbrev pub problems_match : Bool → Bytes → Bytes → Bool
problems_match wildcard p q =
    if not wildcard then p == q else p == codes "*" || q == codes "*" || p == q

-- The comparison of two nodes without their contents.
unfoldable pub properties_match : Props → Props → Bool
properties_match p q =
    p.kind == q.kind
    && p.executable == q.executable
    && bytes_equal p.digest q.digest
    && p.target == q.target
    && problems_match wildcard_problem_match p.problem q.problem

-- `e == other` compares pointers: it decides when both are nil, and else only saves work.
unfoldable mutual
  pub equal : Entry → Entry → Bool → Bool
  equal nil nil deep = true
  equal nil (node q d) deep = false
  equal (node p c) nil deep = false
  equal (node p c) (node q d) deep =
      if properties_match p q then if deep then contents_equal c d else true else false

  contents_equal : Contents → Contents → Bool
  contents_equal unset d = count_items (items_of unset) == count_items (items_of d)
  contents_equal (made xs) d =
      count_items xs == count_items (items_of d) && items_equal xs (items_of d)

  -- The loop over the entry's contents.
  items_equal : Items → Items → Bool
  items_equal end ys = true
  items_equal (item n e xs) ys = elim (find ys n) [
    | none ↦ false
    | some o ↦ equal e o true && items_equal xs ys
  ]
