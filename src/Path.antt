-- ===== src/Path.antt =====
-- Root-relative synchronization paths: pkg/synchronization/core/fastpath/fastpath.go, and the
-- `strings.Split` that `Apply` takes paths apart with. A path is a string of bytes.
pub mod Join
pub mod Parent
use mutagen.Base.{
  Option, none, some, ℕ, Bytes, List, [], ◌∷◌, ◌++◌, ◌==◌, bytes_eq, nat_eq, if◌then◌else◌,
}

abbrev pub separator : ℕ
separator = b'/'

-- `Joinable`
abbrev pub joinable : Bytes → Bytes
joinable base = if base == [] then [] else base ++ (separator ∷ [])

-- `strings.Split(s, "/")` for what is left of `s`, with the component that is being read.
unfoldable pub split_from : Bytes → Bytes → List Bytes
split_from component [] = component ∷ []
split_from component (c ∷ s) =
    if c == separator then component ∷ split_from [] s else split_from (component ++ (c ∷ [])) s

unfoldable pub split : Bytes → List Bytes
unfolding split_from
split s = split_from [] s

-- What stands before and behind the last separator: `path[:i]` and `path[i+1:]` for the index `i`
-- that `strings.LastIndexByte(path, '/')` finds, and `none` for -1.
unfoldable pub last_slash : Bytes → Option (Bytes × Bytes)
last_slash [] = none
last_slash (c ∷ s) = elim (last_slash s) [
  | some (before, after) ↦ some (c ∷ before, after)
  | none ↦ if c == separator then some ([], s) else none
]

-- `Dir`; a panic is `none`.
unfoldable pub dir : Bytes → Option Bytes
unfolding last_slash
dir path = if path == [] then none else elim (last_slash path) [
  | none ↦ some []
  | some (before, after) ↦ if before == [] then none else some before
]

-- `Base`; a panic is `none`.
unfoldable pub base : Bytes → Option Bytes
unfolding last_slash
base path = if path == [] then some [] else elim (last_slash path) [
  | none ↦ some path
  | some (before, after) ↦ if after == [] then none else some after
]
