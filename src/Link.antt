-- ===== src/Link.antt =====
-- Symbolic link targets: pkg/synchronization/core/symbolic_link.go. The operating system is a
-- parameter: whether it is Windows.
pub mod Portable
pub mod Inside
use mutagen.Base.{
  ℕ, zero, suc, Bytes, Bool, true, false, List, [], ◌∷◌, ◌==◌, nat_eq, bytes_eq, ltb, length,
  contains, if◌then◌else◌, ◌-◌,
}
use mutagen.Path.{separator, split}

abbrev pub colon : ℕ
colon = b':'

abbrev pub backslash : ℕ
backslash = b'\\'

abbrev pub dot : ℕ
dot = b'.'

abbrev pub maximum_portable_symbolic_link_target_length : ℕ
maximum_portable_symbolic_link_target_length = 247

-- The errors, named for their messages.
pub data LinkError : Type 0 where
  target_empty target_too_long colon_in_target backslash_in_target target_is_absolute
        target_outside_root :
      LinkError

pub data Linked : Type 0 where
  linked : Bytes → Linked
  refused : LinkError → Linked

-- `strings.ReplaceAll(target, "\\", "/")`
abbrev pub with_slashes : Bytes → Bytes
with_slashes [] = []
with_slashes (c ∷ cs) = (if c == backslash then separator else c) ∷ with_slashes cs

-- `strings.Count(path, "/")`
abbrev pub count_slashes : Bytes → ℕ
count_slashes [] = 0
count_slashes (c ∷ cs) = let rest = count_slashes cs in if c == separator then suc rest else rest

abbrev pub is_absolute : Bytes → Bool
is_absolute [] = false
is_absolute (c ∷ cs) = c == separator

-- The loop over the components, from a depth that is not negative: whether it meets one that is.
unfoldable pub escapes : ℕ → List Bytes → Bool
escapes depth [] = false
escapes depth (c ∷ cs) =
    let same = escapes depth cs in
    let up = escapes (depth - 1) cs in
    let down = escapes (suc depth) cs in
    if c == (dot ∷ [])
    then same
    else if c == (dot ∷ dot ∷ [])
    then if depth == 0 then true else up
    else down

-- The checks behind the conversion of backslashes.
abbrev pub ensure_inside : Bytes → Bytes → Linked
ensure_inside path target =
    if is_absolute target
    then refused target_is_absolute
    else if escapes (count_slashes path) (split target)
    then refused target_outside_root
    else linked target

-- `normalizeSymbolicLinkAndEnsurePortable`
unfoldable pub normalize_symbolic_link_and_ensure_portable : Bool → Bytes → Bytes → Linked
normalize_symbolic_link_and_ensure_portable windows path target =
    if target == []
    then refused target_empty
    else if ltb maximum_portable_symbolic_link_target_length (length target)
    then refused target_too_long
    else if contains target colon
    then refused colon_in_target
    else if windows
    then ensure_inside path (with_slashes target)
    else if contains target backslash
    then refused backslash_in_target
    else ensure_inside path target
