-- ===== src/Entry.antt =====
-- The entry tree of pkg/synchronization/core/entry.go with the message types of entry.pb.go.
-- An `Entry` is a Go `*Entry`. A content map is an association list in the order in which a
-- loop over it happens to run; `unset` is the nil map.
pub mod Compare
pub mod Copy
pub mod Measure
pub mod Shallow
pub mod Tree
pub mod Copied
pub mod Deep
pub mod Names
pub mod Validity
use mutagen.Base.{
  ℕ, Bytes, Bool, true, false, ◌||◌, Option, none, some, List, [], ◌∷◌, Eq, ◌==◌, bool_eq, bytes_eq,
  if◌then◌else◌, contains,
}
use mathlib.Core.Option.{get_or}
use native.Mathlib.Decide.{ℕ_discrete}

-- The enumeration is open, as every protocol buffer enumeration: `other` is a value without a name.
pub data Kind : Type 0 where
  directory file symbolic_link untracked problematic phantom_directory : Kind
  other : ℕ → Kind

unfoldable pub Kind-discrete : Discrete Kind
Kind-discrete = hlevel ℕ_discrete

instance abbrev pub kind_eq : Eq Kind
kind_eq = record { dec = Kind-discrete }

-- All fields but the content map. A nil digest is `none`.
pub record Props : Type 0 where
  pub kind : Kind
  pub executable : Bool
  pub digest : Option Bytes
  pub target : Bytes
  pub problem : Bytes

mutual
  pub data Entry : Type 0 where
    nil : Entry
    node : Props → Contents → Entry

  pub data Contents : Type 0 where
    unset : Contents
    made : Items → Contents

  pub data Items : Type 0 where
    end : Items
    item : Bytes → Entry → Items → Items

-- The entries of a map; a nil map has none.
abbrev pub items_of : Contents → Items
items_of unset = end
items_of (made xs) = xs

-- `GetContents`
abbrev pub get_contents : Entry → Contents
get_contents nil = unset
get_contents (node p c) = c

-- `m[name]` with its `ok`
abbrev pub find : Items → Bytes → Option Entry
find end name = none
find (item n e xs) name = if n == name then some e else find xs name

-- `m[name]`: a missing key reads as nil.
abbrev pub child : Contents → Bytes → Entry
child c name = get_or (find (items_of c) name) nil

-- `len(m)`
abbrev pub count_items : Items → ℕ
count_items end = 0
count_items (item n e xs) = Prim.Native.Nat.suc (count_items xs)

abbrev pub names : Items → List Bytes
names end = []
names (item n e xs) = n ∷ names xs

-- `result[name] = true` for the names of one map
abbrev pub add_names : List Bytes → List Bytes → List Bytes
add_names [] result = result
add_names (n ∷ ns) result =
    let rest = add_names ns result in if contains rest n then rest else n ∷ rest

-- `nameUnion`
abbrev pub name_union : List Contents → List Bytes
name_union [] = []
name_union (c ∷ cs) = add_names (names (items_of c)) (name_union cs)

-- The kind test `e != nil && e.Kind == k` that the algorithms make everywhere.
abbrev pub is_kind : Kind → Entry → Bool
is_kind k nil = false
is_kind k (node p c) = p.kind == k

abbrev pub is_nil : Entry → Bool
is_nil nil = true
is_nil (node p c) = false

-- `EntryKind.synchronizable`
abbrev pub synchronizable_kind : Kind → Bool
synchronizable_kind k = k == directory || k == file || k == symbolic_link

-- `bytes.Equal`: a nil slice equals an empty one.
abbrev pub bytes_equal : Option Bytes → Option Bytes → Bool
bytes_equal a b = get_or a [] == get_or b []
