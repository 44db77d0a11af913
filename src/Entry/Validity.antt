-- ===== src/Entry/Validity.antt =====
-- `Entry.EnsureValid` of pkg/synchronization/core/entry.go.
use mutagen.Base.{
  Bytes, Bool, true, false, ◌||◌, not, Option, none, some, [], codes, ◌==◌, bytes_eq, nat_eq,
  if◌then◌else◌, contains,
}
use mutagen.Path.{separator}
use mutagen.Entry.{
  Props, Kind, directory, file, symbolic_link, untracked, problematic, phantom_directory, other,
  kind_eq, Entry, nil, node, Contents, unset, made, Items, end, item,
}

-- The errors, each named for its message in the source.
pub data Invalid : Type 0 where
  digest_detected executable_detected target_detected problem_detected : Kind → Invalid
  contents_detected : Kind → Invalid
  empty_digest empty_target empty_problem : Invalid
  not_synchronizable : Kind → Invalid
  empty_name dot_name name_with_separator nil_content unknown_kind : Invalid

-- The outcome of a check: `none` for a nil error.
abbrev pub Check : Type 0
Check = Option Invalid

-- `if ... { return err }` and what follows
infixr 5 ◌unless◌
abbrev pub ◌unless◌ : Check → Check → Check
none unless rest = rest
(some e) unless rest = some e

abbrev pub fail_if : Bool → Invalid → Check
fail_if b e = if b then some e else none

abbrev pub is_set : Option Bytes → Bool
is_set none = false
is_set (some d) = true

abbrev pub digest_bytes : Option Bytes → Bytes
digest_bytes none = []
digest_bytes (some d) = d

abbrev pub is_made : Contents → Bool
is_made unset = false
is_made (made xs) = true

-- The tests of one content name, in order.
unfoldable pub check_name : Bytes → Check
check_name n =
    fail_if (n == []) empty_name
    unless fail_if (n == codes "." || n == codes "..") dot_name
    unless fail_if (contains n separator) name_with_separator

-- The tests of a directory before its contents; a phantom directory is tested alike.
unfoldable pub check_directory_fields : Props → Check
check_directory_fields p =
    fail_if (is_set p.digest) (digest_detected p.kind)
    unless fail_if p.executable (executable_detected p.kind)
    unless fail_if (not (p.target == [])) (target_detected p.kind)
    unless fail_if (not (p.problem == [])) (problem_detected p.kind)

unfoldable pub check_file : Props → Contents → Check
check_file p c =
    fail_if (is_made c) (contents_detected p.kind)
    unless fail_if (not (p.target == [])) (target_detected p.kind)
    unless fail_if (not (p.problem == [])) (problem_detected p.kind)
    unless fail_if (digest_bytes p.digest == []) empty_digest

unfoldable pub check_symbolic_link : Props → Contents → Check
check_symbolic_link p c =
    fail_if (is_made c) (contents_detected p.kind)
    unless fail_if (is_set p.digest) (digest_detected p.kind)
    unless fail_if p.executable (executable_detected p.kind)
    unless fail_if (not (p.problem == [])) (problem_detected p.kind)
    unless fail_if (p.target == []) empty_target

unfoldable pub check_untracked : Bool → Props → Contents → Check
check_untracked synchronizable p c =
    fail_if synchronizable (not_synchronizable p.kind)
    unless fail_if (is_made c) (contents_detected p.kind)
    unless fail_if (is_set p.digest) (digest_detected p.kind)
    unless fail_if p.executable (executable_detected p.kind)
    unless fail_if (not (p.target == [])) (target_detected p.kind)
    unless fail_if (not (p.problem == [])) (problem_detected p.kind)

unfoldable pub check_problematic : Bool → Props → Contents → Check
check_problematic synchronizable p c =
    fail_if synchronizable (not_synchronizable p.kind)
    unless fail_if (is_made c) (contents_detected p.kind)
    unless fail_if (is_set p.digest) (digest_detected p.kind)
    unless fail_if p.executable (executable_detected p.kind)
    unless fail_if (not (p.target == [])) (target_detected p.kind)
    unless fail_if (p.problem == []) empty_problem

-- The dispatch on the kind; `contents` is the outcome of the loop over the contents.
unfoldable pub check_node : Bool → Props → Contents → Check → Check
check_node synchronizable p c contents = elim p.kind [
  | directory ↦ check_directory_fields p unless contents
  | file ↦ check_file p c
  | symbolic_link ↦ check_symbolic_link p c
  | untracked ↦ check_untracked synchronizable p c
  | problematic ↦ check_problematic synchronizable p c
  | phantom_directory ↦
      fail_if synchronizable (not_synchronizable p.kind)
      unless check_directory_fields p
      unless contents
  | other k ↦ some unknown_kind
]

abbrev pub check_content : Bytes → Entry → Check → Check
check_content n nil valid = check_name n unless some nil_content
check_content n (node p c) valid = check_name n unless valid

unfoldable mutual
  pub ensure_valid : Bool → Entry → Check
  ensure_valid synchronizable nil = none
  ensure_valid synchronizable (node p unset) = check_node synchronizable p unset none
  ensure_valid synchronizable (node p (made xs)) =
      check_node synchronizable p (made xs) (ensure_valid_items synchronizable xs)

  pub ensure_valid_items : Bool → Items → Check
  ensure_valid_items synchronizable end = none
  ensure_valid_items synchronizable (item n e xs) =
      check_content n e (ensure_valid synchronizable e) unless ensure_valid_items synchronizable xs
