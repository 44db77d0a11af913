-- ===== src/Staging.antt =====
-- pkg/synchronization/core/stage.go. The finder that the recursion appends to is passed along.
pub mod Complete
use mutagen.Base.{
  Bytes, Bool, true, false, ◌&&◌, Option, List, [], ◌∷◌, ◌++◌, ◌==◌, ltb, if◌then◌else◌,
}
use mutagen.Path.{joinable}
use mutagen.Entry.{
  Props, directory, file, kind_eq, Entry, nil, node, Contents, unset, made, Items, end, item,
  count_items, is_kind, bytes_equal,
}
use mutagen.Change.{Change}
use mutagen.Executability.{digest_of}

-- `stagingPathFinder`
pub record StagingPathFinder : Type 0 where
  pub paths : List Bytes
  pub digests : List (Option Bytes)

abbrev pub add_file : Bytes → Option Bytes → StagingPathFinder → StagingPathFinder
add_file path digest f = record {
  paths = f.paths ++ (path ∷ []);
  digests = f.digests ++ (digest ∷ []);
}

abbrev pub content_path_prefix : Bytes → Items → Bytes
content_path_prefix path xs = if ltb 0 (count_items xs) then joinable path else []

-- The cases of an entry's kind; `inside` is what the loop over its contents leaves.
abbrev pub find_node : Bytes → Props → StagingPathFinder → StagingPathFinder → StagingPathFinder
find_node path p inside f =
    if p.kind == directory then inside else if p.kind == file then add_file path p.digest f else f

unfoldable mutual
  -- The method `find`.
  pub find_files : Bytes → Entry → StagingPathFinder → StagingPathFinder
  find_files path nil f = f
  find_files path (node p unset) f = find_node path p f f
  find_files path (node p (made xs)) f =
      find_node path p (find_in_contents (content_path_prefix path xs) xs f) f

  pub find_in_contents : Bytes → Items → StagingPathFinder → StagingPathFinder
  find_in_contents prefix end f = f
  find_in_contents prefix (item n e xs) f =
      find_in_contents prefix xs (find_files (prefix ++ n) e f)

-- `fileToFileSameContents`
abbrev pub same_contents : Change → Bool
same_contents t =
    is_kind file t.old && is_kind file t.new && bytes_equal (digest_of t.old) (digest_of t.new)

unfoldable pub find_all : List Change → StagingPathFinder → StagingPathFinder
find_all [] f = f
find_all (t ∷ ts) f =
    if same_contents t then find_all ts f else find_all ts (find_files t.path t.new f)

-- `TransitionDependencies`
unfoldable pub transition_dependencies : List Change → StagingPathFinder
transition_dependencies ts = find_all ts (record { paths = []; digests = [] })
