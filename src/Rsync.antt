-- ===== src/Rsync.antt =====
-- pkg/synchronization/rsync/engine.go: block signatures, deltas against them, and patches. The
-- strong hash, SHA-1 in the source, is a parameter, and so is the floating point square root.
pub mod WeakHash
pub mod Signing
pub mod Delta
pub mod Patching
pub mod Blocks
pub mod Patched
pub mod Sending
pub mod Found
pub mod Deltified
pub mod Roundtrip
pub mod Valid
use mutagen.Base.{
  ℕ, Bytes, Bool, true, false, ◌&&◌, not, Option, none, some, List, [], ◌∷◌, ◌==◌, nat_eq, ltb,
  is_empty, length, if◌then◌else◌, ◌^◌, ◌+◌, ◌%◌,
}

pub record BlockHash : Type 0 where
  pub weak : ℕ
  pub strong : Bytes

pub record Signature : Type 0 where
  pub block_size : ℕ
  pub last_block_size : ℕ
  pub hashes : List BlockHash

-- The field `Data` is `bytes` here.
pub record Operation : Type 0 where
  pub bytes : Bytes
  pub start : ℕ
  pub count : ℕ

pub data InvalidMessage : Type 0 where
  empty_strong_signature last_block_size_of_empty hashes_of_empty zero_last_block_size :
      InvalidMessage
  large_last_block_size no_hashes start_of_data count_of_data zero_count : InvalidMessage

-- `BlockHash.EnsureValid`, and the loop over the hashes of a signature.
abbrev pub ensure_valid_hash : BlockHash → Option InvalidMessage
ensure_valid_hash h = if is_empty h.strong then some empty_strong_signature else none

abbrev pub ensure_valid_hashes : List BlockHash → Option InvalidMessage
ensure_valid_hashes [] = none
ensure_valid_hashes (h ∷ hs) = elim (ensure_valid_hash h) [
  | some e ↦ some e
  | none ↦ ensure_valid_hashes hs
]

-- The tests of `Signature.EnsureValid` behind that loop.
abbrev pub ensure_valid_sizes : Signature → Option InvalidMessage
ensure_valid_sizes s =
    if s.block_size == 0
    then if not (s.last_block_size == 0)
      then some last_block_size_of_empty
      else if not (is_empty s.hashes)
      then some hashes_of_empty
      else none
    else if s.last_block_size == 0
    then some zero_last_block_size
    else if ltb s.block_size s.last_block_size
    then some large_last_block_size
    else if is_empty s.hashes
    then some no_hashes
    else none

-- `Signature.EnsureValid`
unfoldable pub ensure_valid_signature : Signature → Option InvalidMessage
ensure_valid_signature s = elim (ensure_valid_hashes s.hashes) [
  | some e ↦ some e
  | none ↦ ensure_valid_sizes s
]

-- `Operation.EnsureValid`
unfoldable pub ensure_valid_operation : Operation → Option InvalidMessage
ensure_valid_operation o =
    if ltb 0 (length o.bytes)
    then if not (o.start == 0)
      then some start_of_data
      else if not (o.count == 0)
      then some count_of_data
      else none
    else if o.count == 0
    then some zero_count
    else none

-- The clamp of `OptimalBlockSizeForBaseLength`. `root n` is `uint64(math.Sqrt(24.0*float64(n)))`.
unfoldable pub optimal_block_size : (ℕ → ℕ) → ℕ → ℕ
optimal_block_size root base_length =
    let result = root base_length in
    if ltb result (2 ^ 10) then 2 ^ 10 else if ltb (2 ^ 16) result then 2 ^ 16 else result
