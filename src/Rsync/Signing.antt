-- ===== src/Rsync/Signing.antt =====
-- `BytesSignature` of pkg/synchronization/rsync/engine.go: `Signature` on bytes in memory, where
-- no read fails.
use mutagen.Base.{
  ℕ, zero, suc, Bytes, List, [], ◌∷◌, ◌==◌, nat_eq, ltb, is_empty, length, take, drop,
  if◌then◌else◌,
}
use mutagen.Rsync.{BlockHash, Signature, optimal_block_size}
use mutagen.Rsync.WeakHash.{weak_hash}

module _ (strong_hash : Bytes → Bytes) where
  -- Short blocks are hashed with the full block size, too.
  abbrev pub hash_block : ℕ → Bytes → BlockHash
  hash_block block_size block = record {
    weak = (weak_hash block block_size).hash;
    strong = strong_hash block;
  }

  -- The loop over the blocks: the hashes and the last block's size. Each round takes one unit of
  -- fuel.
  unfoldable pub hash_blocks : ℕ → ℕ → Bytes → List BlockHash × ℕ
  hash_blocks zero block_size base = ([], 0)
  hash_blocks (suc fuel) block_size base =
      let rest = hash_blocks fuel block_size (drop block_size base) in
      if is_empty base
      then ([], block_size)
      else if ltb (length base) block_size
      then (hash_block block_size base ∷ [], length base)
      else (hash_block block_size (take block_size base) ∷ rest.0, rest.1)

  abbrev pub chosen_block_size : (ℕ → ℕ) → ℕ → Bytes → ℕ
  chosen_block_size root block_size base =
      if block_size == 0 then optimal_block_size root (length base) else block_size

  abbrev pub make_signature : ℕ → List BlockHash × ℕ → Signature
  make_signature block_size (hashes, last) =
      if is_empty hashes
      then record { block_size = 0; last_block_size = 0; hashes = hashes }
      else record { block_size = block_size; last_block_size = last; hashes = hashes }

  unfoldable pub bytes_signature : (ℕ → ℕ) → Bytes → ℕ → Signature
  unfolding hash_blocks
  bytes_signature root base block_size =
      let chosen = chosen_block_size root block_size base in
      make_signature chosen (hash_blocks (suc (length base)) chosen base)
