-- ===== src/Rsync/Valid.antt =====
-- About the signatures of pkg/synchronization/rsync/engine.go and `EnsureValid`.
use mutagen.Base.{
  ℕ, zero, suc, Bytes, true, false, none, [], ◌∷◌, ◌≡◌, refl, arith, List, inl, inr, is_empty,
  length, drop, take, nat_eq,
}
use mutagen.Rsync.{BlockHash, ensure_valid_hashes, ensure_valid_sizes, ensure_valid_signature}
use mutagen.Rsync.Signing.{hash_blocks, chosen_block_size, make_signature, bytes_signature}
use mutagen.Rsync.Blocks.{bytes_signature-Signs}

module _ (strong_hash : Bytes → Bytes)
    (filled : (b : Bytes) → is_empty (strong_hash b) ≡ false) where
  hashes_valid :
      (fuel block_size : ℕ) (base : Bytes)
      → ensure_valid_hashes (hash_blocks strong_hash fuel block_size base).0 ≡ none
  unfolding hash_blocks
  hashes_valid zero block_size base = refl
  hashes_valid (suc fuel) block_size base = ground (
    arith,
    filled base,
    filled (take block_size base),
    hashes_valid fuel block_size (drop block_size base),
  )

  signature_hashes_valid :
      (root : ℕ → ℕ) (base : Bytes) (block_size : ℕ)
      → ensure_valid_hashes (bytes_signature strong_hash root base block_size).hashes ≡ none
  unfolding bytes_signature
  signature_hashes_valid root base block_size = ground (
    arith,
    hashes_valid (suc (length base)) (chosen_block_size strong_hash root block_size base) base,
  )

  sizes_of_empty :
      (k : ℕ) (r : List BlockHash × ℕ)
      → is_empty (make_signature strong_hash k r).hashes ≡ true
      → ensure_valid_sizes (make_signature strong_hash k r) ≡ none
  sizes_of_empty k ([], last) h = ground arith
  sizes_of_empty k (x ∷ hs, last) h = absurd (cc h)

  signature_sizes_valid :
      (root : ℕ → ℕ) (base : Bytes) (block_size : ℕ)
      → ensure_valid_sizes (bytes_signature strong_hash root base block_size) ≡ none
  unfolding bytes_signature
  signature_sizes_valid root base block_size =
      elim (bytes_signature-Signs strong_hash root base block_size) [
        | inl none_there ↦ sizes_of_empty _ _ none_there
        | inr (some_there, signs) ↦ ground (arith, signs.positive, signs.small)
      ]

  -- The signature of any bytes, for any block size, is valid, if the strong hash is never empty.
  pub ensure_valid_signature-bytes_signature :
      (root : ℕ → ℕ) (base : Bytes) (block_size : ℕ)
      → ensure_valid_signature (bytes_signature strong_hash root base block_size) ≡ none
  unfolding ensure_valid_signature
  ensure_valid_signature-bytes_signature root base block_size =
      rw (ensure_valid_signature, signature_hashes_valid root base block_size)
        (signature_sizes_valid root base block_size)
