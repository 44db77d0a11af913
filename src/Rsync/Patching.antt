-- ===== src/Rsync/Patching.antt =====
-- `Patch` and `PatchBytes` of pkg/synchronization/rsync/engine.go on a base in memory. Offsets of
-- 64 bits that would be negative, as `int64`, make the seek fail.
use mutagen.Base.{
  add_u64, ℕ, zero, suc, Bytes, Option, none, some, List, [], ◌∷◌, ◌++◌, ◌==◌, nat_eq, ltb, leb,
  length, take, drop, if◌then◌else◌, ◌+◌, ◌*◌, ◌-◌, ◌^◌, ◌%◌,
}
use mutagen.Rsync.{Signature, Operation}

-- The loop over the blocks: `index` is the block's index, `base` what is left of the base stream.
unfoldable pub copy_blocks : ℕ → ℕ → Signature → Bytes → Option Bytes
copy_blocks zero index signature base = some []
copy_blocks (suc n) index signature base =
    let copy_length =
      if index == (length signature.hashes + 2 ^ 64 - 1) % 2 ^ 64
      then signature.last_block_size
      else signature.block_size in
    let rest = copy_blocks n (add_u64 index 1) signature (drop copy_length base) in
    if ltb (length base) copy_length
    then none
    else elim rest [ none ↦ none | some bytes ↦ some (take copy_length base ++ bytes) ]

-- `Patch`: what it writes to the destination, or an error.
unfoldable pub patch : Bytes → Signature → Operation → Option Bytes
patch base signature o =
    let offset = (o.start * signature.block_size) % 2 ^ 64 in
    if ltb 0 (length o.bytes)
    then some o.bytes
    else if leb (2 ^ 63) offset
    then none
    else copy_blocks o.count o.start signature (drop offset base)

-- `PatchBytes`
unfoldable pub patch_bytes : Bytes → Signature → List Operation → Option Bytes
patch_bytes base signature [] = some []
patch_bytes base signature (o ∷ operations) =
    let rest = patch_bytes base signature operations in
    elim (patch base signature o) [
      | none ↦ none
      | some bytes ↦ elim rest [ none ↦ none | some more ↦ some (bytes ++ more) ]
    ]
