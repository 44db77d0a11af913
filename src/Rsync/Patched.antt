-- ===== src/Rsync/Patched.antt =====
-- About `Patch` of pkg/synchronization/rsync/engine.go with a signature of the base.
use mutagen.Base.{
  add_u64, ℕ, zero, suc, Bytes, true, false, none, some, List, [], ◌∷◌, ◌++◌, ◌≡◌, refl, sym, ap,
  ap₂, append-nil, ◌∙◌, arith, inl, inr, ◌⊎◌, Bool-cases, ltb, leb, is_empty, length, take, drop,
  take_add, drop-drop, length-drop, take_of_length_le, All, if◌then◌else◌, ◌==◌, nat_eq, ==→eq, ◌+◌,
  ◌*◌, ◌-◌, ◌<◌, ◌≤◌, ◌^◌, ◌%◌,
}
use mathlib.Core.Path.{subst}
use mutagen.Rsync.{Signature, Operation, ensure_valid_operation}
use mutagen.Rsync.Blocks.{blocks, block, meaning, meanings, Signs}
use mutagen.Rsync.Patching.{copy_blocks, patch, patch_bytes}

-- Data, or a run of blocks that the base has.
abbrev pub IsWithin : ℕ → ℕ → Operation → Type 0
IsWithin size n o =
    ((is_empty o.bytes ≡ false) × (length o.bytes ≤ size) × (o.start ≡ 0) × (o.count ≡ 0))
    ⊎ ((is_empty o.bytes ≡ true) × (0 < o.count) × (o.start + o.count ≤ n))

le-mul : (n k : ℕ) → 0 < k → n ≤ n * k
le-mul n k h = grind arith

-- The sizes of the blocks add up: `n` blocks, the last of its own size.
fits : (n k last total : ℕ) → 0 < last → last ≤ k → total + k ≡ n * k + last → n ≤ total
fits zero k last total p q e = omega arith
fits (suc n) k last total p q e = omega (arith, le-mul n k (omega arith))

last_end : (i n k last total : ℕ) → suc i ≡ n → total + k ≡ n * k + last → total ≡ i * k + last
last_end i n k last total s e = omega (arith, ap (λ (t : ℕ). t * k) s)

mul_mono : (m n k : ℕ) → m ≤ n → m * k ≤ n * k
mul_mono m n k h = grind arith

block_end :
    (i n k last total : ℕ) → suc i < n → last ≤ k → total + k ≡ n * k + last → i * k + k ≤ total
block_end i n k last total s q e = omega (arith, mul_mono (i + 2) n k (omega arith))

start_end : (i n k last total : ℕ) → suc i ≤ n → total + k ≡ n * k + last → i * k + last ≤ total
start_end i n k last total s e = omega (arith, mul_mono (suc i) n k s)

-- Data operations alone need no signature.
pub patch_bytes-data :
    (k size : ℕ) (base : Bytes) (signature : Signature) (os : List Operation)
    → All (IsWithin size 0) os
    → patch_bytes base signature os ≡ some (meanings k base os)
unfolding patch_bytes patch
patch_bytes-data k size base signature [] h = refl
patch_bytes-data k size base signature (o ∷ os) (inl (filled, _, _, _), hs) =
    let some_bytes : ltb 0 (length o.bytes) ≡ true = ground arith in
    rw (patch_bytes, some_bytes, patch_bytes-data k size base signature os hs, filled) refl
patch_bytes-data k size base signature (o ∷ os) (inr (e, some_count, within), hs) =
    absurd (omega arith)

module _ (strong_hash : Bytes → Bytes) (base : Bytes) (signature : Signature)
    (signs : Signs strong_hash signature.block_size base signature.hashes signature.last_block_size)
    (small : length base < 2 ^ 63) where
  pub few_blocks : length signature.hashes < 2 ^ 63
  few_blocks = omega (
    arith,
    fits (length signature.hashes) signature.block_size signature.last_block_size (length base)
        signs.positive signs.small signs.sizes,
  )

  blocks_step :
      (start count : ℕ)
      → blocks signature.block_size base start (suc count)
        ≡ block signature.block_size base start
          ++ blocks signature.block_size base (start + 1) count
  blocks_step start count =
      let k = signature.block_size in
      let longer : suc count * k ≡ k + count * k = omega arith in
      let further : start * k + k ≡ (start + 1) * k = omega arith in
      ap (λ n. take n (drop (start * k) base)) longer
      ∙ take_add k (count * k) (drop (start * k) base)
      ∙ ap (λ xs. block k base start ++ take (count * k) xs)
          (drop-drop k (start * k) base ∙ ap (λ n. drop n base) further)

  -- The size of the block with an index, as the code chooses it.
  abbrev copy_length : ℕ → ℕ
  copy_length index =
      if index == (length signature.hashes + 2 ^ 64 - 1) % 2 ^ 64
      then signature.last_block_size
      else signature.block_size

  copy_step_own :
      (count index : ℕ) (left more : Bytes)
      → copy_length index ≤ length left
      → copy_blocks count (add_u64 index 1) signature (drop (copy_length index) left) ≡ some more
      → copy_blocks (suc count) index signature left ≡ some (take (copy_length index) left ++ more)
  unfolding copy_blocks
  copy_step_own count index left more h rest =
      let enough : ltb (length left) (copy_length index) ≡ false = ground arith in
      rw (enough, rest) refl

  copy_step :
      (count index : ℕ) {c : ℕ} (left more : Bytes)
      → copy_length index ≡ c
      → c ≤ length left
      → copy_blocks count (add_u64 index 1) signature (drop c left) ≡ some more
      → copy_blocks (suc count) index signature left ≡ some (take c left ++ more)
  copy_step count index left more e =
      subst
        (λ c.
          c ≤ length left
          → copy_blocks count (add_u64 index 1) signature (drop c left) ≡ some more
          → copy_blocks (suc count) index signature left ≡ some (take c left ++ more))
        e (copy_step_own count index left more)

  length_left :
      (start : ℕ)
      → length (drop (start * signature.block_size) base)
        ≡ length base - start * signature.block_size
  length_left start = length-drop (start * signature.block_size) base

  is_last :
      (start : ℕ)
      → suc start ≡ length signature.hashes
      → (start == (length signature.hashes + 2 ^ 64 - 1) % 2 ^ 64) ≡ true
  is_last start e =
      let last : start ≡ (length signature.hashes + 2 ^ 64 - 1) % 2 ^ 64 =
        omega (arith, few_blocks) in
      ground arith

  copy_last :
      (start : ℕ)
      → suc start ≡ length signature.hashes
      → copy_blocks 1 start signature (drop (start * signature.block_size) base)
        ≡ some (blocks signature.block_size base start 1)
  unfolding copy_blocks
  copy_last start e =
      let k = signature.block_size in
      let size : length (drop (start * k) base) ≡ signature.last_block_size = omega (
        arith,
        length_left start,
        last_end start (length signature.hashes) k signature.last_block_size (length base) e
            signs.sizes,
      ) in
      let whole =
        take_of_length_le signature.last_block_size (drop (start * k) base) (omega arith) in
      let one : 1 * k ≡ k = omega arith in
      copy_step 0 start (drop (start * k) base) [] (rw (is_last start e) refl) (omega arith) refl
      ∙ ap some (
          append-nil (take signature.last_block_size (drop (start * k) base))
          ∙ whole
          ∙ sym (
              ap (λ n. take n (drop (start * k) base)) one
              ∙ take_of_length_le k (drop (start * k) base) (omega (arith, signs.small))))

  room :
      (start count : ℕ)
      → start + suc count ≤ length signature.hashes
      → (start == (length signature.hashes + 2 ^ 64 - 1) % 2 ^ 64) ≡ false
      → start * signature.block_size + signature.block_size ≤ length base
  room start count h ne =
      block_end start (length signature.hashes) signature.block_size signature.last_block_size
        (length base) (ground (arith, few_blocks)) signs.small signs.sizes

  copy_blocks-blocks :
      (count start : ℕ)
      → start + count ≤ length signature.hashes
      → copy_blocks count start signature (drop (start * signature.block_size) base)
        ≡ some (blocks signature.block_size base start count)
  unfolding copy_blocks
  copy_blocks-blocks zero start h =
      let nothing : 0 * signature.block_size ≡ 0 = omega arith in
      ap (λ n. some (take n (drop (start * signature.block_size) base))) (sym nothing)
  copy_blocks-blocks (suc count) start h =
      elim (Bool-cases (start == (length signature.hashes + 2 ^ 64 - 1) % 2 ^ 64)) [
        | inl e ↦
            let last : start ≡ (length signature.hashes + 2 ^ 64 - 1) % 2 ^ 64 = ==→eq start _ e in
            let alone : suc start ≡ length signature.hashes = omega (arith, few_blocks) in
            let none_left : 0 ≡ count = omega arith in
            subst
              (λ c.
                copy_blocks (suc c) start signature (drop (start * signature.block_size) base)
                ≡ some (blocks signature.block_size base start (suc c)))
              none_left (copy_last start alone)
        | inr ne ↦
            let next : add_u64 start 1 ≡ start + 1 = omega (arith, few_blocks) in
            let further : start * signature.block_size + signature.block_size
                ≡ (start + 1) * signature.block_size =
              omega arith in
            rw (blocks_step start count) (
              copy_step count start (drop (start * signature.block_size) base) _ (rw ne refl)
                (omega (arith, length_left start, room start count h ne))
                (ap₂ (λ n left. copy_blocks count n signature left) next
                    (drop-drop signature.block_size (start * signature.block_size) base
                      ∙ ap (λ n. drop n base) further)
                  ∙ copy_blocks-blocks count (start + 1) (omega arith)))
      ]

  start_small :
      (start count : ℕ)
      → 0 < count
      → start + count ≤ length signature.hashes
      → start * signature.block_size < 2 ^ 63
  start_small start count h k = omega (
    arith,
    small,
    start_end start (length signature.hashes) signature.block_size signature.last_block_size
        (length base) (omega arith) signs.sizes,
    signs.positive,
  )

  -- `Patch` of an operation within the base's blocks writes what the operation stands for.
  patch-meaning :
      (size : ℕ) (o : Operation)
      → IsWithin size (length signature.hashes) o
      → patch base signature o ≡ some (meaning signature.block_size base o)
  unfolding patch
  patch-meaning size o (inl (filled, _, _, _)) = ground arith
  patch-meaning size o (inr (none_given, some_count, within)) =
      let below = start_small o.start o.count some_count within in
      let offset : (o.start * signature.block_size) % 2 ^ 64 ≡ o.start * signature.block_size =
        omega arith in
      let seeks : leb (2 ^ 63) (o.start * signature.block_size) ≡ false = ground arith in
      let no_bytes : ltb 0 (length o.bytes) ≡ false = ground arith in
      rw (no_bytes, offset, seeks, none_given) (copy_blocks-blocks o.count o.start within)

  pub patch_bytes-meanings :
      (size : ℕ) (os : List Operation)
      → All (IsWithin size (length signature.hashes)) os
      → patch_bytes base signature os ≡ some (meanings signature.block_size base os)
  unfolding patch_bytes
  patch_bytes-meanings size [] h = refl
  patch_bytes-meanings size (o ∷ os) (h, hs) =
      rw (patch_bytes, patch-meaning size o h, patch_bytes-meanings size os hs) refl

-- The operations that `Deltify` transmits are valid.
pub ensure_valid_operation-IsWithin :
    (size n : ℕ) (o : Operation) → IsWithin size n o → ensure_valid_operation o ≡ none
unfolding ensure_valid_operation
ensure_valid_operation-IsWithin size n o (inl (filled, _, start, count)) = ground arith
ensure_valid_operation-IsWithin size n o (inr (empty, some_count, within)) = ground arith
