-- ===== src/Rsync/Blocks.antt =====
-- The blocks of a base, and what `Signature` of pkg/synchronization/rsync/engine.go says of them.
use mutagen.Base.{
  ℕ, zero, suc, Bytes, true, false, some, List, [], ◌∷◌, ◌++◌, ◌≡◌, refl, sym, ap, append-nil,
  append_assoc, ◌∙◌, arith, inl, inr, ◌⊎◌, Bool-cases, lt_of_ltb, le_of_ltb, ltb, is_empty, length,
  take, drop, take_add, drop-drop, length-drop, take_of_length_le, get_elem?, if◌then◌else◌, ◌+◌,
  ◌*◌, ◌<◌, ◌≤◌,
}
use mutagen.Rsync.{BlockHash, Operation, optimal_block_size}
use mutagen.Rsync.Signing.{hash_block, hash_blocks, chosen_block_size, bytes_signature}

-- Blocks that follow each other are one slice of the base. The last block may be short.
abbrev pub blocks : ℕ → Bytes → ℕ → ℕ → Bytes
blocks block_size base start count = take (count * block_size) (drop (start * block_size) base)

abbrev pub block : ℕ → Bytes → ℕ → Bytes
block block_size base i = take block_size (drop (i * block_size) base)

-- The bytes that an operation stands for.
abbrev pub meaning : ℕ → Bytes → Operation → Bytes
meaning block_size base o =
    if is_empty o.bytes then blocks block_size base o.start o.count else o.bytes

abbrev pub meanings : ℕ → Bytes → List Operation → Bytes
meanings block_size base [] = []
meanings block_size base (o ∷ os) = meaning block_size base o ++ meanings block_size base os

meanings-append :
    (k : ℕ) (base : Bytes) (os ps : List Operation)
    → meanings k base (os ++ ps) ≡ meanings k base os ++ meanings k base ps
meanings-append k base [] ps = refl
meanings-append k base (o ∷ os) ps =
    ap (λ bytes. meaning k base o ++ bytes) (meanings-append k base os ps)
    ∙ sym (append_assoc (meaning k base o) (meanings k base os) (meanings k base ps))

pub meanings-snoc :
    (k : ℕ) (base : Bytes) (os : List Operation) (o : Operation)
    → meanings k base (os ++ (o ∷ [])) ≡ meanings k base os ++ meaning k base o
meanings-snoc k base os o =
    meanings-append k base os (o ∷ [])
    ∙ ap (λ bytes. meanings k base os ++ bytes) (append-nil (meaning k base o))

pub take_filled : (m b : ℕ) (bytes : Bytes) → 0 < m → is_empty (take m (b ∷ bytes)) ≡ false
take_filled zero b bytes h = absurd (omega arith)
take_filled (suc m) b bytes h = refl

-- One block more.
pub blocks-extend :
    (block_size : ℕ) (base : Bytes) (start count : ℕ)
    → blocks block_size base start (count + 1)
      ≡ blocks block_size base start count ++ block block_size base (start + count)
blocks-extend block_size base start count =
    ap (λ n. take n (drop (start * block_size) base)) (omega arith)
    ∙ take_add (count * block_size) block_size (drop (start * block_size) base)
    ∙ ap (λ xs. blocks block_size base start count ++ take block_size xs)
        (drop-drop (count * block_size) (start * block_size) base
          ∙ ap (λ n. drop n base) (omega arith))

first_block : (block_size : ℕ) (base : Bytes) → block block_size base 0 ≡ take block_size base
first_block block_size base =
    let none_before : 0 * block_size ≡ 0 = omega arith in
    ap (λ n. take block_size (drop n base)) none_before

module _ (strong_hash : Bytes → Bytes) where
  -- The hashes are those of the base's blocks, and their sizes add up to the base's length.
  pub record Signs (block_size : ℕ) (base : Bytes) (hashes : List BlockHash) (last : ℕ)
      : Type 0 where
    pub positive : 0 < last
    pub small : last ≤ block_size
    pub sizes : length base + block_size ≡ length hashes * block_size + last
    pub hashed :
        (i : ℕ)
        → i < length hashes
        → get_elem? hashes i ≡ some (hash_block strong_hash block_size (block block_size base i))

  hashed_one :
      (block_size : ℕ) (base : Bytes)
      → length base ≤ block_size
      → (i : ℕ) → i < 1
      → get_elem? (hash_block strong_hash block_size base ∷ []) i
        ≡ some (hash_block strong_hash block_size (block block_size base i))
  hashed_one block_size base h zero lt =
      ap (λ xs. some (hash_block strong_hash block_size xs))
        (sym (first_block block_size base ∙ take_of_length_le block_size base h))
  hashed_one block_size base h (suc i) lt = absurd (omega arith)

  hashed_more :
      (block_size : ℕ) (base : Bytes) (hashes : List BlockHash)
      → ((i : ℕ)
          → i < length hashes
          → get_elem? hashes i
            ≡ some (hash_block strong_hash block_size (block block_size (drop block_size base) i)))
      → (i : ℕ) → i < suc (length hashes)
      → get_elem? (hash_block strong_hash block_size (take block_size base) ∷ hashes) i
        ≡ some (hash_block strong_hash block_size (block block_size base i))
  hashed_more block_size base hashes h zero lt =
      ap (λ xs. some (hash_block strong_hash block_size xs)) (sym (first_block block_size base))
  hashed_more block_size base hashes h (suc i) lt =
      h i (omega arith)
      ∙ ap (λ xs. some (hash_block strong_hash block_size (take block_size xs)))
          (drop-drop (i * block_size) block_size base ∙ ap (λ n. drop n base) (omega arith))

  hash_blocks-Signs :
      (fuel block_size : ℕ) (base : Bytes)
      → 0 < block_size
      → length base < fuel
      → Signs block_size base
          (hash_blocks strong_hash fuel block_size base).0
          (hash_blocks strong_hash fuel block_size base).1
  unfolding hash_blocks
  hash_blocks-Signs zero block_size base h k = absurd (omega arith)
  hash_blocks-Signs (suc fuel) block_size [] h k = record {
    positive = h;
    small = omega arith;
    sizes = omega arith;
    hashed = λ i lt. absurd (omega arith);
  }
  hash_blocks-Signs (suc fuel) block_size (b ∷ base) h k =
      elim (Bool-cases (ltb (length (b ∷ base)) block_size)) [
        | inl short ↦ rw short (record {
          positive = omega arith;
          small = omega (arith, lt_of_ltb (length (b ∷ base)) block_size short);
          sizes = omega arith;
          hashed =
              hashed_one block_size (b ∷ base)
                (omega (arith, lt_of_ltb (length (b ∷ base)) block_size short));
        })
        | inr long ↦
            let ih =
              hash_blocks-Signs fuel block_size (drop block_size (b ∷ base)) h
                (omega (arith, length-drop block_size (b ∷ base))) in
            rw long (record {
              positive = ih.positive;
              small = ih.small;
              sizes = omega (
                arith,
                ih.sizes,
                length-drop block_size (b ∷ base),
                le_of_ltb (length (b ∷ base)) block_size long,
              );
              hashed = hashed_more block_size (b ∷ base) _ ih.hashed;
            })
      ]

  chosen-pos :
      (root : ℕ → ℕ) (base : Bytes) (block_size : ℕ)
      → 0 < chosen_block_size strong_hash root block_size base
  unfolding optimal_block_size
  chosen-pos root base block_size = ground arith

  -- A signature of no blocks, or one that describes its base.
  pub bytes_signature-Signs :
      (root : ℕ → ℕ) (base : Bytes) (block_size : ℕ)
      → let s = bytes_signature strong_hash root base block_size in
        (is_empty s.hashes ≡ true)
        ⊎ ((is_empty s.hashes ≡ false) × Signs s.block_size base s.hashes s.last_block_size)
  unfolding bytes_signature
  bytes_signature-Signs root base block_size =
      let k = chosen_block_size strong_hash root block_size base in
      let signs =
        hash_blocks-Signs (suc (length base)) k base (chosen-pos root base block_size)
          (omega arith) in
      elim (Bool-cases (is_empty (hash_blocks strong_hash (suc (length base)) k base).0)) [
        | inl none_there ↦ rw none_there (inl none_there)
        | inr some_there ↦ rw some_there (inr (some_there, signs))
      ]
