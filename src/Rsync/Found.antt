-- ===== src/Rsync/Found.antt =====
-- About the matches that `Deltify` in pkg/synchronization/rsync/engine.go finds by the strong hash.
use mathlib.Core.Path.{subst}
use mutagen.Base.{
  ℕ, zero, suc, Bytes, Bool, true, ◌&&◌, some, Option-cases, List, [], ◌∷◌, ◌++◌, ◌≡◌, refl, sym,
  ap, ◌∙◌, arith, inl, inr, Bool-cases, length, get_elem?, ==→eq, nat_eq, bytes_eq, ◌-◌, ◌<◌,
}
use mathlib.Core.Option.{some-injective}
use mutagen.Rsync.{BlockHash, Signature}
use mutagen.Rsync.Blocks.{block, Signs}
use mutagen.Rsync.Delta.{append_operation, has_strong, first_potential, last_block_matches}

-- The strong hash of a block of the base is that of no other part of the target.
abbrev pub CollisionFree : (Bytes → Bytes) → ℕ → Bytes → Bytes → Type 0
CollisionFree strong_hash block_size base target =
    (i : ℕ) (before part after : Bytes)
    → before ++ (part ++ after) ≡ target
    → strong_hash part ≡ strong_hash (block block_size base i)
    → part ≡ block block_size base i

pub first_potential-has_strong :
    (hashes : List BlockHash) (ps : List ℕ) (strong : Bytes) (p : ℕ)
    → first_potential hashes ps strong ≡ some p
    → has_strong hashes p strong ≡ true
first_potential-has_strong hashes [] strong p h = absurd (cc h)
first_potential-has_strong hashes (q ∷ ps) strong p h =
    elim (Bool-cases (has_strong hashes q strong)) [
      | inl yes_it ↦
          subst (λ i. has_strong hashes i strong ≡ true) (some-injective q p (rw yes_it at h))
            yes_it
      | inr not_it ↦ first_potential-has_strong hashes ps strong p (rw not_it at h)
    ]

get_elem?-length :
    (hashes : List BlockHash) (i : ℕ) (h : BlockHash)
    → get_elem? hashes i ≡ some h
    → i < length hashes
get_elem?-length [] i h e = absurd (cc e)
get_elem?-length (x ∷ hashes) zero h e = omega arith
get_elem?-length (x ∷ hashes) (suc i) h e = omega (arith, get_elem?-length hashes i h e)

pub get_elem?_of_lt : (xs : Bytes) (i : ℕ) → i < length xs → (x : ℕ) × (get_elem? xs i ≡ some x)
get_elem?_of_lt [] i h = absurd (omega arith)
get_elem?_of_lt (x ∷ xs) zero h = (x, refl)
get_elem?_of_lt (x ∷ xs) (suc i) h = get_elem?_of_lt xs i (omega arith)

pub second : (a b : Bool) → (a && b) ≡ true → b ≡ true
second a b h = ground arith

module _ (strong_hash : Bytes → Bytes) (base : Bytes) (signature : Signature) (size : ℕ)
    (goal : Bytes)
    (signs : Signs strong_hash signature.block_size base signature.hashes signature.last_block_size)
    (free : CollisionFree strong_hash signature.block_size base goal) where
  -- What the code finds by its strong hash is that block.
  found-hash :
      (i : ℕ) (h : BlockHash) (before part after : Bytes)
      → before ++ (part ++ after) ≡ goal
      → get_elem? signature.hashes i ≡ some h
      → h.strong ≡ strong_hash part
      → (i < length signature.hashes) × (part ≡ block signature.block_size base i)
  found-hash i h before part after e there same =
      let inside = get_elem?-length signature.hashes i h there in
      (
        inside,
        free i before part after e (
            sym same ∙ ap (λ y. y.strong) (some-injective h _ (sym there ∙ signs.hashed i inside))),
      )

  pub found-block :
      (i : ℕ) (before part after : Bytes)
      → before ++ (part ++ after) ≡ goal
      → has_strong signature.hashes i (strong_hash part) ≡ true
      → (i < length signature.hashes) × (part ≡ block signature.block_size base i)
  found-block i before part after e h = elim (Option-cases (get_elem? signature.hashes i)) [
    | inl missing ↦ absurd (cc (rw (has_strong, missing) at h))
    | inr (x, there) ↦
        found-hash i x before part after e there
          (==→eq x.strong (strong_hash part) (rw (has_strong, there) at h))
  ]

  pub found-last :
      (before part after : Bytes)
      → before ++ (part ++ after) ≡ goal
      → last_block_matches append_operation strong_hash signature size part ≡ true
      → (length signature.hashes - 1 < length signature.hashes)
        × (part ≡ block signature.block_size base (length signature.hashes - 1))
  found-last before part after e h =
      elim (Option-cases (get_elem? signature.hashes (length signature.hashes - 1))) [
        | inl missing ↦ absurd (cc (rw (last_block_matches, missing) at h))
        | inr (x, there) ↦ found-hash (length signature.hashes - 1) x before part after e there (
            sym (
              ==→eq (strong_hash part) x.strong (second _ _ (rw (last_block_matches, there) at h))))
      ]
