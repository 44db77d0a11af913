-- ===== src/Tests/Delta.antt =====
-- Deltas and patches of a short text.
use native.Mathlib.Decide.{ℕ_discrete}
use mutagen.Base.{
  ℕ, Bytes, Bytes-discrete, Bool, true, false, none, some, List, [], ◌∷◌, ◌++◌, ◌≡◌, refl, ap,
  arith, is_empty, codes, All, length, ◌≤◌, drop,
}
use mutagen.Rsync.{Signature, Operation, ensure_valid_operation, ensure_valid_signature}
use mutagen.Rsync.WeakHash.{weak_hash, weak_from, roll_weak_hash}
use mutagen.Rsync.WeakHash.Rolling.{roll_weak_hash-weak_hash}
use mutagen.Rsync.Signing.{bytes_signature, hash_blocks}
use mutagen.Rsync.Delta.{
  returned, deltify_bytes, deltify, search, round, examine, finish, flush, send_data, send_chunks,
  send_block, maximum_size,
}
use mutagen.Rsync.Patching.{patch_bytes, patch, copy_blocks}
use mutagen.Rsync.Found.{CollisionFree}
use mutagen.Rsync.Roundtrip.{patch_bytes-deltify_bytes}
use mutagen.Rsync.Valid.{ensure_valid_signature-bytes_signature}

-- A hash without collisions, and a square root that is not used at a given block size.
abbrev marked_copy : Bytes → Bytes
marked_copy b = 0 ∷ b

abbrev no_root : ℕ → ℕ
no_root n = 0

CollisionFree_lem : (k : ℕ) (base target : Bytes) → CollisionFree marked_copy k base target
CollisionFree_lem k base target i before part after e h = ap (drop 1) h

abbrev old_text : Bytes
old_text = codes "abcdefgh"

abbrev new_text : Bytes
new_text = codes "xdefabcdefgh"

abbrev old_signature : Signature
old_signature = bytes_signature marked_copy no_root old_text 3

abbrev delta : List Operation
delta =
    record { bytes = codes "x"; start = 0; count = 0 }
    ∷ record { bytes = []; start = 1; count = 1 }
    ∷ record { bytes = []; start = 0; count = 3 }
    ∷ []

deltifies : deltify_bytes marked_copy new_text old_signature 0 ≡ returned delta
unfolding bytes_signature hash_blocks weak_hash weak_from roll_weak_hash deltify search round
    examine finish flush send_data send_chunks send_block Bytes-discrete ℕ_discrete
deltifies = refl

patches : patch_bytes old_text old_signature delta ≡ some new_text
unfolding bytes_signature hash_blocks weak_hash weak_from patch_bytes patch copy_blocks ℕ_discrete
patches = refl

patch_bytes-deltify_bytes_example :
    (os : List Operation) × (deltify_bytes marked_copy new_text old_signature 0 ≡ returned os)
    × All (λ o. (ensure_valid_operation o ≡ none) × (length o.bytes ≤ maximum_size 0)) os
    × (patch_bytes old_text old_signature os ≡ some new_text)
patch_bytes-deltify_bytes_example =
    patch_bytes-deltify_bytes marked_copy no_root old_text new_text 3 0 (omega arith)
      (CollisionFree_lem old_signature.block_size old_text new_text)

marked_copy-filled : (b : Bytes) → is_empty (marked_copy b) ≡ false
marked_copy-filled b = refl

ensure_valid_signature-bytes_signature_example : ensure_valid_signature old_signature ≡ none
ensure_valid_signature-bytes_signature_example =
    ensure_valid_signature-bytes_signature marked_copy marked_copy-filled no_root old_text 3

roll_weak_hash-weak_hash_example :
    roll_weak_hash (weak_hash (codes "abc") 3).r1 (weak_hash (codes "abc") 3).r2 b'a' b'd' 3
    ≡ weak_hash (codes "bcd") 3
roll_weak_hash-weak_hash_example = roll_weak_hash-weak_hash b'a' b'd' (codes "bc")

-- A transmitter that fails once: the error of the first block operation is lost, and with it the
-- second block.
abbrev fail_once : Operation → Bool × List Operation → Bool × (Bool × List Operation)
fail_once o (true, os) = (false, (false, os))
fail_once o (false, os) = (true, (false, os ++ (o ∷ [])))

swallows :
    deltify fail_once marked_copy (codes "defabc") old_signature 0 (true, [])
    ≡ returned (false, record { bytes = []; start = 1; count = 1 } ∷ [])
unfolding bytes_signature hash_blocks weak_hash weak_from roll_weak_hash deltify search round
    examine finish flush send_data send_chunks send_block Bytes-discrete ℕ_discrete
swallows = refl
