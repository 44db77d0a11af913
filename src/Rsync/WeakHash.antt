-- ===== src/Rsync/WeakHash.antt =====
-- `weakHash` and `rollWeakHash` of pkg/synchronization/rsync/engine.go, with the arithmetic of
-- `uint32` written out.
pub mod Rolling
use mutagen.Base.{ℕ, zero, suc, Bytes, [], ◌∷◌, ◌^◌, ◌+◌, ◌-◌, ◌*◌, ◌%◌}

abbrev pub word : ℕ → ℕ
word n = n % 2 ^ 32

-- `uint32` subtraction of words.
abbrev pub sub_u32 : ℕ → ℕ → ℕ
sub_u32 a b = (a + 2 ^ 32 - b) % 2 ^ 32

-- The constant `m`.
abbrev pub modulus : ℕ
modulus = 2 ^ 16

-- The three results: the hash and its two components.
pub record Weak : Type 0 where
  pub hash : ℕ
  pub r1 : ℕ
  pub r2 : ℕ

-- The last lines of both functions, with the components reduced.
abbrev pub combine : ℕ → ℕ → Weak
combine r1 r2 = record { hash = word (r1 + modulus * r2); r1 = r1; r2 = r2 }

-- The loop over the data, from index `i` on.
unfoldable pub weak_from : Bytes → ℕ → ℕ → ℕ → ℕ → Weak
weak_from [] block_size i r1 r2 = combine (r1 % modulus) (r2 % modulus)
weak_from (b ∷ data') block_size i r1 r2 =
    weak_from data' block_size (i + 1) (word (r1 + word b))
      (word (r2 + word (sub_u32 (word block_size) (word i) * word b)))

-- `weakHash`
unfoldable pub weak_hash : Bytes → ℕ → Weak
unfolding weak_from
weak_hash data' block_size = weak_from data' block_size 0 0 0

-- `rollWeakHash`
unfoldable pub roll_weak_hash : ℕ → ℕ → ℕ → ℕ → ℕ → Weak
roll_weak_hash r1 r2 out in' block_size =
    let r1' = word (sub_u32 r1 (word out) + word in') % modulus in
    let r2' = word (sub_u32 r2 (word (word block_size * word out)) + r1') % modulus in
    combine r1' r2'
