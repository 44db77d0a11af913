-- ===== src/Rsync/WeakHash/Rolling.antt =====
-- About the rolling of the weak hash of pkg/synchronization/rsync/engine.go.
use mutagen.Base.{
  ℕ, suc, Bytes, [], ◌∷◌, ◌++◌, ◌≡◌, ap, ap₂, ◌∙◌, arith, length, length-append, ◌^◌, ◌+◌, ◌*◌, ◌%◌,
  ◌/◌,
}
use mutagen.Rsync.WeakHash.{word, sub_u32, modulus, combine, weak_from, weak_hash, roll_weak_hash}

-- The two sums without wrap-around: of the bytes, and of the bytes by their distance to the end.
abbrev sum : Bytes → ℕ
sum [] = 0
sum (b ∷ bs) = b + sum bs

abbrev weighted : Bytes → ℕ
weighted [] = 0
weighted (b ∷ bs) = suc (length bs) * b + weighted bs

low : ℕ → ℕ
low n = n % modulus

word-low : (n : ℕ) → word n % modulus ≡ n % modulus
word-low n = omega arith

split : (a : ℕ) → a ≡ word a + a / 2 ^ 32 * 2 ^ 32
split a = omega arith

mul-word : (a b : ℕ) → word (word a * b) ≡ word (a * b)
mul-word a b = omega (arith, ap (λ (t : ℕ). t * b) (split a))

mul-word₂ : (a b : ℕ) → word (a * word b) ≡ word (a * b)
mul-word₂ a b = omega (arith, ap (λ (t : ℕ). a * t) (split b))

-- What one byte adds to the second sum.
weight :
    (block_size i n b : ℕ)
    → block_size ≡ i + suc n
    → word (sub_u32 (word block_size) (word i) * word b) ≡ word (suc n * b)
weight block_size i n b h =
    let distance : sub_u32 (word block_size) (word i) ≡ word (suc n) = omega arith in
    ap (λ (t : ℕ). word (t * word b)) distance ∙ mul-word (suc n) (word b) ∙ mul-word₂ (suc n) b

weak_from-sums :
    (bs : Bytes) (block_size i r1 r2 : ℕ)
    → block_size ≡ i + length bs
    → weak_from bs block_size i r1 r2
      ≡ combine ((r1 + sum bs) % modulus) ((r2 + weighted bs) % modulus)
unfolding weak_from
weak_from-sums [] block_size i r1 r2 h = ap₂ combine (omega arith) (omega arith)
weak_from-sums (b ∷ bs) block_size i r1 r2 h =
    weak_from-sums bs block_size (i + 1) _ _ (omega arith)
    ∙ ap₂ combine (omega arith) (omega (arith, weight block_size i (length bs) b (omega arith)))

-- `weakHash` of a whole block is made of the two sums.
weak_hash-sums :
    (bs : Bytes) → weak_hash bs (length bs) ≡ combine (sum bs % modulus) (weighted bs % modulus)
unfolding weak_hash
weak_hash-sums bs =
    weak_from-sums bs (length bs) 0 0 0 (omega arith) ∙ ap₂ combine (omega arith) (omega arith)

sum-snoc : (bs : Bytes) (x : ℕ) → sum (bs ++ (x ∷ [])) ≡ sum bs + x
sum-snoc [] x = omega arith
sum-snoc (b ∷ bs) x = omega (arith, sum-snoc bs x)

weighted-snoc : (bs : Bytes) (x : ℕ) → weighted (bs ++ (x ∷ [])) ≡ weighted bs + sum bs + x
weighted-snoc [] x = omega arith
weighted-snoc (b ∷ bs) x = omega (
  arith,
  weighted-snoc bs x,
  length-append bs (x ∷ []),
  ap (λ (t : ℕ). suc t * b) (length-append bs (x ∷ [])),
)

weak_hash-snoc :
    (bs : Bytes) (x : ℕ)
    → weak_hash (bs ++ (x ∷ [])) (suc (length bs))
      ≡ combine ((sum bs + x) % modulus) ((weighted bs + sum bs + x) % modulus)
unfolding weak_hash
weak_hash-snoc bs x =
    weak_from-sums (bs ++ (x ∷ [])) (suc (length bs)) 0 0 0
      (omega (arith, length-append bs (x ∷ [])))
    ∙ ap₂ combine (omega (arith, sum-snoc bs x)) (omega (arith, weighted-snoc bs x))

-- The two components of a rolled hash, with the product as one number.
rolled₁ :
    (out in' s : ℕ)
    → word (sub_u32 ((out + s) % modulus) (word out) + word in') % modulus ≡ (s + in') % modulus
rolled₁ out in' s = omega arith

rolled₂ :
    (p w t : ℕ)
    → word (sub_u32 ((p + w) % modulus) (word p) + t % modulus) % modulus ≡ (w + t) % modulus
rolled₂ p w t = omega arith

rolled :
    (n out in' s w : ℕ)
    → (let r1' = word (sub_u32 ((out + s) % modulus) (word out) + word in') % modulus in
        combine r1'
          (word (sub_u32 ((n * out + w) % modulus) (word (word n * word out)) + r1') % modulus))
      ≡ combine ((s + in') % modulus) ((w + s + in') % modulus)
rolled n out in' s w =
    rw (rolled₁ out in' s, mul-word n (word out), mul-word₂ n out, rolled₂ (n * out) w (s + in'))
      (ap (combine ((s + in') % modulus)) (omega arith))

-- Rolling the weak hash of a block one byte forward gives the weak hash that `weakHash` computes
-- for the block at the new place, whatever the block size.
pub roll_weak_hash-weak_hash :
    (out in' : ℕ) (bs : Bytes)
    → roll_weak_hash
        (weak_hash (out ∷ bs) (suc (length bs))).r1
        (weak_hash (out ∷ bs) (suc (length bs))).r2
        out
        in'
        (suc (length bs))
      ≡ weak_hash (bs ++ (in' ∷ [])) (suc (length bs))
unfolding roll_weak_hash
roll_weak_hash-weak_hash out in' bs =
    rw (weak_hash-sums (out ∷ bs), weak_hash-snoc bs in')
      (rolled (suc (length bs)) out in' (sum bs) (weighted bs))
