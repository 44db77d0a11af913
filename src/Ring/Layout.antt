-- ===== src/Ring/Layout.antt =====
-- The layouts of data and free space in the storage of pkg/multiplexing/ring/buffer.go.
use mutagen.Base.{
  ℕ, zero, suc, Bytes, [], ◌∷◌, ◌++◌, ◌≡◌, refl, sym, ap, ◌∙◌, arith, length, length-append, take,
  drop, take-append, drop-append, drop-drop, ◌+◌, ◌-◌, ◌≤◌, ◌<◌,
}
use mutagen.Ring.{Buffer, new_buffer, zeros}

-- What every layout has.
pub record Sized (b : Buffer) : Type 0 where
  pub all : length b.storage ≡ b.size
  pub fits : b.used ≤ b.size
  pub begins : b.start ≤ b.size - 1

-- The buffer holds a queue: in one piece between free space, or in two pieces around it.
pub data Holds (b : Buffer) (q : Bytes) : Type 0 where
  linear :
      (p f : Bytes)
      → Sized b
      → b.storage ≡ p ++ (q ++ f)
      → b.start ≡ length p
      → b.used ≡ length q
      → Holds b q
  wrapped :
      (h t f : Bytes)
      → Sized b
      → b.storage ≡ t ++ (f ++ h)
      → b.start ≡ length t + length f
      → b.used ≡ length h + length t
      → q ≡ h ++ t
      → 0 < length h
      → Holds b q

pub take_at : (n : ℕ) (xs ys : Bytes) → n ≡ length xs → take n (xs ++ ys) ≡ xs
take_at n xs ys e = ap (λ k. take k (xs ++ ys)) e ∙ take-append xs ys

pub drop_at : (n m : ℕ) (xs ys : Bytes) → n ≡ length xs + m → drop n (xs ++ ys) ≡ drop m ys
drop_at n m xs ys e =
    ap (λ k. drop k (xs ++ ys)) e
    ∙ sym (drop-drop m (length xs) (xs ++ ys))
    ∙ ap (drop m) (drop-append xs ys)

pub drop-append_le : (n : ℕ) (xs ys : Bytes) → n ≤ length xs → drop n (xs ++ ys) ≡ drop n xs ++ ys
drop-append_le zero xs ys h = refl
drop-append_le (suc n) [] ys h = absurd (omega arith)
drop-append_le (suc n) (x ∷ xs) ys h = drop-append_le n xs ys (omega arith)

pub take-append_le : (n : ℕ) (xs ys : Bytes) → n ≤ length xs → take n (xs ++ ys) ≡ take n xs
take-append_le zero xs ys h = refl
take-append_le (suc n) [] ys h = absurd (omega arith)
take-append_le (suc n) (x ∷ xs) ys h = ap (λ zs. x ∷ zs) (take-append_le n xs ys (omega arith))

length-zeros : (n : ℕ) → length (zeros n) ≡ n
length-zeros zero = refl
length-zeros (suc n) = omega (arith, length-zeros n)

-- A new buffer holds nothing.
pub new_buffer-Holds : (size : ℕ) → Holds (new_buffer size) []
unfolding new_buffer
new_buffer-Holds size =
    linear [] (zeros size)
      (record { all = length-zeros size; fits = omega arith; begins = omega arith }) refl refl refl

-- A buffer that holds a queue is sized.
pub Sized-of_Holds : (b : Buffer) (q : Bytes) → Holds b q → Sized b
Sized-of_Holds b q (linear p f s e1 e2 e3) = s
Sized-of_Holds b q (wrapped h t f s e1 e2 e3 e4 pos) = s

pub used-Holds : (b : Buffer) (q : Bytes) → Holds b q → b.used ≡ length q
used-Holds b q (linear p f s e1 e2 e3) = e3
used-Holds b q (wrapped h t f s e1 e2 e3 e4 pos) =
    omega (arith, e3, ap length e4, length-append h t)
