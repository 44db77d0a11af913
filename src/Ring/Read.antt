-- ===== src/Ring/Read.antt =====
-- The read operations of pkg/multiplexing/ring/buffer.go.
use mutagen.Base.{
  ℕ, zero, suc, Bytes, Option, none, some, inl, inr, true, false, ◌&&◌, is_empty, [], ◌∷◌, ◌++◌,
  ◌≡◌, refl, sym, ap, ap₂, ◌∙◌, arith, append_assoc, append-nil, length, take, if◌then◌else◌, ltb,
  le_of_ltb, drop, drop_of_length_le, take_of_length_le, take_add, drop-drop, length-take, ◌+◌, ◌-◌,
  ◌≤◌, ◌<◌, min, get_elem?, ◌==◌, ==_self, ==→eq, nat_eq, Bool-cases,
}
use mathlib.Core.Path.{subst}
use mutagen.Ring.{
  Buffer, Error, eof, Taken, read, read_from, read_byte, advance, data_segment, reset_drained,
}
use mutagen.Ring.Advance.{advance-Holds}
use mutagen.Ring.Layout.{Holds, linear, used-Holds, Sized-of_Holds}

nil_of_length : (q : Bytes) → length q ≡ 0 → q ≡ []
nil_of_length [] h = refl
nil_of_length (x ∷ q) h = absurd (omega arith)

nil_of_used : (b : Buffer) (q : Bytes) → Holds b q → b.used ≡ 0 → q ≡ []
nil_of_used b q held e = nil_of_length q (omega (arith, used-Holds b q held))

-- The reset of a drained buffer keeps what the buffer holds.
pub reset_drained-Holds : (b : Buffer) (q : Bytes) → Holds b q → Holds (reset_drained b) q
reset_drained-Holds b q held = elim (Bool-cases (b.used == 0)) [
  | inl drained ↦ rw drained (
      linear [] b.storage
        (record {
          all = (Sized-of_Holds b q held).all;
          fits = (Sized-of_Holds b q held).fits;
          begins = omega arith;
        })
        (sym (ap (λ xs. xs ++ b.storage) (nil_of_used b q held (==→eq b.used 0 drained)))) refl
        (used-Holds b q held))
  | inr filled ↦ rw filled held
]

-- What a read from a buffer that holds a queue gives.
abbrev pub IsReadFrom : Buffer → Bytes → ℕ → Bytes → Option Error → Option Taken → Type 0
IsReadFrom b q wanted result error outcome =
    (b' : Buffer) × (outcome
      ≡ some (record { bytes = result ++ take wanted q; error = error; buffer = b' }))
    × (b'.size ≡ b.size)
    × Holds b' (drop wanted q)

&&-lt : (m n : ℕ) → (ltb 0 m && ltb 0 n) ≡ true → (0 < m) × (0 < n)
&&-lt m n h = ground arith

&&-zero : (m n : ℕ) → ltb 0 m ≡ true → (ltb 0 m && ltb 0 n) ≡ false → n ≡ 0
&&-zero m n h e = ground arith

pub size-reset_drained : (b : Buffer) → (reset_drained b).size ≡ b.size
size-reset_drained b = elim (Bool-cases (b.used == 0)) [
  | inl drained ↦ rw drained refl
  | inr filled ↦ rw filled refl
]

read_stop :
    (b : Buffer) (q : Bytes) (wanted : ℕ) (result : Bytes)
    → Holds b q
    → (ltb 0 wanted && ltb 0 b.used) ≡ false
    → IsReadFrom b q wanted result none
        (some (record { bytes = result; error = none; buffer = reset_drained b }))
read_stop b q wanted result held e = (
  reset_drained b,
  ap (λ xs. some (record { bytes = xs; error = none; buffer = reset_drained b }))
      (sym (ap (λ xs. result ++ xs) taken.0 ∙ append-nil result)),
  size-reset_drained b,
  subst (λ xs. Holds (reset_drained b) xs) (sym taken.1) (reset_drained-Holds b q held),
)
  where
    taken : (take wanted q ≡ []) × (drop wanted q ≡ q)
    taken = elim (Bool-cases (ltb 0 wanted)) [
      | inl positive ↦
          let empty : q ≡ [] = nil_of_used b q held (&&-zero wanted b.used positive e) in
          (
            ap (take wanted) empty ∙ take_of_length_le wanted [] (omega arith),
            ap (drop wanted) empty ∙ drop_of_length_le wanted [] (omega arith) ∙ sym empty,
          )
      | inr zero_wanted ↦
          let e0 : wanted ≡ 0 = omega (arith, le_of_ltb _ _ zero_wanted) in
          (ap (λ n. take n q) e0, ap (λ n. drop n q) e0)
    ]

-- A round of the loop leaves the rest of the queue for the rest of the destination.
read_round :
    (b : Buffer) (q : Bytes) (wanted copied : ℕ) (result : Bytes) (outcome : Option Taken)
    → copied ≤ wanted
    → take copied (data_segment b) ≡ take copied q
    → IsReadFrom
        (advance b copied)
        (drop copied q)
        (wanted - copied)
        (result ++ take copied (data_segment b))
        none
        outcome
    → IsReadFrom b q wanted result none outcome
unfolding advance
read_round b q wanted copied result outcome few same (b', e, size, held) =
    let split : wanted ≡ copied + (wanted - copied) = omega arith in
    (
      b',
      e
          ∙ ap (λ xs. some (record { bytes = xs; error = none; buffer = b' }))
              (append_assoc result (take copied (data_segment b))
                  (take (wanted - copied) (drop copied q))
                ∙ ap (λ xs. result ++ xs)
                    (ap (λ xs. xs ++ take (wanted - copied) (drop copied q)) same
                      ∙ sym (take_add copied (wanted - copied) q)
                      ∙ ap (λ n. take n q) (sym split))),
      size,
      subst (λ xs. Holds b' xs)
          (drop-drop (wanted - copied) copied q ∙ ap (λ n. drop n q) (sym split)) held,
    )

read_from-Holds :
    (fuel : ℕ) (b : Buffer) (q : Bytes) (wanted : ℕ) (result : Bytes)
    → Holds b q
    → wanted < fuel
    → IsReadFrom b q wanted result none (read_from fuel b wanted result)
unfolding read_from
read_from-Holds zero b q wanted result held enough = absurd (omega arith)
read_from-Holds (suc fuel) b q wanted result held enough =
    elim (Bool-cases (ltb 0 wanted && ltb 0 b.used)) [
      | inl more ↦
          let (some_wanted, some_used) = &&-lt wanted b.used more in
          let copied = min wanted (length (data_segment b)) in
          let (same, some_segment, short, held') =
            advance-Holds b q copied held some_used (omega arith) in
          rw more (
            read_round b q wanted copied result _ (omega arith) same (
              read_from-Holds fuel (advance b copied) (drop copied q) (wanted - copied)
                (result ++ take copied (data_segment b)) held'
                (omega (arith, some_wanted, some_segment))))
      | inr done ↦ rw done (read_stop b q wanted result held done)
    ]

is_empty_of_used : (b : Buffer) (q : Bytes) → Holds b q → (b.used == 0) ≡ false → is_empty q ≡ false
is_empty_of_used b [] held filled = absurd (ground (arith, used-Holds b [] held))
is_empty_of_used b (x ∷ q) held filled = refl

-- The error of a read from a queue.
abbrev pub read_error : Bytes → ℕ → Option Error
read_error q wanted = if ltb 0 wanted && is_empty q then some eof else none

read_error-nil : (wanted : ℕ) → read_error [] (suc wanted) ≡ some eof
read_error-nil wanted = ground arith

read_error_of_data : (q : Bytes) (wanted : ℕ) → is_empty q ≡ false → read_error q wanted ≡ none
read_error_of_data q wanted h = ground arith

-- A read from a buffer that holds a queue returns: it takes bytes off the front of the queue, as
-- many as are wanted and there are, keeps the size, and reports the end of the data exactly where
-- bytes are wanted from an empty queue.
pub read-Holds :
    (b : Buffer) (q : Bytes) (wanted : ℕ)
    → Holds b q
    → IsReadFrom b q wanted [] (read_error q wanted) (read b wanted)
unfolding read
read-Holds b q zero held = rw (==_self {A = ℕ} 0) (b, refl, refl, held)
read-Holds b q (suc wanted) held = elim (Bool-cases (b.used == 0)) [
  | inl drained ↦
      let empty : q ≡ [] = nil_of_used b q held (==→eq b.used 0 drained) in
      rw (some_wanted, drained)
        (
          b,
          ap₂ (λ xs error. some (record { bytes = xs; error = error; buffer = b }))
              (sym (ap (take (suc wanted)) empty))
              (sym (ap (λ xs. read_error xs (suc wanted)) empty ∙ read_error-nil wanted)),
          refl,
          subst (λ xs. Holds b xs) (empty ∙ sym (ap (drop (suc wanted)) empty)) held,
        )
  | inr filled ↦
      let some_data : is_empty q ≡ false = is_empty_of_used b q held filled in
      rw (read_error_of_data q (suc wanted) some_data, some_wanted, filled)
        (read_from-Holds (suc (suc wanted)) b q (suc wanted) [] held (omega arith))
]
  where
    some_wanted : (suc wanted == 0) ≡ false
    some_wanted = ground arith

-- The byte at an index is the first of a segment from there on.
first_of_segment :
    (m n : ℕ) (storage : Bytes)
    → 0 < length (take m (drop n storage))
    → (value : ℕ) × (get_elem? storage n ≡ some value)
      × (take 1 (take m (drop n storage)) ≡ value ∷ [])
first_of_segment m zero [] h = absurd (omega (arith, length-take {A = ℕ} m []))
first_of_segment zero zero (x ∷ xs) h = absurd (omega arith)
first_of_segment (suc m) zero (x ∷ xs) h = (x, refl, refl)
first_of_segment m (suc n) [] h = absurd (omega (arith, length-take {A = ℕ} m []))
first_of_segment m (suc n) (x ∷ xs) h = first_of_segment m n xs h

-- Reading a byte from a buffer that holds a queue returns what a read of one byte does, and leaves
-- the same buffer.
pub read_byte-read : (b : Buffer) (q : Bytes) → Holds b q → read_byte b ≡ read b 1
unfolding read read_byte read_from
read_byte-read b q held = elim (Bool-cases (b.used == 0)) [
  | inl drained ↦ rw (drained, wants) refl
  | inr filled ↦
      let some_used : 0 < b.used = ground arith in
      let (same, some_segment, short, held') = advance-Holds b q 0 held some_used (omega arith) in
      let (value, found, taken) = first_of_segment _ b.start b.storage some_segment in
      let one : min 1 (length (data_segment b)) ≡ 1 = omega (arith, some_segment) in
      let positive : ltb 0 b.used ≡ true = ground arith in
      rw (filled, wants, found, positive, one, taken) refl
]
  where
    wants : ◌==◌ {A = ℕ} 1 0 ≡ false
    wants = ground arith
