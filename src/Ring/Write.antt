-- ===== src/Ring/Write.antt =====
-- The write operations of pkg/multiplexing/ring/buffer.go.
use mutagen.Base.{
  ℕ, zero, suc, Bytes, Option, none, some, inl, inr, false, [], ◌∷◌, ◌++◌, ◌≡◌, refl, sym, ap, ap₂,
  ◌∙◌, arith, append_assoc, append-nil, length, length-append, take, drop, take_add,
  take_of_length_le, length-take, length-drop, ◌+◌, ◌-◌, ◌≤◌, ◌<◌, min, ◌==◌, nat_eq, Bool-cases,
  ltb, if◌then◌else◌, ==→eq,
}
use mathlib.Core.Path.{subst}
use native.Mathlib.Nat.{mod-lt, mod-eq_of_lt, mod-eq-sub-mod}
use mutagen.Ring.{
  Buffer, Error, buffer_full, Written, write, write_from, write_byte, put, splice, free_start,
  free_length,
}
use mutagen.Ring.Layout.{
  Sized, Holds, linear, wrapped, take_at, drop_at, drop-append_le, Sized-of_Holds,
}

splice_at :
    (n : ℕ) (xs ys chunk : Bytes)
    → n ≡ length xs
    → splice (xs ++ ys) n chunk ≡ xs ++ (chunk ++ drop (length chunk) ys)
splice_at n xs ys chunk e =
    ap₂ (λ a c. a ++ (chunk ++ c)) (take_at n xs ys e)
      (drop_at (n + length chunk) (length chunk) xs ys (omega arith))

-- The free segment ends where the data begins, or at the end of the storage.
free_start_front :
    (b : Buffer)
    → b.start < b.size
    → b.size ≤ b.start + b.used
    → b.used < b.size
    → free_start b ≡ b.start + b.used - b.size
free_start_front b begins h lt =
    mod-eq-sub-mod {n = b.start + b.used} {m = b.size} h
    ∙ mod-eq_of_lt {n = b.start + b.used - b.size} {m = b.size} (omega arith)

free_start_behind : (b : Buffer) → b.start + b.used < b.size → free_start b ≡ b.start + b.used
free_start_behind b h = mod-eq_of_lt h

module _ (b : Buffer) (q chunk : Bytes) (lt : b.used < b.size)
    (room : length chunk ≤ free_length b) where
  -- The bytes go between the data in front of the free segment and what is behind it.
  put_into :
      (xs f ys : Bytes)
      → b.storage ≡ xs ++ (f ++ ys)
      → length b.storage ≡ b.size
      → free_start b ≡ length xs
      → length chunk ≤ length f
      → ((put b chunk).storage ≡ xs ++ (chunk ++ (drop (length chunk) f ++ ys)))
        × (length (put b chunk).storage ≡ b.size)
  unfolding put
  put_into xs f ys e all at small = (
    place,
    omega (
      arith,
      ap length place,
      ap length e,
      length-append xs (f ++ ys),
      length-append xs (chunk ++ (drop (length chunk) f ++ ys)),
      length-append f ys,
      length-append chunk (drop (length chunk) f ++ ys),
      length-append (drop (length chunk) f) ys,
      length-drop (length chunk) f,
    ),
  )
    where
      place : splice b.storage (free_start b) chunk ≡ xs ++ (chunk ++ (drop (length chunk) f ++ ys))
      place =
          ap (λ storage. splice storage (free_start b) chunk) e
          ∙ splice_at (free_start b) xs (f ++ ys) chunk at
          ∙ ap (λ zs. xs ++ (chunk ++ zs)) (drop-append_le (length chunk) f ys small)

  put_behind :
      (p f : Bytes)
      → Sized b
      → b.storage ≡ p ++ (q ++ f)
      → b.start ≡ length p
      → b.used ≡ length q
      → 0 < length f
      → Holds (put b chunk) (q ++ chunk)
  unfolding put
  put_behind p f s e1 e2 e3 some_free =
      let total : length p + (length q + length f) ≡ b.size =
        omega (arith, ap length e1, length-append p (q ++ f), length-append q f, s.all) in
      let at : free_start b ≡ length (p ++ q) =
        free_start_behind b (omega arith) ∙ omega (arith, length-append p q) in
      let (e, all) =
        put_into (p ++ q) f [] (e1 ∙ rw (append-nil f, append_assoc) refl) s.all at
          (omega (arith, room, length-append p q)) in
      linear p (drop (length chunk) f)
        (record { all = all; fits = omega (arith, room, at); begins = s.begins })
        (e ∙ rw (append-nil (drop (length chunk) f), append_assoc, append_assoc) refl) e2
        (omega (arith, length-append q chunk))

  put_front :
      (p : Bytes)
      → Sized b
      → b.storage ≡ p ++ q
      → b.start ≡ length p
      → b.used ≡ length q
      → Holds (put b chunk) (q ++ chunk)
  unfolding put
  put_front p s e1 e2 e3 =
      let total : length p + length q ≡ b.size =
        omega (arith, ap length e1, length-append p q, s.all) in
      let at : free_start b ≡ 0 =
        free_start_front b (omega (arith, s.begins)) (omega arith) lt ∙ omega arith in
      let (e, all) = put_into [] p q e1 s.all at (omega (arith, room)) in
      wrapped q chunk (drop (length chunk) p)
        (record { all = all; fits = omega (arith, room, at); begins = s.begins }) e
        (omega (arith, room, at, length-drop (length chunk) p)) (omega arith) refl
        (omega (arith, s.begins))

  put_between :
      (h t f : Bytes)
      → Sized b
      → b.storage ≡ t ++ (f ++ h)
      → b.start ≡ length t + length f
      → b.used ≡ length h + length t
      → q ≡ h ++ t
      → 0 < length h
      → Holds (put b chunk) (q ++ chunk)
  unfolding put
  put_between h t f s e1 e2 e3 e4 pos =
      let total : length t + (length f + length h) ≡ b.size =
        omega (arith, ap length e1, length-append t (f ++ h), length-append f h, s.all) in
      let at : free_start b ≡ length t =
        free_start_front b (omega arith) (omega arith) lt ∙ omega arith in
      let (e, all) = put_into t f h e1 s.all at (omega (arith, room)) in
      wrapped h (t ++ chunk) (drop (length chunk) f)
        (record { all = all; fits = omega (arith, room, at); begins = s.begins })
        (e ∙ rw append_assoc refl)
        (omega (arith, room, at, length-append t chunk, length-drop (length chunk) f))
        (omega (arith, length-append t chunk)) (ap (λ xs. xs ++ chunk) e4 ∙ rw append_assoc refl)
        pos

-- Bytes that fit the free segment extend the queue.
pub put-Holds :
    (b : Buffer) (q chunk : Bytes)
    → Holds b q
    → b.used < b.size
    → length chunk ≤ free_length b
    → Holds (put b chunk) (q ++ chunk)
put-Holds b q chunk (linear p [] s e1 e2 e3) lt room =
    put_front b q chunk lt room p s (e1 ∙ ap (λ xs. p ++ xs) (append-nil q)) e2 e3
put-Holds b q chunk (linear p (x ∷ f) s e1 e2 e3) lt room =
    put_behind b q chunk lt room p (x ∷ f) s e1 e2 e3 (omega arith)
put-Holds b q chunk (wrapped h t f s e1 e2 e3 e4 pos) lt room =
    put_between b q chunk lt room h t f s e1 e2 e3 e4 pos

-- The error of a write of a number of bytes into an amount of free space.
abbrev pub full_error : ℕ → ℕ → Option Error
full_error room count = if ltb room count then some buffer_full else none

-- What a write into a buffer that holds a queue gives.
abbrev pub IsWrittenTo : Buffer → Bytes → Bytes → ℕ → Option Written → Type 0
IsWrittenTo b q bytes result outcome =
    (b' : Buffer) × (outcome
      ≡ some (record {
        count = result + min (b.size - b.used) (length bytes);
        error = full_error (b.size - b.used) (length bytes);
        buffer = b';
      }))
    × (b'.size ≡ b.size)
    × Holds b' (q ++ take (b.size - b.used) bytes)

full_error-sub :
    (room count copied : ℕ)
    → copied ≤ room
    → copied ≤ count
    → full_error (room - copied) (count - copied) ≡ full_error room count
full_error-sub room count copied h k = ground arith

-- The free segment is a part of the free space, and not empty where there is some.
free_length_le : (b : Buffer) → free_length b ≤ b.size - b.used
free_length_le b = omega arith

pub free_length_pos : (b : Buffer) → b.used < b.size → 0 < free_length b
free_length_pos b lt = omega (arith, mod-lt (b.start + b.used) {m = b.size} (omega arith))

-- A round of the loop leaves the rest of the bytes for the rest of the space.
write_round :
    (b : Buffer) (q bytes : Bytes) (result : ℕ) (outcome : Option Written)
    → b.used < b.size
    → let copied = min (free_length b) (length bytes) in
      IsWrittenTo
        (put b (take copied bytes))
        (q ++ take copied bytes)
        (drop copied bytes)
        (result + copied)
        outcome
      → IsWrittenTo b q bytes result outcome
unfolding put
write_round b q bytes result outcome lt (b', e, same, held) =
    let copied = min (free_length b) (length bytes) in
    let less : b.size - (b.used + length (take copied bytes)) ≡ b.size - b.used - copied =
      omega (arith, length-take copied bytes) in
    let fewer : length (drop copied bytes) ≡ length bytes - copied = length-drop copied bytes in
    let split : b.size - b.used ≡ copied + (b.size - b.used - copied) =
      omega (arith, free_length_le b) in
    (
      b',
      e
          ∙ ap₂ (λ count error. some (record { count = count; error = error; buffer = b' }))
              (omega (arith, less, fewer, split))
              (ap₂ full_error less fewer
                ∙ full_error-sub (b.size - b.used) (length bytes) copied (omega (arith, split))
                    (omega arith)),
      same,
      subst (λ xs. Holds b' xs)
          (append_assoc q (take copied bytes)
              (take (b.size - (b.used + length (take copied bytes))) (drop copied bytes))
            ∙ ap (λ xs. q ++ xs)
                (ap (λ n. take copied bytes ++ take n (drop copied bytes)) less
                  ∙ sym (take_add copied (b.size - b.used - copied) bytes)
                  ∙ ap (λ n. take n bytes) (sym split)))
          held,
    )

ne_full : (b : Buffer) → Sized b → (b.used == b.size) ≡ false → b.used < b.size
ne_full b s free = ground arith

extend_by_nil : (b : Buffer) (q xs : Bytes) → Holds b q → xs ≡ [] → Holds b (q ++ xs)
extend_by_nil b q xs held e =
    subst (λ ys. Holds b ys) (sym (ap (λ ys. q ++ ys) e ∙ append-nil q)) held

write_from-Holds :
    (fuel : ℕ) (b : Buffer) (q bytes : Bytes) (result : ℕ)
    → Holds b q
    → length bytes < fuel
    → IsWrittenTo b q bytes result (write_from fuel b bytes result)
unfolding write_from
write_from-Holds zero b q bytes result held enough = absurd (omega arith)
write_from-Holds (suc fuel) b q [] result held enough = (
  b,
  ground arith,
  refl,
  extend_by_nil b q (take (b.size - b.used) []) held
      (take_of_length_le (b.size - b.used) [] (omega arith)),
)
write_from-Holds (suc fuel) b q (x ∷ bytes) result held enough =
    elim (Bool-cases (b.used == b.size)) [
      | inl full ↦
          let no_room : b.size - b.used ≡ 0 = omega (arith, ==→eq b.used b.size full) in
          (
            b,
            rw (full, no_room)
                (ap₂ (λ count error. some (record { count = count; error = error; buffer = b }))
                  (omega arith) (ground arith)),
            refl,
            extend_by_nil b q (take (b.size - b.used) (x ∷ bytes)) held
                (ap (λ n. take n (x ∷ bytes)) no_room),
          )
      | inr free ↦
          let lt : b.used < b.size = ne_full b (Sized-of_Holds b q held) free in
          let copied = min (free_length b) (length (x ∷ bytes)) in
          rw free (
            write_round b q (x ∷ bytes) result _ lt (
              write_from-Holds fuel (put b (take copied (x ∷ bytes))) (q ++ take copied (x ∷ bytes))
                (drop copied (x ∷ bytes)) (result + copied)
                (put-Holds b q (take copied (x ∷ bytes)) held lt
                  (omega (arith, length-take copied (x ∷ bytes))))
                (omega (arith, length-drop copied (x ∷ bytes), free_length_pos b lt))))
    ]

-- A write to a buffer that holds a queue returns: it puts as many of the bytes as there is room for
-- behind the queue, counts them, keeps the size, and reports a full buffer exactly where some bytes
-- are left over.
pub write-Holds :
    (b : Buffer) (q bytes : Bytes) → Holds b q → IsWrittenTo b q bytes 0 (write b bytes)
unfolding write
write-Holds b q bytes held = write_from-Holds (suc (length bytes)) b q bytes 0 held (omega arith)

-- Writing a byte is a write of one byte.
pub write_byte-write :
    (b : Buffer) (q : Bytes) (value : ℕ)
    → Holds b q
    → (w : Written) × (write b (value ∷ []) ≡ some w) × (write_byte b value ≡ (w.error, w.buffer))
unfolding write write_from write_byte
write_byte-write b q value held = elim (Bool-cases (b.used == b.size)) [
  | inl full ↦
      (record { count = 0; error = some buffer_full; buffer = b }, rw full refl, rw full refl)
  | inr free ↦
      let one : min (free_length b) 1 ≡ 1 =
        omega (arith, free_length_pos b (ne_full b (Sized-of_Holds b q held) free)) in
      (
        record { count = 1; error = none; buffer = put b (value ∷ []) },
        rw (free, one) refl,
        rw free refl,
      )
]
