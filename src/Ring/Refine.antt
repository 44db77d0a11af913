-- ===== src/Ring/Refine.antt =====
-- Sequences of calls of the buffer of pkg/multiplexing/ring/buffer.go.
use mutagen.Base.{
  ℕ, Bytes, Option, none, some, List, [], ◌∷◌, ◌++◌, ◌≡◌, refl, sym, ap, ◌∙◌, arith, length, take,
  ◌+◌, drop, ◌-◌, min,
}
use mathlib.Core.Path.{subst}
use mutagen.Ring.{
  Buffer, Error, new_buffer, reset, write, write_byte, read, read_byte, Taken, Written,
}
use mutagen.Ring.Layout.{Holds, linear, Sized-of_Holds, used-Holds, new_buffer-Holds}
use mutagen.Ring.Write.{full_error, write-Holds, write_byte-write}
use mutagen.Ring.Read.{read_error, read-Holds, read_byte-read}

-- A call of the buffer, and what it returns.
pub data Call : Type 0 where
  writing : Bytes → Call
  writing_byte : ℕ → Call
  reading : ℕ → Call
  reading_byte resetting : Call

pub data Answer : Type 0 where
  written : ℕ → Option Error → Answer
  byte_written : Option Error → Answer
  taken : Bytes → Option Error → Answer
  cleared : Answer

-- The answer of the buffer to a call, and the buffer after it.
abbrev pub answer_of_write : Option Written → Option (Answer × Buffer)
answer_of_write none = none
answer_of_write (some w) = some (written w.count w.error, w.buffer)

abbrev pub answer_of_read : Option Taken → Option (Answer × Buffer)
answer_of_read none = none
answer_of_read (some r) = some (taken r.bytes r.error, r.buffer)

unfoldable pub call : Buffer → Call → Option (Answer × Buffer)
call b (writing bytes) = answer_of_write (write b bytes)
call b (writing_byte value) = let (error, b') = write_byte b value in some (byte_written error, b')
call b (reading wanted) = answer_of_read (read b wanted)
call b reading_byte = answer_of_read (read_byte b)
call b resetting = some (cleared, reset b)

unfoldable pub calls : Buffer → List Call → Option (List Answer)
calls b [] = some []
calls b (c ∷ cs) = elim (call b c) [
  | none ↦ none
  | some (a, b') ↦ elim (calls b' cs) [ none ↦ none | some rest ↦ some (a ∷ rest) ]
]

-- The answer of a queue of bytes of a capacity.
unfoldable pub queue_call : ℕ → Bytes → Call → Answer × Bytes
queue_call size q (writing bytes) = (
  written (min (size - length q) (length bytes)) (full_error (size - length q) (length bytes)),
  q ++ take (size - length q) bytes,
)
queue_call size q (writing_byte value) =
    (byte_written (full_error (size - length q) 1), q ++ take (size - length q) (value ∷ []))
queue_call size q (reading wanted) = (taken (take wanted q) (read_error q wanted), drop wanted q)
queue_call size q reading_byte = (taken (take 1 q) (read_error q 1), drop 1 q)
queue_call size q resetting = (cleared, [])

unfoldable pub queue_calls : ℕ → Bytes → List Call → List Answer
queue_calls size q [] = []
queue_calls size q (c ∷ cs) = let (a, q') = queue_call size q c in a ∷ queue_calls size q' cs

-- What a call does with a buffer that holds a queue.
abbrev pub AnswersAs : Buffer → Bytes → Call → Type 0
AnswersAs b q c =
    (b' : Buffer) × (call b c ≡ some ((queue_call b.size q c).0, b'))
    × (b'.size ≡ b.size)
    × Holds b' (queue_call b.size q c).1

read-AnswersAs : (b : Buffer) (q : Bytes) (wanted : ℕ) → Holds b q → AnswersAs b q (reading wanted)
unfolding call queue_call
read-AnswersAs b q wanted held =
    let (b', e, size, held') = read-Holds b q wanted held in (b', ap answer_of_read e, size, held')

write-AnswersAs : (b : Buffer) (q bytes : Bytes) → Holds b q → AnswersAs b q (writing bytes)
unfolding call queue_call
write-AnswersAs b q bytes held =
    let (b', e, size, held') = write-Holds b q bytes held in
    let room : b.size - b.used ≡ b.size - length q = ap (λ n. b.size - n) (used-Holds b q held) in
    let plain : 0 + min (b.size - b.used) (length bytes) ≡ min (b.size - b.used) (length bytes) =
      omega arith in
    (
      b',
      ap answer_of_write e
          ∙ ap (λ n. some (written n (full_error (b.size - b.used) (length bytes)), b')) plain
          ∙ ap (λ n. some (written (min n (length bytes)) (full_error n (length bytes)), b')) room,
      size,
      subst (λ n. Holds b' (q ++ take n bytes)) room held',
    )

abbrev of_byte : Option (Answer × Buffer) → Option (Answer × Buffer)
of_byte (some (written n error, b)) = some (byte_written error, b)
of_byte o = o

write_byte-AnswersAs :
    (b : Buffer) (q : Bytes) (value : ℕ) → Holds b q → AnswersAs b q (writing_byte value)
unfolding call queue_call
write_byte-AnswersAs b q value held =
    let (w, e, same) = write_byte-write b q value held in
    let (b', answer, size, held') = write-AnswersAs b q (value ∷ []) held in
    (
      b',
      ap (λ p. some (byte_written p.0, p.1)) same
          ∙ ap of_byte (sym (ap answer_of_write e) ∙ answer),
      size,
      held',
    )

reset-AnswersAs : (b : Buffer) (q : Bytes) → Holds b q → AnswersAs b q resetting
unfolding call queue_call reset
reset-AnswersAs b q held =
    let s = Sized-of_Holds b q held in
    (
      reset b,
      refl,
      refl,
      linear [] b.storage (record { all = s.all; fits = omega arith; begins = omega arith }) refl
          refl refl,
    )

-- A call answers as the queue does, and leaves the buffer holding the queue.
pub call-AnswersAs : (b : Buffer) (q : Bytes) (c : Call) → Holds b q → AnswersAs b q c
unfolding call queue_call
call-AnswersAs b q (writing bytes) held = write-AnswersAs b q bytes held
call-AnswersAs b q (writing_byte value) held = write_byte-AnswersAs b q value held
call-AnswersAs b q (reading wanted) held = read-AnswersAs b q wanted held
call-AnswersAs b q reading_byte held = rw (read_byte-read b q held) (read-AnswersAs b q 1 held)
call-AnswersAs b q resetting held = reset-AnswersAs b q held

calls_from :
    (b : Buffer) (q : Bytes) (cs : List Call)
    → Holds b q
    → calls b cs ≡ some (queue_calls b.size q cs)
unfolding calls queue_calls
calls_from b q [] held = refl
calls_from b q (c ∷ cs) held =
    let (b', e, size, held') = call-AnswersAs b q c held in
    rw (calls, e, calls_from b' (queue_call b.size q c).1 cs held')
      (ap (λ n. some ((queue_call b.size q c).0 ∷ queue_calls n (queue_call b.size q c).1 cs)) size)

-- Any sequence of writes, reads and resets of a new buffer returns, call by call, the counts, the
-- bytes and the errors of a queue of bytes whose capacity is the buffer's size.
pub calls-queue_calls :
    (size : ℕ) (cs : List Call) → calls (new_buffer size) cs ≡ some (queue_calls size [] cs)
unfolding new_buffer
calls-queue_calls size cs = calls_from (new_buffer size) [] cs (new_buffer-Holds size)
