-- ===== src/Tests/Buffer.antt =====
-- Buffers of pkg/multiplexing/ring/buffer.go on concrete input.
use mutagen.Base.{List, some, [], ◌∷◌, ◌≡◌, refl, arith}
use mutagen.Base.{
  ℕ, Bytes, Bool, Option, true, none, ◌++◌, length, length-take, take, drop, is_empty,
  if◌then◌else◌, ◌<◌,
}
use mutagen.Ring.Streams.{Reading, Writing, read_n_from, write_to}
use mutagen.Ring.Filling.{IsReader, Fills, read_n_from-Fills}
use mutagen.Ring.Draining.{IsWriter, Drains, write_to-Drains}
use mutagen.Ring.{Buffer, write, read, read_byte}
use mutagen.Ring.Layout.{Holds, wrapped}
use mutagen.Ring.Write.{IsWrittenTo, write-Holds}
use mutagen.Ring.Read.{IsReadFrom, read_error, read-Holds, read_byte-read}
use mutagen.Ring.Refine.{
  Call, writing, writing_byte, reading, reading_byte, resetting, calls, queue_calls,
  calls-queue_calls,
}
use mutagen.Ring.{new_buffer}

-- Two bytes around one free byte.
abbrev around : Buffer
around = record { storage = 4 ∷ 9 ∷ 3 ∷ []; size = 3; start = 2; used = 2 }

around-Holds : Holds around (3 ∷ 4 ∷ [])
around-Holds =
    wrapped (3 ∷ []) (4 ∷ []) (9 ∷ [])
      (record { all = refl; fits = omega arith; begins = omega arith }) refl refl refl refl
      (omega arith)

write-Holds_example : IsWrittenTo around (3 ∷ 4 ∷ []) (5 ∷ 6 ∷ []) 0 (write around (5 ∷ 6 ∷ []))
write-Holds_example = write-Holds around (3 ∷ 4 ∷ []) (5 ∷ 6 ∷ []) around-Holds

read-Holds_example : IsReadFrom around (3 ∷ 4 ∷ []) 2 [] (read_error (3 ∷ 4 ∷ []) 2) (read around 2)
read-Holds_example = read-Holds around (3 ∷ 4 ∷ []) 2 around-Holds

read_byte-read_example : read_byte around ≡ read around 1
read_byte-read_example = read_byte-read around (3 ∷ 4 ∷ []) around-Holds

abbrev some_calls : List Call
some_calls =
    writing (1 ∷ 2 ∷ [])
    ∷ reading_byte
    ∷ writing (3 ∷ 4 ∷ 5 ∷ [])
    ∷ reading 5
    ∷ writing_byte 7
    ∷ resetting
    ∷ reading 1
    ∷ []

calls-queue_calls_example : calls (new_buffer 3) some_calls ≡ some (queue_calls 3 [] some_calls)
calls-queue_calls_example = calls-queue_calls 3 some_calls

abbrev reader_failure : Bytes → Option Bool
reader_failure s = if is_empty s then some true else none

-- A reader of bytes in memory, where `true` is the end of the stream.
abbrev pub memory_reader : ℕ → Bytes → Reading Bool × Bytes
memory_reader k s = (record { bytes = take k s; failure = reader_failure s }, drop k s)

memory_reader-IsReader : IsReader memory_reader (λ b. b)
memory_reader-IsReader k s = (omega (arith, length-take k s), progress k s)
  where
    progress : (k : ℕ) (s : Bytes) → 0 < k → (reader_failure s ≡ none) → 0 < length (take k s)
    progress k [] positive e = absurd (cc e)
    progress k (x ∷ s) positive e = omega (arith, length-take k (x ∷ s))

-- A writer to memory.
abbrev memory_writer : Bytes → Bytes → Writing Bool × Bytes
memory_writer bytes s = (record { written = length bytes; failure = none }, s ++ bytes)

memory_writer-IsWriter : IsWriter memory_writer
memory_writer-IsWriter bytes s = (omega arith, λ e. refl)

read_n_from-Fills_example :
    Fills memory_reader
      (λ b. b)
      around
      (3 ∷ 4 ∷ [])
      (7 ∷ 8 ∷ [])
      2
      0
      (read_n_from memory_reader (λ b. b) around (7 ∷ 8 ∷ []) 2)
read_n_from-Fills_example =
    read_n_from-Fills memory_reader (λ b. b) around (3 ∷ 4 ∷ []) (7 ∷ 8 ∷ []) 2
      memory_reader-IsReader around-Holds

write_to-Drains_example :
    Drains memory_writer around (3 ∷ 4 ∷ []) [] 0 (write_to memory_writer around [])
write_to-Drains_example =
    write_to-Drains memory_writer around (3 ∷ 4 ∷ []) [] memory_writer-IsWriter around-Holds
