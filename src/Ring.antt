-- ===== src/Ring.antt =====
-- pkg/multiplexing/ring/buffer.go: a ring buffer of fixed size. Reads and writes of the caller's
-- slices are byte strings here; Streams has ReadNFrom and WriteTo, which work on a reader and a
-- writer.
pub mod Layout
pub mod Write
pub mod Advance
pub mod Read
pub mod Refine
pub mod Streams
pub mod Filling
pub mod Supplied
pub mod Draining
use mutagen.Base.{
  ℕ, zero, suc, Bytes, ◌&&◌, not, Option, none, some, [], ◌∷◌, ◌++◌, ◌==◌, nat_eq, ltb, leb, min,
  is_empty, length, take, drop, get_elem?, if◌then◌else◌, ◌+◌, ◌-◌, ◌%◌,
}

pub record Buffer : Type 0 where
  pub storage : Bytes
  pub size : ℕ
  pub start : ℕ
  pub used : ℕ

-- `ErrBufferFull` and `io.EOF`
pub data Error : Type 0 where
  buffer_full eof : Error

abbrev pub zeros : ℕ → Bytes
zeros zero = []
zeros (suc n) = 0 ∷ zeros n

-- `NewBuffer` of a size that is not negative.
unfoldable pub new_buffer : ℕ → Buffer
new_buffer size = record { storage = zeros size; size = size; start = 0; used = 0 }

-- `Free`
abbrev pub free : Buffer → ℕ
free b = b.size - b.used

-- `Reset`
unfoldable pub reset : Buffer → Buffer
reset b = record b { start = 0; used = 0 }

-- `copy(storage[offset:], bytes)` for bytes that fit.
abbrev pub splice : Bytes → ℕ → Bytes → Bytes
splice storage offset bytes = take offset storage ++ (bytes ++ drop (offset + length bytes) storage)

-- The first free segment: where it starts, and how long it is.
abbrev pub free_start : Buffer → ℕ
free_start b = (b.start + b.used) % b.size

abbrev pub free_length : Buffer → ℕ
free_length b = min (free_start b + (b.size - b.used)) b.size - free_start b

-- What a round of `Write` does with the bytes that it copies.
unfoldable pub put : Buffer → Bytes → Buffer
put b bytes = record b {
  storage = splice b.storage (free_start b) bytes;
  used = b.used + length bytes;
}

-- The results of `Write`: the count, the error, and the buffer.
pub record Written : Type 0 where
  pub count : ℕ
  pub error : Option Error
  pub buffer : Buffer

-- The loop of `Write`. Each round takes one unit of fuel; `none` where there is none left.
unfoldable pub write_from : ℕ → Buffer → Bytes → ℕ → Option Written
write_from zero b bytes result = none
write_from (suc fuel) b bytes result =
    let copied = min (free_length b) (length bytes) in
    let rest = write_from fuel (put b (take copied bytes)) (drop copied bytes) (result + copied) in
    if not (is_empty bytes) && not (b.used == b.size)
    then rest
    else some (record {
      count = result;
      error = if not (is_empty bytes) && b.used == b.size then some buffer_full else none;
      buffer = b;
    })

-- `Write`
unfoldable pub write : Buffer → Bytes → Option Written
write b bytes = write_from (suc (length bytes)) b bytes 0

-- `WriteByte`
unfoldable pub write_byte : Buffer → ℕ → Option Error × Buffer
write_byte b value = if b.used == b.size then (some buffer_full, b) else (none, put b (value ∷ []))

-- The first segment of data.
abbrev pub data_segment : Buffer → Bytes
data_segment b = take (min (b.start + b.used) b.size - b.start) (drop b.start b.storage)

-- What a round of `Read` does once it has copied some bytes.
unfoldable pub advance : Buffer → ℕ → Buffer
advance b copied = record b { start = (b.start + copied) % b.size; used = b.used - copied }

-- The reset "to an optimal layout".
abbrev pub reset_drained : Buffer → Buffer
reset_drained b = if b.used == 0 then record b { start = 0 } else b

-- The results of a read: the bytes, the error, and the buffer.
pub record Taken : Type 0 where
  pub bytes : Bytes
  pub error : Option Error
  pub buffer : Buffer

-- The loop of `Read` for a destination with room for `wanted` bytes more.
unfoldable pub read_from : ℕ → Buffer → ℕ → Bytes → Option Taken
read_from zero b wanted result = none
read_from (suc fuel) b wanted result =
    let copied = min wanted (length (data_segment b)) in
    let rest =
      read_from fuel (advance b copied) (wanted - copied)
        (result ++ take copied (data_segment b)) in
    if ltb 0 wanted && ltb 0 b.used
    then rest
    else some (record { bytes = result; error = none; buffer = reset_drained b })

-- `Read` into a destination of a length.
unfoldable pub read : Buffer → ℕ → Option Taken
read b wanted =
    if wanted == 0
    then some (record { bytes = []; error = none; buffer = b })
    else if b.used == 0
    then some (record { bytes = []; error = some eof; buffer = b })
    else read_from (suc wanted) b wanted []

-- `ReadByte`; `none` for a read out of range, which would be a panic.
unfoldable pub read_byte : Buffer → Option Taken
read_byte b =
    if b.used == 0
    then some (record { bytes = []; error = some eof; buffer = b })
    else elim (get_elem? b.storage b.start) [
      | none ↦ none
      | some value ↦
          some (record { bytes = value ∷ []; error = none; buffer = reset_drained (advance b 1) })
    ]
