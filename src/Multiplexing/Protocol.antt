-- ===== src/Multiplexing/Protocol.antt =====
-- The encoding of messages in pkg/multiplexing/protocol.go and their decoding in multiplexer.go, with
-- the variable-length integers of the standard library. An error of the decoding is `none`.
pub mod Roundtrip
use mutagen.Base.{
  ℕ, zero, suc, Bytes, Bool, ◌&&◌, Option, none, some, [], ◌∷◌, ◌++◌, ◌==◌, nat_eq, ltb,
  if◌then◌else◌, ◌+◌, ◌-◌, ◌*◌, ◌/◌, ◌%◌,
}
use mutagen.Multiplexing.{
  Message, multiplexer_heartbeat, stream_open, stream_accept, stream_data, stream_window_increment,
  stream_close_write, stream_close,
}

-- `binary.PutUvarint` into a buffer with room for so many bytes.
abbrev pub put_uvarint_from : ℕ → ℕ → Bytes
put_uvarint_from zero x = []
put_uvarint_from (suc room) x =
    let rest = put_uvarint_from room (x / 128) in
    if ltb x 128 then x ∷ [] else (x % 128 + 128) ∷ rest

-- `writeUvarint`: the buffer has `binary.MaxVarintLen64` bytes.
unfoldable pub write_uvarint : ℕ → Bytes
write_uvarint value = put_uvarint_from 10 value

-- `binary.ReadUvarint`, with so many bytes left to read: the bits read so far, and the weight of the
-- next. In the tenth byte only the lowest bit can be set.
abbrev pub read_uvarint_from : ℕ → ℕ → ℕ → Bytes → Option (ℕ × Bytes)
read_uvarint_from zero x weight bytes = none
read_uvarint_from (suc left) x weight [] = none
read_uvarint_from (suc left) x weight (b ∷ bytes) =
    let rest = read_uvarint_from left (x + (b - 128) * weight) (weight * 128) bytes in
    if ltb b 128
    then (if left == 0 && ltb 1 b then none else some (x + b * weight, bytes))
    else rest

unfoldable pub read_uvarint : Bytes → Option (ℕ × Bytes)
read_uvarint bytes = read_uvarint_from 10 0 1 bytes

-- `writeUint16`
abbrev pub write_uint16 : ℕ → Bytes
write_uint16 value = (value / 256) ∷ (value % 256) ∷ []

-- The encodings of messages, without the data that follow a data message.
unfoldable pub encode : Message → Bytes
encode multiplexer_heartbeat = 0 ∷ []
encode (stream_open id window) = 1 ∷ (write_uvarint id ++ write_uvarint window)
encode (stream_accept id window) = 2 ∷ (write_uvarint id ++ write_uvarint window)
encode (stream_data id n) = 3 ∷ (write_uvarint id ++ write_uint16 n)
encode (stream_window_increment id amount) = 4 ∷ (write_uvarint id ++ write_uvarint amount)
encode (stream_close_write id) = 5 ∷ write_uvarint id
encode (stream_close id) = 6 ∷ write_uvarint id

-- The decodings of what follows the kind.
abbrev pub then_field :
    (ℕ → Bytes → Option (Message × Bytes)) → Option (ℕ × Bytes) → Option (Message × Bytes)
then_field next none = none
then_field next (some (value, bytes)) = next value bytes

abbrev pub with_field : (ℕ → Message) → Bytes → Option (Message × Bytes)
with_field message bytes =
    then_field (λ value rest. some (message value, rest)) (read_uvarint bytes)

abbrev pub with_length : (ℕ → Message) → Bytes → Option (Message × Bytes)
with_length message [] = none
with_length message (high ∷ []) = none
with_length message (high ∷ low ∷ bytes) = some (message (high * 256 + low), bytes)

-- The decoding of a message by its kind.
unfoldable pub decode_fields : ℕ → Bytes → Option (Message × Bytes)
decode_fields kind bytes =
    if kind == 0
    then some (multiplexer_heartbeat, bytes)
    else if kind == 1
    then then_field (λ id rest. with_field (stream_open id) rest) (read_uvarint bytes)
    else if kind == 2
    then then_field (λ id rest. with_field (stream_accept id) rest) (read_uvarint bytes)
    else if kind == 3
    then then_field (λ id rest. with_length (stream_data id) rest) (read_uvarint bytes)
    else if kind == 4
    then then_field (λ id rest. with_field (stream_window_increment id) rest) (read_uvarint bytes)
    else if kind == 5
    then with_field stream_close_write bytes
    else if kind == 6
    then with_field stream_close bytes
    else none

unfoldable pub decode : Bytes → Option (Message × Bytes)
decode [] = none
decode (kind ∷ bytes) = decode_fields kind bytes

-- `binary.MaxVarintLen64`
abbrev pub max_varint_len64 : ℕ
max_varint_len64 = 10

-- The maximum sizes of messages, by kind.
unfoldable pub maximum_message_size : Message → ℕ
maximum_message_size multiplexer_heartbeat = 1
maximum_message_size (stream_open id window) = 1 + max_varint_len64 + max_varint_len64
maximum_message_size (stream_accept id window) = 1 + max_varint_len64 + max_varint_len64
maximum_message_size (stream_data id n) = 1 + max_varint_len64 + 2 + 65535
maximum_message_size (stream_window_increment id amount) = 1 + max_varint_len64 + max_varint_len64
maximum_message_size (stream_close_write id) = 1 + max_varint_len64
maximum_message_size (stream_close id) = 1 + max_varint_len64

-- The number of bytes of data behind the encoding.
abbrev pub data_length : Message → ℕ
data_length multiplexer_heartbeat = 0
data_length (stream_open id window) = 0
data_length (stream_accept id window) = 0
data_length (stream_data id n) = n
data_length (stream_window_increment id amount) = 0
data_length (stream_close_write id) = 0
data_length (stream_close id) = 0
