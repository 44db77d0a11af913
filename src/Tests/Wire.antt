-- ===== src/Tests/Wire.antt =====
-- Messages of pkg/multiplexing/protocol.go on the wire.
use native.Mathlib.Decide.{ℕ_discrete}
use mutagen.Base.{length, ◌+◌, ◌≤◌, some, [], ◌∷◌, ◌++◌, ◌≡◌, refl, arith}
use mutagen.Multiplexing.{stream_window_increment, stream_data}
use mutagen.Multiplexing.Protocol.{encode, decode, write_uvarint, maximum_message_size, data_length}
use mutagen.Multiplexing.Protocol.Roundtrip.{decode-encode, encode-is_bounded}

-- The stream 1 gets 300 bytes more.
encoded : encode (stream_window_increment 1 300) ≡ 4 ∷ 1 ∷ 172 ∷ 2 ∷ []
unfolding encode write_uvarint ℕ_discrete
encoded = refl

decode-encode_example :
    decode (encode (stream_window_increment 1 300) ++ (5 ∷ 1 ∷ []))
    ≡ some (stream_window_increment 1 300, 5 ∷ 1 ∷ [])
decode-encode_example =
    decode-encode (stream_window_increment 1 300) (5 ∷ 1 ∷ []) (omega arith, omega arith)

encode-is_bounded_example :
    length (encode (stream_data 1 65535)) + data_length (stream_data 1 65535)
    ≤ maximum_message_size (stream_data 1 65535)
encode-is_bounded_example = encode-is_bounded (stream_data 1 65535) (omega arith, omega arith)
