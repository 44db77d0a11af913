-- ===== src/Multiplexing/Protocol/Roundtrip.antt =====
-- That the messages of pkg/multiplexing/protocol.go are decoded as they were encoded.
use mutagen.Base.{
  ℕ, zero, suc, Bytes, true, false, ◌&&◌, some, ◌++◌, ◌==◌, ==_ne, nat_eq, ltb, ◌≡◌, inl, inr, refl,
  ap, ◌∙◌, arith, append_assoc, length, length-append, Bool-cases, ◌+◌, ◌-◌, ◌*◌, ◌/◌, ◌%◌, ◌^◌,
  ◌<◌, ◌≤◌,
}
use native.Mathlib.Nat.{pow-suc}
use mutagen.Multiplexing.{
  Message, multiplexer_heartbeat, stream_open, stream_accept, stream_data, stream_window_increment,
  stream_close_write, stream_close,
}
use mutagen.Multiplexing.Protocol.{
  put_uvarint_from, write_uvarint, read_uvarint_from, read_uvarint, write_uint16, encode,
  then_field, with_field, with_length, decode_fields, decode, maximum_message_size, data_length,
}

read_parts : (x weight q r : ℕ) → (x + r * weight) + q * (weight * 128) ≡ x + (q * 128 + r) * weight
read_parts x weight q r = grind arith

read_step : (x weight n : ℕ) → (x + n % 128 * weight) + n / 128 * (weight * 128) ≡ x + n * weight
read_step x weight n =
    let split : n / 128 * 128 + n % 128 ≡ n = omega arith in
    read_parts x weight (n / 128) (n % 128) ∙ ap (λ k. x + k * weight) split

-- Bytes for the room that there is: the last one holds one bit.
read_uvarint_from-put_uvarint_from :
    (left x weight n : ℕ) (rest : Bytes)
    → n < 2 * 128 ^ left
    → read_uvarint_from (suc left) x weight (put_uvarint_from (suc left) n ++ rest)
      ≡ some (x + n * weight, rest)
read_uvarint_from-put_uvarint_from zero x weight n rest fits =
    let small : ltb n 128 ≡ true = ground arith in
    let bit : (◌==◌ {A = ℕ} 0 0 && ltb 1 n) ≡ false = ground arith in rw (small, small, bit) refl
read_uvarint_from-put_uvarint_from (suc left) x weight n rest fits = elim (Bool-cases (ltb n 128)) [
  | inl small ↦ rw (small, small, ==_ne {A = ℕ} (suc left) 0 (λ e. omega (arith, e))) refl
  | inr more ↦
      let high : ltb (n % 128 + 128) 128 ≡ false = ground arith in
      let low : n % 128 + 128 - 128 ≡ n % 128 = omega arith in
      rw (more, high)
        (ap
            (λ k.
              read_uvarint_from (suc left) (x + k * weight) (weight * 128)
                (put_uvarint_from (suc left) (n / 128) ++ rest))
            low
          ∙ read_uvarint_from-put_uvarint_from left (x + n % 128 * weight) (weight * 128) (n / 128)
              rest (omega (arith, fits, pow-suc 128 left))
          ∙ ap (λ k. some (k, rest)) (read_step x weight n))
]

-- A word is read back from its bytes.
read_uvarint-write_uvarint :
    (n : ℕ) (rest : Bytes) → n < 2 ^ 64 → read_uvarint (write_uvarint n ++ rest) ≡ some (n, rest)
unfolding read_uvarint write_uvarint
read_uvarint-write_uvarint n rest fits =
    read_uvarint_from-put_uvarint_from 9 0 1 n rest (omega arith)
    ∙ ap (λ k. some (k, rest)) (omega arith)

-- The fields of a message have the sizes of the wire format.
abbrev pub IsEncodable : Message → Type 0
IsEncodable multiplexer_heartbeat = Unit
IsEncodable (stream_open id window) = (id < 2 ^ 64) × (window < 2 ^ 64)
IsEncodable (stream_accept id window) = (id < 2 ^ 64) × (window < 2 ^ 64)
IsEncodable (stream_data id n) = (id < 2 ^ 64) × (n < 2 ^ 16)
IsEncodable (stream_window_increment id amount) = (id < 2 ^ 64) × (amount < 2 ^ 64)
IsEncodable (stream_close_write id) = id < 2 ^ 64
IsEncodable (stream_close id) = id < 2 ^ 64

with_field-write_uvarint :
    (message : ℕ → Message) (n : ℕ) (rest : Bytes)
    → n < 2 ^ 64
    → with_field message (write_uvarint n ++ rest) ≡ some (message n, rest)
with_field-write_uvarint message n rest fits =
    ap (then_field (λ value rest. some (message value, rest)))
      (read_uvarint-write_uvarint n rest fits)

-- Two fields.
two_fields :
    (message : ℕ → ℕ → Message) (id n : ℕ) (rest : Bytes)
    → (id < 2 ^ 64) × (n < 2 ^ 64)
    → then_field
        (λ id rest. with_field (message id) rest)
        (read_uvarint ((write_uvarint id ++ write_uvarint n) ++ rest))
      ≡ some (message id n, rest)
two_fields message id n rest (fits, fits') =
    ap (λ bytes. then_field (λ id rest. with_field (message id) rest) (read_uvarint bytes))
      (append_assoc (write_uvarint id) (write_uvarint n) rest)
    ∙ ap (then_field (λ id rest. with_field (message id) rest))
        (read_uvarint-write_uvarint id (write_uvarint n ++ rest) fits)
    ∙ with_field-write_uvarint (message id) n rest fits'

with_length-write_uint16 :
    (message : ℕ → Message) (n : ℕ) (rest : Bytes)
    → with_length message (write_uint16 n ++ rest) ≡ some (message n, rest)
with_length-write_uint16 message n rest = ap (λ k. some (message k, rest)) (omega arith)

-- A message whose fields have the sizes of the format is decoded from its encoding, whatever follows,
-- and what follows is left.
pub decode-encode :
    (m : Message) (rest : Bytes) → IsEncodable m → decode (encode m ++ rest) ≡ some (m, rest)
unfolding encode decode decode_fields native.Mathlib.Decide.ℕ_discrete
decode-encode multiplexer_heartbeat rest h = refl
decode-encode (stream_open id window) rest h = two_fields stream_open id window rest h
decode-encode (stream_accept id window) rest h = two_fields stream_accept id window rest h
decode-encode (stream_data id n) rest (fits, fits') =
    ap (λ bytes. then_field (λ id rest. with_length (stream_data id) rest) (read_uvarint bytes))
      (append_assoc (write_uvarint id) (write_uint16 n) rest)
    ∙ ap (then_field (λ id rest. with_length (stream_data id) rest))
        (read_uvarint-write_uvarint id (write_uint16 n ++ rest) fits)
    ∙ with_length-write_uint16 (stream_data id) n rest
decode-encode (stream_window_increment id amount) rest h =
    two_fields stream_window_increment id amount rest h
decode-encode (stream_close_write id) rest h = with_field-write_uvarint stream_close_write id rest h
decode-encode (stream_close id) rest h = with_field-write_uvarint stream_close id rest h

length-put_uvarint_from : (room n : ℕ) → length (put_uvarint_from room n) ≤ room
length-put_uvarint_from zero n = omega arith
length-put_uvarint_from (suc room) n = elim (Bool-cases (ltb n 128)) [
  | inl small ↦ rw small (omega arith)
  | inr more ↦ rw more (omega (arith, length-put_uvarint_from room (n / 128)))
]

length-write_uvarint : (n : ℕ) → length (write_uvarint n) ≤ 10
unfolding write_uvarint
length-write_uvarint n = length-put_uvarint_from 10 n

length-two_fields : (id n : ℕ) → length (write_uvarint id ++ write_uvarint n) ≤ 20
length-two_fields id n = omega (
  arith,
  length-append (write_uvarint id) (write_uvarint n),
  length-write_uvarint id,
  length-write_uvarint n,
)

-- The encoding of a message whose fields have the sizes of the format, together with its data, is no
-- longer than the maximum size of its kind.
pub encode-is_bounded :
    (m : Message) → IsEncodable m → length (encode m) + data_length m ≤ maximum_message_size m
unfolding encode maximum_message_size
encode-is_bounded multiplexer_heartbeat h = omega arith
encode-is_bounded (stream_open id window) h = omega (arith, length-two_fields id window)
encode-is_bounded (stream_accept id window) h = omega (arith, length-two_fields id window)
encode-is_bounded (stream_data id n) (fits, fits') =
    omega (arith, length-append (write_uvarint id) (write_uint16 n), length-write_uvarint id, fits')
encode-is_bounded (stream_window_increment id amount) h = omega (arith, length-two_fields id amount)
encode-is_bounded (stream_close_write id) h = omega (arith, length-write_uvarint id)
encode-is_bounded (stream_close id) h = omega (arith, length-write_uvarint id)
