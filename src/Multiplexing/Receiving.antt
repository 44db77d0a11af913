-- ===== src/Multiplexing/Receiving.antt =====
-- What `read` of pkg/multiplexing/multiplexer.go does with a message.
use mutagen.Base.{
  ℕ, Bool, true, ◌&&◌, not, Option, none, some, List, [], ◌∷◌, ◌++◌, ◌==◌, nat_eq, bool_eq, ltb,
  leb, length, if◌then◌else◌, add_u64, ◌-◌, ◌%◌, ◌^◌,
}
use mutagen.Ring.Streams.{StreamError, of_stream, no_space, Transfer, read_n_from}
use mutagen.Multiplexing.{
  Message, multiplexer_heartbeat, stream_open, stream_accept, stream_data, stream_window_increment,
  stream_close_write, stream_close, ProtocolError, zero_value_identifier,
  outbound_identifier_opened, identifiers_not_increasing, inbound_identifier_accepted,
  unopened_inbound_identifier, unused_outbound_identifier, accepted_twice, accepted_after_close,
  zero_length_data, unable_to_discard, data_for_partially_established, data_for_write_closed,
  data_for_closed, receive_window_violated, unable_to_read_data, zero_valued_increment,
  increment_for_partially_established, increment_for_closed, increment_overflows,
  close_write_for_partially_established, close_write_for_closed, close_write_twice, closed_twice,
  Handled, ok, failed, out_of_fuel, guard, ok_with, Stream, new_stream, signal_send_window,
  signal_receive_buffer, Updates, Multiplexer, Carrier,
}

-- Maps from identifiers.
abbrev pub lookup : {A : Type 0} → ℕ → List (ℕ × A) → Option A
lookup id [] = none
lookup id ((k, a) ∷ rest) = if k == id then some a else lookup id rest

abbrev pub remove : {A : Type 0} → ℕ → List (ℕ × A) → List (ℕ × A)
remove id [] = []
remove id ((k, a) ∷ rest) = if k == id then remove id rest else ((k, a) ∷ remove id rest)

abbrev pub insert : {A : Type 0} → ℕ → A → List (ℕ × A) → List (ℕ × A)
insert id a entries = (id, a) ∷ remove id entries

abbrev pub remove_identifier : ℕ → List ℕ → List ℕ
remove_identifier id [] = []
remove_identifier id (k ∷ rest) =
    if k == id then remove_identifier id rest else (k ∷ remove_identifier id rest)

-- `enqueue`, when it is told to send a close message.
unfoldable pub enqueue_close : ℕ → Updates → Updates
enqueue_close id u = record {
  window_increments = remove id u.window_increments;
  write_closes = remove_identifier id u.write_closes;
  closes = id ∷ remove_identifier id u.closes;
}

abbrev pub is_outbound : Multiplexer → ℕ → Bool
is_outbound m id = m.even == (id % 2 == 0)

-- The checks of the identifier of a message that does not open a stream.
unfoldable pub identifier_error : Multiplexer → ℕ → Option ProtocolError
identifier_error m id =
    if id == 0
    then some zero_value_identifier
    else if not (is_outbound m id) && ltb m.largest_opened_inbound_stream_identifier id
    then some unopened_inbound_identifier
    else if is_outbound m id
        && not (m.next_outbound_stream_identifier == 0)
        && leb m.next_outbound_stream_identifier id
    then some unused_outbound_identifier
    else none

-- The initial window: an open message and an accept message set it.
unfoldable pub set_window : ℕ → Stream → Handled Stream
set_window window s =
    let s' = record s { send_window = window } in
    if ltb 0 window then signal_send_window s' else ok s'

-- An accept message.
unfoldable pub receive_accept : ℕ → Stream → Handled Stream
receive_accept window s = guard s.established accepted_twice (
    guard s.remote_closed accepted_after_close
      (ok_with {A = Stream} (λ s'. ok (record s' { established = true })) (set_window window s)))

-- The end of a data message, by the error of `ReadNFrom`.
abbrev pub data_read :
    {S E : Type 0} → ℕ → Stream → Transfer S E → Option (StreamError E) → Handled (Stream × S)
data_read n s t (some no_space) = failed receive_window_violated
data_read n s t (some (of_stream e)) = failed unable_to_read_data
data_read n s t none =
    let s' = record s { receive_buffer = t.buffer } in
    ok_with (λ s''. ok (s'', t.stream))
      (if t.buffer.used == n then signal_receive_buffer s' else ok s')

abbrev pub data_stored : {S E : Type 0} → ℕ → Stream → Option (Transfer S E) → Handled (Stream × S)
data_stored n s none = out_of_fuel
data_stored n s (some t) = data_read n s t t.failure

-- A data message, whose data the carrier has.
unfoldable pub receive_data : {S E : Type 0} → Carrier S E → ℕ → S → Stream → Handled (Stream × S)
receive_data c n carrier s = guard (not s.established) data_for_partially_established (
    guard s.remote_closed_write data_for_write_closed (
      guard s.remote_closed data_for_closed
        (data_stored n s (read_n_from c.reader c.is_eof s.receive_buffer carrier n))))

-- The increase of the window.
unfoldable pub add_window : ℕ → Stream → Handled Stream
add_window amount s =
    if s.send_window == 0
    then signal_send_window (record s { send_window = amount })
    else guard (ltb ((2 ^ 64 - 1) - s.send_window) amount) increment_overflows
        (ok (record s { send_window = add_u64 s.send_window amount }))

-- A window increment message.
unfoldable pub receive_window_increment : Bool → ℕ → Stream → Handled Stream
receive_window_increment outbound amount s =
    guard (outbound && not s.established) increment_for_partially_established
      (guard s.remote_closed increment_for_closed (add_window amount s))

-- A close write message.
unfoldable pub receive_close_write : Bool → Stream → Handled Stream
receive_close_write outbound s =
    guard (outbound && not s.established) close_write_for_partially_established (
      guard s.remote_closed close_write_for_closed (
        guard s.remote_closed_write close_write_twice
          (ok (record s { remote_closed_write = true }))))

-- A close message.
unfoldable pub receive_close : Stream → Handled Stream
receive_close s = guard s.remote_closed closed_twice (ok (record s { remote_closed = true }))

-- An open message: the stream is rejected where the backlog is full.
unfoldable pub receive_open : Multiplexer → ℕ → ℕ → Handled Multiplexer
receive_open m id window = guard (id == 0) zero_value_identifier (
    guard (is_outbound m id) outbound_identifier_opened (
      guard (leb id m.largest_opened_inbound_stream_identifier) identifiers_not_increasing (
        let m' = record m { largest_opened_inbound_stream_identifier = id } in
        if length m.pending_inbound_stream_identifiers == m.accept_backlog
        then ok (record m' { updates = enqueue_close id m.updates })
        else ok_with
            (λ s. ok (record m' {
              streams = insert id s m.streams;
              pending_inbound_stream_identifiers =
                  m.pending_inbound_stream_identifiers ++ (id ∷ []);
            }))
            (set_window window (new_stream m.stream_receive_window)))))

abbrev pub in_range : {A : Type 0} → Option ProtocolError → Handled A → Handled A
in_range none r = r
in_range (some e) r = failed e

-- The stream that a message is for: a message for a stream that is not registered is dropped.
abbrev pub for_stream :
    Multiplexer → ℕ → Option Stream → (Stream → Handled Stream) → Handled Multiplexer
for_stream m id none handler = ok m
for_stream m id (some s) handler =
    ok_with (λ s'. ok (record m { streams = insert id s' m.streams })) (handler s)

abbrev pub discarded : {S E : Type 0} → Multiplexer → Option E × S → Handled (Multiplexer × S)
discarded m (none, carrier) = ok (m, carrier)
discarded m (some e, carrier) = failed unable_to_discard

abbrev pub data_for_stream :
    {S E : Type 0}
    → Carrier S E
    → Multiplexer
    → ℕ
    → ℕ
    → S
    → Option Stream
    → Handled (Multiplexer × S)
data_for_stream c m id n carrier none = discarded m (c.discard n carrier)
data_for_stream c m id n carrier (some s) =
    ok_with (λ (r : Stream × _). ok (record m { streams = insert id r.0 m.streams }, r.1))
      (receive_data c n carrier s)

abbrev pub keep_carrier : {S : Type 0} → S → Handled Multiplexer → Handled (Multiplexer × S)
keep_carrier carrier r = ok_with (λ m. ok (m, carrier)) r

-- A message, by its kind.
unfoldable pub receive_message :
    {S E : Type 0} → Carrier S E → Multiplexer → Message → S → Handled (Multiplexer × S)
receive_message c m multiplexer_heartbeat carrier = ok (m, carrier)
receive_message c m (stream_open id window) carrier =
    keep_carrier carrier (receive_open m id window)
receive_message c m (stream_accept id window) carrier = guard (id == 0) zero_value_identifier (
    guard (not (is_outbound m id)) inbound_identifier_accepted (
      in_range (identifier_error m id)
        (keep_carrier carrier (for_stream m id (lookup id m.streams) (receive_accept window)))))
receive_message c m (stream_data id n) carrier =
    in_range (identifier_error m id)
      (guard (n == 0) zero_length_data (data_for_stream c m id n carrier (lookup id m.streams)))
receive_message c m (stream_window_increment id amount) carrier = in_range (identifier_error m id) (
    guard (amount == 0) zero_valued_increment (
      keep_carrier carrier (
        for_stream m id (lookup id m.streams)
          (receive_window_increment (is_outbound m id) amount))))
receive_message c m (stream_close_write id) carrier = in_range (identifier_error m id) (
    keep_carrier carrier
      (for_stream m id (lookup id m.streams) (receive_close_write (is_outbound m id))))
receive_message c m (stream_close id) carrier =
    in_range (identifier_error m id)
      (keep_carrier carrier (for_stream m id (lookup id m.streams) receive_close))
