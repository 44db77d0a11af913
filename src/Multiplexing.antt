-- ===== src/Multiplexing.antt =====
-- The multiplexer of pkg/multiplexing: multiplexer.go, stream.go and protocol.go. The carrier is a
-- parameter. A channel with room for one signal is a Boolean, and a send that would block is an
-- outcome of its own. Deadlines, heartbeats and the closing of the multiplexer are left out.
pub mod Receiving
pub mod Sending
pub mod Flow
pub mod Credit
pub mod Steady
pub mod Moves
pub mod Arrivals
pub mod Starving
pub mod Registry
pub mod Messages
pub mod Opening
pub mod Protocol
pub mod Events
use mutagen.Base.{ℕ, Bytes, Bool, true, false, Option, none, List, if◌then◌else◌}
use mutagen.Ring.{Buffer, new_buffer}
use mutagen.Ring.Streams.{Reading}

-- A message, as it is decoded. The data of a data message stays in the carrier.
pub data Message : Type 0 where
  multiplexer_heartbeat : Message
  stream_open stream_accept : (identifier window : ℕ) → Message
  stream_data : (identifier length : ℕ) → Message
  stream_window_increment : (identifier amount : ℕ) → Message
  stream_close_write stream_close : (identifier : ℕ) → Message

-- The errors of the reader, in the order of the source.
pub data ProtocolError : Type 0 where
  zero_value_identifier outbound_identifier_opened identifiers_not_increasing : ProtocolError
  inbound_identifier_accepted unopened_inbound_identifier unused_outbound_identifier : ProtocolError
  accepted_twice accepted_after_close : ProtocolError
  zero_length_data unable_to_discard data_for_partially_established : ProtocolError
  data_for_write_closed data_for_closed receive_window_violated unable_to_read_data : ProtocolError
  zero_valued_increment increment_for_partially_established increment_for_closed : ProtocolError
  increment_overflows : ProtocolError
  close_write_for_partially_established close_write_for_closed close_write_twice : ProtocolError
  closed_twice : ProtocolError

-- A result, an error of the reader, or a send to a full channel.
pub data Handled (A : Type 0) : Type 0 where
  ok : A → Handled A
  failed : ProtocolError → Handled A
  blocked : Handled A
  out_of_fuel : Handled A

abbrev pub guard : {A : Type 0} → Bool → ProtocolError → Handled A → Handled A
guard b e r = if b then failed e else r

abbrev pub ok_with : {A B : Type 0} → (A → Handled B) → Handled A → Handled B
ok_with f (ok a) = f a
ok_with f (failed e) = failed e
ok_with f blocked = blocked
ok_with f out_of_fuel = out_of_fuel

-- The stream: what is closed, the data received and the window for sending, each with its channel of
-- readiness.
pub record Stream : Type 0 where
  pub established : Bool
  pub remote_closed_write : Bool
  pub remote_closed : Bool
  pub receive_buffer : Buffer
  pub receive_buffer_ready : Bool
  pub send_window : ℕ
  pub send_window_ready : Bool

-- `newStream`
unfoldable pub new_stream : ℕ → Stream
new_stream receive_window = record {
  established = false;
  remote_closed_write = false;
  remote_closed = false;
  receive_buffer = new_buffer receive_window;
  receive_buffer_ready = false;
  send_window = 0;
  send_window_ready = false;
}

-- `stream.sendWindowReady <- struct{}{}`
abbrev pub signal_send_window : Stream → Handled Stream
signal_send_window s =
    if s.send_window_ready then blocked else ok (record s { send_window_ready = true })

-- `stream.receiveBufferReady <- struct{}{}`
abbrev pub signal_receive_buffer : Stream → Handled Stream
signal_receive_buffer s =
    if s.receive_buffer_ready then blocked else ok (record s { receive_buffer_ready = true })

-- What is waiting to be sent, in `enqueue`.
pub record Updates : Type 0 where
  pub window_increments : List (ℕ × ℕ)
  pub write_closes : List ℕ
  pub closes : List ℕ

-- The multiplexer, with the range of inbound identifiers that its reader keeps.
pub record Multiplexer : Type 0 where
  pub even : Bool
  pub accept_backlog : ℕ
  pub stream_receive_window : ℕ
  pub next_outbound_stream_identifier : ℕ
  pub largest_opened_inbound_stream_identifier : ℕ
  pub streams : List (ℕ × Stream)
  pub pending_inbound_stream_identifiers : List ℕ
  pub updates : Updates

-- The carrier as the reader uses it: a reader of bytes, and its way of discarding them.
pub record Carrier (S E : Type 0) : Type 0 where
  pub reader : ℕ → S → Reading E × S
  pub is_eof : E → Bool
  pub discard : ℕ → S → Option E × S
