-- ===== src/Multiplexing/Sending.antt =====
-- `Read` and `Write` of pkg/multiplexing/stream.go between their waits, and what `enqueue`,
-- `OpenStream`, `acceptOneStream` and `close` do to the state of the multiplexer.
use mutagen.Base.{
  List, ℕ, Bytes, Bool, true, Option, none, some, [], ◌∷◌, ◌==◌, nat_eq, ltb, length, min, take,
  if◌then◌else◌, add_u64, ◌-◌, ◌^◌,
}
use mutagen.Ring.{Taken, read}
use mutagen.Multiplexing.{
  Handled, ok, out_of_fuel, ok_with, Stream, new_stream, signal_send_window, signal_receive_buffer,
  Updates, Multiplexer,
}
use mutagen.Multiplexing.Receiving.{lookup, remove, insert, remove_identifier, enqueue_close}

-- `maximumStreamDataBlockSize`
abbrev pub maximum_stream_data_block_size : ℕ
maximum_stream_data_block_size = 65535

abbrev pub data_taken : Stream → Option Taken → Handled (Bytes × Stream)
data_taken s none = out_of_fuel
data_taken s (some t) =
    let s' = record s { receive_buffer = t.buffer } in
    ok_with (λ s''. ok (t.bytes, s''))
      (if ltb 0 t.buffer.used then signal_receive_buffer s' else ok s')

-- The reading of `Read` into a buffer of a length, once it has taken the signal.
unfoldable pub take_data : ℕ → Stream → Handled (Bytes × Stream)
take_data n s = data_taken s (read s.receive_buffer n)

-- A round of `Write`, once it has taken the signal and has a buffer for the message: the block that
-- it sends.
unfoldable pub write_part : Bytes → Stream → Handled (Bytes × Stream)
write_part bytes s =
    let window = min s.send_window (min (length bytes) maximum_stream_data_block_size) in
    let s' = record s { send_window = s.send_window - window } in
    ok_with (λ s''. ok (take window bytes, s''))
      (if ltb 0 (s.send_window - window) then signal_send_window s' else ok s')

abbrev pub amount_or_zero : Option ℕ → ℕ
amount_or_zero none = 0
amount_or_zero (some amount) = amount

-- `enqueue`, when it is told of a window increment.
unfoldable pub enqueue_window_increment : ℕ → ℕ → Updates → Updates
enqueue_window_increment id amount u = record u {
  window_increments =
      insert id (add_u64 (amount_or_zero (lookup id u.window_increments)) amount)
        u.window_increments;
}

-- `enqueue`, when it is told to send a close write message.
unfoldable pub enqueue_close_write : ℕ → Updates → Updates
enqueue_close_write id u = record u { write_closes = id ∷ remove_identifier id u.write_closes }

-- `enqueue`, when it has encoded the increment of a stream.
unfoldable pub increment_sent : ℕ → Updates → Updates
increment_sent id u = record u { window_increments = remove id u.window_increments }

-- The state that `Multiplex` makes of a configuration.
unfoldable pub new_multiplexer : Bool → ℕ → ℕ → Multiplexer
new_multiplexer even accept_backlog stream_receive_window = record {
  even = even;
  accept_backlog = accept_backlog;
  stream_receive_window = stream_receive_window;
  next_outbound_stream_identifier = if even then 2 else 1;
  largest_opened_inbound_stream_identifier = 0;
  streams = [];
  pending_inbound_stream_identifiers = [];
  updates = record { window_increments = []; write_closes = []; closes = [] };
}

-- `OpenStream` up to the open message: the identifier, and the multiplexer. `none` where the
-- identifiers are exhausted.
unfoldable pub open_stream : Multiplexer → Option (ℕ × Multiplexer)
open_stream m =
    let id = m.next_outbound_stream_identifier in
    if id == 0
    then none
    else some (
      id,
      record m {
        streams = insert id (new_stream m.stream_receive_window) m.streams;
        next_outbound_stream_identifier = if ltb ((2 ^ 64 - 1) - id) 2 then 0 else add_u64 id 2;
      },
    )

-- What `acceptOneStream` finds for the oldest pending identifier.
pub data Accepted : Type 0 where
  no_pending : Accepted
  nil_stream : Accepted
  stale : (identifier : ℕ) → Multiplexer → Accepted
  accepted : (identifier : ℕ) → Multiplexer → Accepted

-- `close`, with a close message or without, for a stream that is not closed yet.
unfoldable pub close_stream : Bool → ℕ → Multiplexer → Multiplexer
close_stream send_close_message id m = record m {
  updates = if send_close_message then enqueue_close id m.updates else m.updates;
  streams = remove id m.streams;
}

abbrev pub accept_found : Bool → ℕ → Multiplexer → Option Stream → Accepted
accept_found gives_up id m none = nil_stream
accept_found gives_up id m (some s) =
    if gives_up
    then stale id (close_stream true id m)
    else accepted id (record m { streams = insert id (record s { established = true }) m.streams })

abbrev pub accept_pending : Bool → Multiplexer → List ℕ → Accepted
accept_pending gives_up m [] = no_pending
accept_pending gives_up m (id ∷ ids) =
    accept_found gives_up id (record m { pending_inbound_stream_identifiers = ids })
      (lookup id m.streams)

-- `acceptOneStream`; it gives up where the remote has closed the stream, or the context is cancelled,
-- before there is a buffer for its message.
unfoldable pub accept_one_stream : Bool → Multiplexer → Accepted
accept_one_stream gives_up m = accept_pending gives_up m m.pending_inbound_stream_identifiers
