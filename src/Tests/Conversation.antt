-- ===== src/Tests/Conversation.antt =====
-- A direction of a stream of pkg/multiplexing on concrete input.
use native.Mathlib.Decide.{ℕ_discrete}
use mutagen.Base.{
  ℕ, Bytes, Bool, true, false, none, some, [], ◌∷◌, ◌≡◌, refl, sym, arith, length, length-take,
  take-append-drop, drop, ◌<◌,
}
use mutagen.Ring.{new_buffer, read, read_from, put, advance}
use mutagen.Ring.Streams.{final_failure, read_n_from, read_n_from_loop}
use mutagen.Ring.Supplied.{IsSupplier}
use mutagen.Multiplexing.{Handled, ok, new_stream, Multiplexer, Carrier}
use mutagen.Multiplexing.Receiving.{lookup, receive_message, receive_data}
use mutagen.Multiplexing.Sending.{take_data, write_part, enqueue_window_increment, increment_sent}
use mutagen.Multiplexing.Flow.{
  Flow, new_flow, waiting, counted, begins_write, writes, begins_read, reads, counts,
  sends_increment, increment_arrives, data_arrives, FlowReaches, established, then_moves,
  arrive_increment,
}
use mutagen.Multiplexing.Credit.{IsBalanced, Succeeds}
use mutagen.Multiplexing.Arrivals.{moves-IsBalanced}
use mutagen.Multiplexing.Starving.{IsSome}
use mutagen.Base.{◌^◌}
use mutagen.Multiplexing.{stream_open}
use mutagen.Multiplexing.Receiving.{receive_open, set_window, is_outbound}
use mutagen.Multiplexing.Sending.{new_multiplexer, open_stream, accept_one_stream}
use mutagen.Multiplexing.Registry.{IsRegistry}
use mutagen.Multiplexing.Events.{
  IsRunning, starts, then_event, received, Leads, running-IsRegistry, accept_one_stream-running,
  open_stream-is_fresh,
}
use mutagen.Tests.Buffer.{memory_reader}

-- A carrier of bytes in memory.
abbrev memory_carrier : Carrier Bytes Bool
memory_carrier = record {
  reader = memory_reader;
  is_eof = λ b. b;
  discard = λ n s. (none, drop n s);
}

memory_carrier-IsSupplier : IsSupplier memory_reader (λ s. s)
memory_carrier-IsSupplier = record {
  few = λ k s. omega (arith, length-take k s);
  parts = λ k s. sym (take-append-drop k s);
  quiet = quiet;
}
  where
    quiet :
        (k : ℕ) (s : Bytes)
        → 0 < k
        → 0 < length s
        → ((memory_reader k s).0.failure ≡ none) × (0 < length (memory_reader k s).0.bytes)
    quiet k [] some_room some_data = absurd (omega arith)
    quiet k (x ∷ s) some_room some_data = (refl, omega (arith, length-take k (x ∷ s)))

abbrev Reaches : Handled Flow → Type 0
Reaches = FlowReaches memory_carrier (λ s. s) 1 true IsSome 3

-- With a window of three bytes, of four bytes three are sent, arrive, and two of them are read; and the
-- window of these comes back.
abbrev written_flow : Flow
written_flow = record (new_flow 3) {
  sender = record (new_flow 3).sender { send_window = 0; send_window_ready = false };
  data_sent = (5 ∷ 6 ∷ 7 ∷ []) ∷ [];
  written = 5 ∷ 6 ∷ 7 ∷ [];
}

written-Reaches : Reaches (ok written_flow)
unfolding write_part ℕ_discrete new_stream
written-Reaches =
    then_moves (then_moves established (begins_write refl refl))
      (writes (5 ∷ 6 ∷ 7 ∷ 8 ∷ []) refl (omega arith))

abbrev arrived_flow : Flow
arrived_flow = record written_flow {
  receiver = record written_flow.receiver {
    receive_buffer = record { storage = 5 ∷ 6 ∷ 7 ∷ []; size = 3; start = 0; used = 3 };
    receive_buffer_ready = true;
  };
  data_sent = [];
}

arrived-Reaches : Reaches (ok arrived_flow)
unfolding receive_data read_n_from read_n_from_loop final_failure put ℕ_discrete new_stream
    new_buffer
arrived-Reaches =
    then_moves written-Reaches
      (data_arrives (5 ∷ 6 ∷ 7 ∷ []) [] (5 ∷ 6 ∷ 7 ∷ 9 ∷ []) (9 ∷ []) refl refl)

abbrev read_flow : Flow
read_flow = record arrived_flow {
  receiver = record arrived_flow.receiver {
    receive_buffer = record { storage = 5 ∷ 6 ∷ 7 ∷ []; size = 3; start = 2; used = 1 };
  };
  phase = counted 2;
  delivered = 5 ∷ 6 ∷ [];
}

read-Reaches : Reaches (ok read_flow)
unfolding take_data read read_from advance ℕ_discrete
read-Reaches =
    then_moves (then_moves arrived-Reaches (begins_read refl refl)) (reads 2 refl (omega arith))

abbrev refreshed : Handled Flow
refreshed =
    arrive_increment true 2 [] (record read_flow { phase = waiting; increments_sent = 2 ∷ [] })

refreshed-Reaches : Reaches refreshed
unfolding enqueue_window_increment increment_sent ℕ_discrete
refreshed-Reaches =
    then_moves (then_moves (then_moves read-Reaches (counts 2 refl)) (sends_increment 2 refl))
      (increment_arrives 2 [] refl)

moves-IsBalanced_example : Succeeds (IsBalanced 3 1) refreshed
moves-IsBalanced_example =
    moves-IsBalanced 3 1 memory_carrier (λ s. s) memory_carrier-IsSupplier true IsSome (omega arith)
      (omega arith) (λ n p. p) refreshed-Reaches

-- A multiplexer with odd identifiers, room for one pending stream and windows of three bytes.
abbrev fresh : Multiplexer
fresh = new_multiplexer false 1 3

-- The remote opens the stream 2 with a window of five bytes.
abbrev greeted : Multiplexer
greeted = record fresh {
  largest_opened_inbound_stream_identifier = 2;
  streams = (2, record (new_stream 3) { send_window = 5; send_window_ready = true }) ∷ [];
  pending_inbound_stream_identifiers = 2 ∷ [];
}

greeted-IsRunning : IsRunning memory_carrier greeted
unfolding receive_message receive_open set_window new_multiplexer ℕ_discrete new_stream
greeted-IsRunning = then_event (starts false 1 3) (received (stream_open 2 5) [] greeted [] refl)

running-IsRegistry_example : IsRegistry greeted
running-IsRegistry_example = running-IsRegistry memory_carrier greeted-IsRunning

accept_one_stream-running_example : Leads IsRegistry (accept_one_stream false greeted)
accept_one_stream-running_example = accept_one_stream-running memory_carrier false greeted-IsRunning

-- The state after `OpenStream`.
abbrev opening : Multiplexer
opening = record greeted {
  streams = (1, new_stream 3) ∷ greeted.streams;
  next_outbound_stream_identifier = 3;
}

opens_first : open_stream greeted ≡ some (1, opening)
unfolding open_stream new_multiplexer ℕ_discrete
opens_first = refl

open_stream-is_fresh_example :
    (lookup 1 greeted.streams ≡ none) × (is_outbound greeted 1 ≡ true) × (1 < 2 ^ 64)
open_stream-is_fresh_example =
    open_stream-is_fresh memory_carrier 1 opening greeted-IsRunning opens_first
