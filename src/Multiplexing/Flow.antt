-- ===== src/Multiplexing/Flow.antt =====
-- One direction of a stream that both ends have established, from `Write` at one end to `Read` at the
-- other (pkg/multiplexing/stream.go, multiplexer.go), with the window increments that come back. Each
-- move is a critical section of one of the goroutines, in any order. Messages of the one direction
-- arrive in the order in which they are sent.
use mutagen.Base.{
  ℕ, Bytes, Bool, true, false, some, List, [], ◌∷◌, ◌++◌, ◌==◌, nat_eq, ◌≡◌, length, ◌<◌,
}
use mutagen.Multiplexing.{
  Handled, ok, guard, ok_with, zero_length_data, zero_valued_increment, Stream, new_stream,
  signal_send_window, Updates, Carrier,
}
use mutagen.Multiplexing.Receiving.{lookup, receive_data, receive_window_increment}
use mutagen.Multiplexing.Sending.{take_data, write_part, enqueue_window_increment, increment_sent}

-- Where `Read` is: before it has taken the signal, before it locks the buffer, and before it has told
-- `enqueue` how much it took.
pub data ReadPhase : Type 0 where
  waiting holding : ReadPhase
  counted : ℕ → ReadPhase

-- Both ends, what is on its way, and what `Write` has sent and `Read` has returned so far.
pub record Flow : Type 0 where
  pub sender : Stream
  pub receiver : Stream
  pub writing : Bool
  pub phase : ReadPhase
  pub updates : Updates
  pub data_sent : List Bytes
  pub increments_sent : List ℕ
  pub written : Bytes
  pub delivered : Bytes

-- The stream, as it is established: the sender has the window that the receiver told it.
abbrev pub new_flow : ℕ → Flow
new_flow window = record {
  sender = record (new_stream window) {
    established = true;
    send_window = window;
    send_window_ready = true;
  };
  receiver = record (new_stream window) { established = true };
  writing = false;
  phase = waiting;
  updates = record { window_increments = []; write_closes = []; closes = [] };
  data_sent = [];
  increments_sent = [];
  written = [];
  delivered = [];
}

-- The parts of `Write`.
abbrev pub begin_write : Flow → Flow
begin_write f = record f { writing = true; sender = record f.sender { send_window_ready = false } }

abbrev pub expire_write : Flow → Handled Flow
expire_write f =
    ok_with (λ s. ok (record f { writing = false; sender = s })) (signal_send_window f.sender)

abbrev pub write_block : Bytes → Flow → Handled Flow
write_block bytes f =
    ok_with
      (λ (r : Bytes × Stream). ok (record f {
        writing = false;
        sender = r.1;
        data_sent = f.data_sent ++ (r.0 ∷ []);
        written = f.written ++ r.0;
      }))
      (write_part bytes f.sender)

-- The parts of `Read`.
abbrev pub begin_read : Flow → Flow
begin_read f = record f {
  phase = holding;
  receiver = record f.receiver { receive_buffer_ready = false };
}

abbrev pub read_data : ℕ → Flow → Handled Flow
read_data n f =
    ok_with
      (λ (r : Bytes × Stream).
        ok (record f {
          phase = counted (length r.0);
          receiver = r.1;
          delivered = f.delivered ++ r.0;
        }))
      (take_data n f.receiver)

abbrev pub count_read : ℕ → ℕ → Flow → Flow
count_read id n f = record f { phase = waiting; updates = enqueue_window_increment id n f.updates }

-- The part of `enqueue`.
abbrev pub send_increment : ℕ → ℕ → Flow → Flow
send_increment id amount f = record f {
  updates = increment_sent id f.updates;
  increments_sent = f.increments_sent ++ (amount ∷ []);
}

-- The parts of the reader.
abbrev pub arrive_increment : Bool → ℕ → List ℕ → Flow → Handled Flow
arrive_increment outbound amount rest f =
    ok_with (λ s. ok (record f { sender = s; increments_sent = rest }))
      (guard (amount == 0) zero_valued_increment
        (receive_window_increment outbound amount f.sender))

abbrev pub arrive_data : {S E : Type 0} → Carrier S E → S → Bytes → List Bytes → Flow → Handled Flow
arrive_data c carrier bytes rest f =
    ok_with (λ (r : Stream × _). ok (record f { receiver = r.0; data_sent = rest }))
      (guard (length bytes == 0) zero_length_data
        (receive_data c (length bytes) carrier f.receiver))

-- The reads that are made are given by the lengths of their buffers.
module _ {S E : Type 0} (c : Carrier S E) (remaining : S → Bytes) (id : ℕ) (outbound : Bool)
    (IsRead : ℕ → Type 0) where
  -- A move, and the outcome.
  pub data Move (f : Flow) : Handled Flow → Type 0 where
    begins_write :
        f.writing ≡ false → f.sender.send_window_ready ≡ true → Move f (ok (begin_write f))
    expires : f.writing ≡ true → Move f (expire_write f)
    writes : (bytes : Bytes) → f.writing ≡ true → 0 < length bytes → Move f (write_block bytes f)
    begins_read :
        f.phase ≡ waiting → f.receiver.receive_buffer_ready ≡ true → Move f (ok (begin_read f))
    reads : (n : ℕ) → f.phase ≡ holding → IsRead n → Move f (read_data n f)
    counts : (n : ℕ) → f.phase ≡ counted n → Move f (ok (count_read id n f))
    sends_increment :
        (amount : ℕ)
        → lookup id f.updates.window_increments ≡ some amount
        → Move f (ok (send_increment id amount f))
    increment_arrives :
        (amount : ℕ) (rest : List ℕ)
        → f.increments_sent ≡ amount ∷ rest
        → Move f (arrive_increment outbound amount rest f)
    data_arrives :
        (bytes : Bytes) (rest : List Bytes) (carrier : S) (more : Bytes)
        → f.data_sent ≡ bytes ∷ rest
        → remaining carrier ≡ bytes ++ more
        → Move f (arrive_data c carrier bytes rest f)

  -- What some moves lead to from the established stream.
  pub data FlowReaches (window : ℕ) : Handled Flow → Type 0 where
    established : FlowReaches window (ok (new_flow window))
    then_moves :
        {f : Flow} {o : Handled Flow} → FlowReaches window (ok f) → Move f o → FlowReaches window o
