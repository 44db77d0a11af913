-- ===== src/Multiplexing/Arrivals.antt =====
-- The messages that the reader handles in a direction of a stream (pkg/multiplexing/stream.go,
-- multiplexer.go), and the states that all moves lead to.
use mathlib.Core.Path.{subst}
use mutagen.Base.{
  ℕ, Bytes, Bool, true, false, List, [], ◌∷◌, ◌++◌, ◌==◌, ==_ne, nat_eq, ◌≡◌, refl, sym, ap, ◌∙◌,
  arith, All, length, length-append, append_assoc, ◌+◌, ◌<◌, ◌^◌,
}
use mutagen.Ring.{new_buffer}
use mutagen.Ring.Layout.{new_buffer-Holds}
use mutagen.Ring.Supplied.{IsSupplier}
use mutagen.Multiplexing.{Handled, ok, Stream, new_stream, Carrier}
use mutagen.Multiplexing.Receiving.{add_window, receive_window_increment}
use mutagen.Multiplexing.Flow.{
  Flow, new_flow, arrive_increment, arrive_data, Move, begins_write, expires, writes, begins_read,
  reads, counts, sends_increment, increment_arrives, data_arrives, FlowReaches, established,
  then_moves,
}
use mutagen.Multiplexing.Credit.{
  Token, unsignalled, signalled, is_holding, joined, total, IsPositive, IsBlock, IsBalanced,
  Succeeds, succeeds, add_window-ok,
}
use mutagen.Multiplexing.Steady.{when_zero, signalled_by_growth, receive_data-IsStored}
use mutagen.Multiplexing.Moves.{
  begin_write-IsBalanced, expire_write-IsBalanced, write_block-IsBalanced, begin_read-IsBalanced,
  read_data-IsBalanced, count_read-IsBalanced, send_increment-IsBalanced,
}

receive_window_increment-open :
    (outbound : Bool) (amount : ℕ) (s : Stream)
    → s.established ≡ true
    → s.remote_closed ≡ false
    → receive_window_increment outbound amount s ≡ add_window amount s
unfolding receive_window_increment
receive_window_increment-open true amount s up here = simp (up, here)
receive_window_increment-open false amount s up here = simp here

module _ (window id : ℕ) where
  arrive_increment-IsBalanced :
      (outbound : Bool) (f : Flow) (amount : ℕ) (rest : List ℕ)
      → window < 2 ^ 64
      → IsBalanced window id f
      → f.increments_sent ≡ amount ∷ rest
      → Succeeds (IsBalanced window id) (arrive_increment outbound amount rest f)
  arrive_increment-IsBalanced outbound f amount rest fits b first =
      let (positive, others) = subst (All IsPositive) first b.increments in
      let some_amount : (amount == 0) ≡ false =
        ==_ne {A = ℕ} amount 0 (λ z. omega (arith, z, positive)) in
      let sum : f.sender.send_window + amount < 2 ^ 64 = omega (arith, b.credit, ap total first) in
      rw
        (
          some_amount,
          receive_window_increment-open outbound amount f.sender b.sender_open.0 b.sender_open.1,
          add_window-ok amount f.sender positive sum (λ z. (when_zero b.send_token z).0),
        )
        (succeeds _ (record {
          queue = b.queue;
          held = b.held;
          sized = b.sized;
          credit = omega (arith, b.credit, ap total first);
          order = b.order;
          blocks = b.blocks;
          increments = others;
          waiting_increment = b.waiting_increment;
          in_hand_positive = b.in_hand_positive;
          send_token = signalled_by_growth b.send_token amount positive;
          receive_token = b.receive_token;
          sender_open = b.sender_open;
          receiver_open = b.receiver_open;
        }))

  new_flow-IsBalanced : 0 < window → IsBalanced window id (new_flow window)
  unfolding new_stream new_buffer
  new_flow-IsBalanced some_window = record {
    queue = [];
    held = new_buffer-Holds window;
    sized = refl;
    credit = omega arith;
    order = refl;
    blocks = _;
    increments = _;
    waiting_increment = λ amount e. absurd (cc e);
    in_hand_positive = λ n e. absurd (cc e);
    send_token = signalled refl refl some_window;
    receive_token = unsignalled refl refl refl;
    sender_open = (refl, refl);
    receiver_open = (refl, refl, refl);
  }

  module _ {S E : Type 0} (c : Carrier S E) (remaining : S → Bytes)
      (supplier : IsSupplier c.reader remaining) where
    arrive_data-IsBalanced :
        (f : Flow) (bytes : Bytes) (rest : List Bytes) (carrier : S) (more : Bytes)
        → IsBalanced window id f
        → f.data_sent ≡ bytes ∷ rest
        → remaining carrier ≡ bytes ++ more
        → Succeeds (IsBalanced window id) (arrive_data c carrier bytes rest f)
    arrive_data-IsBalanced f bytes rest carrier more b first at =
        let (block, others) = subst (All IsBlock) first b.blocks in
        let some_data : (length bytes == 0) ≡ false =
          ==_ne {A = ℕ} (length bytes) 0 (λ z. omega (arith, z, block.0)) in
        let split : length (joined f.data_sent) ≡ length bytes + length (joined rest) =
          omega (arith, ap (λ ds. length (joined ds)) first, length-append bytes (joined rest)) in
        let stored =
          receive_data-IsStored c remaining supplier bytes more carrier f.receiver b.queue at b.held
            (omega (arith, b.credit, split, b.sized)) b.receiver_open
            (λ z. (when_zero b.receive_token z).0) in
        rw (some_data, stored.returned)
          (succeeds _ (record {
            queue = b.queue ++ bytes;
            held = stored.held;
            sized = stored.sized ∙ b.sized;
            credit = omega (arith, b.credit, split, length-append b.queue bytes);
            order =
                b.order
                ∙ ap (λ ds. f.delivered ++ (b.queue ++ joined ds)) first
                ∙ ap (λ xs. f.delivered ++ xs) (sym (append_assoc b.queue bytes (joined rest)));
            blocks = others;
            increments = b.increments;
            waiting_increment = b.waiting_increment;
            in_hand_positive = b.in_hand_positive;
            send_token = b.send_token;
            receive_token =
                subst (Token _ (is_holding f.phase)) (sym (length-append b.queue bytes))
                  (signalled_by_growth b.receive_token (length bytes) block.0);
            sender_open = b.sender_open;
            receiver_open = b.receiver_open;
          }))

    Move-IsBalanced :
        (outbound : Bool) (IsRead : ℕ → Type 0) {f : Flow} {o : Handled Flow}
        → window < 2 ^ 64
        → IsBalanced window id f
        → ((n : ℕ) → IsRead n → 0 < n)
        → Move c remaining id outbound IsRead f o
        → Succeeds (IsBalanced window id) o
    Move-IsBalanced outbound IsRead {f} fits b full (begins_write idle ready) =
        succeeds _ (begin_write-IsBalanced window id f b ready)
    Move-IsBalanced outbound IsRead {f} fits b full (expires w) =
        expire_write-IsBalanced window id f b w
    Move-IsBalanced outbound IsRead {f} fits b full (writes bytes w some_data) =
        write_block-IsBalanced window id f bytes b w some_data
    Move-IsBalanced outbound IsRead {f} fits b full (begins_read idle ready) =
        succeeds _ (begin_read-IsBalanced window id f b idle ready)
    Move-IsBalanced outbound IsRead {f} fits b full (reads n h room) =
        read_data-IsBalanced window id f n b h (full n room)
    Move-IsBalanced outbound IsRead {f} fits b full (counts n h) =
        succeeds _ (count_read-IsBalanced window id f n fits b h)
    Move-IsBalanced outbound IsRead {f} fits b full (sends_increment amount found) =
        succeeds _ (send_increment-IsBalanced window id f amount b found)
    Move-IsBalanced outbound IsRead {f} fits b full (increment_arrives amount rest first) =
        arrive_increment-IsBalanced outbound f amount rest fits b first
    Move-IsBalanced outbound IsRead {f} fits b full
          (data_arrives bytes rest carrier more first at) =
        arrive_data-IsBalanced f bytes rest carrier more b first at

    of_ok : {A : Type 0} {P : A → Type 0} {a : A} → Succeeds P (ok a) → P a
    of_ok (succeeds a p) = p

    -- Where the carrier delivers what was sent, the window is positive and has 64 bits, and no read is
    -- made with an empty buffer, whatever the moves of the ends of an established stream lead to is no
    -- error of the reader and no send to a full channel, but a state in which the send window, the
    -- data on its way and in the buffer and the increments on their way add up to the receive window;
    -- what was written is what was delivered, what the buffer holds and what is on its way, in this
    -- order; and a window or a buffer that is not empty has been signalled, once.
    pub moves-IsBalanced :
        (outbound : Bool) (IsRead : ℕ → Type 0) {o : Handled Flow}
        → 0 < window
        → window < 2 ^ 64
        → ((n : ℕ) → IsRead n → 0 < n)
        → FlowReaches c remaining id outbound IsRead window o
        → Succeeds (IsBalanced window id) o
    moves-IsBalanced outbound IsRead some_window fits full established =
        succeeds _ (new_flow-IsBalanced some_window)
    moves-IsBalanced outbound IsRead some_window fits full (then_moves r m) =
        Move-IsBalanced outbound IsRead fits
          (of_ok (moves-IsBalanced outbound IsRead some_window fits full r)) full m
