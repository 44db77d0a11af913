-- ===== src/Multiplexing/Moves.antt =====
-- The moves of a direction of a stream (pkg/multiplexing/stream.go, multiplexer.go) keep its balance.
use mathlib.Core.Path.{subst}
use mutagen.Base.{
  ℕ, Bytes, true, some, ◌++◌, nat_eq, ◌≡◌, refl, sym, ap, ◌∙◌, arith, length, length-append,
  length-take, length-drop, take-append-drop, append_assoc, min, take, drop, add_u64, ◌+◌, ◌-◌, ◌<◌,
  ◌^◌,
}
use mutagen.Multiplexing.Receiving.{lookup}
use mutagen.Multiplexing.Sending.{
  amount_or_zero, maximum_stream_data_block_size, enqueue_window_increment, increment_sent,
}
use mutagen.Multiplexing.Flow.{
  Flow, waiting, holding, counted, begin_write, expire_write, write_block, begin_read, read_data,
  count_read, send_increment,
}
use mutagen.Multiplexing.Credit.{
  Token, signalled, taken, is_holding, in_hand, joined, IsPositive, IsBlock, pending, IsBalanced,
  Succeeds, succeeds, joined_snoc, total_snoc, All_snoc, lookup-remove, lookup-insert,
  write_part-ok,
}
use mutagen.Multiplexing.Steady.{when_held, when_ready, signalled_by_size, take_data-ok}

module _ (window id : ℕ) where
  pub begin_write-IsBalanced :
      (f : Flow)
      → IsBalanced window id f
      → f.sender.send_window_ready ≡ true
      → IsBalanced window id (begin_write f)
  begin_write-IsBalanced f b ready = record {
    send_token = taken refl refl (when_ready b.send_token ready).1;
    queue = b.queue;
    held = b.held;
    sized = b.sized;
    credit = b.credit;
    order = b.order;
    blocks = b.blocks;
    increments = b.increments;
    waiting_increment = b.waiting_increment;
    in_hand_positive = b.in_hand_positive;
    receive_token = b.receive_token;
    sender_open = b.sender_open;
    receiver_open = b.receiver_open;
  }

  pub expire_write-IsBalanced :
      (f : Flow)
      → IsBalanced window id f
      → f.writing ≡ true
      → Succeeds (IsBalanced window id) (expire_write f)
  expire_write-IsBalanced f b w =
      let (quiet, p) = when_held b.send_token w in
      simp quiet (
        succeeds _ (record {
          send_token = signalled refl refl p;
          queue = b.queue;
          held = b.held;
          sized = b.sized;
          credit = b.credit;
          order = b.order;
          blocks = b.blocks;
          increments = b.increments;
          waiting_increment = b.waiting_increment;
          in_hand_positive = b.in_hand_positive;
          receive_token = b.receive_token;
          sender_open = b.sender_open;
          receiver_open = b.receiver_open;
        }))

  pub write_block-IsBalanced :
      (f : Flow) (bytes : Bytes)
      → IsBalanced window id f
      → f.writing ≡ true
      → 0 < length bytes
      → Succeeds (IsBalanced window id) (write_block bytes f)
  write_block-IsBalanced f bytes b w some_data =
      let (quiet, p) = when_held b.send_token w in
      let k = min f.sender.send_window (min (length bytes) maximum_stream_data_block_size) in
      let size : length (take k bytes) ≡ k = omega (arith, length-take k bytes) in
      rw (write_part-ok bytes f.sender quiet) (
        succeeds _ (record {
          credit = omega (
            arith,
            b.credit,
            ap length (joined_snoc f.data_sent (take k bytes)),
            length-append (joined f.data_sent) (take k bytes),
            size,
          );
          order =
              ap (λ xs. xs ++ take k bytes) b.order
              ∙ append_assoc f.delivered (b.queue ++ joined f.data_sent) (take k bytes)
              ∙ ap (λ xs. f.delivered ++ xs)
                  (append_assoc b.queue (joined f.data_sent) (take k bytes)
                    ∙ ap (λ xs. b.queue ++ xs) (sym (joined_snoc f.data_sent (take k bytes))));
          blocks =
              All_snoc IsBlock f.data_sent (take k bytes) b.blocks
                (omega (arith, size), omega (arith, size));
          send_token = signalled_by_size (f.sender.send_window - k);
          queue = b.queue;
          held = b.held;
          sized = b.sized;
          increments = b.increments;
          waiting_increment = b.waiting_increment;
          in_hand_positive = b.in_hand_positive;
          receive_token = b.receive_token;
          sender_open = b.sender_open;
          receiver_open = b.receiver_open;
        }))

  pub begin_read-IsBalanced :
      (f : Flow)
      → IsBalanced window id f
      → f.phase ≡ waiting
      → f.receiver.receive_buffer_ready ≡ true
      → IsBalanced window id (begin_read f)
  begin_read-IsBalanced f b idle ready = record {
    credit = omega (arith, b.credit, ap in_hand idle);
    in_hand_positive = λ n e. absurd (cc e);
    receive_token = taken refl refl (when_ready b.receive_token ready).1;
    queue = b.queue;
    held = b.held;
    sized = b.sized;
    order = b.order;
    blocks = b.blocks;
    increments = b.increments;
    waiting_increment = b.waiting_increment;
    send_token = b.send_token;
    sender_open = b.sender_open;
    receiver_open = b.receiver_open;
  }

  pub read_data-IsBalanced :
      (f : Flow) (n : ℕ)
      → IsBalanced window id f
      → f.phase ≡ holding
      → 0 < n
      → Succeeds (IsBalanced window id) (read_data n f)
  read_data-IsBalanced f n b h room =
      let (quiet, p) = when_held b.receive_token (ap is_holding h) in
      let (buffer, size, held, e) = take_data-ok n f.receiver b.queue b.held quiet in
      let got : length (take n b.queue) ≡ min n (length b.queue) = length-take n b.queue in
      rw e (
        succeeds _ (record {
          queue = drop n b.queue;
          held = held;
          sized = size ∙ b.sized;
          credit = omega (arith, b.credit, ap in_hand h, got, length-drop n b.queue);
          order =
              b.order
              ∙ ap (λ xs. f.delivered ++ (xs ++ joined f.data_sent))
                  (sym (take-append-drop n b.queue))
              ∙ ap (λ xs. f.delivered ++ xs)
                  (append_assoc (take n b.queue) (drop n b.queue) (joined f.data_sent))
              ∙ sym (
                  append_assoc f.delivered (take n b.queue) (drop n b.queue ++ joined f.data_sent));
          in_hand_positive = λ m same. omega (arith, got, ap in_hand same);
          receive_token = signalled_by_size (length (drop n b.queue));
          blocks = b.blocks;
          increments = b.increments;
          waiting_increment = b.waiting_increment;
          send_token = b.send_token;
          sender_open = b.sender_open;
          receiver_open = b.receiver_open;
        }))

  pub count_read-IsBalanced :
      (f : Flow) (n : ℕ)
      → window < 2 ^ 64
      → IsBalanced window id f
      → f.phase ≡ counted n
      → IsBalanced window id (count_read id n f)
  unfolding enqueue_window_increment
  count_read-IsBalanced f n fits b h =
      let sum : add_u64 (pending id f) n ≡ pending id f + n =
        ground (arith, b.credit, ap in_hand h) in
      let found = lookup-insert id (add_u64 (pending id f) n) f.updates.window_increments in
      let positive : 0 < n = b.in_hand_positive n h in
      record {
        credit = omega (arith, b.credit, ap in_hand h, ap amount_or_zero found, sum);
        waiting_increment =
            λ amount e. omega (arith, ap amount_or_zero (sym found ∙ e), sum, positive);
        in_hand_positive = λ m same. absurd (cc same);
        receive_token =
            subst (λ held. Token f.receiver.receive_buffer_ready held (length b.queue))
              (ap is_holding h) b.receive_token;
        queue = b.queue;
        held = b.held;
        sized = b.sized;
        order = b.order;
        blocks = b.blocks;
        increments = b.increments;
        send_token = b.send_token;
        sender_open = b.sender_open;
        receiver_open = b.receiver_open;
      }

  pub send_increment-IsBalanced :
      (f : Flow) (amount : ℕ)
      → IsBalanced window id f
      → lookup id f.updates.window_increments ≡ some amount
      → IsBalanced window id (send_increment id amount f)
  unfolding increment_sent
  send_increment-IsBalanced f amount b found =
      let gone = lookup-remove id f.updates.window_increments in
      record {
        credit = omega (
          arith,
          b.credit,
          ap amount_or_zero found,
          ap amount_or_zero gone,
          total_snoc f.increments_sent amount,
        );
        increments =
            All_snoc IsPositive f.increments_sent amount b.increments
              (b.waiting_increment amount found);
        waiting_increment = λ k e. absurd (cc (sym gone ∙ e));
        queue = b.queue;
        held = b.held;
        sized = b.sized;
        order = b.order;
        blocks = b.blocks;
        in_hand_positive = b.in_hand_positive;
        send_token = b.send_token;
        receive_token = b.receive_token;
        sender_open = b.sender_open;
        receiver_open = b.receiver_open;
      }
