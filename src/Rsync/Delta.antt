-- ===== src/Rsync/Delta.antt =====
-- `Deltify` of pkg/synchronization/rsync/engine.go on a target in memory. The transmitter is a
-- parameter: it changes a sink of any type, and says whether it succeeded.
use mutagen.Base.{
  add_u64, ℕ, zero, suc, Bytes, Bool, true, false, ◌&&◌, not, Option, none, some, List, [], ◌∷◌,
  ◌++◌, ◌==◌, nat_eq, bytes_eq, ltb, min, is_empty, length, take, drop, get_elem?, if◌then◌else◌,
  ◌-◌, ◌^◌,
}
use mutagen.Rsync.{BlockHash, Signature, Operation}
use mutagen.Rsync.WeakHash.{Weak, weak_hash, roll_weak_hash}

-- The outcome of a call that may return an error.
pub data Outcome (A : Type 0) : Type 0 where
  returned : A → Outcome A
  failed panicked out_of_fuel : Outcome A

abbrev pub default_maximum_data_operation_size : ℕ
default_maximum_data_operation_size = 2 ^ 16

abbrev pub maximum_size : ℕ → ℕ
maximum_size size = if size == 0 then default_maximum_data_operation_size else size

abbrev pub data_operation : Bytes → Operation
data_operation bytes = record { bytes = bytes; start = 0; count = 0 }

abbrev pub block_operation : ℕ → ℕ → Operation
block_operation start count = record { bytes = []; start = start; count = count }

-- The sink, and the variables `coalescedStart` and `coalescedCount`.
pub record Sender (S : Type 0) : Type 0 where
  pub sink : S
  pub start : ℕ
  pub count : ℕ

-- The indices of the blocks with a weak hash: `weakToBlockHashes[weak]`, from index `i` on.
abbrev pub potentials_from : ℕ → List BlockHash → ℕ → List ℕ
potentials_from i [] weak = []
potentials_from i (h ∷ hs) weak =
    let rest = potentials_from (suc i) hs weak in if h.weak == weak then i ∷ rest else rest

abbrev pub has_strong : List BlockHash → ℕ → Bytes → Bool
has_strong hashes i strong = elim (get_elem? hashes i) [
  | none ↦ false
  | some h ↦ h.strong == strong
]

-- The loop over the potential matches.
abbrev pub first_potential : List BlockHash → List ℕ → Bytes → Option ℕ
first_potential hashes [] strong = none
first_potential hashes (p ∷ ps) strong =
    if has_strong hashes p strong then some p else first_potential hashes ps strong

-- The hashes of the blocks of full size.
abbrev pub full_hashes : Signature → List BlockHash
full_hashes base =
    if not (base.last_block_size == base.block_size)
    then take (length base.hashes - 1) base.hashes
    else base.hashes

module _ {S : Type 0} (transmit : Operation → S → Bool × S) where
  -- The closure `sendBlock`: where a transmission fails, it returns without an error, and without
  -- the new block.
  unfoldable pub send_block : ℕ → Sender S → Sender S
  send_block index s =
      let sent = transmit (block_operation s.start s.count) s.sink in
      if ltb 0 s.count
      then if add_u64 s.start s.count == index
        then record s { count = add_u64 s.count 1 }
        else if sent.0
        then record { sink = sent.1; start = index; count = 1 }
        else record s { sink = sent.1 }
      else record s { start = index; count = 1 }

  -- The loop of `sendData`. Each round takes one unit of fuel.
  unfoldable pub send_chunks : ℕ → ℕ → Bytes → Sender S → Outcome (Sender S)
  send_chunks zero size bytes s = if is_empty bytes then returned s else out_of_fuel
  send_chunks (suc fuel) size bytes s =
      let sent = transmit (data_operation (take (min (length bytes) size) bytes)) s.sink in
      let rest =
        send_chunks fuel size (drop (min (length bytes) size) bytes) (record s { sink = sent.1 }) in
      if is_empty bytes then returned s else if sent.0 then rest else failed

  -- The closure `sendData`.
  unfoldable pub send_data : ℕ → Bytes → Sender S → Outcome (Sender S)
  unfolding send_chunks
  send_data size bytes s =
      let sent = transmit (block_operation s.start s.count) s.sink in
      if not (is_empty bytes) && ltb 0 s.count
      then if sent.0
        then send_chunks (length bytes) size bytes (record { sink = sent.1; start = 0; count = 0 })
        else failed
      else send_chunks (length bytes) size bytes s

  -- What the end of the function does with the pending blocks.
  unfoldable pub flush : Sender S → Outcome S
  flush s =
      let sent = transmit (block_operation s.start s.count) s.sink in
      if ltb 0 s.count then if sent.0 then returned sent.1 else failed else returned s.sink

  -- `chunkAndTransmitAll`. Each round takes one unit of fuel.
  unfoldable pub chunk_and_transmit_all : ℕ → ℕ → Bytes → S → Outcome S
  chunk_and_transmit_all zero size target sink = out_of_fuel
  chunk_and_transmit_all (suc fuel) size target sink =
      let short = transmit (data_operation target) sink in
      let full = transmit (data_operation (take size target)) sink in
      let rest = chunk_and_transmit_all fuel size (drop size target) full.1 in
      if is_empty target
      then returned sink
      else if ltb (length target) size
      then if short.0 then returned short.1 else failed
      else if full.0
      then rest
      else failed

-- The variables of the search loop. `buffer` is the occupied part of the buffer.
pub record Search (S : Type 0) : Type 0 where
  pub target : Bytes
  pub buffer : Bytes
  pub r1 : ℕ
  pub r2 : ℕ
  pub sender : Sender S

-- A round goes on, leaves the loop, or leaves the function.
pub data Round (S : Type 0) : Type 0 where
  next : Search S → Round S
  leave : Bytes → Sender S → Round S
  stop_failed stop_panicked : Round S

abbrev pub then_next : {S : Type 0} → Outcome (Sender S) → (Sender S → Search S) → Round S
then_next (returned s) k = next (k s)
then_next failed k = stop_failed
then_next _ k = stop_panicked

abbrev pub bind : {A B : Type 0} → Outcome A → (A → Outcome B) → Outcome B
bind (returned a) k = k a
bind failed k = failed
bind panicked k = panicked
bind out_of_fuel k = out_of_fuel

module _ {S : Type 0} (transmit : Operation → S → Bool × S) (strong_hash : Bytes → Bytes)
    (base : Signature) (size : ℕ) where
  -- The second half of a round: the search for a match of the block at the end of the buffer.
  unfoldable pub examine : Bytes → Bytes → Weak → Sender S → Round S
  examine target buffer weak sender =
      let preceding = take (length buffer - base.block_size) buffer in
      let block = drop (length buffer - base.block_size) buffer in
      let found =
        first_potential base.hashes (potentials_from 0 (full_hashes base) weak.hash)
          (strong_hash block) in
      elim found [
        | some p ↦ then_next (send_data transmit size preceding sender) (λ s. record {
          target = target;
          buffer = [];
          r1 = weak.r1;
          r2 = weak.r2;
          sender = send_block transmit p s;
        })
        | none ↦
            if length buffer == add_u64 size base.block_size
            then then_next (send_data transmit size preceding sender) (λ s. record {
              target = target;
              buffer = block;
              r1 = weak.r1;
              r2 = weak.r2;
              sender = s;
            })
            else next (record {
              target = target;
              buffer = buffer;
              r1 = weak.r1;
              r2 = weak.r2;
              sender = sender;
            })
      ]

  -- One round of the search loop. A read past the end of the buffer would be a panic.
  unfoldable pub round : Search S → Round S
  round s =
      if is_empty s.buffer
      then if ltb (length s.target) base.block_size
        then leave s.target s.sender
        else examine (drop base.block_size s.target) (take base.block_size s.target)
            (weak_hash (take base.block_size s.target) base.block_size) s.sender
      else if ltb (length s.buffer) base.block_size
      then stop_panicked
      else elim s.target [
        | [] ↦ leave s.buffer s.sender
        | b ∷ rest ↦ elim (get_elem? s.buffer (length s.buffer - base.block_size)) [
          | none ↦ stop_panicked
          | some out ↦
              examine rest (s.buffer ++ (b ∷ [])) (roll_weak_hash s.r1 s.r2 out b base.block_size)
                s.sender
        ]
      ]

  -- The test of the buffer's end against the last block.
  abbrev pub last_block_matches : Bytes → Bool
  last_block_matches candidate = elim (get_elem? base.hashes (length base.hashes - 1)) [
    | none ↦ false
    | some h ↦
        (weak_hash candidate base.block_size).hash == h.weak && strong_hash candidate == h.strong
  ]

  -- Whether the buffer ends with the last block, where that is a short one.
  abbrev pub ends_with_last_block : Bytes → Bool
  ends_with_last_block buffer =
      not (base.last_block_size == base.block_size)
      && not (ltb (length buffer) base.last_block_size)
      && last_block_matches (drop (length buffer - base.last_block_size) buffer)

  -- The search for the short last block, and the end of the function.
  unfoldable pub finish : Bytes → Sender S → Outcome S
  finish buffer sender =
      let preceding = take (length buffer - base.last_block_size) buffer in
      let last = length base.hashes - 1 in
      if ends_with_last_block buffer
      then bind (send_data transmit size preceding sender)
          (λ s. bind (send_data transmit size [] (send_block transmit last s)) (flush transmit))
      else bind (send_data transmit size buffer sender) (flush transmit)

  -- The search loop, and what follows it. Each round takes one unit of fuel.
  unfoldable pub search : ℕ → Search S → Outcome S
  search zero s = out_of_fuel
  search (suc fuel) s = elim (round s) [
    | next s' ↦ search fuel s'
    | leave buffer sender ↦ finish buffer sender
    | stop_failed ↦ failed
    | stop_panicked ↦ panicked
  ]

-- `Deltify`. Every round but the last takes at least one byte from the target.
unfoldable pub deltify :
    {S : Type 0}
    → (Operation → S → Bool × S)
    → (Bytes → Bytes)
    → Bytes
    → Signature
    → ℕ
    → S
    → Outcome S
deltify transmit strong_hash target base size sink =
    if is_empty base.hashes
    then chunk_and_transmit_all transmit (suc (length target)) (maximum_size size) target sink
    else search transmit strong_hash base (maximum_size size) (suc (length target)) (record {
      target = target;
      buffer = [];
      r1 = 0;
      r2 = 0;
      sender = record { sink = sink; start = 0; count = 0 };
    })

-- The transmitter of `DeltifyBytes`.
abbrev pub append_operation : Operation → List Operation → Bool × List Operation
append_operation o operations = (true, operations ++ (o ∷ []))

-- `DeltifyBytes`, whose panic is an outcome that is not `returned`.
abbrev pub deltify_bytes : (Bytes → Bytes) → Bytes → Signature → ℕ → Outcome (List Operation)
deltify_bytes strong_hash target base size =
    deltify append_operation strong_hash target base size []
