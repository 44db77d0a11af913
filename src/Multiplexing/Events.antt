-- ===== src/Multiplexing/Events.antt =====
-- What happens to the streams of a multiplexer of pkg/multiplexing/multiplexer.go, in any order:
-- messages, and calls that open, accept and close streams.
use mutagen.Base.{
  ℕ, Bool, true, false, none, some, List, [], ◌∷◌, ◌==◌, nat_eq, bool_eq, ◌≡◌, ◌≢◌, refl, sym, ap,
  arith, All, if-cases, length, if◌then◌else◌, ◌<◌, ◌^◌,
}
use mathlib.Core.Path.{subst}
use mutagen.Multiplexing.{Message, ok, Stream, Multiplexer, Carrier}
use mutagen.Multiplexing.Receiving.{lookup, remove, enqueue_close, is_outbound, receive_message}
use mutagen.Multiplexing.Sending.{
  new_multiplexer, open_stream, close_stream, Accepted, no_pending, nil_stream, stale, accepted,
  accept_one_stream, accept_found, accept_pending,
}
use mutagen.Multiplexing.Registry.{
  IsPendingIn, IsAbove, Ascends, IsRegistry, All_map, update-IsRegistry, remove-IsRegistry,
  told-IsRegistry,
}
use mutagen.Multiplexing.Messages.{Allows, receive_message-Keeps}
use mutagen.Multiplexing.Opening.{
  IfSome, new_multiplexer-IsRegistry, next-is_fresh, open_stream-IsRegistry,
}

module _ {S E : Type 0} (c : Carrier S E) where
  -- An event. A caller closes a stream that it has opened or accepted, so that it is not pending.
  pub data Event (m : Multiplexer) : Multiplexer → Type 0 where
    received :
        (message : Message) (carrier : S) (m' : Multiplexer) (carrier' : S)
        → receive_message c m message carrier ≡ ok (m', carrier')
        → Event m m'
    opened : (id : ℕ) (m' : Multiplexer) → open_stream m ≡ some (id, m') → Event m m'
    accepts : (id : ℕ) (m' : Multiplexer) → accept_one_stream false m ≡ accepted id m' → Event m m'
    abandons : (id : ℕ) (m' : Multiplexer) → accept_one_stream true m ≡ stale id m' → Event m m'
    closes :
        (send_close_message : Bool) (id : ℕ)
        → All (λ k. k ≢ id) m.pending_inbound_stream_identifiers
        → Event m (close_stream send_close_message id m)

  -- The states that events lead to from a new multiplexer.
  pub data IsRunning : Multiplexer → Type 0 where
    starts :
        (even : Bool) (accept_backlog receive_window : ℕ)
        → IsRunning (new_multiplexer even accept_backlog receive_window)
    then_event : {m m' : Multiplexer} → IsRunning m → Event m m' → IsRunning m'

-- The result of `acceptOneStream` is a state with a property, or that there is nothing to accept.
abbrev pub Leads : (Multiplexer → Type 0) → Accepted → Type 0
Leads P no_pending = Unit
Leads P nil_stream = ⊥
Leads P (stale id m) = P m
Leads P (accepted id m) = P m

-- The backlog without its first stream.
shorter-IsRegistry :
    (m : Multiplexer) (id : ℕ) (ids : List ℕ)
    → IsRegistry m
    → m.pending_inbound_stream_identifiers ≡ id ∷ ids
    → IsRegistry (record m { pending_inbound_stream_identifiers = ids })
shorter-IsRegistry m id ids r first =
    let m' : Multiplexer = record m { pending_inbound_stream_identifiers = ids } in
    record {
      known = λ k t e.
          let i = r.known k t e in
          record {
            positive = i.positive;
            opened_here = i.opened_here;
            opened_there = i.opened_there;
          };
      next = r.next;
      backlog = omega (arith, r.backlog, ap length first);
      awaiting =
          All_map (IsPendingIn m) (IsPendingIn m') ids
            (λ k p. record {
              inbound = p.inbound;
              bounded = p.bounded;
              stream = p.stream;
              registered = p.registered;
            })
            (subst (All (IsPendingIn m)) first r.awaiting).1;
      ascending = (subst Ascends first r.ascending).1;
    }

accept_found-Leads :
    (gives_up : Bool) (id : ℕ) (m : Multiplexer) (s : Stream)
    → IsRegistry m
    → All (IsAbove id) m.pending_inbound_stream_identifiers
    → lookup id m.streams ≡ some s
    → Leads IsRegistry (accept_found gives_up id m (some s))
unfolding close_stream
accept_found-Leads true id m s r above found =
    told-IsRegistry (record m { streams = remove id m.streams }) (enqueue_close id m.updates)
      (remove-IsRegistry m id r (
        All_map (IsAbove id) (λ k. k ≢ id) m.pending_inbound_stream_identifiers
          (λ k lt e. omega (arith, lt, e)) above))
accept_found-Leads false id m s r above found =
    update-IsRegistry m id s (record s { established = true }) r found

accept_one_stream-Leads :
    (gives_up : Bool) (m : Multiplexer)
    → IsRegistry m
    → Leads IsRegistry (accept_one_stream gives_up m)
unfolding accept_one_stream
accept_one_stream-Leads gives_up m r = go m.pending_inbound_stream_identifiers refl
  where
    go :
        (ids : List ℕ)
        → m.pending_inbound_stream_identifiers ≡ ids
        → Leads IsRegistry (accept_pending gives_up m ids)
    go [] first = _
    go (id ∷ ids) first =
        let p = (subst (All (IsPendingIn m)) first r.awaiting).0 in
        subst
          (λ o.
            Leads IsRegistry
              (accept_found gives_up id (record m { pending_inbound_stream_identifiers = ids }) o))
          (sym p.registered)
          (accept_found-Leads gives_up id (record m { pending_inbound_stream_identifiers = ids })
            p.stream (shorter-IsRegistry m id ids r first) (subst Ascends first r.ascending).0
            p.registered)

close_stream-IsRegistry :
    (send_close_message : Bool) (id : ℕ) (m : Multiplexer)
    → IsRegistry m
    → All (λ k. k ≢ id) m.pending_inbound_stream_identifiers
    → IsRegistry (close_stream send_close_message id m)
unfolding close_stream
close_stream-IsRegistry send_close_message id m r apart =
    told-IsRegistry (record m { streams = remove id m.streams })
      (if send_close_message then enqueue_close id m.updates else m.updates)
      (remove-IsRegistry m id r apart)

module _ {S E : Type 0} (c : Carrier S E) where
  Event-IsRegistry : {m m' : Multiplexer} → IsRegistry m → Event c m m' → IsRegistry m'
  Event-IsRegistry {m} r (received message carrier m' carrier' e) =
      subst (Allows (λ (p : Multiplexer × S). IsRegistry p.0)) e
        (receive_message-Keeps c m message carrier r)
  Event-IsRegistry {m} r (opened id m' e) =
      subst (IfSome (λ (p : ℕ × Multiplexer). IsRegistry p.1)) e (open_stream-IsRegistry m r)
  Event-IsRegistry {m} r (accepts id m' e) =
      subst (Leads IsRegistry) e (accept_one_stream-Leads false m r)
  Event-IsRegistry {m} r (abandons id m' e) =
      subst (Leads IsRegistry) e (accept_one_stream-Leads true m r)
  Event-IsRegistry {m} r (closes send_close_message id apart) =
      close_stream-IsRegistry send_close_message id m r apart

  -- In every state that messages and calls lead to from a new multiplexer, in any order, the
  -- identifiers of registered streams are positive and in the ranges of those that were opened here
  -- or there; the backlog is not longer than configured, and its identifiers ascend; and each of them
  -- is of a stream that the remote opened and that is registered.
  pub running-IsRegistry : {m : Multiplexer} → IsRunning c m → IsRegistry m
  running-IsRegistry (starts even accept_backlog receive_window) =
      new_multiplexer-IsRegistry even accept_backlog receive_window
  running-IsRegistry (then_event r e) = Event-IsRegistry (running-IsRegistry r) e

  -- In every state that messages and calls lead to from a new multiplexer, in any order,
  -- acceptOneStream finds no nil stream, and where it accepts or gives up a stream it leaves a registry
  -- in order.
  pub accept_one_stream-running :
      {m : Multiplexer} (gives_up : Bool)
      → IsRunning c m
      → Leads IsRegistry (accept_one_stream gives_up m)
  accept_one_stream-running {m} gives_up r =
      accept_one_stream-Leads gives_up m (running-IsRegistry r)

  -- In every state that messages and calls lead to from a new multiplexer, in any order, where
  -- OpenStream gives an identifier, it has the multiplexer's parity and 64 bits, and no stream is
  -- registered with it.
  pub open_stream-is_fresh :
      {m : Multiplexer} (id : ℕ) (m' : Multiplexer)
      → IsRunning c m
      → open_stream m ≡ some (id, m')
      → (lookup id m.streams ≡ none) × (is_outbound m id ≡ true) × (id < 2 ^ 64)
  unfolding open_stream
  open_stream-is_fresh {m} id m' r e =
      subst
        (IfSome (λ (p : ℕ × Multiplexer).
          (lookup p.0 m.streams ≡ none) × (is_outbound m p.0 ≡ true) × (p.0 < 2 ^ 64)))
        e
        (if-cases
          (IfSome (λ (p : ℕ × Multiplexer).
            (lookup p.0 m.streams ≡ none) × (is_outbound m p.0 ≡ true) × (p.0 < 2 ^ 64)))
          (m.next_outbound_stream_identifier == 0) _ _ (λ exhausted. _)
          (λ some_left. next-is_fresh m (running-IsRegistry r) (λ z. ground arith)))
