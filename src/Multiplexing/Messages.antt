-- ===== src/Multiplexing/Messages.antt =====
-- That the reader of pkg/multiplexing/multiplexer.go keeps the registry of streams in order, whatever
-- message it handles.
use mutagen.Base.{
  ℕ, Bool, true, false, not, Option, none, some, [], ◌∷◌, ◌++◌, ◌==◌, nat_eq, bool_eq, leb, ◌≡◌,
  ◌≢◌, inl, inr, refl, sym, ◌∙◌, arith, if-cases, length, length-append, ◌<◌,
}
use mutagen.Multiplexing.{
  Message, multiplexer_heartbeat, stream_open, stream_accept, stream_data, stream_window_increment,
  stream_close_write, stream_close, ProtocolError, Handled, ok, failed, blocked, out_of_fuel, guard,
  ok_with, Stream, new_stream, Multiplexer, Updates, Carrier,
}
use mutagen.Multiplexing.Receiving.{
  lookup, insert, is_outbound, identifier_error, receive_open, receive_accept, receive_data,
  receive_close, in_range, for_stream, data_for_stream, discarded, keep_carrier, receive_message,
  set_window,
}
use mutagen.Multiplexing.Credit.{lookup-insert, All_snoc}
use mutagen.Multiplexing.Registry.{
  IsPendingIn, IsRegistry, All_map, update-IsRegistry, lookup-insert_other, eq-cases, snoc-Ascends,
}

-- What a handled message leads to, if it leads to a state.
abbrev pub Allows : {A : Type 0} → (A → Type 0) → Handled A → Type 0
Allows P (ok a) = P a
Allows P (failed e) = Unit
Allows P blocked = Unit
Allows P out_of_fuel = Unit

guard-Allows :
    {A : Type 0} (P : A → Type 0) (b : Bool) (e : ProtocolError) (r : Handled A)
    → (b ≡ false → Allows P r)
    → Allows P (guard b e r)
guard-Allows P true e r h = _
guard-Allows P false e r h = h refl

in_range-Allows :
    {A : Type 0} (P : A → Type 0) (o : Option ProtocolError) (r : Handled A)
    → Allows P r
    → Allows P (in_range o r)
in_range-Allows P none r h = h
in_range-Allows P (some e) r h = _

ok_with-Allows :
    {A B : Type 0} (P : A → Type 0) (Q : B → Type 0) (f : A → Handled B) (r : Handled A)
    → Allows P r
    → ((a : A) → P a → Allows Q (f a))
    → Allows Q (ok_with f r)
ok_with-Allows P Q f (ok a) h g = g a h
ok_with-Allows P Q f (failed e) h g = _
ok_with-Allows P Q f blocked h g = _
ok_with-Allows P Q f out_of_fuel h g = _

any_allowed : {A : Type 0} (r : Handled A) → Allows (λ a. Unit) r
any_allowed (ok a) = _
any_allowed (failed e) = _
any_allowed blocked = _
any_allowed out_of_fuel = _

for_stream-IsRegistry :
    (m : Multiplexer) (id : ℕ) (handler : Stream → Handled Stream)
    → IsRegistry m
    → Allows IsRegistry (for_stream m id (lookup id m.streams) handler)
for_stream-IsRegistry m id handler r = go (lookup id m.streams) refl
  where
    go :
        (o : Option Stream)
        → lookup id m.streams ≡ o
        → Allows IsRegistry (for_stream m id o handler)
    go none e = r
    go (some s) e =
        ok_with-Allows (λ a. Unit) IsRegistry _ (handler s) (any_allowed (handler s))
          (λ s' h. update-IsRegistry m id s s' r e)

-- The opening of a stream by the remote.
open_accepted-IsRegistry :
    (m : Multiplexer) (id : ℕ) (s : Stream)
    → IsRegistry m
    → 0 < id
    → is_outbound m id ≡ false
    → m.largest_opened_inbound_stream_identifier < id
    → length m.pending_inbound_stream_identifiers ≢ m.accept_backlog
    → IsRegistry (record m {
      largest_opened_inbound_stream_identifier = id;
      streams = insert id s m.streams;
      pending_inbound_stream_identifiers = m.pending_inbound_stream_identifiers ++ (id ∷ []);
    })
open_accepted-IsRegistry m id s r positive inbound larger space =
    let m' : Multiplexer = record m {
      largest_opened_inbound_stream_identifier = id;
      streams = insert id s m.streams;
      pending_inbound_stream_identifiers = m.pending_inbound_stream_identifiers ++ (id ∷ []);
    } in
    record {
      known = λ k t e. elim (eq-cases k id) [
        | inl same ↦ record {
          positive = omega (arith, same);
          opened_here = λ out. absurd (cc (out, inbound, same));
          opened_there = λ there. omega (arith, same);
        }
        | inr other ↦
            let i = r.known k t (sym (lookup-insert_other k id s m.streams other) ∙ e) in
            record {
              positive = i.positive;
              opened_here = i.opened_here;
              opened_there = λ there. omega (arith, i.opened_there there);
            }
      ];
      next = r.next;
      backlog =
          omega
            (arith, r.backlog, space, length-append m.pending_inbound_stream_identifiers (id ∷ []));
      awaiting =
          All_snoc (IsPendingIn m') m.pending_inbound_stream_identifiers id
            (All_map (IsPendingIn m) (IsPendingIn m') m.pending_inbound_stream_identifiers
              (λ k p. record {
                inbound = p.inbound;
                bounded = omega (arith, p.bounded);
                stream = p.stream;
                registered =
                    lookup-insert_other k id s m.streams (λ e. omega (arith, e, p.bounded))
                    ∙ p.registered;
              })
              r.awaiting)
            (record {
              inbound = inbound;
              bounded = omega arith;
              stream = s;
              registered = lookup-insert id s m.streams;
            });
      ascending = snoc-Ascends m.pending_inbound_stream_identifiers id r.ascending (
          All_map (IsPendingIn m) (λ k. k < id) m.pending_inbound_stream_identifiers
            (λ k p. omega (arith, p.bounded)) r.awaiting);
    }

open_rejected-IsRegistry :
    (m : Multiplexer) (id : ℕ) (u : Updates)
    → IsRegistry m
    → m.largest_opened_inbound_stream_identifier < id
    → IsRegistry (record m { largest_opened_inbound_stream_identifier = id; updates = u })
open_rejected-IsRegistry m id u r larger = record {
  known = λ k t e.
      let i = r.known k t e in
      record {
        positive = i.positive;
        opened_here = i.opened_here;
        opened_there = λ there. omega (arith, i.opened_there there);
      };
  next = r.next;
  backlog = r.backlog;
  awaiting =
      All_map (IsPendingIn m)
        (IsPendingIn (record m { largest_opened_inbound_stream_identifier = id; updates = u }))
        m.pending_inbound_stream_identifiers
        (λ k p. record {
          inbound = p.inbound;
          bounded = omega (arith, p.bounded);
          stream = p.stream;
          registered = p.registered;
        })
        r.awaiting;
  ascending = r.ascending;
}

receive_open-IsRegistry :
    (m : Multiplexer) (id window : ℕ) → IsRegistry m → Allows IsRegistry (receive_open m id window)
unfolding receive_open
receive_open-IsRegistry m id window r = guard-Allows IsRegistry (id == 0) _ _ (λ positive.
    guard-Allows IsRegistry (is_outbound m id) _ _ (λ inbound.
      guard-Allows IsRegistry (leb id m.largest_opened_inbound_stream_identifier) _ _ (λ larger.
        let lt : m.largest_opened_inbound_stream_identifier < id = ground arith in
        if-cases (Allows IsRegistry)
          (length m.pending_inbound_stream_identifiers == m.accept_backlog) _ _
          (λ full. open_rejected-IsRegistry m id _ r lt)
          (λ space.
            ok_with-Allows (λ a. Unit) IsRegistry _
              (set_window window (new_stream m.stream_receive_window))
              (any_allowed (set_window window (new_stream m.stream_receive_window)))
              (λ s h.
                open_accepted-IsRegistry m id s r (ground arith) inbound lt
                  (λ e. ground (arith, space, e)))))))

module _ {S E : Type 0} (c : Carrier S E) where
  abbrev Keeps : Handled (Multiplexer × S) → Type 0
  Keeps = Allows (λ (p : Multiplexer × S). IsRegistry p.0)

  keep_carrier-Keeps :
      (carrier : S) (o : Handled Multiplexer) → Allows IsRegistry o → Keeps (keep_carrier carrier o)
  keep_carrier-Keeps carrier (ok m) h = h
  keep_carrier-Keeps carrier (failed e) h = _
  keep_carrier-Keeps carrier blocked h = _
  keep_carrier-Keeps carrier out_of_fuel h = _

  discarded-Keeps : (m : Multiplexer) (o : Option E × S) → IsRegistry m → Keeps (discarded m o)
  discarded-Keeps m (none, carrier) r = r
  discarded-Keeps m (some e, carrier) r = _

  data_for_stream-Keeps :
      (m : Multiplexer) (id n : ℕ) (carrier : S)
      → IsRegistry m
      → Keeps (data_for_stream c m id n carrier (lookup id m.streams))
  data_for_stream-Keeps m id n carrier r = go (lookup id m.streams) refl
    where
      go :
          (o : Option Stream) → lookup id m.streams ≡ o → Keeps (data_for_stream c m id n carrier o)
      go none e = discarded-Keeps m (c.discard n carrier) r
      go (some s) e =
          ok_with-Allows (λ a. Unit) (λ (p : Multiplexer × S). IsRegistry p.0) _
            (receive_data c n carrier s) (any_allowed (receive_data c n carrier s))
            (λ s' h. update-IsRegistry m id s s'.0 r e)

  -- Every message keeps it.
  pub receive_message-Keeps :
      (m : Multiplexer) (message : Message) (carrier : S)
      → IsRegistry m
      → Keeps (receive_message c m message carrier)
  unfolding receive_message
  receive_message-Keeps m multiplexer_heartbeat carrier r = r
  receive_message-Keeps m (stream_open id window) carrier r =
      keep_carrier-Keeps carrier _ (receive_open-IsRegistry m id window r)
  receive_message-Keeps m (stream_accept id window) carrier r =
      guard-Allows _ (id == 0) _ _ (λ positive.
        guard-Allows _ (not (is_outbound m id)) _ _ (λ outbound.
          in_range-Allows _ (identifier_error m id) _
            (keep_carrier-Keeps carrier _ (for_stream-IsRegistry m id (receive_accept window) r))))
  receive_message-Keeps m (stream_data id n) carrier r =
      in_range-Allows _ (identifier_error m id) _
        (guard-Allows _ (n == 0) _ _ (λ some_data. data_for_stream-Keeps m id n carrier r))
  receive_message-Keeps m (stream_window_increment id amount) carrier r =
      in_range-Allows _ (identifier_error m id) _ (
        guard-Allows _ (amount == 0) _ _
          (λ positive. keep_carrier-Keeps carrier _ (for_stream-IsRegistry m id _ r)))
  receive_message-Keeps m (stream_close_write id) carrier r =
      in_range-Allows _ (identifier_error m id) _
        (keep_carrier-Keeps carrier _ (for_stream-IsRegistry m id _ r))
  receive_message-Keeps m (stream_close id) carrier r =
      in_range-Allows _ (identifier_error m id) _
        (keep_carrier-Keeps carrier _ (for_stream-IsRegistry m id receive_close r))
