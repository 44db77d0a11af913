-- ===== src/Multiplexing/Opening.antt =====
-- That `OpenStream` of pkg/multiplexing/multiplexer.go keeps the registry of streams in order, and uses
-- an identifier that is not registered.
use mutagen.Base.{
  ℕ, Bool, true, false, Option, none, some, ◌==◌, nat_eq, bool_eq, ltb, ◌≡◌, ◌≢◌, ◌⊎◌, inl, inr,
  refl, sym, ap, ◌∙◌, arith, Bool-cases, Option-cases, if-cases, add_u64, if◌then◌else◌, ◌+◌, ◌-◌,
  ◌<◌, ◌^◌,
}
use mutagen.Multiplexing.{Stream, new_stream, Multiplexer}
use mutagen.Multiplexing.Receiving.{lookup, insert, is_outbound}
use mutagen.Multiplexing.Sending.{new_multiplexer, open_stream}
use mutagen.Multiplexing.Registry.{IsPendingIn, IsRegistry, All_map, lookup-insert_other, eq-cases}

pub new_multiplexer-IsRegistry :
    (even : Bool) (accept_backlog receive_window : ℕ)
    → IsRegistry (new_multiplexer even accept_backlog receive_window)
unfolding new_multiplexer native.Mathlib.Decide.ℕ_discrete
new_multiplexer-IsRegistry true accept_backlog receive_window = record {
  known = λ k t e. absurd (cc e);
  next = inr (refl, omega arith);
  backlog = omega arith;
  awaiting = _;
  ascending = _;
}
new_multiplexer-IsRegistry false accept_backlog receive_window = record {
  known = λ k t e. absurd (cc e);
  next = inr (refl, omega arith);
  backlog = omega arith;
  awaiting = _;
  ascending = _;
}

-- The identifier that is opened next is not registered, and it has the multiplexer's parity.
pub next-is_fresh :
    (m : Multiplexer)
    → IsRegistry m
    → m.next_outbound_stream_identifier ≢ 0
    → (lookup m.next_outbound_stream_identifier m.streams ≡ none)
      × (is_outbound m m.next_outbound_stream_identifier ≡ true)
      × (m.next_outbound_stream_identifier < 2 ^ 64)
next-is_fresh m r some_left = elim r.next [
  | inl exhausted ↦ absurd (some_left exhausted)
  | inr (out, fits) ↦ (
    elim (Option-cases (lookup m.next_outbound_stream_identifier m.streams)) [
      | inl fresh ↦ fresh
      | inr (s, e) ↦ elim ((r.known m.next_outbound_stream_identifier s e).opened_here out) [
        | inl exhausted ↦ absurd (some_left exhausted)
        | inr lt ↦ absurd (omega (arith, lt))
      ]
    ],
    out,
    fits,
  )
]

abbrev pub IfSome : {A : Type 0} → (A → Type 0) → Option A → Type 0
IfSome P none = Unit
IfSome P (some a) = P a

-- The identifier after an outbound one.
following :
    (id : ℕ)
    → id < 2 ^ 64
    → let after = if ltb ((2 ^ 64 - 1) - id) 2 then 0 else add_u64 id 2 in
      (after ≡ 0) ⊎ ((after ≡ id + 2) × (id + 2 < 2 ^ 64))
following id fits = elim (Bool-cases (ltb ((2 ^ 64 - 1) - id) 2)) [
  | inl last ↦ inl (rw last refl)
  | inr more ↦ inr (rw more (ground arith), ground arith)
]

opened-IsRegistry :
    (m : Multiplexer) (s : Stream) (after : ℕ)
    → IsRegistry m
    → 0 < m.next_outbound_stream_identifier
    → is_outbound m m.next_outbound_stream_identifier ≡ true
    → (after ≡ 0)
      ⊎ ((after ≡ m.next_outbound_stream_identifier + 2)
          × (m.next_outbound_stream_identifier + 2 < 2 ^ 64))
    → IsRegistry (record m {
      streams = insert m.next_outbound_stream_identifier s m.streams;
      next_outbound_stream_identifier = after;
    })
opened-IsRegistry m s after r positive out choice =
    let id = m.next_outbound_stream_identifier in
    let m' : Multiplexer = record m {
      streams = insert id s m.streams;
      next_outbound_stream_identifier = after;
    } in
    let later : (k : ℕ) → (id ≡ 0) ⊎ (k < id) → (after ≡ 0) ⊎ (k < after) = λ k h. elim choice [
      | inl exhausted ↦ inl exhausted
      | inr (e, fits) ↦ elim h [
        | inl zero ↦ absurd (omega (arith, zero))
        | inr lt ↦ inr (omega (arith, lt, e))
      ]
    ] in
    record {
      known = λ k t found. elim (eq-cases k id) [
        | inl same ↦ record {
          positive = omega (arith, same);
          opened_here = λ here. elim choice [
            | inl exhausted ↦ inl exhausted
            | inr (e, fits) ↦ inr (omega (arith, same, e))
          ];
          opened_there = λ there. absurd (cc (there, out, same));
        }
        | inr other ↦
            let i = r.known k t (sym (lookup-insert_other k id s m.streams other) ∙ found) in
            record {
              positive = i.positive;
              opened_here = λ here. later k (i.opened_here here);
              opened_there = i.opened_there;
            }
      ];
      next = elim choice [
        | inl exhausted ↦ inl exhausted
        | inr (e, fits) ↦ inr (
          ap (is_outbound m) e ∙ ap {A = ℕ} (λ j. m.even == (j == 0)) (omega arith) ∙ out,
          omega (arith, e),
        )
      ];
      backlog = r.backlog;
      awaiting =
          All_map (IsPendingIn m) (IsPendingIn m') m.pending_inbound_stream_identifiers
            (λ k p. record {
              inbound = p.inbound;
              bounded = p.bounded;
              stream = p.stream;
              registered =
                  lookup-insert_other k id s m.streams (λ e. absurd (cc (p.inbound, out, e)))
                  ∙ p.registered;
            })
            r.awaiting;
      ascending = r.ascending;
    }

pub open_stream-IsRegistry :
    (m : Multiplexer)
    → IsRegistry m
    → IfSome (λ (p : ℕ × Multiplexer). IsRegistry p.1) (open_stream m)
unfolding open_stream
open_stream-IsRegistry m r =
    if-cases (IfSome (λ (p : ℕ × Multiplexer). IsRegistry p.1))
      (m.next_outbound_stream_identifier == 0) _ _ (λ exhausted. _)
      (λ some_left.
        let positive : 0 < m.next_outbound_stream_identifier = ground arith in
        let (fresh, out, fits) = next-is_fresh m r (λ e. omega (arith, e)) in
        opened-IsRegistry m (new_stream m.stream_receive_window) _ r positive out
          (following m.next_outbound_stream_identifier fits))
