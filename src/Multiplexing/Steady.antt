-- ===== src/Multiplexing/Steady.antt =====
-- What the operations on a stream (pkg/multiplexing/stream.go, multiplexer.go) do where the channels of
-- readiness say what they should.
use mathlib.Core.Path.{subst}
use mutagen.Base.{
  ℕ, Bytes, Bool, true, false, not, none, ◌++◌, ◌==◌, ==→eq, ==_ne, ==_self, nat_eq, ltb, ◌≡◌, inl,
  inr, refl, sym, ap, ◌∙◌, arith, Bool-cases, length, length-append, take-append, take, drop,
  if◌then◌else◌, ◌+◌, ◌<◌, ◌≤◌,
}
use mutagen.Ring.{Buffer}
use mutagen.Ring.Layout.{Holds, used-Holds, take_at}
use mutagen.Ring.Read.{read-Holds}
use mutagen.Ring.Streams.{Transfer, read_n_from}
use mutagen.Ring.Supplied.{IsSupplier, read_n_from-IsSupplied}
use mutagen.Multiplexing.{
  Handled, ok, Stream, Carrier, guard, data_for_partially_established, data_for_write_closed,
  data_for_closed,
}
use mutagen.Multiplexing.Receiving.{receive_data, data_read, data_stored}
use mutagen.Multiplexing.Sending.{take_data}
use mutagen.Multiplexing.Credit.{Token, unsignalled, signalled, taken}

-- What a channel of readiness says.
pub when_held : {r h : Bool} {n : ℕ} → Token r h n → h ≡ true → (r ≡ false) × (0 < n)
when_held (unsignalled e1 e2 z) e = absurd (cc (e, e2))
when_held (signalled e1 e2 p) e = absurd (cc (e, e2))
when_held (taken e1 e2 p) e = (e1, p)

pub when_ready : {r h : Bool} {n : ℕ} → Token r h n → r ≡ true → (h ≡ false) × (0 < n)
when_ready (unsignalled e1 e2 z) e = absurd (cc (e, e1))
when_ready (signalled e1 e2 p) e = (e2, p)
when_ready (taken e1 e2 p) e = absurd (cc (e, e1))

pub when_zero : {r h : Bool} {n : ℕ} → Token r h n → n ≡ 0 → (r ≡ false) × (h ≡ false)
when_zero (unsignalled e1 e2 z) e = (e1, e2)
when_zero (signalled e1 e2 p) e = absurd (omega (arith, e))
when_zero (taken e1 e2 p) e = absurd (omega (arith, e))

pub signalled_by_size : (n : ℕ) → Token (ltb 0 n) false n
signalled_by_size n = elim (Bool-cases (ltb 0 n)) [
  | inl more ↦ signalled more refl (ground arith)
  | inr drained ↦ unsignalled drained refl (ground arith)
]

-- What is signalled grows.
pub signalled_by_growth :
    {r h : Bool} {n : ℕ}
    → Token r h n
    → (more : ℕ) → 0 < more
    → Token (if n == 0 then true else r) h (n + more)
signalled_by_growth {r} {h} {n} (unsignalled e1 e2 z) more p =
    rw (ap (λ k. k == 0) z ∙ ==_self {A = ℕ} 0) (signalled refl e2 (omega arith))
signalled_by_growth {r} {h} {n} (signalled e1 e2 q) more p =
    rw (==_ne {A = ℕ} n 0 (λ z. omega (arith, z))) (signalled e1 e2 (omega arith))
signalled_by_growth {r} {h} {n} (taken e1 e2 q) more p =
    rw (==_ne {A = ℕ} n 0 (λ z. omega (arith, z))) (taken e1 e2 (omega arith))

-- The reading of data that is there.
pub take_data-ok :
    (n : ℕ) (s : Stream) (q : Bytes)
    → Holds s.receive_buffer q
    → s.receive_buffer_ready ≡ false
    → (b : Buffer) × (b.size ≡ s.receive_buffer.size)
      × Holds b (drop n q)
      × (take_data n s
          ≡ ok (
            take n q,
            record s { receive_buffer = b; receive_buffer_ready = ltb 0 (length (drop n q)) },
          ))
unfolding take_data
take_data-ok n s q held quiet =
    let (b, e, size, held') = read-Holds s.receive_buffer q n held in
    (
      b,
      size,
      held',
      rw e (elim (Bool-cases (ltb 0 b.used)) [
        | inl more ↦
            let m : ltb 0 (length (drop n q)) ≡ true =
              ap (ltb 0) (sym (used-Holds b (drop n q) held')) ∙ more in
            rw (more, quiet, m) refl
        | inr drained ↦
            let m : ltb 0 (length (drop n q)) ≡ false =
              ap (ltb 0) (sym (used-Holds b (drop n q) held')) ∙ drained in
            rw (drained, quiet, m) refl
      ]),
    )

module _ {S E : Type 0} (c : Carrier S E) (remaining : S → Bytes) where
  -- The storing of data for which there is space.
  pub record IsStored (s : Stream) (q bytes : Bytes) (outcome : Handled (Stream × S)) : Type 0 where
    pub buffer : Buffer
    pub carrier : S
    pub held : Holds buffer (q ++ bytes)
    pub sized : buffer.size ≡ s.receive_buffer.size
    pub returned :
        outcome
        ≡ ok (
          record s {
            receive_buffer = buffer;
            receive_buffer_ready = if length q == 0 then true else s.receive_buffer_ready;
          },
          carrier,
        )

  receive_data-open :
      (n : ℕ) (carrier : S) (s : Stream)
      → s.established ≡ true
      → s.remote_closed_write ≡ false
      → s.remote_closed ≡ false
      → receive_data c n carrier s
        ≡ data_stored n s (read_n_from c.reader c.is_eof s.receive_buffer carrier n)
  unfolding receive_data
  receive_data-open n carrier s up writable here = go s.established up
    where
      go :
          (b : Bool)
          → b ≡ true
          → guard (not b) data_for_partially_established (
              guard s.remote_closed_write data_for_write_closed (
                guard s.remote_closed data_for_closed
                  (data_stored n s (read_n_from c.reader c.is_eof s.receive_buffer carrier n))))
            ≡ data_stored n s (read_n_from c.reader c.is_eof s.receive_buffer carrier n)
      go b e = simp (e, writable, here)

  data_read-ok :
      (s : Stream) (q bytes : Bytes) (t : Transfer S E)
      → t.buffer.used ≡ length q + length bytes
      → (length q ≡ 0 → s.receive_buffer_ready ≡ false)
      → data_read (length bytes) s t none
        ≡ ok (
          record s {
            receive_buffer = t.buffer;
            receive_buffer_ready = if length q == 0 then true else s.receive_buffer_ready;
          },
          t.stream,
        )
  data_read-ok s q bytes t used quiet = elim (Bool-cases (length q == 0)) [
    | inl empty ↦
        let z : length q ≡ 0 = ==→eq (length q) 0 empty in
        let all : (t.buffer.used == length bytes) ≡ true =
          ap (λ k. k == length bytes) (used ∙ omega (arith, z)) ∙ ==_self {A = ℕ} (length bytes) in
        rw (all, empty, quiet z) refl
    | inr some_left ↦
        let all : (t.buffer.used == length bytes) ≡ false =
          ==_ne {A = ℕ} t.buffer.used (length bytes) (λ e. ground (arith, used, e)) in
        rw (all, some_left) refl
  ]

  pub receive_data-IsStored :
      IsSupplier c.reader remaining
      → (bytes more : Bytes) (carrier : S) (s : Stream) (q : Bytes)
      → remaining carrier ≡ bytes ++ more
      → Holds s.receive_buffer q
      → length q + length bytes ≤ s.receive_buffer.size
      → (s.established ≡ true) × (s.remote_closed_write ≡ false) × (s.remote_closed ≡ false)
      → (length q ≡ 0 → s.receive_buffer_ready ≡ false)
      → IsStored s q bytes (receive_data c (length bytes) carrier s)
  unfolding receive_data
  receive_data-IsStored supplier bytes more carrier s q at held space (up, writable, here) quiet =
      let r =
        read_n_from-IsSupplied c.reader remaining c.is_eof supplier s.receive_buffer q carrier
          (length bytes) held (omega (arith, used-Holds s.receive_buffer q held))
          (omega (arith, ap length at, length-append bytes more)) in
      let same : r.bytes ≡ bytes =
        sym (take_at (length bytes) r.bytes (remaining r.transfer.stream) (sym r.counted))
        ∙ ap (take (length bytes)) (sym r.taken ∙ at)
        ∙ take-append bytes more in
      let used : r.transfer.buffer.used ≡ length q + length bytes = omega (
        arith,
        used-Holds r.transfer.buffer (q ++ r.bytes) r.held,
        length-append q r.bytes,
        r.counted,
      ) in
      record {
        buffer = r.transfer.buffer;
        carrier = r.transfer.stream;
        held = subst (λ xs. Holds r.transfer.buffer (q ++ xs)) same r.held;
        sized = r.sized;
        returned =
            receive_data-open (length bytes) carrier s up writable here
            ∙ ap (data_stored (length bytes) s) r.returned
            ∙ ap (data_read (length bytes) s r.transfer) r.succeeded
            ∙ data_read-ok s q bytes r.transfer used quiet;
      }
