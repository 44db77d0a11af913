-- ===== src/Ring/Draining.antt =====
-- About `WriteTo` of pkg/multiplexing/ring/buffer.go.
use mathlib.Core.Path.{subst}
use mutagen.Base.{
  ℕ, zero, suc, Bytes, true, false, ◌&&◌, Option, none, some, inl, inr, [], ◌++◌, ◌≡◌, refl, sym,
  ap, ◌∙◌, arith, ltb, Bool-cases, length, length-drop, take, drop, take_add, drop-drop, ◌+◌, ◌<◌,
  ◌≤◌,
}
use mutagen.Ring.{Buffer, advance, data_segment, reset_drained}
use mutagen.Ring.Layout.{Holds, used-Holds}
use mutagen.Ring.Advance.{advance-Holds}
use mutagen.Ring.Read.{reset_drained-Holds, size-reset_drained}
use mutagen.Ring.Streams.{Writing, Transfer, is_nil, stream_failure, write_to, write_to_loop}

module _ {S E : Type 0} (writer : Bytes → S → Writing E × S) where
  -- Some calls of the writer, one after the other, accept these bytes.
  pub data Delivers : S → Bytes → S → Type 0 where
    nothing : (s : S) → Delivers s [] s
    then_writes :
        (s : S) (segment bytes : Bytes) (s' : S)
        → Delivers (writer segment s).1 bytes s'
        → Delivers s (take (writer segment s).0.written segment ++ bytes) s'

  -- What io.Writer documents: it accepts no more than it is given, and all of it or an error.
  abbrev pub IsWriter : Type 0
  IsWriter =
      (bytes : Bytes) (s : S)
      → ((writer bytes s).0.written ≤ length bytes)
        × ((writer bytes s).0.failure ≡ none → (writer bytes s).0.written ≡ length bytes)

  -- The writer accepted a part of the queue from its front, and the buffer holds the rest; no error
  -- means that the part is the whole queue.
  pub record IsDrainedTo (b : Buffer) (q : Bytes) (s : S) (result sent : ℕ) (t : Transfer S E)
      : Type 0 where
    pub counted : t.count ≡ result + sent
    pub delivered : Delivers s (take sent q) t.stream
    pub held : Holds t.buffer (drop sent q)
    pub sized : t.buffer.size ≡ b.size
    pub bounded : sent ≤ length q
    pub complete : t.failure ≡ none → sent ≡ length q

  abbrev pub Drains : Buffer → Bytes → S → ℕ → Option (Transfer S E) → Type 0
  Drains b q s result outcome =
      (t : Transfer S E) × (sent : ℕ) × (outcome ≡ some t) × IsDrainedTo b q s result sent t

  drain_complete :
      (used : ℕ) (err : Option E)
      → (ltb 0 used && is_nil err) ≡ false
      → stream_failure err ≡ none
      → 0 ≡ used
  drain_complete used none e h = ground arith
  drain_complete used (some x) e h = ground arith

  drain_going :
      (used : ℕ) (err : Option E) → (ltb 0 used && is_nil err) ≡ true → (0 < used) × (err ≡ none)
  drain_going used none h = (ground arith, refl)
  drain_going used (some x) h = absurd (ground arith)

  drain_stop :
      (b : Buffer) (q : Bytes) (s : S) (result : ℕ) (err : Option E)
      → Holds b q
      → (ltb 0 b.used && is_nil err) ≡ false
      → Drains b q s result (
          some (record {
            count = result;
            failure = stream_failure err;
            buffer = reset_drained b;
            stream = s;
          }))
  drain_stop b q s result err held e = (
    _,
    0,
    refl,
    record {
      counted = omega arith;
      delivered = nothing s;
      held = reset_drained-Holds b q held;
      sized = size-reset_drained b;
      bounded = omega arith;
      complete = λ h. omega (arith, drain_complete b.used err e h, used-Holds b q held);
    },
  )

  drain_round :
      (b : Buffer) (q : Bytes) (s : S) (result : ℕ) (segment : Bytes)
      (outcome : Option (Transfer S E))
      → let sent = (writer segment s).0.written in
        sent ≤ length q
        → take sent segment ≡ take sent q
        → Drains (advance b sent) (drop sent q) (writer segment s).1 (result + sent) outcome
        → Drains b q s result outcome
  unfolding advance
  drain_round b q s result segment outcome few same (t, more, e, d) =
      let sent = (writer segment s).0.written in
      (
        t,
        sent + more,
        e,
        record {
          counted = omega (arith, d.counted);
          delivered =
              subst (λ xs. Delivers s xs t.stream)
                (ap (λ xs. xs ++ take more (drop sent q)) same ∙ sym (take_add sent more q))
                (then_writes s segment (take more (drop sent q)) t.stream d.delivered);
          held = subst (λ xs. Holds t.buffer xs) (drop-drop more sent q) d.held;
          sized = d.sized;
          bounded = omega (arith, d.bounded, length-drop sent q);
          complete = λ h. omega (arith, d.complete h, length-drop sent q);
        },
      )

  drain_loop :
      IsWriter
      → (fuel : ℕ) (b : Buffer) (q : Bytes) (s : S) (result : ℕ) (err : Option E) → Holds b q
      → 0 < fuel
      → (err ≡ none → b.used < fuel)
      → Drains b q s result (write_to_loop writer fuel b s result err)
  unfolding write_to_loop advance
  drain_loop writes zero b q s result err held some_fuel enough = absurd (omega arith)
  drain_loop writes (suc fuel) b q s result err held some_fuel enough =
      elim (Bool-cases (ltb 0 b.used && is_nil err)) [
        | inl more ↦
            let (some_used, quiet) = drain_going b.used err more in
            let sent = (writer (data_segment b) s).0.written in
            let (few, all) = writes (data_segment b) s in
            let (same, some_segment, short, held') = advance-Holds b q sent held some_used few in
            rw more (
              drain_round b q s result (data_segment b) _ (omega (arith, few, short)) same (
                drain_loop writes fuel (advance b sent) (drop sent q) (writer (data_segment b) s).1
                  (result + sent) (writer (data_segment b) s).0.failure held'
                  (omega (arith, enough quiet, some_used))
                  (λ silent. omega (arith, enough quiet, some_used, some_segment, all silent))))
        | inr done ↦ rw done (drain_stop b q s result err held done)
      ]

-- WriteTo with a writer that accepts no more than it is given, and all of it or an error, returns
-- for a buffer that holds a queue: the writer accepted as many bytes from the front of the queue, in
-- order, as are counted, the buffer holds the rest, and without an error nothing is left.
pub write_to-Drains :
    {S E : Type 0} (writer : Bytes → S → Writing E × S) (b : Buffer) (q : Bytes) (s : S)
    → IsWriter writer
    → Holds b q
    → Drains writer b q s 0 (write_to writer b s)
unfolding write_to
write_to-Drains writer b q s writes held =
    drain_loop writer writes (suc b.used) b q s 0 none held (omega arith) (λ e. omega arith)
