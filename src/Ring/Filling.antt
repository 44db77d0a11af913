-- ===== src/Ring/Filling.antt =====
-- About `ReadNFrom` of pkg/multiplexing/ring/buffer.go.
use mathlib.Core.Path.{subst}
use mutagen.Base.{
  ℕ, zero, suc, Bytes, Bool, true, false, ◌&&◌, not, Option, none, some, inl, inr, [], ◌++◌, ◌≡◌,
  refl, sym, arith, append_assoc, append-nil, ◌==◌, nat_eq, ltb, min, Bool-cases, length,
  length-append, ◌+◌, ◌-◌, ◌<◌, ◌≤◌,
}
use mutagen.Ring.{Buffer, put, free_length}
use mutagen.Ring.Layout.{Holds, Sized, Sized-of_Holds}
use mutagen.Ring.Write.{put-Holds, free_length_pos}
use mutagen.Ring.Streams.{
  Reading, no_space, Transfer, is_nil, final_failure, read_n_from, read_n_from_loop,
}

module _ {S E : Type 0} (reader : ℕ → S → Reading E × S) (is_eof : E → Bool) where
  -- Some calls of the reader, one after the other, return these bytes.
  pub data Draws : S → Bytes → S → Type 0 where
    nothing : (s : S) → Draws s [] s
    then_reads :
        (s : S) (k : ℕ) (bytes : Bytes) (s' : S)
        → Draws (reader k s).1 bytes s'
        → Draws s ((reader k s).0.bytes ++ bytes) s'

  -- What io.Reader documents: it returns no more than is asked for, and something or an error.
  abbrev pub IsReader : Type 0
  IsReader =
      (k : ℕ) (s : S)
      → (length (reader k s).0.bytes ≤ k)
        × (0 < k → (reader k s).0.failure ≡ none → 0 < length (reader k s).0.bytes)

  -- Bytes of the reader stand behind the queue, and no error means that all were read.
  pub record IsFilledBy (b : Buffer) (q : Bytes) (s : S) (n result : ℕ) (data_read : Bytes)
      (t : Transfer S E) : Type 0 where
    pub counted : t.count ≡ result + length data_read
    pub drawn : Draws s data_read t.stream
    pub held : Holds t.buffer (q ++ data_read)
    pub sized : t.buffer.size ≡ b.size
    pub bounded : length data_read ≤ n
    pub complete : t.failure ≡ none → length data_read ≡ n
    pub full : t.failure ≡ some no_space → t.buffer.used ≡ t.buffer.size

  abbrev pub Fills : Buffer → Bytes → S → ℕ → ℕ → Option (Transfer S E) → Type 0
  Fills b q s n result outcome =
      (t : Transfer S E) × (data_read : Bytes) × (outcome ≡ some t)
      × IsFilledBy b q s n result data_read t

  stop_complete :
      (b : Buffer) (n : ℕ) (err : Option E)
      → (ltb 0 n && not (b.used == b.size) && is_nil err) ≡ false
      → final_failure reader is_eof b n err ≡ none
      → 0 ≡ n
  unfolding final_failure
  stop_complete b n none e h = ground arith
  stop_complete b n (some x) e h = ground arith

  stop_full :
      (b : Buffer) (n : ℕ) (err : Option E)
      → final_failure reader is_eof b n err ≡ some no_space
      → b.used ≡ b.size
  unfolding final_failure
  stop_full b n none h = ground arith
  stop_full b n (some x) h = ground arith

  fill_stop :
      (b : Buffer) (q : Bytes) (s : S) (n result : ℕ) (err : Option E)
      → Holds b q
      → (ltb 0 n && not (b.used == b.size) && is_nil err) ≡ false
      → Fills b q s n result (
          some (record {
            count = result;
            failure = final_failure reader is_eof b n err;
            buffer = b;
            stream = s;
          }))
  unfolding final_failure
  fill_stop b q s n result err held e = (
    _,
    [],
    refl,
    record {
      counted = omega arith;
      drawn = nothing s;
      held = subst (λ xs. Holds b xs) (sym (append-nil q)) held;
      sized = refl;
      bounded = omega arith;
      complete = stop_complete b n err e;
      full = stop_full b n err;
    },
  )

  fill_round :
      (b : Buffer) (q : Bytes) (s : S) (n result k : ℕ) (outcome : Option (Transfer S E))
      → length (reader k s).0.bytes ≤ n
      → Fills
          (put b (reader k s).0.bytes)
          (q ++ (reader k s).0.bytes)
          (reader k s).1
          (n - length (reader k s).0.bytes)
          (result + length (reader k s).0.bytes)
          outcome
      → Fills b q s n result outcome
  unfolding put
  fill_round b q s n result k outcome few (t, data_read, e, f) =
      let bytes = (reader k s).0.bytes in
      (
        t,
        bytes ++ data_read,
        e,
        record {
          counted = omega (arith, f.counted, length-append bytes data_read);
          drawn = then_reads s k data_read t.stream f.drawn;
          held = subst (λ xs. Holds t.buffer xs) (append_assoc q bytes data_read) f.held;
          sized = f.sized;
          bounded = omega (arith, f.bounded, length-append bytes data_read);
          complete = λ h. omega (arith, f.complete h, length-append bytes data_read);
          full = f.full;
        },
      )

  fill_loop :
      IsReader
      → (fuel : ℕ) (b : Buffer) (q : Bytes) (s : S) (n result : ℕ) (err : Option E) → Holds b q
      → 0 < fuel
      → (err ≡ none → n < fuel)
      → Fills b q s n result (read_n_from_loop reader is_eof fuel b s n result err)
  unfolding read_n_from_loop
  fill_loop reads zero b q s n result err held some_fuel enough = absurd (omega arith)
  fill_loop reads (suc fuel) b q s n result err held some_fuel enough =
      elim (Bool-cases (ltb 0 n && not (b.used == b.size) && is_nil err)) [
        | inl more ↦
            let k = min (free_length b) n in
            let (some_wanted, lt, quiet) = going b n err (Sized-of_Holds b q held) more in
            let (few, progress) = reads k s in
            rw more (
              fill_round b q s n result k _ (omega (arith, few)) (
                fill_loop reads fuel (put b (reader k s).0.bytes) (q ++ (reader k s).0.bytes)
                  (reader k s).1 (n - length (reader k s).0.bytes)
                  (result + length (reader k s).0.bytes) (reader k s).0.failure
                  (put-Holds b q (reader k s).0.bytes held lt (omega (arith, few)))
                  (omega (arith, enough quiet, some_wanted))
                  (λ silent. omega (
                    arith,
                    enough quiet,
                    few,
                    progress (omega (arith, some_wanted, free_length_pos b lt)) silent,
                  ))))
        | inr done ↦ rw done (fill_stop b q s n result err held done)
      ]
    where
      going :
          (b : Buffer) (n : ℕ) (err : Option E)
          → Sized b
          → (ltb 0 n && not (b.used == b.size) && is_nil err) ≡ true
          → (0 < n) × (b.used < b.size) × (err ≡ none)
      going b n none s h = (ground arith, ground (arith, s.fits), refl)
      going b n (some e) s h = absurd (ground arith)

-- ReadNFrom with a reader that returns no more than is asked for, and something or an error, returns
-- for a buffer that holds a queue: the bytes that it counts come from the reader, one call after the
-- other, and stand behind the queue; they are at most the number asked for, and exactly that number
-- where there is no error; and a lack of space is reported only for a full buffer.
pub read_n_from-Fills :
    {S E : Type 0} (reader : ℕ → S → Reading E × S) (is_eof : E → Bool) (b : Buffer) (q : Bytes)
    (s : S) (n : ℕ)
    → IsReader reader is_eof
    → Holds b q
    → Fills reader is_eof b q s n 0 (read_n_from reader is_eof b s n)
unfolding read_n_from
read_n_from-Fills reader is_eof b q s n reads held =
    fill_loop reader is_eof reads (suc n) b q s n 0 none held (omega arith) (λ e. omega arith)
