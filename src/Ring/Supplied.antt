-- ===== src/Ring/Supplied.antt =====
-- About `ReadNFrom` of pkg/multiplexing/ring/buffer.go where the reader has the bytes and the buffer
-- the space.
use mathlib.Core.Path.{subst}
use mutagen.Base.{
  ℕ, zero, suc, Bytes, Bool, true, false, ◌&&◌, not, Option, none, some, inl, inr, [], ◌++◌, ◌≡◌,
  refl, sym, ap, ◌∙◌, arith, append_assoc, append-nil, ◌==◌, nat_eq, ltb, min, Bool-cases, length,
  length-append, ◌+◌, ◌-◌, ◌<◌, ◌≤◌,
}
use mutagen.Ring.{Buffer, put, free_length}
use mutagen.Ring.Layout.{Holds}
use mutagen.Ring.Write.{put-Holds, free_length_pos}
use mutagen.Ring.Streams.{Reading, Transfer, is_nil, final_failure, read_n_from, read_n_from_loop}

module _ {S E : Type 0} (reader : ℕ → S → Reading E × S) (remaining : S → Bytes) where
  -- The reader takes bytes off the front of what remains, and gives no error before the end.
  pub record IsSupplier : Type 0 where
    pub few : (k : ℕ) (s : S) → length (reader k s).0.bytes ≤ k
    pub parts : (k : ℕ) (s : S) → remaining s ≡ (reader k s).0.bytes ++ remaining (reader k s).1
    pub quiet :
        (k : ℕ) (s : S)
        → 0 < k
        → 0 < length (remaining s)
        → ((reader k s).0.failure ≡ none) × (0 < length (reader k s).0.bytes)

  module _ (is_eof : E → Bool) where
    -- All the bytes that were asked for are stored behind the queue.
    pub record IsSupplied (b : Buffer) (q : Bytes) (s : S) (n : ℕ) (outcome : Option (Transfer S E))
        : Type 0 where
      pub transfer : Transfer S E
      pub bytes : Bytes
      pub returned : outcome ≡ some transfer
      pub succeeded : transfer.failure ≡ none
      pub held : Holds transfer.buffer (q ++ bytes)
      pub sized : transfer.buffer.size ≡ b.size
      pub taken : remaining s ≡ bytes ++ remaining transfer.stream
      pub counted : length bytes ≡ n

    supply_stop :
        (b : Buffer) (q : Bytes) (s : S) (n result : ℕ)
        → Holds b q
        → n ≡ 0
        → IsSupplied b q s n (
            some (record {
              count = result;
              failure = final_failure reader is_eof b n none;
              buffer = b;
              stream = s;
            }))
    unfolding final_failure
    supply_stop b q s n result held e = record {
      transfer = _;
      bytes = [];
      returned = refl;
      succeeded = ground (arith, e);
      held = subst (λ xs. Holds b xs) (sym (append-nil q)) held;
      sized = refl;
      taken = refl;
      counted = sym e;
    }

    supply_round :
        (b : Buffer) (q : Bytes) (s : S) (n k : ℕ) (outcome : Option (Transfer S E))
        → IsSupplier
        → length (reader k s).0.bytes ≤ n
        → IsSupplied
            (put b (reader k s).0.bytes)
            (q ++ (reader k s).0.bytes)
            (reader k s).1
            (n - length (reader k s).0.bytes)
            outcome
        → IsSupplied b q s n outcome
    unfolding put
    supply_round b q s n k outcome supplier few f =
        let bytes = (reader k s).0.bytes in
        record {
          transfer = f.transfer;
          bytes = bytes ++ f.bytes;
          returned = f.returned;
          succeeded = f.succeeded;
          held = subst (λ xs. Holds f.transfer.buffer xs) (append_assoc q bytes f.bytes) f.held;
          sized = f.sized;
          taken =
              supplier.parts k s
              ∙ ap (λ xs. bytes ++ xs) f.taken
              ∙ sym (append_assoc bytes f.bytes (remaining f.transfer.stream));
          counted = omega (arith, f.counted, length-append bytes f.bytes);
        }

    supply_loop :
        IsSupplier
        → (fuel : ℕ) (b : Buffer) (q : Bytes) (s : S) (n result : ℕ) (err : Option E) → Holds b q
        → n < fuel
        → b.used + n ≤ b.size
        → n ≤ length (remaining s)
        → err ≡ none
        → IsSupplied b q s n (read_n_from_loop reader is_eof fuel b s n result err)
    unfolding read_n_from_loop put
    supply_loop supplier zero b q s n result err held enough space there silent =
        absurd (omega arith)
    supply_loop supplier (suc fuel) b q s n result (some x) held enough space there silent =
        absurd (ground arith)
    supply_loop supplier (suc fuel) b q s n result none held enough space there silent =
        elim (Bool-cases (ltb 0 n && not (b.used == b.size))) [
          | inl more ↦ rw (going n more) (
              let k = min (free_length b) n in
              let bytes = (reader k s).0.bytes in
              let lt : b.used < b.size = ground arith in
              let wanted : 0 < n = ground arith in
              let few : length bytes ≤ k = supplier.few k s in
              let (ok, progress) =
                supplier.quiet k s (omega (arith, free_length_pos b lt)) (omega arith) in
              supply_round b q s n k _ supplier (omega (arith, few)) (
                supply_loop supplier fuel (put b bytes) (q ++ bytes) (reader k s).1
                  (n - length bytes) (result + length bytes) (reader k s).0.failure
                  (put-Holds b q bytes held lt (omega (arith, few))) (omega arith)
                  (omega (arith, few))
                  (omega (
                    arith,
                    ap length (supplier.parts k s),
                    length-append bytes (remaining (reader k s).1),
                  ))
                  ok))
          | inr done ↦ rw (stopping n done) (supply_stop b q s n result held (ground arith))
        ]
      where
        going :
            (n : ℕ)
            → (ltb 0 n && not (b.used == b.size)) ≡ true
            → (ltb 0 n && not (b.used == b.size) && is_nil {A = E} none) ≡ true
        going n h = ground arith

        stopping :
            (n : ℕ)
            → (ltb 0 n && not (b.used == b.size)) ≡ false
            → (ltb 0 n && not (b.used == b.size) && is_nil {A = E} none) ≡ false
        stopping n h = ground arith

    -- ReadNFrom for a buffer that holds a queue and has the space, from a reader that has the bytes.
    pub read_n_from-IsSupplied :
        IsSupplier
        → (b : Buffer) (q : Bytes) (s : S) (n : ℕ) → Holds b q
        → b.used + n ≤ b.size
        → n ≤ length (remaining s)
        → IsSupplied b q s n (read_n_from reader is_eof b s n)
    unfolding read_n_from
    read_n_from-IsSupplied supplier b q s n held space there =
        supply_loop supplier (suc n) b q s n 0 none held (omega arith) space there refl
