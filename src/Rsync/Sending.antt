-- ===== src/Rsync/Sending.antt =====
-- About the closures `sendBlock` and `sendData` of `Deltify` in
-- pkg/synchronization/rsync/engine.go, with the transmitter of `DeltifyBytes`.
use mathlib.Core.Path.{subst}
use mutagen.Base.{
  add_u64, ℕ, zero, suc, Bytes, false, ◌&&◌, not, List, [], ◌∷◌, ◌++◌, ◌≡◌, refl, sym, ap, ap₂, ◌∙◌,
  arith, inl, inr, append-nil, append_assoc, Bool-cases, ltb, lt_of_ltb, le_of_ltb, is_empty,
  eq_nil_of_is_empty, length, take, drop, take-append-drop, length-take, length-drop, All,
  All-append, min, ==→eq, ◌==◌, nat_eq, ◌+◌, ◌*◌, ◌<◌, ◌≤◌, ◌^◌,
}
use mutagen.Rsync.{Operation}
use mutagen.Rsync.Blocks.{blocks, block, meanings, blocks-extend, meanings-snoc, take_filled}
use mutagen.Rsync.Patched.{IsWithin}
use mutagen.Rsync.Delta.{
  Outcome, returned, Sender, data_operation, block_operation, send_block, send_chunks, send_data,
  flush, append_operation,
}

module _ (k n size : ℕ) (base : Bytes) where
  -- What the operations that were sent and the pending blocks stand for.
  abbrev pub emitted : Sender (List Operation) → Bytes
  emitted s = meanings k base s.sink ++ blocks k base s.start s.count

  pub record Good (s : Sender (List Operation)) : Type 0 where
    pub within : All (IsWithin size n) s.sink
    pub pending : s.start + s.count ≤ n

  pub blocks-none : (i : ℕ) → blocks k base i 0 ≡ []
  blocks-none i =
      let none_taken : 0 * k ≡ 0 = omega arith in ap (λ m. take m (drop (i * k) base)) none_taken

  blocks-one : (i : ℕ) → blocks k base i 1 ≡ block k base i
  blocks-one i = let one : 1 * k ≡ k = omega arith in ap (λ m. take m (drop (i * k) base)) one

  -- The pending blocks as an operation.
  flushed :
      (s : Sender (List Operation))
      → Good s
      → 0 < s.count
      → All (IsWithin size n) (s.sink ++ (block_operation s.start s.count ∷ []))
        × (meanings k base (s.sink ++ (block_operation s.start s.count ∷ [])) ≡ emitted s)
  flushed s good waiting = (
    All-append (IsWithin size n) s.sink _ good.within (inr (refl, waiting, good.pending), tt),
    meanings-snoc k base s.sink (block_operation s.start s.count),
  )

  emitted_of_none : (s : Sender (List Operation)) → s.count ≡ 0 → emitted s ≡ meanings k base s.sink
  emitted_of_none s e =
      ap (λ c. meanings k base s.sink ++ blocks k base s.start c) e
      ∙ ap (λ bytes. meanings k base s.sink ++ bytes) (blocks-none s.start)
      ∙ append-nil (meanings k base s.sink)

  -- What one block more stands for, where it follows the pending ones.
  block_follows :
      (i : ℕ) (s : Sender (List Operation))
      → s.start + s.count ≡ i
      → emitted (record s { count = s.count + 1 }) ≡ emitted s ++ block k base i
  block_follows i s e =
      ap (λ bytes. meanings k base s.sink ++ bytes)
        (blocks-extend k base s.start s.count
          ∙ ap (λ j. blocks k base s.start s.count ++ block k base j) e)
      ∙ sym (append_assoc (meanings k base s.sink) (blocks k base s.start s.count) (block k base i))

  -- A block extends what was emitted by its bytes.
  pub send_block-Good :
      (i : ℕ) (s : Sender (List Operation))
      → n < 2 ^ 63
      → i < n
      → Good s
      → Good (send_block append_operation i s)
        × (emitted (send_block append_operation i s) ≡ emitted s ++ block k base i)
  unfolding send_block
  send_block-Good i s few h good =
      let total : add_u64 s.start s.count ≡ s.start + s.count = omega (arith, good.pending) in
      let more : add_u64 s.count 1 ≡ s.count + 1 = omega (arith, good.pending) in
      elim (Bool-cases (ltb 0 s.count)) [
        | inr nothing ↦ rw nothing (
          record { within = good.within; pending = omega arith },
          ap₂ ◌++◌ (sym (emitted_of_none s (omega (arith, le_of_ltb 0 s.count nothing))))
              (blocks-one i),
        )
        | inl waiting ↦ elim (Bool-cases (s.start + s.count == i)) [
          | inl follows ↦
              let here = ==→eq (s.start + s.count) i follows in
              rw (waiting, total, follows, more)
                (record { within = good.within; pending = omega arith }, block_follows i s here)
          | inr apart ↦
              let (within, sent) = flushed s good (lt_of_ltb 0 s.count waiting) in
              rw (waiting, total, apart)
                (record { within = within; pending = omega arith }, ap₂ ◌++◌ sent (blocks-one i))
        ]
      ]

  -- A call that returns a sender which has emitted some bytes more.
  abbrev pub Sends : Outcome (Sender (List Operation)) → Bytes → Type 0
  Sends o bytes = (s : Sender (List Operation)) × (o ≡ returned s) × Good s × (emitted s ≡ bytes)

  -- Data that is sent where no block is pending.
  with_data :
      (s : Sender (List Operation)) (bytes : Bytes)
      → is_empty bytes ≡ false
      → length bytes ≤ size
      → s.count ≡ 0
      → Good s
      → Good (record s { sink = s.sink ++ (data_operation bytes ∷ []) })
        × (emitted (record s { sink = s.sink ++ (data_operation bytes ∷ []) }) ≡ emitted s ++ bytes)
  with_data s bytes filled short e good = (
    record {
      within =
          All-append (IsWithin size n) s.sink _ good.within (inl (filled, short, refl, refl), tt);
      pending = good.pending;
    },
    emitted_of_none (record s { sink = s.sink ++ (data_operation bytes ∷ []) }) e
        ∙ meanings-snoc k base s.sink (data_operation bytes)
        ∙ ap₂ ◌++◌ (sym (emitted_of_none s e)) (rw filled refl),
  )

  send_chunks-Sends :
      (fuel : ℕ) (bytes : Bytes) (s : Sender (List Operation))
      → 0 < size
      → length bytes ≤ fuel
      → s.count ≡ 0
      → Good s
      → Sends (send_chunks append_operation fuel size bytes s) (emitted s ++ bytes)
  unfolding send_chunks
  send_chunks-Sends zero [] s p h e good = (s, refl, good, sym (append-nil (emitted s)))
  send_chunks-Sends zero (b ∷ bytes) s p h e good = absurd (omega arith)
  send_chunks-Sends (suc fuel) [] s p h e good = (s, refl, good, sym (append-nil (emitted s)))
  send_chunks-Sends (suc fuel) (b ∷ bytes) s p h e good =
      let m = min (length (b ∷ bytes)) size in
      let chunk = take m (b ∷ bytes) in
      let (good', sent) =
        with_data s chunk (take_filled m b bytes (omega arith))
          (omega (arith, length-take m (b ∷ bytes))) e good in
      let (s', run, good'', total) =
        send_chunks-Sends fuel (drop m (b ∷ bytes))
          (record s { sink = s.sink ++ (data_operation chunk ∷ []) }) p
          (omega (arith, length-drop m (b ∷ bytes))) e good' in
      (
        s',
        run,
        good'',
        total
            ∙ ap (λ bytes'. bytes' ++ drop m (b ∷ bytes)) sent
            ∙ append_assoc (emitted s) chunk (drop m (b ∷ bytes))
            ∙ ap (λ bytes'. emitted s ++ bytes') (take-append-drop m (b ∷ bytes)),
      )

  -- `sendData` emits its data.
  pub send_data-Sends :
      (bytes : Bytes) (s : Sender (List Operation))
      → 0 < size
      → Good s
      → Sends (send_data append_operation size bytes s) (emitted s ++ bytes)
  unfolding send_data
  send_data-Sends bytes s p good = elim (Bool-cases (not (is_empty bytes) && ltb 0 s.count)) [
    | inl waiting ↦
        let (within, sent) = flushed s good (lt_of_ltb 0 s.count (ground arith)) in
        let (s', run, good', total) =
          send_chunks-Sends (length bytes) bytes
            (record {
              sink = s.sink ++ (block_operation s.start s.count ∷ []);
              start = 0;
              count = 0;
            })
            p (omega arith) refl (record { within = within; pending = omega arith }) in
        (
          s',
          rw waiting run,
          good',
          total
              ∙ ap (λ bytes'. bytes' ++ bytes)
                  (emitted_of_none
                      (record {
                        sink = s.sink ++ (block_operation s.start s.count ∷ []);
                        start = 0;
                        count = 0;
                      })
                      refl
                    ∙ sent),
        )
    | inr ready ↦ rw ready (elim (Bool-cases (is_empty bytes)) [
      | inl none_left ↦
          subst
            (λ bytes'.
              Sends (send_chunks append_operation (length bytes') size bytes' s)
                (emitted s ++ bytes'))
            (sym (eq_nil_of_is_empty bytes none_left)) (s, refl, good, sym (append-nil (emitted s)))
      | inr some_left ↦ send_chunks-Sends (length bytes) bytes s p (omega arith) (ground arith) good
    ])
  ]

  -- The end of the function leaves no block pending.
  pub flush-Good :
      (s : Sender (List Operation))
      → Good s
      → (os : List Operation) × (flush append_operation s ≡ returned os)
        × All (IsWithin size n) os
        × (meanings k base os ≡ emitted s)
  unfolding flush
  flush-Good s good = elim (Bool-cases (ltb 0 s.count)) [
    | inl waiting ↦
        let (within, sent) = flushed s good (lt_of_ltb 0 s.count waiting) in
        (_, rw waiting refl, within, sent)
    | inr nothing ↦ (
      s.sink,
      rw nothing refl,
      good.within,
      sym (emitted_of_none s (omega (arith, le_of_ltb 0 s.count nothing))),
    )
  ]
