-- ===== src/Rsync/Roundtrip.antt =====
-- About deltas and patches of pkg/synchronization/rsync/engine.go together.
use mutagen.Base.{
  ℕ, zero, suc, Bytes, none, some, List, [], ◌∷◌, ◌++◌, ◌≡◌, refl, sym, ap, ◌∙◌, arith, inl, inr,
  append-nil, append_assoc, Bool-cases, ltb, lt_of_ltb, length, take, drop, take-append-drop,
  length-take, length-drop, All, All-append, All-map, nat_eq, ◌<◌, ◌≤◌, ◌^◌,
}
use mutagen.Rsync.{Signature, Operation, ensure_valid_operation}
use mutagen.Rsync.Signing.{bytes_signature}
use mutagen.Rsync.Blocks.{meanings, meanings-snoc, take_filled, bytes_signature-Signs}
use mutagen.Rsync.Patching.{patch_bytes}
use mutagen.Rsync.Patched.{
  IsWithin, few_blocks, ensure_valid_operation-IsWithin, patch_bytes-data, patch_bytes-meanings,
}
use mutagen.Rsync.Sending.{blocks-none}
use mutagen.Rsync.Deltified.{search-Ends}
use mutagen.Rsync.Found.{CollisionFree}
use mutagen.Rsync.Delta.{
  returned, data_operation, append_operation, chunk_and_transmit_all, maximum_size, deltify,
  deltify_bytes, Search,
}

-- `chunkAndTransmitAll` transmits the target.
chunk-Ends :
    (k n fuel size : ℕ) (base target : Bytes) (sink : List Operation)
    → 0 < size
    → length target < fuel
    → All (IsWithin size n) sink
    → (os : List Operation) × (chunk_and_transmit_all append_operation fuel size target sink
        ≡ returned os)
      × All (IsWithin size n) os
      × (meanings k base os ≡ meanings k base sink ++ target)
unfolding chunk_and_transmit_all
chunk-Ends k n zero size base target sink p h w = absurd (omega arith)
chunk-Ends k n (suc fuel) size base [] sink p h w =
    (sink, refl, w, sym (append-nil (meanings k base sink)))
chunk-Ends k n (suc fuel) size base (b ∷ target) sink p h w =
    elim (Bool-cases (ltb (length (b ∷ target)) size)) [
      | inl short ↦ rw short (
        _,
        refl,
        All-append (IsWithin size n) sink _ w
            (inl (refl, omega (arith, lt_of_ltb (length (b ∷ target)) size short), refl, refl), tt),
        meanings-snoc k base sink (data_operation (b ∷ target)),
      )
      | inr long ↦
          let filled = take_filled size b target p in
          let (os, run, within, total) =
            chunk-Ends k n fuel size base (drop size (b ∷ target))
              (sink ++ (data_operation (take size (b ∷ target)) ∷ [])) p
              (omega (arith, length-drop size (b ∷ target)))
              (All-append (IsWithin size n) sink _ w
                (inl (filled, omega (arith, length-take size (b ∷ target)), refl, refl), tt)) in
          rw long (
            os,
            run,
            within,
            total
                ∙ ap (λ x. x ++ drop size (b ∷ target))
                    (meanings-snoc k base sink (data_operation (take size (b ∷ target)))
                      ∙ ap (λ x. meanings k base sink ++ x) (rw filled refl))
                ∙ append_assoc (meanings k base sink) (take size (b ∷ target))
                    (drop size (b ∷ target))
                ∙ ap (λ x. meanings k base sink ++ x) (take-append-drop size (b ∷ target)),
          )
    ]

maximum_size-pos : (size : ℕ) → 0 < maximum_size size
maximum_size-pos size = ground arith

module _ (strong_hash : Bytes → Bytes) (root : ℕ → ℕ) (base target : Bytes)
    (block_size size : ℕ) where
  abbrev signature : Signature
  signature = bytes_signature strong_hash root base block_size

  abbrev start : Search (List Operation)
  start = record {
    target = target;
    buffer = [];
    r1 = 0;
    r2 = 0;
    sender = record { sink = []; start = 0; count = 0 };
  }

  sound :
      (n : ℕ) (o : Operation)
      → IsWithin (maximum_size size) n o
      → (ensure_valid_operation o ≡ none) × (length o.bytes ≤ maximum_size size)
  sound n o (inl h) = (ensure_valid_operation-IsWithin (maximum_size size) n o (inl h), h.1)
  sound n o (inr h) =
      (ensure_valid_operation-IsWithin (maximum_size size) n o (inr h), ground arith)

  -- If the base is shorter than 2^63 bytes and no part of the target has the strong hash of a
  -- different block of the base, then DeltifyBytes against the base's signature returns operations,
  -- each of them valid and with no more data than the maximum size, and PatchBytes with these operations returns the target.
  pub patch_bytes-deltify_bytes :
      length base < 2 ^ 63
      → CollisionFree strong_hash signature.block_size base target
      → (os : List Operation) × (deltify_bytes strong_hash target signature size ≡ returned os)
        × All (λ o. (ensure_valid_operation o ≡ none) × (length o.bytes ≤ maximum_size size)) os
        × (patch_bytes base signature os ≡ some target)
  unfolding deltify
  patch_bytes-deltify_bytes small free =
      elim (bytes_signature-Signs strong_hash root base block_size) [
        | inl none_there ↦
            let (os, run, within, total) =
              chunk-Ends signature.block_size 0 (suc (length target)) (maximum_size size) base
                target [] (maximum_size-pos size) (omega arith) tt in
            (
              os,
              rw (deltify, none_there) run,
              All-map (IsWithin (maximum_size size) 0) _ os (sound 0) within,
              patch_bytes-data signature.block_size (maximum_size size) base signature os within
                  ∙ ap some total,
            )
        | inr (some_there, signs) ↦
            let few = few_blocks strong_hash base signature signs small in
            let (os, run, within, total) =
              search-Ends strong_hash base signature (maximum_size size) target signs few free
                (maximum_size-pos size) (suc (length target)) start (omega arith)
                (record {
                  good = record { within = tt; pending = omega arith };
                  whole =
                      ap (λ b. b ++ target)
                        (blocks-none signature.block_size (length signature.hashes)
                          (maximum_size size) base 0);
                  block_held = inl refl;
                }) in
            (
              os,
              rw (deltify, some_there) run,
              All-map (IsWithin (maximum_size size) (length signature.hashes)) _ os
                  (sound (length signature.hashes)) within,
              patch_bytes-meanings strong_hash base signature signs small (maximum_size size) os
                    within
                  ∙ ap some total,
            )
      ]
