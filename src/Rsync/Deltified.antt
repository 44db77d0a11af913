-- ===== src/Rsync/Deltified.antt =====
-- About the search loop of `Deltify` in pkg/synchronization/rsync/engine.go.
use mutagen.Base.{
  add_u64, ℕ, zero, suc, Bytes, true, false, ◌&&◌, not, Option-cases, List, [], ◌∷◌, ◌++◌, ◌≡◌,
  refl, sym, ap, ap₂, ◌∙◌, arith, inl, inr, ◌⊎◌, append-nil, append_assoc, Bool-cases, ltb,
  le_of_ltb, is_empty, eq_nil_of_is_empty, length, length-append, take, drop, take-append-drop,
  length-take, length-drop, All, ◌==◌, nat_eq, bytes_eq, ◌-◌, ◌<◌, ◌≤◌, ◌^◌,
}
use mutagen.Rsync.{Signature, Operation}
use mutagen.Rsync.WeakHash.{Weak, weak_hash, roll_weak_hash}
use mutagen.Rsync.Blocks.{meanings, Signs}
use mutagen.Rsync.Patched.{IsWithin}
use mutagen.Rsync.Sending.{emitted, Good, send_block-Good, send_data-Sends, flush-Good}
use mutagen.Rsync.Delta.{
  Outcome, returned, Sender, Search, Round, next, leave, send_block, append_operation,
  potentials_from, first_potential, full_hashes, examine, round, last_block_matches,
  ends_with_last_block, finish, search,
}
use mutagen.Rsync.Found.{
  CollisionFree, first_potential-has_strong, get_elem?_of_lt, second, found-block, found-last,
}

module _ (strong_hash : Bytes → Bytes) (base : Bytes) (signature : Signature) (size : ℕ)
    (goal : Bytes)
    (signs : Signs strong_hash signature.block_size base signature.hashes signature.last_block_size)
    (few : length signature.hashes < 2 ^ 63)
    (free : CollisionFree strong_hash signature.block_size base goal) (roomy : 0 < size) where
  abbrev pub sent : Sender (List Operation) → Bytes
  sent = emitted signature.block_size (length signature.hashes) size base

  abbrev pub IsGood : Sender (List Operation) → Type 0
  IsGood = Good signature.block_size (length signature.hashes) size base

  -- What was sent, the buffer and the rest of the target are the target, and the buffer is empty
  -- or holds a block at least.
  pub record Going (s : Search (List Operation)) : Type 0 where
    pub good : IsGood s.sender
    pub whole : sent s.sender ++ (s.buffer ++ s.target) ≡ goal
    pub block_held : (is_empty s.buffer ≡ true) ⊎ (signature.block_size ≤ length s.buffer)

  abbrev Goes : Round (List Operation) → Bytes → Type 0
  Goes r target = (s : Search (List Operation)) × (r ≡ next s) × Going s × (s.target ≡ target)

  parts :
      (s : Bytes) (m : ℕ) (buffer target : Bytes)
      → s ++ (buffer ++ target) ≡ (s ++ take m buffer) ++ (drop m buffer ++ target)
  parts s m buffer target =
      ap (λ b. s ++ (b ++ target)) (sym (take-append-drop m buffer))
      ∙ ap (λ b. s ++ b) (append_assoc (take m buffer) (drop m buffer) target)
      ∙ sym (append_assoc s (take m buffer) (drop m buffer ++ target))

  examine-Goes :
      (target buffer : Bytes) (weak : Weak) (sender : Sender (List Operation))
      → IsGood sender
      → sent sender ++ (buffer ++ target) ≡ goal
      → signature.block_size ≤ length buffer
      → Goes (examine append_operation strong_hash signature size target buffer weak sender) target
  unfolding examine
  examine-Goes target buffer weak sender good whole held =
      let m = length buffer - signature.block_size in
      let (s, run, good', now) =
        send_data-Sends signature.block_size (length signature.hashes) size base (take m buffer)
          sender roomy good in
      let whole' = sym (parts (sent sender) m buffer target) ∙ whole in
      elim (Option-cases (
        first_potential signature.hashes (potentials_from 0 (full_hashes signature) weak.hash)
          (strong_hash (drop m buffer)))) [
            | inl nothing ↦ elim (Bool-cases (length buffer == add_u64 size signature.block_size)) [
              | inl full ↦
                  rw (examine, nothing, full, run)
                    (
                      _,
                      refl,
                      record {
                        good = good';
                        whole = ap (λ b. b ++ (drop m buffer ++ target)) now ∙ whole';
                        block_held = inr (omega (arith, length-drop m buffer));
                      },
                      refl,
                    )
              | inr space ↦
                  rw (examine, nothing, space)
                    (_, refl, record { good = good; whole = whole; block_held = inr held }, refl)
            ]
            | inr (p, found) ↦
                let (inside, same) =
                  found-block strong_hash base signature size goal signs free p
                    (sent sender ++ take m buffer) (drop m buffer) target whole'
                    (first_potential-has_strong signature.hashes _ (strong_hash (drop m buffer)) p
                      found) in
                let (good'', then_now) =
                  send_block-Good signature.block_size (length signature.hashes) size base p s few
                    inside good' in
                rw (examine, found, run)
                  (
                    _,
                    refl,
                    record {
                      good = good'';
                      whole =
                          ap (λ b. b ++ target) (then_now ∙ ap₂ ◌++◌ now (sym same))
                          ∙ append_assoc (sent sender ++ take m buffer) (drop m buffer) target
                          ∙ whole';
                      block_held = inl refl;
                    },
                    refl,
                  )
          ]

  -- A round goes on with less of the target, or leaves the loop with the rest in the buffer.
  abbrev Rounds : Search (List Operation) → Round (List Operation) → Type 0
  Rounds s r =
      ((s' : Search (List Operation)) × (r ≡ next s')
        × Going s'
        × (length s'.target < length s.target))
      ⊎ ((buffer : Bytes) × (sender : Sender (List Operation)) × (r ≡ leave buffer sender)
          × IsGood sender
          × (sent sender ++ buffer ≡ goal))

  shorter :
      (s : Search (List Operation)) (r : Round (List Operation)) (target : Bytes)
      → Goes r target
      → length target < length s.target
      → Rounds s r
  shorter s r target (s', run, going, e) h = inl (s', run, going, omega (arith, ap length e))

  held-Rounds :
      (target buffer : Bytes) (r1 r2 : ℕ) (sender : Sender (List Operation))
      → let s : Search (List Operation) = record {
        target = target;
        buffer = buffer;
        r1 = r1;
        r2 = r2;
        sender = sender;
      } in
        Going s
        → is_empty buffer ≡ false
        → signature.block_size ≤ length buffer
        → Rounds s (round append_operation strong_hash signature size s)
  unfolding round
  held-Rounds [] buffer r1 r2 sender going held enough =
      let full : ltb (length buffer) signature.block_size ≡ false = ground arith in
      rw (held, full)
        (inr (
          buffer,
          sender,
          refl,
          going.good,
          ap (λ b. sent sender ++ b) (sym (append-nil buffer)) ∙ going.whole,
        ))
  held-Rounds (b ∷ rest) buffer r1 r2 sender going held enough =
      let full : ltb (length buffer) signature.block_size ≡ false = ground arith in
      let (out, there) =
        get_elem?_of_lt buffer (length buffer - signature.block_size)
          (omega (arith, signs.positive, signs.small)) in
      rw (held, full, there)
        (shorter (record { target = b ∷ rest; buffer = buffer; r1 = r1; r2 = r2; sender = sender })
          _ rest
          (examine-Goes rest (buffer ++ (b ∷ [])) (roll_weak_hash r1 r2 out b signature.block_size)
            sender going.good
            (ap (λ x. sent sender ++ x) (append_assoc buffer (b ∷ []) rest) ∙ going.whole)
            (omega (arith, length-append buffer (b ∷ []))))
          (omega arith))

  round-Rounds :
      (s : Search (List Operation))
      → Going s
      → Rounds s (round append_operation strong_hash signature size s)
  unfolding round
  round-Rounds s going = elim (Bool-cases (is_empty s.buffer)) [
    | inl none_held ↦
        let empty = eq_nil_of_is_empty s.buffer none_held in
        let whole : sent s.sender ++ s.target ≡ goal =
          ap (λ b. sent s.sender ++ (b ++ s.target)) (sym empty) ∙ going.whole in
        elim (Bool-cases (ltb (length s.target) signature.block_size)) [
          | inl short ↦ inr (s.target, s.sender, rw (none_held, short) refl, going.good, whole)
          | inr long ↦
              let k = signature.block_size in
              let enough = le_of_ltb (length s.target) k long in
              rw (none_held, long)
                (shorter s _ (drop k s.target)
                  (examine-Goes (drop k s.target) (take k s.target) (weak_hash (take k s.target) k)
                    s.sender going.good
                    (ap (λ b. sent s.sender ++ b) (take-append-drop k s.target) ∙ whole)
                    (omega (arith, length-take k s.target)))
                  (omega (arith, length-drop k s.target, signs.positive, signs.small)))
        ]
    | inr held ↦
        held-Rounds s.target s.buffer s.r1 s.r2 s.sender going held (elim going.block_held [
          | inl none_held ↦ absurd (cc (held, none_held))
          | inr enough ↦ enough
        ])
  ]

  -- The end of `Deltify`, with the rest of the target in the buffer.
  abbrev pub Ends : Outcome (List Operation) → Type 0
  Ends o =
      (os : List Operation) × (o ≡ returned os)
      × All (IsWithin size (length signature.hashes)) os
      × (meanings signature.block_size base os ≡ goal)

  finish-Ends :
      (buffer : Bytes) (sender : Sender (List Operation))
      → IsGood sender
      → sent sender ++ buffer ≡ goal
      → Ends (finish append_operation strong_hash signature size buffer sender)
  unfolding finish
  finish-Ends buffer sender good whole =
      elim (Bool-cases (ends_with_last_block append_operation strong_hash signature size buffer)) [
        | inl short ↦
            let m = length buffer - signature.last_block_size in
            let (s, run, good', now) =
              send_data-Sends signature.block_size (length signature.hashes) size base
                (take m buffer) sender roomy good in
            let whole' : (sent sender ++ take m buffer) ++ (drop m buffer ++ []) ≡ goal =
              ap (λ b. (sent sender ++ take m buffer) ++ b) (append-nil (drop m buffer))
              ∙ append_assoc (sent sender) (take m buffer) (drop m buffer)
              ∙ ap (λ b. sent sender ++ b) (take-append-drop m buffer)
              ∙ whole in
            let (inside, same) =
              found-last strong_hash base signature size goal signs free
                (sent sender ++ take m buffer) (drop m buffer) [] whole'
                (second
                  (not (signature.last_block_size == signature.block_size)
                    && not (ltb (length buffer) signature.last_block_size))
                  (last_block_matches append_operation strong_hash signature size (drop m buffer))
                  short) in
            let (good'', then_now) =
              send_block-Good signature.block_size (length signature.hashes) size base
                (length signature.hashes - 1) s few inside good' in
            let (s'', run', good''', later) =
              send_data-Sends signature.block_size (length signature.hashes) size base []
                (send_block append_operation (length signature.hashes - 1) s) roomy good'' in
            let (os, done, within, total) =
              flush-Good signature.block_size (length signature.hashes) size base s'' good''' in
            (
              os,
              rw (finish, short, run, run') done,
              within,
              total
                  ∙ later
                  ∙ append-nil (sent (send_block append_operation (length signature.hashes - 1) s))
                  ∙ then_now
                  ∙ ap₂ ◌++◌ now (sym same)
                  ∙ ap (λ b. (sent sender ++ take m buffer) ++ b) (sym (append-nil (drop m buffer)))
                  ∙ whole',
            )
        | inr plain ↦
            let (s, run, good', now) =
              send_data-Sends signature.block_size (length signature.hashes) size base buffer sender
                roomy good in
            let (os, done, within, total) =
              flush-Good signature.block_size (length signature.hashes) size base s good' in
            (os, rw (finish, plain, run) done, within, total ∙ now ∙ whole)
      ]

  pub search-Ends :
      (fuel : ℕ) (s : Search (List Operation))
      → length s.target < fuel
      → Going s
      → Ends (search append_operation strong_hash signature size fuel s)
  unfolding search
  search-Ends zero s h going = absurd (omega arith)
  search-Ends (suc fuel) s h going = elim (round-Rounds s going) [
    | inl (s', run, going', less) ↦ rw (search, run) (search-Ends fuel s' (omega arith) going')
    | inr (buffer, sender, run, good, whole) ↦
        rw (search, run) (finish-Ends buffer sender good whole)
  ]
