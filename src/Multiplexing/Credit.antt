-- ===== src/Multiplexing/Credit.antt =====
-- About the flow control of pkg/multiplexing/stream.go and multiplexer.go: what the ends hold and what
-- is on its way between them adds up to the receive window.
use mutagen.Base.{
  ℕ, Bytes, Bool, true, false, none, some, List, [], ◌∷◌, ◌++◌, ◌==◌, ==→eq, ==_self, nat_eq, ltb,
  ◌≡◌, inl, inr, refl, sym, ap, ◌∙◌, arith, All, Bool-cases, length, append-nil, append_assoc, min,
  take, add_u64, if◌then◌else◌, ◌+◌, ◌-◌, ◌<◌, ◌≤◌, ◌^◌,
}
use mutagen.Ring.Layout.{Holds}
use mutagen.Multiplexing.{Handled, ok, Stream}
use mutagen.Multiplexing.Receiving.{lookup, remove, insert, add_window}
use mutagen.Multiplexing.Sending.{write_part, amount_or_zero, maximum_stream_data_block_size}
use mutagen.Multiplexing.Flow.{Flow, ReadPhase, waiting, holding, counted}

-- A channel of readiness: the signal is in it, a goroutine has taken it, or there is nothing to
-- signal.
pub data Token (ready held : Bool) (n : ℕ) : Type 0 where
  unsignalled : ready ≡ false → held ≡ false → n ≡ 0 → Token ready held n
  signalled : ready ≡ true → held ≡ false → 0 < n → Token ready held n
  taken : ready ≡ false → held ≡ true → 0 < n → Token ready held n

abbrev pub is_holding : ReadPhase → Bool
is_holding waiting = false
is_holding holding = true
is_holding (counted n) = false

abbrev pub in_hand : ReadPhase → ℕ
in_hand waiting = 0
in_hand holding = 0
in_hand (counted n) = n

abbrev pub joined : List Bytes → Bytes
joined [] = []
joined (d ∷ ds) = d ++ joined ds

abbrev pub total : List ℕ → ℕ
total [] = 0
total (n ∷ ns) = n + total ns

abbrev pub IsPositive : ℕ → Type 0
IsPositive n = 0 < n

-- A block is not empty, and its length has 16 bits.
abbrev pub IsBlock : Bytes → Type 0
IsBlock d = (0 < length d) × (length d ≤ maximum_stream_data_block_size)

-- What is counted and not sent yet.
abbrev pub pending : ℕ → Flow → ℕ
pending id f = amount_or_zero (lookup id f.updates.window_increments)

-- The state of a direction of a stream with a receive window.
pub record IsBalanced (window id : ℕ) (f : Flow) : Type 0 where
  pub queue : Bytes
  pub held : Holds f.receiver.receive_buffer queue
  pub sized : f.receiver.receive_buffer.size ≡ window
  pub credit :
      f.sender.send_window
        + (length (joined f.data_sent)
            + (length queue + (in_hand f.phase + (pending id f + total f.increments_sent))))
      ≡ window
  pub order : f.written ≡ f.delivered ++ (queue ++ joined f.data_sent)
  pub blocks : All IsBlock f.data_sent
  pub increments : All IsPositive f.increments_sent
  pub waiting_increment :
      (amount : ℕ) → lookup id f.updates.window_increments ≡ some amount → 0 < amount
  pub in_hand_positive : (n : ℕ) → f.phase ≡ counted n → 0 < n
  pub send_token : Token f.sender.send_window_ready f.writing f.sender.send_window
  pub receive_token : Token f.receiver.receive_buffer_ready (is_holding f.phase) (length queue)
  pub sender_open : (f.sender.established ≡ true) × (f.sender.remote_closed ≡ false)
  pub receiver_open :
      (f.receiver.established ≡ true)
      × (f.receiver.remote_closed_write ≡ false)
      × (f.receiver.remote_closed ≡ false)

-- The outcome is a result, and it has the property.
pub data Succeeds {A : Type 0} (P : A → Type 0) : Handled A → Type 0 where
  succeeds : (a : A) → P a → Succeeds P (ok a)

pub joined_snoc : (ds : List Bytes) (d : Bytes) → joined (ds ++ (d ∷ [])) ≡ joined ds ++ d
joined_snoc [] d = append-nil d
joined_snoc (x ∷ ds) d = ap (λ ys. x ++ ys) (joined_snoc ds d) ∙ sym (append_assoc x (joined ds) d)

pub total_snoc : (ns : List ℕ) (n : ℕ) → total (ns ++ (n ∷ [])) ≡ total ns + n
total_snoc [] n = omega arith
total_snoc (x ∷ ns) n = omega (arith, total_snoc ns n)

pub All_snoc :
    {A : Type 0} (P : A → Type 0) (xs : List A) (a : A) → All P xs → P a → All P (xs ++ (a ∷ []))
All_snoc P [] a h p = (p, _)
All_snoc P (b ∷ xs) a (h, hs) p = (h, All_snoc P xs a hs p)

pub lookup-remove :
    {A : Type 0} (id : ℕ) (entries : List (ℕ × A)) → lookup id (remove id entries) ≡ none
lookup-remove id [] = refl
lookup-remove id ((k, a) ∷ rest) = elim (Bool-cases (k == id)) [
  | inl same ↦ rw same (lookup-remove id rest)
  | inr other ↦ rw (other, other) (lookup-remove id rest)
]

pub lookup-insert :
    {A : Type 0} (id : ℕ) (a : A) (entries : List (ℕ × A))
    → lookup id (insert id a entries) ≡ some a
lookup-insert id a entries = rw (==_self {A = ℕ} id) refl

-- The block that is sent, and the stream after it.
pub write_part-ok :
    (bytes : Bytes) (s : Stream)
    → s.send_window_ready ≡ false
    → let w = min s.send_window (min (length bytes) maximum_stream_data_block_size) in
      write_part bytes s
      ≡ ok (
        take w bytes,
        record s { send_window = s.send_window - w; send_window_ready = ltb 0 (s.send_window - w) },
      )
unfolding write_part
write_part-ok bytes s quiet =
    let w = min s.send_window (min (length bytes) maximum_stream_data_block_size) in
    elim (Bool-cases (ltb 0 (s.send_window - w))) [
      | inl more ↦ rw (more, quiet) refl
      | inr none_left ↦ rw (none_left, quiet) refl
    ]

-- What a positive increment that does not overflow does.
pub add_window-ok :
    (amount : ℕ) (s : Stream)
    → 0 < amount
    → s.send_window + amount < 2 ^ 64
    → (s.send_window ≡ 0 → s.send_window_ready ≡ false)
    → add_window amount s
      ≡ ok (record s {
        send_window = s.send_window + amount;
        send_window_ready = if s.send_window == 0 then true else s.send_window_ready;
      })
unfolding add_window
add_window-ok amount s positive fits quiet = elim (Bool-cases (s.send_window == 0)) [
  | inl empty ↦
      let e : s.send_window ≡ 0 = ==→eq s.send_window 0 empty in
      rw (empty, quiet e)
        (ap (λ n. ok (record s { send_window = n; send_window_ready = true })) (omega (arith, e)))
  | inr some_left ↦
      let no : ltb ((2 ^ 64 - 1) - s.send_window) amount ≡ false = ground arith in
      let same : add_u64 s.send_window amount ≡ s.send_window + amount = ground arith in
      rw (some_left, no, same) refl
]
