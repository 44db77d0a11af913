-- ===== src/Multiplexing/Registry.antt =====
-- The streams that a multiplexer of pkg/multiplexing/multiplexer.go has registered, and the
-- identifiers that are opened and accepted.
use mutagen.Base.{
  ℕ, true, false, some, List, [], ◌∷◌, ◌++◌, ◌==◌, ==→eq, ==_ne, ==_self, nat_eq, bool_eq, ◌≡◌, ◌≢◌,
  ◌⊎◌, inl, inr, refl, sym, ap, ◌∙◌, All, Bool-cases, length, if◌then◌else◌, ◌<◌, ◌≤◌, ◌^◌,
}
use mutagen.Multiplexing.{Stream, Multiplexer, Updates}
use mutagen.Multiplexing.Receiving.{lookup, remove, insert, is_outbound}
use mutagen.Multiplexing.Credit.{lookup-remove, lookup-insert, All_snoc}

-- Where the identifiers of registered streams lie.
pub record InRange (m : Multiplexer) (id : ℕ) : Type 0 where
  pub positive : 0 < id
  pub opened_here :
      is_outbound m id ≡ true
      → (m.next_outbound_stream_identifier ≡ 0) ⊎ (id < m.next_outbound_stream_identifier)
  pub opened_there : is_outbound m id ≡ false → id ≤ m.largest_opened_inbound_stream_identifier

-- A pending stream: the remote has opened it, and it is registered.
pub record IsPendingIn (m : Multiplexer) (id : ℕ) : Type 0 where
  pub inbound : is_outbound m id ≡ false
  pub bounded : id ≤ m.largest_opened_inbound_stream_identifier
  pub stream : Stream
  pub registered : lookup id m.streams ≡ some stream

-- Above all of these.
abbrev pub IsAbove : ℕ → ℕ → Type 0
IsAbove id k = id < k

abbrev pub Ascends : List ℕ → Type 0
Ascends [] = Unit
Ascends (id ∷ ids) = All (IsAbove id) ids × Ascends ids

-- The registry is in order.
pub record IsRegistry (m : Multiplexer) : Type 0 where
  pub known : (id : ℕ) (s : Stream) → lookup id m.streams ≡ some s → InRange m id
  pub next :
      (m.next_outbound_stream_identifier ≡ 0)
      ⊎ ((is_outbound m m.next_outbound_stream_identifier ≡ true)
          × (m.next_outbound_stream_identifier < 2 ^ 64))
  pub backlog : length m.pending_inbound_stream_identifiers ≤ m.accept_backlog
  pub awaiting : All (IsPendingIn m) m.pending_inbound_stream_identifiers
  pub ascending : Ascends m.pending_inbound_stream_identifiers

pub lookup-remove_other :
    {A : Type 0} (k id : ℕ) (entries : List (ℕ × A))
    → k ≢ id
    → lookup k (remove id entries) ≡ lookup k entries
lookup-remove_other k id [] other = refl
lookup-remove_other k id ((j, a) ∷ rest) other = elim (Bool-cases (j == id)) [
  | inl same ↦
      let apart : (j == k) ≡ false = ==_ne {A = ℕ} j k (λ e. other (sym e ∙ ==→eq j id same)) in
      rw (same, apart) (lookup-remove_other k id rest other)
  | inr unlike ↦
      rw unlike (ap (λ o. if j == k then some a else o) (lookup-remove_other k id rest other))
]

pub lookup-insert_other :
    {A : Type 0} (k id : ℕ) (a : A) (entries : List (ℕ × A))
    → k ≢ id
    → lookup k (insert id a entries) ≡ lookup k entries
lookup-insert_other k id a entries other =
    rw (==_ne {A = ℕ} id k (λ e. other (sym e))) (lookup-remove_other k id entries other)

pub eq-cases : (k id : ℕ) → (k ≡ id) ⊎ (k ≢ id)
eq-cases k id = elim (Bool-cases (k == id)) [
  | inl same ↦ inl (==→eq k id same)
  | inr other ↦ inr (λ e. absurd (cc (other, ap (λ j. j == id) e ∙ ==_self {A = ℕ} id)))
]

pub All_map :
    {A : Type 0} (P Q : A → Type 0) (xs : List A) → ((a : A) → P a → Q a) → All P xs → All Q xs
All_map P Q [] f h = _
All_map P Q (x ∷ xs) f (h, hs) = (f x h, All_map P Q xs f hs)

All_both :
    {A : Type 0} (P Q R : A → Type 0) (xs : List A)
    → ((a : A) → P a → Q a → R a)
    → All P xs
    → All Q xs
    → All R xs
All_both P Q R [] f h k = _
All_both P Q R (x ∷ xs) f (h, hs) (k, ks) = (f x h k, All_both P Q R xs f hs ks)

pub snoc-Ascends :
    (ids : List ℕ) (id : ℕ) → Ascends ids → All (λ k. k < id) ids → Ascends (ids ++ (id ∷ []))
snoc-Ascends [] id a h = (_, _)
snoc-Ascends (k ∷ ids) id (above, a) (h, hs) =
    (All_snoc (IsAbove k) ids id above h, snoc-Ascends ids id a hs)

-- What a new stream for a registered identifier changes: nothing here.
pub update-IsRegistry :
    (m : Multiplexer) (id : ℕ) (s s' : Stream)
    → IsRegistry m
    → lookup id m.streams ≡ some s
    → IsRegistry (record m { streams = insert id s' m.streams })
update-IsRegistry m id s s' r found = record {
  known = known;
  next = r.next;
  backlog = r.backlog;
  awaiting =
      All_map (IsPendingIn m) (IsPendingIn (record m { streams = insert id s' m.streams }))
        m.pending_inbound_stream_identifiers awaits r.awaiting;
  ascending = r.ascending;
}
  where
    known :
        (k : ℕ) (t : Stream)
        → lookup k (insert id s' m.streams) ≡ some t
        → InRange (record m { streams = insert id s' m.streams }) k
    known k t e = elim (eq-cases k id) [
      | inl same ↦
          let i = r.known k s (ap (λ j. lookup j m.streams) same ∙ found) in
          record {
            positive = i.positive;
            opened_here = i.opened_here;
            opened_there = i.opened_there;
          }
      | inr other ↦
          let i = r.known k t (sym (lookup-insert_other k id s' m.streams other) ∙ e) in
          record {
            positive = i.positive;
            opened_here = i.opened_here;
            opened_there = i.opened_there;
          }
    ]

    awaits :
        (k : ℕ) → IsPendingIn m k → IsPendingIn (record m { streams = insert id s' m.streams }) k
    awaits k p = elim (eq-cases k id) [
      | inl same ↦ record {
        inbound = p.inbound;
        bounded = p.bounded;
        stream = s';
        registered =
            ap (λ j. lookup j (insert id s' m.streams)) same ∙ lookup-insert id s' m.streams;
      }
      | inr other ↦ record {
        inbound = p.inbound;
        bounded = p.bounded;
        stream = p.stream;
        registered = lookup-insert_other k id s' m.streams other ∙ p.registered;
      }
    ]

-- The removal of a stream that is not pending.
pub remove-IsRegistry :
    (m : Multiplexer) (id : ℕ)
    → IsRegistry m
    → All (λ k. k ≢ id) m.pending_inbound_stream_identifiers
    → IsRegistry (record m { streams = remove id m.streams })
remove-IsRegistry m id r apart = record {
  known = known;
  next = r.next;
  backlog = r.backlog;
  awaiting =
      All_both (IsPendingIn m) (λ k. k ≢ id)
        (IsPendingIn (record m { streams = remove id m.streams }))
        m.pending_inbound_stream_identifiers
        (λ k p other. record {
          inbound = p.inbound;
          bounded = p.bounded;
          stream = p.stream;
          registered = lookup-remove_other k id m.streams other ∙ p.registered;
        })
        r.awaiting apart;
  ascending = r.ascending;
}
  where
    known :
        (k : ℕ) (t : Stream)
        → lookup k (remove id m.streams) ≡ some t
        → InRange (record m { streams = remove id m.streams }) k
    known k t e = elim (eq-cases k id) [
      | inl same ↦ absurd (
          cc (sym (ap (λ j. lookup j (remove id m.streams)) same ∙ lookup-remove id m.streams) ∙ e))
      | inr other ↦
          let i = r.known k t (sym (lookup-remove_other k id m.streams other) ∙ e) in
          record {
            positive = i.positive;
            opened_here = i.opened_here;
            opened_there = i.opened_there;
          }
    ]

-- What is waiting to be sent changes nothing here.
pub told-IsRegistry :
    (m : Multiplexer) (u : Updates) → IsRegistry m → IsRegistry (record m { updates = u })
told-IsRegistry m u r = record {
  known = λ k t e.
      let i = r.known k t e in
      record { positive = i.positive; opened_here = i.opened_here; opened_there = i.opened_there };
  next = r.next;
  backlog = r.backlog;
  awaiting =
      All_map (IsPendingIn m) (IsPendingIn (record m { updates = u }))
        m.pending_inbound_stream_identifiers
        (λ k p. record {
          inbound = p.inbound;
          bounded = p.bounded;
          stream = p.stream;
          registered = p.registered;
        })
        r.awaiting;
  ascending = r.ascending;
}
