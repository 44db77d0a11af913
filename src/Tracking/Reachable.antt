-- ===== src/Tracking/Reachable.antt =====
-- About the reachable states of the tracker of pkg/state/tracker.go.
use mutagen.Base.{
  if-cases, ℕ, Bool, true, false, Option, List, [], ◌∷◌, ◌++◌, ◌==◌, ==→eq, ◌≡◌, ◌≢◌, ◌⊎◌, inl, inr,
  refl, sym, ap, ◌∙◌, nat_eq, arith, All, Bool-cases, ◌<◌, ◌^◌,
}
use mathlib.Core.Path.{subst}
use mutagen.Tracking.{
  Tracker, Polled, PollRequest, PollResponse, new_tracker, track_round, terminate, notify_of_change,
  wait_for_change, cancel, delete, keep, respond, respond_all, next_index,
}
use mutagen.Tracking.Steps.{
  Step, tracked, terminating, notified, waited, cancelled, IsReachable, started, then_step,
}

abbrev pub IsCurrent : ℕ → PollRequest → Type 0
IsCurrent index r = r.previous_index ≡ index

-- The index is a word that is not zero. The loop waits only where it has seen the last change, and
-- exits only where nobody is left waiting.
pub record IsValid (t : Tracker) : Type 0 where
  pub positive : 0 < t.index
  pub fits : t.index < 2 ^ 64
  pub settled : t.waits ≡ true → (t.terminated ≡ false) × All (IsCurrent t.index) t.poll_requests
  pub finished : t.done ≡ true → (t.terminated ≡ true) × (t.poll_requests ≡ [])

keep-All : (index : ℕ) (rs : List PollRequest) → All (IsCurrent index) (keep index rs)
keep-All index [] = _
keep-All index (r ∷ rs) = elim (Bool-cases (r.previous_index == index)) [
  | inl same ↦ rw same (==→eq r.previous_index index same, keep-All index rs)
  | inr other ↦ rw other (keep-All index rs)
]

delete-All :
    (P : PollRequest → Type 0) (id : ℕ) (rs : List PollRequest) → All P rs → All P (delete id rs)
delete-All P id [] h = _
delete-All P id (r ∷ rs) (h, hs) = elim (Bool-cases (r.id == id)) [
  | inl same ↦ rw same (delete-All P id rs hs)
  | inr other ↦ rw other (h, delete-All P id rs hs)
]

next_index-bounds : (index : ℕ) → (0 < next_index index) × (next_index index < 2 ^ 64)
next_index-bounds index = (ground arith, ground arith)

track_round-IsValid : (t : Tracker) → IsValid t → t.done ≡ false → IsValid (track_round t)
unfolding track_round
track_round-IsValid t v running =
    if-cases IsValid t.terminated _ _
      (λ ended. record {
        positive = v.positive;
        fits = v.fits;
        settled = λ e. absurd (cc ((v.settled e).0, ended));
        finished = λ e. (ended, refl);
      })
      (λ going. record {
        positive = v.positive;
        fits = v.fits;
        settled = λ e. (going, keep-All t.index t.poll_requests);
        finished = λ e. absurd (cc (e, running));
      })

terminate-IsValid : (t : Tracker) → IsValid t → IsValid (terminate t)
unfolding terminate
terminate-IsValid t v = record {
  positive = v.positive;
  fits = v.fits;
  settled = λ e. absurd (cc e);
  finished = λ e. (refl, (v.finished e).1);
}

notify_of_change-IsValid : (t : Tracker) → IsValid t → IsValid (notify_of_change t)
unfolding notify_of_change
notify_of_change-IsValid t v =
    if-cases IsValid t.terminated _ _ (λ ended. v)
      (λ going. record {
        positive = (next_index-bounds t.index).0;
        fits = (next_index-bounds t.index).1;
        settled = λ e. absurd (cc e);
        finished = λ e. absurd (cc ((v.finished e).0, going));
      })

wait_for_change-IsValid :
    (id previous_index : ℕ) (t : Tracker)
    → IsValid t
    → IsValid (wait_for_change id previous_index t).1
unfolding wait_for_change
wait_for_change-IsValid id previous_index t v =
    if-cases (λ (o : Option Polled × Tracker). IsValid o.1) (previous_index == 0) _ _ (λ now. v)
      (λ later.
        if-cases (λ (o : Option Polled × Tracker). IsValid o.1) t.terminated _ _ (λ ended. v)
          (λ going. record {
            positive = v.positive;
            fits = v.fits;
            settled = λ e. absurd (cc e);
            finished = λ e. absurd (cc ((v.finished e).0, going));
          }))

cancel-IsValid : (id : ℕ) (t : Tracker) → IsValid t → IsValid (cancel id t).1
unfolding cancel
cancel-IsValid id t v = record {
  positive = v.positive;
  fits = v.fits;
  settled =
      λ e. ((v.settled e).0, delete-All (IsCurrent t.index) id t.poll_requests (v.settled e).1);
  finished = λ e. ((v.finished e).0, ap (delete id) (v.finished e).1);
}

Step-IsValid : {t u : Tracker} → IsValid t → Step t u → IsValid u
Step-IsValid {t} v (tracked awake running) = track_round-IsValid t v running
Step-IsValid {t} v terminating = terminate-IsValid t v
Step-IsValid {t} v notified = notify_of_change-IsValid t v
Step-IsValid {t} v (waited id previous_index) = wait_for_change-IsValid id previous_index t v
Step-IsValid {t} v (cancelled id) = cancel-IsValid id t v

-- In every state that calls of the tracker and rounds of its loop lead to, in any order, the index is
-- a word of 64 bits and not zero; where the loop waits, tracking is not terminated and every pending
-- poll has seen the current index; and where the loop has exited, no poll is pending.
pub reachable-IsValid : {t : Tracker} → IsReachable t → IsValid t
unfolding new_tracker
reachable-IsValid started = record {
  positive = omega arith;
  fits = omega arith;
  settled = λ e. absurd (cc e);
  finished = λ e. absurd (cc e);
}
reachable-IsValid (then_step r s) = Step-IsValid (reachable-IsValid r) s

-- The response of a request is among the responses.
abbrev pub IsAnswered : ℕ → ℕ → Bool → List PollResponse → Type 0
IsAnswered id index ended [] = ⊥
IsAnswered id index ended (r ∷ rs) =
    ((r.request ≡ id) × (r.index ≡ index) × (r.terminated ≡ ended)) ⊎ IsAnswered id index ended rs

abbrev pub IsPending : ℕ → ℕ → List PollRequest → Type 0
IsPending id previous_index [] = ⊥
IsPending id previous_index (r ∷ rs) =
    ((r.id ≡ id) × (r.previous_index ≡ previous_index)) ⊎ IsPending id previous_index rs

pending-All :
    (P : PollRequest → Type 0) (id previous_index : ℕ) (rs : List PollRequest)
    → IsPending id previous_index rs
    → All P rs
    → (r : PollRequest) × P r × (r.previous_index ≡ previous_index)
pending-All P id previous_index [] pending h = absurd pending
pending-All P id previous_index (r ∷ rs) (inl (e, same)) (h, hs) = (r, h, same)
pending-All P id previous_index (r ∷ rs) (inr pending) (h, hs) =
    pending-All P id previous_index rs pending hs

respond_all-IsAnswered :
    (response : PollResponse) (more : List PollResponse) (id previous_index : ℕ)
    (rs : List PollRequest)
    → IsPending id previous_index rs
    → IsAnswered id response.index response.terminated (respond_all response rs ++ more)
respond_all-IsAnswered response more id previous_index [] pending = absurd pending
respond_all-IsAnswered response more id previous_index (r ∷ rs) (inl (e, same)) =
    inl (e, refl, refl)
respond_all-IsAnswered response more id previous_index (r ∷ rs) (inr pending) =
    inr (respond_all-IsAnswered response more id previous_index rs pending)

respond-IsAnswered :
    (index : ℕ) (more : List PollResponse) (id previous_index : ℕ) (rs : List PollRequest)
    → IsPending id previous_index rs
    → previous_index ≢ index
    → IsAnswered id index false (respond index rs ++ more)
respond-IsAnswered index more id previous_index [] pending stale = absurd pending
respond-IsAnswered index more id previous_index (r ∷ rs) pending stale =
    if-cases (λ responses. IsAnswered id index false (responses ++ more))
      (r.previous_index == index) _ _
      (λ current. elim pending [
        | inl (e, same) ↦ absurd (stale (sym same ∙ ==→eq r.previous_index index current))
        | inr rest ↦ respond-IsAnswered index more id previous_index rs rest stale
      ])
      (λ other. elim pending [
        | inl (e, same) ↦ inl (e, refl, refl)
        | inr rest ↦ inr (respond-IsAnswered index more id previous_index rs rest stale)
      ])

-- In every reachable state, a pending poll that has seen another index than the current one, or
-- whose tracker is terminated, finds the loop neither waiting nor exited, and the loop's next round
-- answers it with the current index, and with the termination if there is one.
pub pending-IsAnswered :
    {t : Tracker} (id previous_index : ℕ)
    → IsReachable t
    → IsPending id previous_index t.poll_requests
    → (previous_index ≢ t.index) ⊎ (t.terminated ≡ true)
    → (t.waits ≡ false)
      × (t.done ≡ false)
      × IsAnswered id t.index t.terminated (track_round t).responses
unfolding track_round
pending-IsAnswered {t} id previous_index reached pending news =
    let v = reachable-IsValid reached in
    (
      elim (Bool-cases t.waits) [
        | inl asleep ↦
            let (r, current, same) =
              pending-All (IsCurrent t.index) id previous_index t.poll_requests pending
                (v.settled asleep).1 in
            elim news [
              | inl stale ↦ absurd (stale (sym same ∙ current))
              | inr ended ↦ absurd (cc ((v.settled asleep).0, ended))
            ]
        | inr awake ↦ awake
      ],
      elim (Bool-cases t.done) [
        | inl gone ↦ absurd (subst (IsPending id previous_index) (v.finished gone).1 pending)
        | inr running ↦ running
      ],
      if-cases (λ (u : Tracker). IsAnswered id t.index t.terminated u.responses) t.terminated _ _
          (λ ended.
            subst
              (λ b. IsAnswered id t.index b (
                respond_all (record { request = 0; index = t.index; terminated = true })
                  t.poll_requests
                ++ t.responses))
              (sym ended)
              (respond_all-IsAnswered (record { request = 0; index = t.index; terminated = true })
                t.responses id previous_index t.poll_requests pending))
          (λ going.
            subst (λ b. IsAnswered id t.index b (respond t.index t.poll_requests ++ t.responses))
              (sym going)
              (respond-IsAnswered t.index t.responses id previous_index t.poll_requests pending
                (elim news [ inl stale ↦ stale | inr ended ↦ absurd (cc (going, ended)) ]))),
    )
