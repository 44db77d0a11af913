-- ===== src/Reconcile/Agreement.antt =====
-- About pkg/synchronization/core/reconcile.go where the two sides agree.
use mutagen.Base.{Bytes, false, List, [], ◌∷◌, ◌≡◌, some, inl, inr, All, eq_nil_of_All, Bool-cases}
use mutagen.Entry.{Entry, is_nil, kind_eq}
use mutagen.Entry.Compare.{equal}
use mutagen.Entry.Shallow.{Matches}
use mutagen.Entry.Tree.{Agree}
use mutagen.Reconcile.{Mode, Action, to_ancestor, Plan, reconcile}
use mutagen.Reconcile.Locate.{own_actions, All-own_actions}
use mutagen.Reconcile.Safety.{AllPlan-reconcile}

abbrev IsBookkeeping : Action → Type 0
IsBookkeeping (to_ancestor c) = Unit
IsBookkeeping _ = ⊥

abbrev Settled : Bytes → Entry → Entry → Entry → Action → Type 0
Settled path ancestor alpha beta action = Matches alpha beta → IsBookkeeping action

All-of_always : {P : Action → Type 0} (actions : List Action) → ((a : Action) → P a) → All P actions
All-of_always [] f = tt
All-of_always (a ∷ actions) f = (f a, All-of_always actions f)

own_actions-Settled :
    (mode : Mode) (path : Bytes) (ancestor alpha beta : Entry)
    → All (Settled path ancestor alpha beta) (own_actions mode path ancestor alpha beta)
own_actions-Settled mode path ancestor alpha beta =
    All-own_actions (Settled path ancestor alpha beta) mode path ancestor alpha beta
      (elim (Bool-cases (is_nil ancestor)) [ inl n ↦ rw n tt | inr n ↦ rw n (λ _. tt, tt) ])
      (λ same. elim (Bool-cases (equal ancestor alpha false)) [
        | inl e ↦ rw e tt
        | inr e ↦ rw e (λ _. tt, tt)
      ])
      (λ _ _ differ. All-of_always _ (λ action same. cc))

-- If both sides agree at every address, then in every mode no change goes to either side and
-- there is no conflict.
pub reconcile_of_Agree :
    (mode : Mode) (ancestor alpha beta : Entry) {r : Plan}
    → Agree alpha beta
    → reconcile ancestor alpha beta mode ≡ some r
    → (r.alpha_changes ≡ []) × (r.beta_changes ≡ []) × (r.conflicts ≡ [])
reconcile_of_Agree mode ancestor alpha beta {r} same done =
    let settled =
      AllPlan-reconcile Settled mode (own_actions-Settled mode) ancestor alpha beta done in
    (
      eq_nil_of_All _ r.alpha_changes (λ c h. h.1 (same h.0)) settled.in_alpha,
      eq_nil_of_All _ r.beta_changes (λ c h. h.1 (same h.0)) settled.in_beta,
      eq_nil_of_All _ r.conflicts (λ c h. h.1 (same h.0)) settled.in_conflicts,
    )
