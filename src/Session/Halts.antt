-- ===== src/Session/Halts.antt =====
-- About the rounds of the loop in pkg/synchronization/controller.go that change neither side.
use mutagen.Base.{
  Bool, true, false, ◌||◌, ◌⊎◌, inl, inr, Option, none, some, List, [], ◌++◌, ◌≡◌, refl, sym, ap,
  ◌∙◌, is_empty, if◌then◌else◌, if-cases,
}
use mathlib.Core.Path.{subst}
use mutagen.Entry.{Entry}
use mutagen.Entry.Tree.{Agree}
use mutagen.Entry.Validity.{Check, ensure_valid}
use mutagen.Change.{Change}
use mutagen.Apply.{Applied, applied, unresolved, nil_dereference, apply}
use mutagen.Reconcile.{Plan, reconcile, Mode}
use mutagen.Reconcile.Agreement.{reconcile_of_Agree}
use mutagen.Safety.{one_endpoint_emptied_root, contains_root_deletion, contains_root_type_change}
use mutagen.Staging.{transition_dependencies, find_all}
use mutagen.Session.{
  Configuration, Circumstances, Endpoint, Snapshot, Transitioned, Loop, SyncRound, effective_mode,
  halted_for_safety, SyncError, transitioning, staging_alpha, staging_beta,
}
use mutagen.Session.Saving.{
  Prepared, reified_contents, propagated_contents, untouched, save, fold_changes, record_problems,
  record_scans, with_status, changes_of_side, save_applied, save_checked, apply_to_ancestor,
  conclude,
}
use mutagen.Session.Cycle.{
  transition_side, transition_both, stage_side, carry_out, check_plan, use_plan, reconcile_contents,
  use_snapshots,
}

-- The contents of two snapshots as they are reconciled.
abbrev pub prepared_contents : Configuration → Entry → Snapshot → Snapshot → Prepared
prepared_contents c ancestor a b =
    propagated_contents c ancestor a b (reified_contents c ancestor a b)

-- What the code means to halt for: one side emptied its root, or the plan deletes a root or changes
-- its type.
abbrev pub IsDangerous : Configuration → Entry → Entry → Entry → Type 0
IsDangerous c ancestor α β =
    (one_endpoint_emptied_root ancestor α β ≡ true)
    ⊎ ((plan : Plan) × (reconcile ancestor α β (effective_mode c.synchronization_mode) ≡ some plan)
        × (((contains_root_deletion plan.alpha_changes || contains_root_deletion plan.beta_changes)
              ≡ true)
            ⊎ ((contains_root_type_change plan.alpha_changes
                  || contains_root_type_change plan.beta_changes)
                ≡ true)))

module _ {W : Type 0} where
  -- The round ends the loop for safety, and nothing was done to the sides or to the archive.
  pub record IsHalted (l : Loop W) (r : SyncRound W) : Type 0 where
    pub reason : r.exit ≡ some halted_for_safety
    pub untouched_world : r.after.world ≡ l.world
    pub untouched_archive : r.after.archive ≡ l.archive
    pub untouched_ancestor : r.after.ancestor ≡ l.ancestor

  -- The round ends with the same world.
  pub record LeavesWorld (l : Loop W) (r : SyncRound W) : Type 0 where
    pub same_world : r.after.world ≡ l.world

  left : {l : Loop W} {r : SyncRound W} → r.after.world ≡ l.world → LeavesWorld l r
  left e = record { same_world = e }

  either :
      {l : Loop W} {x y : SyncRound W} (b : Bool)
      → LeavesWorld l x
      → LeavesWorld l y
      → LeavesWorld l (if b then x else y)
  either true h k = h
  either false h k = k

  conclude-LeavesWorld : (α β : Transitioned) (l : Loop W) → LeavesWorld l (conclude α β l)
  unfolding conclude
  conclude-LeavesWorld α β l =
      either α.transition_failed (left refl) (either β.transition_failed (left refl) (left refl))

  save_checked-LeavesWorld :
      (k : Circumstances) (next : Loop W → SyncRound W) (l : Loop W) (e : Entry) (check : Check)
      → ((l : Loop W) → LeavesWorld l (next l))
      → LeavesWorld l (save_checked k next l e check)
  save_checked-LeavesWorld k next l e (some invalid) h = left refl
  save_checked-LeavesWorld k next l e none h =
      either k.save_fails (left refl) (left (h _).same_world)

  save_applied-LeavesWorld :
      (k : Circumstances) (next : Loop W → SyncRound W) (l : Loop W) (r : Applied)
      → ((l : Loop W) → LeavesWorld l (next l))
      → LeavesWorld l (save_applied k next l r)
  save_applied-LeavesWorld k next l unresolved h = left refl
  save_applied-LeavesWorld k next l nil_dereference h = left refl
  save_applied-LeavesWorld k next l (applied e) h =
      save_checked-LeavesWorld k next l e (ensure_valid true e) h

  fold_changes-LeavesWorld :
      (k : Circumstances) (changes : List Change) (α β : Transitioned)
      (αs βs : Option (List Change)) (l : Loop W)
      → LeavesWorld l (fold_changes k changes α β αs βs l)
  unfolding apply_to_ancestor
  fold_changes-LeavesWorld k changes α β none βs l = left refl
  fold_changes-LeavesWorld k changes α β (some αs) none l = left refl
  fold_changes-LeavesWorld k changes α β (some αs) (some βs) l =
      either (is_empty ((changes ++ αs) ++ βs))
        (left (conclude-LeavesWorld α β (record_problems α β l)).same_world)
        (left
          (save_applied-LeavesWorld k (conclude α β) (record_problems α β l)
            (apply l.ancestor ((changes ++ αs) ++ βs)) (conclude-LeavesWorld α β)).same_world)

module _ {W R : Type 0} (k : Circumstances) (alpha beta : Endpoint W R) where
  check_plan-IsHalted :
      (plan : Plan) (l : Loop W)
      → ((contains_root_deletion plan.alpha_changes || contains_root_deletion plan.beta_changes)
          ≡ true)
        ⊎ ((contains_root_type_change plan.alpha_changes
              || contains_root_type_change plan.beta_changes)
            ≡ true)
      → IsHalted l (check_plan k alpha beta plan l)
  unfolding check_plan
  check_plan-IsHalted plan l danger =
      if-cases (IsHalted l)
        (contains_root_deletion plan.alpha_changes || contains_root_deletion plan.beta_changes) _ _
        (λ _. record {
          reason = refl;
          untouched_world = refl;
          untouched_archive = refl;
          untouched_ancestor = refl;
        })
        (λ keeps.
          if-cases (IsHalted l)
            (contains_root_type_change plan.alpha_changes
              || contains_root_type_change plan.beta_changes)
            _ _
            (λ _. record {
              reason = refl;
              untouched_world = refl;
              untouched_archive = refl;
              untouched_ancestor = refl;
            })
            (λ same. elim danger [
              | inl e ↦ absurd (cc (e, keeps))
              | inr e ↦ absurd (cc (e, same))
            ]))

  stage_nothing :
      (target source : Endpoint W R) (e₁ e₂ e₃ : SyncError) (ts : List Change)
      (next : Loop W → SyncRound W) (l : Loop W)
      → ts ≡ []
      → stage_side target source e₁ e₂ e₃ ts next l ≡ next l
  unfolding stage_side transition_dependencies find_all
  stage_nothing target source e₁ e₂ e₃ ts next l e = rw e refl

  transition_nothing :
      (side : Endpoint W R) (ts : List Change) (w : W)
      → ts ≡ []
      → transition_side side ts w ≡ (untouched, w)
  unfolding transition_side
  transition_nothing side ts w e = rw e refl

  transition_both-LeavesWorld :
      (plan : Plan) (l : Loop W)
      → plan.alpha_changes ≡ []
      → plan.beta_changes ≡ []
      → LeavesWorld l (transition_both k alpha beta plan l)
  unfolding transition_both save
  transition_both-LeavesWorld plan l e f =
      let (α, w) = transition_side alpha plan.alpha_changes l.world in
      let (β, w') = transition_side beta plan.beta_changes w in
      left (
        (fold_changes-LeavesWorld k plan.ancestor_changes α β (changes_of_side plan.alpha_changes α)
          (changes_of_side plan.beta_changes β)
          (with_status transitioning (record l { world = w' }))).same_world
        ∙ ap (λ r. r.1) (transition_nothing beta plan.beta_changes w f)
        ∙ ap (λ r. r.1) (transition_nothing alpha plan.alpha_changes l.world e))

  carry_out-LeavesWorld :
      (plan : Plan) (l : Loop W)
      → plan.alpha_changes ≡ []
      → plan.beta_changes ≡ []
      → LeavesWorld l (carry_out k alpha beta plan l)
  unfolding carry_out
  carry_out-LeavesWorld plan l e f =
      rw
        (
          stage_nothing alpha beta _ _ _ plan.alpha_changes _ _ e,
          stage_nothing beta alpha _ _ _ plan.beta_changes _ _ f,
        )
        (left
          (transition_both-LeavesWorld plan (with_status staging_beta (with_status staging_alpha l))
            e f).same_world)

  use_plan-LeavesWorld :
      (mode : Mode) (α β : Entry) (l : Loop W) (o : Option Plan)
      → reconcile l.ancestor α β mode ≡ o
      → Agree α β
      → LeavesWorld l (use_plan k alpha beta l o)
  unfolding check_plan
  use_plan-LeavesWorld mode α β l none e agree = left refl
  use_plan-LeavesWorld mode α β l (some plan) e agree =
      let (no_alpha, no_beta, no_conflicts) = reconcile_of_Agree mode l.ancestor α β agree e in
      either (contains_root_deletion plan.alpha_changes || contains_root_deletion plan.beta_changes)
        (left refl)
        (either
          (contains_root_type_change plan.alpha_changes
            || contains_root_type_change plan.beta_changes)
          (left refl)
          (left
            (carry_out-LeavesWorld plan
              (record l { state = record l.state { conflicts = plan.conflicts } }) no_alpha
              no_beta).same_world))

module _ {W R : Type 0} (c : Configuration) (k : Circumstances) (alpha beta : Endpoint W R)
    (a b : Snapshot) (l : Loop W) where
  pub use_snapshots-halts :
      IsDangerous c l.ancestor
        (prepared_contents c l.ancestor a b).alpha
        (prepared_contents c l.ancestor a b).beta
      → IsHalted l (use_snapshots c k alpha beta a b l)
  unfolding use_snapshots reconcile_contents
  use_snapshots-halts danger =
      let p = prepared_contents c l.ancestor a b in
      if-cases (IsHalted l) (one_endpoint_emptied_root l.ancestor p.alpha p.beta) _ _
        (λ _. record {
          reason = refl;
          untouched_world = refl;
          untouched_archive = refl;
          untouched_ancestor = refl;
        })
        (λ full. elim danger [
          | inl e ↦ absurd (cc (e, full))
          | inr (plan, e, d) ↦
              let l' = record_scans a b (reified_contents c l.ancestor a b) l in
              let h = check_plan-IsHalted k alpha beta plan l' d in
              subst (λ o. IsHalted l (use_plan k alpha beta l' o)) (sym e)
                (record {
                  reason = h.reason;
                  untouched_world = h.untouched_world;
                  untouched_archive = h.untouched_archive;
                  untouched_ancestor = h.untouched_ancestor;
                })
        ])

  -- If the contents of both sides agree at every address after two scans that succeeded, then the
  -- rest of the round calls no endpoint, in every mode.
  pub use_snapshots-LeavesWorld :
      Agree (prepared_contents c l.ancestor a b).alpha (prepared_contents c l.ancestor a b).beta
      → LeavesWorld l (use_snapshots c k alpha beta a b l)
  unfolding use_snapshots reconcile_contents
  use_snapshots-LeavesWorld agree =
      let r = reified_contents c l.ancestor a b in
      let p = propagated_contents c l.ancestor a b r in
      let plan = reconcile l.ancestor p.alpha p.beta (effective_mode c.synchronization_mode) in
      either (one_endpoint_emptied_root l.ancestor p.alpha p.beta) (left refl) (
        left
          (use_plan-LeavesWorld k alpha beta (effective_mode c.synchronization_mode) p.alpha p.beta
            (record_scans a b r l) plan refl agree).same_world)
