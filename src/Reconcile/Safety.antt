-- ===== src/Reconcile/Safety.antt =====
-- About the changes that `Reconcile` of pkg/synchronization/core/reconcile.go returns.
use mutagen.Base.{
  Bool-cases, ◌||◌, sym, ◌∙◌, bytes_eq, Bool, ◌⊎◌, inl, inr, arith, contains, if◌then◌else◌, suc,
  Bytes, true, false, Option, none, some, List, [], ◌∷◌, ◌≡◌, ◌≢◌, refl, All, All-map,
  eq_nil_of_All,
}
use mathlib.Core.Option
use mutagen.Entry.{Contents, Entry, unset, get_contents, child, names, items_of, name_union}
use mutagen.Entry.Compare.{equal}
use mutagen.Entry.Copy.{synchronizable}
use mutagen.Entry.Measure.{depth}
use mutagen.Entry.Tree.{descend, Covered, contains-name_union₃}
use mutagen.Change.{Change}
use mutagen.Path.Join.{path_at, IsName}
use mutagen.Entry.Validity.{ensure_valid}
use mutagen.Entry.Names.{ensure_valid-child}
use mutagen.Reconcile.{
  Mode, default_mode, Action, to_ancestor, to_alpha, to_beta, report, panics, exhausted, Plan,
  add_action, collect, reconcile_actions, reconcile, ancestor_contents,
}
use mutagen.Reconcile.Locate.{
  Listed, listed_names, own_actions, ancestor_at, Located, Located-reconcile_from, Covered-descend,
}
use mutagen.Reconcile.Sound.{changes_alpha, protects_beta, Replaces, Sound, own_actions-Sound}

-- `P` of everything in the four lists.
pub record AllPlan (P : Action → Type 0) (r : Plan) : Type 0 where
  pub in_ancestor : All (λ c. P (to_ancestor c)) r.ancestor_changes
  pub in_alpha : All (λ c. P (to_alpha c)) r.alpha_changes
  pub in_beta : All (λ c. P (to_beta c)) r.beta_changes
  pub in_conflicts : All (λ c. P (report c)) r.conflicts

abbrev AllResult : (P : Action → Type 0) → Option Plan → Type 0
AllResult P none = Unit
AllResult P (some r) = AllPlan P r

All-collect_add :
    (P : Action → Type 0) (a : Action) (o : Option Plan)
    → P a
    → AllResult P o
    → AllResult P (Option.bind o (add_action a))
unfolding Option.bind
All-collect_add P a none h k = tt
All-collect_add P (to_ancestor c) (some r) h k = record {
  in_ancestor = (h, k.in_ancestor);
  in_alpha = k.in_alpha;
  in_beta = k.in_beta;
  in_conflicts = k.in_conflicts;
}
All-collect_add P (to_alpha c) (some r) h k = record {
  in_ancestor = k.in_ancestor;
  in_alpha = (h, k.in_alpha);
  in_beta = k.in_beta;
  in_conflicts = k.in_conflicts;
}
All-collect_add P (to_beta c) (some r) h k = record {
  in_ancestor = k.in_ancestor;
  in_alpha = k.in_alpha;
  in_beta = (h, k.in_beta);
  in_conflicts = k.in_conflicts;
}
All-collect_add P (report c) (some r) h k = record {
  in_ancestor = k.in_ancestor;
  in_alpha = k.in_alpha;
  in_beta = k.in_beta;
  in_conflicts = (h, k.in_conflicts);
}
All-collect_add P panics (some r) h k = tt
All-collect_add P exhausted (some r) h k = tt

All-collect :
    (P : Action → Type 0) (actions : List Action) → All P actions → AllResult P (collect actions)
unfolding collect
All-collect P [] h = record { in_ancestor = tt; in_alpha = tt; in_beta = tt; in_conflicts = tt }
All-collect P (a ∷ actions) (h, hs) =
    All-collect_add P a (collect actions) h (All-collect P actions hs)

-- What holds of the own actions of every level holds of the whole result, located.
pub AllPlan-reconcile :
    (P : Bytes → Entry → Entry → Entry → Action → Type 0) (mode : Mode)
    → ((path : Bytes) (ancestor alpha beta : Entry)
        → All (P path ancestor alpha beta) (own_actions mode path ancestor alpha beta))
    → (ancestor alpha beta : Entry) {r : Plan} → reconcile ancestor alpha beta mode ≡ some r
    → AllPlan (Located mode P [] ancestor alpha beta) r
unfolding reconcile
AllPlan-reconcile P mode own ancestor alpha beta e = rw e at (
    All-collect (Located mode P [] ancestor alpha beta) _
      (Located-reconcile_from mode P own (suc (depth alpha)) [] ancestor alpha beta (omega arith)))

-- The side's content at the path of the change stands in the ancestor too. The path is made of
-- names, so that it has one address only.
abbrev pub Lossless : Entry → Entry → Change → Type 0
Lossless ancestor side c =
    (ns : List Bytes) × All IsName ns
    × (c.path ≡ path_at [] ns)
    × Covered (descend ancestor ns) (descend side ns)

-- The change stands at an address of names, and replaces what the side holds there.
abbrev pub ReplacesAt : Entry → Change → List Bytes → Type 0
ReplacesAt side c ns = All IsName ns × Replaces (path_at [] ns) (descend side ns) c

any_of : (a b c : Bool) → (a || (b || c)) ≡ true → (a ≡ true) ⊎ ((b ≡ true) ⊎ (c ≡ true))
any_of true b c h = inl refl
any_of false true c h = inr (inl refl)
any_of false false true h = inr (inr refl)
any_of false false false h = absurd (cc h)

contains-listed :
    (ancestor alpha beta : Entry) (n : Bytes)
    → contains (listed_names ancestor alpha beta) n ≡ true
    → (contains (names (items_of (get_contents ancestor))) n ≡ true)
      ⊎ ((contains (names (items_of (get_contents alpha))) n ≡ true)
          ⊎ (contains (names (items_of (get_contents beta))) n ≡ true))
contains-listed ancestor alpha beta n h = elim (Bool-cases (equal ancestor alpha false)) [
  | inl same ↦ split (get_contents ancestor) (rw same at h)
  | inr differ ↦ elim (split unset (rw differ at h)) [
    | inl here ↦ absurd (cc here)
    | inr rest ↦ inr rest
  ]
]
  where
    split :
        (c : Contents)
        → contains (name_union (c ∷ get_contents alpha ∷ get_contents beta ∷ [])) n ≡ true
        → (contains (names (items_of c)) n ≡ true)
          ⊎ ((contains (names (items_of (get_contents alpha))) n ≡ true)
              ⊎ (contains (names (items_of (get_contents beta))) n ≡ true))
    split c m =
        any_of _ _ _ (sym (contains-name_union₃ c (get_contents alpha) (get_contents beta) n) ∙ m)

-- The names of a position in valid entries are names.
names-IsName :
    (s : Bool) (ancestor alpha beta : Entry) (ns : List Bytes)
    → ensure_valid s ancestor ≡ none
    → ensure_valid false alpha ≡ none
    → ensure_valid false beta ≡ none
    → Listed ancestor alpha beta ns
    → All IsName ns
unfolding ensure_valid
names-IsName s ancestor alpha beta [] v w x h = tt
names-IsName s ancestor alpha beta (n ∷ ns) v w x (listed, rest) = (
  elim (contains-listed ancestor alpha beta n listed) [
    | inl here ↦ (ensure_valid-child s ancestor n v).1 here
    | inr (inl here) ↦ (ensure_valid-child false alpha n w).1 here
    | inr (inr here) ↦ (ensure_valid-child false beta n x).1 here
  ],
  names-IsName s (child (ancestor_contents ancestor alpha) n) (child (get_contents alpha) n)
      (child (get_contents beta) n) ns (driving (equal ancestor alpha false))
      (ensure_valid-child false alpha n w).0 (ensure_valid-child false beta n x).0 rest,
)
  where
    driving :
        (b : Bool) → ensure_valid s (child (if b then get_contents ancestor else unset) n) ≡ none
    driving true = (ensure_valid-child s ancestor n v).0
    driving false = refl

module _ (mode : Mode) (ancestor alpha beta : Entry) {r : Plan}
    (done : reconcile ancestor alpha beta mode ≡ some r) where
  sound : AllPlan (Located mode (Sound mode) [] ancestor alpha beta) r
  sound = AllPlan-reconcile (Sound mode) mode (own_actions-Sound mode) ancestor alpha beta done

  -- In the one-way modes, and in the mode without a name, no change goes to alpha.
  pub alpha_changes-nil : changes_alpha mode ≡ false → r.alpha_changes ≡ []
  alpha_changes-nil m = eq_nil_of_All _ r.alpha_changes (λ c h. cc h.1.0) sound.in_alpha

  module _ (s : Bool) (valid_ancestor : ensure_valid s ancestor ≡ none)
      (valid_alpha : ensure_valid false alpha ≡ none)
      (valid_beta : ensure_valid false beta ≡ none) where
    names_of : (ns : List Bytes) → Listed ancestor alpha beta ns → All IsName ns
    names_of ns h = names-IsName s ancestor alpha beta ns valid_ancestor valid_alpha valid_beta h

    -- If the ancestor and both sides are valid, then in every mode each change stands at an address
    -- of names. Its old value agrees with what its side holds there, and its side holds no
    -- unsynchronizable content there. What goes to beta is the synchronizable part of what alpha
    -- holds at the same address.
    pub reconcile-Replaces :
        All (λ c. (ns : List Bytes) × ReplacesAt alpha c ns) r.alpha_changes
        × All
            (λ c.
              (ns : List Bytes) × ReplacesAt beta c ns
              × (c.new ≡ synchronizable (descend alpha ns)))
            r.beta_changes
    reconcile-Replaces = (
      All-map _ _ _ (λ c h. (h.0, (names_of h.0 h.2, h.1.1))) sound.in_alpha,
      All-map _ _ _ (λ c h. (h.0, (names_of h.0 h.2, h.1.0), h.1.1)) sound.in_beta,
    )

    -- If the ancestor and both sides are valid, then in every mode a change to alpha replaces only
    -- nodes that stand in the ancestor too, at the same address of names and with matching
    -- properties. In the two safe modes a change to beta does so too: nothing that either side
    -- created or modified is overwritten.
    pub reconcile-Lossless :
        All (Lossless ancestor alpha) r.alpha_changes
        × (protects_beta mode ≡ true → All (Lossless ancestor beta) r.beta_changes)
    reconcile-Lossless = (
      All-map _ (Lossless ancestor alpha) _
          (λ c h. (
            h.0,
            names_of h.0 h.2,
            h.1.1.0,
            Covered-descend ancestor alpha (descend alpha h.0) h.0 h.1.2,
          ))
          sound.in_alpha,
      λ m.
          All-map _ (Lossless ancestor beta) _
            (λ c h. (
              h.0,
              names_of h.0 h.2,
              h.1.0.0,
              Covered-descend ancestor alpha (descend beta h.0) h.0 (h.1.2 m),
            ))
            sound.in_beta,
    )

-- What is no panic and no end of the fuel is put into a list.
abbrev Fits : Action → Type 0
Fits panics = ⊥
Fits exhausted = ⊥
Fits _ = Unit

collect_total : (actions : List Action) → All Fits actions → (r : Plan) × (collect actions ≡ some r)
unfolding collect Option.bind
collect_total [] h = (_, refl)
collect_total (a ∷ actions) (h, hs) = let (r, e) = collect_total actions hs in rw e (added a r h)
  where
    added : (a : Action) (r : Plan) → Fits a → (s : Plan) × (add_action a r ≡ some s)
    added (to_ancestor c) r h = (_, refl)
    added (to_alpha c) r h = (_, refl)
    added (to_beta c) r h = (_, refl)
    added (report c) r h = (_, refl)
    added panics r h = absurd h
    added exhausted r h = absurd h

Sound-Fits :
    (mode : Mode) (path : Bytes) (ancestor alpha beta : Entry) (a : Action)
    → mode ≢ default_mode
    → Sound mode path ancestor alpha beta a
    → Fits a
Sound-Fits mode path ancestor alpha beta (to_ancestor c) m h = tt
Sound-Fits mode path ancestor alpha beta (to_alpha c) m h = tt
Sound-Fits mode path ancestor alpha beta (to_beta c) m h = tt
Sound-Fits mode path ancestor alpha beta (report c) m h = tt
Sound-Fits mode path ancestor alpha beta panics m h = m h
Sound-Fits mode path ancestor alpha beta exhausted m h = h

-- In every mode with a name the traversal of `Reconcile` ends within its fuel, one level more than
-- alpha has, no handler is missing for the mode, and so there is a plan.
pub reconcile_returns :
    (mode : Mode) (ancestor alpha beta : Entry)
    → mode ≢ default_mode
    → (r : Plan) × (reconcile ancestor alpha beta mode ≡ some r)
unfolding reconcile reconcile_actions
reconcile_returns mode ancestor alpha beta m =
    collect_total (reconcile_actions mode ancestor alpha beta) (
      All-map _ _ _
        (λ a h.
          Sound-Fits mode (path_at [] h.0) (ancestor_at ancestor alpha h.0) (descend alpha h.0)
            (descend beta h.0) a m h.1)
        (Located-reconcile_from mode (Sound mode) (own_actions-Sound mode) (suc (depth alpha)) []
          ancestor alpha beta (omega arith)))
