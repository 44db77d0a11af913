-- ===== src/Reconcile/Locate.antt =====
-- About the traversal in pkg/synchronization/core/reconcile.go: the level that an action comes from.
use mutagen.Base.{
  ℕ, zero, suc, Bytes, Bool, true, false, ◌||◌, ◌&&◌, not, append-nil, List, [], ◌∷◌, ◌++◌, ◌≡◌,
  refl, sym, ◌∙◌, ◌<◌, arith, contains, ◌⊎◌, inl, inr, bytes_eq, flat_map, All, All-append,
  All-flat_map, All-map, Bool-cases, if◌then◌else◌,
}
use mathlib.Core.Path.{subst}
use mutagen.Path.{joinable}
use mutagen.Path.Join.{path_at}
use mutagen.Entry.{Entry, nil, node, get_contents, child, name_union, is_kind, problematic, kind_eq}
use mutagen.Entry.Compare.{equal}
use mutagen.Entry.Shallow.{Matches, is_nil_of_Matches, Matches-symm}
use mutagen.Entry.Measure.{depth}
use mutagen.Entry.Tree.{descend, descend-nil, Covered, depth-child}
use mutagen.Reconcile.{
  Mode, Action, nil_or_untracked, untrack, ancestor_contents, update_ancestor, handle_disagreement,
  reconcile_from,
}

-- The ancestor that drives the traversal, below a list of names.
abbrev pub ancestor_at : Entry → Entry → List Bytes → Entry
ancestor_at ancestor alpha [] = ancestor
ancestor_at ancestor alpha (n ∷ ns) =
    ancestor_at (child (ancestor_contents ancestor alpha) n) (child (get_contents alpha) n) ns

-- The actions of one level alone.
unfoldable pub own_actions : Mode → Bytes → Entry → Entry → Entry → List Action
own_actions mode path ancestor alpha beta =
    if is_kind problematic alpha || is_kind problematic beta
    then []
    else if nil_or_untracked alpha && nil_or_untracked beta
    then untrack path ancestor
    else if equal alpha beta false
    then update_ancestor path ancestor alpha
    else handle_disagreement mode path ancestor alpha beta

-- The four outcomes of a level. The handlers are called for sides that differ, neither of them
-- problematic and not both nil or untracked.
pub All-own_actions :
    (P : Action → Type 0) (mode : Mode) (path : Bytes) (ancestor alpha beta : Entry)
    → All P (untrack path ancestor)
    → (Matches alpha beta → All P (update_ancestor path ancestor alpha))
    → ((is_kind problematic alpha || is_kind problematic beta) ≡ false
        → (nil_or_untracked alpha && nil_or_untracked beta) ≡ false
        → equal alpha beta false ≡ false
        → All P (handle_disagreement mode path ancestor alpha beta))
    → All P (own_actions mode path ancestor alpha beta)
unfolding own_actions
All-own_actions P mode path ancestor alpha beta gone agreed handled =
    elim (Bool-cases (is_kind problematic alpha || is_kind problematic beta)) [
      | inl p ↦ rw p tt
      | inr np ↦ elim (Bool-cases (nil_or_untracked alpha && nil_or_untracked beta)) [
        | inl u ↦ rw (np, u) gone
        | inr nu ↦ elim (Bool-cases (equal alpha beta false)) [
          | inl e ↦ rw (np, nu, e) (agreed e)
          | inr ne ↦ rw (np, nu, ne) (handled np nu ne)
        ]
      ]
    ]

-- Whether the recursion goes on below a level.
abbrev pub continues : Entry → Entry → Bool
continues alpha beta =
    not (is_kind problematic alpha || is_kind problematic beta)
    && not (nil_or_untracked alpha && nil_or_untracked beta)
    && equal alpha beta false

abbrev pub listed_names : Entry → Entry → Entry → List Bytes
listed_names ancestor alpha beta =
    name_union (ancestor_contents ancestor alpha ∷ get_contents alpha ∷ get_contents beta ∷ [])

abbrev pub actions_below : ℕ → Mode → Bytes → Entry → Entry → Entry → List Action
actions_below f mode path ancestor alpha beta =
    flat_map
      (λ name.
        reconcile_from f mode (joinable path ++ name)
          (child (ancestor_contents ancestor alpha) name) (child (get_contents alpha) name)
          (child (get_contents beta) name))
      (listed_names ancestor alpha beta)

-- One level of `reconcile`: its own actions, then those below.
pub reconcile_from-suc :
    (f : ℕ) (mode : Mode) (path : Bytes) (ancestor alpha beta : Entry)
    → reconcile_from (suc f) mode path ancestor alpha beta
      ≡ own_actions mode path ancestor alpha beta
        ++ (if continues alpha beta then actions_below f mode path ancestor alpha beta else [])
unfolding reconcile_from own_actions
reconcile_from-suc f mode path ancestor alpha beta =
    elim (Bool-cases (is_kind problematic alpha || is_kind problematic beta)) [
      | inl p ↦ rw p
      | inr np ↦ elim (Bool-cases (nil_or_untracked alpha && nil_or_untracked beta)) [
        | inl u ↦ rw (np, u) (sym (append-nil _))
        | inr nu ↦ elim (Bool-cases (equal alpha beta false)) [
          | inl e ↦ rw (np, nu, e)
          | inr ne ↦ rw (np, nu, ne) (sym (append-nil _))
        ]
      ]
    ]

-- Below sides that agree, and are not both nil or untracked, alpha is a node.
continues-depth :
    (alpha beta : Entry) (n : Bytes) (f : ℕ)
    → continues alpha beta ≡ true
    → depth alpha < suc f
    → depth (child (get_contents alpha) n) < f
unfolding equal
continues-depth (node p c) beta n f more d = depth-child p c n f d
continues-depth nil nil n f more d = absurd (ground arith)
continues-depth nil (node q x) n f more d = absurd (ground arith)

-- The names of a position: each is a content name of one of the three entries above it.
abbrev pub Listed : Entry → Entry → Entry → List Bytes → Type 0
Listed ancestor alpha beta [] = Unit
Listed ancestor alpha beta (n ∷ ns) =
    (contains (listed_names ancestor alpha beta) n ≡ true)
    × Listed (child (ancestor_contents ancestor alpha) n) (child (get_contents alpha) n)
        (child (get_contents beta) n) ns

module _ (mode : Mode) (P : Bytes → Entry → Entry → Entry → Action → Type 0) where
  -- `P` of an action and the level that it comes from, at a position below the given one.
  abbrev pub Located : Bytes → Entry → Entry → Entry → Action → Type 0
  Located path ancestor alpha beta action =
      (ns : List Bytes) × P (path_at path ns) (ancestor_at ancestor alpha ns) (descend alpha ns)
        (descend beta ns) action
      × Listed ancestor alpha beta ns

  -- What holds of the own actions of every level holds of all actions, each at its level, where the
  -- fuel is enough for alpha.
  pub Located-reconcile_from :
      ((path : Bytes) (ancestor alpha beta : Entry)
        → All (P path ancestor alpha beta) (own_actions mode path ancestor alpha beta))
      → (f : ℕ) (path : Bytes) (ancestor alpha beta : Entry) → depth alpha < f
      → All (Located path ancestor alpha beta) (reconcile_from f mode path ancestor alpha beta)
  unfolding reconcile_from
  Located-reconcile_from own zero path ancestor alpha beta d = absurd (omega arith)
  Located-reconcile_from own (suc f) path ancestor alpha beta d = rw reconcile_from-suc (
      All-append (Located path ancestor alpha beta) (own_actions mode path ancestor alpha beta) _
        (All-map (P path ancestor alpha beta) (Located path ancestor alpha beta) _
          (λ action h. ([], h, tt)) (own path ancestor alpha beta))
        (below (continues alpha beta) (λ more n.
          Located-reconcile_from own f (joinable path ++ n)
            (child (ancestor_contents ancestor alpha) n) (child (get_contents alpha) n)
            (child (get_contents beta) n) (continues-depth alpha beta n f more d))))
    where
      below :
          (b : Bool)
          → (b ≡ true
              → (n : Bytes)
              → All
                  (Located
                    (joinable path ++ n)
                    (child (ancestor_contents ancestor alpha) n)
                    (child (get_contents alpha) n)
                    (child (get_contents beta) n))
                  (reconcile_from f mode
                    (joinable path ++ n)
                    (child (ancestor_contents ancestor alpha) n)
                    (child (get_contents alpha) n)
                    (child (get_contents beta) n)))
          → All
              (Located path ancestor alpha beta)
              (if b then actions_below f mode path ancestor alpha beta else [])
      below false ih = tt
      below true ih =
          All-flat_map (Located path ancestor alpha beta) _ (listed_names ancestor alpha beta)
            (λ n listed.
              All-map _ (Located path ancestor alpha beta) _
                (λ action h. (n ∷ h.0, h.1, (listed, h.2))) (ih refl n))

-- The ancestor that drives the traversal is the ancestor's own entry, or nil.
pub ancestor_at-descend :
    (ancestor alpha : Entry) (ns : List Bytes)
    → (ancestor_at ancestor alpha ns ≡ nil) ⊎ (ancestor_at ancestor alpha ns ≡ descend ancestor ns)
ancestor_at-descend ancestor alpha [] = inr refl
ancestor_at-descend ancestor alpha (n ∷ ns) = elim (Bool-cases (equal ancestor alpha false)) [
  | inl same ↦
      rw same
        (ancestor_at-descend (child (get_contents ancestor) n) (child (get_contents alpha) n) ns)
  | inr differ ↦ rw differ (elim (ancestor_at-descend nil (child (get_contents alpha) n) ns) [
    | inl e ↦ inl e
    | inr e ↦ inl (e ∙ descend-nil ns)
  ])
]

Covered-nil : (a b : Entry) → Covered nil b → Covered a b
unfolding equal
Covered-nil a b h ns = elim (h ns) [
  | inl gone ↦ inl gone
  | inr m ↦ inl (
      is_nil_of_Matches (descend b ns) nil (Matches-symm nil (descend b ns) (rw descend-nil at m))
        refl)
]

-- What the driving ancestor covers, the ancestor covers at the same address.
pub Covered-descend :
    (ancestor alpha b : Entry) (ns : List Bytes)
    → Covered (ancestor_at ancestor alpha ns) b
    → Covered (descend ancestor ns) b
Covered-descend ancestor alpha b ns h = elim (ancestor_at-descend ancestor alpha ns) [
  | inl e ↦ Covered-nil (descend ancestor ns) b (subst (λ x. Covered x b) e h)
  | inr e ↦ subst (λ x. Covered x b) e h
]
