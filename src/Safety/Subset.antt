-- ===== src/Safety/Subset.antt =====
-- About `filteredPathsAreSubset` of pkg/synchronization/safety.go and sublists.
use mutagen.Base.{
  Bytes, true, some, List, [], ◌∷◌, ◌≡◌, ◌↔◌, refl, sym, ◌∙◌, ap, inl, inr, Bool-cases, ◌==◌,
  bytes_eq, ==→eq, ==_self, Option-cases,
}
use mathlib.Core.Path.{subst}
use mathlib.Core.Logic.{∥∥₁_elim}
use mathlib.Core.Bool.{Bool-set}
use mathlib.Core.Option.{some-injective}
use mathlib.Core.List.{Sublistᴰ, Sublist}
use mutagen.Safety.{after_match, filtered_paths_are_subset}

Sublistᴰ-tail : {f : Bytes} {fs os : List Bytes} → Sublistᴰ (f ∷ fs) os → Sublistᴰ fs os
Sublistᴰ-tail (Sublistᴰ.cons s) = Sublistᴰ.cons (Sublistᴰ-tail s)
Sublistᴰ-tail (Sublistᴰ.cons-cons e s) = Sublistᴰ.cons s

-- What remains behind the first match still holds the other filtered paths.
first_match :
    {f : Bytes} {fs os : List Bytes}
    → Sublistᴰ (f ∷ fs) os
    → (rest : List Bytes) × (after_match f os ≡ some rest) × Sublistᴰ fs rest
first_match {f} (Sublistᴰ.cons {a} {l₂ = l} s) = elim (Bool-cases (a == f)) [
  | inl same ↦ (l, rw same refl, Sublistᴰ-tail s)
  | inr differ ↦ rw differ (first_match s)
]
first_match {f} (Sublistᴰ.cons-cons {b = b} {l₂ = l} e s) =
    (l, rw (ap (λ x. x == f) (sym e) ∙ ==_self f) refl, s)

behind_match :
    (f : Bytes) (fs os : List Bytes) {rest : List Bytes}
    → after_match f os ≡ some rest
    → Sublistᴰ fs rest
    → Sublistᴰ (f ∷ fs) os
behind_match f fs [] e s = absurd (cc e)
behind_match f fs (o ∷ os) {rest} e s = elim (Bool-cases (o == f)) [
  | inl same ↦
      Sublistᴰ.cons-cons (sym (==→eq o f same))
        (subst (Sublistᴰ fs) (sym (some-injective _ _ (rw same at e))) s)
  | inr differ ↦ Sublistᴰ.cons (behind_match f fs os (rw differ at e) s)
]

found-of_Sublist : (fs os : List Bytes) → Sublistᴰ fs os → filtered_paths_are_subset fs os ≡ true
unfolding filtered_paths_are_subset
found-of_Sublist [] os s = refl
found-of_Sublist (f ∷ fs) os s =
    let (rest, e, t) = first_match s in
    rw (filtered_paths_are_subset, e) (found-of_Sublist fs rest t)

Sublistᴰ-nil : (os : List Bytes) → Sublistᴰ [] os
Sublistᴰ-nil [] = Sublistᴰ.slnil
Sublistᴰ-nil (o ∷ os) = Sublistᴰ.cons (Sublistᴰ-nil os)

Sublistᴰ-of_found : (fs os : List Bytes) → filtered_paths_are_subset fs os ≡ true → Sublistᴰ fs os
unfolding filtered_paths_are_subset
Sublistᴰ-of_found [] os h = Sublistᴰ-nil os
Sublistᴰ-of_found (f ∷ fs) os h = elim (Option-cases (after_match f os)) [
  | inl e ↦ absurd (cc (rw (filtered_paths_are_subset, e) at h))
  | inr (rest, e) ↦
      behind_match f fs os e (Sublistᴰ-of_found fs rest (rw (filtered_paths_are_subset, e) at h))
]

-- The test of the paths that staging left over succeeds exactly for the sublists of the original
-- paths: those in the same relative order, each matched by a path of its own.
pub filtered_paths_are_subset_iff :
    (filtered original : List Bytes)
    → (filtered_paths_are_subset filtered original ≡ true) ↔ Sublist filtered original
filtered_paths_are_subset_iff filtered original = (
  (λ h. ∣ Sublistᴰ-of_found filtered original h ∣₁),
  (λ s. ∥∥₁_elim s (Bool-set _ _) (λ t. found-of_Sublist filtered original t)),
)
