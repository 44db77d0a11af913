-- ===== src/Base/Lists.antt =====
-- Lists: native lengths, loops that append, and predicates by recursion.
use Prim.Native.Nat.{ℕ, suc, ◌+◌}
use mathlib.Core.Path.{◌≡◌, refl}
use mathlib.Core.Bool.{Bool, true, false, ◌||◌}
use mathlib.Core.List.{List, [], ◌∷◌, ◌++◌}
use native.Mathlib.Omega.{arith}
use mutagen.Base.Tests.{Eq, ◌==◌}

abbrev pub length {ℓ} : {A : Type ℓ} → List A → ℕ
length [] = 0
length (x ∷ xs) = suc (length xs)

-- `len(xs) == 0`
abbrev pub is_empty {ℓ} : {A : Type ℓ} → List A → Bool
is_empty [] = true
is_empty (x ∷ xs) = false

pub eq_nil_of_is_empty {ℓ} : {A : Type ℓ} (xs : List A) → is_empty xs ≡ true → xs ≡ []
eq_nil_of_is_empty [] h = refl
eq_nil_of_is_empty (x ∷ xs) h = cc

-- The results of a loop over a list whose every round appends some.
abbrev pub flat_map {ℓ κ} : {A : Type ℓ} {B : Type κ} → (A → List B) → List A → List B
flat_map f [] = []
flat_map f (x ∷ xs) = f x ++ flat_map f xs

abbrev pub All {ℓ κ} : {A : Type ℓ} → (A → Type κ) → List A → Type κ
All P [] = Unit
All P (x ∷ xs) = P x × All P xs

abbrev pub contains {ℓ} : {A : Type ℓ} ⦃e : Eq A⦄ → List A → A → Bool
contains [] a = false
contains (x ∷ xs) a = a == x || contains xs a

-- No element is listed twice.
abbrev pub Distinct {ℓ} : {A : Type ℓ} ⦃e : Eq A⦄ → List A → Type 0
Distinct [] = Unit
Distinct (x ∷ xs) = (contains xs x ≡ false) × Distinct xs

pub length-append {ℓ} : {A : Type ℓ} (xs ys : List A) → length (xs ++ ys) ≡ length xs + length ys
length-append [] ys = omega arith
length-append (x ∷ xs) ys = omega (arith, length-append xs ys)

pub All-append {ℓ κ} :
    {A : Type ℓ} (P : A → Type κ) (xs ys : List A) → All P xs → All P ys → All P (xs ++ ys)
All-append P [] ys h k = k
All-append P (x ∷ xs) ys (p, h) k = (p, All-append P xs ys h k)

-- What every round appends satisfies `P`, if the rounds over listed elements do.
pub All-flat_map {ℓ κ μ} :
    {A : Type ℓ} ⦃e : Eq A⦄ {B : Type κ} (P : B → Type μ) (f : A → List B) (xs : List A)
    → ((x : A) → contains xs x ≡ true → All P (f x))
    → All P (flat_map f xs)
All-flat_map P f [] h = tt
All-flat_map P f (x ∷ xs) h =
    All-append P (f x) (flat_map f xs) (h x (ground arith))
      (All-flat_map P f xs (λ y m. h y (ground arith)))

pub All-map {ℓ κ μ} :
    {A : Type ℓ} (P : A → Type κ) (Q : A → Type μ) (xs : List A)
    → ((x : A) → P x → Q x)
    → All P xs
    → All Q xs
All-map P Q [] f h = tt
All-map P Q (x ∷ xs) f (p, h) = (f x p, All-map P Q xs f h)

pub eq_nil_of_All {ℓ} :
    {A : Type ℓ} (P : A → Type 0) (xs : List A) → ((x : A) → P x → ⊥) → All P xs → xs ≡ []
eq_nil_of_All P [] f h = refl
eq_nil_of_All P (x ∷ xs) f (p, h) = absurd (f x p)

-- A loop whose rounds over listed elements append nothing appends nothing.
pub flat_map-eq-nil {ℓ κ} :
    {A : Type ℓ} ⦃e : Eq A⦄ {B : Type κ} (f : A → List B) (xs : List A)
    → ((x : A) → contains xs x ≡ true → f x ≡ [])
    → flat_map f xs ≡ []
flat_map-eq-nil f [] h = refl
flat_map-eq-nil f (x ∷ xs) h = ground (arith, h x, flat_map-eq-nil f xs (λ y m. h y (ground arith)))

pub flat_map_congr {ℓ κ} :
    {A : Type ℓ} ⦃e : Eq A⦄ {B : Type κ} (f g : A → List B) (xs : List A)
    → ((x : A) → contains xs x ≡ true → f x ≡ g x)
    → flat_map f xs ≡ flat_map g xs
flat_map_congr f g [] h = refl
flat_map_congr f g (x ∷ xs) h =
    ground (arith, h x, flat_map_congr f g xs (λ y m. h y (ground arith)))

pub nil_of_append {ℓ} : {A : Type ℓ} (xs ys : List A) → xs ++ ys ≡ [] → (xs ≡ []) × (ys ≡ [])
nil_of_append [] ys h = (refl, h)
nil_of_append (x ∷ xs) ys h = cc

-- One round of a loop that appends nothing appended nothing.
pub nil_of_flat_map {ℓ κ} :
    {A : Type ℓ} ⦃e : Eq A⦄ {B : Type κ} (f : A → List B) (xs : List A) (x : A)
    → flat_map f xs ≡ []
    → contains xs x ≡ true
    → f x ≡ []
nil_of_flat_map f [] x h m = absurd (ground arith)
nil_of_flat_map f (y ∷ xs) x h m =
    let (here, later) = nil_of_append (f y) (flat_map f xs) h in
    ground (arith, here, nil_of_flat_map f xs x later)
