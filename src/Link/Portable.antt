-- ===== src/Link/Portable.antt =====
-- About the targets that pkg/synchronization/core/symbolic_link.go lets through.
use mutagen.Base.{
  suc, Bytes, Bool, true, false, [], ◌∷◌, ◌==◌, ◌≡◌, refl, ap, nat_eq, bytes_eq, ltb, length, arith,
  contains, if◌then◌else◌,
}
use mathlib.Core.Path.{subst}
use mutagen.Path.{split}
use mutagen.Link.{
  Linked, LinkError, linked, refused, normalize_symbolic_link_and_ensure_portable, ensure_inside,
  escapes, count_slashes, is_absolute, with_slashes, colon, backslash,
  maximum_portable_symbolic_link_target_length,
}

-- What the checks ask of a target.
pub record IsPortable (path target : Bytes) : Type 0 where
  pub filled : (target == []) ≡ false
  pub short : ltb maximum_portable_symbolic_link_target_length (length target) ≡ false
  pub no_colon : contains target colon ≡ false
  pub no_backslash : contains target backslash ≡ false
  pub relative : is_absolute target ≡ false
  pub inside : escapes (count_slashes path) (split target) ≡ false

passed :
    (b : Bool) (e : LinkError) (x : Linked) (t : Bytes)
    → (if b then refused e else x) ≡ linked t
    → (b ≡ false) × (x ≡ linked t)
passed true e x t h = absurd (cc h)
passed false e x t h = (refl, h)

linked-injective : (s t : Bytes) → linked s ≡ linked t → s ≡ t
linked-injective s t h = cc h

length-with_slashes : (t : Bytes) → length (with_slashes t) ≡ length t
length-with_slashes [] = refl
length-with_slashes (c ∷ t) = ap suc (length-with_slashes t)

filled-with_slashes : (t : Bytes) → (t == []) ≡ false → (with_slashes t == []) ≡ false
filled-with_slashes [] h = h
filled-with_slashes (c ∷ t) h = ground arith

contains-with_slashes-backslash : (t : Bytes) → contains (with_slashes t) backslash ≡ false
contains-with_slashes-backslash [] = refl
contains-with_slashes-backslash (c ∷ t) = ground (arith, contains-with_slashes-backslash t)

contains-with_slashes-colon :
    (t : Bytes) → contains t colon ≡ false → contains (with_slashes t) colon ≡ false
contains-with_slashes-colon [] h = refl
contains-with_slashes-colon (c ∷ t) h =
    let rest : contains t colon ≡ false = ground arith in
    ground (arith, contains-with_slashes-colon t rest)

with_slashes_of_none : (t : Bytes) → contains t backslash ≡ false → with_slashes t ≡ t
with_slashes_of_none [] h = refl
with_slashes_of_none (c ∷ t) h =
    let rest : contains t backslash ≡ false = ground arith in
    let other : (c == backslash) ≡ false = ground arith in
    rw other (ap (λ cs. c ∷ cs) (with_slashes_of_none t rest))

ensure_inside-linked :
    (path target t : Bytes)
    → ensure_inside path target ≡ linked t
    → (is_absolute target ≡ false)
      × (escapes (count_slashes path) (split target) ≡ false)
      × (target ≡ t)
ensure_inside-linked path target t h =
    let (relative, h₁) = passed _ _ _ t h in
    let (inside, h₂) = passed _ _ _ t h₁ in (relative, inside, linked-injective target t h₂)

-- A target that is let through passes every check as it is returned.
pub normalize-IsPortable :
    (windows : Bool) (path target t : Bytes)
    → normalize_symbolic_link_and_ensure_portable windows path target ≡ linked t
    → IsPortable path t
unfolding normalize_symbolic_link_and_ensure_portable
normalize-IsPortable true path target t h =
    let (filled, h₁) = passed _ _ _ t h in
    let (short, h₂) = passed _ _ _ t h₁ in
    let (no_colon, h₃) = passed _ _ _ t h₂ in
    let (relative, inside, e) = ensure_inside-linked path (with_slashes target) t h₃ in
    subst (IsPortable path) e (record {
      filled = filled-with_slashes target filled;
      short = rw (length-with_slashes target) short;
      no_colon = contains-with_slashes-colon target no_colon;
      no_backslash = contains-with_slashes-backslash target;
      relative = relative;
      inside = inside;
    })
normalize-IsPortable false path target t h =
    let (filled, h₁) = passed _ _ _ t h in
    let (short, h₂) = passed _ _ _ t h₁ in
    let (no_colon, h₃) = passed _ _ _ t h₂ in
    let (no_backslash, h₄) = passed _ _ _ t h₃ in
    let (relative, inside, e) = ensure_inside-linked path target t h₄ in
    subst (IsPortable path) e (record {
      filled = filled;
      short = short;
      no_colon = no_colon;
      no_backslash = no_backslash;
      relative = relative;
      inside = inside;
    })

-- A target that passes every check is let through as it is, on every system.
pub normalize_of_IsPortable :
    (windows : Bool) (path t : Bytes)
    → IsPortable path t
    → normalize_symbolic_link_and_ensure_portable windows path t ≡ linked t
unfolding normalize_symbolic_link_and_ensure_portable
normalize_of_IsPortable true path t p =
    rw (with_slashes_of_none t p.no_backslash, p.filled, p.short, p.no_colon, p.relative, p.inside)
      refl
normalize_of_IsPortable false path t p =
    rw (p.filled, p.short, p.no_colon, p.no_backslash, p.relative, p.inside) refl

-- A target that one system lets through is let through by every other system at the same path,
-- without a change: Windows and the others agree on what is portable.
pub normalize-normalize :
    (windows windows' : Bool) (path target t : Bytes)
    → normalize_symbolic_link_and_ensure_portable windows path target ≡ linked t
    → normalize_symbolic_link_and_ensure_portable windows' path t ≡ linked t
normalize-normalize windows windows' path target t h =
    normalize_of_IsPortable windows' path t (normalize-IsPortable windows path target t h)
