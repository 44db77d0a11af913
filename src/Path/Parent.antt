-- ===== src/Path/Parent.antt =====
-- About `Dir` and `Base` of pkg/synchronization/core/fastpath/fastpath.go on joined paths.
use mutagen.Base.{
  ℕ, append_assoc, Bytes, false, none, some, [], ◌∷◌, ◌++◌, ◌≡◌, refl, ap, ◌∙◌, arith, bytes_eq,
  nat_eq, ◌==◌, contains, is_empty,
}
use mutagen.Path.{separator, joinable, last_slash, dir, base}
use mutagen.Path.Join.{IsName, joinable-filled, joinable-nil}

last_slash-name : (n : Bytes) → contains n separator ≡ false → last_slash n ≡ none
unfolding last_slash
last_slash-name [] h = refl
last_slash-name (c ∷ n) h =
    let rest : last_slash n ≡ none = last_slash-name n (ground arith) in ground arith

last_slash-append :
    (q n : Bytes) → contains n separator ≡ false → last_slash (q ++ (separator ∷ n)) ≡ some (q, n)
unfolding last_slash
last_slash-append [] n h = rw (last_slash-name n h) (ground arith)
last_slash-append (c ∷ q) n h = rw (last_slash-append q n h) refl

filled-ne : (q : Bytes) → is_empty q ≡ false → (q == []) ≡ false
filled-ne q h = ground arith

-- The two functions by what stands around the last separator.
below_root :
    (path : Bytes)
    → (path == []) ≡ false
    → last_slash path ≡ none
    → (dir path ≡ some []) × (base path ≡ some path)
unfolding dir base
below_root path h k = rw (h, k) (refl, refl)

below_parent :
    (path q n : Bytes)
    → (path == []) ≡ false
    → last_slash path ≡ some (q, n)
    → (q == []) ≡ false
    → (n == []) ≡ false
    → (dir path ≡ some q) × (base path ≡ some n)
unfolding dir base
below_parent path q n h k a b = rw (h, k, a, b) (refl, refl)

joined : (c : ℕ) (q n : Bytes) → joinable (c ∷ q) ++ n ≡ (c ∷ q) ++ (separator ∷ n)
joined c q n =
    ap (λ p. p ++ n) (joinable-filled (c ∷ q) refl) ∙ append_assoc (c ∷ q) (separator ∷ []) n

-- For every directory path q and every name n, Dir of the joined path is q and Base is n: neither
-- panics.
pub dir-joinable :
    (q n : Bytes) → IsName n → (dir (joinable q ++ n) ≡ some q) × (base (joinable q ++ n) ≡ some n)
dir-joinable [] n h =
    rw joinable-nil (below_root n (filled-ne n h.filled) (last_slash-name n h.plain))
dir-joinable (c ∷ q) n h = rw (joined c q n) (
    below_parent ((c ∷ q) ++ (separator ∷ n)) (c ∷ q) n (filled-ne _ refl)
      (last_slash-append (c ∷ q) n h.plain) (filled-ne (c ∷ q) refl) (filled-ne n h.filled))
