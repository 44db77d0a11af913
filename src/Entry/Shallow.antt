-- ===== src/Entry/Shallow.antt =====
-- About the shallow `Equal` of pkg/synchronization/core/entry.go.
use mutagen.Base.{true, false, ◌≡◌, refl, arith}
use mutagen.Entry.{Props, Contents, Entry, nil, node, is_nil}
use mutagen.Entry.Compare.{properties_match, equal}

pub properties_match_refl : (p : Props) → properties_match p p ≡ true
unfolding properties_match
properties_match_refl p = ground arith

pub properties_match_symm :
    (p q : Props) → properties_match p q ≡ true → properties_match q p ≡ true
unfolding properties_match
properties_match_symm p q h = ground arith

pub properties_match_trans :
    (p q r : Props)
    → properties_match p q ≡ true
    → properties_match q r ≡ true
    → properties_match p r ≡ true
unfolding properties_match
properties_match_trans p q r h k = ground arith

-- Both nil, or nodes with matching properties.
abbrev pub Matches : Entry → Entry → Type 0
Matches a b = equal a b false ≡ true

pub Matches-refl : (a : Entry) → Matches a a
unfolding equal
Matches-refl nil = refl
Matches-refl (node p c) = ground (arith, properties_match_refl p)

pub Matches-node : (p : Props) (c d : Contents) → Matches (node p c) (node p d)
unfolding equal
Matches-node p c d = ground (arith, properties_match_refl p)

pub Matches-symm : (a b : Entry) → Matches a b → Matches b a
unfolding equal
Matches-symm nil nil h = refl
Matches-symm nil (node q d) h = h
Matches-symm (node p c) nil h = h
Matches-symm (node p c) (node q d) h = ground (arith, properties_match_symm p q)

pub Matches-trans : (a b c : Entry) → Matches a b → Matches b c → Matches a c
unfolding equal
Matches-trans nil nil c h k = k
Matches-trans nil (node q d) c h k = absurd (ground arith)
Matches-trans (node p x) nil c h k = absurd (ground arith)
Matches-trans (node p x) (node q y) nil h k = k
Matches-trans (node p x) (node q y) (node r z) h k = ground (arith, properties_match_trans p q r)

-- Entries that match are nil together.
pub is_nil_of_Matches : (a b : Entry) → Matches a b → is_nil b ≡ true → is_nil a ≡ true
unfolding equal
is_nil_of_Matches nil b h n = refl
is_nil_of_Matches (node p x) nil h n = h
is_nil_of_Matches (node p x) (node q y) h n = n

pub eq_nil_of_is_nil : (a : Entry) → is_nil a ≡ true → a ≡ nil
eq_nil_of_is_nil nil h = refl
eq_nil_of_is_nil (node p c) h = absurd (ground arith)
