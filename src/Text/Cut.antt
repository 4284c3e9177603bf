-- ===== src/Text/Cut.antt =====
-- Splitting a text at a separator.
use k8s_vectordb_sync.Base.{ℕ, ◌≡◌, refl, ap, true, false, none, some, [], ◌∷◌, ◌++◌, arith}
use k8s_vectordb_sync.Text.{Text, contains, cut}

-- The part before the first separator, and all that follows it.
pub cut-append : (c : ℕ) (a b : Text) → contains c a ≡ false → cut c (a ++ c ∷ b) ≡ some (a, b)
unfolding cut contains
cut-append c [] b h = ground arith
cut-append c (x ∷ a) b h = ground (arith, cut-append c a b)

pub cut_absent : (c : ℕ) (a : Text) → contains c a ≡ false → cut c a ≡ none
unfolding cut contains
cut_absent c [] h = refl
cut_absent c (x ∷ a) h = ground (arith, cut_absent c a)

contains-append_sep : (c : ℕ) (a b : Text) → contains c (a ++ c ∷ b) ≡ true
unfolding contains
contains-append_sep c [] b = ground arith
contains-append_sep c (x ∷ a) b = ground (arith, contains-append_sep c a b)

-- The part before the first separator is determined by the whole.
pub first_part_injective :
    (c : ℕ) (a a' b b' : Text)
    → contains c a ≡ false
    → contains c a' ≡ false
    → a ++ c ∷ b ≡ a' ++ c ∷ b'
    → (a ≡ a') × (b ≡ b')
first_part_injective c a a' b b' h h' e =
    ground (arith, cut-append c a b h, cut-append c a' b' h', ap (cut c) e)

-- So is the part behind the last one.
pub last_part_injective :
    (c : ℕ) (a a' b b' : Text)
    → contains c b ≡ false
    → contains c b' ≡ false
    → a ++ c ∷ b ≡ a' ++ c ∷ b'
    → (a ≡ a') × (b ≡ b')
unfolding contains
last_part_injective c [] [] b b' h h' e = ground arith
last_part_injective c [] (y ∷ a') b b' h h' e = ground (arith, contains-append_sep c a' b')
last_part_injective c (x ∷ a) [] b b' h h' e = ground (arith, contains-append_sep c a b)
last_part_injective c (x ∷ a) (y ∷ a') b b' h h' e =
    ground (arith, last_part_injective c a a' b b' h h')
