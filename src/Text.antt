-- ===== src/Text.antt =====
-- Go strings: sequences of bytes. The functions of the package strings that the program calls are
-- modelled on ASCII texts; a byte from 128 on is left alone by `to_lower` and `trim_space`.
pub mod Cut
pub mod Decimal
pub mod Normal
use Prim.Native.Char.{code}
use Prim.Native.String.{String}
use k8s_vectordb_sync.Base.{
  ℕ, ◌+◌, leb, map, ◌≡◌, refl, ◌↔◌, ◌&&◌, ◌||◌, Option, none, some, if◌then◌else◌, Bool, true,
  false, List, [], ◌∷◌, arith, ◌==◌, ==_iff,
}

abbrev pub Text : Type 0
Text = List ℕ

-- The bytes of an ASCII literal.
abbrev pub text : String → Text
text String.[] = []
text (String.◌∷◌ c s) = code c ∷ text s

-- `s == t`
unfoldable pub text_eq : Text → Text → Bool
text_eq [] [] = true
text_eq [] (y ∷ t) = false
text_eq (x ∷ s) [] = false
text_eq (x ∷ s) (y ∷ t) = x == y && text_eq s t

text_eq_sound : (s t : Text) → text_eq s t ≡ true → s ≡ t
unfolding text_eq
text_eq_sound [] [] h = refl
text_eq_sound [] (y ∷ t) h = cc
text_eq_sound (x ∷ s) [] h = cc
text_eq_sound (x ∷ s) (y ∷ t) h = ground (arith, text_eq_sound s t)

pub text_eq_refl : (s : Text) → text_eq s s ≡ true
unfolding text_eq
text_eq_refl [] = refl
text_eq_refl (x ∷ s) = ground (arith, text_eq_refl s)

pub text_eq_iff : (s t : Text) → (text_eq s t ≡ true) ↔ (s ≡ t)
text_eq_iff s t = (text_eq_sound s t, λ e. subst_eq e)
  where
    subst_eq : s ≡ t → text_eq s t ≡ true
    subst_eq e = rw e (text_eq_refl t)

-- `strings.HasPrefix(s, p)`
unfoldable pub has_prefix : Text → Text → Bool
has_prefix s [] = true
has_prefix [] (c ∷ p) = false
has_prefix (x ∷ s) (c ∷ p) = x == c && has_prefix s p

-- `strings.Contains(s, c)` for a text of one byte
unfoldable pub contains : ℕ → Text → Bool
contains c [] = false
contains c (x ∷ s) = x == c || contains c s

add_front : ℕ → Option (Text × Text) → Option (Text × Text)
add_front x none = none
add_front x (some (a, b)) = some (x ∷ a, b)

-- What stands before and behind the first separator.
unfoldable pub cut : ℕ → Text → Option (Text × Text)
unfolding add_front
cut c [] = none
cut c (x ∷ s) = if x == c then some ([], s) else add_front x (cut c s)

one_or_two : Text → Option (Text × Text) → List Text
one_or_two s none = s ∷ []
one_or_two s (some (a, b)) = a ∷ b ∷ []

-- `strings.SplitN(s, c, 2)`
unfoldable pub split_n_2 : ℕ → Text → List Text
unfolding cut one_or_two
split_n_2 c s = one_or_two s (cut c s)

unfoldable pub lower : ℕ → ℕ
lower c = if leb b'A' c && leb c b'Z' then c + 32 else c

-- `strings.ToLower(s)`
unfoldable pub to_lower : Text → Text
unfolding lower
to_lower = map lower

-- `unicode.IsSpace` on ASCII: tab, line feed, vertical tab, form feed, return and blank.
unfoldable pub is_space : ℕ → Bool
is_space c = (leb 9 c && leb c 13) || c == b' '

unfoldable pub trim_left : Text → Text
unfolding is_space
trim_left [] = []
trim_left (c ∷ s) = if is_space c then trim_left s else c ∷ s

-- One step from the end: a blank is kept in front of what is left.
trim_cons : ℕ → Text → Text
trim_cons c [] = if is_space c then [] else c ∷ []
trim_cons c (d ∷ s) = c ∷ d ∷ s

unfoldable pub trim_right : Text → Text
unfolding is_space trim_cons
trim_right [] = []
trim_right (c ∷ s) = trim_cons c (trim_right s)

-- `strings.TrimSpace(s)`
unfoldable pub trim_space : Text → Text
unfolding trim_left trim_right
trim_space s = trim_right (trim_left s)

add_to_head : ℕ → List Text → List Text
add_to_head c [] = (c ∷ []) ∷ []
add_to_head c (part ∷ parts) = (c ∷ part) ∷ parts

-- `strings.Split(s, sep)` for a separator of one byte
unfoldable pub split : ℕ → Text → List Text
unfolding add_to_head
split sep [] = [] ∷ []
split sep (c ∷ s) = if c == sep then [] ∷ split sep s else add_to_head c (split sep s)
