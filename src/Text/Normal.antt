-- ===== src/Text/Normal.antt =====
-- Lowering and trimming, applied once and again.
use k8s_vectordb_sync.Base.{ℕ, ◌≡◌, refl, ap, ◌∙◌, false, List, [], ◌∷◌, ◌++◌, arith, All}
use k8s_vectordb_sync.Text.{
  Text, lower, to_lower, is_space, trim_left, trim_cons, trim_right, trim_space, contains, split,
  add_to_head,
}

pub lower_idem : (c : ℕ) → lower (lower c) ≡ lower c
unfolding lower
lower_idem c = ground arith

pub to_lower_idem : (s : Text) → to_lower (to_lower s) ≡ to_lower s
unfolding to_lower
to_lower_idem [] = refl
to_lower_idem (c ∷ s) = cc (lower_idem c, to_lower_idem s)

is_space-lower : (c : ℕ) → is_space (lower c) ≡ is_space c
unfolding lower is_space
is_space-lower c = ground arith

-- The first byte is no blank, and neither is the last.
abbrev pub StartsPlain : Text → Type 0
StartsPlain [] = Unit
StartsPlain (c ∷ s) = is_space c ≡ false

abbrev pub EndsPlain : Text → Type 0
EndsPlain [] = Unit
EndsPlain (c ∷ []) = is_space c ≡ false
EndsPlain (c ∷ d ∷ s) = EndsPlain (d ∷ s)

pub trim_left-StartsPlain : (s : Text) → StartsPlain (trim_left s)
unfolding trim_left
trim_left-StartsPlain [] = tt
trim_left-StartsPlain (c ∷ s) = ground (arith, trim_left-StartsPlain s)

trim_cons-StartsPlain : (c : ℕ) (s : Text) → is_space c ≡ false → StartsPlain (trim_cons c s)
unfolding trim_cons
trim_cons-StartsPlain c [] h = ground arith
trim_cons-StartsPlain c (d ∷ s) h = h

trim_right-StartsPlain : (s : Text) → StartsPlain s → StartsPlain (trim_right s)
unfolding trim_right
trim_right-StartsPlain [] h = tt
trim_right-StartsPlain (c ∷ s) h = trim_cons-StartsPlain c (trim_right s) h

trim_cons-EndsPlain : (c : ℕ) (s : Text) → EndsPlain s → EndsPlain (trim_cons c s)
unfolding trim_cons
trim_cons-EndsPlain c [] h = ground arith
trim_cons-EndsPlain c (d ∷ s) h = h

pub trim_right-EndsPlain : (s : Text) → EndsPlain (trim_right s)
unfolding trim_right
trim_right-EndsPlain [] = tt
trim_right-EndsPlain (c ∷ s) = trim_cons-EndsPlain c (trim_right s) (trim_right-EndsPlain s)

pub trim_space-plain : (s : Text) → StartsPlain (trim_space s) × EndsPlain (trim_space s)
unfolding trim_space
trim_space-plain s = (
  trim_right-StartsPlain (trim_left s) (trim_left-StartsPlain s),
  trim_right-EndsPlain (trim_left s),
)

trim_left_of_plain : (s : Text) → StartsPlain s → trim_left s ≡ s
unfolding trim_left
trim_left_of_plain [] h = refl
trim_left_of_plain (c ∷ s) h = rw h

trim_right_of_plain : (s : Text) → EndsPlain s → trim_right s ≡ s
unfolding trim_right trim_cons
trim_right_of_plain [] h = refl
trim_right_of_plain (c ∷ []) h = rw h
trim_right_of_plain (c ∷ d ∷ s) h = rw (trim_right_of_plain (d ∷ s) h, trim_cons)

pub trim_space_of_plain : (s : Text) → StartsPlain s → EndsPlain s → trim_space s ≡ s
unfolding trim_space
trim_space_of_plain s h k = ap trim_right (trim_left_of_plain s h) ∙ trim_right_of_plain s k

lower-StartsPlain : (s : Text) → StartsPlain s → StartsPlain (to_lower s)
unfolding to_lower
lower-StartsPlain [] h = tt
lower-StartsPlain (c ∷ s) h = is_space-lower c ∙ h

lower-EndsPlain : (s : Text) → EndsPlain s → EndsPlain (to_lower s)
unfolding to_lower
lower-EndsPlain [] h = tt
lower-EndsPlain (c ∷ []) h = is_space-lower c ∙ h
lower-EndsPlain (c ∷ d ∷ s) h = lower-EndsPlain (d ∷ s) h

-- Joining parts that hold no separator, and splitting, gives the parts back.
abbrev pub join : ℕ → Text → List Text → Text
join sep part [] = part
join sep part (next ∷ parts) = part ++ sep ∷ join sep next parts

add_to_head-append :
    (sep : ℕ) (part s : Text)
    → contains sep part ≡ false
    → split sep (part ++ sep ∷ s) ≡ part ∷ split sep s
unfolding split contains add_to_head
add_to_head-append sep [] s h = ground arith
add_to_head-append sep (c ∷ part) s h = ground (arith, add_to_head-append sep part s)

split_one : (sep : ℕ) (part : Text) → contains sep part ≡ false → split sep part ≡ part ∷ []
unfolding split contains add_to_head
split_one sep [] h = refl
split_one sep (c ∷ part) h = ground (arith, split_one sep part)

pub split-join :
    (sep : ℕ) (part : Text) (parts : List Text)
    → contains sep part ≡ false
    → All (λ p. contains sep p ≡ false) parts
    → split sep (join sep part parts) ≡ part ∷ parts
split-join sep part [] h k = split_one sep part h
split-join sep part (next ∷ parts) h (g, k) =
    add_to_head-append sep part (join sep next parts) h
    ∙ ap (◌∷◌ part) (split-join sep next parts g k)
