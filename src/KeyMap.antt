-- ===== src/KeyMap.antt =====
-- Go's `map[string]V`, as an association list with no key twice, and the order of a `range` loop.
pub mod Laws
pub mod Order
use k8s_vectordb_sync.Base.{ℕ, ◌≡◌, Bool, true, Option, none, some, List, [], ◌∷◌, if◌then◌else◌}
use k8s_vectordb_sync.Text.{Text, text_eq}
use mathlib.Core.List.{Permᴰ}

abbrev pub KeyMap {ℓ} : Type ℓ → Type ℓ
KeyMap V = List (Text × V)

module _ {ℓ} {V : Type ℓ} where
  -- `v, ok := m[k]`
  unfoldable pub lookup : Text → KeyMap V → Option V
  lookup k [] = none
  lookup k ((j, v) ∷ m) = if text_eq j k then some v else lookup k m

  -- `m[k] = v`
  unfoldable pub insert : Text → V → KeyMap V → KeyMap V
  insert k v [] = (k, v) ∷ []
  insert k v ((j, w) ∷ m) = if text_eq j k then (k, v) ∷ m else (j, w) ∷ insert k v m

  -- `delete(m, k)`
  unfoldable pub delete : Text → KeyMap V → KeyMap V
  delete k [] = []
  delete k ((j, w) ∷ m) = if text_eq j k then delete k m else (j, w) ∷ delete k m

  -- No key twice: what makes an association list a map.
  abbrev pub Distinct : KeyMap V → Type ℓ
  Distinct [] = Unit
  Distinct ((k, v) ∷ m) = (lookup k m ≡ none) × Distinct m

-- The order in which one `range` loop visits a map. Go leaves it open, so each loop is given one.
pub record Visit {ℓ} (V : Type ℓ) : Type ℓ where
  pub order : KeyMap V → KeyMap V
  pub order_perm : (m : KeyMap V) → Permᴰ (order m) m
