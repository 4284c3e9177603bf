-- ===== src/KeyMap/Order.antt =====
-- A map and the orders in which it can be visited.
use mathlib.Core.List.{Permᴰ}
use k8s_vectordb_sync.Base.{◌≡◌, refl, ◌∙◌, ◌∷◌, arith}
use k8s_vectordb_sync.Text.{Text, text_eq_iff}
use k8s_vectordb_sync.KeyMap.{KeyMap, lookup, Distinct, Visit}

module _ {ℓ} {V : Type ℓ} where
  lookup-swap :
      (a b : Text × V) (m : KeyMap V)
      → Distinct (b ∷ a ∷ m)
      → Distinct (a ∷ b ∷ m) × ((k : Text) → lookup k (a ∷ b ∷ m) ≡ lookup k (b ∷ a ∷ m))
  unfolding lookup
  lookup-swap (i, v) (j, w) m d = (
    ground (arith, text_eq_iff i j, text_eq_iff j i),
    λ k. ground (arith, text_eq_iff i j, text_eq_iff j i, text_eq_iff i k, text_eq_iff j k),
  )

  lookup-cons :
      (a : Text × V) (l m : KeyMap V)
      → (Distinct m → Distinct l × ((k : Text) → lookup k l ≡ lookup k m))
      → Distinct (a ∷ m)
      → Distinct (a ∷ l) × ((k : Text) → lookup k (a ∷ l) ≡ lookup k (a ∷ m))
  unfolding lookup
  lookup-cons (i, v) l m ih d =
      let (dl, same) = ih d.1 in ((same i ∙ d.0, dl), λ k. ground (arith, same k))

  -- A map that is visited in another order is the same map.
  pub lookup-perm :
      {l m : KeyMap V}
      → Permᴰ l m
      → Distinct m
      → Distinct l × ((k : Text) → lookup k l ≡ lookup k m)
  lookup-perm Permᴰ.nil d = (tt, λ k. refl)
  lookup-perm (Permᴰ.cons {a = a} {l₁ = l} {l₂ = m} e p) d =
      rw (← e) (lookup-cons a l m (lookup-perm p) (rw (← e) at d))
  lookup-perm (Permᴰ.swap {a = a} {b = b} {l = l} e f) d =
      rw (← e, ← f) (lookup-swap a b l (rw (← e, ← f) at d))
  lookup-perm (Permᴰ.trans p q) d =
      let (dm, same) = lookup-perm q d in
      let (dl, same') = lookup-perm p dm in (dl, λ k. same' k ∙ same k)

  pub lookup-order :
      (v : Visit V) (m : KeyMap V)
      → Distinct m
      → Distinct (v.order m) × ((k : Text) → lookup k (v.order m) ≡ lookup k m)
  lookup-order v m = lookup-perm (v.order_perm m)
