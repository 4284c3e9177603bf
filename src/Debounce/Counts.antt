-- ===== src/Debounce/Counts.antt =====
-- How many pending changes are ready.
use mathlib.Core.List.{Permᴰ}
use k8s_vectordb_sync.Base.{
  ℕ, ◌+◌, ◌≤◌, ◌≡◌, refl, ◌∙◌, false, some, [], ◌∷◌, arith, length, if◌then◌else◌,
}
use k8s_vectordb_sync.Text.{Text, text_eq_refl, text_eq_iff}
use k8s_vectordb_sync.KeyMap.{KeyMap, Visit, lookup, insert, delete, Distinct}
use k8s_vectordb_sync.KeyMap.Order.{lookup-order}
use k8s_vectordb_sync.Debounce.{PendingChange, DebounceBuffer, count_ready, ready_count}
use k8s_vectordb_sync.Debounce.Collect.{
  ready_instances, lookup-collect_ready, collect_ready-Distinct,
}
use k8s_vectordb_sync.Debounce.Outcome.{left_pending}

count_from : (m : KeyMap PendingChange) (n : ℕ) → count_ready m n ≡ n + length (ready_instances m)
unfolding count_ready
count_from [] n = omega arith
count_from ((k, c) ∷ m) n = ground (arith, count_from m (n + 1), count_from m n)

pub ready_count_lem : (d : DebounceBuffer) → ready_count d ≡ length (ready_instances d.pending)
unfolding ready_count
ready_count_lem d = omega (arith, count_from d.pending 0)

length-ready_perm :
    {l m : KeyMap PendingChange}
    → Permᴰ l m
    → length (ready_instances l) ≡ length (ready_instances m)
length-ready_perm Permᴰ.nil = refl
length-ready_perm (Permᴰ.cons {a = (k, c)} {l₁ = l} {l₂ = m} e p) =
    rw (← e) (ground (arith, length-ready_perm p))
length-ready_perm (Permᴰ.swap {a = (i, c)} {b = (j, x)} {l = l} e f) = rw (← e, ← f) (ground arith)
length-ready_perm (Permᴰ.trans p q) = length-ready_perm p ∙ length-ready_perm q

pub length-ready_order :
    (visit : Visit PendingChange) (m : KeyMap PendingChange)
    → length (ready_instances (visit.order m)) ≡ length (ready_instances m)
length-ready_order visit m = length-ready_perm (visit.order_perm m)

pub ready-delete :
    (k : Text) (m : KeyMap PendingChange)
    → length (ready_instances (delete k m)) ≤ length (ready_instances m)
unfolding delete
ready-delete k [] = omega arith
ready-delete k ((j, c) ∷ m) = ground (arith, ready-delete k m)

pub ready-insert :
    (k : Text) (c : PendingChange) (m : KeyMap PendingChange)
    → length (ready_instances (insert k c m))
      ≤ length (ready_instances m) + (if c.ready then 1 else 0)
unfolding insert
ready-insert k c [] = ground arith
ready-insert k c ((j, x) ∷ m) = ground (arith, ready-insert k c m)

none_ready :
    (m : KeyMap PendingChange)
    → Distinct m
    → ((k : Text) (c : PendingChange) → lookup k m ≡ some c → c.ready ≡ false)
    → ready_instances m ≡ []
unfolding lookup
none_ready [] d h = refl
none_ready ((k, c) ∷ m) d h =
    let first : c.ready ≡ false = h k c (ground (arith, text_eq_refl k)) in
    rw first (none_ready m d.1 (λ j x e. h j x (ground (arith, d.0, text_eq_iff k j))))

pub left_none_ready :
    (visit : Visit PendingChange) (d : DebounceBuffer)
    → Distinct d.pending
    → ready_instances (left_pending visit d) ≡ []
left_none_ready visit d h =
    let (distinct, same) = lookup-order visit d.pending h in
    none_ready (left_pending visit d)
      (collect_ready-Distinct (visit.order d.pending) d.pending [] h)
      (λ k c h.
        ground
          (arith, lookup-collect_ready k (visit.order d.pending) d.pending [] distinct, same k))
