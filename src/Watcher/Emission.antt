-- ===== src/Watcher/Emission.antt =====
-- What a resync counts, and how full the channels of the watcher may be.
use k8s_vectordb_sync.Base.{
  ap, ℕ, ◌+◌, ◌≤◌, ◌≡◌, ◌∙◌, Bool, Option-cases, inl, inr, Option, none, some, List, [], ◌∷◌, arith,
  length,
}
use k8s_vectordb_sync.Metadata.{Unstructured}
use k8s_vectordb_sync.Event.{add}
use k8s_vectordb_sync.Watcher.{
  Gvr, Watcher, emit_crd, resync_items, resync_gvrs, trigger_resync, emit_added,
}

pub record WithinCapacity (w : Watcher) : Type 0 where
  pub events_fit : length w.events.queue ≤ w.events.capacity
  pub crd_events_fit : length w.crd_events.queue ≤ w.crd_events.capacity

-- A resync counts every object that could be listed.
abbrev pub listed_objects : (Gvr → Option (List Unstructured)) → List Gvr → ℕ
listed_objects list [] = 0
listed_objects list (g ∷ gs) =
    (elim (list g) [ none ↦ 0 | some items ↦ length items ]) + listed_objects list gs

emit_added-add :
    (b : Bool) (u : Unstructured) (w : Watcher) → (t : Watcher) × (emit_added b add u w ≡ some t)
unfolding emit_added emit_crd
emit_added-add b u w = elim (Option-cases (emit_added b add u w)) [
  | inl e ↦ absurd (ground arith)
  | inr (t, e) ↦ (t, e)
]

counted :
    {o : Option (Watcher × ℕ)} (t : Watcher) {a b : ℕ} → o ≡ some (t, a) → a ≡ b → o ≡ some (t, b)
counted t h e = h ∙ ap (λ k. some (t, k)) e

resync_items_total :
    (choices : ℕ → Bool) (items : List Unstructured) (w : Watcher) (n : ℕ)
    → (t : Watcher) × (resync_items choices items (w, n) ≡ some (t, n + length items))
unfolding resync_items
resync_items_total choices [] w n = (w, ap (λ k. some (w, k)) (omega arith))
resync_items_total choices (obj ∷ items) w n =
    let (w', e) = emit_added-add (choices n) obj w in
    let (t, f) = resync_items_total choices items w' (n + 1) in
    (t, rw e (counted t f (omega arith)))

resync_gvrs_total :
    (choices : ℕ → Bool) (list : Gvr → Option (List Unstructured)) (gs : List Gvr) (w : Watcher)
    (n : ℕ)
    → (t : Watcher) × (resync_gvrs choices list gs (w, n) ≡ some (t, n + listed_objects list gs))
unfolding resync_gvrs
resync_gvrs_total choices list [] w n = (w, ap (λ k. some (w, k)) (omega arith))
resync_gvrs_total choices list (g ∷ gs) w n = elim (Option-cases (list g)) [
  | inl e ↦
      let (t, f) = resync_gvrs_total choices list gs w n in
      (t, rw (e, resync_gvrs) (counted t f (omega arith)))
  | inr (items, e) ↦
      let (w', f) = resync_items_total choices items w n in
      let (t, h) = resync_gvrs_total choices list gs w' (n + length items) in
      (t, rw (e, resync_gvrs, f) (counted t h (omega arith)))
]

-- A resync never blocks, and counts every object that could be listed, those too whose events a
-- full channel has dropped.
pub trigger_resync_total :
    (choices : ℕ → Bool) (list : Gvr → Option (List Unstructured)) (w : Watcher)
    → (t : Watcher) × (trigger_resync choices list w ≡ some (t, listed_objects list w.watched_gvrs))
unfolding trigger_resync
trigger_resync_total choices list w =
    let (t, e) = resync_gvrs_total choices list w.watched_gvrs w 0 in (t, counted t e (omega arith))
