-- ===== src/Sender/Repair.antt =====
-- What a resync over the endpoint does for the receiver.
use mathlib.Core.List.{append_assoc}
use k8s_vectordb_sync.Base.{
  ℕ, ◌+◌, ◌≤◌, ◌≡◌, refl, sym, ◌∙◌, ap, Bool, false, Option, none, some, List, [], ◌∷◌, ◌++◌, arith,
  if◌then◌else◌, Option-cases, inl, inr, length,
}
use k8s_vectordb_sync.Text.{Text, text_eq}
use k8s_vectordb_sync.Metadata.{ResourceInstance, Unstructured, extract}
use k8s_vectordb_sync.Event.{add}
use k8s_vectordb_sync.Debounce.View.{Instances}
use k8s_vectordb_sync.Debounce.Refinement.{apply_events}
use k8s_vectordb_sync.Debounce.Consistency.{apply_events-append}
use k8s_vectordb_sync.Watcher.{Gvr, Watcher, is_crd, trigger_resync}
use k8s_vectordb_sync.Watcher.Due.{event_of, items_events, items_of, resync_events}
use k8s_vectordb_sync.Watcher.Sending.{trigger_resync-Emits}

-- The last object with the identifier that is no CRD.
abbrev pub latest : Text → List Unstructured → Option ResourceInstance
latest id [] = none
latest id (u ∷ us) = elim (latest id us) [
  | some i ↦ some i
  | none ↦ if is_crd u then none else (if text_eq (extract u).id id then some (extract u) else none)
]

-- The objects that could be listed.
abbrev pub listed : (Gvr → Option (List Unstructured)) → List Gvr → List Unstructured
listed list [] = []
listed list (g ∷ gs) = items_of list g ++ listed list gs

abbrev pub or_else {ℓ} : {A : Type ℓ} → Option A → Option A → Option A
or_else none b = b
or_else (some a) b = some a

items_events-append :
    (us vs : List Unstructured) → items_events (us ++ vs) ≡ items_events us ++ items_events vs
items_events-append [] vs = refl
items_events-append (u ∷ us) vs =
    ap (λ es. event_of add u ++ es) (items_events-append us vs)
    ∙ sym (append_assoc (event_of add u) (items_events us) (items_events vs))

resync_events-listed :
    (list : Gvr → Option (List Unstructured)) (gs : List Gvr)
    → resync_events list gs ≡ items_events (listed list gs)
resync_events-listed list [] = refl
resync_events-listed list (g ∷ gs) =
    ap (λ es. items_events (items_of list g) ++ es) (resync_events-listed list gs)
    ∙ sym (items_events-append (items_of list g) (listed list gs))

apply_items :
    (us : List Unstructured) (s : Instances) (id : Text)
    → apply_events (items_events us) s id ≡ or_else (latest id us) (s id)
apply_items [] s id = refl
apply_items (u ∷ us) s id =
    ap (λ t. t id) (apply_events-append (event_of add u) (items_events us) s)
    ∙ apply_items us (apply_events (event_of add u) s) id
    ∙ elim (Option-cases (latest id us)) [ inl e ↦ rw e (ground arith) | inr (i, e) ↦ rw e refl ]

-- With room in the channel for all that it is to send, a resync of a watcher that is not stopped
-- leaves in the channel what gives the receiver, once it is applied, the last listed state of each
-- object that could be listed and is no CRD. Under any other identifier the receiver keeps what it
-- has, also that of an object that no longer exists.
pub resync_repairs :
    (choices : ℕ → Bool) (list : Gvr → Option (List Unstructured)) (w t : Watcher) (n : ℕ)
    (s : Instances) (id : Text)
    → trigger_resync choices list w ≡ some (t, n)
    → w.stopped ≡ false
    → length w.events.queue + length (resync_events list w.watched_gvrs) ≤ w.events.capacity
    → apply_events t.events.queue s id
      ≡ or_else (latest id (listed list w.watched_gvrs)) (apply_events w.events.queue s id)
resync_repairs choices list w t n s id h alive room =
    let g = (trigger_resync-Emits choices list w t n h).events in
    let us = listed list w.watched_gvrs in
    let sent : t.events.queue ≡ w.events.queue ++ items_events us =
      g.sent
      ∙ ap (λ es. w.events.queue ++ es)
          (g.whole alive room ∙ resync_events-listed list w.watched_gvrs) in
    ap (λ es. apply_events es s id) sent
    ∙ ap (λ r. r id) (apply_events-append w.events.queue (items_events us) s)
    ∙ apply_items us (apply_events w.events.queue s) id
