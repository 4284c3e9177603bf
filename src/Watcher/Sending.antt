-- ===== src/Watcher/Sending.antt =====
-- Each callback and each resync sends what it is to send, and nothing else.
use k8s_vectordb_sync.Base.{
  ℕ, ◌+◌, ◌≡◌, refl, ◌∙◌, Bool, false, not, ◌&&◌, ◌||◌, Option, some, List, [], ◌∷◌, ◌++◌, arith,
  Bool-cases, Option-cases, inl, inr, subst,
}
use k8s_vectordb_sync.Runtime.Channel.{Channel, has_room, push}
use k8s_vectordb_sync.Runtime.Growth.{Grows, Grows-refl, Grows-push, Grows-drop, Grows-append}
use k8s_vectordb_sync.Metadata.{Unstructured}
use k8s_vectordb_sync.Event.{EventType, add, delete, ResourceEvent, CrdEvent}
use k8s_vectordb_sync.Watcher.{
  Gvr, Watcher, is_crd, metadata_changed, emit, emit_crd, is_delete, object, tombstone, other,
  other_tombstone, on_add, on_update, on_delete, emit_added, resync_items, resync_gvrs,
  trigger_resync,
}
use k8s_vectordb_sync.Watcher.Start.{Callback, added, updated, deleted, notify}
use k8s_vectordb_sync.Watcher.Due.{
  event_of, crd_of, update_of, callback_events, callback_crds, items_events, items_crds, items_of,
  resync_events, resync_crds,
}

-- No event must be delivered; the deletion of a CRD must be.
abbrev pub never : ResourceEvent → Bool
never e = false

abbrev pub deletion : CrdEvent → Bool
deletion e = is_delete e.type

-- From `w` to `t` the channels grow by these events.
pub record Emits (w t : Watcher) (es : List ResourceEvent) (cs : List CrdEvent) : Type 0 where
  pub events : Grows never w.stopped w.events t.events es
  pub crds : Grows deletion w.stopped w.crd_events t.crd_events cs
  pub same_stopped : t.stopped ≡ w.stopped
  pub same_gvrs : t.watched_gvrs ≡ w.watched_gvrs

pub Emits-refl : (w : Watcher) → Emits w w [] []
Emits-refl w = record {
  events = Grows-refl never w.stopped w.events;
  crds = Grows-refl deletion w.stopped w.crd_events;
  same_stopped = refl;
  same_gvrs = refl;
}

pub Emits-append :
    {v w t : Watcher} {es fs : List ResourceEvent} {cs ds : List CrdEvent}
    → Emits v w es cs
    → Emits w t fs ds
    → Emits v t (es ++ fs) (cs ++ ds)
Emits-append {v} {w} {t} {es} {fs} {cs} {ds} g h = record {
  events =
      Grows-append never v.stopped v.events w.events t.events es fs g.events
        (subst (λ b. Grows never b w.events t.events fs) g.same_stopped h.events);
  crds =
      Grows-append deletion v.stopped v.crd_events w.crd_events t.crd_events cs ds g.crds
        (subst (λ b. Grows deletion b w.crd_events t.crd_events ds) g.same_stopped h.crds);
  same_stopped = h.same_stopped ∙ g.same_stopped;
  same_gvrs = h.same_gvrs ∙ g.same_gvrs;
}

only_events :
    (w : Watcher) (c : Channel ResourceEvent) {es : List ResourceEvent}
    → Grows never w.stopped w.events c es
    → Emits w (record w { events = c }) es []
only_events w c g = record {
  events = g;
  crds = Grows-refl deletion w.stopped w.crd_events;
  same_stopped = refl;
  same_gvrs = refl;
}

only_crds :
    (w : Watcher) (c : Channel CrdEvent) {cs : List CrdEvent}
    → Grows deletion w.stopped w.crd_events c cs
    → Emits w (record w { crd_events = c }) [] cs
only_crds w c g = record {
  events = Grows-refl never w.stopped w.events;
  crds = g;
  same_stopped = refl;
  same_gvrs = refl;
}

emit-Emits : (b : Bool) (e : ResourceEvent) (w : Watcher) → Emits w (emit b e w) (e ∷ []) []
unfolding emit
emit-Emits b e w = elim (Bool-cases (w.stopped && (b || not (has_room w.events)))) [
  | inl y ↦
      rw (y, emit)
        (only_events w w.events
          (Grows-drop never w.stopped w.events e (λ s. absurd (ground (arith, s, y)))))
  | inr n ↦ elim (Bool-cases (has_room w.events)) [
    | inl r ↦
        rw (n, r, emit) (only_events w (push e w.events) (Grows-push never w.stopped w.events e r))
    | inr r ↦
        rw (n, r, emit)
          (only_events w w.events (Grows-drop never w.stopped w.events e (λ s. (r, refl))))
  ]
]

same_watcher : {w t : Watcher} → some w ≡ some t → w ≡ t
same_watcher h = ground arith

moved :
    {w u t : Watcher} {es : List ResourceEvent} {cs : List CrdEvent}
    → some u ≡ some t
    → Emits w u es cs
    → Emits w t es cs
moved {w} {es = es} {cs = cs} h g = subst (λ x. Emits w x es cs) (same_watcher h) g

full_crd :
    (b : Bool) (e : CrdEvent) (w t : Watcher)
    → (w.stopped && (b || not (has_room w.crd_events))) ≡ false
    → has_room w.crd_events ≡ false
    → emit_crd b e w ≡ some t
    → (some w ≡ some t) × (is_delete e.type ≡ false)
unfolding emit_crd
full_crd b e w t n r h = elim (Bool-cases (is_delete e.type)) [
  | inl d ↦ absurd (ground (arith, rw (n, r, d, emit_crd) at h))
  | inr d ↦ (rw (n, r, d, emit_crd) at h, d)
]

emit_crd-Emits :
    (b : Bool) (e : CrdEvent) (w t : Watcher) → emit_crd b e w ≡ some t → Emits w t [] (e ∷ [])
unfolding emit_crd
emit_crd-Emits b e w t h = elim (Bool-cases (w.stopped && (b || not (has_room w.crd_events)))) [
  | inl y ↦ moved (rw (y, emit_crd) at h) (
      only_crds w w.crd_events
        (Grows-drop deletion w.stopped w.crd_events e (λ s. absurd (ground (arith, s, y)))))
  | inr n ↦ elim (Bool-cases (has_room w.crd_events)) [
    | inl r ↦
        moved (rw (n, r, emit_crd) at h)
          (only_crds w (push e w.crd_events) (Grows-push deletion w.stopped w.crd_events e r))
    | inr r ↦
        let (same, no_delete) = full_crd b e w t n r h in
        moved same (
          only_crds w w.crd_events
            (Grows-drop deletion w.stopped w.crd_events e (λ s. (r, no_delete))))
  ]
]

pub emit_added-Emits :
    (b : Bool) (type : EventType) (u : Unstructured) (w t : Watcher)
    → emit_added b type u w ≡ some t
    → Emits w t (event_of type u) (crd_of type u)
unfolding emit_added
emit_added-Emits b type u w t h = elim (Bool-cases (is_crd u)) [
  | inl y ↦ rw y (emit_crd-Emits b _ w t (rw (y, emit_added) at h))
  | inr n ↦ rw n (moved (rw (n, emit_added) at h) (emit-Emits b _ w))
]

on_update-Emits :
    (b : Bool) (old_u new_u : Unstructured) (w t : Watcher)
    → on_update b (object old_u) (object new_u) w ≡ some t
    → Emits w t (update_of old_u new_u) []
unfolding on_update
on_update-Emits b old_u new_u w t h = elim (Bool-cases (is_crd new_u)) [
  | inl y ↦ rw y (moved (rw (y, on_update) at h) (Emits-refl w))
  | inr n ↦ elim (Bool-cases (metadata_changed old_u new_u)) [
    | inl c ↦ rw (n, c) (moved (rw (n, c, on_update) at h) (emit-Emits b _ w))
    | inr c ↦ rw (n, c) (moved (rw (n, c, on_update) at h) (Emits-refl w))
  ]
]

pub notify-Emits :
    (b : Bool) (c : Callback) (w t : Watcher)
    → notify b c w ≡ some t
    → Emits w t (callback_events c) (callback_crds c)
unfolding notify on_add on_update on_delete
notify-Emits b (added (object u)) w t h = emit_added-Emits b add u w t h
notify-Emits b (added (tombstone u)) w t h = moved h (Emits-refl w)
notify-Emits b (added other) w t h = moved h (Emits-refl w)
notify-Emits b (added other_tombstone) w t h = moved h (Emits-refl w)
notify-Emits b (updated (object old_u) (object new_u)) w t h = on_update-Emits b old_u new_u w t h
notify-Emits b (updated (object old_u) other) w t h = moved h (Emits-refl w)
notify-Emits b (updated (object old_u) (tombstone u)) w t h = moved h (Emits-refl w)
notify-Emits b (updated (object old_u) other_tombstone) w t h = moved h (Emits-refl w)
notify-Emits b (updated (tombstone u) new_obj) w t h = moved h (Emits-refl w)
notify-Emits b (updated other new_obj) w t h = moved h (Emits-refl w)
notify-Emits b (updated other_tombstone new_obj) w t h = moved h (Emits-refl w)
notify-Emits b (deleted (object u)) w t h = emit_added-Emits b delete u w t h
notify-Emits b (deleted (tombstone u)) w t h = emit_added-Emits b delete u w t h
notify-Emits b (deleted other) w t h = moved h (Emits-refl w)
notify-Emits b (deleted other_tombstone) w t h = moved h (Emits-refl w)

ended_at :
    {w t : Watcher} {n m : ℕ}
    → ◌≡◌ {A = Option (Watcher × ℕ)} (some (w, n)) (some (t, m))
    → some w ≡ some t
ended_at h = ground arith

resync_items-Emits :
    (choices : ℕ → Bool) (items : List Unstructured) (w t : Watcher) (n m : ℕ)
    → resync_items choices items (w, n) ≡ some (t, m)
    → Emits w t (items_events items) (items_crds items)
unfolding resync_items
resync_items-Emits choices [] w t n m h = moved (ended_at h) (Emits-refl w)
resync_items-Emits choices (u ∷ us) w t n m h =
    elim (Option-cases (emit_added (choices n) add u w)) [
      | inl e ↦ absurd (ground (arith, rw e at h))
      | inr (x, e) ↦
          Emits-append (emit_added-Emits (choices n) add u w x e)
            (resync_items-Emits choices us x t (n + 1) m (rw e at h))
    ]

resync_gvrs-Emits :
    (choices : ℕ → Bool) (list : Gvr → Option (List Unstructured)) (gs : List Gvr) (w t : Watcher)
    (n m : ℕ)
    → resync_gvrs choices list gs (w, n) ≡ some (t, m)
    → Emits w t (resync_events list gs) (resync_crds list gs)
unfolding resync_gvrs
resync_gvrs-Emits choices list [] w t n m h = moved (ended_at h) (Emits-refl w)
resync_gvrs-Emits choices list (g ∷ gs) w t n m h = elim (Option-cases (list g)) [
  | inl e ↦ rw (e, items_of) (resync_gvrs-Emits choices list gs w t n m (rw (e, resync_gvrs) at h))
  | inr (items, e) ↦ elim (Option-cases (resync_items choices items (w, n))) [
    | inl f ↦ absurd (ground (arith, rw (e, f, resync_gvrs) at h))
    | inr ((x, k), f) ↦
        rw (e, items_of)
          (Emits-append (resync_items-Emits choices items w x n k f)
            (resync_gvrs-Emits choices list gs x t k m (rw (e, f, resync_gvrs) at h)))
  ]
]

pub trigger_resync-Emits :
    (choices : ℕ → Bool) (list : Gvr → Option (List Unstructured)) (w t : Watcher) (m : ℕ)
    → trigger_resync choices list w ≡ some (t, m)
    → Emits w t (resync_events list w.watched_gvrs) (resync_crds list w.watched_gvrs)
unfolding trigger_resync
trigger_resync-Emits choices list w t m h = resync_gvrs-Emits choices list w.watched_gvrs w t 0 m h
