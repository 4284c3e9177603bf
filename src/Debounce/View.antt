-- ===== src/Debounce/View.antt =====
-- The abstract view of the buffer: what the receiver will hold once all that is queued and pending
-- has reached it.
use k8s_vectordb_sync.Base.{
  ℕ, ◌≡◌, refl, sym, ◌∙◌, ap, fun_ext, true, false, none, List, [], ◌∷◌, ◌++◌, arith, ◌==◌,
  if◌then◌else◌, Bool-cases, Option-cases, inl, inr,
}
use k8s_vectordb_sync.Text.{Text, text_eq, text_eq_iff}
use k8s_vectordb_sync.KeyMap.{KeyMap, Visit, lookup, insert}
use k8s_vectordb_sync.KeyMap.Laws.{lookup-insert, lookup-delete}
use k8s_vectordb_sync.KeyMap.Order.{lookup-order}
use k8s_vectordb_sync.Metadata.{ResourceInstance}
use k8s_vectordb_sync.Runtime.Channel.{has_room}
use k8s_vectordb_sync.Event
use k8s_vectordb_sync.Event.{EventType, ResourceEvent}
use k8s_vectordb_sync.Store.{Store, put, remove, apply_deletes, apply_upserts}
use k8s_vectordb_sync.Debounce.{
  SyncPayload, PendingChange, DebounceBuffer, cancel_pending, schedule, mark_ready, collect_all,
}
use k8s_vectordb_sync.Debounce.Collect.{
  ready_instances, instances, lookup-collect_ready, apply-ready_instances, apply-instances, overlay,
  id_of, collect_all-upserts,
}
use k8s_vectordb_sync.Debounce.Valid.{IsValid, offered, offered_upserts}
use k8s_vectordb_sync.Debounce.Outcome.{handled, left_pending, flushed, drained}

abbrev pub Instances : Type 0
Instances = Store ResourceInstance

-- What the receiver does with a payload: the upserts, then the deletes.
abbrev pub apply_payload : SyncPayload → Instances → Instances
apply_payload p s = apply_deletes p.deletes (apply_upserts id_of p.upserts s)

abbrev pub apply_payloads : List SyncPayload → Instances → Instances
apply_payloads [] s = s
apply_payloads (p ∷ ps) s = apply_payloads ps (apply_payload p s)

-- What an event means: the last state of each resource wins.
abbrev pub apply_event : ResourceEvent → Instances → Instances
apply_event e s = elim e.type [
  | Event.delete ↦ remove e.instance.id s
  | _ ↦ put e.instance.id e.instance s
]

pub apply_payloads-append :
    (ps qs : List SyncPayload) (s : Instances)
    → apply_payloads (ps ++ qs) s ≡ apply_payloads qs (apply_payloads ps s)
apply_payloads-append [] qs s = refl
apply_payloads-append (p ∷ ps) qs s = apply_payloads-append ps qs (apply_payload p s)

-- `s` is what the receiver holds before the payloads of the queue.
abbrev pub view : Instances → DebounceBuffer → Instances
view s d = overlay d.pending (apply_payloads d.payloads.queue s)

-- The channel takes the next payload.
pub record IsOpen (d : DebounceBuffer) : Type 0 where
  pub still_open : d.payloads_closed ≡ false
  pub room : has_room d.payloads ≡ true

queue-offered :
    (p : SyncPayload) (d : DebounceBuffer) (s : Instances)
    → IsOpen d
    → apply_payloads (offered p d).payloads.queue s
      ≡ apply_payload p (apply_payloads d.payloads.queue s)
queue-offered p d s o =
    rw (o.still_open, o.room) (apply_payloads-append d.payloads.queue (p ∷ []) s)

pub queue-offered_upserts :
    (us : List ResourceInstance) (d : DebounceBuffer) (s : Instances)
    → IsOpen d
    → apply_payloads (offered_upserts us d).payloads.queue s
      ≡ apply_upserts id_of us (apply_payloads d.payloads.queue s)
unfolding apply_upserts apply_deletes
queue-offered_upserts [] d s o = refl
queue-offered_upserts (u ∷ us) d s o = queue-offered _ d s o

pub cancel_pending_fields :
    (id : Text) (d : DebounceBuffer)
    → ((cancel_pending id d).payloads ≡ d.payloads)
      × ((cancel_pending id d).payloads_closed ≡ d.payloads_closed)
      × ((k : Text)
          → lookup k (cancel_pending id d).pending
            ≡ (if text_eq id k then none else lookup k d.pending))
unfolding cancel_pending
cancel_pending_fields id d = elim (Option-cases (lookup id d.pending)) [
  | inl e ↦ rw (e, cancel_pending) (refl, refl, λ k. ground (arith, text_eq_iff id k))
  | inr (c, e) ↦ rw (e, cancel_pending) (refl, refl, λ k. lookup-delete id k d.pending)
]

view-offered :
    (p : SyncPayload) (d : DebounceBuffer) (s : Instances)
    → IsOpen d
    → view s (offered p d) ≡ overlay d.pending (apply_payload p (apply_payloads d.payloads.queue s))
view-offered p d s o = ap (overlay d.pending) (queue-offered p d s o)

view-offered_upserts :
    (us : List ResourceInstance) (d : DebounceBuffer) (s : Instances)
    → IsOpen d
    → view s (offered_upserts us d)
      ≡ overlay d.pending (apply_upserts id_of us (apply_payloads d.payloads.queue s))
unfolding apply_upserts apply_deletes
view-offered_upserts [] d s o = refl
view-offered_upserts (u ∷ us) d s o = view-offered _ d s o

overlay-remove :
    (id : Text) (m m' : KeyMap PendingChange) (s : Instances)
    → ((k : Text) → lookup k m' ≡ (if text_eq id k then none else lookup k m))
    → overlay m' (remove id s) ≡ remove id (overlay m s)
overlay-remove id m m' s h = fun_ext λ k. ground (arith, h k)

overlay-put :
    (id : Text) (c : PendingChange) (m : KeyMap PendingChange) (s : Instances)
    → overlay (insert id c m) s ≡ put id c.instance (overlay m s)
overlay-put id c m s = fun_ext λ k. ground (arith, lookup-insert id k c m)

view-deleted :
    (id : Text) (d : DebounceBuffer) (s : Instances)
    → IsOpen d
    → view s (offered (record { upserts = []; deletes = id ∷ [] }) (cancel_pending id d))
      ≡ remove id (view s d)
unfolding apply_upserts apply_deletes
view-deleted id d s o =
    let (same, flag, found) = cancel_pending_fields id d in
    view-offered _ (cancel_pending id d) s
      (record { still_open = flag ∙ o.still_open; room = ap has_room same ∙ o.room })
    ∙ ap (λ c. overlay (cancel_pending id d).pending (remove id (apply_payloads c.queue s))) same
    ∙ overlay-remove id d.pending (cancel_pending id d).pending _ found

view-schedule :
    (i : ResourceInstance) (d : DebounceBuffer) (s : Instances)
    → view s (schedule i d) ≡ put i.id i (view s d)
unfolding schedule
view-schedule i d s = overlay-put i.id _ d.pending _

view-dispatch :
    (t : EventType) (i : ResourceInstance) (d : DebounceBuffer) (s : Instances)
    → IsOpen d
    → let e : ResourceEvent = record { type = t; instance = i } in
      view s (handled e d) ≡ apply_event e (view s d)
view-dispatch Event.delete i d s o = view-deleted i.id d s o
view-dispatch Event.add i d s o = view-schedule i d s
view-dispatch Event.update i d s o = view-schedule i d s

-- An event reaches the view as what it means, at once.
pub view-handled :
    (e : ResourceEvent) (d : DebounceBuffer) (s : Instances)
    → IsOpen d
    → view s (handled e d) ≡ apply_event e (view s d)
view-handled e d s o = view-dispatch e.type e.instance d s o

-- A flush moves ready changes from the map to the queue, which the view does not see.
pub view-flushed :
    (visit : Visit PendingChange) (d : DebounceBuffer) (s : Instances)
    → IsValid d
    → IsOpen d
    → view s (flushed visit d) ≡ view s d
view-flushed visit d s v o =
    let l = visit.order d.pending in
    let (distinct, same) = lookup-order visit d.pending v.distinct in
    view-offered_upserts (ready_instances l) (record d { pending = left_pending visit d }) s
      (record { still_open = o.still_open; room = o.room })
    ∙ fun_ext λ k. ground (
      arith,
      same k,
      lookup-collect_ready k l d.pending [] distinct,
      apply-ready_instances k l (apply_payloads d.payloads.queue s) distinct
          (λ j c h. v.keyed j c (sym (same j) ∙ h)),
    )

-- Nor does it see that a change becomes ready.
pub view-mark_ready :
    (id : Text) (g : ℕ) (d : DebounceBuffer) (s : Instances) → view s (mark_ready id g d) ≡ view s d
unfolding mark_ready
view-mark_ready id g d s = elim (Option-cases (lookup id d.pending)) [
  | inl e ↦ rw (e, mark_ready)
  | inr (c, e) ↦ elim (Bool-cases (c.gen == g)) [
    | inl hit ↦
        rw (e, mark_ready, hit)
          (fun_ext λ k.
            ground (
              arith,
              lookup-insert id k (record c { ready = true }) d.pending,
              text_eq_iff id k,
              e,
            ))
    | inr miss ↦ rw (e, mark_ready, miss)
  ]
]

-- After the final flush the queue alone holds the view.
pub view-drained :
    (visit : Visit PendingChange) (d : DebounceBuffer) (s : Instances)
    → IsValid d
    → IsOpen d
    → apply_payloads (drained visit d).payloads.queue s ≡ view s d
view-drained visit d s v o =
    let l = visit.order d.pending in
    let (distinct, same) = lookup-order visit d.pending v.distinct in
    let (_, queue, flag) = collect_all-upserts l d [] in
    queue-offered_upserts (instances l) (collect_all l d []).0 s
      (record { still_open = flag ∙ o.still_open; room = ap has_room queue ∙ o.room })
    ∙ ap (λ c. apply_upserts id_of (instances l) (apply_payloads c.queue s)) queue
    ∙ fun_ext λ k. ground (
      arith,
      same k,
      apply-instances k l (apply_payloads d.payloads.queue s) distinct
          (λ j c h. v.keyed j c (sym (same j) ∙ h)),
    )
