-- ===== src/Debounce/Races.antt =====
-- What may happen between the critical sections of the buffer.
use k8s_vectordb_sync.Base.{
  ◌+◌, ◌<◌, ◌≡◌, refl, sym, ap, ◌∙◌, subst, true, false, Option, none, some, List, [], ◌∷◌, arith,
  ◌>>=◌, length, length-append, Bool-cases, inl, inr,
}
use k8s_vectordb_sync.Text.{Text, text_eq_refl}
use k8s_vectordb_sync.KeyMap.{KeyMap, Visit, lookup, insert, Distinct}
use k8s_vectordb_sync.KeyMap.Laws.{lookup-insert}
use k8s_vectordb_sync.KeyMap.Order.{lookup-order}
use k8s_vectordb_sync.Metadata.{ResourceInstance}
use k8s_vectordb_sync.Runtime.Channel.{Channel, has_room, close}
use k8s_vectordb_sync.Runtime.Timers.{Timer, Timers, find}
use k8s_vectordb_sync.Event
use k8s_vectordb_sync.Event.{EventType, ResourceEvent}
use k8s_vectordb_sync.Store.{apply_upserts}
use k8s_vectordb_sync.Debounce.{
  SyncPayload, PendingChange, DebounceBuffer, emit_payload, close_payloads, cancel_pending,
  schedule, handle_event, mark_ready, collect_ready, emit_upserts, new_change,
}
use k8s_vectordb_sync.Debounce.Collect.{
  Keyed, id_of, ready_instances, collect_ready-upserts, apply-ready_instances,
}
use k8s_vectordb_sync.Debounce.Valid.{
  IsValid, offered, offered_upserts, emit_upserts-offered, emit_payload-offered,
}
use k8s_vectordb_sync.Debounce.Outcome.{offered_upserts-pending}
use k8s_vectordb_sync.Debounce.View.{
  queue-offered_upserts, Instances, IsOpen, apply_payloads, cancel_pending_fields,
}

-- A critical section: under `pendingMu` the map and the timers may change in any way, and under
-- `payloadsMu` a payload is emitted or the channel is closed.
pub data Section : Type 0 where
  pending_section : (KeyMap PendingChange → KeyMap PendingChange) → (Timers → Timers) → Section
  emit_section : SyncPayload → Section
  close_section : Section

unfoldable pub enter : Section → DebounceBuffer → Option DebounceBuffer
enter (pending_section f g) d = some (record d { pending = f d.pending; timers = g d.timers })
enter (emit_section p) d = emit_payload p d
enter close_section d = close_payloads d

unfoldable pub enter_all : List Section → DebounceBuffer → Option DebounceBuffer
enter_all [] d = some d
enter_all (x ∷ xs) d = enter x d >>= enter_all xs

enter-flagged :
    (x : Section) (d : DebounceBuffer)
    → d.payloads.closed ≡ d.payloads_closed
    → (t : DebounceBuffer) × (enter x d ≡ some t) × (t.payloads.closed ≡ t.payloads_closed)
unfolding enter close_payloads close
enter-flagged (pending_section f g) d h = (_, refl, h)
enter-flagged (emit_section p) d h = (offered p d, emit_payload-offered p d h, ground arith)
enter-flagged close_section d h = elim (Bool-cases d.payloads_closed) [
  | inl e ↦ (d, rw e, h)
  | inr e ↦
      let closed : DebounceBuffer = record d {
        payloads_closed = true;
        payloads = record d.payloads { closed = true };
      } in
      (closed, rw (e, h ∙ e), refl)
]

-- However the critical sections of the goroutines are interleaved, also after the end of `Run`,
-- no payload is sent on a closed channel and the channel is not closed twice, if at the start the
-- flag tells whether the channel is closed.
pub enter_all_never_panics :
    (xs : List Section) (d : DebounceBuffer)
    → d.payloads.closed ≡ d.payloads_closed
    → (t : DebounceBuffer) × (enter_all xs d ≡ some t) × (t.payloads.closed ≡ t.payloads_closed)
unfolding enter_all
enter_all_never_panics [] d h = (d, refl, h)
enter_all_never_panics (x ∷ xs) d h =
    let (t, e, k) = enter-flagged x d h in
    let (u, f, l) = enter_all_never_panics xs t k in (u, rw (e, f), l)

-- `flushPending` of a timer's goroutine, with the whole of a delete between its two sections.
abbrev pub overtaken :
    Visit PendingChange → Text → ResourceInstance → DebounceBuffer → Option DebounceBuffer
overtaken visit id last d =
    let (pending, upserts) = collect_ready (visit.order d.pending) d.pending [] in
    handle_event (record { type = Event.delete; instance = record last { id = id } })
      (record d { pending = pending })
    >>= emit_upserts upserts

pub schedule_absent :
    (i : ResourceInstance) (d : DebounceBuffer)
    → lookup i.id d.pending ≡ none
    → let t = d.timers.next_handle in
      ((schedule i d).timers.armed
        ≡ record { handle = t; delay = d.debounce_window; key = i.id; gen = 0 } ∷ d.timers.armed)
      × (lookup i.id (mark_ready i.id 0 (schedule i d)).pending
          ≡ some (record { instance = i; timer = t; ready = true; gen = 0 }))
      × ((mark_ready i.id 0 (schedule i d)).timers ≡ (schedule i d).timers)
unfolding schedule mark_ready
schedule_absent i d h = (
  ground arith,
  ground (
    arith,
    text_eq_refl i.id,
    lookup-insert i.id i.id (new_change i 0 d.timers) d.pending,
    lookup-insert i.id i.id
        (record { instance = i; timer = d.timers.next_handle; ready = true; gen = 0 })
        (insert i.id (new_change i 0 d.timers) d.pending),
  ),
  ground arith,
)

cancelled_absent : (id : Text) (d : DebounceBuffer) → lookup id (cancel_pending id d).pending ≡ none
cancelled_absent id d = ground (arith, (cancel_pending_fields id d).2 id, text_eq_refl id)

find-head : (t : Timer) (ts : List Timer) → find t.handle (t ∷ ts) ≡ some t
unfolding find
find-head t ts = ground arith

-- For a resource without a pending change: after an upsert, a delete and another upsert, the
-- callback of the first upsert's timer, if it fired before the delete and gets the mutex only
-- now, marks the new entry ready, though the timer of that entry is still armed: the generation
-- has started again at 0.
pub stale_callback_marks :
    (old new : ResourceInstance) (d : DebounceBuffer)
    → old.id ≡ new.id
    → lookup old.id d.pending ≡ none
    → let again = schedule new (cancel_pending old.id (schedule old d)) in
      ((schedule old d).timers.armed
        ≡ record { handle = d.timers.next_handle; delay = d.debounce_window; key = old.id; gen = 0 }
          ∷ d.timers.armed)
      × ((c : PendingChange) × (lookup new.id (mark_ready old.id 0 again).pending ≡ some c)
          × (c.instance ≡ new)
          × (c.ready ≡ true)
          × (find c.timer (mark_ready old.id 0 again).timers.armed
              ≡ some (record {
                handle = c.timer;
                delay = (cancel_pending old.id (schedule old d)).debounce_window;
                key = new.id;
                gen = 0;
              })))
stale_callback_marks old new d e h =
    let gone = cancel_pending old.id (schedule old d) in
    let again = schedule new gone in
    let absent : lookup new.id gone.pending ≡ none =
      ap (λ k. lookup k gone.pending) (sym e) ∙ cancelled_absent old.id (schedule old d) in
    let (armed, marked, timers) = schedule_absent new gone absent in
    (
      (schedule_absent old d h).0,
      (
        record { instance = new; timer = gone.timers.next_handle; ready = true; gen = 0 },
        ap (λ k. lookup new.id (mark_ready k 0 again).pending) e ∙ marked,
        refl,
        refl,
        ap (λ k. find gone.timers.next_handle (mark_ready k 0 again).timers.armed) e
            ∙ ap (λ ts. find gone.timers.next_handle ts.armed) timers
            ∙ ap (find gone.timers.next_handle) armed
            ∙ find-head _ _,
      ),
    )

offered-IsOpen :
    (p : SyncPayload) (x : DebounceBuffer)
    → x.payloads_closed ≡ false
    → x.payloads.closed ≡ x.payloads_closed
    → length x.payloads.queue + 1 < x.payloads.capacity
    → IsOpen (offered p x) × ((offered p x).payloads.closed ≡ (offered p x).payloads_closed)
offered-IsOpen p x h k room =
    let fits : has_room x.payloads ≡ true = ground arith in
    (
      record {
        still_open = h;
        room = rw (h, fits) (ground (arith, length-append x.payloads.queue (p ∷ [])));
      },
      rw (h, fits) (k ∙ h),
    )

sent_last :
    (id : Text) (l : KeyMap PendingChange) (c : PendingChange) (s : Instances)
    → Distinct l
    → Keyed l
    → lookup id l ≡ some c
    → c.ready ≡ true
    → apply_upserts id_of (ready_instances l) s id ≡ some c.instance
sent_last id l c s d k e r = apply-ready_instances id l s d k ∙ ground arith

emptied : Visit PendingChange → DebounceBuffer → DebounceBuffer
emptied visit d = record d { pending = (collect_ready (visit.order d.pending) d.pending []).0 }

-- A timer's goroutine that flushes lets go of the mutex before it sends. On a well-formed open
-- buffer with room for two payloads, if the deletion of a ready resource is handled in between,
-- its payload is sent before that of the flush: the receiver is left with the deleted resource,
-- and nothing is pending that would correct it.
pub delete_overtaken :
    (visit : Visit PendingChange) (id : Text) (last : ResourceInstance) (c : PendingChange)
    (d : DebounceBuffer) (s : Instances)
    → IsValid d
    → d.payloads_closed ≡ false
    → length d.payloads.queue + 1 < d.payloads.capacity
    → lookup id d.pending ≡ some c
    → c.ready ≡ true
    → (t : DebounceBuffer) × (overtaken visit id last d ≡ some t)
      × (apply_payloads t.payloads.queue s id ≡ some c.instance)
      × (lookup id t.pending ≡ none)
unfolding handle_event emptied
delete_overtaken visit id last c d s v open_ room found ready =
    let l = visit.order d.pending in
    let (distinct, same) = lookup-order visit d.pending v.distinct in
    let d1 = emptied visit d in
    let x = cancel_pending id d1 in
    let (queue, flag, gone) = cancel_pending_fields id d1 in
    let del : SyncPayload = record { upserts = []; deletes = id ∷ [] } in
    let d2 = offered del x in
    let closed : x.payloads_closed ≡ false = flag ∙ open_ in
    let flagged : x.payloads.closed ≡ x.payloads_closed =
      ap (λ q. q.closed) queue ∙ v.flagged ∙ sym flag in
    let free : length x.payloads.queue + 1 < x.payloads.capacity =
      subst (λ (q : Channel SyncPayload). length q.queue + 1 < q.capacity) (sym queue) room in
    let (open2, flagged2) = offered-IsOpen del x closed flagged free in
    let taken = collect_ready-upserts l d.pending [] in
    (
      offered_upserts (ready_instances l) d2,
      rw (emit_payload-offered del x flagged, taken)
          (emit_upserts-offered (ready_instances l) d2 flagged2),
      ap (λ σ. σ id) (queue-offered_upserts (ready_instances l) d2 s open2)
          ∙ sent_last id l c (apply_payloads d2.payloads.queue s) distinct
              (λ j y e. v.keyed j y (sym (same j) ∙ e)) (same id ∙ found) ready,
      ap (lookup id) (offered_upserts-pending (ready_instances l) d2) ∙ cancelled_absent id d1,
    )
