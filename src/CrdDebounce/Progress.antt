-- ===== src/CrdDebounce/Progress.antt =====
-- How the handler, the end of `Run` and a timer's callback run on a well-formed buffer.
use k8s_vectordb_sync.Base.{
  ℕ, ◌≡◌, refl, ◌∙◌, ap, true, false, none, some, List, [], ◌∷◌, arith, is_empty, Bool-cases, inl,
  inr,
}
use k8s_vectordb_sync.Base.Int.{pos, leb_ℤ}
use k8s_vectordb_sync.Text.{Text}
use k8s_vectordb_sync.KeyMap.{Visit, lookup}
use k8s_vectordb_sync.Runtime.Channel.{close, has_room}
use k8s_vectordb_sync.Event
use k8s_vectordb_sync.Event.{EventType, CrdEvent}
use k8s_vectordb_sync.CrdDebounce.{
  PendingCrdChange, CrdDebounceBuffer, close_payloads, schedule, handle_event, mark_ready,
  flush_pending, check_flush, timer_callback, ready_count,
}
use k8s_vectordb_sync.CrdDebounce.Collect.{ready_names, names, collect_all-upserts}
use k8s_vectordb_sync.CrdDebounce.Valid.{
  IsValid, emit_payload-offered, offered_upserts, offered-IsValid, cancel_pending-IsValid,
  schedule-IsValid, mark_ready-IsValid,
}
use k8s_vectordb_sync.CrdDebounce.Outcome.{
  handled, flushed, drained, flush_pending-flushed, flushed-IsValid, flush_all_pending-drained,
  drained-IsValid,
}
use k8s_vectordb_sync.CrdDebounce.View.{
  cancel_pending_fields, Names, view, IsOpen, view-flushed, view-mark_ready,
}
use k8s_vectordb_sync.CrdDebounce.System.{shut_down}

dispatched :
    (t : EventType) (i : Text) (d : CrdDebounceBuffer)
    → IsValid d
    → let e : CrdEvent = record { type = t; crd_name = i } in
      (handle_event e d ≡ some (handled e d)) × IsValid (handled e d)
unfolding handle_event
dispatched Event.delete i d v =
    let w = cancel_pending-IsValid i d v in
    (emit_payload-offered _ _ w.flagged, offered-IsValid _ _ w)
dispatched Event.add i d v = (refl, schedule-IsValid i d v)
dispatched Event.update i d v = (refl, schedule-IsValid i d v)

-- `handleEvent` never panics on a well-formed buffer, and keeps it well-formed.
pub handle_event-handled :
    (e : CrdEvent) (d : CrdDebounceBuffer)
    → IsValid d
    → (handle_event e d ≡ some (handled e d)) × IsValid (handled e d)
handle_event-handled e d v = dispatched e.type e.crd_name d v

abbrev pub shut : CrdDebounceBuffer → CrdDebounceBuffer
shut d = record d { payloads_closed = true; payloads = record d.payloads { closed = true } }

close_payloads-shut :
    (d : CrdDebounceBuffer)
    → d.payloads_closed ≡ false
    → d.payloads.closed ≡ d.payloads_closed
    → close_payloads d ≡ some (shut d)
unfolding close_payloads close
close_payloads-shut d h k = rw (h, k ∙ h)

pub offered_upserts-payloads_closed :
    (us : List Text) (d : CrdDebounceBuffer)
    → (offered_upserts us d).payloads_closed ≡ d.payloads_closed
offered_upserts-payloads_closed [] d = refl
offered_upserts-payloads_closed (u ∷ us) d = refl

pub drained-payloads_closed :
    (visit : Visit PendingCrdChange) (d : CrdDebounceBuffer)
    → (drained visit d).payloads_closed ≡ d.payloads_closed
drained-payloads_closed visit d =
    offered_upserts-payloads_closed (names (visit.order d.pending)) _
    ∙ (collect_all-upserts (visit.order d.pending) d []).2

-- The end of `Run` flushes everything and closes the channel.
pub shut_down_lem :
    (visit : Visit PendingCrdChange) (d : CrdDebounceBuffer)
    → IsValid d
    → d.payloads_closed ≡ false
    → (shut_down visit d ≡ some (shut (drained visit d))) × IsValid (shut (drained visit d))
unfolding shut_down
shut_down_lem visit d v o =
    let w = drained-IsValid visit d v in
    (
      rw (flush_all_pending-drained visit d v)
          (close_payloads-shut (drained visit d) (drained-payloads_closed visit d ∙ o) w.flagged),
      record { distinct = w.distinct; keyed = w.keyed; flagged = refl },
    )

mark_ready_nil : (k : Text) (g : ℕ) (d : CrdDebounceBuffer) → d.pending ≡ [] → mark_ready k g d ≡ d
unfolding mark_ready lookup
mark_ready_nil k g d e =
    let missing : lookup k d.pending ≡ none = ap (lookup k) e in rw (missing, mark_ready)

check_flush_nil :
    (visit : Visit PendingCrdChange) (d : CrdDebounceBuffer)
    → d.pending ≡ []
    → check_flush visit d ≡ some d
unfolding check_flush flush_pending
check_flush_nil visit d e =
    let none_left : is_empty d.pending ≡ true = ap is_empty e in
    elim (Bool-cases (leb_ℤ d.max_batch_size (pos (ready_count d)))) [
      | inl h ↦ rw (h, none_left)
      | inr h ↦ rw h
    ]

-- When nothing is pending, a timer that still fires does nothing.
pub timer_callback_nil :
    (visit : Visit PendingCrdChange) (k : Text) (g : ℕ) (d : CrdDebounceBuffer)
    → d.pending ≡ []
    → timer_callback visit k g d ≡ some d
unfolding timer_callback
timer_callback_nil visit k g d e =
    ap (check_flush visit) (mark_ready_nil k g d e) ∙ check_flush_nil visit d e

-- A callback of a timer: it never panics, keeps the buffer well-formed and open, and its view.
pub record Calls (visit : Visit PendingCrdChange) (k : Text) (g : ℕ) (d : CrdDebounceBuffer)
    : Type 0 where
  pub after : CrdDebounceBuffer
  pub steps : timer_callback visit k g d ≡ some after
  pub valid : IsValid after
  pub viewed : (s : Names) → view s after ≡ view s d
  pub flag : after.payloads_closed ≡ d.payloads_closed

mark_ready_fields :
    (k : Text) (g : ℕ) (d : CrdDebounceBuffer)
    → ((mark_ready k g d).payloads ≡ d.payloads)
      × ((mark_ready k g d).payloads_closed ≡ d.payloads_closed)
unfolding mark_ready
mark_ready_fields k g d = ground arith

pub timer_callback-Calls :
    (visit : Visit PendingCrdChange) (k : Text) (g : ℕ) (d : CrdDebounceBuffer)
    → IsValid d
    → IsOpen d
    → Calls visit k g d
unfolding timer_callback check_flush
timer_callback-Calls visit k g d v o =
    let m = mark_ready k g d in
    let w = mark_ready-IsValid k g d v in
    let (same, flag) = mark_ready_fields k g d in
    let p : IsOpen m = record {
      still_open = flag ∙ o.still_open;
      room = ap has_room same ∙ o.room;
    } in
    elim (Bool-cases (leb_ℤ m.max_batch_size (pos (ready_count m)))) [
      | inl h ↦ record {
        after = flushed visit m;
        steps = rw h (flush_pending-flushed visit m w);
        valid = flushed-IsValid visit m w;
        viewed = λ s. view-flushed visit m s w p ∙ view-mark_ready k g d s;
        flag = offered_upserts-payloads_closed (ready_names (visit.order m.pending)) _ ∙ flag;
      }
      | inr h ↦ record {
        after = m;
        steps = rw h;
        valid = w;
        viewed = λ s. view-mark_ready k g d s;
        flag = flag;
      }
    ]

dispatched-payloads_closed :
    (t : EventType) (i : Text) (d : CrdDebounceBuffer)
    → (handled (record { type = t; crd_name = i }) d).payloads_closed ≡ d.payloads_closed
unfolding schedule
dispatched-payloads_closed Event.delete i d = (cancel_pending_fields i d).1
dispatched-payloads_closed Event.add i d = refl
dispatched-payloads_closed Event.update i d = refl

-- The handler neither closes the channel nor reopens it.
pub handled-payloads_closed :
    (e : CrdEvent) (d : CrdDebounceBuffer) → (handled e d).payloads_closed ≡ d.payloads_closed
handled-payloads_closed e d = dispatched-payloads_closed e.type e.crd_name d
