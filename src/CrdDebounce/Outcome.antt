-- ===== src/CrdDebounce/Outcome.antt =====
-- What each operation leaves behind on a well-formed buffer.
use k8s_vectordb_sync.Base.{
  ◌≡◌, refl, sym, ◌∙◌, ap, true, some, List, [], ◌∷◌, arith, is_empty, Bool-cases, inl, inr,
}
use k8s_vectordb_sync.Text.{Text}
use k8s_vectordb_sync.KeyMap.{KeyMap, Visit, lookup}
use k8s_vectordb_sync.KeyMap.Order.{lookup-order}
use k8s_vectordb_sync.Event
use k8s_vectordb_sync.Event.{EventType, CrdEvent}
use k8s_vectordb_sync.CrdDebounce.{
  PendingCrdChange, CrdDebounceBuffer, cancel_pending, schedule, collect_ready, flush_pending,
  collect_all, flush_all_pending,
}
use k8s_vectordb_sync.CrdDebounce.Collect.{
  ready_names, names, collect_ready-upserts, lookup-collect_ready, collect_ready-Distinct,
  collect_all-upserts, lookup-collect_all, nil_of_lookup,
}
use k8s_vectordb_sync.CrdDebounce.Valid.{
  IsValid, offered, offered_upserts, emit_upserts-offered, offered_upserts-IsValid,
}

pub order_nil :
    (visit : Visit PendingCrdChange) (m : KeyMap PendingCrdChange) → m ≡ [] → visit.order m ≡ []
unfolding lookup
order_nil visit m e =
    nil_of_lookup (visit.order m) (λ k. (lookup-order visit m (rw e tt)).1 k ∙ ap (lookup k) e)

pub is_empty-nil {ℓ} : {A : Type ℓ} (m : List A) → is_empty m ≡ true → m ≡ []
is_empty-nil [] h = refl
is_empty-nil (x ∷ m) h = cc

-- The buffer after `handleEvent`.
abbrev pub handled : CrdEvent → CrdDebounceBuffer → CrdDebounceBuffer
handled e d = elim e.type [
  | Event.delete ↦
      offered (record { upserts = []; deletes = e.crd_name ∷ [] }) (cancel_pending e.crd_name d)
  | _ ↦ schedule e.crd_name d
]

-- The buffer after `flushPending`.
abbrev pub left_pending : Visit PendingCrdChange → CrdDebounceBuffer → KeyMap PendingCrdChange
left_pending visit d = (collect_ready (visit.order d.pending) d.pending []).0

abbrev pub flushed : Visit PendingCrdChange → CrdDebounceBuffer → CrdDebounceBuffer
flushed visit d =
    offered_upserts (ready_names (visit.order d.pending))
      (record d { pending = left_pending visit d })

collect_ready_nil :
    (l m : KeyMap PendingCrdChange) → l ≡ [] → ((collect_ready l m []).0 ≡ m) × (ready_names l ≡ [])
unfolding collect_ready
collect_ready_nil l m e = (rw e, rw e)

pub flush_pending-flushed :
    (visit : Visit PendingCrdChange) (d : CrdDebounceBuffer)
    → IsValid d
    → flush_pending visit d ≡ some (flushed visit d)
unfolding flush_pending collect_ready
flush_pending-flushed visit d v = elim (Bool-cases (is_empty d.pending)) [
  | inl e ↦
      let nothing =
        collect_ready_nil (visit.order d.pending) d.pending
          (order_nil visit d.pending (is_empty-nil d.pending e)) in
      rw (e, nothing.0, nothing.1)
  | inr e ↦
      rw (e, collect_ready-upserts (visit.order d.pending) d.pending [])
        (emit_upserts-offered (ready_names (visit.order d.pending)) _ v.flagged)
]

pub flushed-IsValid :
    (visit : Visit PendingCrdChange) (d : CrdDebounceBuffer) → IsValid d → IsValid (flushed visit d)
flushed-IsValid visit d v =
    offered_upserts-IsValid (ready_names (visit.order d.pending)) _ (record {
      distinct = collect_ready-Distinct (visit.order d.pending) d.pending [] v.distinct;
      keyed = λ k x h. ground (
        arith,
        lookup-collect_ready k (visit.order d.pending) d.pending []
            (lookup-order visit d.pending v.distinct).0,
        v.keyed k x,
      );
      flagged = v.flagged;
    })

-- The buffer after `flushAllPending`.
abbrev pub drained : Visit PendingCrdChange → CrdDebounceBuffer → CrdDebounceBuffer
drained visit d =
    offered_upserts (names (visit.order d.pending)) (collect_all (visit.order d.pending) d []).0

collect_all_nil :
    (l : KeyMap PendingCrdChange) (d : CrdDebounceBuffer)
    → l ≡ []
    → ((collect_all l d []).0 ≡ d) × (names l ≡ [])
unfolding collect_all
collect_all_nil l d e = (rw e, rw e)

pub flush_all_pending-drained :
    (visit : Visit PendingCrdChange) (d : CrdDebounceBuffer)
    → IsValid d
    → flush_all_pending visit d ≡ some (drained visit d)
unfolding flush_all_pending
flush_all_pending-drained visit d v = elim (Bool-cases (is_empty d.pending)) [
  | inl e ↦
      let nothing =
        collect_all_nil (visit.order d.pending) d
          (order_nil visit d.pending (is_empty-nil d.pending e)) in
      rw (e, nothing.0, nothing.1)
  | inr e ↦
      let (taken, queue, flag) = collect_all-upserts (visit.order d.pending) d [] in
      rw (e, taken)
        (emit_upserts-offered (names (visit.order d.pending)) _
          (ap (λ c. c.closed) queue ∙ v.flagged ∙ sym flag))
]

pub offered_upserts-pending :
    (us : List Text) (d : CrdDebounceBuffer) → (offered_upserts us d).pending ≡ d.pending
offered_upserts-pending [] d = refl
offered_upserts-pending (u ∷ us) d = refl

offered_upserts-flagged :
    (us : List Text) (d : CrdDebounceBuffer)
    → d.payloads.closed ≡ d.payloads_closed
    → (offered_upserts us d).payloads.closed ≡ (offered_upserts us d).payloads_closed
offered_upserts-flagged [] d h = h
offered_upserts-flagged (u ∷ us) d h = ground arith

-- The final flush leaves nothing pending.
pub drained-pending :
    (visit : Visit PendingCrdChange) (d : CrdDebounceBuffer)
    → IsValid d
    → (drained visit d).pending ≡ []
drained-pending visit d v =
    offered_upserts-pending (names (visit.order d.pending)) _
    ∙ nil_of_lookup _ (λ k. ground (
      arith,
      lookup-collect_all k (visit.order d.pending) d [],
      (lookup-order visit d.pending v.distinct).1 k,
    ))

pub drained-IsValid :
    (visit : Visit PendingCrdChange) (d : CrdDebounceBuffer) → IsValid d → IsValid (drained visit d)
unfolding lookup
drained-IsValid visit d v =
    let (_, queue, flag) = collect_all-upserts (visit.order d.pending) d [] in
    let nothing = drained-pending visit d v in
    record {
      distinct = rw nothing tt;
      keyed = λ k x h. absurd (no_entry k x (sym (ap (lookup k) nothing) ∙ h));
      flagged =
          offered_upserts-flagged (names (visit.order d.pending)) _
            (ap (λ c. c.closed) queue ∙ v.flagged ∙ sym flag);
    }
  where
    no_entry : (k : Text) (x : PendingCrdChange) → lookup k [] ≡ some x → ⊥
    no_entry k x e = cc
