-- ===== src/Debounce/Valid.antt =====
-- The well-formedness of the buffer, operation by operation.
use k8s_vectordb_sync.Base.{
  ℕ, ◌≡◌, refl, some, List, [], ◌∷◌, arith, ◌==◌, if◌then◌else◌, is_empty, Bool-cases, Option-cases,
  inl, inr,
}
use k8s_vectordb_sync.Text.{Text, text_eq_iff}
use k8s_vectordb_sync.KeyMap.{KeyMap, lookup, insert, Distinct}
use k8s_vectordb_sync.KeyMap.Laws.{lookup-insert, lookup-delete, insert-Distinct, delete-Distinct}
use k8s_vectordb_sync.Metadata.{ResourceInstance}
use k8s_vectordb_sync.Runtime.Channel.{try_send, has_room, push}
use k8s_vectordb_sync.Debounce.{
  SyncPayload, PendingChange, DebounceBuffer, emit_payload, cancel_pending, schedule, mark_ready,
  emit_upserts,
}
use k8s_vectordb_sync.Debounce.Collect.{Keyed}

-- No identifier is pending twice, each entry stands under the identifier of its instance, and the
-- flag under `payloadsMu` tells whether the channel is closed.
pub record IsValid (d : DebounceBuffer) : Type 0 where
  pub distinct : Distinct d.pending
  pub keyed : Keyed d.pending
  pub flagged : d.payloads.closed ≡ d.payloads_closed

-- The buffer after a payload was offered to it: it is dropped if the channel is closed or full.
abbrev pub offered : SyncPayload → DebounceBuffer → DebounceBuffer
offered p d = record d {
  payloads =
      if d.payloads_closed
      then d.payloads
      else (if has_room d.payloads then push p d.payloads else d.payloads);
}

pub emit_payload-offered :
    (p : SyncPayload) (d : DebounceBuffer)
    → d.payloads.closed ≡ d.payloads_closed
    → emit_payload p d ≡ some (offered p d)
unfolding emit_payload try_send
emit_payload-offered p d h = ground arith

-- The same for the upserts of a flush, which are not sent if there are none.
abbrev pub offered_upserts : List ResourceInstance → DebounceBuffer → DebounceBuffer
offered_upserts us d = if is_empty us then d else offered (record { upserts = us; deletes = [] }) d

pub emit_upserts-offered :
    (us : List ResourceInstance) (d : DebounceBuffer)
    → d.payloads.closed ≡ d.payloads_closed
    → emit_upserts us d ≡ some (offered_upserts us d)
emit_upserts-offered [] d h = refl
emit_upserts-offered (u ∷ us) d h = emit_payload-offered _ d h

pub offered-IsValid : (p : SyncPayload) (d : DebounceBuffer) → IsValid d → IsValid (offered p d)
offered-IsValid p d v = record { distinct = v.distinct; keyed = v.keyed; flagged = ground arith }

pub offered_upserts-IsValid :
    (us : List ResourceInstance) (d : DebounceBuffer) → IsValid d → IsValid (offered_upserts us d)
offered_upserts-IsValid [] d v = v
offered_upserts-IsValid (u ∷ us) d v = offered-IsValid _ d v

pub cancel_pending-IsValid :
    (id : Text) (d : DebounceBuffer) → IsValid d → IsValid (cancel_pending id d)
unfolding cancel_pending
cancel_pending-IsValid id d v = elim (Option-cases (lookup id d.pending)) [
  | inl e ↦ rw (e, cancel_pending) v
  | inr (c, e) ↦
      rw (e, cancel_pending)
        (record {
          distinct = delete-Distinct id d.pending v.distinct;
          keyed = λ k x h. ground (arith, lookup-delete id k d.pending, v.keyed k x);
          flagged = v.flagged;
        })
]

pub insert-Keyed :
    (k : Text) (c : PendingChange) (m : KeyMap PendingChange)
    → c.instance.id ≡ k
    → Keyed m
    → Keyed (insert k c m)
insert-Keyed k c m e h j x p = ground (arith, lookup-insert k j c m, text_eq_iff k j, h j x)

pub schedule-IsValid :
    (i : ResourceInstance) (d : DebounceBuffer) → IsValid d → IsValid (schedule i d)
unfolding schedule
schedule-IsValid i d v = record {
  distinct = insert-Distinct i.id _ d.pending v.distinct;
  keyed = insert-Keyed i.id _ d.pending refl v.keyed;
  flagged = v.flagged;
}

pub mark_ready-IsValid :
    (id : Text) (g : ℕ) (d : DebounceBuffer) → IsValid d → IsValid (mark_ready id g d)
unfolding mark_ready
mark_ready-IsValid id g d v = elim (Option-cases (lookup id d.pending)) [
  | inl e ↦ rw (e, mark_ready) v
  | inr (c, e) ↦ elim (Bool-cases (c.gen == g)) [
    | inl hit ↦
        rw (e, mark_ready, hit)
          (record {
            distinct = insert-Distinct id _ d.pending v.distinct;
            keyed = insert-Keyed id _ d.pending (v.keyed id c e) v.keyed;
            flagged = v.flagged;
          })
    | inr miss ↦ rw (e, mark_ready, miss) v
  ]
]
