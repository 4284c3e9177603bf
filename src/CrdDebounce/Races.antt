-- ===== src/CrdDebounce/Races.antt =====
-- What may happen between the critical sections of the buffer.
use k8s_vectordb_sync.Base.{
  ◌≡◌, refl, ◌∙◌, true, Option, some, List, [], ◌∷◌, arith, ◌>>=◌, Bool-cases, inl, inr,
}
use k8s_vectordb_sync.KeyMap.{KeyMap}
use k8s_vectordb_sync.Runtime.Channel.{close}
use k8s_vectordb_sync.Runtime.Timers.{Timers}
use k8s_vectordb_sync.CrdDebounce.{
  CrdSyncPayload, PendingCrdChange, CrdDebounceBuffer, emit_payload, close_payloads,
}
use k8s_vectordb_sync.CrdDebounce.Valid.{offered, emit_payload-offered}

-- A critical section: under `pendingMu` the map and the timers may change in any way, and under
-- `payloadsMu` a payload is emitted or the channel is closed.
pub data Section : Type 0 where
  pending_section :
      (KeyMap PendingCrdChange → KeyMap PendingCrdChange) → (Timers → Timers) → Section
  emit_section : CrdSyncPayload → Section
  close_section : Section

unfoldable pub enter : Section → CrdDebounceBuffer → Option CrdDebounceBuffer
enter (pending_section f g) d = some (record d { pending = f d.pending; timers = g d.timers })
enter (emit_section p) d = emit_payload p d
enter close_section d = close_payloads d

unfoldable pub enter_all : List Section → CrdDebounceBuffer → Option CrdDebounceBuffer
enter_all [] d = some d
enter_all (x ∷ xs) d = enter x d >>= enter_all xs

enter-flagged :
    (x : Section) (d : CrdDebounceBuffer)
    → d.payloads.closed ≡ d.payloads_closed
    → (t : CrdDebounceBuffer) × (enter x d ≡ some t) × (t.payloads.closed ≡ t.payloads_closed)
unfolding enter close_payloads close
enter-flagged (pending_section f g) d h = (_, refl, h)
enter-flagged (emit_section p) d h = (offered p d, emit_payload-offered p d h, ground arith)
enter-flagged close_section d h = elim (Bool-cases d.payloads_closed) [
  | inl e ↦ (d, rw e, h)
  | inr e ↦
      let closed : CrdDebounceBuffer = record d {
        payloads_closed = true;
        payloads = record d.payloads { closed = true };
      } in
      (closed, rw (e, h ∙ e), refl)
]

-- However the critical sections of the goroutines are interleaved, also after the end of `Run`,
-- no payload is sent on a closed channel and the channel is not closed twice, if at the start the
-- flag tells whether the channel is closed.
pub crd_enter_all_never_panics :
    (xs : List Section) (d : CrdDebounceBuffer)
    → d.payloads.closed ≡ d.payloads_closed
    → (t : CrdDebounceBuffer) × (enter_all xs d ≡ some t) × (t.payloads.closed ≡ t.payloads_closed)
unfolding enter_all
crd_enter_all_never_panics [] d h = (d, refl, h)
crd_enter_all_never_panics (x ∷ xs) d h =
    let (t, e, k) = enter-flagged x d h in
    let (u, f, l) = crd_enter_all_never_panics xs t k in (u, rw (e, f), l)
