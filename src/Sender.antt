-- ===== src/Sender.antt =====
-- cmd/main.go: the loop that takes the payloads of a buffer and sends them.
pub mod Pipeline
pub mod EndToEnd
pub mod Repair
pub mod CrdEndToEnd
mod Tests
mod CrdTests
use k8s_vectordb_sync.Base.{ℕ, ◌+◌, Bool, Option, List, [], ◌∷◌, if◌then◌else◌}
use k8s_vectordb_sync.Debounce.{SyncPayload, payload_is_empty}
use k8s_vectordb_sync.CrdDebounce
use k8s_vectordb_sync.CrdDebounce.{CrdSyncPayload}
use k8s_vectordb_sync.Text.{Text}
use k8s_vectordb_sync.Client.{RestClient, Outside, Sent, Payload, payload, send, is_nil}

module _ {ℓ} {P : Type ℓ} ⦃i : Payload P⦄ (c : RestClient) where
  -- `runSenderLoop`, from the payload `n` on: each payload with what comes of it. `cancelled n` tells
  -- whether the context of the loop is cancelled when it takes the payload `n`; `live n` is what the
  -- outside does while it is sent with that context, and `drain n` with the short-lived one.
  unfoldable pub run_sender_loop :
      (ℕ → Bool) → (ℕ → Outside) → (ℕ → Outside) → ℕ → List P → List (P × Sent)
  run_sender_loop cancelled live drain n [] = []
  run_sender_loop cancelled live drain n (p ∷ payloads) =
      (p, send c (if cancelled n then drain n else live n) (payload p))
      ∷ run_sender_loop cancelled live drain (n + 1) payloads

module _ {ℓ} {P : Type ℓ} where
  -- The payloads that were sent without an error.
  abbrev pub accepted : List (P × Sent) → List P
  accepted [] = []
  accepted ((p, r) ∷ rest) = if is_nil r.error then p ∷ accepted rest else accepted rest

-- The payloads of the instance buffer, with what `json.Marshal` makes of them.
abbrev pub sync_payload : (SyncPayload → Option Text) → Payload SyncPayload
sync_payload marshal = record { is_empty = payload_is_empty; marshal = marshal }

-- The payloads of the CRD buffer.
abbrev pub crd_sync_payload : (CrdSyncPayload → Option Text) → Payload CrdSyncPayload
crd_sync_payload marshal = record { is_empty = CrdDebounce.payload_is_empty; marshal = marshal }
