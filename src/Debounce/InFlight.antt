-- ===== src/Debounce/InFlight.antt =====
-- The critical sections of the buffer while `Run` runs, with the callbacks that stand between two
-- of them: debounce.go lets go of `pendingMu` after it has marked a change, and again after it has
-- counted them.
use k8s_vectordb_sync.Base.{
  ℕ, zero, suc, ◌+◌, Option, none, some, List, [], ◌∷◌, ◌++◌, ◌>>=◌, if◌then◌else◌,
}
use k8s_vectordb_sync.Text.{Text}
use k8s_vectordb_sync.KeyMap.{KeyMap, Visit}
use k8s_vectordb_sync.Metadata.{ResourceInstance}
use k8s_vectordb_sync.Debounce.{
  PendingChange, DebounceBuffer, cancel_pending, schedule, mark_ready, is_full, collect_ready,
  emit_upserts,
}

-- A section under `pendingMu`: that of a delete, that of an upsert; in a callback, the one that
-- marks, the one that counts, and the one that collects; and that of a tick, which collects too.
pub data Part : Type 0 where
  cancels : Text → Part
  schedules : ResourceInstance → Part
  marks : Text → ℕ → Part
  counts : Part
  collects ticks : Visit PendingChange → Part

-- How many callbacks have marked and are still to count, how many have found the buffer full and
-- are still to collect, and each list collected, behind the number of these callbacks at the time.
pub record InFlight : Type 0 where
  pub buffer : DebounceBuffer
  pub counting : ℕ
  pub flushing : ℕ
  pub batches : List (ℕ × List ResourceInstance)

abbrev pub none_in_flight : DebounceBuffer → InFlight
none_in_flight d = record { buffer = d; counting = 0; flushing = 0; batches = [] }

abbrev pub changed_by : (DebounceBuffer → DebounceBuffer) → InFlight → InFlight
changed_by f s = record s { buffer = f s.buffer }

-- The first section of `flushPending`.
abbrev pub collected : Visit PendingChange → InFlight → InFlight
collected visit s =
    let (pending, upserts) = collect_ready (visit.order s.buffer.pending) s.buffer.pending [] in
    record s {
      buffer = record s.buffer { pending = pending };
      batches = s.batches ++ (s.counting + s.flushing, upserts) ∷ [];
    }

abbrev pub collect_flushing : ℕ → Visit PendingChange → InFlight → Option InFlight
collect_flushing zero visit s = none
collect_flushing (suc n) visit s = some (record (collected visit s) { flushing = n })

-- One section; `none` if there is no callback that could enter it.
unfoldable pub enter_part : Part → InFlight → Option InFlight
enter_part (cancels id) s = some (changed_by (cancel_pending id) s)
enter_part (schedules i) s = some (changed_by (schedule i) s)
enter_part (marks id gen) s =
    some (record (changed_by (mark_ready id gen) s) { counting = s.counting + 1 })
enter_part counts s = elim s.counting [
  | zero ↦ none
  | suc n ↦ some (
      if is_full s.buffer
      then record s { counting = n; flushing = s.flushing + 1 }
      else record s { counting = n })
]
enter_part (collects visit) s = collect_flushing s.flushing visit s
enter_part (ticks visit) s = some (collected visit s)

unfoldable pub enter_parts : List Part → InFlight → Option InFlight
enter_parts [] s = some s
enter_parts (x ∷ xs) s = enter_part x s >>= enter_parts xs

-- The payloads of the lists collected, one after the other.
abbrev emit_all : List (ℕ × List ResourceInstance) → DebounceBuffer → Option DebounceBuffer
emit_all [] d = some d
emit_all ((n, upserts) ∷ batches) d = emit_upserts upserts d >>= emit_all batches

-- The sections of a callback that nothing comes between, and of such a tick.
abbrev pub callback_alone : Visit PendingChange → Text → ℕ → DebounceBuffer → Option DebounceBuffer
callback_alone visit id gen d =
    let last = if is_full (mark_ready id gen d) then collects visit ∷ [] else [] in
    enter_parts (marks id gen ∷ counts ∷ last) (none_in_flight d) >>= λ s.
    emit_all s.batches s.buffer

abbrev pub tick_alone : Visit PendingChange → DebounceBuffer → Option DebounceBuffer
tick_alone visit d =
    enter_parts (ticks visit ∷ []) (none_in_flight d) >>= λ s. emit_all s.batches s.buffer
