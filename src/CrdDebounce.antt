-- ===== src/CrdDebounce.antt =====
-- internal/controller/crd_debounce.go. A method takes the buffer and returns the new one; `none` is a
-- panic. Each method is one critical section, or a few in sequence; the loop of `Run`, the timers
-- and the consumer of the channel are in CrdDebounce/System.
mod Tests
pub mod Collect
pub mod System
pub mod Valid
pub mod Outcome
pub mod View
pub mod Progress
pub mod Refinement
pub mod Consistency
pub mod Generations
pub mod Counts
pub mod Kept
pub mod ArmedRuns
pub mod Settle
pub mod Races
pub mod InFlight
pub mod Batches
use k8s_vectordb_sync.Base.{
  ℕ, suc, ◌+◌, ◌%◌, ◌^◌, ◌≡◌, Bool, true, false, not, ◌&&◌, Option, none, some, List, [], ◌∷◌, ◌++◌,
  arith, ◌==◌, if◌then◌else◌, is_empty, ◌>>=◌, length,
}
use k8s_vectordb_sync.Base.Int.{ℤ, pos, leb_ℤ}
use k8s_vectordb_sync.Text.{Text}
use k8s_vectordb_sync.KeyMap.{KeyMap, Visit, lookup, insert, delete}
use k8s_vectordb_sync.Runtime.Channel.{Channel, make, try_send, close}
use k8s_vectordb_sync.Runtime.Timers.{Timers, no_timers, after_func, stop}
use k8s_vectordb_sync.Config.{Config}
use k8s_vectordb_sync.Event
use k8s_vectordb_sync.Event.{CrdEvent}

pub record CrdSyncPayload : Type 0 where
  pub upserts : List Text
  pub deletes : List Text

-- `CrdSyncPayload.IsEmpty`
unfoldable pub payload_is_empty : CrdSyncPayload → Bool
payload_is_empty p = is_empty p.upserts && is_empty p.deletes

-- `timer` is the handle of the timer.
pub record PendingCrdChange : Type 0 where
  pub crd_name : Text
  pub timer : ℕ
  pub ready : Bool
  pub gen : ℕ

-- The two mutexes are the critical sections; `timers` holds the timers that the buffer has armed.
pub record CrdDebounceBuffer : Type 0 where
  pub debounce_window : ℤ
  pub flush_interval : ℤ
  pub max_batch_size : ℤ
  pub pending : KeyMap PendingCrdChange
  pub payloads : Channel CrdSyncPayload
  pub payloads_closed : Bool
  pub timers : Timers
  pub next_gen : ℕ

unfoldable pub new_crd_debounce_buffer : Config → CrdDebounceBuffer
unfolding make no_timers
new_crd_debounce_buffer cfg = record {
  debounce_window = cfg.debounce_window;
  flush_interval = cfg.batch_flush_interval;
  max_batch_size = cfg.batch_max_size;
  pending = [];
  payloads = make 100;
  payloads_closed = false;
  timers = no_timers;
  next_gen = 0;
}

-- A full channel drops the payload.
unfoldable pub emit_payload : CrdSyncPayload → CrdDebounceBuffer → Option CrdDebounceBuffer
emit_payload payload d =
    if d.payloads_closed
    then some d
    else (try_send payload d.payloads >>= λ c. some (record d { payloads = c }))

unfoldable pub close_payloads : CrdDebounceBuffer → Option CrdDebounceBuffer
close_payloads d =
    if d.payloads_closed
    then some d
    else (close d.payloads >>= λ c. some (record d { payloads_closed = true; payloads = c }))

-- The first critical section of a delete: the pending add of the CRD is cancelled.
unfoldable pub cancel_pending : Text → CrdDebounceBuffer → CrdDebounceBuffer
cancel_pending id d = elim (lookup id d.pending) [
  | none ↦ d
  | some existing ↦ record d {
    timers = stop existing.timer d.timers;
    pending = delete id d.pending;
  }
]

abbrev pub stop_existing : Option PendingCrdChange → Timers → Timers
stop_existing none timers = timers
stop_existing (some existing) timers = stop existing.timer timers

abbrev pub new_change : Text → ℕ → Timers → PendingCrdChange
new_change crd_name gen timers = record {
  crd_name = crd_name;
  timer = timers.next_handle;
  ready = false;
  gen = gen;
}

-- The branch of `handleEvent` for an add; the counter is a uint64.
unfoldable pub schedule : Text → CrdDebounceBuffer → CrdDebounceBuffer
unfolding after_func stop
schedule crd_name d =
    let existing = lookup crd_name d.pending in
    let timers = stop_existing existing d.timers in
    let gen = (d.next_gen + 1) % 2 ^ 64 in
    record d {
      pending = insert crd_name (new_change crd_name gen timers) d.pending;
      timers = after_func d.debounce_window crd_name gen timers;
      next_gen = gen;
    }

unfoldable pub handle_event : CrdEvent → CrdDebounceBuffer → Option CrdDebounceBuffer
handle_event event d = elim event.type [
  | Event.delete ↦
      emit_payload (record { upserts = []; deletes = event.crd_name ∷ [] })
        (cancel_pending event.crd_name d)
  | _ ↦ some (schedule event.crd_name d)
]

-- The critical section of the timer's callback.
unfoldable pub mark_ready : Text → ℕ → CrdDebounceBuffer → CrdDebounceBuffer
mark_ready id captured_gen d = elim (lookup id d.pending) [
  | none ↦ d
  | some p ↦
      if p.gen == captured_gen
      then record d { pending = insert id (record p { ready = true }) d.pending }
      else d
]

-- The loop of `readyCount`.
unfoldable pub count_ready : KeyMap PendingCrdChange → ℕ → ℕ
count_ready [] count = count
count_ready ((id, change) ∷ rest) count =
    count_ready rest (if change.ready then count + 1 else count)

unfoldable pub ready_count : CrdDebounceBuffer → ℕ
unfolding count_ready
ready_count d = count_ready d.pending 0

-- The loop of `flushPending` over the entries in the order of the visit: the entries that are left
-- in the map, and the names collected.
unfoldable pub collect_ready :
    KeyMap PendingCrdChange
    → KeyMap PendingCrdChange
    → List Text
    → KeyMap PendingCrdChange × List Text
collect_ready [] pending upserts = (pending, upserts)
collect_ready ((id, change) ∷ rest) pending upserts =
    collect_ready rest (if change.ready then delete id pending else pending)
      (if change.ready then upserts ++ change.crd_name ∷ [] else upserts)

abbrev pub emit_upserts : List Text → CrdDebounceBuffer → Option CrdDebounceBuffer
emit_upserts upserts d =
    if is_empty upserts then some d else emit_payload (record { upserts = upserts; deletes = [] }) d

unfoldable pub flush_pending : Visit PendingCrdChange → CrdDebounceBuffer → Option CrdDebounceBuffer
flush_pending visit d =
    if is_empty d.pending
    then some d
    else (let (pending, upserts) = collect_ready (visit.order d.pending) d.pending [] in
        emit_upserts upserts (record d { pending = pending }))

-- The test of `checkFlush`.
abbrev pub is_full : CrdDebounceBuffer → Bool
is_full d = leb_ℤ d.max_batch_size (pos (ready_count d))

unfoldable pub check_flush : Visit PendingCrdChange → CrdDebounceBuffer → Option CrdDebounceBuffer
check_flush visit d = if is_full d then flush_pending visit d else some d

-- The callback of `time.AfterFunc`, its sections one after the other; InFlight and Races let others
-- come between them.
unfoldable pub timer_callback :
    Visit PendingCrdChange → Text → ℕ → CrdDebounceBuffer → Option CrdDebounceBuffer
timer_callback visit id captured_gen d = check_flush visit (mark_ready id captured_gen d)

-- The loop of `flushAllPending`.
unfoldable pub collect_all :
    KeyMap PendingCrdChange → CrdDebounceBuffer → List Text → CrdDebounceBuffer × List Text
collect_all [] d upserts = (d, upserts)
collect_all ((id, change) ∷ rest) d upserts =
    collect_all rest
      (record d { timers = stop change.timer d.timers; pending = delete id d.pending })
      (upserts ++ change.crd_name ∷ [])

unfoldable pub flush_all_pending :
    Visit PendingCrdChange → CrdDebounceBuffer → Option CrdDebounceBuffer
flush_all_pending visit d =
    if is_empty d.pending
    then some d
    else (let (d', upserts) = collect_all (visit.order d.pending) d [] in emit_upserts upserts d')

-- `pendingCount`, which `PendingCountForTesting` returns.
unfoldable pub pending_count : CrdDebounceBuffer → ℕ
pending_count d = length d.pending
