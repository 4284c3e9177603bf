-- ===== src/Debounce.antt =====
-- internal/controller/debounce.go. A method takes the buffer and returns the new one; `none` is a
-- panic. Each method is one critical section, or a few in sequence; the loop of `Run`, the timers
-- and the consumer of the channel are in Debounce/System.
pub mod Collect
pub mod System
pub mod Valid
pub mod Outcome
pub mod View
pub mod Progress
pub mod Refinement
pub mod Consistency
pub mod Counts
pub mod Kept
pub mod InFlight
pub mod Batches
pub mod ArmedRuns
pub mod Settle
pub mod Races
mod Tests
use k8s_vectordb_sync.Base.{
  ℕ, suc, ◌+◌, ◌%◌, ◌^◌, ◌≡◌, Bool, true, false, not, ◌&&◌, Option, none, some, List, [], ◌∷◌, ◌++◌,
  arith, ◌==◌, if◌then◌else◌, is_empty, ◌>>=◌, length,
}
use k8s_vectordb_sync.Base.Int.{ℤ, pos, leb_ℤ}
use k8s_vectordb_sync.Text.{Text}
use k8s_vectordb_sync.KeyMap.{KeyMap, Visit, lookup, insert, delete}
use k8s_vectordb_sync.Metadata.{ResourceInstance}
use k8s_vectordb_sync.Runtime.Channel.{Channel, make, try_send, close}
use k8s_vectordb_sync.Runtime.Timers.{Timers, no_timers, after_func, stop}
use k8s_vectordb_sync.Config.{Config}
use k8s_vectordb_sync.Event
use k8s_vectordb_sync.Event.{ResourceEvent}

pub record SyncPayload : Type 0 where
  pub upserts : List ResourceInstance
  pub deletes : List Text

-- `SyncPayload.IsEmpty`
unfoldable pub payload_is_empty : SyncPayload → Bool
payload_is_empty p = is_empty p.upserts && is_empty p.deletes

-- `timer` is the handle of the timer.
pub record PendingChange : Type 0 where
  pub instance : ResourceInstance
  pub timer : ℕ
  pub ready : Bool
  pub gen : ℕ

-- The two mutexes are the critical sections; `timers` holds the timers that the buffer has armed.
pub record DebounceBuffer : Type 0 where
  pub debounce_window : ℤ
  pub flush_interval : ℤ
  pub max_batch_size : ℤ
  pub pending : KeyMap PendingChange
  pub payloads : Channel SyncPayload
  pub payloads_closed : Bool
  pub timers : Timers

unfoldable pub new_debounce_buffer : Config → DebounceBuffer
unfolding make no_timers
new_debounce_buffer cfg = record {
  debounce_window = cfg.debounce_window;
  flush_interval = cfg.batch_flush_interval;
  max_batch_size = cfg.batch_max_size;
  pending = [];
  payloads = make 100;
  payloads_closed = false;
  timers = no_timers;
}

-- A full channel drops the payload.
unfoldable pub emit_payload : SyncPayload → DebounceBuffer → Option DebounceBuffer
emit_payload payload d =
    if d.payloads_closed
    then some d
    else (try_send payload d.payloads >>= λ c. some (record d { payloads = c }))

unfoldable pub close_payloads : DebounceBuffer → Option DebounceBuffer
close_payloads d =
    if d.payloads_closed
    then some d
    else (close d.payloads >>= λ c. some (record d { payloads_closed = true; payloads = c }))

-- The first critical section of a delete: the pending upsert of the resource is cancelled.
unfoldable pub cancel_pending : Text → DebounceBuffer → DebounceBuffer
cancel_pending id d = elim (lookup id d.pending) [
  | none ↦ d
  | some existing ↦ record d {
    timers = stop existing.timer d.timers;
    pending = delete id d.pending;
  }
]

-- `nextGen`, a uint64.
abbrev pub next_gen : Option PendingChange → ℕ
next_gen none = 0
next_gen (some existing) = (existing.gen + 1) % 2 ^ 64

abbrev pub stop_existing : Option PendingChange → Timers → Timers
stop_existing none timers = timers
stop_existing (some existing) timers = stop existing.timer timers

abbrev pub new_change : ResourceInstance → ℕ → Timers → PendingChange
new_change instance gen timers = record {
  instance = instance;
  timer = timers.next_handle;
  ready = false;
  gen = gen;
}

-- The upsert branch of `handleEvent`.
unfoldable pub schedule : ResourceInstance → DebounceBuffer → DebounceBuffer
unfolding after_func stop
schedule instance d =
    let id = instance.id in
    let existing = lookup id d.pending in
    let timers = stop_existing existing d.timers in
    let gen = next_gen existing in
    record d {
      pending = insert id (new_change instance gen timers) d.pending;
      timers = after_func d.debounce_window id gen timers;
    }

unfoldable pub handle_event : ResourceEvent → DebounceBuffer → Option DebounceBuffer
handle_event event d = elim event.type [
  | Event.delete ↦
      emit_payload (record { upserts = []; deletes = event.instance.id ∷ [] })
        (cancel_pending event.instance.id d)
  | _ ↦ some (schedule event.instance d)
]

-- The critical section of the timer's callback.
unfoldable pub mark_ready : Text → ℕ → DebounceBuffer → DebounceBuffer
mark_ready id captured_gen d = elim (lookup id d.pending) [
  | none ↦ d
  | some p ↦
      if p.gen == captured_gen
      then record d { pending = insert id (record p { ready = true }) d.pending }
      else d
]

-- The loop of `readyCount`.
unfoldable pub count_ready : KeyMap PendingChange → ℕ → ℕ
count_ready [] count = count
count_ready ((id, change) ∷ rest) count =
    count_ready rest (if change.ready then count + 1 else count)

unfoldable pub ready_count : DebounceBuffer → ℕ
unfolding count_ready
ready_count d = count_ready d.pending 0

-- The loop of `flushPending` over the entries in the order of the visit: the entries that are left
-- in the map, and the upserts collected.
unfoldable pub collect_ready :
    KeyMap PendingChange
    → KeyMap PendingChange
    → List ResourceInstance
    → KeyMap PendingChange × List ResourceInstance
collect_ready [] pending upserts = (pending, upserts)
collect_ready ((id, change) ∷ rest) pending upserts =
    collect_ready rest (if change.ready then delete id pending else pending)
      (if change.ready then upserts ++ change.instance ∷ [] else upserts)

abbrev pub emit_upserts : List ResourceInstance → DebounceBuffer → Option DebounceBuffer
emit_upserts upserts d =
    if is_empty upserts then some d else emit_payload (record { upserts = upserts; deletes = [] }) d

unfoldable pub flush_pending : Visit PendingChange → DebounceBuffer → Option DebounceBuffer
flush_pending visit d =
    if is_empty d.pending
    then some d
    else (let (pending, upserts) = collect_ready (visit.order d.pending) d.pending [] in
        emit_upserts upserts (record d { pending = pending }))

-- The test of `checkFlush`.
abbrev pub is_full : DebounceBuffer → Bool
is_full d = leb_ℤ d.max_batch_size (pos (ready_count d))

unfoldable pub check_flush : Visit PendingChange → DebounceBuffer → Option DebounceBuffer
check_flush visit d = if is_full d then flush_pending visit d else some d

-- The callback of `time.AfterFunc`, its sections one after the other; InFlight and Races let others
-- come between them.
unfoldable pub timer_callback :
    Visit PendingChange → Text → ℕ → DebounceBuffer → Option DebounceBuffer
timer_callback visit id captured_gen d = check_flush visit (mark_ready id captured_gen d)

-- The loop of `flushAllPending`.
unfoldable pub collect_all :
    KeyMap PendingChange
    → DebounceBuffer
    → List ResourceInstance
    → DebounceBuffer × List ResourceInstance
collect_all [] d upserts = (d, upserts)
collect_all ((id, change) ∷ rest) d upserts =
    collect_all rest
      (record d { timers = stop change.timer d.timers; pending = delete id d.pending })
      (upserts ++ change.instance ∷ [])

unfoldable pub flush_all_pending : Visit PendingChange → DebounceBuffer → Option DebounceBuffer
flush_all_pending visit d =
    if is_empty d.pending
    then some d
    else (let (d', upserts) = collect_all (visit.order d.pending) d [] in emit_upserts upserts d')

-- `pendingCount`, which `PendingCountForTesting` returns.
unfoldable pub pending_count : DebounceBuffer → ℕ
pending_count d = length d.pending
