-- ===== src/CrdDebounce/Tests.antt =====
-- Tests of the buffer on concrete inputs, and its theorems at such inputs.
use k8s_vectordb_sync.Base.{
  none, Option, All, length, ◌<◌, arith, false, ◌≡◌, refl, true, some, List, [], ◌∷◌, ◌++◌, ◌>>=◌,
}
use k8s_vectordb_sync.Base.Int.{pos}
use k8s_vectordb_sync.Text.{text, text_eq}
use k8s_vectordb_sync.KeyMap.{Visit, lookup, insert, delete}
use k8s_vectordb_sync.Runtime.Channel.{try_send, close}
use k8s_vectordb_sync.Runtime.Timers.{after_func, stop, find}
use k8s_vectordb_sync.Event
use k8s_vectordb_sync.Event.{EventType, CrdEvent}
use k8s_vectordb_sync.Store.{apply_deletes, apply_upserts}
use k8s_vectordb_sync.CrdDebounce.{
  PendingCrdChange, emit_payload, close_payloads, cancel_pending, schedule, handle_event,
  mark_ready, collect_ready, flush_pending, check_flush, timer_callback, collect_all,
  flush_all_pending, count_ready, ready_count, new_crd_debounce_buffer,
}
use k8s_vectordb_sync.CrdDebounce.View.{apply_payloads}
use k8s_vectordb_sync.CrdDebounce.System.{
  System, Case, Action, shut_down, select_case, start_run, fire_timer, step, run, never_full,
}
use Prim.Native.String.{String}
use k8s_vectordb_sync.Config.{Config}
use k8s_vectordb_sync.Runtime.Channel.{make}
use k8s_vectordb_sync.Runtime.Timers.{no_timers}
use mathlib.Core.List.Permᴰ
use k8s_vectordb_sync.CrdDebounce.Refinement.{nothing, apply_events, received}
use k8s_vectordb_sync.CrdDebounce.Generations.{
  PendingSection, add, mark, flush, enter_sections, stale_callback_ignored,
}
use k8s_vectordb_sync.CrdDebounce.Consistency.{
  fresh, crd_run-view, Realises, crd_run-eventually_consistent, new_crd_debounce_buffer-IsSound,
}
use k8s_vectordb_sync.CrdDebounce.Settle.{settle, crd_settled_consistent}
use k8s_vectordb_sync.CrdDebounce.InFlight.{
  Part, schedules, marks, counts, collects, InFlight, none_in_flight, enter_part, enter_parts,
}
use k8s_vectordb_sync.CrdDebounce.Batches.{crd_in_flight_batches}
use k8s_vectordb_sync.Base.{map, length, All, ◌<◌, ◌+◌}
use k8s_vectordb_sync.CrdDebounce.Races.{
  emit_section, close_section, enter_all, crd_enter_all_never_panics,
}
use k8s_vectordb_sync.CrdDebounce.{CrdDebounceBuffer}

program : Unit {0}
unfolding lookup insert delete text_eq make no_timers try_send close after_func stop find
    emit_payload close_payloads cancel_pending schedule handle_event mark_ready count_ready
    ready_count collect_ready flush_pending check_flush timer_callback collect_all flush_all_pending
    new_crd_debounce_buffer shut_down select_case start_run fire_timer step run never_full
    apply_upserts apply_deletes
program = tt

-- A loop that visits the map in the order in which the entries stand.
abbrev in_order : Visit PendingCrdChange
in_order = record { order = λ m. m; order_perm = Permᴰ.refl }

abbrev settings : Config
settings = record {
  instances_endpoint = [];
  capabilities_endpoint = [];
  debounce_window = pos 10000000000;
  batch_flush_interval = pos 5000000000;
  batch_max_size = pos 2;
  resync_interval = pos 0;
  watch_resource_types = [];
  exclude_resource_types = [];
  api_bind_address = [];
  log_level = [];
}

abbrev upsert : String → Action
upsert name = Action.round (Case.event (record { type = Event.add; crd_name = text name }))

abbrev removal : String → Action
removal name = Action.round (Case.event (record { type = Event.delete; crd_name = text name }))

abbrev busy_day : List Action
busy_day =
    upsert "a"
    ∷ upsert "b"
    ∷ upsert "a"
    ∷ Action.fire in_order 1
    ∷ Action.round (Case.tick in_order)
    ∷ Action.receive
    ∷ removal "b"
    ∷ upsert "c"
    ∷ Action.round (Case.done in_order)
    ∷ Action.fire in_order 3
    ∷ []

-- A name is sent once, however often it was added; the first timer was stopped.
added_twice :
    (run
        (upsert "a"
          ∷ upsert "a"
          ∷ Action.fire in_order 0
          ∷ Action.fire in_order 1
          ∷ Action.round (Case.tick in_order)
          ∷ [])
        (fresh settings)
      >>= λ s. some s.buffer.payloads.queue)
    ≡ some (record { upserts = text "a" ∷ []; deletes = [] } ∷ [])
unfolding program
added_twice = refl

crd_run-eventually_consistent_example :
    (t : System) × (run busy_day (fresh settings) ≡ some t)
    × (t.buffer.pending ≡ [])
    × (apply_payloads (t.delivered ++ t.buffer.payloads.queue) nothing
        ≡ apply_events (received true busy_day) nothing)
unfolding program
crd_run-eventually_consistent_example =
    crd_run-eventually_consistent settings busy_day (fresh settings) refl refl refl

crd_run-view_example : (t : System) × Realises busy_day (fresh settings) t
unfolding program
crd_run-view_example =
    crd_run-view busy_day (fresh settings) (new_crd_debounce_buffer-IsSound settings refl) refl

abbrev in_between : List PendingSection
in_between = add (text "a") ∷ mark (text "a") 1 ∷ flush in_order ∷ add (text "b") ∷ []

stale_callback_ignored_example :
    let first = schedule (text "a") (new_crd_debounce_buffer settings) in
    let deleted = enter_sections in_between (cancel_pending (text "a") first) in
    let replaced = enter_sections in_between (schedule (text "a") first) in
    (mark_ready (text "a") 1 deleted ≡ deleted) × (mark_ready (text "a") 1 replaced ≡ replaced)
unfolding program
stale_callback_ignored_example =
    stale_callback_ignored (text "a") in_between (new_crd_debounce_buffer settings)
      (record { crd_name = text "a"; timer = 0; ready = false; gen = 1 }) (omega arith) refl

-- Three callbacks mark before the first of them counts.
abbrev three_mark : List Part
three_mark =
    schedules (text "a")
    ∷ schedules (text "b")
    ∷ schedules (text "c")
    ∷ marks (text "a") 1
    ∷ marks (text "b") 2
    ∷ marks (text "c") 3
    ∷ counts
    ∷ collects in_order
    ∷ []

abbrev parts_outcome : Option InFlight → InFlight
parts_outcome none = none_in_flight (new_crd_debounce_buffer settings)
parts_outcome (some t) = t

abbrev three_marked : InFlight
three_marked =
    parts_outcome (enter_parts three_mark (none_in_flight (new_crd_debounce_buffer settings)))

-- All three go into one batch, though the batch size is 2.
three_marked_batches : map (λ b. length b.1) three_marked.batches ≡ 3 ∷ []
unfolding program enter_part enter_parts
three_marked_batches = refl

crd_in_flight_batches_example :
    All (λ b. length b.1 < 2 + b.0) three_marked.batches
    × (ready_count three_marked.buffer < 2 + three_marked.counting + three_marked.flushing)
unfolding program enter_part enter_parts
crd_in_flight_batches_example =
    crd_in_flight_batches settings 2 three_mark three_marked (omega arith) refl refl

crd_enter_all_never_panics_example :
    (t : CrdDebounceBuffer) × (enter_all
        (close_section
          ∷ emit_section (record { upserts = []; deletes = text "a" ∷ [] })
          ∷ close_section
          ∷ [])
        (new_crd_debounce_buffer settings)
      ≡ some t)
    × (t.payloads.closed ≡ t.payloads_closed)
unfolding program
crd_enter_all_never_panics_example =
    crd_enter_all_never_panics
      (close_section
        ∷ emit_section (record { upserts = []; deletes = text "a" ∷ [] })
        ∷ close_section
        ∷ [])
      (new_crd_debounce_buffer settings) refl

-- A system, if the run did not panic.
abbrev outcome : Option System → System
outcome none = fresh settings
outcome (some s) = s

-- Two changes, of which one has been sent; the timer of the other is armed.
abbrev half_day : List Action
half_day =
    upsert "a"
    ∷ upsert "b"
    ∷ upsert "a"
    ∷ Action.fire in_order 1
    ∷ Action.round (Case.tick in_order)
    ∷ []

abbrev half_done : System
half_done = outcome (run half_day (fresh settings))

crd_settled_consistent_example :
    (u : System) × (run (settle in_order half_done.buffer.timers.armed) half_done ≡ some u)
    × (u.running ≡ true)
    × (apply_payloads (u.delivered ++ u.buffer.payloads.queue) nothing
        ≡ apply_events (received true half_day) nothing)
unfolding program
crd_settled_consistent_example =
    crd_settled_consistent in_order settings half_day (fresh settings) half_done refl refl refl refl
      refl

-- The batch is one short of the batch size.
abbrev one_ready_two_pending : CrdDebounceBuffer
one_ready_two_pending =
    mark_ready (text "a") 1
      (schedule (text "b") (schedule (text "a") (new_crd_debounce_buffer settings)))
