-- ===== src/Debounce/Tests.antt =====
-- Tests of the buffer on concrete inputs, and its theorems at such inputs.
use k8s_vectordb_sync.Base.{
  Option, All, length, ◌<◌, arith, ◌≡◌, refl, true, none, some, List, [], ◌∷◌, ◌++◌, ◌>>=◌,
}
use k8s_vectordb_sync.Base.Int.{pos}
use k8s_vectordb_sync.Text.{Text, text, text_eq, text_eq_iff}
use k8s_vectordb_sync.KeyMap.{Visit, lookup, insert, delete}
use k8s_vectordb_sync.Metadata.{ResourceInstance}
use k8s_vectordb_sync.Runtime.Channel.{try_send, close}
use k8s_vectordb_sync.Runtime.Timers.{after_func, stop, find}
use k8s_vectordb_sync.Event
use k8s_vectordb_sync.Event.{EventType, ResourceEvent}
use k8s_vectordb_sync.Store.{apply_deletes, apply_upserts}
use k8s_vectordb_sync.Debounce.{
  PendingChange, emit_payload, close_payloads, cancel_pending, schedule, handle_event, mark_ready,
  collect_ready, flush_pending, check_flush, timer_callback, collect_all, flush_all_pending,
  count_ready, ready_count, new_debounce_buffer,
}
use k8s_vectordb_sync.Debounce.View.{apply_payloads}
use k8s_vectordb_sync.Debounce.System.{
  System, Case, Action, shut_down, select_case, start_run, fire_timer, step, run, never_full,
}
use Prim.Native.String.{String}
use k8s_vectordb_sync.Config.{Config}
use k8s_vectordb_sync.Runtime.Channel.{make}
use k8s_vectordb_sync.Runtime.Timers.{no_timers}
use mathlib.Core.List.Permᴰ
use k8s_vectordb_sync.Debounce.Refinement.{nothing, apply_events, received}
use k8s_vectordb_sync.Debounce.Races.{
  emit_section, close_section, enter_all, enter_all_never_panics, overtaken, stale_callback_marks,
  delete_overtaken,
}
use k8s_vectordb_sync.Debounce.Valid.{IsValid}
use k8s_vectordb_sync.Debounce.{DebounceBuffer}
use k8s_vectordb_sync.Runtime.Armed.{IsArmed}
use k8s_vectordb_sync.Debounce.ArmedRuns.{pending_timers, run-IsArmed}
use k8s_vectordb_sync.Debounce.Settle.{settle, settled_consistent}
use k8s_vectordb_sync.Debounce.Consistency.{
  fresh, run-view, Realises, run-eventually_consistent, new_debounce_buffer-IsSound,
}
use k8s_vectordb_sync.Debounce.InFlight.{
  Part, schedules, marks, counts, collects, InFlight, none_in_flight, enter_part, enter_parts,
}
use k8s_vectordb_sync.Debounce.Batches.{in_flight_batches}
use k8s_vectordb_sync.Base.{map, length, All, ◌<◌, ◌+◌}

program : Unit {0}
unfolding lookup insert delete text_eq make no_timers try_send close after_func stop find
    emit_payload close_payloads cancel_pending schedule handle_event mark_ready count_ready
    ready_count collect_ready flush_pending check_flush timer_callback collect_all flush_all_pending
    new_debounce_buffer shut_down select_case start_run fire_timer step run never_full apply_upserts
    apply_deletes
program = tt

-- A loop that visits the map in the order in which the entries stand.
abbrev in_order : Visit PendingChange
in_order = record { order = λ m. m; order_perm = Permᴰ.refl }

abbrev settings : Config
settings = record {
  instances_endpoint = [];
  capabilities_endpoint = [];
  debounce_window = pos 10000000000;
  batch_flush_interval = pos 5000000000;
  batch_max_size = pos 2;
  resync_interval = pos 0;
  watch_resource_types = [];
  exclude_resource_types = [];
  api_bind_address = [];
  log_level = [];
}

abbrev instance_of : Text → Text → ResourceInstance
instance_of id created = record {
  id = id;
  namespace = [];
  name = [];
  kind = [];
  api_version = [];
  api_group = [];
  labels = none;
  annotations = none;
  created_at = created;
}

abbrev upsert : String → String → Action
upsert id version =
    Action.round
      (Case.event (record { type = Event.update; instance = instance_of (text id) (text version) }))

abbrev removal : String → Action
removal id =
    Action.round (Case.event (record { type = Event.delete; instance = instance_of (text id) [] }))

abbrev busy_day : List Action
busy_day =
    upsert "a" "1"
    ∷ upsert "b" "1"
    ∷ upsert "a" "2"
    ∷ Action.fire in_order 1
    ∷ Action.round (Case.tick in_order)
    ∷ Action.receive
    ∷ removal "b"
    ∷ upsert "c" "1"
    ∷ Action.round (Case.done in_order)
    ∷ Action.fire in_order 3
    ∷ []

-- Only the last state of "a" is sent; the timer of its first state was stopped.
last_state_wins :
    (run
        (upsert "a" "1"
          ∷ upsert "a" "2"
          ∷ Action.fire in_order 0
          ∷ Action.fire in_order 1
          ∷ Action.round (Case.tick in_order)
          ∷ [])
        (fresh settings)
      >>= λ s. some s.buffer.payloads.queue)
    ≡ some (record { upserts = instance_of (text "a") (text "2") ∷ []; deletes = [] } ∷ [])
unfolding program
last_state_wins = refl

run-eventually_consistent_example :
    (t : System) × (run busy_day (fresh settings) ≡ some t)
    × (t.buffer.pending ≡ [])
    × (apply_payloads (t.delivered ++ t.buffer.payloads.queue) nothing
        ≡ apply_events (received true busy_day) nothing)
unfolding program
run-eventually_consistent_example =
    run-eventually_consistent settings busy_day (fresh settings) refl refl refl

run-view_example : (t : System) × Realises busy_day (fresh settings) t
unfolding program
run-view_example =
    run-view busy_day (fresh settings) (new_debounce_buffer-IsSound settings refl) refl

abbrev empty_buffer : DebounceBuffer
empty_buffer = new_debounce_buffer settings

enter_all_never_panics_example :
    (t : DebounceBuffer) × (enter_all
        (close_section
          ∷ emit_section (record { upserts = []; deletes = text "a" ∷ [] })
          ∷ close_section
          ∷ [])
        empty_buffer
      ≡ some t)
    × (t.payloads.closed ≡ t.payloads_closed)
unfolding program
enter_all_never_panics_example =
    enter_all_never_panics
      (close_section
        ∷ emit_section (record { upserts = []; deletes = text "a" ∷ [] })
        ∷ close_section
        ∷ [])
      empty_buffer refl

abbrev first : ResourceInstance
first = instance_of (text "a") (text "1")

abbrev second : ResourceInstance
second = instance_of (text "a") (text "2")

abbrev back_again : DebounceBuffer
back_again = schedule second (cancel_pending (text "a") (schedule first empty_buffer))

stale_callback_marks_example :
    ((schedule first empty_buffer).timers.armed
      ≡ record { handle = 0; delay = pos 10000000000; key = text "a"; gen = 0 } ∷ [])
    × ((c : PendingChange) × (lookup (text "a") (mark_ready (text "a") 0 back_again).pending
          ≡ some c)
        × (c.instance ≡ second)
        × (c.ready ≡ true)
        × (find c.timer (mark_ready (text "a") 0 back_again).timers.armed
            ≡ some (record { handle = c.timer; delay = pos 10000000000; key = text "a"; gen = 0 })))
unfolding program
stale_callback_marks_example = stale_callback_marks first second empty_buffer refl refl

abbrev waiting : PendingChange
waiting = record { instance = first; timer = 0; ready = true; gen = 0 }

abbrev one_ready : DebounceBuffer
one_ready = record empty_buffer { pending = (text "a", waiting) ∷ [] }

one_ready-IsValid : IsValid one_ready
unfolding program
one_ready-IsValid = record {
  distinct = (refl, tt);
  keyed = λ k c h. ground (arith, text_eq_iff (text "a") k);
  flagged = refl;
}

delete_overtaken_example :
    (t : DebounceBuffer) × (overtaken in_order (text "a") first one_ready ≡ some t)
    × (apply_payloads t.payloads.queue nothing (text "a") ≡ some first)
    × (lookup (text "a") t.pending ≡ none)
unfolding program
delete_overtaken_example =
    delete_overtaken in_order (text "a") first waiting one_ready nothing one_ready-IsValid refl
      (omega arith) refl refl

-- Three callbacks mark before the first of them counts.
abbrev three_mark : List Part
three_mark =
    schedules (instance_of (text "a") [])
    ∷ schedules (instance_of (text "b") [])
    ∷ schedules (instance_of (text "c") [])
    ∷ marks (text "a") 0
    ∷ marks (text "b") 0
    ∷ marks (text "c") 0
    ∷ counts
    ∷ collects in_order
    ∷ []

abbrev parts_outcome : Option InFlight → InFlight
parts_outcome none = none_in_flight (new_debounce_buffer settings)
parts_outcome (some t) = t

abbrev three_marked : InFlight
three_marked =
    parts_outcome (enter_parts three_mark (none_in_flight (new_debounce_buffer settings)))

-- All three go into one batch, though the batch size is 2.
three_marked_batches : map (λ b. length b.1) three_marked.batches ≡ 3 ∷ []
unfolding program enter_part enter_parts
three_marked_batches = refl

in_flight_batches_example :
    All (λ b. length b.1 < 2 + b.0) three_marked.batches
    × (ready_count three_marked.buffer < 2 + three_marked.counting + three_marked.flushing)
unfolding program enter_part enter_parts
in_flight_batches_example =
    in_flight_batches settings 2 three_mark three_marked (omega arith) refl refl

-- A system, if the run did not panic.
abbrev outcome : Option System → System
outcome none = fresh settings
outcome (some s) = s

-- Two changes, of which one has been sent; the timer of the other is armed.
abbrev half_day : List Action
half_day =
    upsert "a" "1"
    ∷ upsert "b" "1"
    ∷ upsert "a" "2"
    ∷ Action.fire in_order 1
    ∷ Action.round (Case.tick in_order)
    ∷ []

abbrev half_done : System
half_done = outcome (run half_day (fresh settings))

settled_consistent_example :
    (u : System) × (run (settle in_order half_done.buffer.timers.armed) half_done ≡ some u)
    × (u.running ≡ true)
    × (apply_payloads (u.delivered ++ u.buffer.payloads.queue) nothing
        ≡ apply_events (received true half_day) nothing)
unfolding program
settled_consistent_example =
    settled_consistent in_order settings half_day (fresh settings) half_done refl refl refl refl
      refl

run-IsArmed_example :
    IsArmed pending_timers half_done.buffer.debounce_window half_done.buffer.pending
      half_done.buffer.timers
unfolding program
run-IsArmed_example = run-IsArmed settings half_day (fresh settings) half_done refl refl refl

-- The batch is one short of the batch size.
abbrev one_ready_two_pending : DebounceBuffer
one_ready_two_pending = mark_ready (text "a") 0 (
    schedule (instance_of (text "b") [])
      (schedule (instance_of (text "a") []) (new_debounce_buffer settings)))
