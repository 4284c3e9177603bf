-- ===== src/Sender/Tests.antt =====
-- The pipeline at a concrete run.
use k8s_vectordb_sync.Base.{Option, arith, ◌≡◌, refl, true, none, some, List, [], ◌∷◌, ◌++◌}
use k8s_vectordb_sync.Base.Int.{pos}
use k8s_vectordb_sync.Text.{Text, text, text_eq}
use k8s_vectordb_sync.KeyMap.{Visit, lookup, insert, delete}
use k8s_vectordb_sync.Runtime.Channel.{try_send, close}
use k8s_vectordb_sync.Runtime.Timers.{after_func, stop, find}
use k8s_vectordb_sync.Event
use k8s_vectordb_sync.Event.{EventType, ResourceEvent}
use k8s_vectordb_sync.Store.{apply_deletes, apply_upserts}
use k8s_vectordb_sync.Debounce.{
  PendingChange, emit_payload, close_payloads, cancel_pending, schedule, handle_event, mark_ready,
  collect_ready, flush_pending, check_flush, timer_callback, collect_all, flush_all_pending,
  count_ready, ready_count, new_debounce_buffer,
}
use k8s_vectordb_sync.Debounce.View.{apply_payloads}
use k8s_vectordb_sync.Debounce.System.{
  System, Case, Action, shut_down, select_case, start_run, fire_timer, step, run, never_full,
}
use k8s_vectordb_sync.Config.{Config}
use k8s_vectordb_sync.Runtime.Channel.{make}
use k8s_vectordb_sync.Runtime.Timers.{no_timers}
use mathlib.Core.List.Permᴰ
use k8s_vectordb_sync.Debounce.Refinement.{nothing, apply_events}
use k8s_vectordb_sync.Debounce.Consistency.{fresh}
use k8s_vectordb_sync.Base.Int.{pos}
use k8s_vectordb_sync.Debounce.{SyncPayload}
use k8s_vectordb_sync.Client.{RestClient, Exchange, status, Outside, do_post, is_client_error}
use k8s_vectordb_sync.Base.{ℕ, Bool, false, ap, ltb, subst, ◌≡◌, if◌then◌else◌}
use k8s_vectordb_sync.Sender.{run_sender_loop, accepted, sync_payload}
use k8s_vectordb_sync.Sender.Pipeline.{Reaches, AllReach}
use k8s_vectordb_sync.Sender.EndToEnd.{end_to_end}
use k8s_vectordb_sync.Text.{contains}
use k8s_vectordb_sync.Metadata.{Unstructured, extract, build_id, scope_of}
use k8s_vectordb_sync.Filter
use k8s_vectordb_sync.Filter.{should_watch, supports_list_watch}
use k8s_vectordb_sync.Watcher.{
  Gvr, gvr_eq, new_watcher, ApiResourceList, scan_resources, scan_lists, discover_resources, is_crd,
  emit, on_add, object,
}
use k8s_vectordb_sync.Watcher.Start
use k8s_vectordb_sync.Watcher.Start.{add_handlers, set_up, notify, Session, session, Step}
use k8s_vectordb_sync.Watcher.Expected.{AllPlain, all_expected}
use k8s_vectordb_sync.Watcher.Changes.{IsComparable}
use k8s_vectordb_sync.Watcher.{on_update, metadata_changed, maps_equal, all_found}
use k8s_vectordb_sync.Metadata.{ResourceInstance}
use k8s_vectordb_sync.Watcher.{Watcher, trigger_resync, resync_gvrs, resync_items}
use k8s_vectordb_sync.Sender.Repair.{or_else, latest, resync_repairs}

program : Unit {0}
unfolding lookup insert delete text_eq make no_timers try_send close after_func stop find
    emit_payload close_payloads cancel_pending schedule handle_event mark_ready count_ready
    ready_count collect_ready flush_pending check_flush timer_callback collect_all flush_all_pending
    new_debounce_buffer shut_down select_case start_run fire_timer step run never_full apply_upserts
    apply_deletes
program = tt

-- A loop that visits the map in the order in which the entries stand.
abbrev in_order : Visit PendingChange
in_order = record { order = λ m. m; order_perm = Permᴰ.refl }

abbrev pub settings : Config
settings = record {
  instances_endpoint = [];
  capabilities_endpoint = [];
  debounce_window = pos 10000000000;
  batch_flush_interval = pos 5000000000;
  batch_max_size = pos 2;
  resync_interval = pos 0;
  watch_resource_types = [];
  exclude_resource_types = [];
  api_bind_address = [];
  log_level = [];
}

abbrev pub client : RestClient
client = record {
  endpoint = text "http://localhost";
  timeout = pos 30000000000;
  max_retries = 2;
  initial_delay = 1000;
  max_delay = 1500;
}

abbrev marshal : SyncPayload → Option Text
marshal p = some (text "{}")

-- The first attempt fails, the next succeeds.
abbrev reply : ℕ → Text → Exchange
reply attempt body = if ltb attempt 1 then status 503 else status 200

abbrev pub recovers : ℕ → Outside
recovers n = record { reply = reply; cancelled_before = λ k. false; random = λ k. 0 }

abbrev pub never : ℕ → Bool
never n = false

Reaches-second : (p : SyncPayload) → Reaches ⦃i = sync_payload marshal⦄ client (recovers 0) p
unfolding do_post is_client_error
Reaches-second p = record {
  body = text "{}";
  marshalled = refl;
  attempt = 1;
  in_time = omega arith;
  before = (refl, refl, tt);
  not_cancelled = refl;
  succeeds = refl;
}

-- A system, if the run did not panic.
abbrev outcome : Option System → System
outcome none = fresh settings
outcome (some s) = s

watching : Unit {0}
unfolding text_eq gvr_eq make new_watcher Filter.to_set Filter.new should_watch scan_resources
    scan_lists discover_resources is_crd emit on_add on_update metadata_changed maps_equal all_found
    add_handlers set_up notify Start.step Start.run contains supports_list_watch
watching = tt

abbrev pub web : Unstructured
web = record {
  namespace = text "default";
  api_version = text "v1";
  kind = text "Pod";
  name = text "web";
  resource_version = text "1";
  labels = none;
  annotations = none;
  creation_timestamp = record { year = 2026; month = 2; day = 3; hour = 4; minute = 5; second = 6 };
}

abbrev pods : Gvr
pods = record { group = []; version = text "v1"; resource = text "pods" }

-- A version of the core group alone parses.
abbrev core_only : Text → Option (Text × Text)
core_only v = some ([], v)

abbrev core : List ApiResourceList
core =
    record {
      group_version = text "v1";
      api_resources = record { name = text "pods"; verbs = text "list" ∷ text "watch" ∷ [] } ∷ [];
    }
    ∷ []

abbrev labelled : Unstructured
labelled = record web {
  resource_version = text "2";
  labels = some ((text "app", text "shop") ∷ []);
}

-- A pod appears and gets a label, and the buffer takes both events.
abbrev appearing : List Step
appearing =
    Start.begin (λ g. true) core
    ∷ Start.call true pods (Start.added (object web))
    ∷ Start.call true pods (Start.updated (object web) (object labelled))
    ∷ Start.take
    ∷ Start.take
    ∷ []

none_twice : IsComparable web
none_twice = record { labels_distinct = tt; annotations_distinct = tt }

labelled-IsComparable : IsComparable labelled
unfolding lookup
labelled-IsComparable = record { labels_distinct = (refl, tt); annotations_distinct = tt }

appearing-AllPlain : AllPlain appearing
appearing-AllPlain = (tt, (tt, ((none_twice, labelled-IsComparable, tt, tt), (tt, (tt, tt)))))

abbrev in_session : Option Session → Session
in_session none = session (new_watcher settings)
in_session (some s) = s

abbrev watched : Session
watched = in_session (Start.run core_only appearing (session (new_watcher settings)))

abbrev taking : List Action
taking =
    Action.round (Case.event (record { type = Event.add; instance = extract web }))
    ∷ Action.round (Case.event (record { type = Event.update; instance = extract labelled }))
    ∷ Action.round (Case.done in_order)
    ∷ []

taking-AllReach :
    (t : System)
    → run taking (fresh settings) ≡ some t
    → AllReach ⦃i = sync_payload marshal⦄ client never recovers recovers 0
        (t.delivered ++ t.buffer.payloads.queue)
unfolding program extract build_id scope_of
taking-AllReach t h =
    subst
      (λ u.
        AllReach ⦃i = sync_payload marshal⦄ client never recovers recovers 0
          (u.delivered ++ u.buffer.payloads.queue))
      (ap outcome h) (Reaches-second _, tt)

end_to_end_example :
    (t : System) × (run taking (fresh settings) ≡ some t)
    × (apply_payloads
          (accepted (
            run_sender_loop ⦃i = sync_payload marshal⦄ client never recovers recovers 0
              (t.delivered ++ t.buffer.payloads.queue)))
          nothing
        ≡ apply_events (all_expected core_only appearing (session (new_watcher settings))) nothing)
unfolding program watching extract build_id scope_of
end_to_end_example =
    end_to_end core_only marshal client never recovers recovers settings appearing watched taking
      (fresh settings) refl refl appearing-AllPlain refl refl refl refl refl taking-AllReach

abbrev idle : Watcher
idle = record (new_watcher settings) { watched_gvrs = pods ∷ [] }

abbrev only_web : Gvr → Option (List Unstructured)
only_web gvr = some (web ∷ [])

abbrev relisted : Option (Watcher × ℕ) → Watcher
relisted none = idle
relisted (some (w, n)) = w

-- The receiver holds what no longer exists.
abbrev stale : Text → Option ResourceInstance
stale id = some (record (extract web) { name = text "gone" })

abbrev after_resync : Watcher
after_resync = relisted (trigger_resync (λ k. true) only_web idle)

resync_repairs_example :
    apply_events after_resync.events.queue stale (extract web).id
    ≡ or_else (latest (extract web).id (web ∷ [])) (stale (extract web).id)
unfolding watching trigger_resync resync_gvrs resync_items
resync_repairs_example =
    resync_repairs (λ k. true) only_web idle after_resync 1 stale (extract web).id refl refl
      (omega arith)
