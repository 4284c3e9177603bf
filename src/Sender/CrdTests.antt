-- ===== src/Sender/CrdTests.antt =====
-- The pipeline of the CRDs at a concrete run.
use k8s_vectordb_sync.Base.{
  ◌≡◌, refl, true, Option, none, some, List, [], ◌∷◌, ◌++◌, arith, ap, subst,
}
use mathlib.Core.List.Permᴰ
use k8s_vectordb_sync.Text.{Text, text, text_eq, contains, has_prefix}
use k8s_vectordb_sync.KeyMap.{Visit, lookup, insert, delete}
use k8s_vectordb_sync.Runtime.Channel.{make, try_send, close}
use k8s_vectordb_sync.Runtime.Timers.{no_timers, after_func, stop, find}
use k8s_vectordb_sync.Metadata.{Unstructured}
use k8s_vectordb_sync.Event
use k8s_vectordb_sync.Store.{apply_deletes, apply_upserts}
use k8s_vectordb_sync.Filter
use k8s_vectordb_sync.Filter.{should_watch, supports_list_watch}
use k8s_vectordb_sync.Client.{do_post, is_client_error}
use k8s_vectordb_sync.Config.{Config}
use k8s_vectordb_sync.Watcher.{
  crd_gvr, gvr_eq, new_watcher, scan_resources, scan_lists, discover_resources, is_crd, emit_crd,
  on_add, object,
}
use k8s_vectordb_sync.Watcher.Start
use k8s_vectordb_sync.Watcher.Start.{add_handlers, set_up, notify, Session, session, Step}
use k8s_vectordb_sync.Watcher.Flow.{all_due_crds}
use k8s_vectordb_sync.CrdDebounce.{
  CrdSyncPayload, PendingCrdChange, emit_payload, close_payloads, cancel_pending, schedule,
  handle_event, mark_ready, collect_ready, flush_pending, check_flush, timer_callback, collect_all,
  flush_all_pending, count_ready, ready_count, new_crd_debounce_buffer,
}
use k8s_vectordb_sync.CrdDebounce.View.{apply_payloads}
use k8s_vectordb_sync.CrdDebounce.System.{
  System, Case, Action, shut_down, select_case, start_run, fire_timer, step, run, never_full,
}
use k8s_vectordb_sync.CrdDebounce.Refinement.{nothing, apply_events}
use k8s_vectordb_sync.CrdDebounce.Consistency.{fresh}
use k8s_vectordb_sync.Sender.{run_sender_loop, accepted, crd_sync_payload}
use k8s_vectordb_sync.Sender.Pipeline.{Reaches, AllReach}
use k8s_vectordb_sync.Sender.CrdEndToEnd.{crd_end_to_end}
use k8s_vectordb_sync.Sender.Tests.{settings, client, recovers, never, web}

program : Unit {0}
unfolding lookup insert delete text_eq make no_timers try_send close after_func stop find
    emit_payload close_payloads cancel_pending schedule handle_event mark_ready count_ready
    ready_count collect_ready flush_pending check_flush timer_callback collect_all flush_all_pending
    new_crd_debounce_buffer shut_down select_case start_run fire_timer step run never_full
    apply_upserts apply_deletes gvr_eq new_watcher Filter.to_set Filter.new should_watch
    scan_resources scan_lists discover_resources is_crd emit_crd on_add add_handlers set_up notify
    Start.step Start.run contains supports_list_watch has_prefix
program = tt

-- A loop that visits the map in the order in which the entries stand.
abbrev in_order : Visit PendingCrdChange
in_order = record { order = λ m. m; order_perm = Permᴰ.refl }

abbrev with_crds : Config
with_crds = record settings { capabilities_endpoint = text "http://c" }

abbrev crd : Unstructured
crd = record web {
  api_version = text "apiextensions.k8s.io/v1";
  kind = text "CustomResourceDefinition";
  name = text "certificates";
}

abbrev nothing_parses : Text → Option (Text × Text)
nothing_parses v = none

-- A CRD is installed, and the buffer takes its event.
abbrev installing : List Step
installing =
    Start.begin (λ g. true) []
    ∷ Start.call true crd_gvr (Start.added (object crd))
    ∷ Start.take_crd
    ∷ []

abbrev in_session : Option Session → Session
in_session none = session (new_watcher with_crds)
in_session (some s) = s

abbrev watched : Session
watched = in_session (Start.run nothing_parses installing (session (new_watcher with_crds)))

abbrev taking : List Action
taking =
    Action.round (Case.event (record { type = Event.add; crd_name = text "certificates" }))
    ∷ Action.round (Case.done in_order)
    ∷ []

abbrev marshal : CrdSyncPayload → Option Text
marshal p = some (text "{}")

Reaches-second : (p : CrdSyncPayload) → Reaches ⦃i = crd_sync_payload marshal⦄ client (recovers 0) p
unfolding do_post is_client_error
Reaches-second p = record {
  body = text "{}";
  marshalled = refl;
  attempt = 1;
  in_time = omega arith;
  before = (refl, refl, tt);
  not_cancelled = refl;
  succeeds = refl;
}

-- A system, if the run did not panic.
abbrev outcome : Option System → System
outcome none = fresh with_crds
outcome (some s) = s

taking-AllReach :
    (t : System)
    → run taking (fresh with_crds) ≡ some t
    → AllReach ⦃i = crd_sync_payload marshal⦄ client never recovers recovers 0
        (t.delivered ++ t.buffer.payloads.queue)
unfolding program
taking-AllReach t h =
    subst
      (λ u.
        AllReach ⦃i = crd_sync_payload marshal⦄ client never recovers recovers 0
          (u.delivered ++ u.buffer.payloads.queue))
      (ap outcome h) (Reaches-second _, tt)

crd_end_to_end_example :
    (t : System) × (run taking (fresh with_crds) ≡ some t)
    × (apply_payloads
          (accepted (
            run_sender_loop ⦃i = crd_sync_payload marshal⦄ client never recovers recovers 0
              (t.delivered ++ t.buffer.payloads.queue)))
          nothing
        ≡ apply_events
            (all_due_crds nothing_parses installing (session (new_watcher with_crds)))
            nothing)
unfolding program
crd_end_to_end_example =
    crd_end_to_end nothing_parses marshal client never recovers recovers with_crds installing
      watched taking (fresh with_crds) refl refl refl refl refl refl refl taking-AllReach
