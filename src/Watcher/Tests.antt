-- ===== src/Watcher/Tests.antt =====
-- The watcher at concrete objects.
use k8s_vectordb_sync.Base.{
  ◌≡◌, ◌↔◌, ◌⊎◌, refl, true, false, not, Option, none, some, List, [], ◌∷◌, ◌++◌, if◌then◌else◌,
}
use k8s_vectordb_sync.Base.Int.{pos}
use k8s_vectordb_sync.Text.{Text, text, text_eq}
use k8s_vectordb_sync.KeyMap.{KeyMap, lookup}
use k8s_vectordb_sync.Metadata.{Unstructured}
use k8s_vectordb_sync.Watcher.{
  Gvr, crd_gvr, Watcher, ApiResourceList, discover_resources, is_crd, maps_equal, metadata_changed,
  emit_crd, object, tombstone, on_add, on_update, on_delete, trigger_resync,
}
use k8s_vectordb_sync.Watcher.Changes.{SameMap, metadata_changed_iff, metadata_changed_misses}
use k8s_vectordb_sync.Watcher.Discovery.{selected_all, has_crd, discover_resources_lem}
use k8s_vectordb_sync.Base.{length, keep}
use mathlib.Core.List.{Sublistᴰ}
use k8s_vectordb_sync.Config.{Config}
use k8s_vectordb_sync.Text.{has_prefix, contains}
use k8s_vectordb_sync.Runtime.Channel.{make}
use k8s_vectordb_sync.Filter
use k8s_vectordb_sync.Filter.{to_set, should_watch, supports_list_watch}
use k8s_vectordb_sync.Watcher.{
  gvr_eq, new_watcher, scan_resources, scan_lists, all_found, emit, resync_items, resync_gvrs, stop,
}
use k8s_vectordb_sync.Watcher.Start.{
  add_handlers, set_up, added, updated, deleted, notify, Session, session, Step, begin, call,
  resync, cancel, take, take_crd, step, run,
}
use k8s_vectordb_sync.Watcher.Sending.{deletion}
use k8s_vectordb_sync.KeyMap.{insert}
use k8s_vectordb_sync.Text.{to_lower, trim_space, is_space, lower, trim_left, trim_right}
use k8s_vectordb_sync.Base.{ℕ, zero, suc, arith}
use k8s_vectordb_sync.Watcher.Unread.{unread_crds_block}
use k8s_vectordb_sync.Watcher.Resync.{resync_calls, periodic_resync_silent}
use k8s_vectordb_sync.Watcher.Start.{relist}
use k8s_vectordb_sync.Watcher.Passing.{passed, passed_crds}
use k8s_vectordb_sync.Watcher.Flow.{
  all_due, all_due_crds, run-in_order, run_complete, run-deletions,
}

abbrev label : Text → Text → KeyMap Text
label k v = (k, v) ∷ []

abbrev pod : Text → KeyMap Text → Unstructured
pod version labels = record {
  namespace = text "default";
  api_version = text "v1";
  kind = text "Pod";
  name = text "web";
  resource_version = version;
  labels = some labels;
  annotations = none;
  creation_timestamp = record { year = 2026; month = 2; day = 3; hour = 4; minute = 5; second = 6 };
}

abbrev pods : Gvr
pods = record { group = []; version = text "v1"; resource = text "pods" }

abbrev watcher : Watcher
watcher = record {
  filter = record { watch_types = []; exclude_types = [] };
  resync_interval = pos 0;
  watch_crds = true;
  events = record { queue = []; capacity = 3; closed = false };
  crd_events = record { queue = []; capacity = 1; closed = false };
  watched_gvrs = pods ∷ [];
  stopped = false;
}

abbrev old_pod : Unstructured
old_pod = pod (text "1") (label (text "app") (text "a"))

abbrev new_pod : Unstructured
new_pod = pod (text "2") (label (text "app") (text "b"))

metadata_changed_iff_example : (metadata_changed old_pod new_pod ≡ false) ↔ (
    (text "1" ≡ text "2")
    ⊎ (SameMap (label (text "app") (text "a")) (label (text "app") (text "b")) × SameMap [] []))
unfolding lookup
metadata_changed_iff_example =
    metadata_changed_iff old_pod new_pod
      (record { labels_distinct = (refl, tt); annotations_distinct = tt })
      (record { labels_distinct = (refl, tt); annotations_distinct = tt }) (refl, tt) tt

metadata_changed_misses_example :
    (metadata_changed
        (pod (text "1") (label (text "old") []))
        (pod (text "2") (label (text "new") (text "x")))
      ≡ false)
    × ¬ SameMap (label (text "old") []) (label (text "new") (text "x"))
unfolding text_eq lookup
metadata_changed_misses_example =
    metadata_changed_misses (pod (text "1") (label (text "old") []))
      (pod (text "2") (label (text "new") (text "x"))) (text "old") (text "new") (text "x") []
      (refl, tt) (refl, tt) refl refl refl tt refl

-- A version of the core group alone parses.
abbrev core_only : Text → Option (Text × Text)
core_only v = some ([], v)

abbrev core : List ApiResourceList
core =
    record {
      group_version = text "v1";
      api_resources =
          record { name = text "pods"; verbs = text "list" ∷ text "watch" ∷ [] }
          ∷ record { name = text "pods/status"; verbs = text "list" ∷ text "watch" ∷ [] }
          ∷ [];
    }
    ∷ []

discover_resources_lem_example :
    discover_resources core_only watcher core
    ≡ selected_all core_only watcher core
      ++ (if not (has_crd (selected_all core_only watcher core)) then crd_gvr ∷ [] else [])
discover_resources_lem_example = discover_resources_lem core_only watcher core

abbrev two_pods : Gvr → Option (List Unstructured)
two_pods gvr = some (old_pod ∷ new_pod ∷ [])

program : Unit {0}
unfolding lookup text_eq gvr_eq make new_watcher to_set should_watch scan_resources scan_lists
    discover_resources is_crd all_found maps_equal metadata_changed emit emit_crd on_add on_update
    on_delete resync_items resync_gvrs trigger_resync stop add_handlers set_up notify step run
    has_prefix contains supports_list_watch Filter.new insert to_lower trim_space is_space lower
    trim_left trim_right
program = tt

abbrev settings : Config
settings = record {
  instances_endpoint = [];
  capabilities_endpoint = text "http://capabilities";
  debounce_window = pos 10000000000;
  batch_flush_interval = pos 5000000000;
  batch_max_size = pos 2;
  resync_interval = pos 0;
  watch_resource_types = [];
  exclude_resource_types = [];
  api_bind_address = [];
  log_level = [];
}

abbrev crd : Unstructured
crd = record old_pod {
  api_version = text "apiextensions.k8s.io/v1";
  kind = text "CustomResourceDefinition";
  name = text "certificates";
}

-- A pod comes, a CRD comes and goes, the pod changes, and the server resyncs.
abbrev morning : List Step
morning =
    begin (λ g. true) core
    ∷ call true pods (added (object old_pod))
    ∷ call true crd_gvr (added (object crd))
    ∷ take
    ∷ call true crd_gvr (deleted (tombstone crd))
    ∷ call true pods (updated (object old_pod) (object new_pod))
    ∷ take_crd
    ∷ resync (λ k. true) two_pods
    ∷ relist true new_pod
    ∷ cancel
    ∷ []

-- A session, if no step blocked.
abbrev outcome : Option Session → Session
outcome none = session watcher
outcome (some s) = s

abbrev noon : Session
noon = outcome (run core_only morning (session (new_watcher settings)))

abbrev at_start : Session
at_start = session (new_watcher settings)

taken_at_noon : length noon.taken ≡ 1
unfolding program
taken_at_noon = refl

run-in_order_example :
    Sublistᴰ (passed noon) (all_due core_only morning at_start)
    × Sublistᴰ (passed_crds noon) (all_due_crds core_only morning at_start)
unfolding program
run-in_order_example = run-in_order core_only settings morning noon refl

run_complete_example :
    (passed noon ≡ all_due core_only morning at_start)
    × (passed_crds noon ≡ all_due_crds core_only morning at_start)
unfolding program
run_complete_example = run_complete core_only settings morning noon refl refl

run-deletions_example :
    keep deletion (passed_crds noon) ≡ keep deletion (all_due_crds core_only morning at_start)
unfolding program
run-deletions_example = run-deletions core_only settings morning noon refl refl

-- The same CRD is added many times.
abbrev crowd : ℕ → List Step
crowd zero = []
crowd (suc n) = call true crd_gvr (added (object crd)) ∷ crowd n

-- No endpoint for the capabilities, but the CRDs are on the list of the resources to watch.
abbrev quiet : Config
quiet = record settings {
  capabilities_endpoint = [];
  watch_resource_types = text "customresourcedefinitions" ∷ [];
}

abbrev extensions_only : Text → Option (Text × Text)
extensions_only v = some (text "apiextensions.k8s.io", text "v1")

abbrev extensions : List ApiResourceList
extensions =
    record {
      group_version = text "apiextensions.k8s.io/v1";
      api_resources =
          record {
            name = text "customresourcedefinitions";
            verbs = text "list" ∷ text "watch" ∷ [];
          }
          ∷ [];
    }
    ∷ []

abbrev crowded : List Step
crowded = begin (λ g. true) extensions ∷ crowd 1000

abbrev full_session : Session
full_session = outcome (run extensions_only crowded (session (new_watcher quiet)))

unread_crds_block_example :
    step extensions_only (call true crd_gvr (deleted (object crd))) full_session ≡ none
unfolding program
unread_crds_block_example =
    unread_crds_block extensions_only quiet crowded full_session true crd_gvr crd refl refl
      (omega arith) refl refl

periodic_resync_silent_example :
    run core_only (resync_calls true pods (old_pod ∷ new_pod ∷ [])) noon ≡ some noon
unfolding program
periodic_resync_silent_example =
    periodic_resync_silent core_only true pods (old_pod ∷ new_pod ∷ []) noon refl
