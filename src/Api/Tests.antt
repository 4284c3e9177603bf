-- ===== src/Api/Tests.antt =====
-- The resync endpoint at a concrete cluster.
use k8s_vectordb_sync.Base.{if◌then◌else◌, ◌≡◌, true, false, Option, none, some, List, [], ◌∷◌}
use k8s_vectordb_sync.Base.Int.{pos}
use k8s_vectordb_sync.Text.{Text, text, text_eq}
use k8s_vectordb_sync.Text.Decimal.{decimal}
use k8s_vectordb_sync.Metadata.{Unstructured}
use k8s_vectordb_sync.Watcher.{Gvr, Watcher}
use k8s_vectordb_sync.Api.{Resyncer, resynced, handle_resync, watcher_resyncer, handle_resync_lem}

abbrev resource_of : Text → Gvr
resource_of name = record { group = []; version = text "v1"; resource = name }

abbrev pod : Unstructured
pod = record {
  namespace = text "default";
  api_version = text "v1";
  kind = text "Pod";
  name = text "web";
  resource_version = text "1";
  labels = none;
  annotations = none;
  creation_timestamp = record { year = 2026; month = 2; day = 3; hour = 4; minute = 5; second = 6 };
}

-- The channel of the events has no room.
abbrev watcher : Watcher
watcher = record {
  filter = record { watch_types = []; exclude_types = [] };
  resync_interval = pos 0;
  watch_crds = true;
  events = record { queue = []; capacity = 0; closed = false };
  crd_events = record { queue = []; capacity = 1; closed = false };
  watched_gvrs = resource_of (text "pods") ∷ resource_of (text "jobs") ∷ [];
  stopped = false;
}

-- Only the pods can be listed.
abbrev pods_only : Gvr → Option (List Unstructured)
pods_only gvr = if text_eq gvr.resource (text "pods") then some (pod ∷ []) else none

handle_resync_lem_example :
    (t : Watcher) × (handle_resync ⦃r = watcher_resyncer (λ k. true) pods_only⦄ watcher
      ≡ some (
        t,
        record {
          code = 200;
          response = record { status = text "ok"; resources = 1; message = resynced 1 };
        },
      ))
unfolding text_eq decimal
handle_resync_lem_example = handle_resync_lem (λ k. true) pods_only watcher

abbrev nothing_to_list : Resyncer Watcher
nothing_to_list = watcher_resyncer (λ k. true) (λ gvr. none)
