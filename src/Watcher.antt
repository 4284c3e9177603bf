-- ===== src/Watcher.antt =====
-- internal/controller/watcher.go, but for the clients of Kubernetes: what discovery and the lists
-- return, and the calls of the informers, are arguments.
mod Tests
pub mod Changes
pub mod Discovery
pub mod Emission
pub mod Start
pub mod Due
pub mod Sending
pub mod Adds
pub mod Passing
pub mod Flow
pub mod Expected
pub mod Unread
pub mod Resync
use k8s_vectordb_sync.Base.{
  ℕ, ◌+◌, ◌≡◌, Bool, true, false, not, ◌&&◌, ◌||◌, Option, none, some, List, [], ◌∷◌, ◌++◌,
  if◌then◌else◌, is_empty, length, ltb, ◌==◌, ◌>>=◌,
}
use k8s_vectordb_sync.Base.Int.{ℤ}
use k8s_vectordb_sync.Text.{Text, text, text_eq, has_prefix, contains, cut}
use k8s_vectordb_sync.KeyMap.{KeyMap, lookup}
use k8s_vectordb_sync.Metadata.{Unstructured, entries, extract}
use k8s_vectordb_sync.Runtime.Channel.{Channel, make, has_room, push}
use k8s_vectordb_sync.Config.{Config}
use k8s_vectordb_sync.Filter
use k8s_vectordb_sync.Filter.{ResourceFilter, ApiResource, should_watch}
use k8s_vectordb_sync.Event.{EventType, add, update, delete, ResourceEvent, CrdEvent}

-- `schema.GroupVersionResource`
pub record Gvr : Type 0 where
  pub group : Text
  pub version : Text
  pub resource : Text

unfoldable pub gvr_eq : Gvr → Gvr → Bool
gvr_eq a b = text_eq a.group b.group && text_eq a.version b.version && text_eq a.resource b.resource

abbrev pub crd_gvr : Gvr
crd_gvr = record {
  group = text "apiextensions.k8s.io";
  version = text "v1";
  resource = text "customresourcedefinitions";
}

pub record Watcher : Type 0 where
  pub filter : ResourceFilter
  pub resync_interval : ℤ
  pub watch_crds : Bool
  pub events : Channel ResourceEvent
  pub crd_events : Channel CrdEvent
  pub watched_gvrs : List Gvr
  pub stopped : Bool

-- `NewWatcher`, behind the two clients that it creates.
unfoldable pub new_watcher : Config → Watcher
new_watcher cfg = record {
  filter = Filter.new cfg.watch_resource_types cfg.exclude_resource_types;
  resync_interval = cfg.resync_interval;
  watch_crds = not (text_eq cfg.capabilities_endpoint []);
  events = make 10000;
  crd_events = make 1000;
  watched_gvrs = [];
  stopped = false;
}

-- `Stop`: the channel `stopCh` is closed once.
unfoldable pub stop : Watcher → Watcher
stop w = if w.stopped then w else record w { stopped = true }

-- `metav1.APIResourceList`: the resources of one group and version.
pub record ApiResourceList : Type 0 where
  pub group_version : Text
  pub api_resources : List ApiResource

module _ (parse_group_version : Text → Option (Text × Text)) where
  -- The inner loop of `discoverResources`: the resources found, and whether the CRDs are among them.
  unfoldable pub scan_resources :
      Watcher → Text → Text → List ApiResource → List Gvr × Bool → List Gvr × Bool
  scan_resources w group version [] found = found
  scan_resources w group version (resource ∷ resources) (gvrs, has_crds) =
      let gvr : Gvr = record { group = group; version = version; resource = resource.name } in
      let skipped = contains b'/' resource.name || not (should_watch w.filter resource) in
      scan_resources w group version resources (
        if skipped
        then (gvrs, has_crds)
        else (gvrs ++ gvr ∷ [], if gvr_eq gvr crd_gvr then true else has_crds))

  scan_parsed :
      Watcher → Option (Text × Text) → List ApiResource → List Gvr × Bool → List Gvr × Bool
  scan_parsed w none resources found = found
  scan_parsed w (some (group, version)) resources found =
      scan_resources w group version resources found

  -- The outer loop; a list whose version does not parse is skipped.
  unfoldable pub scan_lists : Watcher → List ApiResourceList → List Gvr × Bool → List Gvr × Bool
  unfolding scan_parsed scan_resources
  scan_lists w [] found = found
  scan_lists w (list ∷ lists) found =
      scan_lists w lists
        (scan_parsed w (parse_group_version list.group_version) list.api_resources found)

  -- The lists are those that `ServerGroupsAndResources` returns, also beside an error.
  unfoldable pub discover_resources : Watcher → List ApiResourceList → List Gvr
  unfolding scan_lists
  discover_resources w lists =
      let (gvrs, has_crds) = scan_lists w lists ([], false) in
      if w.watch_crds && not has_crds then gvrs ++ crd_gvr ∷ [] else gvrs

unfoldable pub is_crd : Unstructured → Bool
is_crd obj =
    text_eq obj.kind (text "CustomResourceDefinition")
    && has_prefix obj.api_version (text "apiextensions.k8s.io/")

-- `b[k]`: a missing key reads as the empty text.
abbrev pub index : Text → KeyMap Text → Text
index k m = elim (lookup k m) [ none ↦ [] | some v ↦ v ]

-- The loop of `mapsEqual`; the entries stand in the order in which it visits them.
unfoldable pub all_found : KeyMap Text → KeyMap Text → Bool
all_found [] b = true
all_found ((k, v) ∷ a) b = if not (text_eq (index k b) v) then false else all_found a b

unfoldable pub maps_equal : KeyMap Text → KeyMap Text → Bool
unfolding all_found
maps_equal a b = if not (length a == length b) then false else all_found a b

unfoldable pub metadata_changed : Unstructured → Unstructured → Bool
metadata_changed old_obj new_obj =
    if text_eq old_obj.resource_version new_obj.resource_version
    then false
    else (if not (maps_equal (entries old_obj.labels) (entries new_obj.labels))
        then true
        else not (maps_equal (entries old_obj.annotations) (entries new_obj.annotations)))

-- A `select` that could take a closed `stopCh` or a send takes either; `stop_first` is its choice.
unfoldable pub emit : Bool → ResourceEvent → Watcher → Watcher
emit stop_first event w =
    if w.stopped && (stop_first || not (has_room w.events))
    then w
    else (if has_room w.events then record w { events = push event w.events } else w)

abbrev is_delete : EventType → Bool
is_delete delete = true
is_delete _ = false

abbrev send_crd : CrdEvent → Watcher → Watcher
send_crd event w = record w { crd_events = push event w.crd_events }

-- `none`: the call blocks, which only a delete does.
unfoldable pub emit_crd : Bool → CrdEvent → Watcher → Option Watcher
emit_crd stop_first event w =
    if w.stopped && (stop_first || not (has_room w.crd_events))
    then some w
    else (if has_room w.crd_events
        then some (send_crd event w)
        else (if is_delete event.type then none else some w))

-- An argument of an informer's callback: an object, or anything else. A tombstone holds either.
pub data Notified : Type 0 where
  object : Unstructured → Notified
  tombstone : Unstructured → Notified
  other other_tombstone : Notified

unfoldable pub emit_added : Bool → EventType → Unstructured → Watcher → Option Watcher
unfolding emit emit_crd
emit_added stop_first type u w =
    if is_crd u
    then emit_crd stop_first (record { type = type; crd_name = u.name }) w
    else some (emit stop_first (record { type = type; instance = extract u }) w)

-- `AddFunc`
unfoldable pub on_add : Bool → Notified → Watcher → Option Watcher
unfolding emit_added
on_add stop_first (object u) w = emit_added stop_first add u w
on_add stop_first _ w = some w

-- `UpdateFunc`
unfoldable pub on_update : Bool → Notified → Notified → Watcher → Option Watcher
unfolding emit
on_update stop_first (object old_u) (object new_u) w =
    if is_crd new_u
    then some w
    else (if not (metadata_changed old_u new_u)
        then some w
        else some (emit stop_first (record { type = update; instance = extract new_u }) w))
on_update stop_first _ _ w = some w

-- `DeleteFunc`
unfoldable pub on_delete : Bool → Notified → Watcher → Option Watcher
unfolding emit_added
on_delete stop_first (object u) w = emit_added stop_first delete u w
on_delete stop_first (tombstone u) w = emit_added stop_first delete u w
on_delete stop_first _ w = some w

-- The inner loop of `TriggerResync`, with the number of objects so far and the choices of the
-- `select` for each.
unfoldable pub resync_items : (ℕ → Bool) → List Unstructured → Watcher × ℕ → Option (Watcher × ℕ)
unfolding emit_added
resync_items choices [] (w, total) = some (w, total)
resync_items choices (obj ∷ items) (w, total) =
    emit_added (choices total) add obj w >>= λ w'. resync_items choices items (w', total + 1)

-- The outer loop: `list gvr` is what the dynamic client lists, `none` an error.
unfoldable pub resync_gvrs :
    (ℕ → Bool) → (Gvr → Option (List Unstructured)) → List Gvr → Watcher × ℕ → Option (Watcher × ℕ)
resync_gvrs choices list [] state = some state
resync_gvrs choices list (gvr ∷ gvrs) state = elim (list gvr) [
  | none ↦ resync_gvrs choices list gvrs state
  | some items ↦ resync_items choices items state >>= resync_gvrs choices list gvrs
]

-- The count that it returns; the error is always nil.
unfoldable pub trigger_resync :
    (ℕ → Bool) → (Gvr → Option (List Unstructured)) → Watcher → Option (Watcher × ℕ)
trigger_resync choices list w = resync_gvrs choices list w.watched_gvrs (w, 0)

unfoldable pub watched_gvr_count : Watcher → ℕ
watched_gvr_count w = length w.watched_gvrs
