-- ===== src/Watcher/Due.antt =====
-- What the callbacks and the resyncs of the watcher are to send.
use k8s_vectordb_sync.Base.{Option, none, some, List, [], ◌∷◌, ◌++◌, if◌then◌else◌}
use k8s_vectordb_sync.Metadata.{Unstructured, extract}
use k8s_vectordb_sync.Event.{EventType, add, update, delete, ResourceEvent, CrdEvent}
use k8s_vectordb_sync.Watcher.{Gvr, is_crd, metadata_changed, object, tombstone}
use k8s_vectordb_sync.Watcher.Start.{Callback, added, updated, deleted}

-- What is to be sent about one object.
abbrev pub event_of : EventType → Unstructured → List ResourceEvent
event_of type u = if is_crd u then [] else record { type = type; instance = extract u } ∷ []

abbrev pub crd_of : EventType → Unstructured → List CrdEvent
crd_of type u = if is_crd u then record { type = type; crd_name = u.name } ∷ [] else []

-- What is to be sent about an update.
abbrev pub update_of : Unstructured → Unstructured → List ResourceEvent
update_of old_u new_u =
    if is_crd new_u
    then []
    else (if metadata_changed old_u new_u
        then record { type = update; instance = extract new_u } ∷ []
        else [])

abbrev pub callback_events : Callback → List ResourceEvent
callback_events (added (object u)) = event_of add u
callback_events (updated (object old_u) (object new_u)) = update_of old_u new_u
callback_events (deleted (object u)) = event_of delete u
callback_events (deleted (tombstone u)) = event_of delete u
callback_events _ = []

abbrev pub callback_crds : Callback → List CrdEvent
callback_crds (added (object u)) = crd_of add u
callback_crds (deleted (object u)) = crd_of delete u
callback_crds (deleted (tombstone u)) = crd_of delete u
callback_crds _ = []

-- What a resync is to send: an event for each object that could be listed.
abbrev pub items_events : List Unstructured → List ResourceEvent
items_events [] = []
items_events (u ∷ us) = event_of add u ++ items_events us

abbrev pub items_crds : List Unstructured → List CrdEvent
items_crds [] = []
items_crds (u ∷ us) = crd_of add u ++ items_crds us

module _ (list : Gvr → Option (List Unstructured)) where
  abbrev pub items_of : Gvr → List Unstructured
  items_of gvr = elim (list gvr) [ none ↦ [] | some items ↦ items ]

  abbrev pub resync_events : List Gvr → List ResourceEvent
  resync_events [] = []
  resync_events (g ∷ gs) = items_events (items_of g) ++ resync_events gs

  abbrev pub resync_crds : List Gvr → List CrdEvent
  resync_crds [] = []
  resync_crds (g ∷ gs) = items_crds (items_of g) ++ resync_crds gs
