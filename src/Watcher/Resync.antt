-- ===== src/Watcher/Resync.antt =====
-- The periodic resync of the informers: client-go calls `UpdateFunc` with an object that it holds, as
-- the old object and as the new one.
use k8s_vectordb_sync.Base.{◌≡◌, refl, Bool, true, Option, some, List, [], ◌∷◌, arith}
use k8s_vectordb_sync.Text.{Text, text_eq_refl}
use k8s_vectordb_sync.Metadata.{Unstructured}
use k8s_vectordb_sync.Watcher.{Gvr, Watcher, metadata_changed, object, on_update}
use k8s_vectordb_sync.Watcher.Start.{updated, notify, Session, Step, call, has_informer, step, run}

-- The callbacks of one resync.
abbrev pub resync_calls : Bool → Gvr → List Unstructured → List Step
resync_calls b gvr [] = []
resync_calls b gvr (u ∷ us) = call b gvr (updated (object u) (object u)) ∷ resync_calls b gvr us

same_object :
    (b : Bool) (u : Unstructured) (w : Watcher) → on_update b (object u) (object u) w ≡ some w
unfolding on_update metadata_changed
same_object b u w = ground (arith, text_eq_refl u.resource_version)

-- The periodic resync of an informer sends nothing, whatever objects it holds: the resource version
-- is that of the same object, so that no update counts as a change.
pub periodic_resync_silent :
    (parse : Text → Option (Text × Text)) (b : Bool) (gvr : Gvr) (us : List Unstructured)
    (s : Session)
    → has_informer gvr s.factory ≡ true
    → run parse (resync_calls b gvr us) s ≡ some s
unfolding run step notify
periodic_resync_silent parse b gvr [] s i = refl
periodic_resync_silent parse b gvr (u ∷ us) s i =
    rw (i, same_object b u s.watcher) (periodic_resync_silent parse b gvr us s i)
