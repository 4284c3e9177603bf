-- ===== src/Startup/Tests.antt =====
-- `main` with a manager that keeps what is added to it.
use mathlib.Core.List.{append_assoc, append-nil}
use k8s_vectordb_sync.Base.{
  refl, Option, ◌≡◌, Bool, true, false, ◌&&◌, none, some, List, [], ◌∷◌, ◌++◌, if◌then◌else◌, map,
  arith, ap, sym, ◌∙◌, ◌>>=◌, zero, suc,
}
use k8s_vectordb_sync.Text.{text, text_eq}
use k8s_vectordb_sync.Config.{Env, load}
use k8s_vectordb_sync.Watcher.{Watcher}
use k8s_vectordb_sync.Api.{Count, Resyncer, watcher_resyncer}
use k8s_vectordb_sync.Startup.{
  default_flags, ManagerOptions, Runnable, start_of, Manager, Heap, Pointer,
}
use k8s_vectordb_sync.Startup.Wiring.{
  runnables, tasks, launch, with_objects, run_main_lem, objects, Keeps, run_main-tasks,
}

abbrev is_server : Runnable → Bool
is_server (Runnable.api_server s) = true
is_server _ = false

-- It refuses a server, if told so.
abbrev keeper : Bool → Manager (List Runnable)
keeper refuses = record {
  add = λ r rs. if refuses && is_server r then none else some (rs ++ r ∷ []);
  add_healthz = λ rs. some rs;
  add_readyz = λ rs. some rs;
  start = λ rs. some rs;
}

some_same : {xs ys : List Runnable} → some xs ≡ some ys → ys ≡ xs
some_same h = ground arith

keeper-Keeps : Keeps (keeper false) (λ rs. rs)
keeper-Keeps = record {
  adds = λ r s t h. some_same h;
  checks = λ s t h. some_same h;
  ready = λ s t h. some_same h;
  runs = λ s t h. some_same h;
}

-- Only the endpoint of the capabilities is set.
abbrev with_crds : Env
with_crds key = if text_eq key (text "CAPABILITIES_ENDPOINT") then text "http://c" else []

abbrev resync_at : Pointer → List Watcher → Option (List Watcher × Count)
resync_at p [] = none
resync_at zero (w ∷ ws) =
    (watcher_resyncer (λ k. true) (λ gvr. none)).trigger w >>= λ (w', n). some (w' ∷ ws, n)
resync_at (suc p) (w ∷ ws) = resync_at p ws >>= λ (ws', n). some (w ∷ ws', n)

abbrev resyncer : Pointer → Resyncer Heap
resyncer p = record {
  trigger = λ heap.
      resync_at p heap.watchers >>= λ (watchers, n). some (record heap { watchers = watchers }, n);
}

-- A manager with nothing added to it.
abbrev empty_manager : ManagerOptions → Option (List Runnable)
empty_manager options = some []

keeper-launch : (rs added : List Runnable) → launch (keeper false) rs added ≡ some (added ++ rs)
keeper-launch [] added = ap some (sym (append-nil added))
keeper-launch (r ∷ rs) added =
    keeper-launch rs (added ++ r ∷ []) ∙ ap some (append_assoc added (r ∷ []) rs)

run_main-tasks_example :
    (map start_of (runnables resyncer (load with_crds)) ≡ tasks resyncer (load with_crds))
    × (objects (load with_crds) ≡ objects (load with_crds))
run_main-tasks_example =
    run_main-tasks (keeper false) default_flags with_crds empty_manager resyncer (λ rs. rs) []
      (runnables resyncer (load with_crds)) (objects (load with_crds)) keeper-Keeps refl
      (run_main_lem (keeper false) default_flags with_crds empty_manager none none resyncer
        ∙ ap (λ r. r >>= with_objects (keeper false) (load with_crds))
            (keeper-launch (runnables resyncer (load with_crds)) []))
