-- ===== src/Watcher/Start.antt =====
-- internal/controller/watcher.go: `Start`, and the watcher while it runs, one step at a time.
use k8s_vectordb_sync.Base.{
  ℕ, Bool, true, false, Option, none, some, List, [], ◌∷◌, ◌++◌, if◌then◌else◌, ◌>>=◌,
}
use k8s_vectordb_sync.Base.Int.{ℤ}
use k8s_vectordb_sync.Text.{Text}
use k8s_vectordb_sync.Metadata.{Unstructured}
use k8s_vectordb_sync.Event.{add, ResourceEvent, CrdEvent}
use k8s_vectordb_sync.Watcher.{
  Gvr, gvr_eq, Watcher, ApiResourceList, discover_resources, stop, Notified, on_add, on_update,
  on_delete, emit_added, trigger_resync,
}

-- The factory of the informers: its resync interval, the resources whose informers have got a
-- handler, and whether it has been started.
pub record Factory : Type 0 where
  pub resync : ℤ
  pub handlers : List Gvr
  pub started : Bool

-- The loop of `Start`; `adds gvr` tells whether `AddEventHandler` succeeds. If not, the resource is
-- passed over.
unfoldable pub add_handlers : (Gvr → Bool) → List Gvr → Factory → Factory
add_handlers adds [] f = f
add_handlers adds (gvr ∷ gvrs) f =
    add_handlers adds gvrs (if adds gvr then record f { handlers = f.handlers ++ gvr ∷ [] } else f)

-- `Start` up to the start of the informers.
unfoldable pub set_up :
    (Text → Option (Text × Text))
    → (Gvr → Bool)
    → List ApiResourceList
    → Watcher
    → Watcher × Factory
set_up parse adds lists w =
    let discovered = discover_resources parse w lists in
    let factory : Factory = record { resync = w.resync_interval; handlers = []; started = false } in
    (
      record w { watched_gvrs = discovered },
      record (add_handlers adds discovered factory) { started = true },
    )

-- The callbacks of an informer, each with the choice of the `select` in it.
pub data Callback : Type 0 where
  added : Notified → Callback
  updated : Notified → Notified → Callback
  deleted : Notified → Callback

unfoldable pub notify : Bool → Callback → Watcher → Option Watcher
notify b (added obj) w = on_add b obj w
notify b (updated old_obj new_obj) w = on_update b old_obj new_obj w
notify b (deleted obj) w = on_delete b obj w

-- The watcher while its `Start` runs: the informers once they are there, whether the context is
-- cancelled, whether `Start` has returned, and what the consumers have taken from the channels.
pub record Session : Type 0 where
  pub watcher : Watcher
  pub factory : Option Factory
  pub cancelled : Bool
  pub returned : Bool
  pub taken : List ResourceEvent
  pub taken_crds : List CrdEvent

abbrev pub session : Watcher → Session
session w = record {
  watcher = w;
  factory = none;
  cancelled = false;
  returned = false;
  taken = [];
  taken_crds = [];
}

pub data Step : Type 0 where
  -- `Start` discovers the resources and starts the informers.
  begin : (Gvr → Bool) → List ApiResourceList → Step
  -- The informer of a resource calls back.
  call : Bool → Gvr → Callback → Step
  -- The server triggers a resync, and it runs to its end.
  resync : (ℕ → Bool) → (Gvr → Option (List Unstructured)) → Step
  -- A resync that runs beside the informers sends one of the objects that it has listed.
  relist : Bool → Unstructured → Step
  -- The context is cancelled; the goroutine of `Start` stops the watcher; `Start` returns.
  cancel halt finish : Step
  -- The debounce buffers receive.
  take take_crd : Step

abbrev listens : Gvr → List Gvr → Bool
listens gvr [] = false
listens gvr (g ∷ gs) = if gvr_eq gvr g then true else listens gvr gs

abbrev pub has_informer : Gvr → Option Factory → Bool
has_informer gvr none = false
has_informer gvr (some f) = if f.started then listens gvr f.handlers else false

abbrev pub first_event : List ResourceEvent → Session → Option Session
first_event [] s = none
first_event (e ∷ es) s = some (record s {
  watcher = record s.watcher { events = record s.watcher.events { queue = es } };
  taken = s.taken ++ e ∷ [];
})

abbrev pub first_crd : List CrdEvent → Session → Option Session
first_crd [] s = none
first_crd (e ∷ es) s = some (record s {
  watcher = record s.watcher { crd_events = record s.watcher.crd_events { queue = es } };
  taken_crds = s.taken_crds ++ e ∷ [];
})

abbrev pub has_begun : Option Factory → Bool
has_begun none = false
has_begun (some f) = true

module _ (parse : Text → Option (Text × Text)) where
  unfoldable pub begin_once :
      (Gvr → Bool) → List ApiResourceList → Option Factory → Session → Option Session
  unfolding set_up
  begin_once adds lists (some f) s = none
  begin_once adds lists none s =
      let (w, f) = set_up parse adds lists s.watcher in
      some (record s { watcher = w; factory = some f })

  -- `none`: the step blocks, or cannot be taken yet. `Start` waits for the caches and then for the
  -- end of the context; the first wait also ends when the watcher is stopped.
  unfoldable pub step : Step → Session → Option Session
  unfolding begin_once
  step (begin adds lists) s = begin_once adds lists s.factory s
  step (call b gvr c) s =
      if has_informer gvr s.factory
      then (notify b c s.watcher >>= λ w. some (record s { watcher = w }))
      else none
  step (resync choices list) s =
      trigger_resync choices list s.watcher >>= λ (w, total). some (record s { watcher = w })
  step (relist b obj) s = emit_added b add obj s.watcher >>= λ w. some (record s { watcher = w })
  step cancel s = some (record s { cancelled = true })
  step halt s = if s.cancelled then some (record s { watcher = stop s.watcher }) else none
  step finish s =
      if s.cancelled
      then (if has_begun s.factory then some (record s { returned = true }) else none)
      else none
  step take s = first_event s.watcher.events.queue s
  step take_crd s = first_crd s.watcher.crd_events.queue s

  unfoldable pub run : List Step → Session → Option Session
  unfolding step
  run [] s = some s
  run (a ∷ steps) s = step a s >>= run steps
