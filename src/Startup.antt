-- ===== src/Startup.antt =====
-- cmd/main.go: what `main` builds from the configuration and registers with the manager. The manager
-- of controller-runtime is an argument.
pub mod Wiring
mod Tests
use k8s_vectordb_sync.Base.{
  ℕ, length, false, Bool, Option, none, some, List, [], ◌∷◌, ◌++◌, if◌then◌else◌, not,
}
use k8s_vectordb_sync.Text.{Text, text, text_eq}
use k8s_vectordb_sync.Config.{Config, Env, load}
use k8s_vectordb_sync.Watcher.{Watcher, new_watcher}
use k8s_vectordb_sync.Debounce.{DebounceBuffer, new_debounce_buffer}
use k8s_vectordb_sync.CrdDebounce.{CrdDebounceBuffer, new_crd_debounce_buffer}
use k8s_vectordb_sync.Client
use k8s_vectordb_sync.Client.{RestClient}
use k8s_vectordb_sync.Api.{Resyncer, Server, new_server}

-- The objects that `main` creates: a pointer is the place in the list of its type.
pub record Heap : Type 0 where
  pub watchers : List Watcher
  pub buffers : List DebounceBuffer
  pub crd_buffers : List CrdDebounceBuffer
  pub clients : List RestClient

abbrev pub Pointer : Type 0
Pointer = ℕ

abbrev pub empty_heap : Heap
empty_heap = record { watchers = []; buffers = []; crd_buffers = []; clients = [] }

abbrev alloc_watcher : Watcher → Heap → Heap × Pointer
alloc_watcher w heap = (record heap { watchers = heap.watchers ++ w ∷ [] }, length heap.watchers)

abbrev alloc_buffer : DebounceBuffer → Heap → Heap × Pointer
alloc_buffer d heap = (record heap { buffers = heap.buffers ++ d ∷ [] }, length heap.buffers)

abbrev alloc_crd_buffer : CrdDebounceBuffer → Heap → Heap × Pointer
alloc_crd_buffer d heap =
    (record heap { crd_buffers = heap.crd_buffers ++ d ∷ [] }, length heap.crd_buffers)

abbrev alloc_client : RestClient → Heap → Heap × Pointer
alloc_client c heap = (record heap { clients = heap.clients ++ c ∷ [] }, length heap.clients)

-- What `main` adds to the manager, with the pointers that it holds.
pub data Runnable : Type 0 where
  watcher_runnable : Pointer → Runnable
  debouncer_runnable : Pointer → Pointer → Runnable
  sender_runnable : Pointer → Pointer → Runnable
  crd_debouncer_runnable : Pointer → Pointer → Runnable
  crd_sender_runnable : Pointer → Pointer → Runnable
  api_server : Server Heap → Runnable

-- A channel, by the object that made it and keeps it in its field `Events`, `CrdEvents` or
-- `Payloads`.
pub data ChannelOf : Type 0 where
  events_of crd_events_of payloads_of crd_payloads_of : Pointer → ChannelOf

-- The call that the `Start` of a runnable makes.
pub data Task : Type 0 where
  watch : Pointer → Task
  run_buffer : Pointer → ChannelOf → Task
  run_crd_buffer : Pointer → ChannelOf → Task
  run_sender_loop : Pointer → ChannelOf → Task
  serve : Server Heap → Task

unfoldable pub start_of : Runnable → Task
start_of (watcher_runnable w) = watch w
start_of (debouncer_runnable d w) = run_buffer d (events_of w)
start_of (sender_runnable c d) = run_sender_loop c (payloads_of d)
start_of (crd_debouncer_runnable d w) = run_crd_buffer d (crd_events_of w)
start_of (crd_sender_runnable c d) = run_sender_loop c (crd_payloads_of d)
start_of (api_server s) = serve s

-- The manager, on a state of its own; `none` is an error.
pub record Manager {ℓ} (S : Type ℓ) : Type ℓ where
  pub add : Runnable → S → Option S
  pub add_healthz : S → Option S
  pub add_readyz : S → Option S
  pub start : S → Option S

-- The flags, once they are parsed, and their defaults.
pub record Flags : Type 0 where
  pub metrics_addr : Text
  pub probe_addr : Text
  pub enable_leader_election : Bool
  pub metrics_cert_path : Text

abbrev pub default_flags : Flags
default_flags = record {
  metrics_addr = text "0";
  probe_addr = text ":8081";
  enable_leader_election = false;
  metrics_cert_path = [];
}

-- The fields of `ctrl.Options` that `main` sets from the flags.
pub record ManagerOptions : Type 0 where
  pub bind_address : Text
  pub secure_serving : Bool
  pub cert_dir : Text
  pub health_probe_bind_address : Text
  pub leader_election : Bool
  pub leader_election_id : Text

unfoldable pub manager_options : Flags → ManagerOptions
manager_options flags = record {
  bind_address = flags.metrics_addr;
  secure_serving = not (text_eq flags.metrics_cert_path []);
  cert_dir = flags.metrics_cert_path;
  health_probe_bind_address = flags.probe_addr;
  leader_election = flags.enable_leader_election;
  leader_election_id = text "57d01317.vectordbsync.io";
}

-- Why `main` ends with `os.Exit(1)`.
pub data Failure : Type 0 where
  no_manager no_watcher watcher_not_added debouncer_not_added sender_not_added : Failure
  crd_debouncer_not_added crd_sender_not_added api_server_not_added : Failure
  no_health_check no_ready_check manager_failed : Failure

pub data Exit {ℓ} (S : Type ℓ) : Type ℓ where
  exit_1 : Failure → Exit S
  ok : S → Exit S

module _ {ℓ κ} {A : Type ℓ} {B : Type κ} where
  infixl 5 ◌>>=◌
  abbrev ◌>>=◌ : Exit A → (A → Exit B) → Exit B
  exit_1 e >>= f = exit_1 e
  ok a >>= f = f a

-- `if err != nil { … os.Exit(1) }`
abbrev or_exit {ℓ} : {A : Type ℓ} → Failure → Option A → Exit A
or_exit e none = exit_1 e
or_exit e (some a) = ok a

-- `NewWatcher` with the errors, if any, of creating the two clients.
unfoldable pub create_watcher : Option Text → Option Text → Config → Exit Watcher
create_watcher (some err) discovery cfg = exit_1 no_watcher
create_watcher none (some err) cfg = exit_1 no_watcher
create_watcher none none cfg = ok (new_watcher cfg)

module _ {ℓ} {S : Type ℓ} ⦃m : Manager S⦄ where
  -- The pipeline of the CRDs, if its endpoint is set.
  unfoldable pub add_crd_pipeline : Config → Pointer → Heap → S → Exit (Heap × S)
  add_crd_pipeline cfg watcher heap mgr =
      if not (text_eq cfg.capabilities_endpoint [])
      then (do
        let (heap, crd_debouncer) = alloc_crd_buffer (new_crd_debounce_buffer cfg) heap
        mgr ←
            or_exit crd_debouncer_not_added
              (m.add (crd_debouncer_runnable crd_debouncer watcher) mgr)
        let (heap, crd_client) = alloc_client (Client.new cfg.capabilities_endpoint []) heap
        mgr ←
            or_exit crd_sender_not_added (m.add (crd_sender_runnable crd_client crd_debouncer) mgr)
        ok (heap, mgr))
      else ok (heap, mgr)

  -- `main`, once the flags are parsed. `new_manager` is `ctrl.NewManager`, with `none` for an error;
  -- `resyncer` is the `TriggerResync` of the watcher that a pointer points to.
  unfoldable pub run_main :
      Flags
      → Env
      → (ManagerOptions → Option S)
      → Option Text
      → Option Text
      → (Pointer → Resyncer Heap)
      → Exit (Heap × S)
  unfolding add_crd_pipeline manager_options
  run_main flags env new_manager dynamic discovery resyncer = do
    let cfg = load env
    mgr ← or_exit no_manager (new_manager (manager_options flags))
    created ← create_watcher dynamic discovery cfg
    let (heap, watcher) = alloc_watcher created empty_heap
    mgr ← or_exit watcher_not_added (m.add (watcher_runnable watcher) mgr)
    let (heap, debouncer) = alloc_buffer (new_debounce_buffer cfg) heap
    mgr ← or_exit debouncer_not_added (m.add (debouncer_runnable debouncer watcher) mgr)
    let (heap, rest_client) = alloc_client (Client.new cfg.instances_endpoint []) heap
    mgr ← or_exit sender_not_added (m.add (sender_runnable rest_client debouncer) mgr)
    (heap, mgr) ← add_crd_pipeline cfg watcher heap mgr
    mgr ←
        or_exit api_server_not_added
          (m.add (api_server (new_server cfg.api_bind_address (resyncer watcher))) mgr)
    mgr ← or_exit no_health_check (m.add_healthz mgr)
    mgr ← or_exit no_ready_check (m.add_readyz mgr)
    mgr ← or_exit manager_failed (m.start mgr)
    ok (heap, mgr)
