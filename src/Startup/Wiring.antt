-- ===== src/Startup/Wiring.antt =====
-- `main` against a plain description of it: a list of runnables, added in order.
use mathlib.Core.List.{map-append, append_assoc, append-nil}
use k8s_vectordb_sync.Base.{
  ◌≡◌, refl, sym, ◌∙◌, ap, Bool, true, false, ◌&&◌, Option, none, some, List, [], ◌∷◌, ◌++◌, arith,
  if◌then◌else◌, ◌>>=◌, map, Bool-cases, Option-cases, inl, inr,
}
use k8s_vectordb_sync.Text.{Text}
use k8s_vectordb_sync.Config.{Config, Env, load}
use k8s_vectordb_sync.Watcher.{new_watcher}
use k8s_vectordb_sync.Debounce.{new_debounce_buffer}
use k8s_vectordb_sync.CrdDebounce.{new_crd_debounce_buffer}
use k8s_vectordb_sync.Client
use k8s_vectordb_sync.Api.{Resyncer, new_server}
use k8s_vectordb_sync.Startup.{
  start_of, Task, watch, run_buffer, run_sender_loop, run_crd_buffer, serve, Heap, Pointer,
  events_of, crd_events_of, payloads_of, crd_payloads_of, Runnable, watcher_runnable,
  debouncer_runnable, sender_runnable, crd_debouncer_runnable, crd_sender_runnable, api_server,
  Manager, Exit, exit_1, ok, create_watcher, Flags, ManagerOptions, manager_options,
  add_crd_pipeline, run_main,
}

-- The runnables of one watcher, one buffer with one client and, exactly if the watcher always
-- watches the CRDs, one buffer of CRDs with a second client.
abbrev pub runnables : (Pointer → Resyncer Heap) → Config → List Runnable
runnables resyncer cfg =
    watcher_runnable 0
      ∷ debouncer_runnable 0 0
      ∷ sender_runnable 0 0
      ∷ (if (new_watcher cfg).watch_crds
          then crd_debouncer_runnable 0 0 ∷ crd_sender_runnable 1 0 ∷ []
          else [])
    ++ api_server (new_server cfg.api_bind_address (resyncer 0)) ∷ []

-- Those objects.
abbrev pub objects : Config → Heap
objects cfg = record {
  watchers = new_watcher cfg ∷ [];
  buffers = new_debounce_buffer cfg ∷ [];
  crd_buffers = if (new_watcher cfg).watch_crds then new_crd_debounce_buffer cfg ∷ [] else [];
  clients =
      Client.new cfg.instances_endpoint []
      ∷ (if (new_watcher cfg).watch_crds then Client.new cfg.capabilities_endpoint [] ∷ [] else []);
}

-- What they run, and on which channels.
abbrev pub tasks : (Pointer → Resyncer Heap) → Config → List Task
tasks resyncer cfg =
    watch 0
      ∷ run_buffer 0 (events_of 0)
      ∷ run_sender_loop 0 (payloads_of 0)
      ∷ (if (new_watcher cfg).watch_crds
          then run_crd_buffer 0 (crd_events_of 0) ∷ run_sender_loop 1 (crd_payloads_of 0) ∷ []
          else [])
    ++ serve (new_server cfg.api_bind_address (resyncer 0)) ∷ []

start_of-runnables :
    (resyncer : Pointer → Resyncer Heap) (cfg : Config)
    → map start_of (runnables resyncer cfg) ≡ tasks resyncer cfg
unfolding start_of
start_of-runnables resyncer cfg = elim (Bool-cases (new_watcher cfg).watch_crds) [
  | inl e ↦ rw e refl
  | inr e ↦ rw e refl
]

abbrev pub is_none {ℓ} : {A : Type ℓ} → Option A → Bool
is_none none = true
is_none (some a) = false

module _ {ℓ} {S : Type ℓ} where
  -- The state of a manager that ran to its end; `none` is the exit code 1.
  abbrev pub finished : Exit S → Option S
  finished (exit_1 e) = none
  finished (ok s) = some s

module _ {ℓ} {S : Type ℓ} (m : Manager S) where
  -- Each runnable is added, then the two checks, and the manager runs; the first error ends it.
  abbrev pub launch : List Runnable → S → Option S
  launch [] mgr = m.add_healthz mgr >>= λ mgr'. m.add_readyz mgr' >>= m.start
  launch (r ∷ rs) mgr = m.add r mgr >>= launch rs

  abbrev pub with_objects : Config → S → Option (Heap × S)
  with_objects cfg t = some (objects cfg, t)

  pub run_main_lem :
      (flags : Flags) (env : Env) (new_manager : ManagerOptions → Option S)
      (dynamic discovery : Option Text) (resyncer : Pointer → Resyncer Heap)
      → finished (run_main ⦃m = m⦄ flags env new_manager dynamic discovery resyncer) ≡ (
          new_manager (manager_options flags) >>= λ mgr.
          if is_none dynamic && is_none discovery
          then (launch (runnables resyncer (load env)) mgr >>= with_objects (load env))
          else none)
  unfolding run_main create_watcher add_crd_pipeline new_watcher
  run_main_lem flags env new_manager dynamic discovery resyncer = ground arith

  -- A manager that keeps what was added to it, in order.
  pub record Keeps (added : S → List Runnable) : Type ℓ where
    pub adds : (r : Runnable) (s t : S) → m.add r s ≡ some t → added t ≡ added s ++ r ∷ []
    pub checks : (s t : S) → m.add_healthz s ≡ some t → added t ≡ added s
    pub ready : (s t : S) → m.add_readyz s ≡ some t → added t ≡ added s
    pub runs : (s t : S) → m.start s ≡ some t → added t ≡ added s

  launch-Keeps :
      (added : S → List Runnable)
      → Keeps added
      → (rs : List Runnable) (s t : S) → launch rs s ≡ some t
      → added t ≡ added s ++ rs
  launch-Keeps added k [] s t h = elim (Option-cases (m.add_healthz s)) [
    | inl e ↦ absurd (ground arith)
    | inr (u, e) ↦ elim (Option-cases (m.add_readyz u)) [
      | inl f ↦ absurd (ground arith)
      | inr (v, f) ↦
          k.runs v t (rw (e, f) at h) ∙ k.ready u v f ∙ k.checks s u e ∙ sym (append-nil (added s))
    ]
  ]
  launch-Keeps added k (r ∷ rs) s t h = elim (Option-cases (m.add r s)) [
    | inl e ↦ absurd (ground arith)
    | inr (u, e) ↦
        launch-Keeps added k rs u t (rw e at h)
        ∙ ap (λ xs. xs ++ rs) (k.adds r s u e)
        ∙ append_assoc (added s) (r ∷ []) rs
  ]

  -- If `main` runs to its end, it has made one watcher, one buffer and one client and, exactly if
  -- the watcher always watches the CRDs, one buffer of CRDs and a second client. A manager that
  -- keeps what was added has, behind what it had, exactly these calls to start, in order: that
  -- watcher; the buffer on the channel of the events of that watcher; the first client on the
  -- channel of the payloads of that buffer; with the CRDs, the buffer of CRDs on the channel of the
  -- events of CRDs of the same watcher and the second client on the channel of its payloads; and the
  -- server, which resyncs that watcher.
  pub run_main-tasks :
      (flags : Flags) (env : Env) (new_manager : ManagerOptions → Option S)
      (resyncer : Pointer → Resyncer Heap) (added : S → List Runnable) (mgr t : S) (heap : Heap)
      → Keeps added
      → new_manager (manager_options flags) ≡ some mgr
      → finished (run_main ⦃m = m⦄ flags env new_manager none none resyncer) ≡ some (heap, t)
      → (map start_of (added t) ≡ map start_of (added mgr) ++ tasks resyncer (load env))
        × (heap ≡ objects (load env))
  run_main-tasks flags env new_manager resyncer added mgr t heap k made h =
      let rs = runnables resyncer (load env) in
      let ran : (launch rs mgr >>= with_objects (load env)) ≡ some (heap, t) =
        rw made at (sym (run_main_lem flags env new_manager none none resyncer) ∙ h) in
      elim (Option-cases (launch rs mgr)) [
        | inl e ↦ absurd (ground (arith, rw e at ran))
        | inr (u, e) ↦
            let (made, ends) = ended (rw e at ran) in
            (
              ap (λ s. map start_of (added s)) (sym ends)
                  ∙ ap (map start_of) (launch-Keeps added k rs mgr u e)
                  ∙ map-append start_of (added mgr) rs
                  ∙ ap (λ xs. map start_of (added mgr) ++ xs)
                      (start_of-runnables resyncer (load env)),
              sym made,
            )
      ]
    where
      ended :
          {u : S}
          → with_objects (load env) u ≡ some (heap, t)
          → (objects (load env) ≡ heap) × (u ≡ t)
      ended e = ground arith

  -- A manager that accepts whatever is added to it, and runs without an error.
  pub record Accepts : Type ℓ where
    pub accepts : (r : Runnable) (s : S) → (t : S) × (m.add r s ≡ some t)
    pub checks_ok : (s : S) → (t : S) × (m.add_healthz s ≡ some t)
    pub ready_ok : (s : S) → (t : S) × (m.add_readyz s ≡ some t)
    pub runs_ok : (s : S) → (t : S) × (m.start s ≡ some t)
