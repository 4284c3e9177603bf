-- ===== src/Sender/CrdEndToEnd.antt =====
-- The whole of the CRD pipeline, from the callbacks of the informers to what the server accepts.
use mathlib.Core.List.{append-nil}
use k8s_vectordb_sync.Base.{ℕ, ◌≡◌, sym, ◌∙◌, ap, Bool, true, false, Option, some, List, [], ◌++◌}
use k8s_vectordb_sync.Text.{Text}
use k8s_vectordb_sync.Config.{Config}
use k8s_vectordb_sync.Client.{RestClient, Outside}
use k8s_vectordb_sync.Watcher.{new_watcher}
use k8s_vectordb_sync.Watcher.Start
use k8s_vectordb_sync.Watcher.Start.{Session, session, Step}
use k8s_vectordb_sync.Watcher.Flow.{all_due_crds, always_roomy, run_complete}
use k8s_vectordb_sync.CrdDebounce.{CrdSyncPayload, new_crd_debounce_buffer}
use k8s_vectordb_sync.CrdDebounce.View.{apply_payloads}
use k8s_vectordb_sync.CrdDebounce.System.{System, Action, start_run, run, never_full}
use k8s_vectordb_sync.CrdDebounce.Refinement.{nothing, apply_events, received}
use k8s_vectordb_sync.CrdDebounce.Consistency.{running_at_end, crd_run-eventually_consistent}
use k8s_vectordb_sync.Sender.{run_sender_loop, accepted, crd_sync_payload}
use k8s_vectordb_sync.Sender.Pipeline.{AllReach, accepted-run_sender_loop}

-- A new watcher runs through some steps, with room in its channels for all that is to be sent. The
-- CRD buffer starts with a flush interval above 0, takes every event of a CRD, handles them in the
-- order in which it took them, and runs to the end of `Run`, its channel never full before an
-- action; the loop sends its payloads, and each of them succeeds at some attempt, with no client
-- error and no cancellation before it. Then what the server has accepted leaves an empty receiver
-- with exactly the CRDs that, according to the callbacks and the resyncs, were added and not
-- deleted since.
pub crd_end_to_end :
    (parse : Text → Option (Text × Text)) (marshal : CrdSyncPayload → Option Text) (c : RestClient)
    (cancelled : ℕ → Bool) (live drain : ℕ → Outside) (cfg : Config) (steps : List Step)
    (w : Session) (actions : List Action) (s : System)
    → Start.run parse steps (session (new_watcher cfg)) ≡ some w
    → always_roomy parse steps (session (new_watcher cfg)) ≡ true
    → w.watcher.crd_events.queue ≡ []
    → received true actions ≡ w.taken_crds
    → start_run (new_crd_debounce_buffer cfg) ≡ some s
    → never_full actions s ≡ true
    → running_at_end true actions ≡ false
    → ((t : System)
        → run actions s ≡ some t
        → AllReach ⦃i = crd_sync_payload marshal⦄ c cancelled live drain 0
            (t.delivered ++ t.buffer.payloads.queue))
    → (t : System) × (run actions s ≡ some t)
      × (apply_payloads
            (accepted (
              run_sender_loop ⦃i = crd_sync_payload marshal⦄ c cancelled live drain 0
                (t.delivered ++ t.buffer.payloads.queue)))
            nothing
          ≡ apply_events (all_due_crds parse steps (session (new_watcher cfg))) nothing)
crd_end_to_end parse marshal c cancelled live drain cfg steps w actions s watched roomy all taken h
      room over reach =
    let (t, runs, _, same) = crd_run-eventually_consistent cfg actions s h room over in
    let (_, events) = run_complete parse cfg steps w watched roomy in
    let handled : received true actions ≡ all_due_crds parse steps (session (new_watcher cfg)) =
      taken ∙ sym (append-nil w.taken_crds) ∙ ap (λ q. w.taken_crds ++ q) (sym all) ∙ events in
    (
      t,
      runs,
      ap (λ ps. apply_payloads ps nothing)
            (accepted-run_sender_loop ⦃i = crd_sync_payload marshal⦄ c cancelled live drain 0
              (t.delivered ++ t.buffer.payloads.queue) (reach t runs))
          ∙ same
          ∙ ap (λ es. apply_events es nothing) handled,
    )
