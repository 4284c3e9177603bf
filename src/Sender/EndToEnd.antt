-- ===== src/Sender/EndToEnd.antt =====
-- The whole of the instance pipeline, from the callbacks of the informers to what the server accepts.
use mathlib.Core.List.{append-nil}
use k8s_vectordb_sync.Base.{ℕ, ◌≡◌, sym, ◌∙◌, ap, Bool, true, false, Option, some, List, [], ◌++◌}
use k8s_vectordb_sync.Text.{Text}
use k8s_vectordb_sync.Config.{Config}
use k8s_vectordb_sync.Client.{RestClient, Outside}
use k8s_vectordb_sync.Watcher.{new_watcher}
use k8s_vectordb_sync.Watcher.Start.{Session, session, Step}
use k8s_vectordb_sync.Watcher.Start
use k8s_vectordb_sync.Watcher.Flow.{always_roomy, run_complete}
use k8s_vectordb_sync.Watcher.Expected.{AllPlain, all_expected, all_expected_lem}
use k8s_vectordb_sync.Debounce.{SyncPayload, new_debounce_buffer}
use k8s_vectordb_sync.Debounce.View.{apply_payloads}
use k8s_vectordb_sync.Debounce.System.{System, Action, start_run, run, never_full}
use k8s_vectordb_sync.Debounce.Refinement.{nothing, apply_events, received}
use k8s_vectordb_sync.Debounce.Consistency.{running_at_end}
use k8s_vectordb_sync.Sender.{run_sender_loop, accepted, sync_payload}
use k8s_vectordb_sync.Sender.Pipeline.{AllReach, pipeline_consistent}

-- A new watcher runs through some steps, with room in its channels for all that is to be sent; in
-- its updates no label or annotation stands twice, and none of the old object is empty. The buffer
-- starts with a flush interval above 0, takes every event, handles them in the order in which it
-- took them, and runs to the end of `Run`, its channel never full before an action; the loop sends
-- its payloads, and each of them succeeds at some attempt, with no client error and no cancellation
-- before it. Then what the server has accepted leaves an empty receiver with exactly the last state
-- of each resource but the CRDs according to the callbacks and the resyncs, where an update counts
-- exactly if its resource version differs and one of its labels or annotations does.
pub end_to_end :
    (parse : Text → Option (Text × Text)) (marshal : SyncPayload → Option Text) (c : RestClient)
    (cancelled : ℕ → Bool) (live drain : ℕ → Outside) (cfg : Config) (steps : List Step)
    (w : Session) (actions : List Action) (s : System)
    → Start.run parse steps (session (new_watcher cfg)) ≡ some w
    → always_roomy parse steps (session (new_watcher cfg)) ≡ true
    → AllPlain steps
    → w.watcher.events.queue ≡ []
    → received true actions ≡ w.taken
    → start_run (new_debounce_buffer cfg) ≡ some s
    → never_full actions s ≡ true
    → running_at_end true actions ≡ false
    → ((t : System)
        → run actions s ≡ some t
        → AllReach ⦃i = sync_payload marshal⦄ c cancelled live drain 0
            (t.delivered ++ t.buffer.payloads.queue))
    → (t : System) × (run actions s ≡ some t)
      × (apply_payloads
            (accepted (
              run_sender_loop ⦃i = sync_payload marshal⦄ c cancelled live drain 0
                (t.delivered ++ t.buffer.payloads.queue)))
            nothing
          ≡ apply_events (all_expected parse steps (session (new_watcher cfg))) nothing)
end_to_end parse marshal c cancelled live drain cfg steps w actions s watched roomy plain all taken
      h room over reach =
    let (t, runs, same) =
      pipeline_consistent marshal c cancelled live drain cfg actions s h room over reach in
    let (events, _) = run_complete parse cfg steps w watched roomy in
    let handled : received true actions ≡ all_expected parse steps (session (new_watcher cfg)) =
      taken
      ∙ sym (append-nil w.taken)
      ∙ ap (λ q. w.taken ++ q) (sym all)
      ∙ events
      ∙ all_expected_lem parse steps (session (new_watcher cfg)) plain in
    (t, runs, same ∙ ap (λ es. apply_events es nothing) handled)
