-- ===== src/Sender/Pipeline.antt =====
-- The loop behind the instance buffer: what reaches the receiver.
use k8s_vectordb_sync.Base.{
  ℕ, ◌+◌, ◌≤◌, ◌≡◌, refl, ◌∙◌, ap, Bool, true, false, Option, some, List, [], ◌∷◌, ◌++◌, Bool-cases,
  inl, inr, if◌then◌else◌,
}
use k8s_vectordb_sync.Text.{Text}
use k8s_vectordb_sync.Config.{Config}
use k8s_vectordb_sync.Client.{RestClient, Outside, Payload, payload, send, is_nil, gives_up}
use k8s_vectordb_sync.Client.Retry.{FailsFor, outcome, is_final}
use k8s_vectordb_sync.Client.Send.{send-empty, send-settled}
use k8s_vectordb_sync.Debounce.{SyncPayload, new_debounce_buffer}
use k8s_vectordb_sync.Debounce.View.{apply_payloads}
use k8s_vectordb_sync.Debounce.System.{System, Action, start_run, run, never_full}
use k8s_vectordb_sync.Debounce.Refinement.{nothing, apply_events, received}
use k8s_vectordb_sync.Debounce.Consistency.{running_at_end, run-eventually_consistent}
use k8s_vectordb_sync.Sender.{run_sender_loop, accepted, sync_payload}

module _ {ℓ} {P : Type ℓ} ⦃i : Payload P⦄ (c : RestClient) where
  -- The payload can be marshalled, and one of the attempts is a success, with no client error and
  -- no cancellation before it.
  pub record Reaches (o : Outside) (p : P) : Type ℓ where
    pub body : Text
    pub marshalled : i.marshal p ≡ some body
    pub attempt : ℕ
    pub in_time : attempt ≤ c.max_retries
    pub before : FailsFor o body 0 attempt
    pub not_cancelled : gives_up o attempt ≡ false
    pub succeeds : is_nil (outcome o body attempt) ≡ true

  Reaches-send : (o : Outside) (p : P) → Reaches o p → is_nil (send c o (payload p)).error ≡ true
  Reaches-send o p r = elim (Bool-cases (i.is_empty p)) [
    | inl e ↦ rw (send-empty c o (payload p) (inr (inr (p, refl, e)))) refl
    | inr e ↦
        let final : is_final (outcome o r.body r.attempt) ≡ true = rw r.succeeds refl in
        let (error, posts) =
          send-settled c o p r.body e r.marshalled r.attempt r.in_time r.before r.not_cancelled
            final in
        rw error r.succeeds
  ]

  module _ (cancelled : ℕ → Bool) (live drain : ℕ → Outside) where
    -- Each payload succeeds at some attempt; the first is the payload `n`.
    abbrev pub AllReach : ℕ → List P → Type ℓ
    AllReach n [] = Unit
    AllReach n (p ∷ ps) = Reaches (if cancelled n then drain n else live n) p × AllReach (n + 1) ps

    -- The loop sends every payload, in order: if each of them succeeds at some attempt, with no
    -- client error and no cancellation before it, all are accepted, in the order of the channel.
    pub accepted-run_sender_loop :
        (n : ℕ) (ps : List P)
        → AllReach n ps
        → accepted (run_sender_loop c cancelled live drain n ps) ≡ ps
    unfolding run_sender_loop
    accepted-run_sender_loop n [] h = refl
    accepted-run_sender_loop n (p ∷ ps) (r, h) =
        rw (Reaches-send (if cancelled n then drain n else live n) p r)
          (ap (λ qs. p ∷ qs) (accepted-run_sender_loop (n + 1) ps h))

-- The whole of the instance pipeline behind the watcher. The buffer starts with a flush interval
-- above 0 and runs to the end of `Run`, its channel never full before an action; the loop sends its
-- payloads, and each of them succeeds at some attempt, with no client error and no cancellation
-- before it. Then what the server has accepted leaves an empty receiver with exactly the last state
-- of each resource that the events amount to.
pub pipeline_consistent :
    (marshal : SyncPayload → Option Text) (c : RestClient) (cancelled : ℕ → Bool)
    (live drain : ℕ → Outside) (cfg : Config) (actions : List Action) (s : System)
    → start_run (new_debounce_buffer cfg) ≡ some s
    → never_full actions s ≡ true
    → running_at_end true actions ≡ false
    → ((t : System)
        → run actions s ≡ some t
        → AllReach ⦃i = sync_payload marshal⦄ c cancelled live drain 0
            (t.delivered ++ t.buffer.payloads.queue))
    → (t : System) × (run actions s ≡ some t)
      × (apply_payloads
            (accepted (
              run_sender_loop ⦃i = sync_payload marshal⦄ c cancelled live drain 0
                (t.delivered ++ t.buffer.payloads.queue)))
            nothing
          ≡ apply_events (received true actions) nothing)
pipeline_consistent marshal c cancelled live drain cfg actions s h room over reach =
    let (t, runs, empty, same) = run-eventually_consistent cfg actions s h room over in
    (
      t,
      runs,
      ap (λ ps. apply_payloads ps nothing)
            (accepted-run_sender_loop ⦃i = sync_payload marshal⦄ c cancelled live drain 0
              (t.delivered ++ t.buffer.payloads.queue) (reach t runs))
          ∙ same,
    )
