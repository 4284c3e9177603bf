-- ===== src/CrdDebounce/Consistency.antt =====
-- The runs of the buffer, from its start to the end of `Run`.
use k8s_vectordb_sync.Base.{
  ◌≡◌, refl, sym, ◌∙◌, ap, ap₂, subst, Bool, true, false, some, List, [], ◌∷◌, ◌++◌, arith,
}
use k8s_vectordb_sync.KeyMap.{lookup}
use k8s_vectordb_sync.Runtime.Channel.{has_room}
use k8s_vectordb_sync.Event.{CrdEvent}
use k8s_vectordb_sync.CrdDebounce.{new_crd_debounce_buffer}
use k8s_vectordb_sync.Config.{Config}
use k8s_vectordb_sync.CrdDebounce.View.{Names, apply_payloads, apply_payloads-append, apply_event}
use k8s_vectordb_sync.CrdDebounce.System.{System, Action, start_run, step, run, never_full}
use k8s_vectordb_sync.CrdDebounce.Refinement.{
  IsSound, nothing, system_view, apply_events, events_of, running_after, received, Refines,
  step-Refines, overlay_nil,
}

apply_events-append :
    (es fs : List CrdEvent) (s : Names)
    → apply_events (es ++ fs) s ≡ apply_events fs (apply_events es s)
apply_events-append [] fs s = refl
apply_events-append (e ∷ es) fs s = apply_events-append es fs (apply_event e s)

abbrev pub running_at_end : Bool → List Action → Bool
running_at_end r [] = r
running_at_end r (a ∷ actions) = running_at_end (running_after a r) actions

-- The run ends in `t`, which is sound, and whose view is that of the events received.
abbrev pub Realises : List Action → System → System → Type 0
Realises actions s t =
    (run actions s ≡ some t)
    × IsSound t
    × (system_view t ≡ apply_events (received s.running actions) (system_view s))
    × (t.running ≡ running_at_end s.running actions)

never_full_now :
    (a : Action) (actions : List Action) (s : System)
    → never_full (a ∷ actions) s ≡ true
    → has_room s.buffer.payloads ≡ true
unfolding never_full
never_full_now a actions s h = ground arith

never_full_later :
    (a : Action) (actions : List Action) (s t : System)
    → step a s ≡ some t
    → never_full (a ∷ actions) s ≡ true
    → never_full actions t ≡ true
unfolding never_full
never_full_later a actions s t e h = ground arith

Realises-cons :
    (a : Action) (actions : List Action) (s t : System) (r : Refines a s)
    → Realises actions r.after t
    → Realises (a ∷ actions) s t
unfolding run
Realises-cons a actions s t r (runs, sound, viewed, running) = (
  rw (r.steps, runs),
  sound,
  viewed
      ∙ ap₂ (λ b σ. apply_events (received b actions) σ) r.runs r.viewed
      ∙ sym (apply_events-append (events_of a s.running) _ (system_view s)),
  running ∙ ap (λ b. running_at_end b actions) r.runs,
)

-- From a sound system (a well-formed buffer, whose channel is closed only when `Run` has ended
-- and nothing is pending), in every interleaving of events, ticks, timers and receives in which
-- the channel is never full before an action, no step panics, the system stays sound, and what is
-- delivered, queued and pending together amounts to the events that `Run` received, applied in
-- their order to the set of names.
pub crd_run-view :
    (actions : List Action) (s : System)
    → IsSound s
    → never_full actions s ≡ true
    → (t : System) × Realises actions s t
unfolding run
crd_run-view [] s v room = (s, (refl, v, refl, refl))
crd_run-view (a ∷ actions) s v room =
    let r = step-Refines a s v (never_full_now a actions s room) in
    let (t, rest) =
      crd_run-view actions r.after r.sound (never_full_later a actions s r.after r.steps room) in
    (t, Realises-cons a actions s t r rest)

abbrev pub fresh : Config → System
fresh cfg = record { buffer = new_crd_debounce_buffer cfg; running = true; delivered = [] }

pub started :
    (cfg : Config) {s : System} → start_run (new_crd_debounce_buffer cfg) ≡ some s → s ≡ fresh cfg
unfolding start_run
started cfg h = ground arith

fresh-IsSound : (cfg : Config) → IsSound (fresh cfg)
unfolding new_crd_debounce_buffer lookup
fresh-IsSound cfg = record {
  valid = record { distinct = tt; keyed = λ k c h. cc; flagged = refl };
  flag = refl;
  drained = λ h. cc;
}

pub new_crd_debounce_buffer-IsSound :
    (cfg : Config) {s : System} → start_run (new_crd_debounce_buffer cfg) ≡ some s → IsSound s
new_crd_debounce_buffer-IsSound cfg h = subst IsSound (sym (started cfg h)) (fresh-IsSound cfg)

fresh_view :
    (cfg : Config) (actions : List Action)
    → apply_events (received true actions) (system_view (fresh cfg))
      ≡ apply_events (received true actions) nothing
unfolding new_crd_debounce_buffer lookup
fresh_view cfg actions = refl

-- With nothing pending, the payloads alone hold the view, from a new buffer on.
pub view_delivered :
    (cfg : Config) (actions : List Action) (s u : System)
    → start_run (new_crd_debounce_buffer cfg) ≡ some s
    → system_view u ≡ apply_events (received s.running actions) (system_view s)
    → u.buffer.pending ≡ []
    → apply_payloads (u.delivered ++ u.buffer.payloads.queue) nothing
      ≡ apply_events (received true actions) nothing
view_delivered cfg actions s u h viewed empty =
    apply_payloads-append u.delivered u.buffer.payloads.queue nothing
    ∙ sym (overlay_nil u.buffer.pending _ empty)
    ∙ viewed
    ∙ ap (λ x. apply_events (received x.running actions) (system_view x)) (started cfg h)
    ∙ fresh_view cfg actions

-- Started with a new buffer and a flush interval above 0, when `Run` has ended, after any
-- interleaving in which the channel was never full before an action, nothing is pending, and the
-- payloads delivered and queued leave an empty receiver with exactly the names that were added
-- and not deleted since.
pub crd_run-eventually_consistent :
    (cfg : Config) (actions : List Action) (s : System)
    → start_run (new_crd_debounce_buffer cfg) ≡ some s
    → never_full actions s ≡ true
    → running_at_end true actions ≡ false
    → (t : System) × (run actions s ≡ some t)
      × (t.buffer.pending ≡ [])
      × (apply_payloads (t.delivered ++ t.buffer.payloads.queue) nothing
          ≡ apply_events (received true actions) nothing)
crd_run-eventually_consistent cfg actions s h room over =
    let (t, realised) = crd_run-view actions s (new_crd_debounce_buffer-IsSound cfg h) room in
    let (runs, sound, viewed, running) = realised in
    let empty =
      sound.drained (running ∙ ap (λ u. running_at_end u.running actions) (started cfg h) ∙ over) in
    (t, runs, empty, view_delivered cfg actions s t h viewed empty)
