-- ===== src/Watcher/Flow.antt =====
-- The events on their way from the callbacks to the debounce buffers, over a whole run of the
-- watcher.
use k8s_vectordb_sync.Base.{
  ◌≤◌, ◌≡◌, refl, sym, ◌∙◌, ap, Bool, true, false, ◌&&◌, Option, none, some, List, [], ◌∷◌, ◌++◌,
  arith, Option-cases, inl, inr, subst, length, keep,
}
use mathlib.Core.List.{Sublistᴰ}
use k8s_vectordb_sync.Text.{Text}
use k8s_vectordb_sync.Event.{ResourceEvent, CrdEvent}
use k8s_vectordb_sync.Config.{Config}
use k8s_vectordb_sync.Runtime.Channel.{make}
use k8s_vectordb_sync.Watcher.{new_watcher}
use k8s_vectordb_sync.Watcher.Start.{Session, session, Step, step, run}
use k8s_vectordb_sync.Watcher.Sending.{deletion}
use k8s_vectordb_sync.Watcher.Passing.{
  due, due_crds, passed, passed_crds, roomy, Passes, Passes-append, stays, same_bounds, step-Passes,
}

module _ (parse : Text → Option (Text × Text)) where
  -- What a run is to send.
  abbrev pub all_due : List Step → Session → List ResourceEvent
  all_due [] s = []
  all_due (a ∷ steps) s =
      due a s ++ (elim (step parse a s) [ none ↦ [] | some u ↦ all_due steps u ])

  abbrev pub all_due_crds : List Step → Session → List CrdEvent
  all_due_crds [] s = []
  all_due_crds (a ∷ steps) s =
      due_crds a s ++ (elim (step parse a s) [ none ↦ [] | some u ↦ all_due_crds steps u ])

  -- At each step there is room for what it is to send.
  abbrev pub always_roomy : List Step → Session → Bool
  always_roomy [] s = true
  always_roomy (a ∷ steps) s =
      roomy a s && (elim (step parse a s) [ none ↦ true | some u ↦ always_roomy steps u ])

  run-Passes :
      (steps : List Step) (s t : Session)
      → run parse steps s ≡ some t
      → Passes (always_roomy steps s) s t (all_due steps s) (all_due_crds steps s)
  unfolding run
  run-Passes [] s t h = stays true s t s refl refl (same_bounds s.watcher) h
  run-Passes (a ∷ steps) s t h = elim (Option-cases (step parse a s)) [
    | inl e ↦ absurd (ground (arith, rw e at h))
    | inr (u, e) ↦
        let first = step-Passes parse a s u e in
        let rest = run-Passes steps u t (rw e at h) in
        rw (e, all_due, all_due_crds, always_roomy)
          (Passes-append (roomy a s) (always_roomy steps u) first rest)
  ]

  -- Whatever happens to a new watcher, what goes through its channels are events that its callbacks
  -- and resyncs are to send, in that order: none is made up, sent twice or overtaken.
  pub run-in_order :
      (cfg : Config) (steps : List Step) (t : Session)
      → let s = session (new_watcher cfg) in
        run parse steps s ≡ some t
        → Sublistᴰ (passed t) (all_due steps s) × Sublistᴰ (passed_crds t) (all_due_crds steps s)
  unfolding new_watcher make
  run-in_order cfg steps t h =
      let s = session (new_watcher cfg) in
      let g = run-Passes steps s t h in
      (
        subst (λ xs. Sublistᴰ xs (all_due steps s)) (sym g.events.sent) g.events.in_order,
        subst (λ xs. Sublistᴰ xs (all_due_crds steps s)) (sym g.crds.sent) g.crds.in_order,
      )

  -- If at each step there was room for what it is to send, and nobody had stopped the watcher before
  -- it, everything goes through the channels.
  pub run_complete :
      (cfg : Config) (steps : List Step) (t : Session)
      → let s = session (new_watcher cfg) in
        run parse steps s ≡ some t
        → always_roomy steps s ≡ true
        → (passed t ≡ all_due steps s) × (passed_crds t ≡ all_due_crds steps s)
  unfolding new_watcher make
  run_complete cfg steps t h r =
      let g = run-Passes steps (session (new_watcher cfg)) t h in
      (g.events.sent ∙ g.events.whole r, g.crds.sent ∙ g.crds.whole r)

  -- While the watcher is not stopped, no deletion of a CRD is lost, whether or not there was room:
  -- those that went through the channel are those that were to be sent, in order.
  pub run-deletions :
      (cfg : Config) (steps : List Step) (t : Session)
      → let s = session (new_watcher cfg) in
        run parse steps s ≡ some t
        → t.watcher.stopped ≡ false
        → keep deletion (passed_crds t) ≡ keep deletion (all_due_crds steps s)
  unfolding new_watcher make
  run-deletions cfg steps t h r =
      let g = run-Passes steps (session (new_watcher cfg)) t h in
      ap (keep deletion) g.crds.sent ∙ g.crds.certain r

  -- Whatever happens to a new watcher, no more than 10000 events and 1000 events of CRDs are queued.
  pub run-within :
      (cfg : Config) (steps : List Step) (t : Session)
      → run parse steps (session (new_watcher cfg)) ≡ some t
      → (length t.watcher.events.queue ≤ 10000) × (length t.watcher.crd_events.queue ≤ 1000)
  unfolding new_watcher make
  run-within cfg steps t h =
      let b = (run-Passes steps (session (new_watcher cfg)) t h).bounds in
      let c = b.within (record { events_fit = omega arith; crd_events_fit = omega arith }) in
      (
        omega (arith, c.events_fit, b.same_capacity.0),
        omega (arith, c.crd_events_fit, b.same_capacity.1),
      )
