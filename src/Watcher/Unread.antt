-- ===== src/Watcher/Unread.antt =====
-- The channel of the CRD events, when nobody reads it: `main` starts its reader only with an endpoint
-- for the capabilities.
use k8s_vectordb_sync.Base.{
  ◌≤◌, ◌<◌, ◌≡◌, refl, sym, ◌∙◌, ap, Bool, true, false, not, ◌&&◌, Option, none, some, List, [],
  ◌∷◌, ◌++◌, arith, Bool-cases, Option-cases, inl, inr, subst, length, length-append,
}
use mathlib.Core.List.{append_assoc, append-nil}
use k8s_vectordb_sync.Text.{Text}
use k8s_vectordb_sync.Runtime.Channel.{make, has_room}
use k8s_vectordb_sync.Config.{Config}
use k8s_vectordb_sync.Metadata.{Unstructured}
use k8s_vectordb_sync.Event.{add, delete, ResourceEvent, CrdEvent}
use k8s_vectordb_sync.Watcher.{
  Gvr, Watcher, ApiResourceList, new_watcher, is_crd, emit_crd, emit_added, on_delete, object,
  trigger_resync,
}
use k8s_vectordb_sync.Watcher.Start.{
  Factory, set_up, notify, deleted, Session, session, Step, begin, call, resync, relist, cancel,
  halt, finish, take, take_crd, has_informer, has_begun, begin_once, first_event, step, run,
}
use k8s_vectordb_sync.Watcher.Sending.{Emits, notify-Emits, emit_added-Emits, trigger_resync-Emits}
use k8s_vectordb_sync.Watcher.Passing.{
  due_crds, step-Passes, chosen, stop-KeepsBounds, same_session,
}
use k8s_vectordb_sync.Watcher.Flow.{all_due_crds}

-- From `s` to `t` nothing was taken from the channel, and if it is not full, everything is in it.
record Fills (s t : Session) (cs : List CrdEvent) : Type 0 where
  longer : length s.watcher.crd_events.queue ≤ length t.watcher.crd_events.queue
  unless_full :
      t.watcher.stopped ≡ false
      → length t.watcher.crd_events.queue < s.watcher.crd_events.capacity
      → t.watcher.crd_events.queue ≡ s.watcher.crd_events.queue ++ cs

Fills-same :
    (s u t : Session) → u.watcher.crd_events ≡ s.watcher.crd_events → some u ≡ some t → Fills s t []
Fills-same s u t e h =
    subst (λ x. Fills s x []) (same_session h)
      (record {
        longer = omega (arith, ap (λ c. length c.queue) e);
        unless_full = λ _ _. ap (λ c. c.queue) e ∙ sym (append-nil s.watcher.crd_events.queue);
      })

Fills-Emits :
    (s t : Session) (w : Watcher) {es : List ResourceEvent} {cs : List CrdEvent}
    → Emits s.watcher w es cs
    → some (record s { watcher = w }) ≡ some t
    → Fills s t cs
Fills-Emits s t w {cs = cs} g h =
    subst (λ x. Fills s x cs) (same_session h)
      (record {
        longer =
            omega
              (arith, ap length g.crds.sent, length-append s.watcher.crd_events.queue g.crds.kept);
        unless_full = λ r k.
            g.crds.sent
            ∙ ap (λ q. s.watcher.crd_events.queue ++ q)
                (g.crds.unless_full (sym g.same_stopped ∙ r) k);
      })

first-Fills : (q : List ResourceEvent) (s t : Session) → first_event q s ≡ some t → Fills s t []
first-Fills [] s t h = absurd (ground arith)
first-Fills (x ∷ q) s t h = Fills-same s _ t refl h

-- Whether a step takes an event of a CRD.
abbrev pub reads_crds : Step → Bool
reads_crds take_crd = true
reads_crds _ = false

abbrev pub never_reads_crds : List Step → Bool
never_reads_crds [] = true
never_reads_crds (a ∷ steps) = not (reads_crds a) && never_reads_crds steps

blocked :
    (b : Bool) (crd : Unstructured) (w : Watcher)
    → w.stopped ≡ false
    → has_room w.crd_events ≡ false
    → is_crd crd ≡ true
    → emit_added b delete crd w ≡ none
unfolding emit_added emit_crd
blocked b crd w alive full c = ground arith

module _ (parse : Text → Option (Text × Text)) where
  begin-Fills :
      (adds : Gvr → Bool) (lists : List ApiResourceList) (f : Option Factory) (s t : Session)
      → begin_once parse adds lists f s ≡ some t
      → Fills s t []
  unfolding begin_once set_up
  begin-Fills adds lists none s t h = Fills-same s _ t refl h
  begin-Fills adds lists (some f) s t h = absurd (ground arith)

  step-Fills :
      (a : Step) (s t : Session)
      → reads_crds a ≡ false
      → step parse a s ≡ some t
      → Fills s t (due_crds a s)
  unfolding step
  step-Fills (begin adds lists) s t n h = begin-Fills adds lists s.factory s t h
  step-Fills (call b gvr c) s t n h = elim (Option-cases (notify b c s.watcher)) [
    | inl e ↦ absurd (ground (arith, rw e at (chosen (has_informer gvr s.factory) _ h)))
    | inr (w, e) ↦
        Fills-Emits s t w (notify-Emits b c s.watcher w e)
          (rw e at (chosen (has_informer gvr s.factory) _ h))
  ]
  step-Fills (resync choices list) s t n h =
      elim (Option-cases (trigger_resync choices list s.watcher)) [
        | inl e ↦ absurd (ground (arith, rw e at h))
        | inr ((w, m), e) ↦
            Fills-Emits s t w (trigger_resync-Emits choices list s.watcher w m e) (rw e at h)
      ]
  step-Fills (relist b obj) s t n h = elim (Option-cases (emit_added b add obj s.watcher)) [
    | inl e ↦ absurd (ground (arith, rw e at h))
    | inr (w, e) ↦ Fills-Emits s t w (emit_added-Emits b add obj s.watcher w e) (rw e at h)
  ]
  step-Fills cancel s t n h = Fills-same s _ t refl h
  step-Fills halt s t n h =
      let ((_, crds), _) = stop-KeepsBounds s.watcher in
      Fills-same s _ t crds (chosen s.cancelled _ h)
  step-Fills finish s t n h =
      Fills-same s _ t refl (chosen (has_begun s.factory) _ (chosen s.cancelled _ h))
  step-Fills take s t n h = first-Fills s.watcher.events.queue s t h
  step-Fills take_crd s t n h = absurd (ground arith)

  -- The run keeps the bounds, and fills the channel.
  run-Fills :
      (steps : List Step) (s t : Session)
      → never_reads_crds steps ≡ true
      → run parse steps s ≡ some t
      → (t.watcher.stopped ≡ false → s.watcher.stopped ≡ false)
        × (t.watcher.crd_events.capacity ≡ s.watcher.crd_events.capacity)
        × Fills s t (all_due_crds parse steps s)
  unfolding run
  run-Fills [] s t n h =
      let same = same_session h in
      (
        λ r. ap (λ x. x.watcher.stopped) same ∙ r,
        ap (λ x. x.watcher.crd_events.capacity) (sym same),
        Fills-same s s t refl h,
      )
  run-Fills (a ∷ steps) s t n h = elim (Option-cases (step parse a s)) [
    | inl e ↦ absurd (ground (arith, rw e at h))
    | inr (u, e) ↦
        let bounds = (step-Passes parse a s u e).bounds in
        let one = step-Fills a s u (ground (arith, n)) e in
        let (alive, capacity, rest) = run-Fills steps u t (ground (arith, n)) (rw e at h) in
        rw (e, all_due_crds)
          (
            (λ r. bounds.still_stopped (alive r)),
            capacity ∙ bounds.same_capacity.1,
            record {
              longer = omega (arith, one.longer, rest.longer);
              unless_full = λ r k.
                  rest.unless_full r (omega (arith, k, bounds.same_capacity.1))
                  ∙ ap (λ q. q ++ all_due_crds parse steps u)
                      (one.unless_full (alive r) (omega (arith, k, rest.longer)))
                  ∙ append_assoc s.watcher.crd_events.queue (due_crds a s) _;
            },
          )
  ]

  -- If nobody reads the events of the CRDs, as without an endpoint for the capabilities, then after a
  -- thousand of them that were to be sent the callback for a deleted CRD blocks for as long as the
  -- watcher is not stopped.
  pub unread_crds_block :
      (cfg : Config) (steps : List Step) (t : Session) (b : Bool) (gvr : Gvr) (crd : Unstructured)
      → run parse steps (session (new_watcher cfg)) ≡ some t
      → never_reads_crds steps ≡ true
      → 1000 ≤ length (all_due_crds parse steps (session (new_watcher cfg)))
      → t.watcher.stopped ≡ false
      → is_crd crd ≡ true
      → step parse (call b gvr (deleted (object crd))) t ≡ none
  unfolding new_watcher make step notify on_delete
  unread_crds_block cfg steps t b gvr crd h n long alive c =
      let (_, capacity, g) = run-Fills steps (session (new_watcher cfg)) t n h in
      let full : has_room t.watcher.crd_events ≡ false =
        elim (Bool-cases (has_room t.watcher.crd_events)) [
          | inl r ↦ absurd (overfull capacity g r)
          | inr r ↦ r
        ] in
      elim (Bool-cases (has_informer gvr t.factory)) [
        | inl i ↦ rw (i, step, blocked b crd t.watcher alive full c) refl
        | inr i ↦ rw (i, step) refl
      ]
    where
      overfull :
          t.watcher.crd_events.capacity ≡ 1000
          → Fills
              (session (new_watcher cfg))
              t
              (all_due_crds parse steps (session (new_watcher cfg)))
          → has_room t.watcher.crd_events ≡ true
          → ⊥
      overfull e g r =
          let below : length t.watcher.crd_events.queue < 1000 = ground arith in
          omega (arith, below, long, ap length (g.unless_full alive below))
