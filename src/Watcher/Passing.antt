-- ===== src/Watcher/Passing.antt =====
-- What a step of the watcher does to the two channels to the debounce buffers.
use k8s_vectordb_sync.Base.{
  ◌≡◌, refl, sym, ◌∙◌, ap, Bool, true, false, ◌&&◌, Option, none, some, List, [], ◌∷◌, ◌++◌, arith,
  if◌then◌else◌, Bool-cases, Option-cases, inl, inr, subst, length,
}
use mathlib.Core.List.{append_assoc}
use k8s_vectordb_sync.Text.{Text}
use k8s_vectordb_sync.Event.{add, ResourceEvent, CrdEvent}
use k8s_vectordb_sync.Watcher.{emit_added, Gvr, Watcher, ApiResourceList, stop, trigger_resync}
use k8s_vectordb_sync.Watcher.Start.{
  Factory, set_up, notify, Session, Step, begin, call, resync, relist, cancel, halt, finish, take,
  take_crd, has_informer, has_begun, begin_once, first_event, first_crd, step,
}
use k8s_vectordb_sync.Watcher.Emission.{WithinCapacity}
use k8s_vectordb_sync.Watcher.Sending.{
  Emits, never, deletion, notify-Emits, emit_added-Emits, trigger_resync-Emits,
}
use k8s_vectordb_sync.Watcher.Due.{
  event_of, crd_of, callback_events, callback_crds, resync_events, resync_crds,
}
use k8s_vectordb_sync.Watcher.Adds.{fits_in, Adds, Adds-refl, Adds-Grows, Adds-append}

-- What a step is to send.
abbrev pub due : Step → Session → List ResourceEvent
due (call b gvr c) s = callback_events c
due (resync choices list) s = resync_events list s.watcher.watched_gvrs
due (relist b obj) s = event_of add obj
due _ s = []

abbrev pub due_crds : Step → Session → List CrdEvent
due_crds (call b gvr c) s = callback_crds c
due_crds (resync choices list) s = resync_crds list s.watcher.watched_gvrs
due_crds (relist b obj) s = crd_of add obj
due_crds _ s = []

-- What has gone through a channel: what was taken from it, and what is in it.
abbrev pub passed : Session → List ResourceEvent
passed s = s.taken ++ s.watcher.events.queue

abbrev pub passed_crds : Session → List CrdEvent
passed_crds s = s.taken_crds ++ s.watcher.crd_events.queue

-- There is room for what the step is to send.
abbrev pub roomy : Step → Session → Bool
roomy a s =
    fits_in s.watcher.stopped s.watcher.events (due a s)
    && fits_in s.watcher.stopped s.watcher.crd_events (due_crds a s)

-- A watcher that has stopped stays so; the capacities stay, and the channels within them.
pub record KeepsBounds (w t : Watcher) : Type 0 where
  pub still_stopped : t.stopped ≡ false → w.stopped ≡ false
  pub same_capacity :
      (t.events.capacity ≡ w.events.capacity) × (t.crd_events.capacity ≡ w.crd_events.capacity)
  pub within : WithinCapacity w → WithinCapacity t

-- What a step does to both channels.
pub record Passes (room : Bool) (s t : Session) (es : List ResourceEvent) (cs : List CrdEvent)
    : Type 0 where
  pub events : Adds never t.watcher.stopped room (passed s) (passed t) es
  pub crds : Adds deletion t.watcher.stopped room (passed_crds s) (passed_crds t) cs
  pub bounds : KeepsBounds s.watcher t.watcher

Emits-KeepsBounds :
    (w t : Watcher) {es : List ResourceEvent} {cs : List CrdEvent}
    → Emits w t es cs
    → KeepsBounds w t
Emits-KeepsBounds w t g = record {
  still_stopped = λ h. sym g.same_stopped ∙ h;
  same_capacity = (g.events.same_capacity, g.crds.same_capacity);
  within = λ c. record {
    events_fit = g.events.fits c.events_fit;
    crd_events_fit = g.crds.fits c.crd_events_fit;
  };
}

Passes-Emits :
    (s : Session) (w : Watcher) (a : Step)
    → Emits s.watcher w (due a s) (due_crds a s)
    → Passes (roomy a s) s (record s { watcher = w }) (due a s) (due_crds a s)
Passes-Emits s w a g = record {
  events =
      subst (λ b. Adds never b (roomy a s) (passed s) (s.taken ++ w.events.queue) (due a s))
        (sym g.same_stopped)
        (Adds-Grows never (roomy a s) s.watcher.stopped s.taken s.watcher.events w.events (due a s)
          (λ r. ground (arith, r)) g.events);
  crds =
      subst
        (λ b.
          Adds deletion b (roomy a s) (passed_crds s) (s.taken_crds ++ w.crd_events.queue)
            (due_crds a s))
        (sym g.same_stopped)
        (Adds-Grows deletion (roomy a s) s.watcher.stopped s.taken_crds s.watcher.crd_events
          w.crd_events (due_crds a s) (λ r. ground (arith, r)) g.crds);
  bounds = Emits-KeepsBounds s.watcher w g;
}

pub same_session : {s t : Session} → some s ≡ some t → s ≡ t
same_session h = ground arith

moved :
    {room : Bool} {s u t : Session} {es : List ResourceEvent} {cs : List CrdEvent}
    → some u ≡ some t
    → Passes room s u es cs
    → Passes room s t es cs
moved {room} {s} {es = es} {cs = cs} h g = subst (λ x. Passes room s x es cs) (same_session h) g

-- Nothing passes: what was taken and what is queued stay, as one list each.
pub stays :
    (room : Bool) (s t u : Session)
    → passed u ≡ passed s
    → passed_crds u ≡ passed_crds s
    → KeepsBounds s.watcher u.watcher
    → some u ≡ some t
    → Passes room s t [] []
stays room s t u e c b h = moved h (record {
  events = Adds-refl never u.watcher.stopped room e;
  crds = Adds-refl deletion u.watcher.stopped room c;
  bounds = b;
})

pub same_bounds : (w : Watcher) → KeepsBounds w w
same_bounds w = record { still_stopped = λ h. h; same_capacity = (refl, refl); within = λ h. h }

take-Passes :
    (room : Bool) (q : List ResourceEvent) (s t : Session)
    → s.watcher.events.queue ≡ q
    → first_event q s ≡ some t
    → Passes room s t [] []
take-Passes room [] s t e h = absurd (ground arith)
take-Passes room (x ∷ q) s t e h =
    stays room s t _ (append_assoc s.taken (x ∷ []) q ∙ ap (λ r. s.taken ++ r) (sym e)) refl
      (record {
        still_stopped = λ r. r;
        same_capacity = (refl, refl);
        within = λ c. record {
          events_fit = omega (arith, c.events_fit, ap length e);
          crd_events_fit = c.crd_events_fit;
        };
      })
      h

take_crd-Passes :
    (room : Bool) (q : List CrdEvent) (s t : Session)
    → s.watcher.crd_events.queue ≡ q
    → first_crd q s ≡ some t
    → Passes room s t [] []
take_crd-Passes room [] s t e h = absurd (ground arith)
take_crd-Passes room (x ∷ q) s t e h =
    stays room s t _ refl
      (append_assoc s.taken_crds (x ∷ []) q ∙ ap (λ r. s.taken_crds ++ r) (sym e))
      (record {
        still_stopped = λ r. r;
        same_capacity = (refl, refl);
        within = λ c. record {
          events_fit = c.events_fit;
          crd_events_fit = omega (arith, c.crd_events_fit, ap length e);
        };
      })
      h

pub chosen :
    (b : Bool) (x : Option Session) {t : Session} → (if b then x else none) ≡ some t → x ≡ some t
chosen true x h = h
chosen false x h = absurd (ground arith)

-- What `Stop` leaves alone.
abbrev pub SameChannels : Watcher → Watcher → Type 0
SameChannels w t = (t.events ≡ w.events) × (t.crd_events ≡ w.crd_events)

pub stop-KeepsBounds : (w : Watcher) → SameChannels w (stop w) × KeepsBounds w (stop w)
unfolding stop
stop-KeepsBounds w = elim (Bool-cases w.stopped) [
  | inl e ↦
      let same : stop w ≡ w = ap (λ b. if b then w else record w { stopped = true }) e in
      subst (λ t. SameChannels w t × KeepsBounds w t) (sym same) ((refl, refl), same_bounds w)
  | inr e ↦
      let done : stop w ≡ record w { stopped = true } =
        ap (λ b. if b then w else record w { stopped = true }) e in
      subst (λ t. SameChannels w t × KeepsBounds w t) (sym done)
        (
          (refl, refl),
          record {
            still_stopped = λ h. e;
            same_capacity = (refl, refl);
            within = λ c. record { events_fit = c.events_fit; crd_events_fit = c.crd_events_fit };
          },
        )
]

pub Passes-append :
    (a b : Bool) {r s t : Session} {es fs : List ResourceEvent} {cs ds : List CrdEvent}
    → Passes a r s es cs
    → Passes b s t fs ds
    → Passes (a && b) r t (es ++ fs) (cs ++ ds)
Passes-append a b {r} {s} {t} g h = record {
  events =
      Adds-append never s.watcher.stopped t.watcher.stopped a b h.bounds.still_stopped g.events
        h.events;
  crds =
      Adds-append deletion s.watcher.stopped t.watcher.stopped a b h.bounds.still_stopped g.crds
        h.crds;
  bounds = record {
    still_stopped = λ e. g.bounds.still_stopped (h.bounds.still_stopped e);
    same_capacity = (
      h.bounds.same_capacity.0 ∙ g.bounds.same_capacity.0,
      h.bounds.same_capacity.1 ∙ g.bounds.same_capacity.1,
    );
    within = λ c. h.bounds.within (g.bounds.within c);
  };
}

module _ (parse : Text → Option (Text × Text)) where
  begin-Passes :
      (room : Bool) (adds : Gvr → Bool) (lists : List ApiResourceList) (f : Option Factory)
      (s t : Session)
      → begin_once parse adds lists f s ≡ some t
      → Passes room s t [] []
  unfolding begin_once set_up
  begin-Passes room adds lists none s t h =
      stays room s t _ refl refl
        (record {
          still_stopped = λ r. r;
          same_capacity = (refl, refl);
          within = λ c. record { events_fit = c.events_fit; crd_events_fit = c.crd_events_fit };
        })
        h
  begin-Passes room adds lists (some f) s t h = absurd (ground arith)

  pub step-Passes :
      (a : Step) (s t : Session)
      → step parse a s ≡ some t
      → Passes (roomy a s) s t (due a s) (due_crds a s)
  unfolding step stop
  step-Passes (begin adds lists) s t h = begin-Passes _ adds lists s.factory s t h
  step-Passes (call b gvr c) s t h = elim (Option-cases (notify b c s.watcher)) [
    | inl e ↦ absurd (ground (arith, rw e at (chosen (has_informer gvr s.factory) _ h)))
    | inr (w, e) ↦
        moved (rw e at (chosen (has_informer gvr s.factory) _ h))
          (Passes-Emits s w (call b gvr c) (notify-Emits b c s.watcher w e))
  ]
  step-Passes (resync choices list) s t h =
      elim (Option-cases (trigger_resync choices list s.watcher)) [
        | inl e ↦ absurd (ground (arith, rw e at h))
        | inr ((w, n), e) ↦ moved (rw e at h) (
            Passes-Emits s w (resync choices list)
              (trigger_resync-Emits choices list s.watcher w n e))
      ]
  step-Passes (relist b obj) s t h = elim (Option-cases (emit_added b add obj s.watcher)) [
    | inl e ↦ absurd (ground (arith, rw e at h))
    | inr (w, e) ↦
        moved (rw e at h)
          (Passes-Emits s w (relist b obj) (emit_added-Emits b add obj s.watcher w e))
  ]
  step-Passes cancel s t h = stays _ s t _ refl refl (same_bounds s.watcher) h
  step-Passes halt s t h =
      let ((events, crds), bounds) = stop-KeepsBounds s.watcher in
      stays _ s t _ (ap (λ c. s.taken ++ c.queue) events) (ap (λ c. s.taken_crds ++ c.queue) crds)
        bounds (chosen s.cancelled _ h)
  step-Passes finish s t h =
      stays _ s t _ refl refl (same_bounds s.watcher)
        (chosen (has_begun s.factory) _ (chosen s.cancelled _ h))
  step-Passes take s t h = take-Passes _ s.watcher.events.queue s t refl h
  step-Passes take_crd s t h = take_crd-Passes _ s.watcher.crd_events.queue s t refl h
