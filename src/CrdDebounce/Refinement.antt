-- ===== src/CrdDebounce/Refinement.antt =====
-- The steps of the buffer beside those of a store that each event updates at once.
use k8s_vectordb_sync.Base.{
  ℕ, ◌≡◌, refl, sym, ◌∙◌, ap, Bool, true, false, not, none, some, List, [], ◌∷◌, ◌++◌, arith, ◌>>=◌,
  Bool-cases, Option-cases, inl, inr,
}
use k8s_vectordb_sync.KeyMap.{KeyMap, Visit, lookup}
use k8s_vectordb_sync.Runtime.Channel.{has_room}
use k8s_vectordb_sync.Runtime.Timers.{find, remove as remove_timer}
use k8s_vectordb_sync.Event.{CrdEvent}
use k8s_vectordb_sync.CrdDebounce.{CrdSyncPayload, PendingCrdChange, CrdDebounceBuffer}
use k8s_vectordb_sync.CrdDebounce.Collect.{ready_names, overlay}
use k8s_vectordb_sync.CrdDebounce.Valid.{IsValid}
use k8s_vectordb_sync.CrdDebounce.Outcome.{
  handled, flushed, drained, drained-pending, flush_pending-flushed, flushed-IsValid,
}
use k8s_vectordb_sync.CrdDebounce.View.{
  Names, apply_payloads, apply_payloads-append, apply_event, view, IsOpen, view-handled,
  view-flushed, view-drained,
}
use k8s_vectordb_sync.CrdDebounce.System.{
  System, Case, Action, shut_down, select_case, fire_timer, take_next, step,
}
use k8s_vectordb_sync.CrdDebounce.Progress.{
  handle_event-handled, handled-payloads_closed, shut, offered_upserts-payloads_closed,
  shut_down_lem, timer_callback_nil, timer_callback-Calls,
}

-- While `Run` runs the channel is open; when it has ended nothing is pending.
pub record IsSound (s : System) : Type 0 where
  pub valid : IsValid s.buffer
  pub flag : s.buffer.payloads_closed ≡ not s.running
  pub drained : s.running ≡ false → s.buffer.pending ≡ []

-- A receiver that holds nothing.
abbrev pub nothing : Names
nothing k = none

-- What the receiver will hold once all that is delivered, queued and pending has reached it.
abbrev pub system_view : System → Names
system_view s = view (apply_payloads s.delivered nothing) s.buffer

abbrev pub apply_events : List CrdEvent → Names → Names
apply_events [] s = s
apply_events (e ∷ es) s = apply_events es (apply_event e s)

abbrev pub events_of : Action → Bool → List CrdEvent
events_of (Action.round (Case.event e)) true = e ∷ []
events_of _ _ = []

abbrev pub running_after : Action → Bool → Bool
running_after (Action.round (Case.closed v)) r = false
running_after (Action.round (Case.done v)) r = false
running_after _ r = r

-- The events that `Run` receives before it ends.
abbrev pub received : Bool → List Action → List CrdEvent
received r [] = []
received r (a ∷ actions) = events_of a r ++ received (running_after a r) actions

-- An action ends without a panic, and does to the view what its events mean.
pub record Refines (a : Action) (s : System) : Type 0 where
  pub after : System
  pub steps : step a s ≡ some after
  pub sound : IsSound after
  pub viewed : system_view after ≡ apply_events (events_of a s.running) (system_view s)
  pub runs : after.running ≡ running_after a s.running

pub overlay_nil : (m : KeyMap PendingCrdChange) (s : Names) → m ≡ [] → overlay m s ≡ s
unfolding lookup
overlay_nil m s e = ap (λ n. overlay n s) e

-- A round of `Run` that goes on, to a buffer with the given view.
goes_on :
    (a : Action) (s : System) (d : CrdDebounceBuffer)
    → s.running ≡ true
    → running_after a true ≡ true
    → step a s ≡ some (record s { buffer = d; running = true })
    → IsValid d
    → d.payloads_closed ≡ false
    → view (apply_payloads s.delivered nothing) d ≡ apply_events (events_of a true) (system_view s)
    → Refines a s
goes_on a s d r r' e v o w = record {
  after = record s { buffer = d; running = true };
  steps = e;
  sound = record { valid = v; flag = o; drained = λ h. cc };
  viewed = rw r w;
  runs = rw r (sym r');
}

-- An action that changes nothing, and means nothing.
stays :
    (a : Action) (s : System)
    → IsSound s
    → step a s ≡ some s
    → events_of a s.running ≡ []
    → running_after a s.running ≡ s.running
    → Refines a s
stays a s v e m r = record { after = s; steps = e; sound = v; viewed = rw m; runs = sym r }

ends :
    (a : Action) (s : System) (visit : Visit PendingCrdChange)
    → IsSound s
    → IsOpen s.buffer
    → step a s ≡ (shut_down visit s.buffer >>= λ d. some (record s { buffer = d; running = false }))
    → events_of a s.running ≡ []
    → running_after a s.running ≡ false
    → Refines a s
ends a s visit v o e m r =
    let (closes, valid) = shut_down_lem visit s.buffer v.valid o.still_open in
    let empty = drained-pending visit s.buffer v.valid in
    record {
      after = record s { buffer = shut (drained visit s.buffer); running = false };
      steps = e ∙ rw closes;
      sound = record { valid = valid; flag = refl; drained = λ h. empty };
      viewed = rw m (overlay_nil _ _ empty ∙ view-drained visit s.buffer _ v.valid o);
      runs = sym r;
    }

running-Refines :
    (c : Case) (s : System)
    → IsSound s
    → IsOpen s.buffer
    → s.running ≡ true
    → Refines (Action.round c) s
unfolding step select_case
running-Refines (Case.event e) s v o r =
    let (steps, valid) = handle_event-handled e s.buffer v.valid in
    goes_on _ s (handled e s.buffer) r refl (rw (r, steps)) valid
      (handled-payloads_closed e s.buffer ∙ o.still_open) (view-handled e s.buffer _ o)
running-Refines (Case.tick visit) s v o r =
    goes_on _ s (flushed visit s.buffer) r refl
      (rw (r, flush_pending-flushed visit s.buffer v.valid))
      (flushed-IsValid visit s.buffer v.valid)
      (offered_upserts-payloads_closed (ready_names (visit.order s.buffer.pending)) _
        ∙ o.still_open)
      (view-flushed visit s.buffer _ v.valid o)
running-Refines (Case.closed visit) s v o r = ends _ s visit v o (rw r) refl refl
running-Refines (Case.done visit) s v o r = ends _ s visit v o (rw r) refl refl

round-Refines :
    (c : Case) (s : System)
    → IsSound s
    → has_room s.buffer.payloads ≡ true
    → Refines (Action.round c) s
unfolding step
round-Refines c s v room = elim (Bool-cases s.running) [
  | inl r ↦ running-Refines c s v (record { still_open = v.flag ∙ ap not r; room = room }) r
  | inr r ↦ stays _ s v (rw r) (ended_events c s.running r) (ended_running c s.running r)
]
  where
    ended_events : (c : Case) (r : Bool) → r ≡ false → events_of (Action.round c) r ≡ []
    ended_events (Case.event e) r h = rw h
    ended_events (Case.tick w) r h = refl
    ended_events (Case.closed w) r h = refl
    ended_events (Case.done w) r h = refl

    ended_running : (c : Case) (r : Bool) → r ≡ false → running_after (Action.round c) r ≡ r
    ended_running (Case.event e) r h = refl
    ended_running (Case.tick w) r h = refl
    ended_running (Case.closed w) r h = sym h
    ended_running (Case.done w) r h = sym h

fire-Refines :
    (visit : Visit PendingCrdChange) (handle : ℕ) (s : System)
    → IsSound s
    → has_room s.buffer.payloads ≡ true
    → Refines (Action.fire visit handle) s
unfolding step fire_timer
fire-Refines visit handle s v room = elim (Option-cases (find handle s.buffer.timers.armed)) [
  | inl e ↦ stays _ s v (rw (e, fire_timer)) refl refl
  | inr (t, e) ↦
      let d = record s.buffer {
        timers = record s.buffer.timers { armed = remove_timer handle s.buffer.timers.armed };
      } in
      let w : IsValid d = record {
        distinct = v.valid.distinct;
        keyed = v.valid.keyed;
        flagged = v.valid.flagged;
      } in
      elim (Bool-cases s.running) [
        | inl r ↦
            let c =
              timer_callback-Calls visit t.key t.gen d w
                (record { still_open = v.flag ∙ ap not r; room = room }) in
            record {
              after = record s { buffer = c.after };
              steps = rw (e, fire_timer, c.steps);
              sound = record {
                valid = c.valid;
                flag = c.flag ∙ v.flag;
                drained = λ h. absurd (ground arith);
              };
              viewed = c.viewed _;
              runs = refl;
            }
        | inr r ↦ record {
          after = record s { buffer = d };
          steps = rw (e, fire_timer, timer_callback_nil visit t.key t.gen d (v.drained r));
          sound = record { valid = w; flag = v.flag; drained = v.drained };
          viewed = refl;
          runs = refl;
        }
      ]
]

receive-Refines : (s : System) → IsSound s → Refines Action.receive s
unfolding step
receive-Refines s v = taken s.buffer.payloads.queue refl
  where
    taken : (q : List CrdSyncPayload) → s.buffer.payloads.queue ≡ q → Refines Action.receive s
    taken [] e = stays _ s v (rw (e, take_next)) refl refl
    taken (p ∷ rest) e = record {
      after = record s {
        buffer = record s.buffer { payloads = record s.buffer.payloads { queue = rest } };
        delivered = s.delivered ++ p ∷ [];
      };
      steps = rw (e, take_next);
      sound = record {
        valid = record {
          distinct = v.valid.distinct;
          keyed = v.valid.keyed;
          flagged = v.valid.flagged;
        };
        flag = v.flag;
        drained = v.drained;
      };
      viewed = rw (e, apply_payloads-append s.delivered (p ∷ []) nothing);
      runs = refl;
    }

pub step-Refines :
    (a : Action) (s : System) → IsSound s → has_room s.buffer.payloads ≡ true → Refines a s
step-Refines (Action.round c) s v room = round-Refines c s v room
step-Refines (Action.fire visit handle) s v room = fire-Refines visit handle s v room
step-Refines Action.receive s v room = receive-Refines s v
