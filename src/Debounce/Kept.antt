-- ===== src/Debounce/Kept.antt =====
-- What holds of the buffer as long as `Run` runs: the induction over a run, for any property that
-- the operations keep.
use k8s_vectordb_sync.Base.{
  ℕ, ◌≡◌, refl, sym, ◌∙◌, ap, subst, Bool, true, false, Option, none, some, List, [], ◌∷◌, arith,
  All, All-append, Bool-cases, Option-cases, inl, inr, if◌then◌else◌, ◌>>=◌,
}
use k8s_vectordb_sync.KeyMap.{Visit}
use k8s_vectordb_sync.Runtime.Timers.{Timer, find, remove}
use k8s_vectordb_sync.Event.{ResourceEvent}
use k8s_vectordb_sync.Config.{Config}
use k8s_vectordb_sync.Debounce.{
  SyncPayload, PendingChange, DebounceBuffer, timer_callback, new_debounce_buffer,
}
use k8s_vectordb_sync.Debounce.Valid.{IsValid}
use k8s_vectordb_sync.Debounce.Outcome.{handled, flushed, flush_pending-flushed, flushed-IsValid}
use k8s_vectordb_sync.Debounce.Progress.{handle_event-handled}
use k8s_vectordb_sync.Debounce.Consistency.{started, new_debounce_buffer-IsSound}
use k8s_vectordb_sync.Debounce.System.{
  System, Case, Action, shut_down, select_case, start_run, fire_timer, take_next, step, run,
}

abbrev pub fired : ℕ → DebounceBuffer → DebounceBuffer
fired handle d = record d { timers = record d.timers { armed = remove handle d.timers.armed } }

abbrev pub received_one : List SyncPayload → DebounceBuffer → DebounceBuffer
received_one rest d = record d { payloads = record d.payloads { queue = rest } }

-- The operations keep the property `Q` of the buffer, and by it the payloads in the channel have
-- the property `P`.
pub record Keeps (P : SyncPayload → Type 0) (Q : DebounceBuffer → Type 0) : Type 0 where
  pub queued : (d : DebounceBuffer) → Q d → All P d.payloads.queue
  pub handles : (e : ResourceEvent) (d : DebounceBuffer) → IsValid d → Q d → Q (handled e d)
  pub flushes :
      (visit : Visit PendingChange) (d : DebounceBuffer) → IsValid d → Q d → Q (flushed visit d)
  pub fires :
      (visit : Visit PendingChange) (handle : ℕ) (x : Timer) (d : DebounceBuffer)
      → find handle d.timers.armed ≡ some x
      → IsValid d
      → Q d
      → (t : DebounceBuffer) × (timer_callback visit x.key x.gen (fired handle d) ≡ some t)
        × IsValid t
        × Q t
  pub receives :
      (p : SyncPayload) (rest : List SyncPayload) (d : DebounceBuffer)
      → d.payloads.queue ≡ p ∷ rest
      → Q d
      → Q (received_one rest d)

some_injective : {x y : System} → some x ≡ some y → x ≡ y
some_injective h = ground arith

ended :
    (s t : System) (r : Option DebounceBuffer)
    → (r >>= λ d. some (record s { buffer = d; running = false })) ≡ some t
    → t.running ≡ false
ended s t none h = absurd (ground arith)
ended s t (some d) h = ground arith

chosen :
    (b : Bool) {x : Option System} (y : Option System) {z : Option System}
    → b ≡ true
    → (if b then x else y) ≡ z
    → x ≡ z
chosen true y e h = h
chosen false y e h = absurd (ground arith)

stopped_stays :
    (a : Action) (s t : System) → s.running ≡ false → step a s ≡ some t → t.running ≡ false
unfolding step take_next
stopped_stays (Action.round c) s t r h = ground arith
stopped_stays (Action.fire visit handle) s t r h =
    elim (Option-cases (fire_timer visit handle s.buffer)) [
      | inl e ↦ absurd (ground arith)
      | inr (d, e) ↦ ground arith
    ]
stopped_stays Action.receive s t r h = taken s.buffer.payloads.queue (some_injective h)
  where
    taken : (q : List SyncPayload) → take_next q s ≡ t → t.running ≡ false
    taken [] e = ap (λ x. x.running) (sym e) ∙ r
    taken (p ∷ rest) e = ap (λ x. x.running) (sym e) ∙ r

module _ (P : SyncPayload → Type 0) (Q : DebounceBuffer → Type 0) (k : Keeps P Q) where
  -- What holds of a system whose `Run` runs.
  pub record Holds (s : System) : Type 0 where
    pub valid : IsValid s.buffer
    pub kept : Q s.buffer
    pub sent : All P s.delivered

  abbrev pub WhileRunning : System → Type 0
  WhileRunning s = s.running ≡ true → Holds s

  goes_on :
      (s t : System) (b : Bool) (r : Option DebounceBuffer) (d : DebounceBuffer)
      → r ≡ some d
      → IsValid d
      → Q d
      → All P s.delivered
      → (r >>= λ x. some (record s { buffer = x; running = b })) ≡ some t
      → WhileRunning t
  goes_on s t b r d e v q sent h =
      subst WhileRunning (some_injective (rw e at h))
        (λ _. record { valid = v; kept = q; sent = sent })

  taken-Holds :
      (s : System) (q : List SyncPayload)
      → s.buffer.payloads.queue ≡ q
      → Holds s
      → Holds (take_next q s)
  unfolding take_next
  taken-Holds s [] e h = h
  taken-Holds s (p ∷ rest) e h =
      let (first, others) = subst (All P) e (k.queued s.buffer h.kept) in
      record {
        valid = record {
          distinct = h.valid.distinct;
          keyed = h.valid.keyed;
          flagged = h.valid.flagged;
        };
        kept = k.receives p rest s.buffer e h.kept;
        sent = All-append P s.delivered (p ∷ []) h.sent (first, tt);
      }

  running-Holds : (c : Case) (s t : System) → Holds s → select_case c s ≡ some t → WhileRunning t
  unfolding select_case
  running-Holds (Case.event e) s t h steps =
      let (runs, valid) = handle_event-handled e s.buffer h.valid in
      goes_on s t true _ (handled e s.buffer) runs valid (k.handles e s.buffer h.valid h.kept)
        h.sent steps
  running-Holds (Case.tick visit) s t h steps =
      goes_on s t true _ (flushed visit s.buffer) (flush_pending-flushed visit s.buffer h.valid)
        (flushed-IsValid visit s.buffer h.valid) (k.flushes visit s.buffer h.valid h.kept) h.sent
        steps
  running-Holds (Case.closed visit) s t h steps =
      λ r. absurd (ground (arith, ended s t (shut_down visit s.buffer) steps))
  running-Holds (Case.done visit) s t h steps =
      λ r. absurd (ground (arith, ended s t (shut_down visit s.buffer) steps))

  pub fire_timer-kept :
      (visit : Visit PendingChange) (handle : ℕ) (d : DebounceBuffer)
      → IsValid d
      → Q d
      → (t : DebounceBuffer) × (fire_timer visit handle d ≡ some t) × IsValid t × Q t
  unfolding fire_timer
  fire_timer-kept visit handle d v q = elim (Option-cases (find handle d.timers.armed)) [
    | inl e ↦ (d, rw (e, fire_timer), v, q)
    | inr (x, e) ↦
        let (u, runs, valid, kept) = k.fires visit handle x d e v q in
        (u, rw (e, fire_timer) runs, valid, kept)
  ]

  step-Holds : (a : Action) (s t : System) → WhileRunning s → step a s ≡ some t → WhileRunning t
  unfolding step
  step-Holds a s t b h = elim (Bool-cases s.running) [
    | inl r ↦ running a r (b r) h
    | inr r ↦ λ on. absurd (ground (arith, stopped_stays a s t r h))
  ]
    where
      running : (a : Action) → s.running ≡ true → Holds s → step a s ≡ some t → WhileRunning t
      running (Action.round c) r g h = running-Holds c s t g (chosen s.running (some s) r h)
      running (Action.fire visit handle) r g h =
          let (d, fires, valid, kept) = fire_timer-kept visit handle s.buffer g.valid g.kept in
          goes_on s t s.running _ d fires valid kept g.sent h
      running Action.receive r g h =
          subst WhileRunning (some_injective h) (λ _. taken-Holds s s.buffer.payloads.queue refl g)

  run-Holds :
      (actions : List Action) (s t : System)
      → WhileRunning s
      → run actions s ≡ some t
      → WhileRunning t
  unfolding run
  run-Holds [] s t b h = subst WhileRunning (some_injective h) b
  run-Holds (a ∷ actions) s t b h = elim (Option-cases (step a s)) [
    | inl e ↦ absurd (ground arith)
    | inr (u, e) ↦ run-Holds actions u t (step-Holds a s u b e) (rw e at h)
  ]

  -- From a new buffer with the property, it holds as long as `Run` runs.
  pub run-kept :
      (cfg : Config) (actions : List Action) (s t : System)
      → Q (new_debounce_buffer cfg)
      → start_run (new_debounce_buffer cfg) ≡ some s
      → run actions s ≡ some t
      → t.running ≡ true
      → Holds t
  run-kept cfg actions s t q h runs on =
      run-Holds actions s t
        (subst WhileRunning (sym (started cfg h)) (λ _. record {
          valid = (new_debounce_buffer-IsSound cfg (h ∙ ap some (started cfg h))).valid;
          kept = q;
          sent = tt;
        }))
        runs on
