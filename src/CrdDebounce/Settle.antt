-- ===== src/CrdDebounce/Settle.antt =====
-- The buffer comes to rest: every armed timer fires once, and the ticker after them.
use k8s_vectordb_sync.Base.{
  ◌≡◌, refl, sym, ◌∙◌, ap, subst, Bool, true, false, Option, some, List, [], ◌∷◌, ◌++◌, arith,
  Bool-cases, Option-cases, inl, inr,
}
use k8s_vectordb_sync.Text.{Text}
use k8s_vectordb_sync.KeyMap.{Visit, lookup}
use k8s_vectordb_sync.KeyMap.Order.{lookup-order}
use k8s_vectordb_sync.Runtime.Timers.{Timer, find, remove}
use k8s_vectordb_sync.Config.{Config}
use k8s_vectordb_sync.CrdDebounce.{PendingCrdChange, CrdDebounceBuffer, new_crd_debounce_buffer}
use k8s_vectordb_sync.CrdDebounce.Collect.{lookup-collect_ready, nil_of_lookup, ready_names}
use k8s_vectordb_sync.CrdDebounce.Valid.{IsValid}
use k8s_vectordb_sync.CrdDebounce.Outcome.{
  left_pending, flushed, flush_pending-flushed, offered_upserts-pending,
}
use k8s_vectordb_sync.CrdDebounce.View.{apply_payloads}
use k8s_vectordb_sync.CrdDebounce.System.{
  System, Case, Action, select_case, start_run, fire_timer, step, run, never_full,
}
use k8s_vectordb_sync.CrdDebounce.Refinement.{IsSound, nothing, system_view, apply_events, received}
use k8s_vectordb_sync.CrdDebounce.Consistency.{
  crd_run-view, view_delivered, new_crd_debounce_buffer-IsSound,
}
use k8s_vectordb_sync.CrdDebounce.Kept.{run-kept}
use k8s_vectordb_sync.CrdDebounce.ArmedRuns.{
  IsTimed, timer_callback-IsTimed, IsTimed-kept, new_crd_debounce_buffer-IsTimed,
}

-- Each of the timers fires, and then the ticker.
abbrev pub settle : Visit PendingCrdChange → List Timer → List Action
settle visit [] = Action.round (Case.tick visit) ∷ []
settle visit (x ∷ xs) = Action.fire visit x.handle ∷ settle visit xs

received-settle :
    (visit : Visit PendingCrdChange) (xs : List Timer) (r : Bool)
    → received r (settle visit xs) ≡ []
received-settle visit [] true = refl
received-settle visit [] false = refl
received-settle visit (x ∷ xs) true = received-settle visit xs true
received-settle visit (x ∷ xs) false = received-settle visit xs false

-- With no timer armed, every change is ready.
all_ready :
    (d : CrdDebounceBuffer)
    → IsTimed d
    → d.timers.armed ≡ []
    → (k : Text) (c : PendingCrdChange) → lookup k d.pending ≡ some c
    → c.ready ≡ true
unfolding find
all_ready d a e k c f = elim (Bool-cases c.ready) [
  | inl y ↦ y
  | inr n ↦ absurd (ground (arith, a.waits k c f n, ap (find c.timer) e))
]

flush_all_ready :
    (visit : Visit PendingCrdChange) (d : CrdDebounceBuffer)
    → IsValid d
    → ((k : Text) (c : PendingCrdChange) → lookup k d.pending ≡ some c → c.ready ≡ true)
    → (flushed visit d).pending ≡ []
flush_all_ready visit d v h =
    let l = visit.order d.pending in
    let (distinct, same) = lookup-order visit d.pending v.distinct in
    offered_upserts-pending (ready_names l) _
    ∙ nil_of_lookup (left_pending visit d) (λ k. elim (Option-cases (lookup k d.pending)) [
      | inl e ↦ ground (arith, lookup-collect_ready k l d.pending [] distinct)
      | inr (c, e) ↦ ground (arith, lookup-collect_ready k l d.pending [] distinct, same k, h k c e)
    ])

step_tick :
    (visit : Visit PendingCrdChange) (s : System)
    → s.running ≡ true
    → IsValid s.buffer
    → step (Action.round (Case.tick visit)) s
      ≡ some (record s { buffer = flushed visit s.buffer; running = true })
unfolding step select_case
step_tick visit s r v = ground (arith, flush_pending-flushed visit s.buffer v)

first_armed :
    (x : Timer) (xs : List Timer) (d : CrdDebounceBuffer)
    → d.timers.armed ≡ x ∷ xs
    → (find x.handle d.timers.armed ≡ some x) × (remove x.handle d.timers.armed ≡ xs)
unfolding find remove
first_armed x xs d e = (ap (find x.handle) e ∙ ground arith, ap (remove x.handle) e ∙ ground arith)

step_fire :
    (visit : Visit PendingCrdChange) (x : Timer) (xs : List Timer) (s : System)
    → s.buffer.timers.armed ≡ x ∷ xs
    → IsValid s.buffer
    → IsTimed s.buffer
    → (d : CrdDebounceBuffer) × (step (Action.fire visit x.handle) s
        ≡ some (record s { buffer = d }))
      × IsValid d
      × IsTimed d
      × (d.timers.armed ≡ xs)
unfolding step fire_timer
step_fire visit x xs s e v a =
    let (found, rest) = first_armed x xs s.buffer e in
    let (d, runs, w, timed, armed) = timer_callback-IsTimed visit x.handle x s.buffer found v a in
    (d, rw (found, fire_timer) (rw runs refl), w, timed, armed ∙ rest)

settles_from :
    (visit : Visit PendingCrdChange) (xs : List Timer) (s : System)
    → s.running ≡ true
    → s.buffer.timers.armed ≡ xs
    → IsValid s.buffer
    → IsTimed s.buffer
    → (u : System) × (run (settle visit xs) s ≡ some u)
      × (u.buffer.pending ≡ [])
      × (u.running ≡ true)
unfolding run
settles_from visit [] s r e v a = (
  record s { buffer = flushed visit s.buffer; running = true },
  rw (step_tick visit s r v),
  flush_all_ready visit s.buffer v (all_ready s.buffer a e),
  refl,
)
settles_from visit (x ∷ xs) s r e v a =
    let (d, steps, w, timed, rest) = step_fire visit x xs s e v a in
    let (u, runs, empty, on) = settles_from visit xs (record s { buffer = d }) r rest w timed in
    (u, rw steps runs, empty, on)

-- Whatever has happened to a running buffer that was started anew: once each armed timer has fired
-- and the ticker after them, nothing is pending; nothing else has to happen for that, and the
-- channel may be full.
pub crd_settles :
    (visit : Visit PendingCrdChange) (cfg : Config) (actions : List Action) (s t : System)
    → start_run (new_crd_debounce_buffer cfg) ≡ some s
    → run actions s ≡ some t
    → t.running ≡ true
    → (u : System) × (run (settle visit t.buffer.timers.armed) t ≡ some u)
      × (u.buffer.pending ≡ [])
      × (u.running ≡ true)
crd_settles visit cfg actions s t h runs on =
    let held =
      run-kept (λ p. Unit {0}) IsTimed IsTimed-kept cfg actions s t
        (new_crd_debounce_buffer-IsTimed cfg) h runs on in
    settles_from visit t.buffer.timers.armed t on refl held.valid held.kept

run_unique : {o : Option System} {x y : System} → o ≡ some x → o ≡ some y → x ≡ y
run_unique h k = ground arith

-- A buffer was started anew with a flush interval above 0, and `Run` still runs. Once each armed
-- timer has fired and the ticker after them, `Run` runs on, and the payloads delivered and
-- queued leave an empty receiver with exactly the names that were added and not deleted since,
-- if the channel was never full before an action, neither in the run nor while the buffer comes
-- to rest. Nothing else has to happen.
pub crd_settled_consistent :
    (visit : Visit PendingCrdChange) (cfg : Config) (actions : List Action) (s t : System)
    → start_run (new_crd_debounce_buffer cfg) ≡ some s
    → never_full actions s ≡ true
    → run actions s ≡ some t
    → t.running ≡ true
    → never_full (settle visit t.buffer.timers.armed) t ≡ true
    → (u : System) × (run (settle visit t.buffer.timers.armed) t ≡ some u)
      × (u.running ≡ true)
      × (apply_payloads (u.delivered ++ u.buffer.payloads.queue) nothing
          ≡ apply_events (received true actions) nothing)
crd_settled_consistent visit cfg actions s t h room runs on room' =
    let (u, rests, empty, on') = crd_settles visit cfg actions s t h runs on in
    let (t', before) = crd_run-view actions s (new_crd_debounce_buffer-IsSound cfg h) room in
    let (runs', sound', viewed', running') = before in
    let same : t' ≡ t = run_unique runs' runs in
    let (u', after) =
      crd_run-view (settle visit t.buffer.timers.armed) t (subst IsSound same sound') room' in
    let (rests', sound, viewed, running) = after in
    let unmoved : system_view u ≡ system_view t =
      ap system_view (run_unique rests rests')
      ∙ viewed
      ∙ ap (λ es. apply_events es (system_view t))
          (received-settle visit t.buffer.timers.armed t.running) in
    (
      u,
      rests,
      on',
      view_delivered cfg actions s u h (unmoved ∙ ap system_view (sym same) ∙ viewed') empty,
    )
