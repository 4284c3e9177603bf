-- ===== src/Debounce/ArmedRuns.antt =====
-- The timers of the pending changes, over the runs of the buffer.
use k8s_vectordb_sync.Base.{
  ℕ, ◌≡◌, ◌≢◌, ◌⊎◌, refl, sym, ◌∙◌, ap, true, false, some, List, [], ◌∷◌, All, arith, ◌==◌,
  Bool-cases, Option-cases, inl, inr,
}
use k8s_vectordb_sync.Base.Int.{pos, leb_ℤ}
use k8s_vectordb_sync.Text.{Text, text_eq, text_eq_iff}
use k8s_vectordb_sync.KeyMap.{KeyMap, Visit, lookup, insert, delete}
use k8s_vectordb_sync.KeyMap.Laws.{lookup-insert, lookup-delete}
use k8s_vectordb_sync.KeyMap.Order.{lookup-order}
use k8s_vectordb_sync.Runtime.Timers.{Timer, stop, find, remove}
use k8s_vectordb_sync.Metadata.{ResourceInstance}
use k8s_vectordb_sync.Event
use k8s_vectordb_sync.Event.{EventType, ResourceEvent}
use k8s_vectordb_sync.Config.{Config}
use k8s_vectordb_sync.Debounce.{
  SyncPayload, PendingChange, DebounceBuffer, cancel_pending, schedule, next_gen, mark_ready,
  new_change, ready_count, check_flush, timer_callback, new_debounce_buffer,
}
use k8s_vectordb_sync.Debounce.Collect.{lookup-collect_ready, ready_instances}
use k8s_vectordb_sync.Debounce.Valid.{IsValid, offered_upserts, mark_ready-IsValid}
use k8s_vectordb_sync.Debounce.Outcome.{
  handled, left_pending, flushed, flush_pending-flushed, flushed-IsValid,
}
use k8s_vectordb_sync.Debounce.System.{System, Action, start_run, run}
use k8s_vectordb_sync.Runtime.Armed.{
  Waiting, different, timer_of, IsArmed, IsArmed-sub, IsArmed-cancel, IsArmed-schedule,
  IsArmed-fire,
}
use k8s_vectordb_sync.Debounce.Kept.{Keeps, fired, run-kept}

abbrev pub pending_timers : Waiting PendingChange
pending_timers = record { timer = λ c. c.timer; ready = λ c. c.ready; gen = λ c. c.gen }

abbrev pub IsTimed : DebounceBuffer → Type 0
IsTimed d = IsArmed pending_timers d.debounce_window d.pending d.timers

offered_upserts-IsTimed :
    (us : List ResourceInstance) (d : DebounceBuffer) → IsTimed d → IsTimed (offered_upserts us d)
offered_upserts-IsTimed [] d a = a
offered_upserts-IsTimed (u ∷ us) d a = a

cancel_pending-IsTimed :
    (id : Text) (d : DebounceBuffer) → IsTimed d → IsTimed (cancel_pending id d)
unfolding cancel_pending
cancel_pending-IsTimed id d a = elim (Option-cases (lookup id d.pending)) [
  | inl e ↦ rw (e, cancel_pending) a
  | inr (c, e) ↦
      rw (e, cancel_pending)
        (IsArmed-cancel pending_timers d.debounce_window id d.pending d.timers c e a)
]

schedule-IsTimed : (i : ResourceInstance) (d : DebounceBuffer) → IsTimed d → IsTimed (schedule i d)
unfolding schedule
schedule-IsTimed i d a = elim (Option-cases (lookup i.id d.pending)) [
  | inl e ↦
      rw (e, schedule)
        (IsArmed-schedule pending_timers d.debounce_window i.id (new_change i 0 d.timers) 0
          d.pending d.pending d.timers refl refl (λ k. ground (arith, text_eq_iff i.id k)) a)
  | inr (c, e) ↦
      rw (e, schedule)
        (IsArmed-schedule pending_timers d.debounce_window i.id
          (new_change i (next_gen (some c)) (stop c.timer d.timers)) (next_gen (some c)) d.pending
          (delete i.id d.pending) (stop c.timer d.timers) refl refl
          (λ k. lookup-delete i.id k d.pending)
          (IsArmed-cancel pending_timers d.debounce_window i.id d.pending d.timers c e a))
]

handled-IsTimed :
    (t : EventType) (i : ResourceInstance) (d : DebounceBuffer)
    → IsTimed d
    → IsTimed (handled (record { type = t; instance = i }) d)
handled-IsTimed Event.delete i d a = cancel_pending-IsTimed i.id d a
handled-IsTimed Event.add i d a = schedule-IsTimed i d a
handled-IsTimed Event.update i d a = schedule-IsTimed i d a

flushed-IsTimed :
    (visit : Visit PendingChange) (d : DebounceBuffer)
    → IsValid d
    → IsTimed d
    → IsTimed (flushed visit d)
flushed-IsTimed visit d v a =
    let l = visit.order d.pending in
    let (distinct, same) = lookup-order visit d.pending v.distinct in
    offered_upserts-IsTimed (ready_instances l) (record d { pending = left_pending visit d })
      (IsArmed-sub pending_timers d.debounce_window d.pending (left_pending visit d) d.timers
        (λ k c e. ground (arith, lookup-collect_ready k l d.pending [] distinct)) a)

same_timer : {x y : Timer} → some x ≡ some y → x ≡ y
same_timer h = ground arith

-- A change that waits for the timer that has fired is the one whose identifier and generation the
-- timer captured.
captured :
    (handle : ℕ) (x : Timer) (d : DebounceBuffer) (k : Text) (c : PendingChange)
    → find handle d.timers.armed ≡ some x
    → IsTimed d
    → lookup k d.pending ≡ some c
    → c.ready ≡ false
    → c.timer ≡ handle
    → (x.key ≡ k) × (x.gen ≡ c.gen)
captured handle x d k c found a e r same =
    let it : x ≡ timer_of pending_timers d.debounce_window k c =
      same_timer (sym found ∙ ap (λ h. find h d.timers.armed) (sym same) ∙ a.waits k c e r) in
    (ap (λ y. y.key) it, ap (λ y. y.gen) it)

unmarked-IsTimed :
    (handle : ℕ) (x : Timer) (d : DebounceBuffer)
    → find handle d.timers.armed ≡ some x
    → ((c : PendingChange) → lookup x.key d.pending ≡ some c → x.gen ≢ c.gen)
    → IsTimed d
    → IsTimed (fired handle d)
unmarked-IsTimed handle x d found none_due a =
    IsArmed-fire pending_timers d.debounce_window handle d.pending d.pending d.timers
      (λ k c e. (c, e, refl))
      (λ k c e r. (
        e,
        λ same.
            let (key, gen) = captured handle x d k c found a e r same in
            none_due c (ap (λ j. lookup j d.pending) key ∙ e) gen,
      ))
      a

-- The entries after the callback has marked `p` ready: `p`, and the others as they were.
entry_marked :
    (id k : Text) (p c : PendingChange) (m : KeyMap PendingChange)
    → lookup id m ≡ some p
    → lookup k (insert id (record p { ready = true }) m) ≡ some c
    → ((lookup k m ≡ some p) × (c ≡ record p { ready = true }))
      ⊎ ((lookup k m ≡ some c) × (text_eq id k ≡ false))
entry_marked id k p c m e f = elim (Bool-cases (text_eq id k)) [
  | inl same ↦ inl (
    ap (λ j. lookup j m) (sym ((text_eq_iff id k).0 same)) ∙ e,
    ground (arith, lookup-insert id k (record p { ready = true }) m),
  )
  | inr other ↦ inr (ground (arith, lookup-insert id k (record p { ready = true }) m), other)
]

marked_due-IsTimed :
    (handle : ℕ) (x : Timer) (p : PendingChange) (d : DebounceBuffer)
    → find handle d.timers.armed ≡ some x
    → lookup x.key d.pending ≡ some p
    → IsTimed d
    → IsTimed
        (record (fired handle d) { pending = insert x.key (record p { ready = true }) d.pending })
marked_due-IsTimed handle x p d found e a =
    IsArmed-fire pending_timers d.debounce_window handle d.pending
      (insert x.key (record p { ready = true }) d.pending) d.timers
      (λ k c f. elim (entry_marked x.key k p c d.pending e f) [
        | inl (here, new) ↦ (p, here, ap (λ b. b.timer) new)
        | inr (old, other) ↦ (c, old, refl)
      ])
      (λ k c f r. elim (entry_marked x.key k p c d.pending e f) [
        | inl (here, new) ↦ absurd (ground arith)
        | inr (old, other) ↦
            (old, λ same. different x.key k other (captured handle x d k c found a old r same).0)
      ])
      a

marked-IsTimed :
    (handle : ℕ) (x : Timer) (d : DebounceBuffer)
    → find handle d.timers.armed ≡ some x
    → IsTimed d
    → IsTimed (mark_ready x.key x.gen (fired handle d))
unfolding mark_ready
marked-IsTimed handle x d found a = elim (Option-cases (lookup x.key d.pending)) [
  | inl e ↦ rw (e, mark_ready) (unmarked-IsTimed handle x d found (λ c f. absurd (ground arith)) a)
  | inr (p, e) ↦ elim (Bool-cases (p.gen == x.gen)) [
    | inl y ↦ rw (e, mark_ready, y) (marked_due-IsTimed handle x p d found e a)
    | inr n ↦ rw (e, mark_ready, n) (unmarked-IsTimed handle x d found (λ c f. ground arith) a)
  ]
]

-- Neither flush touches a timer.
offered_upserts-timers :
    (us : List ResourceInstance) (d : DebounceBuffer) → (offered_upserts us d).timers ≡ d.timers
offered_upserts-timers [] d = refl
offered_upserts-timers (u ∷ us) d = refl

mark_ready-timers :
    (id : Text) (gen : ℕ) (d : DebounceBuffer) → (mark_ready id gen d).timers ≡ d.timers
unfolding mark_ready
mark_ready-timers id gen d = elim (Option-cases (lookup id d.pending)) [
  | inl e ↦ rw (e, mark_ready)
  | inr (c, e) ↦ elim (Bool-cases (c.gen == gen)) [
    | inl y ↦ rw (e, mark_ready, y)
    | inr n ↦ rw (e, mark_ready, n)
  ]
]

-- The callback of a timer that was armed.
pub timer_callback-IsTimed :
    (visit : Visit PendingChange) (handle : ℕ) (x : Timer) (d : DebounceBuffer)
    → find handle d.timers.armed ≡ some x
    → IsValid d
    → IsTimed d
    → (t : DebounceBuffer) × (timer_callback visit x.key x.gen (fired handle d) ≡ some t)
      × IsValid t
      × IsTimed t
      × (t.timers.armed ≡ remove handle d.timers.armed)
unfolding timer_callback check_flush
timer_callback-IsTimed visit handle x d found v a =
    let marked = mark_ready x.key x.gen (fired handle d) in
    let w =
      mark_ready-IsValid x.key x.gen (fired handle d)
        (record { distinct = v.distinct; keyed = v.keyed; flagged = v.flagged }) in
    let timed = marked-IsTimed handle x d found a in
    let timers = mark_ready-timers x.key x.gen (fired handle d) in
    elim (Bool-cases (leb_ℤ marked.max_batch_size (pos (ready_count marked)))) [
      | inl e ↦ (
        flushed visit marked,
        rw e (flush_pending-flushed visit marked w),
        flushed-IsValid visit marked w,
        flushed-IsTimed visit marked w timed,
        ap (λ t. t.armed)
            (offered_upserts-timers (ready_instances (visit.order marked.pending)) _ ∙ timers),
      )
      | inr e ↦ (marked, rw e, w, timed, ap (λ t. t.armed) timers)
    ]

All-units : (q : List SyncPayload) → All (λ p. Unit {0}) q
All-units [] = tt
All-units (p ∷ q) = (tt, All-units q)

pub IsTimed-kept : Keeps (λ p. Unit {0}) IsTimed
IsTimed-kept = record {
  queued = λ d a. All-units d.payloads.queue;
  handles = λ e d v a. handled-IsTimed e.type e.instance d a;
  flushes = λ visit d v a. flushed-IsTimed visit d v a;
  fires = λ visit handle x d e v a.
      let (t, runs, w, timed, armed) = timer_callback-IsTimed visit handle x d e v a in
      (t, runs, w, timed);
  receives = λ p rest d e a. a;
}

pub new_debounce_buffer-IsTimed : (cfg : Config) → IsTimed (new_debounce_buffer cfg)
unfolding new_debounce_buffer lookup find
new_debounce_buffer-IsTimed cfg = record {
  known = λ h x f. cc;
  waits = λ id c f r. cc;
  owned = λ id c f. absurd (ground arith);
  apart = λ i j x y f g same. absurd (ground arith);
}

-- While `Run` runs, from a new buffer on: each pending change that is not ready has its timer armed,
-- for its identifier and its generation and with the debounce window as the delay; no two pending
-- changes have the same timer.
pub run-IsArmed :
    (cfg : Config) (actions : List Action) (s t : System)
    → start_run (new_debounce_buffer cfg) ≡ some s
    → run actions s ≡ some t
    → t.running ≡ true
    → IsArmed pending_timers t.buffer.debounce_window t.buffer.pending t.buffer.timers
run-IsArmed cfg actions s t h runs on =
    (run-kept (λ p. Unit {0}) IsTimed IsTimed-kept cfg actions s t (new_debounce_buffer-IsTimed cfg)
      h runs on).kept
