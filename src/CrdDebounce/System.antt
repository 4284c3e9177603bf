-- ===== src/CrdDebounce/System.antt =====
-- `Run`, with what happens around it: the timers that fire and the consumer of the channel. Each
-- action runs to its end before the next.
use k8s_vectordb_sync.Base.{
  ℕ, Bool, true, false, ◌&&◌, Option, none, some, List, [], ◌∷◌, ◌++◌, if◌then◌else◌, ◌>>=◌,
}
use k8s_vectordb_sync.Base.Int.{pos, leb_ℤ}
use k8s_vectordb_sync.KeyMap.{Visit}
use k8s_vectordb_sync.Runtime.Channel.{has_room}
use k8s_vectordb_sync.Runtime.Timers.{find, remove}
use k8s_vectordb_sync.Event.{CrdEvent}
use k8s_vectordb_sync.CrdDebounce.{
  CrdSyncPayload, PendingCrdChange, CrdDebounceBuffer, handle_event, flush_pending,
  flush_all_pending, close_payloads, timer_callback,
}

-- The cases of the `select` in `Run`: `closed` is a receive from the closed events channel, and
-- `done` the cancelled context.
pub data Case : Type 0 where
  event : CrdEvent → Case
  tick : Visit PendingCrdChange → Case
  closed done : Visit PendingCrdChange → Case

unfoldable pub shut_down : Visit PendingCrdChange → CrdDebounceBuffer → Option CrdDebounceBuffer
shut_down visit d = flush_all_pending visit d >>= close_payloads

-- `running` tells whether the loop of `Run` goes on; `delivered` is what the consumer has taken
-- out of the channel, oldest first.
pub record System : Type 0 where
  pub buffer : CrdDebounceBuffer
  pub running : Bool
  pub delivered : List CrdSyncPayload

abbrev continue_with : System → Bool → Option CrdDebounceBuffer → Option System
continue_with s running r = r >>= λ d. some (record s { buffer = d; running = running })

-- One round of the loop of `Run`.
unfoldable pub select_case : Case → System → Option System
select_case (event e) s = continue_with s true (handle_event e s.buffer)
select_case (tick visit) s = continue_with s true (flush_pending visit s.buffer)
select_case (closed visit) s = continue_with s false (shut_down visit s.buffer)
select_case (done visit) s = continue_with s false (shut_down visit s.buffer)

-- `time.NewTicker` panics if the interval is not positive.
unfoldable pub start_run : CrdDebounceBuffer → Option System
start_run d =
    if leb_ℤ d.flush_interval (pos 0)
    then none
    else some (record { buffer = d; running = true; delivered = [] })

pub data Action : Type 0 where
  round : Case → Action
  fire : Visit PendingCrdChange → ℕ → Action
  receive : Action

-- A timer that fires is armed no more, and its callback runs.
unfoldable pub fire_timer :
    Visit PendingCrdChange → ℕ → CrdDebounceBuffer → Option CrdDebounceBuffer
fire_timer visit handle d = elim (find handle d.timers.armed) [
  | none ↦ some d
  | some t ↦
      timer_callback visit t.key t.gen
        (record d { timers = record d.timers { armed = remove handle d.timers.armed } })
]

unfoldable pub take_next : List CrdSyncPayload → System → System
take_next [] s = s
take_next (p ∷ rest) s = record s {
  buffer = record s.buffer { payloads = record s.buffer.payloads { queue = rest } };
  delivered = s.delivered ++ p ∷ [];
}

unfoldable pub step : Action → System → Option System
unfolding take_next
step (round c) s = if s.running then select_case c s else some s
step (fire visit handle) s = continue_with s s.running (fire_timer visit handle s.buffer)
step receive s = some (take_next s.buffer.payloads.queue s)

unfoldable pub run : List Action → System → Option System
run [] s = some s
run (a ∷ actions) s = step a s >>= run actions

-- Before each action the channel has room for a payload, so that none is dropped.
unfoldable pub never_full : List Action → System → Bool
never_full [] s = true
never_full (a ∷ actions) s =
    has_room s.buffer.payloads
    && (elim (step a s) [ none ↦ true | some s' ↦ never_full actions s' ])
