-- ===== src/Runtime/Timers.antt =====
-- `time.AfterFunc` and `Timer.Stop`. A timer is known by its handle; its callback is the closure
-- over the key and the generation that it captured. Time is left open: a timer that is armed may
-- fire at any later moment.
use k8s_vectordb_sync.Base.{ℕ, suc, Option, none, some, List, [], ◌∷◌, ◌==◌, if◌then◌else◌}
use k8s_vectordb_sync.Base.Int.{ℤ}
use k8s_vectordb_sync.Text.{Text}

pub record Timer : Type 0 where
  pub handle : ℕ
  pub delay : ℤ
  pub key : Text
  pub gen : ℕ

pub record Timers : Type 0 where
  pub next_handle : ℕ
  pub armed : List Timer

unfoldable pub no_timers : Timers
no_timers = record { next_handle = 0; armed = [] }

-- The handle of the new timer is `next_handle`.
unfoldable pub after_func : ℤ → Text → ℕ → Timers → Timers
after_func delay key gen t = record {
  next_handle = suc t.next_handle;
  armed = record { handle = t.next_handle; delay = delay; key = key; gen = gen } ∷ t.armed;
}

unfoldable pub remove : ℕ → List Timer → List Timer
remove handle [] = []
remove handle (t ∷ ts) = if t.handle == handle then ts else t ∷ remove handle ts

-- `timer.Stop()`; nothing happens to a timer that has fired.
unfoldable pub stop : ℕ → Timers → Timers
unfolding remove
stop handle t = record t { armed = remove handle t.armed }

unfoldable pub find : ℕ → List Timer → Option Timer
find handle [] = none
find handle (t ∷ ts) = if t.handle == handle then some t else find handle ts
