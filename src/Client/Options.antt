-- ===== src/Client/Options.antt =====
-- The configuration of the client.
use k8s_vectordb_sync.Base.{ℕ, zero, suc, ◌≤◌, ◌<◌, List, [], ◌∷◌, arith}
use k8s_vectordb_sync.Base.Int.{ℤ, pos, negsuc}
use k8s_vectordb_sync.Text.{Text}
use k8s_vectordb_sync.Client.{
  RestClient, ClientOption, with_timeout, with_retry, if_positive, apply_option, apply_options, new,
}

-- The delays are positive, and the first is no longer than the longest.
pub record IsValid (c : RestClient) : Type 0 where
  pub waits : 0 < c.initial_delay
  pub ordered : c.initial_delay ≤ c.max_delay

if_positive_pos : (z : ℤ) (n : ℕ) → 0 < n → 0 < if_positive z n
if_positive_pos (pos zero) n h = h
if_positive_pos (pos (suc m)) n h = omega arith
if_positive_pos (negsuc m) n h = h

apply_option-IsValid : (o : ClientOption) (c : RestClient) → IsValid c → IsValid (apply_option o c)
unfolding apply_option
apply_option-IsValid (with_timeout d) c v = record { waits = v.waits; ordered = v.ordered }
apply_option-IsValid (with_retry m i x) c v =
    let p : 0 < if_positive i c.initial_delay = if_positive_pos i c.initial_delay v.waits in
    let q : 0 < if_positive x c.max_delay = if_positive_pos x c.max_delay (omega arith) in
    ground arith

apply_options-IsValid :
    (os : List ClientOption) (c : RestClient) → IsValid c → IsValid (apply_options os c)
unfolding apply_options
apply_options-IsValid [] c v = v
apply_options-IsValid (o ∷ os) c v =
    apply_options-IsValid os (apply_option o c) (apply_option-IsValid o c v)

-- Whatever options it is given, `New` makes a client with positive delays in order.
pub new-IsValid : (endpoint : Text) (os : List ClientOption) → IsValid (new endpoint os)
unfolding new
new-IsValid endpoint os =
    apply_options-IsValid os _ (record { waits = omega arith; ordered = omega arith })
