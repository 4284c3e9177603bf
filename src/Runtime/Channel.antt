-- ===== src/Runtime/Channel.antt =====
-- A buffered Go channel, oldest value first.
use k8s_vectordb_sync.Base.{
  ℕ, Bool, true, false, Option, none, some, List, [], ◌∷◌, ◌++◌, length, ltb, if◌then◌else◌,
}

pub record Channel {ℓ} (A : Type ℓ) : Type ℓ where
  pub queue : List A
  pub capacity : ℕ
  pub closed : Bool

module _ {ℓ} {A : Type ℓ} where
  -- `make(chan A, capacity)`
  unfoldable pub make : ℕ → Channel A
  make capacity = record { queue = []; capacity = capacity; closed = false }

  abbrev pub has_room : Channel A → Bool
  has_room c = ltb (length c.queue) c.capacity

  abbrev pub push : A → Channel A → Channel A
  push a c = record c { queue = c.queue ++ a ∷ [] }

  -- `select { case c <- a: … default: … }`: a send on a closed channel panics (`none`), and a full
  -- channel takes the default branch.
  unfoldable pub try_send : A → Channel A → Option (Channel A)
  try_send a c = if c.closed then none else some (if has_room c then push a c else c)

  -- `close(c)`: to close a channel twice is a panic.
  unfoldable pub close : Channel A → Option (Channel A)
  close c = if c.closed then none else some (record c { closed = true })
