-- ===== src/Client.antt =====
-- internal/client/rest.go. The network and the clock are arguments: the reply to each attempt, and
-- whether the context is cancelled during the wait before it. Delays are exact numbers of
-- nanoseconds, where the code computes with float64.
mod Tests
pub mod Options
pub mod Backoff
pub mod Retry
pub mod Send
use k8s_vectordb_sync.Base.{
  ℕ, zero, suc, ◌+◌, ◌-◌, ◌*◌, ◌/◌, ◌^◌, ◌≡◌, Bool, true, false, ◌&&◌, ◌||◌, Option, none, some,
  List, [], ◌∷◌, if◌then◌else◌, ltb, leb,
}
use k8s_vectordb_sync.Base.Int.{ℤ, pos, negsuc, ltb_ℤ}
use k8s_vectordb_sync.Text.{Text}

pub record RestClient : Type 0 where
  pub endpoint : Text
  pub timeout : ℤ
  pub max_retries : ℕ
  pub initial_delay : ℕ
  pub max_delay : ℕ

-- The options that `New` accepts.
pub data ClientOption : Type 0 where
  with_timeout : ℤ → ClientOption
  with_retry : ℤ → ℤ → ℤ → ClientOption

-- `if d > 0 { field = d }`
abbrev pub if_positive : ℤ → ℕ → ℕ
if_positive (pos zero) old = old
if_positive (pos (suc n)) old = suc n
if_positive (negsuc n) old = old

-- `if n >= 0 { field = n }`
abbrev pub if_not_negative : ℤ → ℕ → ℕ
if_not_negative (pos n) old = n
if_not_negative (negsuc n) old = old

abbrev cap_initial : RestClient → RestClient
cap_initial c =
    if ltb c.max_delay c.initial_delay then record c { initial_delay = c.max_delay } else c

unfoldable pub apply_option : ClientOption → RestClient → RestClient
apply_option (with_timeout d) c = record c { timeout = d }
apply_option (with_retry max_retries initial_delay max_delay) c = cap_initial (record c {
  max_retries = if_not_negative max_retries c.max_retries;
  initial_delay = if_positive initial_delay c.initial_delay;
  max_delay = if_positive max_delay c.max_delay;
})

abbrev pub second : ℕ
second = 1000000000

unfoldable pub apply_options : List ClientOption → RestClient → RestClient
apply_options [] c = c
apply_options (opt ∷ opts) c = apply_options opts (apply_option opt c)

unfoldable pub new : Text → List ClientOption → RestClient
new endpoint opts = apply_options opts (record {
  endpoint = endpoint;
  timeout = pos (30 * second);
  max_retries = 3;
  initial_delay = 1 * second;
  max_delay = 30 * second;
})

-- The delay before the jitter.
unfoldable pub base_delay : RestClient → ℕ → ℕ
base_delay c attempt =
    let delay = c.initial_delay * 2 ^ (attempt - 1) in
    if ltb c.max_delay delay then c.max_delay else delay

-- `rand.Float64()` is k / 2 ^ 53 for some k below 2 ^ 53, and the factor 0.75 + 0.25 * k / 2 ^ 53.
unfoldable pub backoff_delay : RestClient → ℕ → ℕ → ℕ
unfolding base_delay
backoff_delay c attempt k = base_delay c attempt * (3 * 2 ^ 53 + k) / 2 ^ 55

-- A Go error; `nil` is none.
pub data GoError : Type 0 where
  nil marshalling creating_request sending_request cancelled : GoError
  client_error server_error : ℕ → GoError
  exhausted : ℕ → GoError → GoError

-- What comes of an HTTP request: it cannot be built, it fails on the way, or it has a status.
pub data Exchange : Type 0 where
  bad_request failed : Exchange
  status : ℕ → Exchange

unfoldable pub do_post : Exchange → GoError
do_post bad_request = creating_request
do_post failed = sending_request
do_post (status code) =
    if leb 400 code && ltb code 500
    then client_error code
    else (if leb 500 code then server_error code else nil)

unfoldable pub is_client_error : GoError → Bool
is_client_error (client_error code) = true
is_client_error _ = false

abbrev pub is_nil : GoError → Bool
is_nil nil = true
is_nil _ = false

-- What the outside does during a `Send`: the reply to each attempt, whether the context is
-- cancelled while the client waits before it, and the random numbers.
pub record Outside : Type 0 where
  pub reply : ℕ → Text → Exchange
  pub cancelled_before : ℕ → Bool
  pub random : ℕ → ℕ

-- What `Send` returns, how many requests it has made, and the delays that it has waited for.
pub record Sent : Type 0 where
  pub error : GoError
  pub posts : ℕ
  pub delays : List ℕ

abbrev pub posted : Sent → Sent
posted r = record r { posts = suc r.posts }

abbrev pub waited : RestClient → Outside → ℕ → Sent → Sent
waited c o zero r = r
waited c o (suc n) r = record r { delays = backoff_delay c (suc n) (o.random (suc n)) ∷ r.delays }

-- The `select` of the wait; there is none before the first attempt.
abbrev pub gives_up : Outside → ℕ → Bool
gives_up o zero = false
gives_up o (suc n) = o.cancelled_before (suc n)

-- The loop of `Send`, with the attempts left and the last error.
unfoldable pub attempts : RestClient → Outside → Text → ℕ → ℕ → GoError → Sent
attempts c o body zero attempt last_err = record {
  error = exhausted c.max_retries last_err;
  posts = 0;
  delays = [];
}
attempts c o body (suc left) attempt last_err =
    let err = do_post (o.reply attempt body) in
    let more = attempts c o body left (suc attempt) err in
    if gives_up o attempt
    then waited c o attempt (record { error = cancelled; posts = 0; delays = [] })
    else waited c o attempt (
        posted (
          if is_nil err || is_client_error err
          then record { error = err; posts = 0; delays = [] }
          else more))

-- A value of the interface `Payload`: nil, a nil pointer, or a payload.
pub data PayloadValue {ℓ} (P : Type ℓ) : Type ℓ where
  nil_interface nil_pointer : PayloadValue P
  payload : P → PayloadValue P

-- The interface `Payload`, with what `json.Marshal` makes of the value (`none` is an error).
pub record Payload {ℓ} (P : Type ℓ) : Type ℓ where
  pub is_empty : P → Bool
  pub marshal : P → Option Text

abbrev pub nothing_sent : GoError → Sent
nothing_sent err = record { error = err; posts = 0; delays = [] }

unfoldable pub send {ℓ} :
    {P : Type ℓ} ⦃i : Payload P⦄ → RestClient → Outside → PayloadValue P → Sent
send c o nil_interface = nothing_sent nil
send c o nil_pointer = nothing_sent nil
send ⦃i⦄ c o (payload p) = if i.is_empty p then nothing_sent nil else (elim (i.marshal p) [
  | none ↦ nothing_sent marshalling
  | some body ↦ attempts c o body (c.max_retries + 1) 0 nil
])
