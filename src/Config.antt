-- ===== src/Config.antt =====
-- internal/config/config.go. `os.Getenv` is an argument: the text of a variable, empty if it is not
-- set. An `int` has 64 bits; a duration is an int64 of nanoseconds and wraps around.
mod Tests
pub mod Variables
pub mod Durations
pub mod Integers
use k8s_vectordb_sync.Base.{
  ℕ, suc, ◌+◌, ◌-◌, ◌*◌, ◌^◌, ◌≡◌, Bool, true, false, ◌&&◌, Option, none, some, List, [], ◌∷◌, ◌++◌,
  if◌then◌else◌, is_empty, ltb, leb, ◌==◌, ◌>>=◌,
}
use k8s_vectordb_sync.Base.Int.{ℤ, pos, negsuc, wrap64, scale}
use k8s_vectordb_sync.Text.{Text, text, text_eq, to_lower, trim_space, split}

pub record Config : Type 0 where
  pub instances_endpoint : Text
  pub capabilities_endpoint : Text
  pub debounce_window : ℤ
  pub batch_flush_interval : ℤ
  pub batch_max_size : ℤ
  pub resync_interval : ℤ
  pub watch_resource_types : List Text
  pub exclude_resource_types : List Text
  pub api_bind_address : Text
  pub log_level : Text

-- `os.Getenv`
abbrev pub Env : Type 0
Env = Text → Text

unfoldable pub env_or_default : Env → Text → Text → Text
env_or_default env key default_val = if is_empty (env key) then default_val else env key

-- The value of a row of decimal digits, `none` at any other byte.
unfoldable pub digits_value : ℕ → Text → Option ℕ
digits_value acc [] = some acc
digits_value acc (c ∷ s) =
    let rest = digits_value (10 * acc + (c - b'0')) s in
    if leb b'0' c && leb c b'9' then rest else none

unfoldable pub unsigned : Text → Option ℕ
unfolding digits_value
unsigned [] = none
unsigned (c ∷ s) = digits_value 0 (c ∷ s)

abbrev pub minus : ℕ → ℤ
minus n = if n == 0 then pos 0 else negsuc (n - 1)

abbrev pub in_range : ℕ → ℕ → ℤ → Option ℤ
in_range bound n z = if ltb n bound then some z else none

-- `strconv.Atoi`: `none` is an error, of syntax or of range.
unfoldable pub atoi : Text → Option ℤ
unfolding unsigned
atoi [] = none
atoi (c ∷ s) =
    if c == b'-'
    then (unsigned s >>= λ n. in_range (2 ^ 63 + 1) n (minus n))
    else (if c == b'+'
        then (unsigned s >>= λ n. in_range (2 ^ 63) n (pos n))
        else (unsigned (c ∷ s) >>= λ n. in_range (2 ^ 63) n (pos n)))

abbrev pub or_default {ℓ} : {A : Type ℓ} → A → Option A → A
or_default d none = d
or_default d (some a) = a

unfoldable pub env_int_or_default : Env → Text → ℤ → ℤ
unfolding atoi
env_int_or_default env key default_val =
    if is_empty (env key) then default_val else or_default default_val (atoi (env key))

-- A millisecond and a minute, in nanoseconds.
abbrev pub millisecond : ℕ
millisecond = 1000000

abbrev pub minute : ℕ
minute = 60000000000

unfoldable pub env_duration_ms_or_default : Env → Text → ℤ → ℤ
env_duration_ms_or_default env key default_ms =
    wrap64 (scale millisecond (env_int_or_default env key default_ms))

unfoldable pub env_duration_min_or_default : Env → Text → ℤ → ℤ
env_duration_min_or_default env key default_min =
    wrap64 (scale minute (env_int_or_default env key default_min))

-- The loop of `envCSVOrDefault`.
unfoldable pub clean_parts : List Text → List Text → List Text
clean_parts [] result = result
clean_parts (p ∷ parts) result =
    let trimmed = trim_space (to_lower p) in
    clean_parts parts (if is_empty trimmed then result else result ++ trimmed ∷ [])

unfoldable pub env_csv_or_default : Env → Text → List Text → List Text
unfolding clean_parts
env_csv_or_default env key default_val =
    if is_empty (env key) then default_val else clean_parts (split b',' (env key)) []

unfoldable pub load : Env → Config
load env = record {
  instances_endpoint =
      env_or_default env (text "INSTANCES_ENDPOINT")
        (text "http://localhost:3000/api/v1/instances/sync");
  capabilities_endpoint = env_or_default env (text "CAPABILITIES_ENDPOINT") [];
  debounce_window = env_duration_ms_or_default env (text "DEBOUNCE_WINDOW_MS") (pos 10000);
  batch_flush_interval = env_duration_ms_or_default env (text "BATCH_FLUSH_INTERVAL_MS") (pos 5000);
  batch_max_size = env_int_or_default env (text "BATCH_MAX_SIZE") (pos 50);
  resync_interval = env_duration_min_or_default env (text "RESYNC_INTERVAL_MIN") (pos 1440);
  watch_resource_types = env_csv_or_default env (text "WATCH_RESOURCE_TYPES") [];
  exclude_resource_types = env_csv_or_default env (text "EXCLUDE_RESOURCE_TYPES") (
      text "events"
      ∷ text "leases"
      ∷ text "endpointslices"
      ∷ text "componentstatuses"
      ∷ text "customresourcedefinitions"
      ∷ []);
  api_bind_address = env_or_default env (text "API_BIND_ADDRESS") (text ":8082");
  log_level = env_or_default env (text "LOG_LEVEL") (text "info");
}
