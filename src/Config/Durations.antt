-- ===== src/Config/Durations.antt =====
-- Numbers and durations: where the wrap-around of an int64 begins.
use k8s_vectordb_sync.Base.{ℕ, ◌-◌, ◌*◌, ◌^◌, ◌≤◌, ◌<◌, ◌≡◌, some, [], ◌∷◌, arith}
use k8s_vectordb_sync.Base.Int.{ℤ, pos, negsuc, pos_part, neg_part}
use k8s_vectordb_sync.Text.{Text}
use k8s_vectordb_sync.Config.{Env, atoi, env_int_or_default, env_duration_ms_or_default}

-- What `Atoi` returns without an error is an int64.
pub atoi_range :
    (s : Text) (z : ℤ) → atoi s ≡ some z → (pos_part z < 2 ^ 63) × (neg_part z ≤ 2 ^ 63)
unfolding atoi
atoi_range [] z h = cc
atoi_range (c ∷ s) z h = ground arith

-- If a variable gives the number of milliseconds `n`: up to 9223372036854, 292 years, the
-- duration is exactly that; from there to 18446744073709 it wraps around to a negative one.
pub env_duration_ms_lem :
    (env : Env) (key : Text) (d : ℤ) (n : ℕ)
    → env_int_or_default env key d ≡ pos n
    → (n ≤ 9223372036854 → env_duration_ms_or_default env key d ≡ pos (1000000 * n))
      × (9223372036855 ≤ n
          → n ≤ 18446744073709
          → env_duration_ms_or_default env key d ≡ negsuc (2 ^ 64 - 1000000 * n - 1))
unfolding env_duration_ms_or_default
env_duration_ms_lem env key d n e = (λ h. rw e (ground arith), λ h k. rw e (ground arith))
