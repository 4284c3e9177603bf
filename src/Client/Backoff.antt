-- ===== src/Client/Backoff.antt =====
-- The delays between attempts.
use k8s_vectordb_sync.Base.{
  ℕ, suc, ◌+◌, ◌-◌, ◌*◌, ◌/◌, ◌^◌, ◌≤◌, ◌<◌, ◌≡◌, arith, if◌then◌else◌, ltb,
}
use native.Mathlib.Nat.{pow-suc}
use k8s_vectordb_sync.Client.{RestClient, base_delay, backoff_delay}

times_bound : (b k m : ℕ) → k < m → b * k ≤ b * m
times_bound b k m h = grind arith

jitter_bounds :
    (b k : ℕ)
    → k < 2 ^ 53
    → (3 * b / 4 ≤ b * (3 * 2 ^ 53 + k) / 2 ^ 55) × (b * (3 * 2 ^ 53 + k) / 2 ^ 55 ≤ b)
jitter_bounds b k h = omega (arith, times_bound b k (2 ^ 53) h)

base_delay_capped : (c : RestClient) (attempt : ℕ) → base_delay c attempt ≤ c.max_delay
unfolding base_delay
base_delay_capped c attempt = ground arith

-- For a random number below 1, the delay lies between three quarters of the base, rounded down,
-- and the base, which is at most the longest delay.
pub backoff_delay_bounds :
    (c : RestClient) (attempt k : ℕ)
    → k < 2 ^ 53
    → (3 * base_delay c attempt / 4 ≤ backoff_delay c attempt k)
      × (backoff_delay c attempt k ≤ base_delay c attempt)
      × (base_delay c attempt ≤ c.max_delay)
unfolding backoff_delay
backoff_delay_bounds c attempt k h =
    let (low, high) = jitter_bounds (base_delay c attempt) k h in
    (low, high, base_delay_capped c attempt)

double_power : (a n : ℕ) → a * 2 ^ (suc (suc n) - 1) ≡ 2 * (a * 2 ^ (suc n - 1))
double_power a n =
    let e : suc n - 1 ≡ n = omega arith in
    let f : suc (suc n) - 1 ≡ suc n = omega arith in rw (e, f, pow-suc) (omega arith)

-- The base doubles from one retry to the next, up to the longest delay.
pub base_delay-suc :
    (c : RestClient) (attempt : ℕ)
    → base_delay c (suc (suc attempt)) ≡ (
        if ltb c.max_delay (2 * base_delay c (suc attempt))
        then c.max_delay
        else 2 * base_delay c (suc attempt))
unfolding base_delay
base_delay-suc c attempt = ground (arith, double_power c.initial_delay attempt)
