-- ===== src/Client/Retry.antt =====
-- How many requests `Send` makes, and what it returns.
use k8s_vectordb_sync.Base.{
  ℕ, zero, suc, ◌+◌, ◌^◌, ◌≤◌, ◌<◌, ◌≡◌, refl, ap, ◌∙◌, Bool, true, false, ◌||◌, arith, All,
}
use k8s_vectordb_sync.Text.{Text}
use k8s_vectordb_sync.Client.{
  RestClient, GoError, cancelled, exhausted, is_nil, is_client_error, do_post, Outside, Sent,
  posted, waited, gives_up, attempts,
}
use k8s_vectordb_sync.Client.Backoff.{backoff_delay_bounds}

-- The outcome ends the loop: a success or a client error.
abbrev pub is_final : GoError → Bool
is_final err = is_nil err || is_client_error err

abbrev pub outcome : Outside → Text → ℕ → GoError
outcome o body attempt = do_post (o.reply attempt body)

-- The `n` attempts from number `a` on fail in a way that is retried, and the context is not
-- cancelled before any of them.
abbrev pub FailsFor : Outside → Text → ℕ → ℕ → Type 0
FailsFor o body a zero = Unit
FailsFor o body a (suc n) =
    (gives_up o a ≡ false) × (is_final (outcome o body a) ≡ false) × FailsFor o body (suc a) n

waited_fields :
    (c : RestClient) (o : Outside) (a : ℕ) (r : Sent)
    → ((waited c o a r).error ≡ r.error) × ((waited c o a r).posts ≡ r.posts)
waited_fields c o zero r = (refl, refl)
waited_fields c o (suc a) r = (refl, refl)

module _ (c : RestClient) (o : Outside) (body : Text) where
  -- One round that fails and is retried.
  attempts-retry :
      (left a : ℕ) (last_err : GoError)
      → gives_up o a ≡ false
      → is_final (outcome o body a) ≡ false
      → let r = attempts c o body (suc left) a last_err in
        let s = attempts c o body left (suc a) (outcome o body a) in
        (r.error ≡ s.error) × (r.posts ≡ suc s.posts)
  unfolding attempts
  attempts-retry left a last_err g f =
      rw (g, f) (waited_fields c o a (posted (attempts c o body left (suc a) (outcome o body a))))

  attempts-final :
      (left a : ℕ) (last_err : GoError)
      → gives_up o a ≡ false
      → is_final (outcome o body a) ≡ true
      → let r = attempts c o body (suc left) a last_err in
        (r.error ≡ outcome o body a) × (r.posts ≡ 1)
  unfolding attempts
  attempts-final left a last_err g f = rw (g, f) (waited_fields c o a _)

  attempts-cancelled :
      (left a : ℕ) (last_err : GoError)
      → gives_up o a ≡ true
      → let r = attempts c o body (suc left) a last_err in (r.error ≡ cancelled) × (r.posts ≡ 0)
  unfolding attempts
  attempts-cancelled left a last_err g = rw g (waited_fields c o a _)

  pub settled_from :
      (n left a b : ℕ) (last_err : GoError)
      → b ≡ a + n
      → n < left
      → FailsFor o body a n
      → gives_up o b ≡ false
      → is_final (outcome o body b) ≡ true
      → let r = attempts c o body left a last_err in
        (r.error ≡ outcome o body b) × (r.posts ≡ suc n)
  settled_from n zero a b last_err e h w g f = absurd (omega arith)
  settled_from zero (suc left) a b last_err e h w g f =
      let same : b ≡ a = omega arith in
      rw same (attempts-final left a last_err (rw same at g) (rw same at f))
  settled_from (suc n) (suc left) a b last_err e h (p, q, w) g f =
      let (x, y) =
        settled_from n left (suc a) b (outcome o body a) (omega arith) (omega arith) w g f in
      let (x', y') = attempts-retry left a last_err p q in (x' ∙ x, y' ∙ ap suc y)

  pub cancelled_from :
      (n left a b : ℕ) (last_err : GoError)
      → b ≡ a + n
      → n < left
      → FailsFor o body a n
      → gives_up o b ≡ true
      → let r = attempts c o body left a last_err in (r.error ≡ cancelled) × (r.posts ≡ n)
  cancelled_from n zero a b last_err e h w g = absurd (omega arith)
  cancelled_from zero (suc left) a b last_err e h w g =
      let same : b ≡ a = omega arith in attempts-cancelled left a last_err (rw same at g)
  cancelled_from (suc n) (suc left) a b last_err e h (p, q, w) g =
      let (x, y) =
        cancelled_from n left (suc a) b (outcome o body a) (omega arith) (omega arith) w g in
      let (x', y') = attempts-retry left a last_err p q in (x' ∙ x, y' ∙ ap suc y)

  pub exhausted_from :
      (left a b : ℕ) (last_err : GoError)
      → b ≡ a + left
      → FailsFor o body a (suc left)
      → let r = attempts c o body (suc left) a last_err in
        (r.error ≡ exhausted c.max_retries (outcome o body b)) × (r.posts ≡ suc left)
  unfolding attempts
  exhausted_from zero a b last_err e (p, q, w) =
      let same : b ≡ a = omega arith in rw same (attempts-retry zero a last_err p q)
  exhausted_from (suc left) a b last_err e (p, q, w) =
      let (x, y) = exhausted_from left (suc a) b (outcome o body a) (omega arith) w in
      let (x', y') = attempts-retry (suc left) a last_err p q in (x' ∙ x, y' ∙ ap suc y)

  pub attempts_bounds :
      (left a : ℕ) (last_err : GoError)
      → ((k : ℕ) → o.random k < 2 ^ 53)
      → let r = attempts c o body left a last_err in
        (r.posts ≤ left) × All (λ d. d ≤ c.max_delay) r.delays
  unfolding attempts
  attempts_bounds zero a last_err h = (omega arith, tt)
  attempts_bounds (suc left) zero last_err h =
      ground (arith, attempts_bounds left 1 (outcome o body 0) h)
  attempts_bounds (suc left) (suc a) last_err h = ground (
    arith,
    attempts_bounds left (suc (suc a)) (outcome o body (suc a)) h,
    backoff_delay_bounds c (suc a) (o.random (suc a)) (h (suc a)),
  )
