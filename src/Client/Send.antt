-- ===== src/Client/Send.antt =====
-- `Send` as its callers see it.
use k8s_vectordb_sync.Base.{
  ℕ, suc, ◌+◌, ◌^◌, ◌≤◌, ◌<◌, ◌≡◌, ◌⊎◌, refl, true, false, inl, inr, some, arith, All, ltb,
}
use native.Mathlib.Numerals.{add-one}
use k8s_vectordb_sync.Text.{Text}
use k8s_vectordb_sync.Client.{
  RestClient, bad_request, failed, status, nil, cancelled, exhausted, is_client_error, is_nil,
  do_post, Outside, gives_up, attempts, Payload, PayloadValue, nil_interface, nil_pointer, payload,
  send, nothing_sent,
}
use k8s_vectordb_sync.Client.Retry.{
  is_final, outcome, FailsFor, settled_from, cancelled_from, exhausted_from, attempts_bounds,
}

-- A request is retried exactly if it could not be built or sent, or had a status from 500 on; a
-- status from 400 to 499 is final, and any status below 400 is a success.
pub do_post_lem :
    (code : ℕ)
    → (is_final (do_post bad_request) ≡ false)
      × (is_final (do_post failed) ≡ false)
      × (is_final (do_post (status code)) ≡ ltb code 500)
      × (is_nil (do_post (status code)) ≡ ltb code 400)
unfolding do_post is_client_error
do_post_lem code = (refl, refl, ground arith, ground arith)

module _ {ℓ} {P : Type ℓ} ⦃i : Payload P⦄ (c : RestClient) (o : Outside) where
  -- A nil payload and an empty one are not sent, and are no error.
  pub send-empty :
      (v : PayloadValue P)
      → (v ≡ nil_interface)
        ⊎ (v ≡ nil_pointer)
        ⊎ ((p : P) × (v ≡ payload p) × (i.is_empty p ≡ true))
      → send c o v ≡ nothing_sent nil
  unfolding send
  send-empty v h = elim h [ inl e ↦ rw e | inr (inl e) ↦ rw e | inr (inr (p, e, q)) ↦ rw (e, q) ]

  module _ (p : P) (body : Text) (filled : i.is_empty p ≡ false)
      (marshalled : i.marshal p ≡ some body) where
    send-attempts : send c o (payload p) ≡ attempts c o body (suc c.max_retries) 0 nil
    unfolding send
    send-attempts = rw (filled, marshalled, add-one)

    -- If the attempts before the `n`-th fail in a way that is retried, and that one succeeds or
    -- meets a client error, then `Send` returns its outcome and has made no request after it. The
    -- payload is not empty and can be marshalled.
    pub send-settled :
        (n : ℕ)
        → n ≤ c.max_retries
        → FailsFor o body 0 n
        → gives_up o n ≡ false
        → is_final (outcome o body n) ≡ true
        → ((send c o (payload p)).error ≡ outcome o body n) × ((send c o (payload p)).posts ≡ n + 1)
    send-settled n h w g f =
        rw (send-attempts, add-one)
          (settled_from c o body n (suc c.max_retries) 0 n nil (omega arith) (omega arith) w g f)

    -- If the context is cancelled in the wait before an attempt, and the attempts before failed
    -- in a way that is retried, `Send` says so and makes no further request. The payload is not
    -- empty and can be marshalled.
    pub send-cancelled :
        (n : ℕ)
        → n ≤ c.max_retries
        → FailsFor o body 0 n
        → gives_up o n ≡ true
        → ((send c o (payload p)).error ≡ cancelled) × ((send c o (payload p)).posts ≡ n)
    send-cancelled n h w g =
        rw send-attempts
          (cancelled_from c o body n (suc c.max_retries) 0 n nil (omega arith) (omega arith) w g)

    -- If every attempt fails in a way that is retried, one more request is made than there are
    -- retries, and the error holds the last one. The payload is not empty and can be marshalled.
    pub send-exhausted :
        FailsFor o body 0 (suc c.max_retries)
        → ((send c o (payload p)).error ≡ exhausted c.max_retries (outcome o body c.max_retries))
          × ((send c o (payload p)).posts ≡ c.max_retries + 1)
    send-exhausted w =
        rw (send-attempts, add-one)
          (exhausted_from c o body c.max_retries 0 c.max_retries nil (omega arith) w)

    -- Whatever the server does: never more requests than one and the retries, and never a wait
    -- that is longer than the longest delay. The payload is not empty and can be marshalled.
    pub send_bounds :
        ((k : ℕ) → o.random k < 2 ^ 53)
        → ((send c o (payload p)).posts ≤ c.max_retries + 1)
          × All (λ d. d ≤ c.max_delay) (send c o (payload p)).delays
    send_bounds h =
        rw (send-attempts, add-one) (attempts_bounds c o body (suc c.max_retries) 0 nil h)
