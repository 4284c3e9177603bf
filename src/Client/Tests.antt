-- ===== src/Client/Tests.antt =====
-- The client at concrete replies.
use k8s_vectordb_sync.Base.{
  ℕ, ◌≤◌, ◌≡◌, refl, arith, true, false, inl, inr, some, [], ◌∷◌, All, ltb, if◌then◌else◌,
}
use k8s_vectordb_sync.Base.Int.{pos, negsuc}
use k8s_vectordb_sync.Text.{Text, text}
use k8s_vectordb_sync.Client.{
  RestClient, with_retry, apply_option, apply_options, new, Exchange, status, nil, cancelled,
  server_error, exhausted, do_post, is_client_error, Outside, Payload, nil_pointer, payload, send,
  nothing_sent,
}
use k8s_vectordb_sync.Client.Send.{
  send-empty, send-settled, send-cancelled, send-exhausted, send_bounds,
}

abbrev client : RestClient
client = record {
  endpoint = text "http://localhost";
  timeout = pos 30000000000;
  max_retries = 2;
  initial_delay = 1000;
  max_delay = 1500;
}

-- A payload that is a text and its own body.
instance text_payload : Payload Text
text_payload = record { is_empty = λ p. false; marshal = λ p. some p }

-- The first attempts fail with the status 503; the reply to the attempt `n` and to the later ones
-- is 200.
abbrev answer_from : ℕ → ℕ → Text → Exchange
answer_from n attempt body = if ltb attempt n then status 503 else status 200

abbrev recovers : Outside
recovers = record { reply = answer_from 1; cancelled_before = λ k. false; random = λ k. 0 }

abbrev interrupted : Outside
interrupted = record { reply = answer_from 9; cancelled_before = λ k. true; random = λ k. 0 }

abbrev overloaded : Outside
overloaded = record { reply = answer_from 9; cancelled_before = λ k. false; random = λ k. 0 }

options_kept : new [] (with_retry (negsuc 0) (pos 9) (pos 4) ∷ []) ≡ record {
  endpoint = [];
  timeout = pos 30000000000;
  max_retries = 3;
  initial_delay = 4;
  max_delay = 4;
}
unfolding new apply_options apply_option
options_kept = refl

send-empty_example : send {P = Text} client recovers nil_pointer ≡ nothing_sent nil
send-empty_example = send-empty client recovers nil_pointer (inr (inl refl))

send-settled_example :
    ((send client recovers (payload (text "{}"))).error ≡ nil)
    × ((send client recovers (payload (text "{}"))).posts ≡ 2)
unfolding do_post is_client_error text_payload
send-settled_example =
    send-settled client recovers (text "{}") (text "{}") refl refl 1 (omega arith) (refl, refl, tt)
      refl refl

send-cancelled_example :
    ((send client interrupted (payload (text "{}"))).error ≡ cancelled)
    × ((send client interrupted (payload (text "{}"))).posts ≡ 1)
unfolding do_post is_client_error text_payload
send-cancelled_example =
    send-cancelled client interrupted (text "{}") (text "{}") refl refl 1 (omega arith)
      (refl, refl, tt) refl

send-exhausted_example :
    ((send client overloaded (payload (text "{}"))).error ≡ exhausted 2 (server_error 503))
    × ((send client overloaded (payload (text "{}"))).posts ≡ 3)
unfolding do_post is_client_error text_payload
send-exhausted_example =
    send-exhausted client overloaded (text "{}") (text "{}") refl refl
      (refl, refl, (refl, refl, (refl, refl, tt)))

send_bounds_example :
    ((send client overloaded (payload (text "{}"))).posts ≤ 3)
    × All (λ d. d ≤ 1500) (send client overloaded (payload (text "{}"))).delays
unfolding text_payload
send_bounds_example =
    send_bounds client overloaded (text "{}") (text "{}") refl refl (λ k. omega arith)
