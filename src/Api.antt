-- ===== src/Api.antt =====
-- internal/api/server.go: the server, its start, and the handler of the resync endpoint. What
-- net/http does is an argument.
mod Tests
use k8s_vectordb_sync.Base.{
  ℕ, ◌≡◌, refl, Bool, Option, none, some, List, ◌>>=◌, arith, ◌*◌, ◌++◌, ◌↔◌, ◌⊎◌, inl, inr,
  Option-cases,
}
use k8s_vectordb_sync.Base.Int.{ℤ, pos}
use k8s_vectordb_sync.Text.{Text, text}
use k8s_vectordb_sync.Text.Decimal.{decimal}
use k8s_vectordb_sync.Metadata.{Unstructured}
use k8s_vectordb_sync.Watcher.{Gvr, Watcher, trigger_resync}
use k8s_vectordb_sync.Watcher.Emission.{listed_objects, trigger_resync_total}

pub record ResyncResponse : Type 0 where
  pub status : Text
  pub resources : ℕ
  pub message : Text

-- What `TriggerResync` returns: an error, here its text, or a count.
pub data Count : Type 0 where
  failed : Text → Count
  counted : ℕ → Count

-- The interface `Resyncer` on a state; `none` is a call that blocks.
pub record Resyncer {ℓ} (S : Type ℓ) : Type ℓ where
  pub trigger : S → Option (S × Count)

-- What `writeJSON` writes: the status code and the response.
pub record Reply : Type 0 where
  pub code : ℕ
  pub response : ResyncResponse

abbrev pub resynced : ℕ → Text
resynced count = text "resynced " ++ decimal count ++ text " resources"

unfoldable pub respond : Count → Reply
respond (failed err) = record {
  code = 500;
  response = record {
    status = text "error";
    resources = 0;
    message = text "resync failed: " ++ err;
  };
}
respond (counted count) = record {
  code = 200;
  response = record { status = text "ok"; resources = count; message = resynced count };
}

unfoldable pub handle_resync {ℓ} : {S : Type ℓ} ⦃r : Resyncer S⦄ → S → Option (S × Reply)
unfolding respond
handle_resync ⦃r⦄ s = r.trigger s >>= λ (s', count). some (s', respond count)

-- The server: its one route, and the fields of the `http.Server` that it sets.
pub record Server {ℓ} (S : Type ℓ) : Type ℓ where
  pub bind_address : Text
  pub resyncer : Resyncer S
  pub pattern : Text
  pub addr : Text
  pub read_header_timeout : ℤ

unfoldable pub new_server {ℓ} : {S : Type ℓ} → Text → Resyncer S → Server S
new_server bind_address resyncer = record {
  bind_address = bind_address;
  resyncer = resyncer;
  pattern = text "POST /api/v1/resync";
  addr = bind_address;
  read_header_timeout = pos (10 * 1000000000);
}

-- What `http.Server.Serve` returns: nil, the error of a server that was shut down, or another.
pub data Served : Type 0 where
  served closed : Served
  serve_failed : Text → Served

abbrev serve_error : Served → Option Text
serve_error served = none
serve_error closed = none
serve_error (serve_failed err) = some (text "serving: " ++ err)

-- `Start`: the text of the error, `none` for nil. `listen` is what `net.Listen` answers for an
-- address, `none` for a listener; the goroutine shuts the server down when the context is done.
unfoldable pub start {ℓ} : {S : Type ℓ} → (Text → Option Text) → Served → Server S → Option Text
start listen outcome s = elim (listen s.bind_address) [
  | some err ↦ some (text "listening on " ++ s.bind_address ++ text ": " ++ err)
  | none ↦ serve_error outcome
]

-- `Start` ends without an error exactly if the server could listen on the address that it was given
-- and `Serve` has ended without an error, or because the server was shut down.
pub start_iff {ℓ} :
    {S : Type ℓ} (listen : Text → Option Text) (outcome : Served) (addr : Text) (r : Resyncer S)
    → (start listen outcome (new_server addr r) ≡ none)
      ↔ ((listen addr ≡ none) × ((outcome ≡ served) ⊎ (outcome ≡ closed)))
unfolding start new_server
start_iff listen outcome addr r = elim (Option-cases (listen addr)) [
  | inl e ↦ rw (e, start) (returned outcome)
  | inr (err, e) ↦ rw (e, start) (λ h. absurd (ground arith), λ (h, _). absurd (ground arith))
]
  where
    returned :
        (o : Served)
        → (serve_error o ≡ none)
          ↔ ((◌≡◌ {A = Option Text} none none) × ((o ≡ served) ⊎ (o ≡ closed)))
    returned served = (λ h. (refl, inl refl), λ h. refl)
    returned closed = (λ h. (refl, inr refl), λ h. refl)
    returned (serve_failed err) = (
      λ h. absurd (ground arith),
      λ (_, h). elim h [ inl e ↦ absurd (ground arith) | inr e ↦ absurd (ground arith) ],
    )

-- The watcher, which `main` hands to the server. Its error is always nil.
abbrev pub watcher_resyncer : (ℕ → Bool) → (Gvr → Option (List Unstructured)) → Resyncer Watcher
watcher_resyncer choices list = record {
  trigger = λ w. trigger_resync choices list w >>= λ (w', total). some (w', counted total);
}

-- With the watcher behind it, the endpoint always answers, with status 200 and the number of all
-- objects that could be listed, also when lists have failed and when events have been dropped.
pub handle_resync_lem :
    (choices : ℕ → Bool) (list : Gvr → Option (List Unstructured)) (w : Watcher)
    → let total = listed_objects list w.watched_gvrs in
      (t : Watcher) × (handle_resync ⦃r = watcher_resyncer choices list⦄ w
        ≡ some (
          t,
          record {
            code = 200;
            response = record { status = text "ok"; resources = total; message = resynced total };
          },
        ))
unfolding handle_resync
handle_resync_lem choices list w =
    let (t, e) = trigger_resync_total choices list w in (t, rw e refl)
