-- ===== src/CrdDebounce/Collect.antt =====
-- What a flush takes out of the pending map, and what the receiver makes of it.
use k8s_vectordb_sync.Base.{
  ◌≡◌, refl, sym, ◌∙◌, Bool, true, false, Option, none, some, List, [], ◌∷◌, ◌++◌, arith,
  if◌then◌else◌, Bool-cases, inl, inr,
}
use mathlib.Core.List.{append_assoc, append-nil}
use k8s_vectordb_sync.Text.{Text, text_eq_iff, text_eq_refl}
use k8s_vectordb_sync.KeyMap.{KeyMap, lookup, delete, Distinct}
use k8s_vectordb_sync.KeyMap.Laws.{lookup-delete, delete-Distinct}
use k8s_vectordb_sync.Store.{Store, put, apply_upserts}
use k8s_vectordb_sync.Runtime.Timers.{stop}
use k8s_vectordb_sync.CrdDebounce.{CrdDebounceBuffer, PendingCrdChange, collect_ready, collect_all}

abbrev pub id_of : Text → Text
id_of name = name

-- An entry stands under the identifier of its instance.
abbrev pub Keyed : KeyMap PendingCrdChange → Type 0
Keyed m = (k : Text) (c : PendingCrdChange) → lookup k m ≡ some c → c.crd_name ≡ k

-- The names of the entries that are ready.
abbrev pub ready_names : KeyMap PendingCrdChange → List Text
ready_names [] = []
ready_names ((id, c) ∷ m) = if c.ready then c.crd_name ∷ ready_names m else ready_names m

abbrev pub names : KeyMap PendingCrdChange → List Text
names [] = []
names ((id, c) ∷ m) = c.crd_name ∷ names m

-- What the receiver will hold once the pending changes have reached it.
abbrev pub overlay : KeyMap PendingCrdChange → Store Text → Store Text
overlay m s k = elim (lookup k m) [ none ↦ s k | some c ↦ some c.crd_name ]

abbrev is_ready : Option PendingCrdChange → Bool
is_ready none = false
is_ready (some c) = c.ready

pub collect_ready-upserts :
    (l pending : KeyMap PendingCrdChange) (upserts : List Text)
    → (collect_ready l pending upserts).1 ≡ upserts ++ ready_names l
unfolding collect_ready
collect_ready-upserts [] pending upserts = sym (append-nil upserts)
collect_ready-upserts ((id, c) ∷ l) pending upserts = elim (Bool-cases c.ready) [
  | inl r ↦ rw r (
      collect_ready-upserts l (delete id pending) (upserts ++ c.crd_name ∷ [])
      ∙ append_assoc upserts _ _)
  | inr w ↦ rw w (collect_ready-upserts l pending upserts)
]

pub lookup-collect_ready :
    (k : Text) (l pending : KeyMap PendingCrdChange) (upserts : List Text)
    → Distinct l
    → lookup k (collect_ready l pending upserts).0
      ≡ (if is_ready (lookup k l) then none else lookup k pending)
unfolding collect_ready lookup
lookup-collect_ready k [] pending upserts d = refl
lookup-collect_ready k ((id, c) ∷ l) pending upserts d = ground (
  arith,
  text_eq_iff id k,
  lookup-delete id k pending,
  lookup-collect_ready k l (delete id pending) (upserts ++ c.crd_name ∷ []) d.1,
  lookup-collect_ready k l pending upserts d.1,
)

pub collect_ready-Distinct :
    (l pending : KeyMap PendingCrdChange) (upserts : List Text)
    → Distinct pending
    → Distinct (collect_ready l pending upserts).0
unfolding collect_ready
collect_ready-Distinct [] pending upserts d = d
collect_ready-Distinct ((id, c) ∷ l) pending upserts d = elim (Bool-cases c.ready) [
  | inl r ↦ rw r (collect_ready-Distinct l (delete id pending) _ (delete-Distinct id pending d))
  | inr w ↦ rw w (collect_ready-Distinct l pending _ d)
]

Keyed-tail :
    (id : Text) (c : PendingCrdChange) (l : KeyMap PendingCrdChange)
    → Distinct ((id, c) ∷ l)
    → Keyed ((id, c) ∷ l)
    → Keyed l
unfolding lookup
Keyed-tail id c l d h k x e = ground (arith, h k x, text_eq_iff id k)

pub apply-ready_names :
    (k : Text) (l : KeyMap PendingCrdChange) (s : Store Text)
    → Distinct l
    → Keyed l
    → apply_upserts id_of (ready_names l) s k
      ≡ (if is_ready (lookup k l) then overlay l s k else s k)
unfolding apply_upserts lookup
apply-ready_names k [] s d h = refl
apply-ready_names k ((id, c) ∷ l) s d h = ground (
  arith,
  text_eq_iff id k,
  h id c,
  text_eq_refl id,
  apply-ready_names k l s d.1 (Keyed-tail id c l d h),
  apply-ready_names k l (put c.crd_name c.crd_name s) d.1 (Keyed-tail id c l d h),
)

-- The final flush takes everything, in the order of the visit, and leaves the channel alone.
pub collect_all-upserts :
    (l : KeyMap PendingCrdChange) (d : CrdDebounceBuffer) (upserts : List Text)
    → ((collect_all l d upserts).1 ≡ upserts ++ names l)
      × ((collect_all l d upserts).0.payloads ≡ d.payloads)
      × ((collect_all l d upserts).0.payloads_closed ≡ d.payloads_closed)
unfolding collect_all
collect_all-upserts [] d upserts = (sym (append-nil upserts), refl, refl)
collect_all-upserts ((id, c) ∷ l) d upserts =
    let (u, p, q) = collect_all-upserts l _ (upserts ++ c.crd_name ∷ []) in
    (u ∙ append_assoc upserts _ _, p, q)

abbrev pub is_some {ℓ} : {A : Type ℓ} → Option A → Bool
is_some none = false
is_some (some a) = true

pub lookup-collect_all :
    (k : Text) (l : KeyMap PendingCrdChange) (d : CrdDebounceBuffer) (upserts : List Text)
    → lookup k (collect_all l d upserts).0.pending
      ≡ (if is_some (lookup k l) then none else lookup k d.pending)
unfolding collect_all lookup
lookup-collect_all k [] d upserts = refl
lookup-collect_all k ((id, c) ∷ l) d upserts = ground (
  arith,
  text_eq_iff id k,
  lookup-delete id k d.pending,
  lookup-collect_all k l
      (record d { timers = stop c.timer d.timers; pending = delete id d.pending })
      (upserts ++ c.crd_name ∷ []),
)

pub apply-names :
    (k : Text) (l : KeyMap PendingCrdChange) (s : Store Text)
    → Distinct l
    → Keyed l
    → apply_upserts id_of (names l) s k ≡ overlay l s k
unfolding apply_upserts lookup
apply-names k [] s d h = refl
apply-names k ((id, c) ∷ l) s d h = ground (
  arith,
  text_eq_iff id k,
  h id c,
  text_eq_refl id,
  apply-names k l (put c.crd_name c.crd_name s) d.1 (Keyed-tail id c l d h),
)

-- A map in which nothing is found is empty.
pub nil_of_lookup {ℓ} : {V : Type ℓ} (m : KeyMap V) → ((k : Text) → lookup k m ≡ none) → m ≡ []
unfolding lookup
nil_of_lookup [] h = refl
nil_of_lookup ((k, v) ∷ m) h = ground (arith, h k, text_eq_refl k)
