-- ===== src/CrdDebounce/Generations.antt =====
-- The generations of the buffer, over any interleaving of the critical sections under `pendingMu`.
use k8s_vectordb_sync.Base.{
  ℕ, ◌+◌, ◌%◌, ◌^◌, ◌≤◌, ◌<◌, ◌≡◌, ◌≢◌, refl, true, some, List, [], ◌∷◌, ◌++◌, arith, ◌==◌, length,
  Bool-cases, Option-cases, inl, inr,
}
use k8s_vectordb_sync.Text.{Text, text_eq, text_eq_iff, text_eq_refl}
use k8s_vectordb_sync.KeyMap.{KeyMap, Visit, lookup, insert, delete}
use k8s_vectordb_sync.KeyMap.Laws.{lookup-insert, lookup-delete}
use k8s_vectordb_sync.Runtime.Timers.{stop}
use k8s_vectordb_sync.CrdDebounce.{
  PendingCrdChange, CrdDebounceBuffer, cancel_pending, new_change, schedule, mark_ready,
  collect_ready, collect_all, stop_existing,
}

-- The critical sections of `handleEvent`, of a timer's callback and of the two flushes.
pub data PendingSection : Type 0 where
  cancel add : Text → PendingSection
  mark : Text → ℕ → PendingSection
  flush drain : Visit PendingCrdChange → PendingSection

unfoldable pub enter : PendingSection → CrdDebounceBuffer → CrdDebounceBuffer
enter (cancel name) d = cancel_pending name d
enter (add name) d = schedule name d
enter (mark name gen) d = mark_ready name gen d
enter (flush visit) d = record d {
  pending = (collect_ready (visit.order d.pending) d.pending []).0;
}
enter (drain visit) d = (collect_all (visit.order d.pending) d []).0

unfoldable pub enter_sections : List PendingSection → CrdDebounceBuffer → CrdDebounceBuffer
enter_sections [] d = d
enter_sections (x ∷ xs) d = enter_sections xs (enter x d)

-- No entry under the name has the generation.
abbrev pub Without : Text → ℕ → KeyMap PendingCrdChange → Type 0
Without name g m = (c : PendingCrdChange) → lookup name m ≡ some c → c.gen ≢ g

-- The generation is an old one of an entry that is gone or was replaced.
abbrev pub Superseded : Text → ℕ → CrdDebounceBuffer → Type 0
Superseded name g d = (g ≤ d.next_gen) × Without name g d.pending

Without-delete :
    (name : Text) (g : ℕ) (k : Text) (m : KeyMap PendingCrdChange)
    → Without name g m
    → Without name g (delete k m)
Without-delete name g k m h c e = h c (ground (arith, lookup-delete k name m))

Without-insert :
    (name : Text) (g : ℕ) (k : Text) (x : PendingCrdChange) (m : KeyMap PendingCrdChange)
    → (text_eq k name ≡ true → x.gen ≢ g)
    → Without name g m
    → Without name g (insert k x m)
Without-insert name g k x m new h c e = elim (Bool-cases (text_eq k name)) [
  | inl same ↦ λ f. new same (ground (arith, lookup-insert k name x m))
  | inr other ↦ h c (ground (arith, lookup-insert k name x m))
]

Without-collect_ready :
    (name : Text) (g : ℕ) (l m : KeyMap PendingCrdChange) (us : List Text)
    → Without name g m
    → Without name g (collect_ready l m us).0
unfolding collect_ready
Without-collect_ready name g [] m us h = h
Without-collect_ready name g ((k, x) ∷ l) m us h = elim (Bool-cases x.ready) [
  | inl r ↦ rw r (Without-collect_ready name g l (delete k m) _ (Without-delete name g k m h))
  | inr w ↦ rw w (Without-collect_ready name g l m us h)
]

Superseded-collect_all :
    (name : Text) (g : ℕ) (l : KeyMap PendingCrdChange) (d : CrdDebounceBuffer) (us : List Text)
    → Superseded name g d
    → Superseded name g (collect_all l d us).0 × ((collect_all l d us).0.next_gen ≡ d.next_gen)
unfolding collect_all
Superseded-collect_all name g [] d us h = (h, refl)
Superseded-collect_all name g ((k, x) ∷ l) d us h =
    Superseded-collect_all name g l
      (record d { timers = stop x.timer d.timers; pending = delete k d.pending })
      (us ++ x.crd_name ∷ []) (h.0, Without-delete name g k d.pending h.1)

Superseded-cancel_pending :
    (name : Text) (g : ℕ) (k : Text) (d : CrdDebounceBuffer)
    → Superseded name g d
    → Superseded name g (cancel_pending k d) × ((cancel_pending k d).next_gen ≡ d.next_gen)
unfolding cancel_pending
Superseded-cancel_pending name g k d h = elim (Option-cases (lookup k d.pending)) [
  | inl e ↦ rw (e, cancel_pending) (h, refl)
  | inr (c, e) ↦ rw (e, cancel_pending) ((h.0, Without-delete name g k d.pending h.1), refl)
]

Superseded-schedule :
    (name : Text) (g : ℕ) (k : Text) (d : CrdDebounceBuffer)
    → d.next_gen + 1 < 2 ^ 64
    → Superseded name g d
    → Superseded name g (schedule k d) × ((schedule k d).next_gen ≡ d.next_gen + 1)
unfolding schedule
Superseded-schedule name g k d room h =
    let next : (d.next_gen + 1) % 2 ^ 64 ≡ d.next_gen + 1 = omega arith in
    (
      (omega (arith, h.0), Without-insert name g k _ d.pending (λ e f. omega (arith, h.0)) h.1),
      next,
    )

Superseded-mark_ready :
    (name : Text) (g : ℕ) (k : Text) (gen : ℕ) (d : CrdDebounceBuffer)
    → Superseded name g d
    → Superseded name g (mark_ready k gen d) × ((mark_ready k gen d).next_gen ≡ d.next_gen)
unfolding mark_ready
Superseded-mark_ready name g k gen d h = elim (Option-cases (lookup k d.pending)) [
  | inl e ↦ rw (e, mark_ready) (h, refl)
  | inr (c, e) ↦ elim (Bool-cases (c.gen == gen)) [
    | inl y ↦
        rw (e, mark_ready, y)
          (
            (
              h.0,
              Without-insert name g k (record c { ready = true }) d.pending
                  (λ same. h.1 c (ground (arith, text_eq_iff k name))) h.1,
            ),
            refl,
          )
    | inr n ↦ rw (e, mark_ready, n) (h, refl)
  ]
]

Superseded-enter :
    (name : Text) (g : ℕ) (x : PendingSection) (d : CrdDebounceBuffer)
    → d.next_gen + 1 < 2 ^ 64
    → Superseded name g d
    → Superseded name g (enter x d) × ((enter x d).next_gen ≤ d.next_gen + 1)
unfolding enter
Superseded-enter name g (cancel k) d room h =
    let (s, e) = Superseded-cancel_pending name g k d h in (s, omega (arith, e))
Superseded-enter name g (add k) d room h =
    let (s, e) = Superseded-schedule name g k d room h in (s, omega (arith, e))
Superseded-enter name g (mark k gen) d room h =
    let (s, e) = Superseded-mark_ready name g k gen d h in (s, omega (arith, e))
Superseded-enter name g (flush visit) d room h =
    ((h.0, Without-collect_ready name g (visit.order d.pending) d.pending [] h.1), omega arith)
Superseded-enter name g (drain visit) d room h =
    let (s, e) = Superseded-collect_all name g (visit.order d.pending) d [] h in
    (s, omega (arith, e))

Superseded-enter_sections :
    (name : Text) (g : ℕ) (xs : List PendingSection) (d : CrdDebounceBuffer)
    → d.next_gen + length xs < 2 ^ 64
    → Superseded name g d
    → Superseded name g (enter_sections xs d)
unfolding enter_sections
Superseded-enter_sections name g [] d room h = h
Superseded-enter_sections name g (x ∷ xs) d room h =
    let (s, e) = Superseded-enter name g x d (omega arith) h in
    Superseded-enter_sections name g xs (enter x d) (omega (arith, e)) s

mark_ready-Superseded :
    (name : Text) (g : ℕ) (d : CrdDebounceBuffer) → Superseded name g d → mark_ready name g d ≡ d
unfolding mark_ready
mark_ready-Superseded name g d h = elim (Option-cases (lookup name d.pending)) [
  | inl e ↦ rw (e, mark_ready)
  | inr (c, e) ↦ elim (Bool-cases (c.gen == g)) [
    | inl y ↦ absurd (h.1 c e (ground arith))
    | inr n ↦ rw (e, mark_ready, n)
  ]
]

-- The entry of an add has the counter as its generation.
gen-schedule :
    (name : Text) (d : CrdDebounceBuffer) (c : PendingCrdChange)
    → lookup name (schedule name d).pending ≡ some c
    → c.gen ≡ (schedule name d).next_gen
unfolding schedule
gen-schedule name d c h =
    let timers = stop_existing (lookup name d.pending) d.timers in
    let x = new_change name ((d.next_gen + 1) % 2 ^ 64) timers in
    ground (arith, lookup-insert name name x d.pending, text_eq_refl name)

cancelled_Without :
    (name : Text) (g : ℕ) (d : CrdDebounceBuffer) → Without name g (cancel_pending name d).pending
unfolding cancel_pending
cancelled_Without name g d = elim (Option-cases (lookup name d.pending)) [
  | inl e ↦ rw (e, cancel_pending) (λ c h. absurd (ground arith))
  | inr (c, e) ↦
      rw (e, cancel_pending)
        (λ x h. absurd (ground (arith, lookup-delete name name d.pending, text_eq_refl name)))
]

next_gen-cancel_pending :
    (name : Text) (d : CrdDebounceBuffer) → (cancel_pending name d).next_gen ≡ d.next_gen
unfolding cancel_pending
next_gen-cancel_pending name d = elim (Option-cases (lookup name d.pending)) [
  | inl e ↦ rw (e, cancel_pending)
  | inr (c, e) ↦ rw (e, cancel_pending)
]

next_gen-schedule :
    (name : Text) (d : CrdDebounceBuffer)
    → d.next_gen + 1 < 2 ^ 64
    → (schedule name d).next_gen ≡ d.next_gen + 1
unfolding schedule
next_gen-schedule name d room = omega arith

replaced_Superseded :
    (name : Text) (d : CrdDebounceBuffer)
    → d.next_gen + 1 < 2 ^ 64
    → Superseded name d.next_gen (schedule name d)
replaced_Superseded name d room =
    let next = next_gen-schedule name d room in
    (omega (arith, next), λ c h e. omega (arith, next, gen-schedule name d c h))

ignored_after :
    (name : Text) (g : ℕ) (xs : List PendingSection) (d : CrdDebounceBuffer)
    → d.next_gen + length xs < 2 ^ 64
    → Superseded name g d
    → mark_ready name g (enter_sections xs d) ≡ enter_sections xs d
ignored_after name g xs d room h =
    mark_ready-Superseded name g _ (Superseded-enter_sections name g xs d room h)

-- Once a name has been deleted or added again, the callback of its earlier timer does nothing when
-- it gets the mutex, whatever critical sections have been entered in between, adds of the same name
-- included, as long as the counter does not wrap around.
pub stale_callback_ignored :
    (name : Text) (xs : List PendingSection) (d : CrdDebounceBuffer) (c : PendingCrdChange)
    → d.next_gen + length xs + 2 < 2 ^ 64
    → lookup name (schedule name d).pending ≡ some c
    → let deleted = enter_sections xs (cancel_pending name (schedule name d)) in
      let replaced = enter_sections xs (schedule name (schedule name d)) in
      (mark_ready name c.gen deleted ≡ deleted) × (mark_ready name c.gen replaced ≡ replaced)
stale_callback_ignored name xs d c room h =
    let armed = schedule name d in
    let first = next_gen-schedule name d (omega arith) in
    let again = next_gen-schedule name armed (omega (arith, first)) in
    let gone = next_gen-cancel_pending name armed in
    rw (gen-schedule name d c h) (
      ignored_after name armed.next_gen xs (cancel_pending name armed) (omega (arith, first, gone))
          (omega (arith, gone), cancelled_Without name armed.next_gen armed),
      ignored_after name armed.next_gen xs (schedule name armed) (omega (arith, first, again))
          (replaced_Superseded name armed (omega (arith, first))),
    )
