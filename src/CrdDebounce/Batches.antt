-- ===== src/CrdDebounce/Batches.antt =====
-- How many upserts one batch can have, over the critical sections of the buffer.
use k8s_vectordb_sync.Base.{
  ℕ, zero, suc, ◌+◌, ◌≤◌, ◌<◌, ◌≡◌, ◌==◌, refl, sym, ◌∙◌, ap, subst, true, false, none, some, List,
  [], ◌∷◌, arith, length, ◌⊎◌, All, All-append, Bool-cases, Option-cases, inl, inr, if◌then◌else◌,
}
use k8s_vectordb_sync.Base.Int.{pos, leb_ℤ}
use k8s_vectordb_sync.Text.{Text}
use k8s_vectordb_sync.KeyMap.{Visit, lookup, Distinct}
use k8s_vectordb_sync.KeyMap.Laws.{insert-Distinct, delete-Distinct}
use k8s_vectordb_sync.Config.{Config}
use k8s_vectordb_sync.CrdDebounce.{
  PendingCrdChange, CrdDebounceBuffer, new_crd_debounce_buffer, cancel_pending, schedule,
  mark_ready, ready_count, is_full,
}
use k8s_vectordb_sync.CrdDebounce.Collect.{
  ready_names, collect_ready-upserts, collect_ready-Distinct,
}
use k8s_vectordb_sync.CrdDebounce.Counts.{
  ready_count_lem, length-ready_order, ready-delete, ready-insert, left_none_ready,
}
use k8s_vectordb_sync.CrdDebounce.InFlight.{
  Part, cancels, schedules, marks, counts, collects, ticks, InFlight, none_in_flight, collected,
  collect_flushing, enter_part, enter_parts,
}

cancel_pending-few :
    (id : Text) (d : CrdDebounceBuffer)
    → Distinct d.pending
    → let d' = cancel_pending id d in
      Distinct d'.pending
      × (d'.max_batch_size ≡ d.max_batch_size)
      × (length (ready_names d'.pending) ≤ length (ready_names d.pending))
unfolding cancel_pending
cancel_pending-few id d h = elim (Option-cases (lookup id d.pending)) [
  | inl e ↦ rw (e, cancel_pending) (h, refl, omega arith)
  | inr (c, e) ↦
      rw (e, cancel_pending) (delete-Distinct id d.pending h, refl, ready-delete id d.pending)
]

mark_ready-few :
    (id : Text) (gen : ℕ) (d : CrdDebounceBuffer)
    → Distinct d.pending
    → let d' = mark_ready id gen d in
      Distinct d'.pending
      × (d'.max_batch_size ≡ d.max_batch_size)
      × (length (ready_names d'.pending) ≤ length (ready_names d.pending) + 1)
unfolding mark_ready
mark_ready-few id gen d h = elim (Option-cases (lookup id d.pending)) [
  | inl e ↦ rw (e, mark_ready) (h, refl, omega arith)
  | inr (c, e) ↦ elim (Bool-cases (c.gen == gen)) [
    | inr n ↦ rw (e, mark_ready, n) (h, refl, omega arith)
    | inl y ↦
        rw (e, mark_ready, y)
          (
            insert-Distinct id (record c { ready = true }) d.pending h,
            refl,
            ready-insert id (record c { ready = true }) d.pending,
          )
  ]
]

-- Each change that is ready beyond the limit has a callback that is to see it.
record Bounded (m : ℕ) (s : InFlight) : Type 0 where
  distinct : Distinct s.buffer.pending
  size : s.buffer.max_batch_size ≡ pos m
  few : length (ready_names s.buffer.pending) < m + s.counting + s.flushing
  small : All (λ b. length b.1 < m + b.0) s.batches

same : {s t : InFlight} → some s ≡ some t → s ≡ t
same h = ground arith

impossible : {t : InFlight} → none ≡ some t → ⊥
impossible h = ground arith

zero_or_suc : (n : ℕ) → (n ≡ 0) ⊎ ((k : ℕ) × (n ≡ suc k))
zero_or_suc zero = inl refl
zero_or_suc (suc n) = inr (n, refl)

module _ (m : ℕ) (positive : 0 < m) where
  collected-Bounded :
      (visit : Visit PendingCrdChange) (s : InFlight) (n k : ℕ)
      → Bounded m s
      → Bounded m (record (collected visit s) { counting = n; flushing = k })
  collected-Bounded visit s n k b =
      let l = visit.order s.buffer.pending in
      let taken = collect_ready-upserts l s.buffer.pending [] in
      record {
        distinct = collect_ready-Distinct l s.buffer.pending [] b.distinct;
        size = b.size;
        few = rw (left_none_ready visit s.buffer b.distinct) (omega (arith, positive));
        small =
            All-append _ s.batches _ b.small
              (rw taken (omega (arith, b.few, length-ready_order visit s.buffer.pending)), tt);
      }

  not_full :
      (d : CrdDebounceBuffer) → d.max_batch_size ≡ pos m → is_full d ≡ false → ready_count d < m
  not_full d h e = below (ready_count d) (ap (λ z. leb_ℤ z (pos (ready_count d))) (sym h) ∙ e)
    where
      below : (n : ℕ) → leb_ℤ (pos m) (pos n) ≡ false → n < m
      below n h = ground arith

  counted-Bounded :
      (s : InFlight) (n : ℕ)
      → s.counting ≡ suc n
      → Bounded m s
      → Bounded m (
          if is_full s.buffer
          then record s { counting = n; flushing = s.flushing + 1 }
          else record s { counting = n })
  counted-Bounded s n e b = elim (Bool-cases (is_full s.buffer)) [
    | inl full ↦ rw full (record {
      distinct = b.distinct;
      size = b.size;
      few = omega (arith, b.few, e);
      small = b.small;
    })
    | inr more ↦ rw more (record {
      distinct = b.distinct;
      size = b.size;
      few = omega (arith, not_full s.buffer b.size more, ready_count_lem s.buffer);
      small = b.small;
    })
  ]

  part-Bounded : (x : Part) (s t : InFlight) → Bounded m s → enter_part x s ≡ some t → Bounded m t
  unfolding enter_part schedule
  part-Bounded (cancels id) s t b h =
      let (distinct, size, fewer) = cancel_pending-few id s.buffer b.distinct in
      subst (Bounded m) (same h) (record {
        distinct = distinct;
        size = size ∙ b.size;
        few = omega (arith, b.few, fewer);
        small = b.small;
      })
  part-Bounded (schedules i) s t b h = subst (Bounded m) (same h) (record {
    distinct = insert-Distinct i _ s.buffer.pending b.distinct;
    size = b.size;
    few = omega (arith, b.few, ready-insert i _ s.buffer.pending);
    small = b.small;
  })
  part-Bounded (marks id gen) s t b h =
      let (distinct, size, fewer) = mark_ready-few id gen s.buffer b.distinct in
      subst (Bounded m) (same h) (record {
        distinct = distinct;
        size = size ∙ b.size;
        few = omega (arith, b.few, fewer);
        small = b.small;
      })
  part-Bounded counts s t b h = elim (zero_or_suc s.counting) [
    | inl e ↦ absurd (impossible (rw e at h))
    | inr (n, e) ↦ subst (Bounded m) (same (rw e at h)) (counted-Bounded s n e b)
  ]
  part-Bounded (collects visit) s t b h = elim (zero_or_suc s.flushing) [
    | inl e ↦ absurd (impossible (subst (λ k. collect_flushing k visit s ≡ some t) e h))
    | inr (n, e) ↦
        subst (Bounded m) (same (subst (λ k. collect_flushing k visit s ≡ some t) e h))
          (collected-Bounded visit s s.counting n b)
  ]
  part-Bounded (ticks visit) s t b h =
      subst (Bounded m) (same h) (collected-Bounded visit s s.counting s.flushing b)

  parts-Bounded :
      (xs : List Part) (s t : InFlight) → Bounded m s → enter_parts xs s ≡ some t → Bounded m t
  unfolding enter_parts
  parts-Bounded [] s t b h = subst (Bounded m) (same h) b
  parts-Bounded (x ∷ xs) s t b h = elim (Option-cases (enter_part x s)) [
    | inl e ↦ absurd (impossible (rw e at h))
    | inr (u, e) ↦ parts-Bounded xs u t (part-Bounded x s u b e) (rw e at h)
  ]

-- However the critical sections of deletes, upserts, timers and ticks are interleaved from a new
-- buffer with a batch size of at least 1, until `Run` ends: each list of upserts that is collected
-- is shorter than the batch size plus the number of callbacks, one that collects it included, that
-- are then past their first section and have still to count, or to collect after a full count; so
-- is, at any time, the number of changes that are ready.
pub crd_in_flight_batches :
    (cfg : Config) (m : ℕ) (xs : List Part) (t : InFlight)
    → 0 < m
    → cfg.batch_max_size ≡ pos m
    → enter_parts xs (none_in_flight (new_crd_debounce_buffer cfg)) ≡ some t
    → All (λ b. length b.1 < m + b.0) t.batches
      × (ready_count t.buffer < m + t.counting + t.flushing)
unfolding new_crd_debounce_buffer
crd_in_flight_batches cfg m xs t positive size h =
    let start : Bounded m (none_in_flight (new_crd_debounce_buffer cfg)) = record {
      distinct = tt;
      size = size;
      few = omega (arith, positive);
      small = tt;
    } in
    let b = parts-Bounded m positive xs _ t start h in
    (b.small, omega (arith, b.few, ready_count_lem t.buffer))
