-- ===== src/Runtime/Armed.antt =====
-- A map of changes that wait for timers: what the map and the armed timers have to do with each other.
use k8s_vectordb_sync.Base.{
  ℕ, ◌<◌, ◌≡◌, ◌≢◌, ◌⊎◌, refl, sym, ◌∙◌, ap, Bool, false, none, some, List, [], ◌∷◌, arith, ◌==◌,
  Bool-cases, inl, inr, if◌then◌else◌,
}
use k8s_vectordb_sync.Base.Int.{ℤ}
use k8s_vectordb_sync.Text.{Text, text_eq, text_eq_iff}
use k8s_vectordb_sync.KeyMap.{KeyMap, lookup, insert, delete}
use k8s_vectordb_sync.KeyMap.Laws.{lookup-insert, lookup-delete}
use k8s_vectordb_sync.Runtime.Timers.{Timer, Timers, after_func, stop, find, remove}

-- A change that waits: the handle of its timer, whether that has fired, and its generation.
pub record Waiting (A : Type 0) : Type 0 where
  pub timer : A → ℕ
  pub ready : A → Bool
  pub gen : A → ℕ

find-remove_other : (h k : ℕ) (ts : List Timer) → h ≢ k → find h (remove k ts) ≡ find h ts
unfolding find remove
find-remove_other h k [] ne = refl
find-remove_other h k (x ∷ ts) ne = ground (arith, find-remove_other h k ts)

find-remove-some :
    (h k : ℕ) (ts : List Timer) (x : Timer)
    → find h (remove k ts) ≡ some x
    → (y : Timer) × (find h ts ≡ some y)
unfolding find remove
find-remove-some h k [] x e = absurd (ground arith)
find-remove-some h k (y ∷ ts) x e = elim (Bool-cases (y.handle == h)) [
  | inl here ↦ (y, rw here)
  | inr later ↦ elim (Bool-cases (y.handle == k)) [
    | inl cut ↦ (x, rw later (rw cut at e))
    | inr kept ↦ rw later (find-remove-some h k ts x (ground arith))
  ]
]

pub different : (i j : Text) → text_eq i j ≡ false → i ≢ j
different i j h e = ground (arith, text_eq_iff i j)

module _ {A : Type 0} (p : Waiting A) (window : ℤ) where
  -- The timer of a pending change.
  abbrev pub timer_of : Text → A → Timer
  timer_of id c = record { handle = p.timer c; delay = window; key = id; gen = p.gen c }

  -- Each change that is not ready waits for a timer that is armed and captured its identifier and
  -- generation; handles are not used twice.
  pub record IsArmed (m : KeyMap A) (t : Timers) : Type 0 where
    pub known : (h : ℕ) (x : Timer) → find h t.armed ≡ some x → h < t.next_handle
    pub waits :
        (id : Text) (c : A)
        → lookup id m ≡ some c
        → p.ready c ≡ false
        → find (p.timer c) t.armed ≡ some (timer_of id c)
    pub owned : (id : Text) (c : A) → lookup id m ≡ some c → p.timer c < t.next_handle
    pub apart :
        (i j : Text) (x y : A)
        → lookup i m ≡ some x
        → lookup j m ≡ some y
        → p.timer x ≡ p.timer y
        → i ≡ j

  -- Fewer entries, the same timers.
  pub IsArmed-sub :
      (m m' : KeyMap A) (t : Timers)
      → ((k : Text) (c : A) → lookup k m' ≡ some c → lookup k m ≡ some c)
      → IsArmed m t
      → IsArmed m' t
  IsArmed-sub m m' t sub a = record {
    known = a.known;
    waits = λ id c e r. a.waits id c (sub id c e) r;
    owned = λ id c e. a.owned id c (sub id c e);
    apart = λ i j x y e f. a.apart i j x y (sub i x e) (sub j y f);
  }

  sub-delete :
      (id k : Text) (m : KeyMap A) (c : A)
      → lookup k (delete id m) ≡ some c
      → (lookup k m ≡ some c) × (text_eq id k ≡ false)
  sub-delete id k m c e = ground (arith, lookup-delete id k m)

  -- An entry is deleted and its timer stopped.
  pub IsArmed-cancel :
      (id : Text) (m : KeyMap A) (t : Timers) (c : A)
      → lookup id m ≡ some c
      → IsArmed m t
      → IsArmed (delete id m) (stop (p.timer c) t)
  unfolding stop
  IsArmed-cancel id m t c e a = record {
    known = λ h x f. let (y, g) = find-remove-some h (p.timer c) t.armed x f in a.known h y g;
    waits = λ k x f r.
        let (here, other) = sub-delete id k m x f in
        find-remove_other (p.timer x) (p.timer c) t.armed
          (λ same. different id k other (sym (a.apart k id x c here e same)))
        ∙ a.waits k x here r;
    owned = λ k x f. a.owned k x (sub-delete id k m x f).0;
    apart = λ i j x y f g. a.apart i j x y (sub-delete id i m x f).0 (sub-delete id j m y g).0;
  }

  -- What stands in a map after an insertion, which replaces what `m0` lacks.
  inserted :
      (id k : Text) (x c : A) (m m0 : KeyMap A)
      → ((j : Text) → lookup j m0 ≡ (if text_eq id j then none else lookup j m))
      → lookup k (insert id x m) ≡ some c
      → ((id ≡ k) × (c ≡ x)) ⊎ (lookup k m0 ≡ some c)
  inserted id k x c m m0 gone e = elim (Bool-cases (text_eq id k)) [
    | inl same ↦ inl ((text_eq_iff id k).0 same, ground (arith, lookup-insert id k x m))
    | inr other ↦ inr (ground (arith, lookup-insert id k x m, gone k))
  ]

  -- A change with a new timer takes the place of what stood under its identifier.
  pub IsArmed-schedule :
      (id : Text) (new : A) (gen : ℕ) (m m0 : KeyMap A) (t : Timers)
      → p.timer new ≡ t.next_handle
      → p.gen new ≡ gen
      → ((k : Text) → lookup k m0 ≡ (if text_eq id k then none else lookup k m))
      → IsArmed m0 t
      → IsArmed (insert id new m) (after_func window id gen t)
  unfolding after_func find
  IsArmed-schedule id new gen m m0 t own numbered gone a =
      let found = λ (k : Text) (c : A). inserted id k new c m m0 gone in
      record {
        known = λ h x f. ground (arith, a.known h x);
        waits = λ k c e r. elim (found k c e) [
          | inl (same, it) ↦ rw (it, ← same, own, numbered) (ground arith)
          | inr old ↦ ground (arith, a.waits k c old r, a.owned k c old)
        ];
        owned = λ k c e. elim (found k c e) [
          | inl (same, it) ↦ rw (it, own) (omega arith)
          | inr old ↦ omega (arith, a.owned k c old)
        ];
        apart = λ j k x y e f h. elim (found j x e) [
          | inl (same, it) ↦ elim (found k y f) [
            | inl (same', it') ↦ sym same ∙ same'
            | inr old' ↦ absurd (omega (arith, a.owned k y old', h, ap p.timer it, own))
          ]
          | inr old ↦ elim (found k y f) [
            | inl (same', it') ↦ absurd (omega (arith, a.owned j x old, h, ap p.timer it', own))
            | inr old' ↦ a.apart j k x y old old' h
          ]
        ];
      }

  -- A timer has fired, and no change waits for it any more.
  pub IsArmed-fire :
      (h : ℕ) (m m' : KeyMap A) (t : Timers)
      → ((k : Text) (c : A)
          → lookup k m' ≡ some c
          → (b : A) × (lookup k m ≡ some b) × (p.timer c ≡ p.timer b))
      → ((k : Text) (c : A)
          → lookup k m' ≡ some c
          → p.ready c ≡ false
          → (lookup k m ≡ some c) × (p.timer c ≢ h))
      → IsArmed m t
      → IsArmed m' (record t { armed = remove h t.armed })
  IsArmed-fire h m m' t old still a = record {
    known = λ k x f. let (y, g) = find-remove-some k h t.armed x f in a.known k y g;
    waits = λ k c e r.
        let (here, other) = still k c e r in
        find-remove_other (p.timer c) h t.armed other ∙ a.waits k c here r;
    owned = λ k c e. let (b, f, same) = old k c e in omega (arith, a.owned k b f);
    apart = λ i j x y e f same.
        let (b, g, pb) = old i x e in
        let (c, k, q) = old j y f in a.apart i j b c g k (sym pb ∙ same ∙ q);
  }
