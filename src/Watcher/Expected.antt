-- ===== src/Watcher/Expected.antt =====
-- What the watcher is to send if its updates are compared as maps, without the code's `mapsEqual`.
use k8s_vectordb_sync.Base.{
  ◌≡◌, ◌↔◌, ◌⊎◌, refl, sym, ap, ap₂, ◌∙◌, Bool, true, false, not, ◌&&◌, Option, none, some, List,
  [], ◌∷◌, ◌++◌, arith, if◌then◌else◌, Bool-cases, Option-cases, inl, inr,
}
use k8s_vectordb_sync.Text.{Text, text_eq, text_eq_iff, text_eq_refl}
use k8s_vectordb_sync.KeyMap.{KeyMap, lookup}
use k8s_vectordb_sync.Metadata.{Unstructured, extract, entries}
use k8s_vectordb_sync.Event.{update, ResourceEvent}
use k8s_vectordb_sync.Watcher.{is_crd, metadata_changed, object}
use k8s_vectordb_sync.Watcher.Start.{Callback, updated, Session, Step, call, step}
use k8s_vectordb_sync.Watcher.Due.{callback_events}
use k8s_vectordb_sync.Watcher.Passing.{due}
use k8s_vectordb_sync.Watcher.Flow.{all_due}
use k8s_vectordb_sync.Watcher.Changes.{SameMap, NoEmpty, IsComparable, metadata_changed_iff}

abbrev same_value : Option Text → Option Text → Bool
same_value none none = true
same_value (some v) (some w) = text_eq v w
same_value _ _ = false

-- The two maps hold the same under each key of the third.
abbrev agree_on : KeyMap Text → KeyMap Text → KeyMap Text → Bool
agree_on a b [] = true
agree_on a b ((k, v) ∷ m) = same_value (lookup k a) (lookup k b) && agree_on a b m

abbrev pub same_entries : KeyMap Text → KeyMap Text → Bool
same_entries a b = agree_on a b a && agree_on a b b

-- An update is a change if the resource version differs, and a label or an annotation.
abbrev pub changed : Unstructured → Unstructured → Bool
changed old_u new_u =
    not (text_eq old_u.resource_version new_u.resource_version)
    && not (
        same_entries (entries old_u.labels) (entries new_u.labels)
        && same_entries (entries old_u.annotations) (entries new_u.annotations))

abbrev pub expected_events : Callback → List ResourceEvent
expected_events (updated (object old_u) (object new_u)) =
    if changed old_u new_u && not (is_crd new_u)
    then record { type = update; instance = extract new_u } ∷ []
    else []
expected_events c = callback_events c

abbrev pub expected : Step → Session → List ResourceEvent
expected (call b gvr c) s = expected_events c
expected a s = due a s

module _ (parse : Text → Option (Text × Text)) where
  -- What a run is to send if its updates are compared as maps.
  abbrev pub all_expected : List Step → Session → List ResourceEvent
  all_expected [] s = []
  all_expected (a ∷ steps) s =
      expected a s ++ (elim (step parse a s) [ none ↦ [] | some u ↦ all_expected steps u ])

-- An update has no key twice in its maps, and the old object no empty label or annotation.
abbrev pub PlainUpdate : Callback → Type 0
PlainUpdate (updated (object old_u) (object new_u)) =
    IsComparable old_u
    × IsComparable new_u
    × NoEmpty (entries old_u.labels)
    × NoEmpty (entries old_u.annotations)
PlainUpdate c = Unit

abbrev pub Plain : Step → Type 0
Plain (call b gvr c) = PlainUpdate c
Plain a = Unit

abbrev pub AllPlain : List Step → Type 0
AllPlain [] = Unit
AllPlain (a ∷ steps) = Plain a × AllPlain steps

same_value_lem : (x y : Option Text) → same_value x y ≡ true → x ≡ y
same_value_lem none none h = refl
same_value_lem (some v) (some w) h = ground (arith, text_eq_iff v w)
same_value_lem none (some w) h = absurd (ground arith)
same_value_lem (some v) none h = absurd (ground arith)

same_value_refl : (x : Option Text) → same_value x x ≡ true
same_value_refl none = refl
same_value_refl (some v) = text_eq_refl v

agree_at :
    (a b m : KeyMap Text) (k v : Text)
    → agree_on a b m ≡ true
    → lookup k m ≡ some v
    → lookup k a ≡ lookup k b
unfolding lookup
agree_at a b [] k v h e = absurd (ground arith)
agree_at a b ((j, w) ∷ m) k v h e =
    ground (arith, text_eq_iff j k, same_value_lem (lookup j a) (lookup j b), agree_at a b m k v)

agree_on_same : (a b m : KeyMap Text) → SameMap a b → agree_on a b m ≡ true
agree_on_same a b [] h = refl
agree_on_same a b ((k, v) ∷ m) h =
    rw (h k) (ground (arith, same_value_refl (lookup k b), agree_on_same a b m h))

same_entries_iff : (a b : KeyMap Text) → (same_entries a b ≡ true) ↔ SameMap a b
same_entries_iff a b = (
  λ h k. elim (Option-cases (lookup k a)) [
    | inr (v, e) ↦ agree_at a b a k v (ground arith) e
    | inl e ↦ elim (Option-cases (lookup k b)) [
      | inr (w, f) ↦ agree_at a b b k w (ground arith) f
      | inl f ↦ e ∙ sym f
    ]
  ],
  λ h. ground (arith, agree_on_same a b a h, agree_on_same a b b h),
)

-- On such an update, what the code takes for a change is a change.
metadata_changed-changed :
    (o n : Unstructured)
    → IsComparable o
    → IsComparable n
    → NoEmpty (entries o.labels)
    → NoEmpty (entries o.annotations)
    → metadata_changed o n ≡ changed o n
metadata_changed-changed o n co cn el ea =
    let (to, from) = metadata_changed_iff o n co cn el ea in
    let l = same_entries_iff (entries o.labels) (entries n.labels) in
    let a = same_entries_iff (entries o.annotations) (entries n.annotations) in
    let v = text_eq_iff o.resource_version n.resource_version in
    elim (Bool-cases (metadata_changed o n)) [
      | inr e ↦ elim (to e) [
        | inl r ↦ ground (arith, v.1 r)
        | inr (x, y) ↦ ground (arith, l.1 x, a.1 y)
      ]
      | inl e ↦ elim (Bool-cases (changed o n)) [
        | inl f ↦ e ∙ sym f
        | inr f ↦ absurd (elim (unchanged o n f) [
          | inl r ↦ ground (arith, from (inl (v.0 r)))
          | inr (x, y) ↦ ground (arith, from (inr (l.0 x, a.0 y)))
        ])
      ]
    ]
  where
    unchanged :
        (o n : Unstructured)
        → changed o n ≡ false
        → (text_eq o.resource_version n.resource_version ≡ true)
          ⊎ ((same_entries (entries o.labels) (entries n.labels) ≡ true)
              × (same_entries (entries o.annotations) (entries n.annotations) ≡ true))
    unchanged o n h = elim (Bool-cases (text_eq o.resource_version n.resource_version)) [
      | inl e ↦ inl e
      | inr e ↦ inr (ground arith, ground arith)
    ]

expected_events_lem : (c : Callback) → PlainUpdate c → callback_events c ≡ expected_events c
expected_events_lem (updated (object o) (object n)) (co, cn, el, ea) =
    ground (arith, metadata_changed-changed o n co cn el ea)
expected_events_lem c p = refl

expected_lem : (a : Step) (s : Session) → Plain a → due a s ≡ expected a s
expected_lem (call b gvr c) s p = expected_events_lem c p
expected_lem a s p = refl

module _ (parse : Text → Option (Text × Text)) where
  pub all_expected_lem :
      (steps : List Step) (s : Session)
      → AllPlain steps
      → all_due parse steps s ≡ all_expected parse steps s
  all_expected_lem [] s p = refl
  all_expected_lem (a ∷ steps) s p = elim (Option-cases (step parse a s)) [
    | inl e ↦ rw (e, all_due, all_expected) (ap (λ es. es ++ []) (expected_lem a s p.0))
    | inr (u, e) ↦
        rw (e, all_due, all_expected)
          (ap₂ (λ es fs. es ++ fs) (expected_lem a s p.0) (all_expected_lem steps u p.1))
  ]
