-- ===== src/Watcher/Changes.antt =====
-- When an update counts as a change of metadata.
use k8s_vectordb_sync.Base.{
  ◌+◌, ◌≡◌, ◌↔◌, ◌⊎◌, refl, sym, ap, ◌∙◌, true, false, Bool-cases, inl, inr, none, some, [], ◌∷◌,
  arith, is_empty, length, All,
}
use k8s_vectordb_sync.Text.{Text, text_eq, text_eq_iff, text_eq_refl}
use k8s_vectordb_sync.KeyMap.{KeyMap, lookup, delete, Distinct}
use k8s_vectordb_sync.KeyMap.Laws.{lookup-delete, delete-Distinct}
use k8s_vectordb_sync.Metadata.{Unstructured, entries}
use k8s_vectordb_sync.Watcher.{index, all_found, maps_equal, metadata_changed}

-- The two maps hold the same values under the same keys.
abbrev pub SameMap : KeyMap Text → KeyMap Text → Type 0
SameMap a b = (k : Text) → lookup k a ≡ lookup k b

-- No value is the empty text.
abbrev pub NoEmpty : KeyMap Text → Type 0
NoEmpty = All (λ e. is_empty e.1 ≡ false)

delete_absent : (k : Text) (m : KeyMap Text) → lookup k m ≡ none → delete k m ≡ m
unfolding lookup delete
delete_absent k [] h = refl
delete_absent k ((j, v) ∷ m) h = ground (arith, delete_absent k m)

length-delete :
    (k v : Text) (m : KeyMap Text)
    → Distinct m
    → lookup k m ≡ some v
    → length (delete k m) + 1 ≡ length m
unfolding lookup delete
length-delete k v [] d h = cc
length-delete k v ((j, w) ∷ m) d h =
    ground (arith, text_eq_iff j k, delete_absent k m, length-delete k v m d.1)

abbrev Within : KeyMap Text → KeyMap Text → Type 0
Within a b = (k v : Text) → lookup k a ≡ some v → lookup k b ≡ some v

-- The first entry of `a` taken out of both maps.
Within-delete :
    (k v : Text) (a b : KeyMap Text)
    → lookup k a ≡ none
    → Within ((k, v) ∷ a) b
    → Within a (delete k b)
unfolding lookup
Within-delete k v a b absent h j w e = ground (arith, h j w, lookup-delete k j b, text_eq_iff k j)

Within-head : (k v : Text) (a b : KeyMap Text) → Within ((k, v) ∷ a) b → lookup k b ≡ some v
unfolding lookup
Within-head k v a b h = h k v (ground (arith, text_eq_refl k))

no_entries : (b : KeyMap Text) → 0 ≡ length b → b ≡ []
no_entries [] h = refl
no_entries (e ∷ b) h = absurd (omega arith)

SameMap-cons :
    (k v : Text) (a b : KeyMap Text)
    → lookup k b ≡ some v
    → SameMap a (delete k b)
    → SameMap ((k, v) ∷ a) b
unfolding lookup
SameMap-cons k v a b h same j = ground (arith, same j, lookup-delete k j b, text_eq_iff k j)

-- A map that lies within another of the same size is the same map.
Within-SameMap :
    (a b : KeyMap Text) → Distinct a → Distinct b → length a ≡ length b → Within a b → SameMap a b
Within-SameMap [] b da db e h = λ k. ap (lookup k) (sym (no_entries b e))
Within-SameMap ((k, v) ∷ a) b da db e h =
    let here = Within-head k v a b h in
    SameMap-cons k v a b here (
      Within-SameMap a (delete k b) da.1 (delete-Distinct k b db)
        (omega (arith, length-delete k v b db here)) (Within-delete k v a b da.0 h))

length_of_same : (a b : KeyMap Text) → Distinct a → Distinct b → SameMap a b → length a ≡ length b
unfolding lookup
length_of_same [] [] da db h = refl
length_of_same [] ((k, v) ∷ b) da db h = absurd (ground (arith, h k, text_eq_refl k))
length_of_same ((k, v) ∷ a) b da db h =
    let here : lookup k b ≡ some v = sym (h k) ∙ ground (arith, text_eq_refl k) in
    omega (
      arith,
      length-delete k v b db here,
      length_of_same a (delete k b) da.1 (delete-Distinct k b db)
          (λ j. ground (arith, h j, lookup-delete k j b, text_eq_iff k j, da.0)),
    )

all_found_of : (a b : KeyMap Text) → Distinct a → Within a b → all_found a b ≡ true
unfolding all_found lookup
all_found_of [] b d h = refl
all_found_of ((k, v) ∷ a) b d h =
    let rest : Within a b = λ j w e. h j w (ground (arith, text_eq_iff k j, d.0)) in
    ground (arith, Within-head k v a b h, text_eq_refl v, all_found_of a b d.1 rest)

within_of_all_found :
    (a b : KeyMap Text) (k v : Text)
    → NoEmpty a
    → all_found a b ≡ true
    → lookup k a ≡ some v
    → lookup k b ≡ some v
unfolding all_found lookup
within_of_all_found [] b k v n h e = cc
within_of_all_found ((j, w) ∷ a) b k v n h e =
    ground (arith, text_eq_iff j k, text_eq_iff (index j b) w, within_of_all_found a b k v n.1)

-- Where no value of the first map is empty, `mapsEqual` holds exactly if the two maps, without a
-- key twice, hold the same.
pub maps_equal_iff :
    (a b : KeyMap Text)
    → Distinct a
    → Distinct b
    → NoEmpty a
    → (maps_equal a b ≡ true) ↔ SameMap a b
unfolding maps_equal
maps_equal_iff a b da db n = (
  λ h.
      Within-SameMap a b da db (ground arith) (λ k v. within_of_all_found a b k v n (ground arith)),
  λ same.
      ground
        (arith, length_of_same a b da db same, all_found_of a b da (λ k v e. sym (same k) ∙ e)),
)

maps_equal_refl : (m : KeyMap Text) → Distinct m → maps_equal m m ≡ true
unfolding maps_equal
maps_equal_refl m d = ground (arith, all_found_of m m d (λ k v e. e))

all_found-cons :
    (j w : Text) (a b : KeyMap Text)
    → lookup j a ≡ none
    → all_found a b ≡ true
    → all_found a ((j, w) ∷ b) ≡ true
unfolding all_found lookup
all_found-cons j w [] b h e = refl
all_found-cons j w ((k, v) ∷ a) b h e =
    ground (arith, all_found-cons j w a b, text_eq_iff j k, text_eq_iff k j)

-- The metadata of an object that the watcher compares.
pub record IsComparable (o : Unstructured) : Type 0 where
  pub labels_distinct : Distinct (entries o.labels)
  pub annotations_distinct : Distinct (entries o.annotations)

-- Where the old object has no empty label or annotation, an update is passed over exactly if the
-- resource version is the same or neither the labels nor the annotations have changed.
pub metadata_changed_iff :
    (o n : Unstructured)
    → IsComparable o
    → IsComparable n
    → NoEmpty (entries o.labels)
    → NoEmpty (entries o.annotations)
    → (metadata_changed o n ≡ false) ↔ (
        (o.resource_version ≡ n.resource_version)
        ⊎ (SameMap (entries o.labels) (entries n.labels)
            × SameMap (entries o.annotations) (entries n.annotations)))
unfolding metadata_changed
metadata_changed_iff o n co cn el ea =
    let l =
      maps_equal_iff (entries o.labels) (entries n.labels) co.labels_distinct cn.labels_distinct
        el in
    let a =
      maps_equal_iff (entries o.annotations) (entries n.annotations) co.annotations_distinct
        cn.annotations_distinct ea in
    let v = text_eq_iff o.resource_version n.resource_version in
    (
      λ h. elim (Bool-cases (text_eq o.resource_version n.resource_version)) [
        | inl e ↦ inl (v.0 e)
        | inr e ↦ inr (l.0 (ground arith), a.0 (ground arith))
      ],
      λ h. elim h [ inl e ↦ ground (arith, v.1 e) | inr (x, y) ↦ ground (arith, l.1 x, a.1 y) ],
    )

replaced_label :
    (k j v : Text) (rest : KeyMap Text)
    → Distinct ((k, []) ∷ rest)
    → Distinct ((j, v) ∷ rest)
    → text_eq j k ≡ false
    → maps_equal ((k, []) ∷ rest) ((j, v) ∷ rest) ≡ true
unfolding maps_equal all_found lookup text_eq
replaced_label k j v rest d d' ne =
    ground
      (arith, d.0, all_found-cons j v rest rest d'.0 (all_found_of rest rest d'.1 (λ i w e. e)))

replaced_differs :
    (k j v : Text) (rest : KeyMap Text)
    → Distinct ((k, []) ∷ rest)
    → text_eq j k ≡ false
    → ¬ SameMap ((k, []) ∷ rest) ((j, v) ∷ rest)
unfolding lookup
replaced_differs k j v rest d ne same = ground (arith, same k, text_eq_refl k, d.0)

-- If a label with an empty value is replaced by any other label, and the annotations are the
-- same, the update is taken for no change, though the labels differ.
pub metadata_changed_misses :
    (o n : Unstructured) (k j v : Text) (rest : KeyMap Text)
    → Distinct ((k, []) ∷ rest)
    → Distinct ((j, v) ∷ rest)
    → text_eq j k ≡ false
    → o.labels ≡ some ((k, []) ∷ rest)
    → n.labels ≡ some ((j, v) ∷ rest)
    → Distinct (entries o.annotations)
    → n.annotations ≡ o.annotations
    → (metadata_changed o n ≡ false) × ¬ SameMap (entries o.labels) (entries n.labels)
unfolding metadata_changed
metadata_changed_misses o n k j v rest d d' ne ol nl da same = (
  ground (
    arith,
    ap entries ol,
    ap entries nl,
    ap entries same,
    replaced_label k j v rest d d' ne,
    maps_equal_refl (entries o.annotations) da,
  ),
  λ h.
      replaced_differs k j v rest d ne
        (λ i. ap (λ l. lookup i (entries l)) (sym ol) ∙ h i ∙ ap (λ l. lookup i (entries l)) nl),
)
