-- ===== src/Metadata/Annotations.antt =====
-- Which annotations of a resource are kept.
use k8s_vectordb_sync.Base.{
  Bool, ◌||◌, ◌≡◌, ◌≢◌, Option, none, some, [], ◌∷◌, arith, if◌then◌else◌, Bool-cases, inl, inr,
}
use k8s_vectordb_sync.Text.{Text, text, has_prefix, text_eq_iff}
use k8s_vectordb_sync.KeyMap.{KeyMap, lookup, insert, Distinct}
use k8s_vectordb_sync.KeyMap.Laws.{lookup-insert, insert-Distinct}
use k8s_vectordb_sync.Metadata.{
  any_prefix, should_skip_annotation, filter_loop, filter_annotations, entries,
}

lookup-filter_loop :
    (k : Text) (m out : KeyMap Text)
    → Distinct m
    → lookup k (filter_loop m out) ≡ (
        if should_skip_annotation k
        then lookup k out
        else elim (lookup k m) [ none ↦ lookup k out | some v ↦ some v ])
unfolding filter_loop lookup
lookup-filter_loop k [] out d = ground arith
lookup-filter_loop k ((j, v) ∷ m) out d = ground (
  arith,
  text_eq_iff j k,
  lookup-filter_loop k m (insert j v out) d.1,
  lookup-filter_loop k m out d.1,
  lookup-insert j k v out,
)

filter_loop-Distinct : (m out : KeyMap Text) → Distinct out → Distinct (filter_loop m out)
unfolding filter_loop
filter_loop-Distinct [] out d = d
filter_loop-Distinct ((j, v) ∷ m) out d = elim (Bool-cases (should_skip_annotation j)) [
  | inl skip ↦ rw skip (filter_loop-Distinct m out d)
  | inr kept ↦ rw kept (filter_loop-Distinct m (insert j v out) (insert-Distinct j v out d))
]

-- The key starts with one of the prefixes of the annotations that are only noise.
abbrev pub is_noise : Text → Bool
is_noise k =
    has_prefix k (text "kubectl.kubernetes.io/")
    || has_prefix k (text "meta.helm.sh/")
    || has_prefix k (text "helm.sh/")
    || has_prefix k (text "deployment.kubernetes.io/")
    || has_prefix k (text "control-plane.alpha.kubernetes.io/")
    || has_prefix k (text "kubernetes.io/")

any_prefix-six :
    (k a b c d e f : Text)
    → any_prefix k (a ∷ b ∷ c ∷ d ∷ e ∷ f ∷ []) ≡ (
        has_prefix k a
        || has_prefix k b
        || has_prefix k c
        || has_prefix k d
        || has_prefix k e
        || has_prefix k f)
unfolding any_prefix
any_prefix-six k a b c d e f = ground arith

should_skip_annotation_lem : (k : Text) → should_skip_annotation k ≡ is_noise k
unfolding should_skip_annotation
should_skip_annotation_lem k =
    any_prefix-six k (text "kubectl.kubernetes.io/") (text "meta.helm.sh/") (text "helm.sh/")
      (text "deployment.kubernetes.io/") (text "control-plane.alpha.kubernetes.io/")
      (text "kubernetes.io/")

-- Of annotations without a key twice, exactly those are kept, with their values, whose key starts
-- with none of the prefixes kubectl.kubernetes.io/, meta.helm.sh/, helm.sh/,
-- deployment.kubernetes.io/, control-plane.alpha.kubernetes.io/ and kubernetes.io/; the result is
-- never an empty map but nil, and no key stands in it twice.
pub filter_annotations_lem :
    (annotations : Option (KeyMap Text))
    → Distinct (entries annotations)
    → ((k : Text)
        → lookup k (entries (filter_annotations annotations))
          ≡ (if is_noise k then none else lookup k (entries annotations)))
      × (filter_annotations annotations ≢ some [])
      × Distinct (entries (filter_annotations annotations))
unfolding filter_annotations lookup
filter_annotations_lem none d = (λ k. ground arith, ground arith, tt)
filter_annotations_lem (some m) d = (
  λ k. rw (← should_skip_annotation_lem k) (ground (arith, lookup-filter_loop k m [] d)),
  ground arith,
  ground (arith, filter_loop-Distinct m [] tt),
)
