-- ===== src/Metadata.antt =====
-- internal/metadata/extract.go. A Kubernetes object is what its getters return (the package
-- unstructured is not part of the repository); `none` is a nil map.
mod Tests
pub mod Identity
pub mod Annotations
use k8s_vectordb_sync.Base.{
  ℕ, zero, suc, ◌+◌, ◌/◌, ◌%◌, ◌≡◌, refl, Bool, true, false, Option, none, some, List, [], ◌∷◌,
  ◌++◌, if◌then◌else◌, is_empty,
}
use k8s_vectordb_sync.Text.{Text, text, text_eq, has_prefix, split_n_2}
use k8s_vectordb_sync.KeyMap.{KeyMap, insert}

-- A point in time, in UTC.
pub record Timestamp : Type 0 where
  pub year : ℕ
  pub month : ℕ
  pub day : ℕ
  pub hour : ℕ
  pub minute : ℕ
  pub second : ℕ

pub record Unstructured : Type 0 where
  pub namespace : Text
  pub api_version : Text
  pub kind : Text
  pub name : Text
  pub resource_version : Text
  pub labels : Option (KeyMap Text)
  pub annotations : Option (KeyMap Text)
  pub creation_timestamp : Timestamp

pub record ResourceInstance : Type 0 where
  pub id : Text
  pub namespace : Text
  pub name : Text
  pub kind : Text
  pub api_version : Text
  pub api_group : Text
  pub labels : Option (KeyMap Text)
  pub annotations : Option (KeyMap Text)
  pub created_at : Text

unfoldable pub build_id : Text → Text → Text → Text → Text
build_id namespace api_version kind name =
    namespace ++ b'/' ∷ (api_version ++ b'/' ∷ (kind ++ b'/' ∷ name))

first_of_two : List Text → Text
first_of_two (group ∷ version ∷ []) = group
first_of_two _ = []

unfoldable pub extract_api_group : Text → Text
unfolding first_of_two split_n_2
extract_api_group api_version = first_of_two (split_n_2 b'/' api_version)

abbrev pub skip_annotation_prefixes : List Text
skip_annotation_prefixes =
    text "kubectl.kubernetes.io/"
    ∷ text "meta.helm.sh/"
    ∷ text "helm.sh/"
    ∷ text "deployment.kubernetes.io/"
    ∷ text "control-plane.alpha.kubernetes.io/"
    ∷ text "kubernetes.io/"
    ∷ []

-- The loop of `shouldSkipAnnotation`.
unfoldable pub any_prefix : Text → List Text → Bool
any_prefix key [] = false
any_prefix key (prefix ∷ prefixes) = if has_prefix key prefix then true else any_prefix key prefixes

unfoldable pub should_skip_annotation : Text → Bool
unfolding any_prefix has_prefix
should_skip_annotation key = any_prefix key skip_annotation_prefixes

-- The loop of `filterAnnotations`; the entries stand in the order in which it visits them.
unfoldable pub filter_loop : KeyMap Text → KeyMap Text → KeyMap Text
filter_loop [] filtered = filtered
filter_loop ((key, value) ∷ rest) filtered =
    filter_loop rest (if should_skip_annotation key then filtered else insert key value filtered)

abbrev pub entries {ℓ} : {V : Type ℓ} → Option (KeyMap V) → KeyMap V
entries none = []
entries (some m) = m

abbrev or_nil : KeyMap Text → Option (KeyMap Text)
or_nil filtered = if is_empty filtered then none else some filtered

unfoldable pub filter_annotations : Option (KeyMap Text) → Option (KeyMap Text)
unfolding filter_loop
filter_annotations annotations =
    if is_empty (entries annotations) then none else or_nil (filter_loop (entries annotations) [])

-- `n` in decimal with the given number of digits, as `Format` prints the parts of a date.
digits : ℕ → ℕ → Text
digits zero n = []
digits (suc width) n = digits width (n / 10) ++ (b'0' + n % 10) ∷ []

-- `Format("2006-01-02T15:04:05Z")`
unfoldable pub format_time : Timestamp → Text
unfolding digits
format_time t =
    digits 4 t.year
    ++ b'-'
      ∷ (digits 2 t.month
          ++ b'-'
            ∷ (digits 2 t.day
                ++ b'T'
                  ∷ (digits 2 t.hour
                      ++ b':' ∷ (digits 2 t.minute ++ b':' ∷ (digits 2 t.second ++ b'Z' ∷ [])))))

abbrev pub cluster_scope : Text
cluster_scope = text "_cluster"

-- The first lines of `Extract`.
unfoldable pub scope_of : Text → Text
scope_of namespace = if text_eq namespace [] then cluster_scope else namespace

unfoldable pub extract : Unstructured → ResourceInstance
extract obj = record {
  id = build_id (scope_of obj.namespace) obj.api_version obj.kind obj.name;
  namespace = scope_of obj.namespace;
  name = obj.name;
  kind = obj.kind;
  api_version = obj.api_version;
  api_group = extract_api_group obj.api_version;
  labels = obj.labels;
  annotations = filter_annotations obj.annotations;
  created_at = format_time obj.creation_timestamp;
}
