-- ===== src/Metadata/Tests.antt =====
-- The extraction of metadata at concrete objects.
use k8s_vectordb_sync.Base.{◌≡◌, ◌≢◌, refl, none, some, [], ◌∷◌, if◌then◌else◌}
use k8s_vectordb_sync.Text.{Text, text, text_eq, contains}
use k8s_vectordb_sync.KeyMap.{KeyMap, lookup, Distinct}
use k8s_vectordb_sync.Metadata.{
  Unstructured, build_id, scope_of, format_time, extract, filter_annotations, entries,
}
use k8s_vectordb_sync.Metadata.Identity.{IsNamed, extract-id_injective}
use k8s_vectordb_sync.Metadata.Annotations.{filter_annotations_lem, is_noise}

abbrev annotations : KeyMap Text
annotations = (text "helm.sh/chart", text "nginx") ∷ (text "team", text "web") ∷ []

abbrev deployment : Unstructured
deployment = record {
  namespace = text "default";
  api_version = text "apps/v1";
  kind = text "Deployment";
  name = text "nginx";
  resource_version = text "7";
  labels = none;
  annotations = some annotations;
  creation_timestamp = record { year = 2026; month = 2; day = 3; hour = 4; minute = 5; second = 6 };
}

abbrev node : Unstructured
node = record deployment { namespace = []; api_version = text "v1"; kind = text "Node" }

deployment_id : (extract deployment).id ≡ text "default/apps/v1/Deployment/nginx"
unfolding extract build_id scope_of text_eq
deployment_id = refl

node_id : (extract node).id ≡ text "_cluster/v1/Node/nginx"
unfolding extract build_id scope_of text_eq
node_id = refl

deployment_created : (extract deployment).created_at ≡ text "2026-02-03T04:05:06Z"
unfolding extract format_time
deployment_created = refl

deployment-IsNamed : IsNamed deployment
unfolding contains text_eq
deployment-IsNamed = record {
  namespace_plain = refl;
  namespace_valid = refl;
  kind_plain = refl;
  name_plain = refl;
}

-- The same object at a later version.
abbrev updated : Unstructured
updated = record deployment { resource_version = text "8"; labels = some [] }

updated-IsNamed : IsNamed updated
unfolding contains text_eq
updated-IsNamed = record {
  namespace_plain = refl;
  namespace_valid = refl;
  kind_plain = refl;
  name_plain = refl;
}

extract-id_injective_example :
    (text "default" ≡ text "default")
    × (text "apps/v1" ≡ text "apps/v1")
    × (text "Deployment" ≡ text "Deployment")
    × (text "nginx" ≡ text "nginx")
unfolding extract
extract-id_injective_example =
    extract-id_injective deployment updated deployment-IsNamed updated-IsNamed refl

filter_annotations_lem_example :
    ((k : Text)
      → lookup k (entries (filter_annotations (some annotations)))
        ≡ (if is_noise k then none else lookup k annotations))
    × (filter_annotations (some annotations) ≢ some [])
    × Distinct (entries (filter_annotations (some annotations)))
unfolding lookup text_eq
filter_annotations_lem_example = filter_annotations_lem (some annotations) (refl, (refl, tt))
