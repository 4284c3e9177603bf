-- ===== src/Metadata/Identity.antt =====
-- The identifier and the API group of a resource.
use k8s_vectordb_sync.Base.{◌≡◌, refl, sym, ◌∙◌, false, [], ◌∷◌, ◌++◌, arith}
use mathlib.Core.List.{append_assoc}
use k8s_vectordb_sync.Text.{Text, text_eq, text_eq_iff, contains}
use k8s_vectordb_sync.Text.Cut.{cut-append, cut_absent, first_part_injective, last_part_injective}
use k8s_vectordb_sync.Metadata.{
  Unstructured, build_id, extract_api_group, scope_of, cluster_scope, extract,
}

-- A name that Kubernetes accepts for a namespace, a kind or an object holds no slash.
abbrev pub NoSlash : Text → Type 0
NoSlash s = contains b'/' s ≡ false

-- The identifier determines the four parts that it is built from, also where the API version
-- holds a slash, if the namespace, the kind and the name hold none.
pub build_id_injective :
    (ns av kind name ns' av' kind' name' : Text)
    → NoSlash ns
    → NoSlash ns'
    → NoSlash kind
    → NoSlash kind'
    → NoSlash name
    → NoSlash name'
    → build_id ns av kind name ≡ build_id ns' av' kind' name'
    → (ns ≡ ns') × (av ≡ av') × (kind ≡ kind') × (name ≡ name')
unfolding build_id
build_id_injective ns av kind name ns' av' kind' name' n n' k k' m m' e =
    let (same_ns, rest) = first_part_injective b'/' ns ns' _ _ n n' e in
    let (front, same_name) =
      last_part_injective b'/' (av ++ b'/' ∷ kind) (av' ++ b'/' ∷ kind') name name' m m'
        (append_assoc av _ _ ∙ rest ∙ sym (append_assoc av' _ _)) in
    let (same_av, same_kind) = last_part_injective b'/' av av' kind kind' k k' front in
    (same_ns, same_av, same_kind, same_name)

-- The group of an API version with a slash is what stands before the slash; a version without
-- one, that of the core group, gives the empty group. Neither part holds a slash.
pub extract_api_group_lem :
    (group version : Text)
    → NoSlash group
    → NoSlash version
    → (extract_api_group (group ++ b'/' ∷ version) ≡ group) × (extract_api_group version ≡ [])
unfolding extract_api_group
extract_api_group_lem group version g v =
    (rw (cut-append b'/' group version g), rw (cut_absent b'/' version v))

-- What Kubernetes guarantees of the names of an object: no slash, and no namespace "_cluster".
pub record IsNamed (o : Unstructured) : Type 0 where
  pub namespace_plain : NoSlash o.namespace
  pub namespace_valid : text_eq o.namespace cluster_scope ≡ false
  pub kind_plain : NoSlash o.kind
  pub name_plain : NoSlash o.name

scope_of-NoSlash : (ns : Text) → NoSlash ns → NoSlash (scope_of ns)
unfolding scope_of contains text_eq
scope_of-NoSlash [] h = refl
scope_of-NoSlash (x ∷ ns) h = h

scope_of_injective :
    (ns ns' : Text)
    → text_eq ns cluster_scope ≡ false
    → text_eq ns' cluster_scope ≡ false
    → scope_of ns ≡ scope_of ns'
    → ns ≡ ns'
unfolding scope_of
scope_of_injective ns ns' h h' e = ground (
  arith,
  text_eq_iff ns [],
  text_eq_iff ns' [],
  text_eq_iff ns cluster_scope,
  text_eq_iff ns' cluster_scope,
)

-- Two objects whose instances have the same identifier are the same object: the same namespace
-- (or both without one), API version, kind and name. The names are those that Kubernetes allows.
pub extract-id_injective :
    (o o' : Unstructured)
    → IsNamed o
    → IsNamed o'
    → (extract o).id ≡ (extract o').id
    → (o.namespace ≡ o'.namespace)
      × (o.api_version ≡ o'.api_version)
      × (o.kind ≡ o'.kind)
      × (o.name ≡ o'.name)
unfolding extract
extract-id_injective o o' h h' e =
    let (ns, av, kind, name) =
      build_id_injective (scope_of o.namespace) o.api_version o.kind o.name (scope_of o'.namespace)
        o'.api_version o'.kind o'.name (scope_of-NoSlash o.namespace h.namespace_plain)
        (scope_of-NoSlash o'.namespace h'.namespace_plain) h.kind_plain h'.kind_plain h.name_plain
        h'.name_plain e in
    (
      scope_of_injective o.namespace o'.namespace h.namespace_valid h'.namespace_valid ns,
      av,
      kind,
      name,
    )
