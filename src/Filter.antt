-- ===== src/Filter.antt =====
-- internal/filter/filter.go. Of `metav1.APIResource` the two fields that the filter reads.
mod Tests
pub mod Decision
use k8s_vectordb_sync.Base.{
  Bool, true, false, not, ◌&&◌, Option, none, some, List, [], ◌∷◌, if◌then◌else◌, is_empty,
}
use k8s_vectordb_sync.Text.{Text, text, text_eq, to_lower, trim_space}
use k8s_vectordb_sync.KeyMap.{KeyMap, lookup, insert}

pub record ApiResource : Type 0 where
  pub name : Text
  pub verbs : List Text

abbrev pub default_exclusions : List Text
default_exclusions =
    text "events"
    ∷ text "leases"
    ∷ text "endpointslices"
    ∷ text "componentstatuses"
    ∷ text "customresourcedefinitions"
    ∷ []

-- A set of names is a `map[string]bool`; `toSet` of nothing is the nil map, here the empty one.
pub record ResourceFilter : Type 0 where
  pub watch_types : KeyMap Bool
  pub exclude_types : KeyMap Bool

-- The loop of `toSet`.
unfoldable pub add_items : List Text → KeyMap Bool → KeyMap Bool
add_items [] set = set
add_items (item ∷ items) set = add_items items (insert (to_lower (trim_space item)) true set)

unfoldable pub to_set : List Text → KeyMap Bool
unfolding add_items
to_set items = if is_empty items then [] else add_items items []

unfoldable pub new : List Text → List Text → ResourceFilter
new watch_types exclude_types = record {
  watch_types = to_set watch_types;
  exclude_types = to_set exclude_types;
}

-- `m[name]`: a missing key reads as false.
abbrev pub member : Text → KeyMap Bool → Bool
member name set = elim (lookup name set) [ none ↦ false | some b ↦ b ]

-- The loop of `supportsListWatch`.
unfoldable pub scan_verbs : List Text → Bool → Bool → Bool
scan_verbs [] has_list has_watch = has_list && has_watch
scan_verbs (verb ∷ verbs) has_list has_watch =
    scan_verbs verbs (if text_eq verb (text "list") then true else has_list)
      (if text_eq verb (text "watch") then true else has_watch)

unfoldable pub supports_list_watch : ApiResource → Bool
unfolding scan_verbs
supports_list_watch resource = scan_verbs resource.verbs false false

unfoldable pub should_watch : ResourceFilter → ApiResource → Bool
should_watch f resource =
    if not (supports_list_watch resource)
    then false
    else (let name = to_lower resource.name in
        if not (is_empty f.watch_types)
        then member name f.watch_types
        else not (member name f.exclude_types))
