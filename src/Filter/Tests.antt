-- ===== src/Filter/Tests.antt =====
-- The filter at concrete lists.
use k8s_vectordb_sync.Base.{◌≡◌, refl, true, false, List, [], ◌∷◌}
use k8s_vectordb_sync.Text.{Text, text, text_eq, to_lower, trim_space}
use k8s_vectordb_sync.KeyMap.{lookup, insert}
use k8s_vectordb_sync.Filter.{
  ApiResource, add_items, to_set, new, supports_list_watch, should_watch, default_exclusions,
}
use k8s_vectordb_sync.Filter.Decision.{should_watch_lem}

abbrev pods : ApiResource
pods = record { name = text "Pods"; verbs = text "get" ∷ text "watch" ∷ text "list" ∷ [] }

abbrev events : ApiResource
events = record { name = text "events"; verbs = text "list" ∷ text "watch" ∷ [] }

abbrev watched : List Text
watched = text " PODS " ∷ text "services" ∷ []

pods-watched : should_watch (new watched []) pods ≡ true
unfolding new to_set add_items lookup insert text_eq to_lower trim_space should_watch
    supports_list_watch
pods-watched = refl

events_excluded : should_watch (new [] default_exclusions) events ≡ false
unfolding new to_set add_items lookup insert text_eq to_lower trim_space should_watch
    supports_list_watch
events_excluded = refl

should_watch_lem_example : should_watch (new watched []) pods ≡ true
unfolding text_eq to_lower trim_space
should_watch_lem_example = should_watch_lem watched [] pods
