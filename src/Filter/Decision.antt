-- ===== src/Filter/Decision.antt =====
-- Which resources the filter lets through.
use k8s_vectordb_sync.Base.{
  ◌≡◌, refl, ◌∙◌, Bool, true, false, not, ◌&&◌, ◌||◌, List, [], ◌∷◌, map, arith, if◌then◌else◌,
  is_empty,
}
use k8s_vectordb_sync.Text.{Text, text, text_eq, to_lower, trim_space}
use k8s_vectordb_sync.Text.Normal.{to_lower_idem}
use k8s_vectordb_sync.KeyMap.{KeyMap, lookup, insert}
use k8s_vectordb_sync.KeyMap.Laws.{lookup-insert}
use k8s_vectordb_sync.Filter.{
  ApiResource, ResourceFilter, add_items, to_set, new, member, scan_verbs, supports_list_watch,
  should_watch,
}

-- The text is an item of the list.
abbrev pub listed : Text → List Text → Bool
listed k [] = false
listed k (x ∷ xs) = text_eq x k || listed k xs

abbrev pub normalised : List Text → List Text
normalised = map (λ item. to_lower (trim_space item))

member-add_items :
    (k : Text) (items : List Text) (set : KeyMap Bool)
    → member k (add_items items set) ≡ (listed k (normalised items) || member k set)
unfolding add_items
member-add_items k [] set = refl
member-add_items k (item ∷ items) set = ground (
  arith,
  member-add_items k items (insert (to_lower (trim_space item)) true set),
  lookup-insert (to_lower (trim_space item)) k true set,
)

member-to_set :
    (k : Text) (items : List Text) → member k (to_set items) ≡ listed k (normalised items)
unfolding to_set lookup
member-to_set k [] = refl
member-to_set k (item ∷ items) = member-add_items k (item ∷ items) [] ∙ ground arith

insert-ne-nil : (k : Text) (set : KeyMap Bool) → is_empty (insert k true set) ≡ false
unfolding insert
insert-ne-nil k [] = refl
insert-ne-nil k ((j, b) ∷ set) = ground arith

add_items-ne-nil :
    (items : List Text) (set : KeyMap Bool)
    → is_empty set ≡ false
    → is_empty (add_items items set) ≡ false
unfolding add_items
add_items-ne-nil [] set h = h
add_items-ne-nil (item ∷ items) set h =
    add_items-ne-nil items _ (insert-ne-nil (to_lower (trim_space item)) set)

is_empty-to_set : (items : List Text) → is_empty (to_set items) ≡ is_empty items
unfolding to_set add_items
is_empty-to_set [] = refl
is_empty-to_set (item ∷ items) =
    add_items-ne-nil items _ (insert-ne-nil (to_lower (trim_space item)) [])

scan_verbs_lem :
    (verbs : List Text) (l w : Bool)
    → scan_verbs verbs l w
      ≡ ((l || listed (text "list") verbs) && (w || listed (text "watch") verbs))
unfolding scan_verbs
scan_verbs_lem [] l w = ground arith
scan_verbs_lem (v ∷ verbs) l w = ground (
  arith,
  scan_verbs_lem verbs (if text_eq v (text "list") then true else l)
      (if text_eq v (text "watch") then true else w),
)

-- A resource is watched exactly if it has the verbs "list" and "watch" and its name, in lower
-- case, is on the watch list, or, if the watch list is empty, is not on the exclude list; the
-- items of both lists count trimmed and in lower case.
pub should_watch_lem :
    (watch exclude : List Text) (r : ApiResource)
    → should_watch (new watch exclude) r ≡ (
        listed (text "list") r.verbs
        && listed (text "watch") r.verbs
        && (if is_empty watch
            then not (listed (to_lower r.name) (normalised exclude))
            else listed (to_lower r.name) (normalised watch)))
unfolding should_watch new supports_list_watch
should_watch_lem watch exclude r = ground (
  arith,
  scan_verbs_lem r.verbs false false,
  is_empty-to_set watch,
  member-to_set (to_lower r.name) watch,
  member-to_set (to_lower r.name) exclude,
)

-- The case of a resource's name does not matter.
pub should_watch-to_lower :
    (f : ResourceFilter) (r : ApiResource)
    → should_watch f (record r { name = to_lower r.name }) ≡ should_watch f r
unfolding should_watch supports_list_watch
should_watch-to_lower f r = rw (to_lower_idem r.name)
