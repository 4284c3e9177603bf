-- ===== src/Watcher/Discovery.antt =====
-- Which resources the watcher finds.
use mathlib.Core.List.{append_assoc, append-nil}
use k8s_vectordb_sync.Base.{
  ◌≡◌, refl, sym, ap, ◌∙◌, Bool, true, false, not, ◌&&◌, ◌||◌, Bool-cases, inl, inr, Option, none,
  some, List, [], ◌∷◌, ◌++◌, arith, if◌then◌else◌,
}
use k8s_vectordb_sync.Text.{Text, text_eq_refl, contains}
use k8s_vectordb_sync.Filter.{ApiResource, should_watch}
use k8s_vectordb_sync.Watcher.{
  Gvr, gvr_eq, crd_gvr, Watcher, ApiResourceList, scan_resources, scan_parsed, scan_lists,
  discover_resources,
}

-- The resources of a group and version that are no subresources and pass the filter, in order.
abbrev pub selected : Watcher → Text → Text → List ApiResource → List Gvr
selected w group version [] = []
selected w group version (r ∷ rs) =
    if not (contains b'/' r.name) && should_watch w.filter r
    then record { group = group; version = version; resource = r.name }
      ∷ selected w group version rs
    else selected w group version rs

abbrev selected_parsed : Watcher → Option (Text × Text) → List ApiResource → List Gvr
selected_parsed w none rs = []
selected_parsed w (some (group, version)) rs = selected w group version rs

abbrev pub has_crd : List Gvr → Bool
has_crd [] = false
has_crd (g ∷ gs) = gvr_eq g crd_gvr || has_crd gs

gvr_eq_refl : (g : Gvr) → gvr_eq g g ≡ true
unfolding gvr_eq
gvr_eq_refl g = rw (text_eq_refl g.group, text_eq_refl g.version, text_eq_refl g.resource)

has_crd-append : (gs hs : List Gvr) → has_crd (gs ++ hs) ≡ (has_crd gs || has_crd hs)
has_crd-append [] hs = refl
has_crd-append (g ∷ gs) hs = ground (arith, has_crd-append gs hs)

module _ (parse_group_version : Text → Option (Text × Text)) where
  -- The resources of all lists whose version parses.
  abbrev pub selected_all : Watcher → List ApiResourceList → List Gvr
  selected_all w [] = []
  selected_all w (l ∷ ls) =
      selected_parsed w (parse_group_version l.group_version) l.api_resources ++ selected_all w ls

  -- The result of a scan: the new resources behind the old ones, and whether a CRD is among them.
  abbrev Extends : List Gvr × Bool → List Gvr → List Gvr × Bool → Type 0
  Extends old new found = (found.0 ≡ old.0 ++ new) × (found.1 ≡ (old.1 || has_crd new))

  scan_resources-selected :
      (w : Watcher) (group version : Text) (rs : List ApiResource) (gvrs : List Gvr) (b : Bool)
      → Extends
          (gvrs, b)
          (selected w group version rs)
          (scan_resources parse_group_version w group version rs (gvrs, b))
  unfolding scan_resources
  scan_resources-selected w group version [] gvrs b = (sym (append-nil gvrs), ground arith)
  scan_resources-selected w group version (r ∷ rs) gvrs b =
      let gvr : Gvr = record { group = group; version = version; resource = r.name } in
      let kept =
        scan_resources-selected w group version rs (gvrs ++ gvr ∷ [])
          (if gvr_eq gvr crd_gvr then true else b) in
      let passed = scan_resources-selected w group version rs gvrs b in
      elim (Bool-cases (contains b'/' r.name)) [
        | inl c ↦ rw (c, scan_resources) passed
        | inr c ↦ elim (Bool-cases (should_watch w.filter r)) [
          | inl y ↦
              rw (c, y, scan_resources)
                (kept.0 ∙ append_assoc gvrs (gvr ∷ []) _, kept.1 ∙ flag (gvr_eq gvr crd_gvr) b _)
          | inr n ↦ rw (c, n, scan_resources) passed
        ]
      ]
    where
      flag : (x b y : Bool) → ((if x then true else b) || y) ≡ (b || (x || y))
      flag x b y = ground arith

  scan_parsed-selected :
      (w : Watcher) (v : Option (Text × Text)) (rs : List ApiResource) (gvrs : List Gvr) (b : Bool)
      → Extends
          (gvrs, b)
          (selected_parsed w v rs)
          (scan_parsed parse_group_version w v rs (gvrs, b))
  unfolding scan_parsed
  scan_parsed-selected w none rs gvrs b = (sym (append-nil gvrs), ground arith)
  scan_parsed-selected w (some (group, version)) rs gvrs b =
      scan_resources-selected w group version rs gvrs b

  scan_lists-selected :
      (w : Watcher) (ls : List ApiResourceList) (gvrs : List Gvr) (b : Bool)
      → Extends (gvrs, b) (selected_all w ls) (scan_lists parse_group_version w ls (gvrs, b))
  unfolding scan_lists
  scan_lists-selected w [] gvrs b = (sym (append-nil gvrs), ground arith)
  scan_lists-selected w (l ∷ ls) gvrs b =
      let v = parse_group_version l.group_version in
      let new = selected_parsed w v l.api_resources in
      let (first, flag) = scan_parsed-selected w v l.api_resources gvrs b in
      let found = scan_parsed parse_group_version w v l.api_resources (gvrs, b) in
      let (rest, flags) = scan_lists-selected w ls found.0 found.1 in
      (
        rest ∙ ap (λ xs. xs ++ selected_all w ls) first ∙ append_assoc gvrs new _,
        flags
            ∙ ap (λ x. x || has_crd (selected_all w ls)) flag
            ∙ regroup b (has_crd new) (has_crd (selected_all w ls))
            ∙ ap (λ x. b || x) (sym (has_crd-append new (selected_all w ls))),
      )
    where
      regroup : (x y z : Bool) → ((x || y) || z) ≡ (x || (y || z))
      regroup x y z = ground arith

  -- The watcher finds, in the order of discovery, exactly the resources that are no subresources
  -- and that the filter lets through, from the lists whose version parses; with the capabilities
  -- pipeline the CRDs are added behind them, unless they are already there.
  pub discover_resources_lem :
      (w : Watcher) (ls : List ApiResourceList)
      → discover_resources parse_group_version w ls
        ≡ selected_all w ls
          ++ (if w.watch_crds && not (has_crd (selected_all w ls)) then crd_gvr ∷ [] else [])
  unfolding discover_resources
  discover_resources_lem w ls =
      let (found, flag) = scan_lists-selected w ls [] false in
      ground (arith, found, flag, append-nil (selected_all w ls))

  -- With the capabilities pipeline the CRDs are among the resources watched, whatever the filter
  -- says.
  pub discover_resources-has_crd :
      (w : Watcher) (ls : List ApiResourceList)
      → w.watch_crds ≡ true
      → has_crd (discover_resources parse_group_version w ls) ≡ true
  discover_resources-has_crd w ls h =
      rw (discover_resources_lem w ls, has_crd-append (selected_all w ls))
        (elim (Bool-cases (has_crd (selected_all w ls))) [
          | inl e ↦ rw e
          | inr e ↦ rw (e, h) (ground (arith, gvr_eq_refl crd_gvr))
        ])
