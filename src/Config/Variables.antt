-- ===== src/Config/Variables.antt =====
-- The lists and the numbers that the environment holds.
use mathlib.Core.List.{append_assoc, append-nil}
use k8s_vectordb_sync.Base.{
  ◌≡◌, sym, ap, ◌∙◌, false, Bool-cases, inl, inr, List, [], ◌∷◌, ◌++◌, is_empty, keep, map, not,
  All, All-append,
}
use k8s_vectordb_sync.Text.{Text, to_lower, trim_space, split, contains}
use k8s_vectordb_sync.Text.Normal.{StartsPlain, EndsPlain, trim_space-plain, split-join, join}
use k8s_vectordb_sync.Config.{Env, clean_parts, env_csv_or_default}

-- What is left of the items: in lower case, without the blanks at the ends, and none that is empty.
abbrev pub tidied : List Text → List Text
tidied items = keep (λ p. not (is_empty p)) (map (λ p. trim_space (to_lower p)) items)

clean_parts_lem : (parts result : List Text) → clean_parts parts result ≡ result ++ tidied parts
unfolding clean_parts
clean_parts_lem [] result = sym (append-nil result)
clean_parts_lem (p ∷ parts) result =
    let trimmed = trim_space (to_lower p) in
    elim (Bool-cases (is_empty trimmed)) [
      | inl e ↦ rw e (clean_parts_lem parts result)
      | inr e ↦ rw e (
          clean_parts_lem parts (result ++ trimmed ∷ [])
          ∙ append_assoc result (trimmed ∷ []) (tidied parts))
    ]

-- Items without a comma, of which nothing else is asked, written with commas in a variable that is
-- not empty, are read back in their order, in lower case and without the blanks at their ends; those
-- of which nothing is left are dropped.
pub env_csv-join :
    (env : Env) (key : Text) (default_val : List Text) (item : Text) (items : List Text)
    → contains b',' item ≡ false
    → All (λ p. contains b',' p ≡ false) items
    → env key ≡ join b',' item items
    → is_empty (env key) ≡ false
    → env_csv_or_default env key default_val
      ≡ keep (λ p. not (is_empty p)) (map (λ p. trim_space (to_lower p)) (item ∷ items))
unfolding env_csv_or_default
env_csv-join env key default_val item items c h e filled = rw filled (
    ap (λ t. clean_parts (split b',' t) []) e
    ∙ ap (λ ps. clean_parts ps []) (split-join b',' item items c h)
    ∙ clean_parts_lem (item ∷ items) [])

abbrev pub IsTrimmed : Text → Type 0
IsTrimmed item = (is_empty item ≡ false) × StartsPlain item × EndsPlain item

clean_parts_plain :
    (parts result : List Text) → All IsTrimmed result → All IsTrimmed (clean_parts parts result)
unfolding clean_parts
clean_parts_plain [] result h = h
clean_parts_plain (p ∷ parts) result h =
    let trimmed = trim_space (to_lower p) in
    elim (Bool-cases (is_empty trimmed)) [
      | inl e ↦ rw e (clean_parts_plain parts result h)
      | inr e ↦
          let (starts, ends) = trim_space-plain (to_lower p) in
          rw e (
            clean_parts_plain parts (result ++ trimmed ∷ [])
              (All-append IsTrimmed result _ h ((e, starts, ends), tt)))
    ]

-- What `envCSVOrDefault` reads from a variable that is set holds no empty item and no item with a
-- blank at its ends.
pub env_csv_plain :
    (env : Env) (key : Text) (default_val : List Text)
    → is_empty (env key) ≡ false
    → All IsTrimmed (env_csv_or_default env key default_val)
unfolding env_csv_or_default
env_csv_plain env key default_val h = rw h (clean_parts_plain (split b',' (env key)) [] tt)
