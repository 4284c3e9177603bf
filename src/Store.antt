-- ===== src/Store.antt =====
-- The abstract view of the receiving end (cluster-whisperer): what it holds under each identifier
-- after it has applied upserts and deletes in the order in which they were sent.
use k8s_vectordb_sync.Base.{Option, none, some, List, [], ◌∷◌, if◌then◌else◌}
use k8s_vectordb_sync.Text.{Text, text_eq}

abbrev pub Store : Type 0 → Type 0
Store A = Text → Option A

module _ {A : Type 0} where
  abbrev pub put : Text → A → Store A → Store A
  put id a s k = if text_eq id k then some a else s k

  abbrev pub remove : Text → Store A → Store A
  remove id s k = if text_eq id k then none else s k

  unfoldable pub apply_deletes : List Text → Store A → Store A
  apply_deletes [] s = s
  apply_deletes (id ∷ ids) s = apply_deletes ids (remove id s)

  unfoldable pub apply_upserts : (A → Text) → List A → Store A → Store A
  apply_upserts id_of [] s = s
  apply_upserts id_of (a ∷ rest) s = apply_upserts id_of rest (put (id_of a) a s)
