-- ===== src/Event.antt =====
-- The change events of internal/controller/watcher.go.
use k8s_vectordb_sync.Text.{Text}
use k8s_vectordb_sync.Metadata.{ResourceInstance}

pub data EventType : Type 0 where
  add update delete : EventType

pub record ResourceEvent : Type 0 where
  pub type : EventType
  pub instance : ResourceInstance

pub record CrdEvent : Type 0 where
  pub type : EventType
  pub crd_name : Text
