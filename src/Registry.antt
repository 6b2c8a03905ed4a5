-- ===== src/Registry.antt =====
-- pkg/registry/registry.go: what the registries share.
pub mod Weights
pub mod Destination
pub mod Memory
pub mod StoreBacked
use task_discovery_service.Prelude.{ℕ, Text}

-- Times and durations are nanoseconds, the two counts are the bits of an int64 and an int.
pub record ServiceEntry : Type 0 where
  pub address : Text
  pub last_heartbeat : ℕ
  pub query_count : ℕ
  pub capacity : ℕ

pub record Stats : Type 0 where
  pub total_queries : ℕ
  pub total_tasks : ℕ

-- `other` is an error of the store.
pub data RegistryError : Type 0 where
  not_found no_allowed_service invalid_task_name : RegistryError
  other : Text → RegistryError
