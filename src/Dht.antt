-- ===== src/Dht.antt =====
-- pkg/dht/distributed_hash_table.go: the state of a node of the distributed hash table.
pub mod Address
pub mod Ring
pub mod Closest
pub mod Storage
pub mod Network
pub mod Registry
use task_discovery_service.Prelude.{ℕ, ◌^◌, ◌<◌, Bool, List, Text}
use task_discovery_service.Assoc.{Assoc}

-- The number that the 32 bytes of an identifier spell.
abbrev pub NodeId : Type 0
NodeId = ℕ

abbrev pub id_space : ℕ
id_space = 2 ^ 256

-- What the theorems use of SHA-256: its values fit into 32 bytes.
abbrev pub IsDigest : (Text → NodeId) → Type 0
IsDigest sha256 = (s : Text) → sha256 s < id_space

pub record Node : Type 0 where
  pub id : NodeId
  pub address : Text
  pub last_seen : ℕ

pub record ServiceRegistration : Type 0 where
  pub address : Text
  pub last_heartbeat : ℕ

-- `has_network` is whether the network layer is set.
pub record Dht : Type 0 where
  pub self : Node
  pub peers : Assoc NodeId Node
  pub ring : List NodeId
  pub storage : Assoc Text (List ServiceRegistration)
  pub listen_addr : Text
  pub has_network : Bool
