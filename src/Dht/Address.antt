-- ===== src/Dht/Address.antt =====
-- The hash of an address: the spellings of the local host have one identifier.
pub mod Aliases
use task_discovery_service.Prelude.{
  ℕ, Bool, true, false, ◌||◌, Option, none, some, [], ◌∷◌, ◌++◌, Text, ◌==◌, text_eq, text_beq,
  if◌then◌else◌, any, List,
}
use task_discovery_service.Text.{
  codes, trim_space, to_lower, has_prefix, split_host_port, join_host_port,
}
use task_discovery_service.Dht.{NodeId}

abbrev pub loopback : Text
loopback = codes "127.0.0.1"

abbrev pub local_names : List Text
local_names = [] ∷ codes "0.0.0.0" ∷ codes "::" ∷ codes "::1" ∷ codes "localhost" ∷ []

unfoldable pub is_local : Text → Bool
is_local name = any (λ n. text_beq name n) local_names

abbrev pub canonical_pair : Option (Text × Text) → Text → Text
canonical_pair none addr = addr
canonical_pair (some (host, port)) addr =
    join_host_port (if is_local (to_lower (trim_space host)) then loopback else host) port

unfoldable pub canonical_address_for_hash : Text → Text
canonical_address_for_hash addr =
    canonical_pair (split_host_port (trim_space addr)) (trim_space addr)

module _ (sha256 : Text → NodeId) where
  unfoldable pub hash_address : Text → NodeId
  hash_address addr = sha256 (canonical_address_for_hash addr)

  unfoldable pub hash_task : Text → NodeId
  hash_task task = sha256 task

-- The address that a node advertises for the one it listens on.
unfoldable pub advertise_address : Text → Text
advertise_address listen_addr =
    let addr = trim_space listen_addr in
    if has_prefix addr (b':' ∷ []) then loopback ++ addr else addr
