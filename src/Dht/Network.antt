-- ===== src/Dht/Network.antt =====
-- pkg/dht/network.go: what a node answers to a message. A message runs as one step at a time `now`;
-- the outer `none` of a result is a nil pointer that is read.
pub mod Safety
pub mod Messages
pub mod Find
pub mod Store
pub mod Peers
use task_discovery_service.Prelude.{
  ℕ, Bool, true, false, ◌||◌, Option, none, some, List, [], ◌∷◌, map, Text, ◌==◌, text_eq,
  if◌then◌else◌, leb, length,
}
use task_discovery_service.Text.{codes}
use task_discovery_service.Dht.{NodeId, Node, Dht}
use task_discovery_service.Dht.Ring.{add_peer}
use task_discovery_service.Dht.Closest.{find_k_closest_nodes, am_i_in_k_closest}
use task_discovery_service.Dht.Storage.{store_task, lookup_task}

-- encoding/json for the payloads, over its raw messages; `none` is an error.
pub record Json : Type 1 where
  pub Raw : Type 0
  pub empty : Raw
  pub unmarshal_store : Raw → Option (Text × Text)
  pub unmarshal_find : Raw → Option Text
  pub marshal_found : Text → List Text → Raw
  pub marshal_peers : List Text → Raw
  pub marshal_closest : List Text → Raw

pub record Message (Raw : Type 0) : Type 0 where
  pub kind : Text
  pub sender : Text
  pub payload : Raw

abbrev pub node_addresses : List (Option Node) → List Text
node_addresses [] = []
node_addresses (none ∷ nodes) = node_addresses nodes
node_addresses (some node ∷ nodes) = node.address ∷ node_addresses nodes

module _ (sha256 : Text → NodeId) (k timeout : ℕ) (json : Json) where
  -- The sender becomes a peer.
  unfoldable pub add_sender : Text → ℕ → Dht → Dht
  add_sender sender now d =
      if sender == [] || sender == d.self.address then d else add_peer sha256 sender now d

  unfoldable pub in_k_closest : Text → Dht → Option Bool
  in_k_closest task d =
      if leb (length d.ring) k then some true else am_i_in_k_closest sha256 task k d

  abbrev pub reply : Text → json.Raw → Dht → Option (Message json.Raw)
  reply kind payload d = some (record { kind = kind; sender = d.self.address; payload = payload })

  unfoldable pub handle_join : Dht → Option (Message json.Raw)
  handle_join d = reply (codes "PEERLIST") (json.marshal_peers (map (λ e. e.1.address) d.peers)) d

  abbrev pub store_decided :
      Text → Text → ℕ → Dht → Option Bool → Option (Option (Message json.Raw) × Dht)
  store_decided task addr now d none = none
  store_decided task addr now d (some true) =
      some (reply (codes "OK") json.empty d, store_task task addr now d)
  store_decided task addr now d (some false) =
      let closest = node_addresses (find_k_closest_nodes sha256 task k d) in
      some (reply (codes "NOT_RESPONSIBLE") (json.marshal_closest closest) d, d)

  abbrev pub handle_store :
      Option (Text × Text) → ℕ → Dht → Option (Option (Message json.Raw) × Dht)
  handle_store none now d = some (none, d)
  handle_store (some (task, addr)) now d = store_decided task addr now d (in_k_closest task d)

  abbrev pub found_reply :
      Text → Dht → Option (List Text) → Option (Option (Message json.Raw) × Dht)
  found_reply task d none = none
  found_reply task d (some []) = some (reply (codes "NOTFOUND") json.empty d, d)
  found_reply task d (some (a ∷ as')) =
      some (reply (codes "FOUND") (json.marshal_found task (a ∷ as')) d, d)

  abbrev pub find_decided :
      (Text → List Text) → Text → ℕ → Dht → Option Bool → Option (Option (Message json.Raw) × Dht)
  find_decided query task now d none = none
  find_decided query task now d (some true) =
      found_reply task d (lookup_task sha256 k timeout query task now d)
  find_decided query task now d (some false) = some (reply (codes "NOTFOUND") json.empty d, d)

  -- `query` is what QueryPeerForTask answers for a task.
  abbrev pub handle_find :
      (Text → Text → List Text) → Option Text → ℕ → Dht → Option (Option (Message json.Raw) × Dht)
  handle_find query none now d = some (none, d)
  handle_find query (some task) now d = find_decided (query task) task now d (in_k_closest task d)

  -- The switch of handleMessage, with the sender added.
  unfoldable pub dispatch :
      (Text → Text → List Text)
      → Message json.Raw
      → ℕ
      → Dht
      → Option (Option (Message json.Raw) × Dht)
  dispatch query msg now d =
      if msg.kind == codes "PING"
      then some (reply (codes "PONG") json.empty d, d)
      else if msg.kind == codes "JOIN"
      then some (handle_join d, d)
      else if msg.kind == codes "STORE"
      then handle_store (json.unmarshal_store msg.payload) now d
      else if msg.kind == codes "FIND"
      then handle_find query (json.unmarshal_find msg.payload) now d
      else some (none, d)

  unfoldable pub handle_message :
      (Text → Text → List Text)
      → Message json.Raw
      → ℕ
      → Dht
      → Option (Option (Message json.Raw) × Dht)
  handle_message query msg now d = dispatch query msg now (add_sender msg.sender now d)
