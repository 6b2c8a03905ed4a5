-- ===== src/Dht/Network/Store.antt =====
-- pkg/dht/network.go, Store and getFarthestDistance: the search for nodes that accept a task. Each
-- address is contacted at most once, so `send` says what the peer of an address answers to the STORE
-- message, and `clock` at which time that address is tried.
pub mod Queue
pub mod Rounds
pub mod Attempts
pub mod Outcome
use task_discovery_service.Prelude.{
  ℕ, zero, suc, ◌+◌, ◌^◌, Bool, true, false, not, ◌&&◌, ◌||◌, Option, none, some, List, [], ◌∷◌,
  ◌++◌, map, Text, ◌==◌, text_eq, text_beq, if◌then◌else◌, any, ltb,
}
use task_discovery_service.Prelude.Result.{Result, ok, err}
use task_discovery_service.Text.{codes}
use task_discovery_service.Dht.{NodeId, Dht, id_space}
use task_discovery_service.Dht.Address.{hash_address, hash_task}
use task_discovery_service.Dht.Ring.{distance, add_peer}
use task_discovery_service.Dht.Closest.{find_k_closest_nodes}
use task_discovery_service.Dht.Storage.{store_task}
use task_discovery_service.Dht.Network.{Message, node_addresses}

-- encoding/json for the payload of a NOT_RESPONSIBLE answer, and its length in bytes.
pub record Suggestions (Raw : Type 0) : Type 0 where
  pub payload_length : Raw → ℕ
  pub unmarshal_closest : Raw → Option (List Text)

-- The variables of the loop, its queue left out.
pub record StoreRun : Type 0 where
  pub node : Dht
  pub attempted : List Text
  pub success_count : ℕ
  pub last_err : Option Text

abbrev pub is_attempted : Text → List Text → Bool
is_attempted addr attempted = any (text_beq addr) attempted

abbrev pub farther_of : ℕ → Option ℕ → Option ℕ
farther_of dist none = some dist
farther_of dist (some farthest) = some (if ltb farthest dist then dist else farthest)

abbrev pub or_max : Option ℕ → ℕ
or_max none = id_space
or_max (some farthest) = farthest

abbrev pub start : Dht → StoreRun
start d = record { node = d; attempted = []; success_count = 0; last_err = none }

abbrev pub store_queue : (Text → NodeId) → ℕ → Text → Dht → List Text
store_queue sha256 k task d = node_addresses (find_k_closest_nodes sha256 task k d)

-- With no success the last error is wrapped, if there was one.
abbrev pub outcome : StoreRun → Result (Option Text) Unit
outcome r = if ltb 0 r.success_count then ok tt else err r.last_err

abbrev pub finished : Option StoreRun → Option (Result (Option Text) Unit × Dht)
finished none = none
finished (some r) = some (outcome r, r.node)

module _ (sha256 : Text → NodeId) where
  unfoldable pub farthest_among : NodeId → List Text → Option ℕ
  farthest_among task_hash [] = none
  farthest_among task_hash (addr ∷ attempted) =
      farther_of (distance task_hash (hash_address sha256 addr))
        (farthest_among task_hash attempted)

  unfoldable pub get_farthest_distance : NodeId → List Text → ℕ
  get_farthest_distance task_hash attempted = or_max (farthest_among task_hash attempted)

  -- The loop over the suggested addresses, with what is queued and the peers that are added.
  unfoldable pub queue_closer :
      NodeId → ℕ → ℕ → List Text → List Text → List Text → Dht → List Text × Dht
  queue_closer task_hash farthest now attempted [] queue d = (queue, d)
  queue_closer task_hash farthest now attempted (addr ∷ suggested) queue d =
      let closer = ltb (distance task_hash (hash_address sha256 addr)) farthest in
      queue_closer task_hash farthest now attempted suggested
        (if is_attempted addr attempted
          then queue
          else if closer
          then queue ++ (addr ∷ [])
          else queue)
        (add_peer sha256 addr now d)

module _ (sha256 : Text → NodeId) (k : ℕ) {Raw : Type 0} (json : Suggestions Raw)
    (send : Text → Result Text (Message Raw)) (clock : Text → ℕ) (task address : Text) where
  abbrev pub follow : Option (List Text) → ℕ → List Text → StoreRun → List Text × StoreRun
  follow none now queue r = (queue, r)
  follow (some suggested) now queue r =
      let task_hash = hash_task sha256 task in
      let farthest = get_farthest_distance sha256 task_hash r.attempted in
      let (queue', node') =
        queue_closer sha256 task_hash farthest now r.attempted suggested queue r.node in
      (queue', record r { node = node' })

  abbrev pub on_response :
      Result Text (Message Raw) → ℕ → List Text → StoreRun → List Text × StoreRun
  on_response (err e) now queue r = (queue, record r { last_err = some e })
  on_response (ok resp) now queue r =
      if resp.kind == codes "OK"
      then (queue, record r { success_count = r.success_count + 1 })
      else if resp.kind == codes "NOT_RESPONSIBLE" && ltb 0 (json.payload_length resp.payload)
      then follow (json.unmarshal_closest resp.payload) now queue r
      else (queue, r)

  -- The body of the loop for an address that is new.
  unfoldable pub contact : Text → List Text → StoreRun → List Text × StoreRun
  contact addr queue r =
      if addr == r.node.self.address
      then (
        queue,
        record r {
          node = store_task task address (clock addr) r.node;
          success_count = r.success_count + 1;
        },
      )
      else on_response (send addr) (clock addr) queue r

  -- One round of the loop, the address taken from the queue.
  unfoldable pub visit : Text → List Text → StoreRun → List Text × StoreRun
  visit addr queue r =
      if is_attempted addr r.attempted
      then (queue, r)
      else contact addr queue (record r { attempted = addr ∷ r.attempted })

  -- The loop with the rounds left; `none` is a queue that is not yet empty.
  unfoldable pub store_rounds : ℕ → List Text → StoreRun → Option StoreRun
  store_rounds fuel [] r = some r
  store_rounds zero (addr ∷ queue) r = none
  store_rounds (suc fuel) (addr ∷ queue) r =
      let (queue', r') = visit addr queue r in store_rounds fuel queue' r'

  unfoldable pub store : ℕ → Dht → Option (Result (Option Text) Unit × Dht)
  store fuel d = finished (store_rounds fuel (store_queue sha256 k task d) (start d))
