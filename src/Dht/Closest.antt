-- ===== src/Dht/Closest.antt =====
-- The k closest nodes of a task, and whether this node is one of them.
pub mod Selection
pub mod Single
use task_discovery_service.Prelude.{
  ℕ, zero, suc, Bool, true, false, Option, none, some, List, [], ◌∷◌, map, Text, nat_beq,
  if◌then◌else◌, take, any,
}
use task_discovery_service.Prelude.Sorting.{sort_by}
use task_discovery_service.Dht.{NodeId, Node, Dht}
use task_discovery_service.Dht.Address.{hash_task}
use task_discovery_service.Dht.Ring.{distance, node_of}

-- A node with its distance.
abbrev pub NodeDistance : Type 0
NodeDistance = Option Node × ℕ

-- The loop of AmIInKClosest; `none` is a nil pointer that is read.
abbrev pub self_among : NodeId → List (Option Node) → Option Bool
self_among id [] = some false
self_among id (none ∷ nodes) = none
self_among id (some node ∷ nodes) =
    let rest = self_among id nodes in if nat_beq node.id id then some true else rest

module _ (sha256 : Text → NodeId) where
  abbrev pub k_closest_of : Text → ℕ → Dht → List NodeId → List (Option Node)
  k_closest_of task k d [] = some d.self ∷ []
  k_closest_of task k d (first ∷ others) =
      let task_id = hash_task sha256 task in
      let distances : List NodeDistance =
        map (λ id. (node_of d id, distance task_id id)) (first ∷ others) in
      map (λ n. n.0) (take k (sort_by (λ n. n.1) distances))

  -- FindKClosestNodes, and findKClosestNodesLocked, which is the same code under the lock.
  unfoldable pub find_k_closest_nodes : Text → ℕ → Dht → List (Option Node)
  find_k_closest_nodes task k d = k_closest_of task k d d.ring

  unfoldable pub am_i_in_k_closest : Text → ℕ → Dht → Option Bool
  am_i_in_k_closest task k d = self_among d.self.id (find_k_closest_nodes task k d)

  abbrev pub self_closest_of : Text → ℕ → NodeId → List NodeId → Bool
  self_closest_of task k self [] = true
  self_closest_of task k self (first ∷ others) =
      let task_id = hash_task sha256 task in
      let distances : List (NodeId × ℕ) = map (λ id. (id, distance task_id id)) (first ∷ others) in
      any (λ n. nat_beq n.0 self) (take k (sort_by (λ n. n.1) distances))

  -- amIInKClosestLocked, which compares identifiers and reads no node.
  unfoldable pub am_i_in_k_closest_locked : Text → ℕ → Dht → Bool
  am_i_in_k_closest_locked task k d = self_closest_of task k d.self.id d.ring
