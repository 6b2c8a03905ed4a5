-- ===== src/Dht/Ring.antt =====
-- Peers and the sorted ring of identifiers.
pub mod Order
pub mod History
pub mod Distance
pub mod Search
use task_discovery_service.Prelude.{
  ℕ, zero, suc, ◌+◌, ◌-◌, ◌/◌, Bool, true, false, not, Option, none, some, List, [], ◌∷◌, map, Text,
  ◌==◌, nat_eq, nat_beq, if◌then◌else◌, ltb, leb, length, get_elem?,
}
use task_discovery_service.Prelude.Sorting.{sort_by}
use task_discovery_service.Assoc.{Assoc, lookup, insert, delete}
use task_discovery_service.Dht.{NodeId, Node, Dht, id_space}
use task_discovery_service.Dht.Address.{hash_address, hash_task, advertise_address}

-- Distance: the way from a to b clockwise round the ring.
unfoldable pub distance : NodeId → NodeId → ℕ
distance a b = if ltb b a then b + id_space - a else b - a

abbrev pub peer_ids : Assoc NodeId Node → List NodeId
peer_ids = map (λ e. e.0)

unfoldable pub rebuild_ring : Dht → Dht
rebuild_ring d = record d { ring = sort_by (λ id. id) (d.self.id ∷ peer_ids d.peers) }

module _ (sha256 : Text → NodeId) where
  unfoldable pub new_dht : Text → ℕ → Dht
  unfolding advertise_address
  new_dht listen_addr now =
      let addr = advertise_address listen_addr in
      let id = hash_address sha256 addr in
      record {
        self = record { id = id; address = addr; last_seen = now };
        peers = [];
        ring = id ∷ [];
        storage = [];
        listen_addr = listen_addr;
        has_network = false;
      }

  -- A peer that is known has been seen; a new one changes the ring.
  unfoldable pub add_peer : Text → ℕ → Dht → Dht
  add_peer address now d =
      let id = hash_address sha256 address in
      elim (lookup id d.peers) [
        | some peer ↦ record d { peers = insert id (record peer { last_seen = now }) d.peers }
        | none ↦ rebuild_ring (record d {
          peers = insert id (record { id = id; address = address; last_seen = now }) d.peers;
        })
      ]

  -- The part of Start that gives the node its address and rebuilds the ring.
  unfoldable pub set_self_address : Text → Dht → Dht
  set_self_address address d =
      rebuild_ring
        (record d { self = record d.self { address = address; id = hash_address sha256 address } })

unfoldable pub remove_peer : NodeId → Dht → Dht
remove_peer id d = rebuild_ring (record d { peers = delete id d.peers })

-- The node of an identifier of the ring; `none` is a nil pointer.
unfoldable pub node_of : Dht → NodeId → Option Node
node_of d id = if id == d.self.id then some d.self else lookup id d.peers

-- sort.Search with the rounds left: from `i` to `j` the least place at which the test holds.
unfoldable pub search_between : ℕ → (ℕ → Bool) → ℕ → ℕ → ℕ
search_between zero f i j = i
search_between (suc fuel) f i j =
    let h = (i + j) / 2 in
    let above = search_between fuel f (h + 1) j in
    let below = search_between fuel f i h in if ltb i j then (if f h then below else above) else i

abbrev pub at_or_after : List NodeId → NodeId → ℕ → Bool
at_or_after ring id i = elim (get_elem? ring i) [ none ↦ true | some other ↦ leb id other ]

-- The place of the first identifier not before `id`, or 0 behind the last; a search over n places
-- takes at most n rounds.
unfoldable pub successor_index : List NodeId → NodeId → ℕ
successor_index ring id =
    let n = length ring in
    let i = search_between n (at_or_after ring id) 0 n in if leb n i then 0 else i

abbrev pub closest_of : NodeId → Dht → List NodeId → Option Node
closest_of task_id d [] = some d.self
closest_of task_id d (first ∷ others) =
    elim (get_elem? (first ∷ others) (successor_index (first ∷ others) task_id)) [
      | none ↦ none
      | some id ↦ node_of d id
    ]

unfoldable pub find_closest_node : (Text → NodeId) → Text → Dht → Option Node
find_closest_node sha256 task d = closest_of (hash_task sha256 task) d d.ring

-- `none` is a nil pointer.
unfoldable pub is_responsible_for : (Text → NodeId) → Text → Dht → Option Bool
is_responsible_for sha256 task d = elim (find_closest_node sha256 task d) [
  | none ↦ none
  | some node ↦ some (nat_beq node.id d.self.id)
]

abbrev set_network : Dht → Dht
set_network d = record d { has_network = true }

abbrev get_peers : Dht → List Node
get_peers d = map (λ e. e.1) d.peers

abbrev get_ring_size : Dht → ℕ
get_ring_size d = length d.ring
