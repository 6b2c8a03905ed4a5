-- ===== src/Dht/Network/Find.antt =====
-- pkg/dht/network.go, Find: the local answer of a node among the k closest, and else the first answer
-- that another of them gives. `ask` is what a peer answers to FIND for the task: no address for an
-- error, for NOTFOUND and for a payload that is not read.
use task_discovery_service.Prelude.{
  ℕ, ◌≡◌, refl, ap, ◌∙◌, Bool, true, false, not, Option, none, some, List, [], ◌∷◌, map, Text,
  nat_beq, if◌then◌else◌, All, take, keep_if, Bool-cases, inl, inr,
}
use task_discovery_service.Prelude.Sorting.{All-sort_by, All-take}
use task_discovery_service.Assoc.{lookup}
use task_discovery_service.Prelude.{text_eq}
use task_discovery_service.Dht.{NodeId, Node, Dht}
use task_discovery_service.Dht.Address.{hash_task}
use task_discovery_service.Dht.Ring.{distance, node_of}
use task_discovery_service.Dht.Ring.Order.{IsBuilt}
use task_discovery_service.Dht.Ring.History.{IsNamed, IsBuilt-IsRing}
use task_discovery_service.Dht.Closest.{
  find_k_closest_nodes, self_among, am_i_in_k_closest, am_i_in_k_closest_locked,
}
use task_discovery_service.Dht.Closest.Selection.{
  by_distance, k_closest-take, ring-ne-nil, am_i_in_k_closest-locked,
}
use task_discovery_service.Dht.Storage.{or_nil, active_addresses, forward_lookup, lookup_task}
use task_discovery_service.Dht.Network.{Json}
use task_discovery_service.Dht.Network.Safety.{lookup_task-responsible}

abbrev pub or_ask : Option (List Text) → Option (List Text) → Option (List Text)
or_ask none rest = none
or_ask (some []) rest = rest
or_ask (some (a ∷ as')) rest = some (a ∷ as')

module _ (sha256 : Text → NodeId) (k timeout : ℕ) where
  abbrev pub find_among :
      (Text → List Text) → Text → ℕ → Dht → List (Option Node) → Option Bool → Option (List Text)
  find_among ask task now d closest none = none
  find_among ask task now d closest (some true) =
      or_ask (lookup_task sha256 k timeout ask task now d) (forward_lookup ask d.self.id closest)
  find_among ask task now d closest (some false) = forward_lookup ask d.self.id closest

  -- The loop over the other nodes asks as forwardLookup does.
  unfoldable pub find : (Text → List Text) → Text → ℕ → Dht → Option (List Text)
  find ask task now d =
      let closest = find_k_closest_nodes sha256 task k d in
      find_among ask task now d closest (self_among d.self.id closest)

-- The first list that has an address.
abbrev pub first_found : List (List Text) → List Text
first_found [] = []
first_found ([] ∷ rest) = first_found rest
first_found ((a ∷ as') ∷ rest) = a ∷ as'

abbrev pub address_of : Option Node → Text
address_of none = []
address_of (some node) = node.address

module _ (ask : Text → List Text) (d : Dht) where
  -- What the nodes of the identifiers answer, this node left out.
  abbrev pub asked : List NodeId → List (List Text)
  asked ids =
      map (λ id. ask (address_of (node_of d id))) (keep_if (λ id. not (nat_beq id d.self.id)) ids)

  first_answer :
      (answer : List Text) (rest : List (List Text)) (o : Option (List Text))
      → o ≡ some (first_found rest)
      → elim answer as (λ _. Option (List Text)) [ [] ↦ o | a ∷ as' ↦ some (a ∷ as') ]
        ≡ some (first_found (answer ∷ rest))
  first_answer [] rest o h = h
  first_answer (a ∷ as') rest o h = refl

  forward-asked :
      (ids : List NodeId)
      → All (IsNamed d) ids
      → forward_lookup ask d.self.id (map (node_of d) ids) ≡ some (first_found (asked ids))
  unfolding forward_lookup
  forward-asked [] h = refl
  forward-asked (id ∷ ids) ((node, found, same), h) = elim (Bool-cases (nat_beq id d.self.id)) [
    | inl e ↦ rw (found, same, forward_lookup, e) (forward-asked ids h)
    | inr e ↦
        rw (found, same, forward_lookup, e, found)
          (first_answer (ask node.address) (asked ids) _ (forward-asked ids h))
  ]

-- The lookup sends no payload of its own.
abbrev no_payload : Json
no_payload = record {
  Raw = Unit;
  empty = tt;
  unmarshal_store = λ raw. none;
  unmarshal_find = λ raw. none;
  marshal_found = λ task addrs. tt;
  marshal_peers = λ addrs. tt;
  marshal_closest = λ addrs. tt;
}

module _ (sha256 : Text → NodeId) (k timeout : ℕ) where
  -- What a node has itself: the recent addresses, if it is among the k closest.
  abbrev pub own_answer : Text → ℕ → Dht → List Text
  own_answer task now d =
      if am_i_in_k_closest_locked sha256 task k d
      then active_addresses (or_nil (lookup task d.storage)) now timeout
      else []

  or_ask-first :
      (own : List Text) (rest : List (List Text)) (o : Option (List Text))
      → o ≡ some (first_found rest)
      → or_ask (some own) o ≡ some (first_found (own ∷ rest))
  or_ask-first [] rest o h = h
  or_ask-first (a ∷ as') rest o h = refl

  forward-first :
      (ask : Text → List Text) (task : Text) (d : Dht)
      → IsBuilt d
      → forward_lookup ask d.self.id (find_k_closest_nodes sha256 task k d)
        ≡ some (first_found (asked ask d (take k (by_distance sha256 task d.ring))))
  forward-first ask task d b =
      let key : NodeId → ℕ = λ id. distance (hash_task sha256 task) id in
      let sorted = by_distance sha256 task d.ring in
      let named : All (IsNamed d) (take k sorted) =
        All-take key (IsNamed d) k sorted
          (All-sort_by key (IsNamed d) d.ring (IsBuilt-IsRing d b).named) in
      ap (forward_lookup ask d.self.id) (k_closest-take sha256 task k d (ring-ne-nil d b))
      ∙ forward-asked ask d (take k sorted) named

  find_among-first :
      (ask : Text → List Text) (task : Text) (now : ℕ) (d : Dht)
      → IsBuilt d
      → find_among sha256 k timeout ask task now d
          (find_k_closest_nodes sha256 task k d)
          (some (am_i_in_k_closest_locked sha256 task k d))
        ≡ some (
            first_found
              (own_answer task now d ∷ asked ask d (take k (by_distance sha256 task d.ring))))
  find_among-first ask task now d b = elim (Bool-cases (am_i_in_k_closest_locked sha256 task k d)) [
    | inl e ↦
        rw (e, lookup_task-responsible sha256 k timeout no_payload ask task now d b e)
          (or_ask-first _ _ _ (forward-first ask task d b))
    | inr e ↦ rw e (forward-first ask task d b)
  ]

  -- On a ring built from its peers, Find reads no nil pointer and returns the first answer that has
  -- an address, of the node's own if it is among the k closest to the task, and then of the other
  -- nodes among them from the closest one on; with no such answer it returns no address.
  pub find-first :
      (ask : Text → List Text) (task : Text) (now : ℕ) (d : Dht)
      → IsBuilt d
      → find sha256 k timeout ask task now d
        ≡ some (
            first_found
              (own_answer task now d ∷ asked ask d (take k (by_distance sha256 task d.ring))))
  unfolding find am_i_in_k_closest
  find-first ask task now d b =
      let closest = find_k_closest_nodes sha256 task k d in
      let here : self_among d.self.id closest ≡ some (am_i_in_k_closest_locked sha256 task k d) =
        am_i_in_k_closest-locked sha256 task k d (IsBuilt-IsRing d b) (ring-ne-nil d b) in
      ap (find_among sha256 k timeout ask task now d closest) here
      ∙ find_among-first ask task now d b
