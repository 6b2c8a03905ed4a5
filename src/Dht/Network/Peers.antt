-- ===== src/Dht/Network/Peers.antt =====
-- pkg/dht/network.go: the calls by which a node learns and forgets peers. `send` is what sendMessage
-- gives for an address, and `clock` the time at which that address is asked.
pub mod Own
pub mod Joining
pub mod Doubling
use task_discovery_service.Prelude.{
  ℕ, ◌+◌, Bool, true, false, Option, none, some, List, [], ◌∷◌, Text, ◌==◌, text_eq, if◌then◌else◌,
}
use task_discovery_service.Prelude.Result.{Result, ok, err}
use task_discovery_service.Text.{codes}
use task_discovery_service.Dht.{NodeId, Node, Dht}
use task_discovery_service.Dht.Address.{hash_address}
use task_discovery_service.Dht.Ring.{add_peer, remove_peer}
use task_discovery_service.Dht.Storage.{cleanup_expired_registrations, cleanup_stale_data}
use task_discovery_service.Dht.Network.{Message}

module _ (sha256 : Text → NodeId) where
  -- The loop over the peers of a list: the node itself is left out.
  unfoldable pub add_listed : List Text → ℕ → Dht → Dht
  add_listed [] now d = d
  add_listed (peer ∷ peers) now d =
      add_listed peers now (if peer == d.self.address then d else add_peer sha256 peer now d)

  module _ {Raw : Type 0} (unmarshal_peers : Raw → Option (List Text))
      (send : Text → Result Text (Message Raw)) (clock : Text → ℕ) where
    abbrev pub with_bootstrap : Text → Option (List Text) → Dht → Dht
    with_bootstrap bootstrap none d = d
    with_bootstrap bootstrap (some peers) d =
        let now = clock bootstrap in add_peer sha256 bootstrap now (add_listed peers now d)

    -- What the answer of a bootstrap node to JOIN adds.
    abbrev pub on_join : Text → Result Text (Message Raw) → Dht → Dht
    on_join bootstrap (err e) d = d
    on_join bootstrap (ok resp) d =
        if resp.kind == codes "PEERLIST"
        then with_bootstrap bootstrap (unmarshal_peers resp.payload) d
        else add_peer sha256 bootstrap (clock bootstrap) d

    unfoldable pub join_network : List Text → Dht → Dht
    join_network [] d = d
    join_network (bootstrap ∷ bootstraps) d =
        join_network bootstraps
          (if bootstrap == d.self.address then d else on_join bootstrap (send bootstrap) d)

    abbrev pub with_listed : Text → Option (List Text) → Dht → Dht
    with_listed bootstrap none d = d
    with_listed bootstrap (some peers) d = add_listed peers (clock bootstrap) d

    abbrev pub on_discovery : Text → Result Text (Message Raw) → Dht → Dht
    on_discovery bootstrap (err e) d = d
    on_discovery bootstrap (ok resp) d =
        if resp.kind == codes "PEERLIST"
        then with_listed bootstrap (unmarshal_peers resp.payload) d
        else d

    -- One tick of peerDiscoveryLoop.
    unfoldable pub discover_peers : List Text → Dht → Dht
    discover_peers [] d = d
    discover_peers (bootstrap ∷ bootstraps) d =
        discover_peers bootstraps
          (if bootstrap == d.self.address then d else on_discovery bootstrap (send bootstrap) d)

    abbrev pub unless_reached : Text → Result Text (Message Raw) → Dht → Dht
    unless_reached addr (err e) d = remove_peer (hash_address sha256 addr) d
    unless_reached addr (ok resp) d = d

    unfoldable pub ping_peer : Text → Dht → Dht
    ping_peer addr d = unless_reached addr (send addr) d

    -- The cleanups of one tick of maintenanceLoop, and how many entries they removed; its pings are
    -- calls of their own.
    unfoldable pub maintain : ℕ → ℕ → ℕ → Dht → Dht × ℕ
    maintain k timeout now d =
        let (expired_d, expired) = cleanup_expired_registrations timeout now d in
        let (stale_d, removed) = cleanup_stale_data sha256 k expired_d in
        (stale_d, expired + removed)
