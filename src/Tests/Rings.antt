-- ===== src/Tests/Rings.antt =====
-- A ring of three nodes.
use task_discovery_service.Prelude.{
  ◌≤◌, ◌≡◌, refl, false, ◌&&◌, none, some, List, [], ◌∷◌, ◌++◌, map, ◌==◌, text_eq, if◌then◌else◌,
  All, Perm, arith, length, min, keep_if,
}
use task_discovery_service.Assoc.{lookup, Distinct}
use task_discovery_service.Text.{codes}
use task_discovery_service.Dht.{NodeId, Dht, IsDigest}
use task_discovery_service.Dht.Address.{hash_task}
use task_discovery_service.Dht.Ring.{distance, new_dht, node_of, find_closest_node}
use task_discovery_service.Dht.Ring.Order.{IsBuilt}
use task_discovery_service.Dht.Ring.History.{
  IsNamed, IsRing, RingCall, adds, ring_run, ring_run-IsRing, IsBuilt-IsRing,
}
use task_discovery_service.Dht.Closest.{
  find_k_closest_nodes, am_i_in_k_closest, am_i_in_k_closest_locked,
}
use task_discovery_service.Dht.Closest.Selection.{
  ring-ne-nil, find_k_closest-closest, am_i_in_k_closest-locked,
}
use task_discovery_service.Dht.Closest.Single.{find_closest-find_k_closest}
use task_discovery_service.Dht.Storage.{
  or_nil, store_task, cleanup_expired_registrations, cleanup_stale_data, is_fresh,
}
use task_discovery_service.Dht.Storage.Heartbeats.{heartbeat_of, heartbeat_of-store_task}
use task_discovery_service.Dht.Storage.Expiry.{
  expired_count, is_kept, cleanup_expired-fresh, cleanup_stale-kept,
}
use task_discovery_service.Tests.Samples.{digest, gate}

-- A node that met two others.
abbrev pub joins : List RingCall
joins = adds (codes "b:2") 1 ∷ adds (codes "c:3") 2 ∷ []

ring_example : IsRing (ring_run digest joins (new_dht digest (codes ":1") 0))
ring_example = ring_run-IsRing digest (codes ":1") 0 joins

-- The state with three identifiers, 10, 20 and 60, and with gate stored.
abbrev pub three : Dht
three = record {
  self = record { id = 10; address = codes "a:1"; last_seen = 0 };
  peers =
      (20, record { id = 20; address = codes "b:2"; last_seen = 1 })
      ∷ (60, record { id = 60; address = codes "c:3"; last_seen = 2 })
      ∷ [];
  ring = 10 ∷ 20 ∷ 60 ∷ [];
  storage = (gate, record { address = codes "abcd:80"; last_heartbeat = 5 } ∷ []) ∷ [];
  listen_addr = codes ":1";
  has_network = false;
}

pub three-IsBuilt : IsBuilt three
unfolding lookup
three-IsBuilt = record { built = refl; distinct = (refl, (refl, tt)); keyed = (refl, (refl, tt)) }

closest_example :
    (chosen others : List NodeId) × (find_k_closest_nodes digest gate 2 three
      ≡ map (node_of three) chosen)
    × All (IsNamed three) chosen
    × Perm (chosen ++ others) three.ring
    × (length chosen ≡ min 2 (length three.ring))
    × All
        (λ x.
          All (λ y. distance (hash_task digest gate) x ≤ distance (hash_task digest gate) y) others)
        chosen
closest_example =
    find_k_closest-closest digest gate 2 three (IsBuilt-IsRing three three-IsBuilt)
      (ring-ne-nil three three-IsBuilt)

locked_example :
    am_i_in_k_closest digest gate 2 three ≡ some (am_i_in_k_closest_locked digest gate 2 three)
locked_example =
    am_i_in_k_closest-locked digest gate 2 three (IsBuilt-IsRing three three-IsBuilt)
      (ring-ne-nil three three-IsBuilt)

digest-IsDigest : IsDigest digest
digest-IsDigest [] = omega arith
digest-IsDigest (c ∷ s) = omega arith

single_example : find_k_closest_nodes digest gate 1 three ≡ find_closest_node digest gate three ∷ []
single_example =
    find_closest-find_k_closest digest gate three digest-IsDigest three-IsBuilt (ground arith)

gate-once : Distinct three.storage
unfolding lookup
gate-once = (refl, tt)

expired_example :
    (or_nil (lookup gate (cleanup_expired_registrations 4 8 three).0.storage)
      ≡ keep_if (is_fresh 8 4) (or_nil (lookup gate three.storage)))
    × ((cleanup_expired_registrations 4 8 three).1 ≡ expired_count 8 4 three.storage)
expired_example = cleanup_expired-fresh 8 4 gate three (omega arith) gate-once

stale_example :
    lookup gate (cleanup_stale_data digest 2 three).0.storage
    ≡ (if is_kept digest 2 gate three then lookup gate three.storage else none)
stale_example = cleanup_stale-kept digest 2 gate three gate-once

heartbeat_example :
    heartbeat_of gate (codes "abcd:80") (store_task gate (codes "abcd:80") 7 three) ≡ (
      if gate == gate && codes "abcd:80" == codes "abcd:80"
      then some 7
      else heartbeat_of gate (codes "abcd:80") three)
heartbeat_example = heartbeat_of-store_task gate (codes "abcd:80") gate (codes "abcd:80") 7 three
