-- ===== src/Dht/Ring/History.antt =====
-- What holds of the ring after any history of joins, losses and changes of the own address.
use task_discovery_service.Prelude.{
  ℕ, ◌≡◌, refl, sym, subst, some, List, [], ◌∷◌, Text, ◌==◌, nat_eq, nat_beq_iff, arith, All,
  All-imp, Perm, Bool-cases, inl, inr,
}
use task_discovery_service.Prelude.Sorting.{Sorted, sort_by-Sorted, sort_by-perm, All-sort_by}
use task_discovery_service.Assoc.{Assoc, lookup, Distinct}
use task_discovery_service.Dht.{NodeId, Node, Dht}
use task_discovery_service.Dht.Ring.{
  peer_ids, new_dht, add_peer, set_self_address, remove_peer, node_of,
}
use task_discovery_service.Dht.Ring.Order.{
  IsBuilt, IsKeyed, new_dht-IsBuilt, add_peer-IsBuilt, set_self_address-IsBuilt,
  remove_peer-IsBuilt,
}

-- The node of an identifier is there, and has that identifier.
abbrev pub IsNamed : Dht → NodeId → Type 0
IsNamed d id = (node : Node) × (node_of d id ≡ some node) × (node.id ≡ id)

pub record IsRing (d : Dht) : Type 0 where
  pub sorted : Sorted (λ id. id) d.ring
  pub complete : Perm d.ring (d.self.id ∷ peer_ids d.peers)
  pub named : All (IsNamed d) d.ring
  pub distinct : Distinct d.peers

abbrev IsPeer : Assoc NodeId Node → NodeId → Type 0
IsPeer peers id = (node : Node) × (lookup id peers ≡ some node) × (node.id ≡ id)

IsPeer-cons :
    (j : NodeId) (n : Node) (peers : Assoc NodeId Node) (id : NodeId)
    → n.id ≡ j
    → IsPeer peers id
    → IsPeer ((j, n) ∷ peers) id
unfolding lookup
IsPeer-cons j n peers id e (node, found, same) = elim (Bool-cases (j == id)) [
  | inl b ↦ (n, rw b refl, ground (arith, nat_beq_iff j id))
  | inr b ↦ (node, rw b found, same)
]

peers-IsPeer : (peers : Assoc NodeId Node) → IsKeyed peers → All (IsPeer peers) (peer_ids peers)
unfolding lookup
peers-IsPeer [] k = tt
peers-IsPeer ((j, n) ∷ peers) k = (
  (n, ground (arith, nat_beq_iff j j), k.0),
  All-imp (IsPeer peers) (IsPeer ((j, n) ∷ peers)) (peer_ids peers)
      (λ id. IsPeer-cons j n peers id k.0) (peers-IsPeer peers k.1),
)

peer-IsNamed : (d : Dht) (id : NodeId) → IsPeer d.peers id → IsNamed d id
unfolding node_of
peer-IsNamed d id (node, found, same) = elim (Bool-cases (id == d.self.id)) [
  | inl b ↦ (d.self, rw b refl, ground (arith, nat_beq_iff id d.self.id))
  | inr b ↦ (node, rw b found, same)
]

self-IsNamed : (d : Dht) → IsNamed d d.self.id
unfolding node_of
self-IsNamed d = (d.self, ground (arith, nat_beq_iff d.self.id d.self.id), refl)

pub IsBuilt-IsRing : (d : Dht) → IsBuilt d → IsRing d
IsBuilt-IsRing d h =
    let ids = d.self.id ∷ peer_ids d.peers in
    record {
      sorted = subst (Sorted (λ id. id)) (sym h.built) (sort_by-Sorted (λ id. id) ids);
      complete = subst (λ r. Perm r ids) (sym h.built) (sort_by-perm (λ id. id) ids);
      named = subst (All (IsNamed d)) (sym h.built) (
          All-sort_by (λ id. id) (IsNamed d) ids
            (
              self-IsNamed d,
              All-imp (IsPeer d.peers) (IsNamed d) (peer_ids d.peers) (peer-IsNamed d)
                  (peers-IsPeer d.peers h.keyed),
            ));
      distinct = h.distinct;
    }

-- The calls that change peers, the ring or the own address.
pub data RingCall : Type 0 where
  adds : Text → ℕ → RingCall
  removes : NodeId → RingCall
  moves : Text → RingCall

module _ (sha256 : Text → NodeId) where
  unfoldable pub ring_step : RingCall → Dht → Dht
  ring_step (adds address now) d = add_peer sha256 address now d
  ring_step (removes id) d = remove_peer id d
  ring_step (moves address) d = set_self_address sha256 address d

  unfoldable pub ring_run : List RingCall → Dht → Dht
  ring_run [] d = d
  ring_run (c ∷ cs) d = ring_run cs (ring_step c d)

  ring_step-IsBuilt : (c : RingCall) (d : Dht) → IsBuilt d → IsBuilt (ring_step c d)
  unfolding ring_step
  ring_step-IsBuilt (adds address now) d h = add_peer-IsBuilt sha256 address now d h
  ring_step-IsBuilt (removes id) d h = remove_peer-IsBuilt id d h
  ring_step-IsBuilt (moves address) d h = set_self_address-IsBuilt sha256 address d h

  pub ring_run-IsBuilt : (cs : List RingCall) (d : Dht) → IsBuilt d → IsBuilt (ring_run cs d)
  unfolding ring_run
  ring_run-IsBuilt [] d h = h
  ring_run-IsBuilt (c ∷ cs) d h = ring_run-IsBuilt cs (ring_step c d) (ring_step-IsBuilt c d h)

  -- After any history the ring is sorted, it holds this node's identifier and those of the peers
  -- and no other, each as often as it stands there, no identifier is twice among the peers, and
  -- each identifier of the ring has its node: none is a nil pointer.
  pub ring_run-IsRing :
      (listen_addr : Text) (now : ℕ) (cs : List RingCall)
      → IsRing (ring_run cs (new_dht sha256 listen_addr now))
  ring_run-IsRing listen_addr now cs =
      IsBuilt-IsRing _ (ring_run-IsBuilt cs _ (new_dht-IsBuilt sha256 listen_addr now))
