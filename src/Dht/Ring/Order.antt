-- ===== src/Dht/Ring/Order.antt =====
-- The ring is at all times the sorted list of this node's identifier and those of its peers.
use task_discovery_service.Prelude.{
  ℕ, ◌≡◌, refl, sym, ap, ◌∙◌, some, [], ◌∷◌, Text, nat_eq, nat_beq_iff, arith, Option-cases, inl,
  inr,
}
use task_discovery_service.Prelude.Sorting.{sort_by}
use task_discovery_service.Assoc.{
  Assoc, lookup, insert, delete, Distinct, insert-Distinct, delete-Distinct,
}
use task_discovery_service.Dht.{NodeId, Node, Dht}
use task_discovery_service.Dht.Address.{hash_address}
use task_discovery_service.Dht.Ring.{
  peer_ids, rebuild_ring, new_dht, add_peer, set_self_address, remove_peer,
}

-- Each peer stands under its own identifier.
abbrev pub IsKeyed : Assoc NodeId Node → Type 0
IsKeyed [] = Unit
IsKeyed ((id, node) ∷ peers) = (node.id ≡ id) × IsKeyed peers

pub record IsBuilt (d : Dht) : Type 0 where
  pub built : d.ring ≡ sort_by (λ id. id) (d.self.id ∷ peer_ids d.peers)
  pub distinct : Distinct d.peers
  pub keyed : IsKeyed d.peers

peer_ids-insert_known :
    (id : NodeId) (old new : Node) (peers : Assoc NodeId Node)
    → lookup id peers ≡ some old
    → peer_ids (insert id new peers) ≡ peer_ids peers
unfolding lookup insert
peer_ids-insert_known id old new [] h = cc
peer_ids-insert_known id old new ((j, n) ∷ peers) h =
    ground (arith, peer_ids-insert_known id old new peers, nat_beq_iff j id)

insert-IsKeyed :
    (id : NodeId) (node : Node) (peers : Assoc NodeId Node)
    → node.id ≡ id
    → IsKeyed peers
    → IsKeyed (insert id node peers)
unfolding insert
insert-IsKeyed id node [] e k = (e, tt)
insert-IsKeyed id node ((j, n) ∷ peers) e k = ground (arith, insert-IsKeyed id node peers e k.1)

delete-IsKeyed :
    (id : NodeId) (peers : Assoc NodeId Node) → IsKeyed peers → IsKeyed (delete id peers)
unfolding delete
delete-IsKeyed id [] k = tt
delete-IsKeyed id ((j, n) ∷ peers) k = ground (arith, delete-IsKeyed id peers k.1)

lookup-IsKeyed :
    (id : NodeId) (node : Node) (peers : Assoc NodeId Node)
    → IsKeyed peers
    → lookup id peers ≡ some node
    → node.id ≡ id
unfolding lookup
lookup-IsKeyed id node [] k h = cc
lookup-IsKeyed id node ((j, n) ∷ peers) k h =
    ground (arith, lookup-IsKeyed id node peers k.1, nat_beq_iff j id)

module _ (sha256 : Text → NodeId) where
  pub new_dht-IsBuilt : (listen_addr : Text) (now : ℕ) → IsBuilt (new_dht sha256 listen_addr now)
  unfolding new_dht
  new_dht-IsBuilt listen_addr now = record { built = refl; distinct = tt; keyed = tt }

  pub add_peer-IsBuilt :
      (address : Text) (now : ℕ) (d : Dht) → IsBuilt d → IsBuilt (add_peer sha256 address now d)
  unfolding add_peer rebuild_ring
  add_peer-IsBuilt address now d h =
      let id = hash_address sha256 address in
      elim (Option-cases (lookup id d.peers)) [
        | inl e ↦
            rw (e, add_peer)
              (record {
                built = refl;
                distinct = insert-Distinct id _ d.peers h.distinct;
                keyed = insert-IsKeyed id _ d.peers refl h.keyed;
              })
        | inr (peer, e) ↦
            rw (e, add_peer)
              (record {
                built =
                    h.built
                    ∙ ap (λ ids. sort_by (λ id. id) (d.self.id ∷ ids))
                        (sym (peer_ids-insert_known id peer _ d.peers e));
                distinct = insert-Distinct id _ d.peers h.distinct;
                keyed =
                    insert-IsKeyed id _ d.peers (lookup-IsKeyed id peer d.peers h.keyed e) h.keyed;
              })
      ]

  pub set_self_address-IsBuilt :
      (address : Text) (d : Dht) → IsBuilt d → IsBuilt (set_self_address sha256 address d)
  unfolding set_self_address rebuild_ring
  set_self_address-IsBuilt address d h = record {
    built = refl;
    distinct = h.distinct;
    keyed = h.keyed;
  }

pub remove_peer-IsBuilt : (id : NodeId) (d : Dht) → IsBuilt d → IsBuilt (remove_peer id d)
unfolding remove_peer rebuild_ring
remove_peer-IsBuilt id d h = record {
  built = refl;
  distinct = delete-Distinct id d.peers h.distinct;
  keyed = delete-IsKeyed id d.peers h.keyed;
}
