-- ===== src/Dht/Network/Peers/Own.antt =====
-- How often a node stands in its own ring: once, and twice if it is its own peer.
use task_discovery_service.Prelude.{
  ℕ, suc, ◌≡◌, refl, sym, ap, ◌∙◌, subst, Bool, true, false, ◌||◌, Option, none, some, List, [],
  ◌∷◌, Text, text_eq, nat_eq, nat_beq, nat_beq_iff, if◌then◌else◌, is_some, arith, length, keep_if,
  beq_refl, Bool-cases, Option-cases, inl, inr,
}
use task_discovery_service.Prelude.Sorting.{insert_by, sort_by}
use task_discovery_service.Assoc.{Assoc, lookup, lookup-insert, Distinct}
use task_discovery_service.Dht.{NodeId, Node, Dht}
use task_discovery_service.Dht.Address.{hash_address}
use task_discovery_service.Dht.Ring.{peer_ids, rebuild_ring, add_peer}
use task_discovery_service.Dht.Ring.Order.{IsBuilt}

abbrev pub occurrences : NodeId → List NodeId → ℕ
occurrences id ids = length (keep_if (nat_beq id) ids)

occurrences-insert_by :
    (id x : NodeId) (ids : List NodeId)
    → occurrences id (insert_by (λ i. i) x ids) ≡ occurrences id (x ∷ ids)
occurrences-insert_by id x [] = refl
occurrences-insert_by id x (y ∷ ids) = ground (arith, occurrences-insert_by id x ids)

occurrences-sort_by :
    (id : NodeId) (ids : List NodeId) → occurrences id (sort_by (λ i. i) ids) ≡ occurrences id ids
occurrences-sort_by id [] = refl
occurrences-sort_by id (x ∷ ids) =
    occurrences-insert_by id x (sort_by (λ i. i) ids) ∙ ground (arith, occurrences-sort_by id ids)

occurrences-absent :
    (id : NodeId) (peers : Assoc NodeId Node)
    → lookup id peers ≡ none
    → occurrences id (peer_ids peers) ≡ 0
unfolding lookup
occurrences-absent id [] h = refl
occurrences-absent id ((j, n) ∷ peers) h =
    ground (arith, occurrences-absent id peers, nat_beq_iff id j, nat_beq_iff j id)

differ : (j id : NodeId) → nat_beq j id ≡ false → nat_beq id j ≡ false
differ j id e = ground (arith, nat_beq_iff j id, nat_beq_iff id j)

occurrences-peers :
    (id : NodeId) (peers : Assoc NodeId Node)
    → Distinct peers
    → occurrences id (peer_ids peers) ≡ (if is_some (lookup id peers) then 1 else 0)
unfolding lookup
occurrences-peers id [] h = refl
occurrences-peers id ((j, n) ∷ peers) h = elim (Bool-cases (nat_beq j id)) [
  | inl e ↦
      let same : j ≡ id = (nat_beq_iff j id).0 e in
      let none_left = occurrences-absent id peers (subst (λ i. lookup i peers ≡ none) same h.0) in
      rw (e, (nat_beq_iff id j).1 (sym same)) (ap suc none_left)
  | inr e ↦ rw (e, differ j id e) (occurrences-peers id peers h.1)
]

-- On a ring built from its peers, a node stands in it once, and twice if it is its own peer.
pub occurrences-ring :
    (d : Dht)
    → IsBuilt d
    → occurrences d.self.id d.ring ≡ (if is_some (lookup d.self.id d.peers) then 2 else 1)
occurrences-ring d b =
    let counted = occurrences-peers d.self.id d.peers b.distinct in
    ap (occurrences d.self.id) b.built
    ∙ occurrences-sort_by d.self.id (d.self.id ∷ peer_ids d.peers)
    ∙ rw (beq_refl d.self.id) (ap suc counted ∙ one_more (is_some (lookup d.self.id d.peers)))
  where
    one_more : (b : Bool) → suc (if b then 1 else 0) ≡ (if b then 2 else 1)
    one_more true = refl
    one_more false = refl

either :
    (b : Bool) (node : Node) (o : Option Node)
    → is_some (if b then some node else o) ≡ (b || is_some o)
either true node o = refl
either false node o = refl

module _ (sha256 : Text → NodeId) where
  -- A peer that is added is there afterwards, and no other one is new.
  pub is_some-add_peer :
      (addr : Text) (now : ℕ) (d : Dht) (id : NodeId)
      → is_some (lookup id (add_peer sha256 addr now d).peers)
        ≡ (nat_beq (hash_address sha256 addr) id || is_some (lookup id d.peers))
  unfolding add_peer rebuild_ring
  is_some-add_peer addr now d id = elim (Option-cases (lookup (hash_address sha256 addr) d.peers)) [
    | inl e ↦
        rw (e, add_peer) (rw (lookup-insert (hash_address sha256 addr) id _ d.peers) (either _ _ _))
    | inr (peer, e) ↦
        rw (e, add_peer) (rw (lookup-insert (hash_address sha256 addr) id _ d.peers) (either _ _ _))
  ]

  pub add_peer-self : (addr : Text) (now : ℕ) (d : Dht) → (add_peer sha256 addr now d).self ≡ d.self
  unfolding add_peer rebuild_ring
  add_peer-self addr now d = ground arith
