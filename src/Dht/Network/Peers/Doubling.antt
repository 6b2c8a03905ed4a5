-- ===== src/Dht/Network/Peers/Doubling.antt =====
-- pkg/dht/network.go, Store: a node to which a refusal suggests itself becomes its own peer.
use task_discovery_service.Prelude.{
  ℕ, ◌≡◌, refl, sym, ap, ◌∙◌, subst, Bool, true, false, ◌||◌, List, [], ◌∷◌, Text, text_eq,
  text_beq, text_beq_iff, nat_eq, nat_beq, if◌then◌else◌, is_some, arith, beq_refl, Bool-cases, inl,
  inr,
}
use task_discovery_service.Assoc.{lookup}
use task_discovery_service.Dht.{NodeId, Dht}
use task_discovery_service.Dht.Address.{hash_address}
use task_discovery_service.Dht.Ring.{add_peer}
use task_discovery_service.Dht.Ring.Order.{IsBuilt, add_peer-IsBuilt}
use task_discovery_service.Dht.Network.Store.{is_attempted, queue_closer}
use task_discovery_service.Dht.Network.Peers.Own.{
  occurrences, occurrences-ring, is_some-add_peer, add_peer-self,
}

or_true : (b : Bool) → (b || true) ≡ true
or_true true = refl
or_true false = refl

module _ (sha256 : Text → NodeId) where
  -- The ring is built from the peers, of which the node itself is one, or comes.
  record IsDoubled (id : NodeId) (d : Dht) : Type 0 where
    named : d.self.id ≡ id
    built : IsBuilt d
    own : is_some (lookup id d.peers) ≡ true

  module _ (task_hash : NodeId) (farthest now : ℕ) (attempted : List Text) where
    stays-IsDoubled :
        (suggested queue : List Text) (id : NodeId) (d : Dht)
        → IsDoubled id d
        → IsDoubled id (queue_closer sha256 task_hash farthest now attempted suggested queue d).1
    unfolding queue_closer
    stays-IsDoubled [] queue id d i = i
    stays-IsDoubled (addr ∷ suggested) queue id d i =
        stays-IsDoubled suggested _ id (add_peer sha256 addr now d) (record {
          named = ap (λ s. s.id) (add_peer-self sha256 addr now d) ∙ i.named;
          built = add_peer-IsBuilt sha256 addr now d i.built;
          own =
              is_some-add_peer sha256 addr now d id
              ∙ rw i.own (or_true (nat_beq (hash_address sha256 addr) id));
        })

    becomes-IsDoubled :
        (suggested queue : List Text) (own : Text) (d : Dht)
        → IsBuilt d
        → d.self.id ≡ hash_address sha256 own
        → is_attempted own suggested ≡ true
        → IsDoubled
            (hash_address sha256 own)
            (queue_closer sha256 task_hash farthest now attempted suggested queue d).1
    unfolding queue_closer
    becomes-IsDoubled [] queue own d b h s = absurd (ground arith)
    becomes-IsDoubled (addr ∷ suggested) queue own d b h s =
        let d' = add_peer sha256 addr now d in
        let named : d'.self.id ≡ hash_address sha256 own =
          ap (λ s. s.id) (add_peer-self sha256 addr now d) ∙ h in
        let built = add_peer-IsBuilt sha256 addr now d b in
        elim (Bool-cases (text_beq own addr)) [
          | inl e ↦
              let same : hash_address sha256 own ≡ hash_address sha256 addr =
                ap (hash_address sha256) ((text_beq_iff own addr).0 e) in
              stays-IsDoubled suggested _ _ d' (record {
                named = named;
                built = built;
                own =
                    is_some-add_peer sha256 addr now d (hash_address sha256 own)
                    ∙ rw (same, beq_refl (hash_address sha256 addr)) refl;
              })
          | inr e ↦ becomes-IsDoubled suggested _ own d' built named (ground arith)
        ]

    -- If a peer that refuses a task names the asking node among the closest ones, the node, whose
    -- identifier is the hash of its address and whose ring is built from its peers, stands in its
    -- own ring twice once Store has followed the suggestions.
    pub queue_closer-twice :
        (suggested queue : List Text) (d : Dht)
        → IsBuilt d
        → d.self.id ≡ hash_address sha256 d.self.address
        → is_attempted d.self.address suggested ≡ true
        → occurrences d.self.id
            (queue_closer sha256 task_hash farthest now attempted suggested queue d).1.ring
          ≡ 2
    queue_closer-twice suggested queue d b h s =
        let d' = (queue_closer sha256 task_hash farthest now attempted suggested queue d).1 in
        let i = becomes-IsDoubled suggested queue d.self.address d b h s in
        subst (λ id. occurrences id d'.ring ≡ (if is_some (lookup id d'.peers) then 2 else 1))
          (i.named ∙ sym h) (occurrences-ring d' i.built)
        ∙ ap (λ b. if b then 2 else 1) (ap (λ id. is_some (lookup id d'.peers)) h ∙ i.own)
