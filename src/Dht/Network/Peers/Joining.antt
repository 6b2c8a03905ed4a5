-- ===== src/Dht/Network/Peers/Joining.antt =====
-- pkg/dht/network.go, joinNetwork: a node that joins does not become its own peer.
use task_discovery_service.Prelude.{
  ℕ, ◌≡◌, ◌⊎◌, refl, sym, ap, ◌∙◌, subst, Bool, true, false, Option, none, some, List, [], ◌∷◌,
  Text, ◌==◌, text_eq, text_beq_iff, nat_eq, nat_beq, nat_beq_iff, if◌then◌else◌, if_both, is_some,
  All, Bool-cases, inl, inr,
}
use task_discovery_service.Prelude.Result.{Result, ok, err}
use task_discovery_service.Assoc.{lookup}
use task_discovery_service.Text.{codes}
use task_discovery_service.Dht.{NodeId, Dht}
use task_discovery_service.Dht.Address.{hash_address}
use task_discovery_service.Dht.Ring.{add_peer}
use task_discovery_service.Dht.Ring.Order.{IsBuilt, add_peer-IsBuilt}
use task_discovery_service.Dht.Network.{Message}
use task_discovery_service.Dht.Network.Peers.{add_listed, with_bootstrap, on_join, join_network}
use task_discovery_service.Dht.Network.Peers.Own.{
  occurrences, occurrences-ring, is_some-add_peer, add_peer-self,
}

clash : {b : Bool} → b ≡ true → b ≡ false → ⊥
clash h n = cc

module _ (sha256 : Text → NodeId) where
  -- The node keeps its name, stands in a well-formed ring, and is not its own peer.
  record IsAlone (d0 d : Dht) : Type 0 where
    self_same : d.self ≡ d0.self
    built : IsBuilt d
    no_own : is_some (lookup d0.self.id d.peers) ≡ false

  module _ (d0 : Dht) where
    -- An address that hashes to the node's identifier is its own, letter by letter.
    abbrev pub IsPlain : Text → Type 0
    IsPlain addr = hash_address sha256 addr ≡ d0.self.id → addr ≡ d0.self.address

    other_id :
        (addr : Text) (d : Dht)
        → IsPlain addr
        → (addr == d.self.address) ≡ false
        → IsAlone d0 d
        → nat_beq (hash_address sha256 addr) d0.self.id ≡ false
    other_id addr d unique n i = elim (Bool-cases (nat_beq (hash_address sha256 addr) d0.self.id)) [
      | inl e ↦
          let own : addr ≡ d.self.address =
            unique ((nat_beq_iff _ _).0 e) ∙ sym (ap (λ s. s.address) i.self_same) in
          let same : (addr == d.self.address) ≡ true = (text_beq_iff addr d.self.address).1 own in
          absurd (clash same n)
      | inr e ↦ e
    ]

    add_other :
        (addr : Text) (now : ℕ) (d : Dht)
        → IsPlain addr
        → (addr == d.self.address) ≡ false
        → IsAlone d0 d
        → IsAlone d0 (add_peer sha256 addr now d)
    add_other addr now d u n i = record {
      self_same = add_peer-self sha256 addr now d ∙ i.self_same;
      built = add_peer-IsBuilt sha256 addr now d i.built;
      no_own =
          is_some-add_peer sha256 addr now d d0.self.id ∙ rw (other_id addr d u n i, i.no_own) refl;
    }

    unless_self :
        (addr : Text) (now : ℕ) (d : Dht)
        → IsPlain addr
        → IsAlone d0 d
        → IsAlone d0 (if addr == d.self.address then d else add_peer sha256 addr now d)
    unless_self addr now d u i = elim (Bool-cases (addr == d.self.address)) [
      | inl e ↦ rw e i
      | inr e ↦ rw e (add_other addr now d u e i)
    ]

    add_listed-IsAlone :
        (peers : List Text) (now : ℕ) (d : Dht)
        → All IsPlain peers
        → IsAlone d0 d
        → IsAlone d0 (add_listed sha256 peers now d)
    unfolding add_listed
    add_listed-IsAlone [] now d u i = i
    add_listed-IsAlone (peer ∷ peers) now d u i =
        add_listed-IsAlone peers now _ u.1 (unless_self peer now d u.0 i)

    -- An answer lists plain addresses, if it lists any.
    abbrev pub IsPlainList : Option (List Text) → Type 0
    IsPlainList none = Unit
    IsPlainList (some peers) = All IsPlain peers

    abbrev pub IsPlainAnswer :
        {Raw : Type 0} → (Raw → Option (List Text)) → Result Text (Message Raw) → Type 0
    IsPlainAnswer unmarshal_peers (err e) = Unit
    IsPlainAnswer unmarshal_peers (ok resp) = IsPlainList (unmarshal_peers resp.payload)

    module _ {Raw : Type 0} (unmarshal_peers : Raw → Option (List Text))
        (send : Text → Result Text (Message Raw)) (clock : Text → ℕ) where
      join-IsAlone :
          (bootstrap : Text) (answer : Result Text (Message Raw)) (d : Dht)
          → IsPlain bootstrap
          → IsPlainAnswer unmarshal_peers answer
          → (bootstrap == d.self.address) ≡ false
          → IsAlone d0 d
          → IsAlone d0 (on_join sha256 unmarshal_peers send clock bootstrap answer d)
      join-IsAlone bootstrap (err e) d u l n i = i
      join-IsAlone bootstrap (ok resp) d u l n i =
          if_both (IsAlone d0) (resp.kind == codes "PEERLIST") _ _
            (listed (unmarshal_peers resp.payload) l)
            (add_other bootstrap (clock bootstrap) d u n i)
        where
          listed :
              (found : Option (List Text))
              → IsPlainList found
              → IsAlone d0 (with_bootstrap sha256 unmarshal_peers send clock bootstrap found d)
          listed none f = i
          listed (some peers) f =
              let j = add_listed-IsAlone peers (clock bootstrap) d f i in
              add_other bootstrap (clock bootstrap) _ u
                (ap (λ s. bootstrap == s.address) (j.self_same ∙ sym i.self_same) ∙ n) j

      join_network-IsAlone :
          (bootstraps : List Text) (d : Dht)
          → All (λ b. IsPlain b × IsPlainAnswer unmarshal_peers (send b)) bootstraps
          → IsAlone d0 d
          → IsAlone d0 (join_network sha256 unmarshal_peers send clock bootstraps d)
      unfolding join_network
      join_network-IsAlone [] d u i = i
      join_network-IsAlone (bootstrap ∷ bootstraps) d u i =
          join_network-IsAlone bootstraps _ u.1 (joined (Bool-cases (bootstrap == d.self.address)))
        where
          joined :
              (((bootstrap == d.self.address) ≡ true) ⊎ ((bootstrap == d.self.address) ≡ false))
              → IsAlone d0 (
                  if bootstrap == d.self.address
                  then d
                  else on_join sha256 unmarshal_peers send clock bootstrap (send bootstrap) d)
          joined (inl e) = rw e i
          joined (inr e) = rw e (join-IsAlone bootstrap (send bootstrap) d u.0.0 u.0.1 e i)

  -- If none of the bootstrap nodes' addresses and of those in the lists that they answer is another
  -- spelling of the node's own, and the node is not its own peer and its ring is built from its peers, then after
  -- joining, whatever else the bootstrap nodes answer, the node stands in its ring exactly once.
  pub join_network-once :
      {Raw : Type 0} (unmarshal_peers : Raw → Option (List Text))
      (send : Text → Result Text (Message Raw)) (clock : Text → ℕ) (bootstraps : List Text)
      (d : Dht)
      → All (λ b. IsPlain d b × IsPlainAnswer d unmarshal_peers (send b)) bootstraps
      → IsBuilt d
      → is_some (lookup d.self.id d.peers) ≡ false
      → occurrences d.self.id (join_network sha256 unmarshal_peers send clock bootstraps d).ring ≡ 1
  join_network-once unmarshal_peers send clock bootstraps d plain b alone =
      let d' = join_network sha256 unmarshal_peers send clock bootstraps d in
      let start : IsAlone d d = record { self_same = refl; built = b; no_own = alone } in
      let i = join_network-IsAlone d unmarshal_peers send clock bootstraps d plain start in
      let counted = occurrences-ring d' i.built in
      subst (λ id. occurrences id d'.ring ≡ (if is_some (lookup id d'.peers) then 2 else 1))
        (ap (λ s. s.id) i.self_same) counted
      ∙ rw i.no_own refl
