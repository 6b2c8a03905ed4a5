-- ===== src/Tests/Joining.antt =====
-- A node that joins a network of three, and one that is suggested to itself.
use task_discovery_service.Prelude.{
  ℕ, ◌≡◌, refl, true, false, Option, some, List, [], ◌∷◌, Text, All, is_some, text_beq,
  text_beq_iff, arith, nat_beq, nat_beq_iff, nat_eq,
}
use task_discovery_service.Prelude.Result.{Result, ok}
use task_discovery_service.Assoc.{lookup}
use task_discovery_service.Text.{
  codes, trim_space, is_space, split_host_port, has_prefix, join_host_port, to_lower,
}
use task_discovery_service.Dht.{Dht}
use task_discovery_service.Dht.Address.{hash_address, canonical_address_for_hash, is_local}
use task_discovery_service.Dht.Ring.{new_dht}
use task_discovery_service.Dht.Ring.Order.{IsBuilt, new_dht-IsBuilt}
use task_discovery_service.Dht.Network.{Message}
use task_discovery_service.Dht.Network.Store.{queue_closer}
use task_discovery_service.Dht.Network.Peers.{join_network}
use task_discovery_service.Dht.Network.Peers.Own.{occurrences}
use task_discovery_service.Dht.Network.Peers.Joining.{IsPlain, join_network-once}
use task_discovery_service.Dht.Network.Peers.Doubling.{queue_closer-twice}
use task_discovery_service.Tests.Samples.{digest}

abbrev alone : Dht
alone = new_dht digest (codes ":1") 0

alone-IsBuilt : IsBuilt alone
alone-IsBuilt = new_dht-IsBuilt digest (codes ":1") 0

no_own_peer : is_some (lookup alone.self.id alone.peers) ≡ false
unfolding lookup new_dht
no_own_peer = refl

abbrev others : List Text
others = codes "b:2" ∷ codes "c:3" ∷ []

abbrev listing : Text → Result Text (Message Unit)
listing addr = ok (record { kind = codes "PEERLIST"; sender = addr; payload = tt })

abbrev listed : Unit {0} → Option (List Text)
listed raw = some others

abbrev at_once : Text → ℕ
at_once addr = 1

b_apart : nat_beq (hash_address digest (codes "b:2")) alone.self.id ≡ false
unfolding hash_address new_dht canonical_address_for_hash split_host_port trim_space is_space
    has_prefix join_host_port is_local to_lower
b_apart = refl

c_apart : nat_beq (hash_address digest (codes "c:3")) alone.self.id ≡ false
unfolding hash_address new_dht canonical_address_for_hash split_host_port trim_space is_space
    has_prefix join_host_port is_local to_lower
c_apart = refl

others-IsPlain : All (IsPlain digest alone) others
others-IsPlain = (
  λ e.
      absurd
        (ground (arith, b_apart, nat_beq_iff (hash_address digest (codes "b:2")) alone.self.id)),
  (
    λ e.
        absurd
          (ground (arith, c_apart, nat_beq_iff (hash_address digest (codes "c:3")) alone.self.id)),
    tt,
  ),
)

join_once_example :
    occurrences alone.self.id (join_network digest listed listing at_once others alone).ring ≡ 1
join_once_example =
    join_network-once digest listed listing at_once others alone
      ((others-IsPlain.0, others-IsPlain), ((others-IsPlain.1.0, others-IsPlain), tt)) alone-IsBuilt
      no_own_peer

own_id : alone.self.id ≡ hash_address digest alone.self.address
unfolding new_dht
own_id = refl

suggests_own : text_beq alone.self.address alone.self.address ≡ true
suggests_own = (text_beq_iff alone.self.address alone.self.address).1 refl

twice_example :
    occurrences alone.self.id
      (queue_closer digest 5 9 1 [] (alone.self.address ∷ []) [] alone).1.ring
    ≡ 2
twice_example =
    queue_closer-twice digest 5 9 1 [] (alone.self.address ∷ []) [] alone alone-IsBuilt own_id
      (rw suggests_own refl)
