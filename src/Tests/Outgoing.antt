-- ===== src/Tests/Outgoing.antt =====
-- Store on a small network: b:2 refuses and suggests c:3, which accepts; a:1 is the node itself.
use task_discovery_service.Prelude.{
  ◌+◌, ◌*◌, ◌≤◌, ◌≡◌, refl, subst, ℕ, some, List, [], ◌∷◌, Text, ◌==◌, text_eq, if◌then◌else◌, All,
  arith, length,
}
use task_discovery_service.Prelude.Result.{Result, ok, err}
use task_discovery_service.Text.{codes}
use task_discovery_service.Assoc.{lookup}
use task_discovery_service.Dht.{Dht}
use task_discovery_service.Dht.Address.{hash_task}
use task_discovery_service.Dht.Ring.{distance, node_of}
use task_discovery_service.Dht.Closest.{find_k_closest_nodes}
use task_discovery_service.Dht.Network.{Message}
use task_discovery_service.Dht.Network.Store.{Suggestions, store, store_queue}
use task_discovery_service.Dht.Network.Store.Queue.{IsIn}
use task_discovery_service.Dht.Network.Store.Rounds.{IsClosed}
use task_discovery_service.Dht.Network.Store.Attempts.{IsDistinct, storage_after}
use task_discovery_service.Dht.Network.Store.Outcome.{returned, store-outcome}
use task_discovery_service.Tests.Samples.{digest, gate}
use task_discovery_service.Tests.Rings.{three}

abbrev suggestions : List Text
suggestions = codes "c:3" ∷ codes "a:1" ∷ []

abbrev known : List Text
known = codes "b:2" ∷ suggestions

abbrev fixed : Suggestions Unit
fixed = record { payload_length = λ raw. 1; unmarshal_closest = λ raw. some suggestions }

abbrev answer : Text → Result Text (Message Unit)
answer addr =
    if addr == codes "b:2"
    then ok (record { kind = codes "NOT_RESPONSIBLE"; sender = addr; payload = tt })
    else if addr == codes "c:3"
    then ok (record { kind = codes "OK"; sender = addr; payload = tt })
    else err (codes "timeout")

abbrev at_nine : Text → ℕ
at_nine addr = 9

same_list : {s t : List Text} → some s ≡ some t → s ≡ t
same_list e = cc

fixed-IsClosed : IsClosed digest 2 fixed answer at_nine gate (codes "wxyz:80") known 2
fixed-IsClosed addr resp suggested i s e =
    subst (λ l. All (IsIn known) l × (length l ≤ 2)) (same_list e) ((refl, (refl, tt)), omega arith)

within : All (IsIn known) (store_queue digest 2 gate three)
unfolding find_k_closest_nodes distance hash_task node_of lookup
within = (refl, (refl, tt))

enough : length (store_queue digest 2 gate three) + 2 * length known ≤ 8
unfolding find_k_closest_nodes distance hash_task node_of lookup
enough = omega arith

store_outcome_example :
    (contacted : List Text) × (node : Dht) × (store digest 2 fixed answer at_nine gate
        (codes "wxyz:80")
        8
        three
      ≡ some (returned digest 2 fixed answer at_nine gate (codes "wxyz:80") three contacted, node))
    × IsDistinct contacted
    × All (IsIn contacted) (store_queue digest 2 gate three)
    × (node.storage
        ≡ storage_after digest 2 fixed answer at_nine gate (codes "wxyz:80") three contacted)
store_outcome_example =
    store-outcome digest 2 fixed answer at_nine gate (codes "wxyz:80") three known 2 8
      fixed-IsClosed within enough
