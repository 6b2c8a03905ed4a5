-- ===== src/Tests/Messages.antt =====
-- Messages to a registry and to a node of the ring.
use task_discovery_service.Prelude.{
  ◌≡◌, refl, true, Option, none, some, List, [], ◌∷◌, Text, text_eq, text_beq, if◌then◌else◌, any,
  arith,
}
use task_discovery_service.Assoc.{lookup}
use task_discovery_service.Text.{codes}
use task_discovery_service.Dht.{Dht}
use task_discovery_service.Dht.Address.{hash_task}
use task_discovery_service.Dht.Closest.{am_i_in_k_closest_locked}
use task_discovery_service.Dht.Ring.{distance}
use task_discovery_service.Dht.Storage.{refresh, store_task}
use task_discovery_service.Dht.Network.{Json, Message, reply, handle_message, add_sender}
use task_discovery_service.Dht.Network.Safety.{IsHandled, handle_message-IsBuilt}
use task_discovery_service.Dht.Network.Messages.{
  after_sender, stored_reply, refused_reply, store_message-decides, find_after_store,
}
use task_discovery_service.Tests.Samples.{digest, gate}
use task_discovery_service.Tests.Rings.{three, three-IsBuilt}

-- Payloads as lists of texts.
abbrev two_texts : List Text → Option (Text × Text)
two_texts (task ∷ addr ∷ []) = some (task, addr)
two_texts texts = none

abbrev one_text : List Text → Option Text
one_text (task ∷ []) = some task
one_text texts = none

abbrev plain : Json
plain = record {
  Raw = List Text;
  empty = [];
  unmarshal_store = two_texts;
  unmarshal_find = one_text;
  marshal_found = λ task addrs. task ∷ addrs;
  marshal_peers = λ addrs. addrs;
  marshal_closest = λ addrs. addrs;
}

abbrev no_query : Text → Text → List Text
no_query task addr = []

abbrev put : Message (List Text)
put = record { kind = codes "STORE"; sender = []; payload = gate ∷ codes "wxyz:80" ∷ [] }

abbrev get : Message (List Text)
get = record { kind = codes "FIND"; sender = []; payload = gate ∷ [] }

handled_example : IsHandled digest 2 4 plain (handle_message digest 2 4 plain no_query put 7 three)
handled_example = handle_message-IsBuilt digest 2 4 plain no_query put 7 three three-IsBuilt

store_example :
    handle_message digest 2 4 plain no_query put 7 three
    ≡ some (
        if am_i_in_k_closest_locked digest gate 2 (after_sender digest 2 4 plain put 7 three)
        then (
          stored_reply digest 2 4 plain (after_sender digest 2 4 plain put 7 three),
          store_task gate (codes "wxyz:80") 7 (after_sender digest 2 4 plain put 7 three),
        )
        else (
          refused_reply digest 2 4 plain gate (after_sender digest 2 4 plain put 7 three),
          after_sender digest 2 4 plain put 7 three,
        ))
store_example =
    store_message-decides digest 2 4 plain no_query put gate (codes "wxyz:80") 7 three three-IsBuilt
      refl refl

gate-put : am_i_in_k_closest_locked digest gate 3 (after_sender digest 3 4 plain put 7 three) ≡ true
unfolding am_i_in_k_closest_locked add_sender distance hash_task
gate-put = refl

abbrev stored_three : Dht
stored_three = store_task gate (codes "wxyz:80") 7 (after_sender digest 3 4 plain put 7 three)

gate-then :
    am_i_in_k_closest_locked digest gate 3 (after_sender digest 3 4 plain get 9 stored_three) ≡ true
unfolding am_i_in_k_closest_locked add_sender store_task refresh lookup distance hash_task
gate-then = refl

find_after_store_example :
    (handle_message digest 3 4 plain no_query put 7 three
      ≡ some
          (stored_reply digest 3 4 plain (after_sender digest 3 4 plain put 7 three), stored_three))
    × (found : List Text) × (any (λ a. text_beq a (codes "wxyz:80")) found ≡ true)
    × (handle_message digest 3 4 plain no_query get 9 stored_three
        ≡ some (
          reply digest 3 4 plain
              (codes "FOUND")
              (gate ∷ found)
              (after_sender digest 3 4 plain get 9 stored_three),
          after_sender digest 3 4 plain get 9 stored_three,
        ))
find_after_store_example =
    find_after_store digest 3 4 plain no_query put get gate (codes "wxyz:80") 7 9 three
      three-IsBuilt refl refl refl refl (omega arith) gate-put gate-then
