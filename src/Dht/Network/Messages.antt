-- ===== src/Dht/Network/Messages.antt =====
-- What a node answers to STORE and FIND, and that what one stores the other finds.
use task_discovery_service.Prelude.{
  ℕ, ◌-◌, ◌<◌, ◌≡◌, refl, ap, ◌∙◌, Bool, true, false, Option, some, List, [], ◌∷◌, Text, text_eq,
  text_beq, if◌then◌else◌, arith, any,
}
use task_discovery_service.Assoc.{lookup}
use task_discovery_service.Text.{codes}
use task_discovery_service.Dht.{NodeId, Dht}
use task_discovery_service.Dht.Ring.{add_peer, rebuild_ring}
use task_discovery_service.Dht.Ring.Order.{IsBuilt}
use task_discovery_service.Dht.Closest.{find_k_closest_nodes, am_i_in_k_closest_locked}
use task_discovery_service.Dht.Storage.{or_nil, store_task, active_addresses}
use task_discovery_service.Dht.Storage.Heartbeats.{store_task-active}
use task_discovery_service.Dht.Network.{
  Json, Message, add_sender, store_decided, reply, found_reply, node_addresses, dispatch,
  handle_message,
}
use task_discovery_service.Dht.Network.Safety.{
  add_sender-IsBuilt, in_k_closest-locked, lookup_task-responsible, store_task-IsBuilt,
}

module _ (sha256 : Text → NodeId) (k timeout : ℕ) (json : Json) where
  abbrev pub after_sender : Message json.Raw → ℕ → Dht → Dht
  after_sender msg now d = add_sender sha256 k timeout json msg.sender now d

  add_sender-storage :
      (msg : Message json.Raw) (now : ℕ) (d : Dht) → (after_sender msg now d).storage ≡ d.storage
  unfolding add_sender add_peer rebuild_ring
  add_sender-storage msg now d = ground arith

  abbrev pub stored_reply : Dht → Option (Message json.Raw)
  stored_reply d = reply sha256 k timeout json (codes "OK") json.empty d

  abbrev pub refused_reply : Text → Dht → Option (Message json.Raw)
  refused_reply task d =
      reply sha256 k timeout json (codes "NOT_RESPONSIBLE")
        (json.marshal_closest (node_addresses (find_k_closest_nodes sha256 task k d))) d

  decided :
      (task addr : Text) (now : ℕ) (d : Dht) (closest : Bool)
      → store_decided sha256 k timeout json task addr now d (some closest)
        ≡ some (
            if closest
            then (stored_reply d, store_task task addr now d)
            else (refused_reply task d, d))
  decided task addr now d true = refl
  decided task addr now d false = refl

  -- On a ring built from its peers a STORE message of a task and an address is stored and
  -- answered OK if the node, once it knows the sender, is among the k closest to the task;
  -- otherwise nothing is stored, and the answer names the k closest nodes.
  pub store_message-decides :
      (query : Text → Text → List Text) (msg : Message json.Raw) (task addr : Text) (now : ℕ)
      (d : Dht)
      → IsBuilt d
      → msg.kind ≡ codes "STORE"
      → json.unmarshal_store msg.payload ≡ some (task, addr)
      → let d' = after_sender msg now d in
        handle_message sha256 k timeout json query msg now d
        ≡ some (
            if am_i_in_k_closest_locked sha256 task k d'
            then (stored_reply d', store_task task addr now d')
            else (refused_reply task d', d'))
  unfolding handle_message dispatch
  store_message-decides query msg task addr now d b e p =
      rw
        (
          e,
          p,
          in_k_closest-locked sha256 k timeout json task _
              (add_sender-IsBuilt sha256 k timeout json msg.sender now d b),
        )
        (decided task addr now (after_sender msg now d) _)

  -- A FIND message that a node among the k closest gets, its ring built from its peers, is
  -- answered with the addresses of the task whose heartbeat is recent, or NOTFOUND if there is
  -- none.
  find_message-answers :
      (query : Text → Text → List Text) (msg : Message json.Raw) (task : Text) (now : ℕ) (d : Dht)
      → IsBuilt d
      → msg.kind ≡ codes "FIND"
      → json.unmarshal_find msg.payload ≡ some task
      → let d' = after_sender msg now d in
        am_i_in_k_closest_locked sha256 task k d' ≡ true
        → handle_message sha256 k timeout json query msg now d
          ≡ found_reply sha256 k timeout json task d'
              (some (active_addresses (or_nil (lookup task d'.storage)) now timeout))
  unfolding handle_message dispatch
  find_message-answers query msg task now d b e p r =
      let b' = add_sender-IsBuilt sha256 k timeout json msg.sender now d b in
      rw
        (
          e,
          p,
          in_k_closest-locked sha256 k timeout json task _ b',
          r,
          lookup_task-responsible sha256 k timeout json (query task) task now _ b' r,
        )
        refl

  found_some :
      (task addr : Text) (d : Dht) (found : List Text)
      → any (λ a. text_beq a addr) found ≡ true
      → found_reply sha256 k timeout json task d (some found)
        ≡ some (reply sha256 k timeout json (codes "FOUND") (json.marshal_found task found) d, d)
  found_some task addr d [] h = cc
  found_some task addr d (a ∷ as') h = refl

  -- On a ring built from its peers, an address that a STORE message stored, the node being among
  -- the k closest to the task, is one of those that a FIND message for the task is answered with
  -- until the timeout has passed, if no call comes between the two and the node is then still
  -- among the k closest.
  pub find_after_store :
      (query : Text → Text → List Text) (put get : Message json.Raw) (task addr : Text)
      (stored now : ℕ) (d : Dht)
      → IsBuilt d
      → put.kind ≡ codes "STORE"
      → json.unmarshal_store put.payload ≡ some (task, addr)
      → get.kind ≡ codes "FIND"
      → json.unmarshal_find get.payload ≡ some task
      → now - stored < timeout
      → let before = after_sender put stored d in
        let stored_d = store_task task addr stored before in
        let found_d = after_sender get now stored_d in
        am_i_in_k_closest_locked sha256 task k before ≡ true
        → am_i_in_k_closest_locked sha256 task k found_d ≡ true
        → (handle_message sha256 k timeout json query put stored d
            ≡ some (stored_reply before, stored_d))
          × (found : List Text) × (any (λ a. text_beq a addr) found ≡ true)
          × (handle_message sha256 k timeout json query get now stored_d
              ≡ some (
                reply sha256 k timeout json (codes "FOUND") (json.marshal_found task found) found_d,
                found_d,
              ))
  find_after_store query put get task addr stored now d b e p f q lt r s =
      let before = after_sender put stored d in
      let stored_d = store_task task addr stored before in
      let found_d = after_sender get now stored_d in
      let built =
        store_task-IsBuilt task addr stored before
          (add_sender-IsBuilt sha256 k timeout json put.sender stored d b) in
      let found = active_addresses (or_nil (lookup task found_d.storage)) now timeout in
      let there : any (λ a. text_beq a addr) found ≡ true =
        ap
          (λ st.
            any (λ a. text_beq a addr) (active_addresses (or_nil (lookup task st)) now timeout))
          (add_sender-storage get now stored_d)
        ∙ store_task-active task addr stored now timeout before lt in
      (
        store_message-decides query put task addr stored d b e p ∙ rw r refl,
        found,
        there,
        find_message-answers query get task now stored_d built f q s
            ∙ found_some task addr found_d found there,
      )
