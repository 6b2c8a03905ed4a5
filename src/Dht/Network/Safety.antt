-- ===== src/Dht/Network/Safety.antt =====
-- No message makes a node read a nil pointer, and every message keeps its ring well formed.
use task_discovery_service.Prelude.{
  ℕ, ◌≡◌, ◌⊎◌, refl, sym, ap, ◌∙◌, Bool, true, false, ◌||◌, Option, none, some, List, [], ◌∷◌, Text,
  ◌==◌, text_eq, if◌then◌else◌, arith, leb, leb→le, length, Bool-cases, Option-cases, inl, inr,
}
use task_discovery_service.Assoc.{lookup}
use task_discovery_service.Text.{codes}
use task_discovery_service.Dht.{NodeId, Node, Dht}
use task_discovery_service.Dht.Ring.Order.{IsBuilt, add_peer-IsBuilt}
use task_discovery_service.Dht.Ring.History.{IsBuilt-IsRing}
use task_discovery_service.Dht.Closest.{
  find_k_closest_nodes, self_among, am_i_in_k_closest, am_i_in_k_closest_locked,
}
use task_discovery_service.Dht.Closest.Selection.{
  ring-ne-nil, am_i_in_k_closest-locked, small_ring_closest,
}
use task_discovery_service.Dht.Storage.{
  or_nil, refresh, store_task, active_addresses, lookup_task, lookup_elsewhere,
}
use task_discovery_service.Dht.Network.{
  Json, Message, add_sender, in_k_closest, handle_store, found_reply, handle_find, dispatch,
  handle_message,
}

pub store_task-IsBuilt :
    (task addr : Text) (now : ℕ) (d : Dht) → IsBuilt d → IsBuilt (store_task task addr now d)
unfolding store_task
store_task-IsBuilt task addr now d b =
    elim (Option-cases (refresh addr now (or_nil (lookup task d.storage)))) [
      | inl e ↦
          rw (e, store_task) (record { built = b.built; distinct = b.distinct; keyed = b.keyed })
      | inr (es, e) ↦
          rw (e, store_task) (record { built = b.built; distinct = b.distinct; keyed = b.keyed })
    ]

List-cases {ℓ} : {A : Type ℓ} (l : List A) → (l ≡ []) ⊎ ((a : A) × (as' : List A) × (l ≡ a ∷ as'))
List-cases [] = inl refl
List-cases (a ∷ as') = inr (a, as', refl)

module _ (sha256 : Text → NodeId) (k timeout : ℕ) (json : Json) where
  pub add_sender-IsBuilt :
      (sender : Text) (now : ℕ) (d : Dht)
      → IsBuilt d
      → IsBuilt (add_sender sha256 k timeout json sender now d)
  unfolding add_sender
  add_sender-IsBuilt sender now d b = elim (Bool-cases (sender == [] || sender == d.self.address)) [
    | inl e ↦ rw e b
    | inr e ↦ rw e (add_peer-IsBuilt sha256 sender now d b)
  ]

  -- The short cut for a small ring, and the test that reads nodes, decide as the test of the
  -- cleanup does.
  pub in_k_closest-locked :
      (task : Text) (d : Dht)
      → IsBuilt d
      → in_k_closest sha256 k timeout json task d ≡ some (am_i_in_k_closest_locked sha256 task k d)
  unfolding in_k_closest
  in_k_closest-locked task d b =
      let same = am_i_in_k_closest-locked sha256 task k d (IsBuilt-IsRing d b) (ring-ne-nil d b) in
      elim (Bool-cases (leb (length d.ring) k)) [
        | inl e ↦
            rw e (sym (small_ring_closest sha256 task k d b (leb→le (length d.ring) k e)) ∙ same)
        | inr e ↦ rw e same
      ]

  not_forwarded :
      (query : Text → List Text) (closest : List (Option Node)) (d : Dht) (o : Option Bool)
      → o ≡ some true
      → lookup_elsewhere sha256 k timeout query closest d o ≡ some []
  not_forwarded query closest d none h = cc
  not_forwarded query closest d (some true) h = refl
  not_forwarded query closest d (some false) h = ground arith

  self_here :
      (query : Text → List Text) (task : Text) (d : Dht)
      → am_i_in_k_closest sha256 task k d ≡ some true
      → self_among d.self.id (find_k_closest_nodes sha256 task k d) ≡ some true
  unfolding am_i_in_k_closest
  self_here query task d h = h

  -- A node among the k closest answers a lookup from what it stores.
  pub lookup_task-responsible :
      (query : Text → List Text) (task : Text) (now : ℕ) (d : Dht)
      → IsBuilt d
      → am_i_in_k_closest_locked sha256 task k d ≡ true
      → lookup_task sha256 k timeout query task now d
        ≡ some (active_addresses (or_nil (lookup task d.storage)) now timeout)
  unfolding lookup_task
  lookup_task-responsible query task now d b r =
      let here = am_i_in_k_closest-locked sha256 task k d (IsBuilt-IsRing d b) (ring-ne-nil d b) in
      elim (List-cases (active_addresses (or_nil (lookup task d.storage)) now timeout)) [
        | inl e ↦
            rw (e, lookup_task)
              (not_forwarded query _ d _ (self_here query task d (here ∙ ap some r)))
        | inr (a, as', e) ↦ rw (e, lookup_task) refl
      ]

  -- The message was handled, with a well-formed ring left.
  abbrev pub IsHandled : Option (Option (Message json.Raw) × Dht) → Type 0
  IsHandled r =
      (answer : Option (Message json.Raw)) × (d' : Dht) × (r ≡ some (answer, d')) × IsBuilt d'

  handled :
      (answer : Option (Message json.Raw)) (d : Dht) → IsBuilt d → IsHandled (some (answer, d))
  handled answer d b = (answer, d, refl, b)

  IsHandled-if :
      (c : Bool) (x y : Option (Option (Message json.Raw) × Dht))
      → IsHandled x
      → IsHandled y
      → IsHandled (if c then x else y)
  IsHandled-if true x y h i = h
  IsHandled-if false x y h i = i

  store-IsHandled :
      (payload : Option (Text × Text)) (now : ℕ) (d : Dht)
      → IsBuilt d
      → IsHandled (handle_store sha256 k timeout json payload now d)
  store-IsHandled none now d b = handled _ d b
  store-IsHandled (some (task, addr)) now d b =
      rw (in_k_closest-locked task d b)
        (elim (Bool-cases (am_i_in_k_closest_locked sha256 task k d)) [
          | inl e ↦ rw e (handled _ _ (store_task-IsBuilt task addr now d b))
          | inr e ↦ rw e (handled _ d b)
        ])

  found-IsHandled :
      (task : Text) (d : Dht) (found : List Text)
      → IsBuilt d
      → IsHandled (found_reply sha256 k timeout json task d (some found))
  found-IsHandled task d [] b = handled _ d b
  found-IsHandled task d (a ∷ as') b = handled _ d b

  find-IsHandled :
      (query : Text → Text → List Text) (payload : Option Text) (now : ℕ) (d : Dht)
      → IsBuilt d
      → IsHandled (handle_find sha256 k timeout json query payload now d)
  find-IsHandled query none now d b = handled _ d b
  find-IsHandled query (some task) now d b =
      rw (in_k_closest-locked task d b)
        (elim (Bool-cases (am_i_in_k_closest_locked sha256 task k d)) [
          | inl e ↦
              rw (e, lookup_task-responsible (query task) task now d b e)
                (found-IsHandled task d _ b)
          | inr e ↦ rw e (handled _ d b)
        ])

  dispatch-IsHandled :
      (query : Text → Text → List Text) (msg : Message json.Raw) (now : ℕ) (d : Dht)
      → IsBuilt d
      → IsHandled (dispatch sha256 k timeout json query msg now d)
  unfolding dispatch
  dispatch-IsHandled query msg now d b =
      IsHandled-if (msg.kind == codes "PING") _ _ (handled _ d b) (
        IsHandled-if (msg.kind == codes "JOIN") _ _ (handled _ d b) (
          IsHandled-if (msg.kind == codes "STORE") _ _ (store-IsHandled _ now d b) (
            IsHandled-if (msg.kind == codes "FIND") _ _ (find-IsHandled query _ now d b)
              (handled none d b))))

  -- If the ring of a node is built from its peers, every message is handled without a nil
  -- pointer read, and the ring of the state that is left is again built from its peers.
  pub handle_message-IsBuilt :
      (query : Text → Text → List Text) (msg : Message json.Raw) (now : ℕ) (d : Dht)
      → IsBuilt d
      → IsHandled (handle_message sha256 k timeout json query msg now d)
  unfolding handle_message
  handle_message-IsBuilt query msg now d b =
      dispatch-IsHandled query msg now _ (add_sender-IsBuilt msg.sender now d b)
