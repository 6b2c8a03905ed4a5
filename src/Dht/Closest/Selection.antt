-- ===== src/Dht/Closest/Selection.antt =====
-- Which nodes are the k closest ones.
use mathlib.Core.List.{map-map}
use task_discovery_service.Prelude.{
  ℕ, zero, suc, ◌≤◌, ◌≡◌, ◌≢◌, refl, sym, ap, ◌∙◌, subst, Bool, true, false, some, List, [], ◌∷◌,
  ◌++◌, map, Text, nat_eq, nat_beq, if◌then◌else◌, arith, All, Perm, take, drop, length,
  length-take, take_all, take-append-drop, any, min,
}
use task_discovery_service.Prelude.Sorting.{
  sort_by, sort_by-Sorted, sort_by-perm, sort_by-map, any-sort_by, take-le-drop, length-sort_by,
  All-sort_by, All-take,
}
use task_discovery_service.Dht.{NodeId, Dht}
use task_discovery_service.Dht.Address.{hash_task}
use task_discovery_service.Dht.Ring.{distance, node_of, peer_ids}
use task_discovery_service.Dht.Ring.History.{IsNamed, IsRing, IsBuilt-IsRing}
use task_discovery_service.Dht.Ring.Order.{IsBuilt}
use task_discovery_service.Dht.Closest.{
  NodeDistance, k_closest_of, self_closest_of, find_k_closest_nodes, am_i_in_k_closest,
  am_i_in_k_closest_locked, self_among,
}

module _ {ℓ κ} {A : Type ℓ} {B : Type κ} (f : A → B) where
  take-map : (k : ℕ) (xs : List A) → take k (map f xs) ≡ map f (take k xs)
  take-map zero xs = refl
  take-map (suc k) [] = refl
  take-map (suc k) (x ∷ xs) = ap (◌∷◌ (f x)) (take-map k xs)

  any-map : (p : B → Bool) (xs : List A) → any p (map f xs) ≡ any (λ a. p (f a)) xs
  any-map p [] = refl
  any-map p (x ∷ xs) = ap (λ b. if p (f x) then true else b) (any-map p xs)

self_among-named :
    (d : Dht) (self : NodeId) (ids : List NodeId)
    → All (IsNamed d) ids
    → self_among self (map (node_of d) ids) ≡ some (any (λ id. nat_beq id self) ids)
self_among-named d self [] h = refl
self_among-named d self (id ∷ ids) ((node, found, same), h) =
    rw (found, same, self_among-named d self ids h) (ground arith)

self_in_ring : (d : Dht) → IsBuilt d → any (λ id. nat_beq id d.self.id) d.ring ≡ true
self_in_ring d b =
    let is_self : NodeId → Bool = λ id. nat_beq id d.self.id in
    ap (any is_self) b.built
    ∙ any-sort_by (λ id. id) is_self (d.self.id ∷ peer_ids d.peers)
    ∙ ground arith

-- A ring is never empty.
pub ring-ne-nil : (d : Dht) → IsBuilt d → d.ring ≢ []
ring-ne-nil d b e =
    let none_in : false ≡ true = sym (ap (any (λ id. nat_beq id d.self.id)) e) ∙ self_in_ring d b in
    cc

module _ (sha256 : Text → NodeId) (task : Text) where
  -- The identifiers of a ring from the closest one on.
  abbrev pub by_distance : List NodeId → List NodeId
  by_distance ring = sort_by (λ id. distance (hash_task sha256 task) id) ring

  k_closest_of-take :
      (k : ℕ) (d : Dht) (ring : List NodeId)
      → ring ≢ []
      → k_closest_of sha256 task k d ring ≡ map (node_of d) (take k (by_distance ring))
  k_closest_of-take k d [] h = absurd (h refl)
  k_closest_of-take k d (first ∷ others) h =
      let ring = first ∷ others in
      let pair : NodeId → NodeDistance =
        λ id. (node_of d id, distance (hash_task sha256 task) id) in
      rw (sort_by-map pair (λ n. n.1) ring, take-map pair k (by_distance ring))
        (map-map (λ n. n.0) pair (take k (by_distance ring)))

  self_closest_of-take :
      (k : ℕ) (self : NodeId) (ring : List NodeId)
      → ring ≢ []
      → self_closest_of sha256 task k self ring
        ≡ any (λ id. nat_beq id self) (take k (by_distance ring))
  self_closest_of-take k self [] h = absurd (h refl)
  self_closest_of-take k self (first ∷ others) h =
      let ring = first ∷ others in
      let pair : NodeId → NodeId × ℕ = λ id. (id, distance (hash_task sha256 task) id) in
      rw (sort_by-map pair (λ n. n.1) ring, take-map pair k (by_distance ring))
        (any-map pair (λ n. nat_beq n.0 self) (take k (by_distance ring)))

  pub k_closest-take :
      (k : ℕ) (d : Dht)
      → d.ring ≢ []
      → find_k_closest_nodes sha256 task k d ≡ map (node_of d) (take k (by_distance d.ring))
  unfolding find_k_closest_nodes
  k_closest-take k d h = k_closest_of-take k d d.ring h

  -- On a ring that is well formed and not empty the k closest nodes are those of k of its
  -- identifiers, or of all if it has no more: none is a nil pointer, with the others they make
  -- up the ring, and each is as close to the hash of the task, clockwise, as any of the others.
  pub find_k_closest-closest :
      (k : ℕ) (d : Dht)
      → IsRing d
      → d.ring ≢ []
      → (chosen others : List NodeId) × (find_k_closest_nodes sha256 task k d
          ≡ map (node_of d) chosen)
        × All (IsNamed d) chosen
        × Perm (chosen ++ others) d.ring
        × (length chosen ≡ min k (length d.ring))
        × All
            (λ x.
              All
                (λ y. distance (hash_task sha256 task) x ≤ distance (hash_task sha256 task) y)
                others)
            chosen
  find_k_closest-closest k d r h =
      let key : NodeId → ℕ = λ id. distance (hash_task sha256 task) id in
      let sorted = by_distance d.ring in
      (
        take k sorted,
        drop k sorted,
        k_closest-take k d h,
        All-take key (IsNamed d) k sorted (All-sort_by key (IsNamed d) d.ring r.named),
        subst (λ ids. Perm ids d.ring) (sym (take-append-drop k sorted)) (sort_by-perm key d.ring),
        length-take k sorted ∙ ap (min k) (length-sort_by key d.ring),
        take-le-drop key k sorted (sort_by-Sorted key d.ring),
      )

  am_i_locked-take :
      (k : ℕ) (d : Dht)
      → d.ring ≢ []
      → am_i_in_k_closest_locked sha256 task k d
        ≡ any (λ id. nat_beq id d.self.id) (take k (by_distance d.ring))
  unfolding am_i_in_k_closest_locked
  am_i_locked-take k d h = self_closest_of-take k d.self.id d.ring h

  -- On a ring that is well formed and not empty the two tests of membership among the k closest
  -- agree, and the one that reads nodes meets no nil pointer.
  pub am_i_in_k_closest-locked :
      (k : ℕ) (d : Dht)
      → IsRing d
      → d.ring ≢ []
      → am_i_in_k_closest sha256 task k d ≡ some (am_i_in_k_closest_locked sha256 task k d)
  unfolding am_i_in_k_closest am_i_in_k_closest_locked
  am_i_in_k_closest-locked k d r h =
      let key : NodeId → ℕ = λ id. distance (hash_task sha256 task) id in
      let sorted = by_distance d.ring in
      rw (k_closest-take k d h, self_closest_of-take k d.self.id d.ring h)
        (self_among-named d d.self.id (take k sorted)
          (All-take key (IsNamed d) k sorted (All-sort_by key (IsNamed d) d.ring r.named)))

  -- If the ring is built from the peers and has at most k identifiers, this node is among the k
  -- closest of every task: the short cut of the message handler decides as the full test does.
  pub small_ring_closest :
      (k : ℕ) (d : Dht)
      → IsBuilt d
      → length d.ring ≤ k
      → am_i_in_k_closest sha256 task k d ≡ some true
  small_ring_closest k d b le =
      let key : NodeId → ℕ = λ id. distance (hash_task sha256 task) id in
      let is_self : NodeId → Bool = λ id. nat_beq id d.self.id in
      let h = ring-ne-nil d b in
      let all = take_all k (by_distance d.ring) (omega (arith, length-sort_by key d.ring)) in
      am_i_in_k_closest-locked k d (IsBuilt-IsRing d b) h
      ∙ ap some (
          am_i_locked-take k d h
          ∙ ap (any is_self) all
          ∙ any-sort_by key is_self d.ring
          ∙ self_in_ring d b)
