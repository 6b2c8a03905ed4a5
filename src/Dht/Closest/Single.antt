-- ===== src/Dht/Closest/Single.antt =====
-- The single closest node, found by binary search, is the first of the closest ones by distance.
use task_discovery_service.Prelude.{
  ℕ, zero, suc, ◌≤◌, ◌<◌, ◌≡◌, ◌≢◌, refl, sym, ap, ◌∙◌, subst, true, some, List, [], ◌∷◌, map, Text,
  ltb, leb, leb→le, ltb→lt, arith, All, take, length, get_elem?, get_elem?-some, get_elem?-lt,
  All-get, All_of_get, Bool-cases, inl, inr,
}
use task_discovery_service.Prelude.Sorting.{
  sort_by, Sorted, sort_by-Sorted, All-sort_by, All_of_sort_by, length-sort_by,
}
use task_discovery_service.Dht.{NodeId, Dht, id_space, IsDigest}
use task_discovery_service.Dht.Address.{hash_task}
use task_discovery_service.Dht.Ring.{
  distance, node_of, at_or_after, successor_index, search_between, closest_of, find_closest_node,
}
use task_discovery_service.Dht.Ring.Distance.{distance-injective}
use task_discovery_service.Dht.Ring.Search.{Splits, search_places}
use task_discovery_service.Dht.Ring.Order.{IsBuilt}
use task_discovery_service.Dht.Ring.History.{IsBuilt-IsRing}
use task_discovery_service.Dht.Closest.{find_k_closest_nodes}
use task_discovery_service.Dht.Closest.Selection.{by_distance, k_closest-take, ring-ne-nil}

Sorted-get :
    (xs : List ℕ) (i j a b : ℕ)
    → Sorted (λ id. id) xs
    → i ≤ j
    → get_elem? xs i ≡ some a
    → get_elem? xs j ≡ some b
    → a ≤ b
Sorted-get [] i j a b s le e f = cc
Sorted-get (x ∷ xs) zero zero a b s le e f = ground arith
Sorted-get (x ∷ xs) zero (suc j) a b s le e f =
    let below = All-get (λ y. x ≤ y) xs j b s.0 f in ground arith
Sorted-get (x ∷ xs) (suc i) zero a b s le e f = absurd (omega arith)
Sorted-get (x ∷ xs) (suc i) (suc j) a b s le e f = Sorted-get xs i j a b s.1 (omega arith) e f

module _ (ring : List NodeId) (t : NodeId) (s : Sorted (λ id. id) ring) where
  at_or_after_mono :
      (i j : ℕ)
      → i ≤ j
      → j < length ring
      → at_or_after ring t i ≡ true
      → at_or_after ring t j ≡ true
  at_or_after_mono i j le lt h =
      let (a, e) = get_elem?-some ring i (omega arith) in
      let (b, f) = get_elem?-some ring j lt in
      let ab = Sorted-get ring i j a b s le e f in ground arith

  module _ (bound : All (λ id. id < id_space) ring) (tb : t < id_space)
      (pos : 0 < length ring) where
    wrapped :
        (r c i y : ℕ)
        → Splits (at_or_after ring t) (length ring) r
        → length ring ≤ r
        → get_elem? ring 0 ≡ some c
        → get_elem? ring i ≡ some y
        → distance t c ≤ distance t y
    unfolding distance
    wrapped r c i y sp le at e =
        let lt = get_elem?-lt ring i y e in
        let order = Sorted-get ring 0 i c y s (omega arith) at e in
        let first = sp.before 0 (omega arith) in
        let before = sp.before i (omega arith) in ground arith

    not_wrapped :
        (r c i y : ℕ)
        → Splits (at_or_after ring t) (length ring) r
        → r < length ring
        → get_elem? ring r ≡ some c
        → get_elem? ring i ≡ some y
        → distance t c ≤ distance t y
    unfolding distance
    not_wrapped r c i y sp lt at e =
        let turned = sp.after r (omega arith) lt in
        let small = All-get (λ id. id < id_space) ring r c bound at in
        elim (Bool-cases (ltb i r)) [
          | inl b ↦ let before = sp.before i (ltb→lt i r b) in ground arith
          | inr b ↦
              let order = Sorted-get ring r i c y s (ground arith) at e in
              let after = sp.after i (ground arith) (get_elem?-lt ring i y e) in ground arith
        ]

    successor_closest :
        (c : NodeId)
        → get_elem? ring (successor_index ring t) ≡ some c
        → All (λ y. distance t c ≤ distance t y) ring
    unfolding successor_index
    successor_closest c at =
        let n = length ring in
        let r = search_between n (at_or_after ring t) 0 n in
        let sp = search_places (at_or_after ring t) n at_or_after_mono in
        All_of_get _ ring λ i y e. elim (Bool-cases (leb n r)) [
          | inl b ↦ wrapped r c i y sp (leb→le n r b) (rw b at at) e
          | inr b ↦ not_wrapped r c i y sp (ground arith) (rw b at at) e
        ]

    successor_in : (c : NodeId) × (get_elem? ring (successor_index ring t) ≡ some c)
    unfolding successor_index
    successor_in = get_elem?-some ring (successor_index ring t) (ground arith)

nonempty : (xs : List NodeId) → xs ≢ [] → 0 < length xs
nonempty [] h = absurd (h refl)
nonempty (x ∷ xs) h = omega arith

closest_of-some :
    (t : NodeId) (d : Dht) (ring : List NodeId) (c : NodeId)
    → get_elem? ring (successor_index ring t) ≡ some c
    → closest_of t d ring ≡ node_of d c
closest_of-some t d [] c at = cc
closest_of-some t d (first ∷ others) c at = rw (at, closest_of) refl

-- The first of the sorted identifiers is the one that no other is closer than.
first_closest :
    (t c i : ℕ) (ring sorted : List NodeId)
    → t < id_space
    → All (λ id. id < id_space) ring
    → sorted ≡ sort_by (distance t) ring
    → Sorted (distance t) sorted
    → get_elem? ring i ≡ some c
    → All (λ y. distance t c ≤ distance t y) ring
    → take 1 sorted ≡ c ∷ []
first_closest t c i ring [] tb bound e s at least =
    absurd (omega (arith, ap length e, length-sort_by (distance t) ring, get_elem?-lt ring i c at))
first_closest t c i ring (x ∷ rest) tb bound e s at least =
    let sorted = x ∷ rest in
    let key = distance t in
    let below =
      All_of_sort_by key (λ y. key x ≤ key y) ring
        (subst (All (λ y. key x ≤ key y)) e (omega arith, s.0)) in
    let above : All (λ y. key c ≤ key y) sorted =
      subst (All (λ y. key c ≤ key y)) (sym e) (All-sort_by key _ ring least) in
    let small : All (λ id. id < id_space) sorted =
      subst (All (λ id. id < id_space)) (sym e) (All-sort_by key _ ring bound) in
    let le = All-get (λ y. key x ≤ key y) ring i c below at in
    let c_small = All-get (λ id. id < id_space) ring i c bound at in
    ap (λ y. y ∷ []) (distance-injective t x c tb small.0 c_small (omega (arith, le, above.0)))

-- On a ring built from its peers, with identifiers and hashes of 256 bits, the binary search for
-- the successor of a task finds the node that is the closest one by clockwise distance.
pub find_closest-find_k_closest :
    (sha256 : Text → NodeId) (task : Text) (d : Dht)
    → IsDigest sha256
    → IsBuilt d
    → All (λ id. id < id_space) d.ring
    → find_k_closest_nodes sha256 task 1 d ≡ find_closest_node sha256 task d ∷ []
unfolding find_closest_node hash_task
find_closest-find_k_closest sha256 task d dg b bound =
    let t = sha256 task in
    let s = (IsBuilt-IsRing d b).sorted in
    let pos : 0 < length d.ring = nonempty d.ring (ring-ne-nil d b) in
    let (c, at) = successor_in d.ring t s bound (dg task) pos in
    k_closest-take sha256 task 1 d (ring-ne-nil d b)
    ∙ ap (map (node_of d)) (
        first_closest t c _ d.ring (by_distance sha256 task d.ring) (dg task) bound refl
          (sort_by-Sorted (distance t) d.ring) at
          (successor_closest d.ring t s bound (dg task) pos c at))
    ∙ ap (λ o. o ∷ []) (sym (closest_of-some t d d.ring c at))
