-- ===== src/Dht/Network/Store/Rounds.antt =====
-- The rounds of the loop of Store: what one round does to the queue, and how many rounds there are
-- if the addresses that the peers suggest are those of a finite list.
use task_discovery_service.Prelude.{
  ℕ, zero, suc, ◌+◌, ◌-◌, ◌*◌, ◌≤◌, ◌≡◌, ◌⊎◌, refl, Option, none, some, List, [], ◌∷◌, Text, ◌==◌,
  text_eq, if_both, arith, length, All, Bool-cases, inl, inr,
}
use task_discovery_service.Prelude.Result.{Result, ok, err}
use task_discovery_service.Text.{codes}
use task_discovery_service.Dht.{NodeId}
use task_discovery_service.Dht.Address.{hash_task}
use task_discovery_service.Dht.Network.{Message}
use task_discovery_service.Dht.Network.Store.{
  Suggestions, StoreRun, is_attempted, get_farthest_distance, follow, on_response, contact, visit,
  store_rounds,
}
use task_discovery_service.Dht.Network.Store.Queue.{
  IsIn, unseen, unseen_lt, IsIn-seen, ended, IsIn-new, Grows, Grows-same, Grows-more,
  queue_closer-Grows,
}

module _ (sha256 : Text → NodeId) (k : ℕ) {Raw : Type 0} (json : Suggestions Raw)
    (send : Text → Result Text (Message Raw)) (clock : Text → ℕ) (task address : Text)
    (known : List Text) (limit : ℕ) where
  -- The peers of the list suggest addresses of the list only, and at most `limit` at once.
  abbrev pub IsClosed : Type 0
  IsClosed =
      (addr : Text) (resp : Message Raw) (suggested : List Text)
      → IsIn known addr
      → send addr ≡ ok resp
      → json.unmarshal_closest resp.payload ≡ some suggested
      → All (IsIn known) suggested × (length suggested ≤ limit)

  -- The queue after a contact, with the attempted addresses untouched.
  abbrev IsContact : List Text → StoreRun → List Text × StoreRun → Type 0
  IsContact queue r v = (v.1.attempted ≡ r.attempted) × Grows known limit queue v.0

  follow-IsContact :
      (found : Option (List Text)) (now : ℕ) (queue : List Text) (r : StoreRun)
      → ((suggested : List Text)
          → found ≡ some suggested
          → All (IsIn known) suggested × (length suggested ≤ limit))
      → IsContact queue r (follow sha256 k json send clock task address found now queue r)
  follow-IsContact none now queue r h = (refl, Grows-same known limit queue)
  follow-IsContact (some suggested) now queue r h =
      let (inside, short) = h suggested refl in
      (
        refl,
        Grows-more known (length suggested) limit queue _ short (
            queue_closer-Grows sha256 known (hash_task sha256 task)
              (get_farthest_distance sha256 (hash_task sha256 task) r.attempted) now r.attempted
              suggested queue r.node inside),
      )

  response-IsContact :
      (addr : Text) (answer : Result Text (Message Raw)) (now : ℕ) (queue : List Text)
      (r : StoreRun)
      → IsClosed
      → IsIn known addr
      → send addr ≡ answer
      → IsContact queue r (on_response sha256 k json send clock task address answer now queue r)
  response-IsContact addr (err e) now queue r c i s = (refl, Grows-same known limit queue)
  response-IsContact addr (ok resp) now queue r c i s =
      let same = Grows-same known limit queue in
      if_both (IsContact queue r) (resp.kind == codes "OK") _ _ (refl, same)
        (if_both (IsContact queue r) _ _ _
          (follow-IsContact (json.unmarshal_closest resp.payload) now queue r
            (λ suggested e. c addr resp suggested i s e))
          (refl, same))

  contact-IsContact :
      (addr : Text) (queue : List Text) (r : StoreRun)
      → IsClosed
      → IsIn known addr
      → IsContact queue r (contact sha256 k json send clock task address addr queue r)
  unfolding contact
  contact-IsContact addr queue r c i =
      if_both (IsContact queue r) (addr == r.node.self.address) _ _
        (refl, Grows-same known limit queue)
        (response-IsContact addr (send addr) (clock addr) queue r c i refl)

  -- The rounds that are left at most.
  abbrev pub rounds_left : List Text → List Text → ℕ
  rounds_left queue attempted = length queue + limit * unseen known attempted

  abbrev IsVisited : Text → List Text → StoreRun → List Text × StoreRun → Type 0
  IsVisited addr queue r v =
      All (IsIn known) v.0
      × (rounds_left v.0 v.1.attempted ≤ rounds_left queue r.attempted)
      × ((a : Text)
          → (IsIn (addr ∷ queue) a ⊎ IsIn r.attempted a)
          → (IsIn v.0 a ⊎ IsIn v.1.attempted a))

  fewer :
      (before after : ℕ) (queue queue' : List Text)
      → suc after ≤ before
      → length queue' ≤ length queue + limit
      → length queue' + limit * after ≤ length queue + limit * before
  fewer before after queue queue' h g =
      let e : before ≡ suc after + (before - suc after) = omega arith in
      let m : limit * (suc after + (before - suc after))
          ≡ limit * after + limit + limit * (before - suc after) =
        omega arith in
      rw (e, m) (omega arith)

  visit-IsVisited :
      (addr : Text) (queue : List Text) (r : StoreRun)
      → IsClosed
      → All (IsIn known) (addr ∷ queue)
      → IsVisited addr queue r (visit sha256 k json send clock task address addr queue r)
  unfolding visit
  visit-IsVisited addr queue r c h = elim (Bool-cases (is_attempted addr r.attempted)) [
    | inl e ↦ rw e (h.1, omega arith, IsIn-seen addr queue r.attempted e)
    | inr e ↦
        let r' : StoreRun = record r { attempted = addr ∷ r.attempted } in
        let (same, g) = contact-IsContact addr queue r' c h.0 in
        rw (e, same)
          (
            g.within h.1,
            fewer _ _ queue _ (unseen_lt known r.attempted addr h.0 e) g.bounded,
            IsIn-new addr queue _ r.attempted g.kept,
          )
  ]

  -- With as many rounds as are left at most, the loop ends, and every address that was queued
  -- is attempted.
  pub store_rounds-ends :
      (fuel : ℕ) (queue : List Text) (r : StoreRun)
      → IsClosed
      → All (IsIn known) queue
      → rounds_left queue r.attempted ≤ fuel
      → (r' : StoreRun) × (store_rounds sha256 k json send clock task address fuel queue r
          ≡ some r')
        × ((a : Text) → (IsIn queue a ⊎ IsIn r.attempted a) → IsIn r'.attempted a)
  unfolding store_rounds
  store_rounds-ends fuel [] r c h m = (r, refl, ended r.attempted)
  store_rounds-ends zero (addr ∷ queue) r c h m = absurd (omega arith)
  store_rounds-ends (suc fuel) (addr ∷ queue) r c h m =
      let v = visit sha256 k json send clock task address addr queue r in
      let (inside, less, kept) = visit-IsVisited addr queue r c h in
      let (r', e, all) = store_rounds-ends fuel v.0 v.1 c inside (omega arith) in
      (r', e, λ a w. all a (kept a w))
