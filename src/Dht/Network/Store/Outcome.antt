-- ===== src/Dht/Network/Store/Outcome.antt =====
-- What Store returns.
use task_discovery_service.Prelude.{
  ℕ, ◌+◌, ◌*◌, ◌≤◌, ◌≡◌, refl, ap, ap₂, ◌∙◌, Bool, Option, some, List, [], ◌∷◌, Text, text_eq,
  if◌then◌else◌, any, ltb, length, All, inl,
}
use task_discovery_service.Prelude.Result.{Result, ok, err}
use task_discovery_service.Dht.{NodeId, Dht}
use task_discovery_service.Dht.Network.{Message}
use task_discovery_service.Dht.Network.Store.{
  Suggestions, StoreRun, start, store_queue, outcome, finished, store,
}
use task_discovery_service.Dht.Network.Store.Queue.{IsIn, IsIn-head, IsIn-tail, unseen_nil}
use task_discovery_service.Dht.Network.Store.Rounds.{IsClosed, store_rounds-ends}
use task_discovery_service.Dht.Network.Store.Attempts.{
  IsRun, IsDistinct, accepts, last_error, storage_after, store_rounds-IsRun, ltb-any,
}

module _ (sha256 : Text → NodeId) (k : ℕ) {Raw : Type 0} (json : Suggestions Raw)
    (send : Text → Result Text (Message Raw)) (clock : Text → ℕ) (task address : Text)
    (d : Dht) where
  start-IsRun : IsRun sha256 k json send clock task address d (start d)
  start-IsRun = record {
    self_kept = refl;
    counted = refl;
    failed = refl;
    stored = refl;
    distinct = tt;
  }

  -- What Store returns if the addresses of the list are those that it contacts.
  abbrev pub returned : List Text → Result (Option Text) Unit
  returned contacted =
      if any (accepts sha256 k json send clock task address d) contacted
      then ok tt
      else err (last_error sha256 k json send clock task address d contacted)

  outcome-returned :
      (r : StoreRun)
      → IsRun sha256 k json send clock task address d r
      → outcome r ≡ returned r.attempted
  outcome-returned r i =
      ap₂ (λ (b : Bool) (e : Option Text). if b then ok tt else err e)
        (ap (ltb 0) i.counted
          ∙ ltb-any (accepts sha256 k json send clock task address d) r.attempted)
        i.failed

  All_of_IsIn :
      (queue contacted : List Text)
      → ((a : Text) → IsIn queue a → IsIn contacted a)
      → All (IsIn contacted) queue
  All_of_IsIn [] contacted h = tt
  All_of_IsIn (a ∷ queue) contacted h =
      (h a (IsIn-head a queue), All_of_IsIn queue contacted (λ b w. h b (IsIn-tail a queue b w)))

  -- Let the k closest nodes that Store starts from be of a finite list of addresses, and let each
  -- peer of the list suggest only addresses of the list, at most `limit` at once. Then the loop ends
  -- after at most k' + limit * n rounds, k' the number of the nodes it starts from and n the length
  -- of the list. It has contacted distinct addresses, the nodes it starts from among them; Store
  -- returns no error exactly if one of them accepted the task, else the error of the last that could
  -- not be reached; and the node has stored the task exactly if it is one of them.
  pub store-outcome :
      (known : List Text) (limit fuel : ℕ)
      → IsClosed sha256 k json send clock task address known limit
      → All (IsIn known) (store_queue sha256 k task d)
      → length (store_queue sha256 k task d) + limit * length known ≤ fuel
      → (contacted : List Text) × (node : Dht) × (store sha256 k json send clock task address fuel d
          ≡ some (returned contacted, node))
        × IsDistinct contacted
        × All (IsIn contacted) (store_queue sha256 k task d)
        × (node.storage ≡ storage_after sha256 k json send clock task address d contacted)
  unfolding store
  store-outcome known limit fuel c within enough =
      let queue = store_queue sha256 k task d in
      let (r, e, all) =
        store_rounds-ends sha256 k json send clock task address known limit fuel queue (start d) c
          within (rw (unseen_nil known) enough) in
      let i =
        store_rounds-IsRun sha256 k json send clock task address d fuel queue (start d) r
          start-IsRun e in
      (
        r.attempted,
        r.node,
        ap finished e ∙ ap (λ o. some (o, r.node)) (outcome-returned r i),
        i.distinct,
        All_of_IsIn queue r.attempted (λ a w. all a (inl w)),
        i.stored,
      )
