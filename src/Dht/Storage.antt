-- ===== src/Dht/Storage.antt =====
-- pkg/dht/distributed_hash_table.go: the registrations that a node stores. `now.Sub(t)` is compared
-- with positive timeouts only, where the truncated difference decides alike.
pub mod Heartbeats
pub mod Expiry
use task_discovery_service.Prelude.{
  ℕ, ◌+◌, ◌-◌, Bool, true, false, not, ◌&&◌, Option, none, some, List, [], ◌∷◌, ◌++◌, map, Text,
  ◌==◌, text_eq, nat_beq, if◌then◌else◌, ltb, leb, length, keep_if,
}
use task_discovery_service.Assoc.{Assoc, lookup, insert, delete}
use task_discovery_service.Dht.{NodeId, Node, Dht, ServiceRegistration}
use task_discovery_service.Dht.Closest.{find_k_closest_nodes, self_among, am_i_in_k_closest_locked}

abbrev pub or_nil : Option (List ServiceRegistration) → List ServiceRegistration
or_nil none = []
or_nil (some entries) = entries

-- The loop of StoreTask; `none` is an address that is not there.
unfoldable pub refresh : Text → ℕ → List ServiceRegistration → Option (List ServiceRegistration)
refresh addr now [] = none
refresh addr now (e ∷ entries) =
    let rest = refresh addr now entries in
    if e.address == addr
    then some (record e { last_heartbeat = now } ∷ entries)
    else elim rest [ none ↦ none | some entries' ↦ some (e ∷ entries') ]

unfoldable pub store_task : Text → Text → ℕ → Dht → Dht
store_task task addr now d =
    let entries = or_nil (lookup task d.storage) in
    let new : ServiceRegistration = record { address = addr; last_heartbeat = now } in
    elim (refresh addr now entries) [
      | some entries' ↦ record d { storage = insert task entries' d.storage }
      | none ↦ record d { storage = insert task (entries ++ (new ∷ [])) d.storage }
    ]

abbrev pub is_active : ℕ → ℕ → ServiceRegistration → Bool
is_active now timeout e = not (ltb 0 timeout && leb timeout (now - e.last_heartbeat))

unfoldable pub active_addresses : List ServiceRegistration → ℕ → ℕ → List Text
active_addresses entries now timeout =
    map (λ e. e.address) (keep_if (is_active now timeout) entries)

-- The loop of forwardLookup over the nodes, with what the network answers for an address; the outer
-- `none` is a nil pointer that is read.
unfoldable pub forward_lookup :
    (Text → List Text) → NodeId → List (Option Node) → Option (List Text)
forward_lookup query self [] = some []
forward_lookup query self (none ∷ nodes) = none
forward_lookup query self (some node ∷ nodes) =
    let rest = forward_lookup query self nodes in
    if nat_beq node.id self
    then rest
    else elim (query node.address) [ [] ↦ rest | a ∷ as' ↦ some (a ∷ as') ]

module _ (sha256 : Text → NodeId) (k timeout : ℕ) where
  -- With no active address here: not responsible and on the network, the query is forwarded.
  abbrev pub lookup_elsewhere :
      (Text → List Text) → List (Option Node) → Dht → Option Bool → Option (List Text)
  lookup_elsewhere query closest d none = none
  lookup_elsewhere query closest d (some responsible) =
      if not responsible && d.has_network then forward_lookup query d.self.id closest else some []

  -- LookupTask, `query` being what QueryPeerForTask answers for the task.
  unfoldable pub lookup_task : (Text → List Text) → Text → ℕ → Dht → Option (List Text)
  lookup_task query task now d =
      elim (active_addresses (or_nil (lookup task d.storage)) now timeout) [
        | a ∷ as' ↦ some (a ∷ as')
        | [] ↦
            let closest = find_k_closest_nodes sha256 task k d in
            lookup_elsewhere query closest d (self_among d.self.id closest)
      ]

module _ (sha256 : Text → NodeId) (k : ℕ) where
  -- The loop of CleanupStaleData over the tasks.
  unfoldable pub sweep_stale : Assoc Text (List ServiceRegistration) → Dht → Dht × ℕ
  sweep_stale [] d = (d, 0)
  sweep_stale ((task, entries) ∷ tasks) d =
      let keep = am_i_in_k_closest_locked sha256 task k d in
      let rest =
        sweep_stale tasks (if keep then d else record d { storage = delete task d.storage }) in
      if keep then rest else (rest.0, rest.1 + 1)

  unfoldable pub cleanup_stale_data : Dht → Dht × ℕ
  cleanup_stale_data d = sweep_stale d.storage d

abbrev pub is_fresh : ℕ → ℕ → ServiceRegistration → Bool
is_fresh now timeout e = ltb (now - e.last_heartbeat) timeout

abbrev pub put_kept : Text → List ServiceRegistration → Dht → Dht
put_kept task [] d = record d { storage = delete task d.storage }
put_kept task (e ∷ es) d = record d { storage = insert task (e ∷ es) d.storage }

-- The loop of CleanupExpiredRegistrations over the tasks.
unfoldable pub sweep_expired : ℕ → ℕ → Assoc Text (List ServiceRegistration) → Dht → Dht × ℕ
sweep_expired now timeout [] d = (d, 0)
sweep_expired now timeout ((task, entries) ∷ tasks) d =
    let kept = keep_if (is_fresh now timeout) entries in
    let (d', later) = sweep_expired now timeout tasks (put_kept task kept d) in
    (d', length (keep_if (λ e. not (is_fresh now timeout e)) entries) + later)

unfoldable pub cleanup_expired_registrations : ℕ → ℕ → Dht → Dht × ℕ
cleanup_expired_registrations timeout now d =
    if nat_beq timeout 0 then (d, 0) else sweep_expired now timeout d.storage d

abbrev with_active : ℕ → ℕ → Assoc Text (List ServiceRegistration) → Assoc Text (List Text)
with_active now timeout [] = []
with_active now timeout ((task, entries) ∷ tasks) =
    let rest = with_active now timeout tasks in
    elim (active_addresses entries now timeout) [ [] ↦ rest | a ∷ as' ↦ (task, a ∷ as') ∷ rest ]

unfoldable pub get_storage_snapshot : ℕ → ℕ → Dht → Assoc Text (List Text)
get_storage_snapshot timeout now d = with_active now timeout d.storage
