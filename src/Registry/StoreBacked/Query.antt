-- ===== src/Registry/StoreBacked/Query.antt =====
-- pkg/registry/store_backed.go: the query, from the cache, or from the store and then through the
-- cache or past it.
use task_discovery_service.Prelude.{
  Bool, true, false, not, Option, none, some, List, [], ◌∷◌, map, Text, ◌==◌, text_eq,
  if◌then◌else◌, keep_if,
}
use task_discovery_service.Prelude.Result.{Result, ok, err}
use task_discovery_service.Assoc.{lookup, insert, delete}
use task_discovery_service.Text.{trim_space}
use task_discovery_service.Word.{add64, sub64, rem64, nonpos, lt64}
use task_discovery_service.Ip.{Ip, Net}
use task_discovery_service.Firewall.{Firewall, is_allowed, host_part}
use task_discovery_service.Registry.{
  ServiceEntry, RegistryError, not_found, no_allowed_service, invalid_task_name, other,
}
use task_discovery_service.Registry.Memory.{or_zero, get_service_for_requestor}
use task_discovery_service.Registry.StoreBacked.{Store, StoreBackedRegistry, populate_entries}
use task_discovery_service.Registry.Weights.{total_service_weight, select_weighted_address}

-- A candidate, without heartbeat and count, which the selection does not read.
abbrev pub candidate : ServiceEntry → ServiceEntry
candidate entry = record entry { last_heartbeat = 0; query_count = 0 }

module _ (net : Net) where
  -- The test of selectFromStoreEntries: the host must be an address, and allowed.
  unfoldable pub is_stored_reachable : Firewall → Ip → ServiceEntry → Bool
  is_stored_reachable fw requestor entry = elim (net.parse_ip (host_part entry.address)) [
    | none ↦ false
    | some dest ↦ is_allowed fw requestor dest
  ]

  abbrev pub stored_candidates : Option Firewall → Ip → List ServiceEntry → List ServiceEntry
  stored_candidates none requestor entries = map candidate entries
  stored_candidates (some fw) [] entries = map candidate entries
  stored_candidates (some fw) (b ∷ bs) entries =
      map candidate (keep_if (is_stored_reachable fw (b ∷ bs)) entries)

  abbrev pub none_allowed : Option Firewall → Ip → RegistryError
  none_allowed none requestor = not_found
  none_allowed (some fw) [] = not_found
  none_allowed (some fw) (b ∷ bs) = no_allowed_service

  module _ {S : Type 0} (db : Store S) where
    abbrev pub selected :
        StoreBackedRegistry S → Option Text → Result RegistryError Text × StoreBackedRegistry S
    selected r none = (err not_found, r)
    selected r (some addr) = (ok addr, r)

    -- The choice among the candidates by the cursor of its own.
    unfoldable pub select_from_store_entries :
        Text
        → RegistryError
        → List ServiceEntry
        → StoreBackedRegistry S
        → Result RegistryError Text × StoreBackedRegistry S
    select_from_store_entries task denied [] r = (err denied, r)
    select_from_store_entries task denied (e ∷ es) r =
        let total = total_service_weight (e ∷ es) in
        let cursor = add64 (or_zero (lookup task r.fallback_cursor)) 1 in
        let r' = record r { fallback_cursor = insert task cursor r.fallback_cursor } in
        if nonpos total
        then (err not_found, r)
        else selected r' (select_weighted_address (e ∷ es) (rem64 (sub64 cursor 1) total))

    unfoldable pub should_admit_task_on_miss :
        Text → StoreBackedRegistry S → Bool × StoreBackedRegistry S
    should_admit_task_on_miss task r =
        let count = add64 (or_zero (lookup task r.cache_miss_counts)) 1 in
        if lt64 1 r.admit_after_miss
        then (
          not (lt64 count r.admit_after_miss),
          record r { cache_miss_counts = insert task count r.cache_miss_counts },
        )
        else (true, r)

    -- The choice is counted in the store.
    abbrev pub counted :
        Text
        → Result RegistryError Text × StoreBackedRegistry S
        → Result RegistryError Text × StoreBackedRegistry S
    counted task (err e, r) = (err e, r)
    counted task (ok addr, r) =
        let (failed, s) = db.increment_query_count task addr r.store in
        let r' = record r { store = s } in
        elim failed [ none ↦ (ok addr, r') | some e ↦ (err (other e), r') ]

    -- A query of the cache leaves the rest as it is.
    abbrev pub query_cache :
        Text → Ip → StoreBackedRegistry S → Result RegistryError Text × StoreBackedRegistry S
    query_cache task requestor r =
        let (found, m) = get_service_for_requestor net task requestor r.mem_cache in
        (found, record r { mem_cache = m })

    abbrev pub through_cache :
        Text
        → Ip
        → List ServiceEntry
        → StoreBackedRegistry S
        → Result RegistryError Text × StoreBackedRegistry S
    through_cache task requestor entries r = query_cache task requestor (record r {
      mem_cache = populate_entries task entries r.mem_cache;
      cache_miss_counts = delete task r.cache_miss_counts;
    })

    abbrev pub past_cache :
        Text
        → Ip
        → List ServiceEntry
        → StoreBackedRegistry S
        → Result RegistryError Text × StoreBackedRegistry S
    past_cache task requestor entries r =
        let fw = r.mem_cache.firewall in
        counted task (
          select_from_store_entries task (none_allowed fw requestor)
            (stored_candidates fw requestor entries) r)

    -- After a miss, with what the store answers.
    abbrev pub on_miss :
        Text
        → Ip
        → Result Text (List ServiceEntry)
        → StoreBackedRegistry S
        → Result RegistryError Text × StoreBackedRegistry S
    on_miss task requestor (err e) r = (err (other e), r)
    on_miss task requestor (ok []) r = (err not_found, r)
    on_miss task requestor (ok (e ∷ es)) r =
        let (admit, r') = should_admit_task_on_miss task r in
        if admit
        then through_cache task requestor (e ∷ es) r'
        else past_cache task requestor (e ∷ es) r'

    abbrev pub after_cache :
        Text
        → Ip
        → Result RegistryError Text × StoreBackedRegistry S
        → Result RegistryError Text × StoreBackedRegistry S
    after_cache task requestor (ok addr, r) = (ok addr, r)
    after_cache task requestor (err _, r) =
        on_miss task requestor (db.list_task_services task r.store) r

    unfoldable pub query_store_backed :
        Text → Ip → StoreBackedRegistry S → Result RegistryError Text × StoreBackedRegistry S
    query_store_backed task requestor r =
        let task = trim_space task in
        if task == []
        then (err invalid_task_name, r)
        else after_cache task requestor (query_cache task requestor r)

    abbrev get_store_backed_service :
        Text → StoreBackedRegistry S → Result RegistryError Text × StoreBackedRegistry S
    get_store_backed_service task r = query_store_backed task [] r
