-- ===== src/Registry/StoreBacked.antt =====
-- pkg/registry/store_backed.go: a registry with a cache in memory over a persistent store. The
-- store is that of pkg/store/store.go, an interface; each method runs as one step.
pub mod Query
pub mod Firewalled
use task_discovery_service.Prelude.{
  ℕ, ◌-◌, Bool, true, false, ◌||◌, not, Option, none, some, List, [], ◌∷◌, Text, ◌==◌, text_eq,
  if◌then◌else◌, ltb, leb, is_some,
}
use task_discovery_service.Prelude.Result.{Result, ok, err}
use task_discovery_service.Assoc.{Assoc, lookup, insert, delete}
use task_discovery_service.Text.{trim_space}
use task_discovery_service.Word.{add64, nonpos, lt64}
use task_discovery_service.Firewall.{Firewall}
use task_discovery_service.Registry.{ServiceEntry, Stats}
use task_discovery_service.Registry.Memory.{
  MemoryRegistry, new_memory_registry, set_firewall, counter_key, store_entry,
  register_with_capacity, list_services, cleanup, get_stats, or_nil,
}

-- The methods that the registry calls, over the state of the store. Reading leaves it as it is; a
-- text is an error.
pub record Store (S : Type 0) : Type 0 where
  pub register : Text → ServiceEntry → S → Option Text × S
  pub increment_query_count : Text → Text → S → Option Text × S
  pub list_services : S → Result Text (Assoc Text (List ServiceEntry))
  pub list_task_services : Text → S → Result Text (List ServiceEntry)
  pub list_top_tasks : ℕ → S → Result Text (List Text)
  pub list_services_for_tasks : List Text → S → Result Text (Assoc Text (List ServiceEntry))
  pub cleanup : ℕ → S → ℕ × Option Text × S

-- The set of the entries that wait to be stored is a map into the unit type.
pub record StoreBackedRegistry (S : Type 0) : Type 0 where
  pub store : S
  pub mem_cache : MemoryRegistry
  pub last_cache_sync : ℕ
  pub cache_sync_period : ℕ
  pub cache_max_size : ℕ
  pub cache_miss_counts : Assoc Text ℕ
  pub fallback_cursor : Assoc Text ℕ
  pub admit_after_miss : ℕ
  pub pending_store_sync : Assoc {0, 0} Text Unit

-- populateCacheEntry, with the entry's own query count.
unfoldable pub populate_cache_entry : Text → ServiceEntry → MemoryRegistry → MemoryRegistry
populate_cache_entry task entry m =
    let capacity = if nonpos entry.capacity then 1 else entry.capacity in
    let new = record entry { query_count = 0; capacity = capacity } in
    let update : ServiceEntry → ServiceEntry =
      λ e. record e { last_heartbeat = entry.last_heartbeat; capacity = capacity } in
    let m' = store_entry task new update m in
    record m' {
      query_counters = insert (counter_key task entry.address) entry.query_count m'.query_counters;
    }

unfoldable pub populate_entries : Text → List ServiceEntry → MemoryRegistry → MemoryRegistry
populate_entries task [] m = m
populate_entries task (e ∷ es) m = populate_entries task es (populate_cache_entry task e m)

unfoldable pub populate_services : Assoc Text (List ServiceEntry) → MemoryRegistry → MemoryRegistry
populate_services [] m = m
populate_services ((task, es) ∷ tasks) m = populate_services tasks (populate_entries task es m)

unfoldable pub populate_tasks :
    List Text → Assoc Text (List ServiceEntry) → MemoryRegistry → MemoryRegistry
populate_tasks [] services m = m
populate_tasks (task ∷ tasks) services m =
    populate_tasks tasks services (populate_entries task (or_nil (lookup task services)) m)

-- copyRoundRobinState
unfoldable pub copy_round_robin_state : Assoc Text ℕ → MemoryRegistry → MemoryRegistry
copy_round_robin_state [] to = to
copy_round_robin_state ((task, cursor) ∷ cursors) to = copy_round_robin_state cursors (
    if is_some (lookup task to.services)
    then record to { round_robin_index = insert task cursor to.round_robin_index }
    else to)

module _ {S : Type 0} (db : Store S) where
  abbrev pub new_store_backed_registry : S → ℕ → ℕ → StoreBackedRegistry S
  new_store_backed_registry s cache_max_size now = record {
    store = s;
    mem_cache = new_memory_registry;
    last_cache_sync = now;
    cache_sync_period = 30000000000;
    cache_max_size = cache_max_size;
    cache_miss_counts = [];
    fallback_cursor = [];
    admit_after_miss = 1;
    pending_store_sync = [];
  }

  abbrev pub set_cache_admission_miss_threshold : ℕ → StoreBackedRegistry S → StoreBackedRegistry S
  set_cache_admission_miss_threshold threshold r = record r {
    admit_after_miss = if lt64 1 threshold then threshold else 1;
  }

  abbrev pub mark_pending : Text → Text → StoreBackedRegistry S → StoreBackedRegistry S
  mark_pending task addr r = record r {
    pending_store_sync = insert (counter_key task addr) tt r.pending_store_sync;
  }

  abbrev pub clear_pending : Text → Text → StoreBackedRegistry S → StoreBackedRegistry S
  clear_pending task addr r = record r {
    pending_store_sync = delete (counter_key task addr) r.pending_store_sync;
  }

  abbrev pub has_pending : Text → Text → StoreBackedRegistry S → Bool
  has_pending task addr r = is_some (lookup (counter_key task addr) r.pending_store_sync)

  -- A write of an entry: if it fails the pending mark is left as `on_error` makes it, and
  -- otherwise cleared.
  unfoldable pub write_entry :
      (StoreBackedRegistry S → StoreBackedRegistry S)
      → Text
      → ServiceEntry
      → StoreBackedRegistry S
      → StoreBackedRegistry S
  write_entry on_error task e r =
      let (failed, s) = db.register task e r.store in
      let r' = record r { store = s } in
      elim failed [ none ↦ clear_pending task e.address r' | some _ ↦ on_error r' ]

  -- syncPendingRegistrations, and the loop of syncQueryCountsToDB, which differ in the entries
  -- they write.
  unfoldable pub sync_entries :
      (Text → ServiceEntry → StoreBackedRegistry S → Bool)
      → Text
      → List ServiceEntry
      → StoreBackedRegistry S
      → StoreBackedRegistry S
  sync_entries wanted task [] r = r
  sync_entries wanted task (e ∷ es) r =
      sync_entries wanted task es (if wanted task e r then write_entry (λ r. r) task e r else r)

  unfoldable pub sync_services :
      (Text → ServiceEntry → StoreBackedRegistry S → Bool)
      → Assoc Text (List ServiceEntry)
      → StoreBackedRegistry S
      → StoreBackedRegistry S
  sync_services wanted [] r = r
  sync_services wanted ((task, es) ∷ tasks) r =
      sync_services wanted tasks (sync_entries wanted task es r)

  unfoldable pub sync_query_counts_to_db : StoreBackedRegistry S → StoreBackedRegistry S
  sync_query_counts_to_db r =
      sync_services (λ task e r. not (nonpos e.query_count)) (list_services r.mem_cache) r

  unfoldable pub sync_pending_registrations : StoreBackedRegistry S → StoreBackedRegistry S
  sync_pending_registrations r =
      sync_services (λ task e r. has_pending task e.address r) (list_services r.mem_cache) r

  -- The inner loop of preservePendingEntries.
  unfoldable pub preserve_entries :
      Assoc {0, 0} Text Unit → Text → List ServiceEntry → MemoryRegistry → MemoryRegistry
  preserve_entries pending task [] m = m
  preserve_entries pending task (e ∷ es) m = preserve_entries pending task es (
      if is_some (lookup (counter_key task e.address) pending)
      then populate_cache_entry task e m
      else m)

  unfoldable pub preserve_pending :
      Assoc {0, 0} Text Unit → Assoc Text (List ServiceEntry) → MemoryRegistry → MemoryRegistry
  preserve_pending pending [] m = m
  preserve_pending pending ((task, es) ∷ tasks) m =
      preserve_pending pending tasks (preserve_entries pending task es m)

  unfoldable pub register_store_backed :
      Text → Text → ℕ → ℕ → StoreBackedRegistry S → StoreBackedRegistry S
  register_store_backed task addr capacity now r =
      let task = trim_space task in
      let addr = trim_space addr in
      let capacity = if nonpos capacity then 1 else capacity in
      let entry : ServiceEntry = record {
        address = addr;
        last_heartbeat = now;
        query_count = 0;
        capacity = capacity;
      } in
      let cached = record r {
        mem_cache = register_with_capacity task addr capacity now r.mem_cache;
      } in
      if task == [] || addr == [] then r else write_entry (mark_pending task addr) task entry cached

  abbrev warmed : ℕ → StoreBackedRegistry S → MemoryRegistry → StoreBackedRegistry S
  warmed now r m =
      let old = r.mem_cache in
      let kept = preserve_pending r.pending_store_sync (list_services old) m in
      record r {
        mem_cache = copy_round_robin_state old.round_robin_index kept;
        last_cache_sync = now;
      }

  -- The entries that WarmCacheFromDB reads, put into a cache.
  unfoldable pub load_cache : StoreBackedRegistry S → MemoryRegistry → Result Text MemoryRegistry
  load_cache r m =
      if nonpos r.cache_max_size
      then elim (db.list_services r.store) [
        | err e ↦ err e
        | ok services ↦ ok (populate_services services m)
      ]
      else elim (db.list_top_tasks r.cache_max_size r.store) [
        | err e ↦ err e
        | ok tasks ↦ elim (db.list_services_for_tasks tasks r.store) [
          | err e ↦ err e
          | ok services ↦ ok (populate_tasks tasks services m)
        ]
      ]

  unfoldable pub warm_cache_from_db :
      ℕ → StoreBackedRegistry S → Option Text × StoreBackedRegistry S
  warm_cache_from_db now r =
      let synced = sync_pending_registrations (sync_query_counts_to_db r) in
      let new = set_firewall synced.mem_cache.firewall new_memory_registry in
      elim (load_cache synced new) [ err e ↦ (some e, synced) | ok m ↦ (none, warmed now synced m) ]

  unfoldable pub cleanup_store_backed : ℕ → ℕ → StoreBackedRegistry S → ℕ × StoreBackedRegistry S
  cleanup_store_backed timeout now r =
      let (m, removed) = cleanup now timeout r.mem_cache in
      let (flagged, failed, s) = db.cleanup timeout r.store in
      (add64 removed flagged, record r { mem_cache = m; store = s })

  unfoldable pub list_store_backed :
      ℕ → StoreBackedRegistry S → Assoc Text (List ServiceEntry) × StoreBackedRegistry S
  list_store_backed now r =
      let r' =
        if ltb r.cache_sync_period (now - r.last_cache_sync)
        then (warm_cache_from_db now r).1
        else r in
      (list_services r'.mem_cache, r')

  abbrev get_store_backed_stats : StoreBackedRegistry S → Stats
  get_store_backed_stats r = get_stats r.mem_cache

  -- Register, a registration with capacity 1.
  abbrev register_default : Text → Text → ℕ → StoreBackedRegistry S → StoreBackedRegistry S
  register_default task addr now r = register_store_backed task addr 1 now r

  abbrev set_store_backed_firewall : Option Firewall → StoreBackedRegistry S → StoreBackedRegistry S
  set_store_backed_firewall fw r = record r { mem_cache = set_firewall fw r.mem_cache }
