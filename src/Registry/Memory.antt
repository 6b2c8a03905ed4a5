-- ===== src/Registry/Memory.antt =====
-- pkg/registry/memory.go: the registry in memory. A method takes the state and the present time and
-- returns the new state beside its result; each runs as one step. Lookups of the counters stand
-- for the loads of the sync.Map; a missing counter is created at zero.
pub mod Entries
pub mod RoundRobin
pub mod Cleanup
pub mod Queries
pub mod Overflow
use task_discovery_service.Prelude.{
  ℕ, ◌+◌, Bool, true, false, ◌&&◌, ◌||◌, Option, none, some, List, [], ◌∷◌, ◌++◌, map, Text, ◌==◌,
  text_eq, if◌then◌else◌, ltb, length, nat_beq, keep_if,
}
use task_discovery_service.Prelude.Result.{Result, ok, err}
use task_discovery_service.Assoc.{Assoc, lookup, insert, delete}
use task_discovery_service.Text.{trim_space, has_prefix, codes, split_host_port}
use task_discovery_service.Word.{add64, sub64, rem64, nonpos}
use task_discovery_service.Ip.{Ip, Net}
use task_discovery_service.Firewall.{Firewall, is_allowed}
use task_discovery_service.Registry.{
  ServiceEntry, Stats, RegistryError, not_found, no_allowed_service, invalid_task_name,
}
use task_discovery_service.Registry.Destination.{destination_ip_from_address}
use task_discovery_service.Registry.Weights.{total_service_weight, select_weighted_address}

pub record MemoryRegistry : Type 0 where
  pub services : Assoc Text (List ServiceEntry)
  pub round_robin_index : Assoc Text ℕ
  pub query_counters : Assoc Text ℕ
  pub total_queries : ℕ
  pub firewall : Option Firewall

abbrev pub new_memory_registry : MemoryRegistry
new_memory_registry = record {
  services = [];
  round_robin_index = [];
  query_counters = [];
  total_queries = 0;
  firewall = none;
}

abbrev pub set_firewall : Option Firewall → MemoryRegistry → MemoryRegistry
set_firewall fw m = record m { firewall = fw }

-- registry.services[task], nil if it is missing
abbrev pub or_nil : Option (List ServiceEntry) → List ServiceEntry
or_nil none = []
or_nil (some entries) = entries

abbrev pub or_zero : Option ℕ → ℕ
or_zero none = 0
or_zero (some n) = n

unfoldable pub load_or_store : Text → ℕ → Assoc Text ℕ → Assoc Text ℕ
load_or_store k n m = elim (lookup k m) [ none ↦ insert k n m | some _ ↦ m ]

-- The loop of a registration: the entry with the address is changed in place, and `none` means
-- that there is none.
unfoldable pub update_entry :
    Text → (ServiceEntry → ServiceEntry) → List ServiceEntry → Option (List ServiceEntry)
update_entry addr f [] = none
update_entry addr f (e ∷ entries) =
    let rest = update_entry addr f entries in
    if e.address == addr
    then some (f e ∷ entries)
    else elim rest [ none ↦ none | some entries' ↦ some (e ∷ entries') ]

-- Both registrations, after their checks.
unfoldable pub store_entry :
    Text → ServiceEntry → (ServiceEntry → ServiceEntry) → MemoryRegistry → MemoryRegistry
store_entry task new f m =
    let entries = or_nil (lookup task m.services) in
    elim (update_entry new.address f entries) [
      | some entries' ↦ record m { services = insert task entries' m.services }
      | none ↦ record m {
        services = insert task (entries ++ (new ∷ [])) m.services;
        round_robin_index = load_or_store task 0 m.round_robin_index;
      }
    ]

abbrev pub new_entry : Text → ℕ → ℕ → ServiceEntry
new_entry addr now capacity = record {
  address = addr;
  last_heartbeat = now;
  query_count = 0;
  capacity = capacity;
}

unfoldable pub register : Text → Text → ℕ → MemoryRegistry → MemoryRegistry
register task addr now m =
    let task = trim_space task in
    let addr = trim_space addr in
    if task == [] || addr == []
    then m
    else store_entry task (new_entry addr now 1) (λ e. record e { last_heartbeat = now }) m

unfoldable pub register_with_capacity : Text → Text → ℕ → ℕ → MemoryRegistry → MemoryRegistry
register_with_capacity task addr capacity now m =
    let task = trim_space task in
    let addr = trim_space addr in
    let capacity = if nonpos capacity then 1 else capacity in
    if task == [] || addr == []
    then m
    else store_entry task (new_entry addr now capacity)
        (λ e. record e { last_heartbeat = now; capacity = capacity }) m

abbrev pub counter_key : Text → Text → Text
counter_key task addr = task ++ (b':' ∷ addr)

module _ (net : Net) where
  -- The test of one entry against the firewall.
  unfoldable pub is_reachable : Firewall → Ip → ServiceEntry → Bool
  is_reachable fw requestor entry = elim (destination_ip_from_address net entry.address) [
    | none ↦ false
    | some dest ↦ is_allowed fw requestor dest
  ]

  -- The entries to choose from; a nil requestor is not filtered.
  unfoldable pub allowed_entries :
      Option Firewall → Ip → List ServiceEntry → Option (List ServiceEntry)
  allowed_entries none requestor entries = some entries
  allowed_entries (some fw) [] entries = some entries
  allowed_entries (some fw) (b ∷ bs) entries = elim (keep_if (is_reachable fw (b ∷ bs)) entries) [
    | [] ↦ none
    | e ∷ es ↦ some (e ∷ es)
  ]

  -- The counters of a served query.
  unfoldable pub count_query : Text → Text → MemoryRegistry → MemoryRegistry
  count_query task addr m =
      let key = counter_key task addr in
      record m {
        query_counters =
            insert key (add64 (or_zero (lookup key m.query_counters)) 1) m.query_counters;
        total_queries = add64 m.total_queries 1;
      }

  abbrev pub after_choice :
      Text → MemoryRegistry → Option Text → Result RegistryError Text × MemoryRegistry
  after_choice task m none = (err not_found, m)
  after_choice task m (some addr) = (ok addr, count_query task addr m)

  -- The choice among the allowed entries: the cursor moves, also if no address is found.
  unfoldable pub choose_entry :
      Text → List ServiceEntry → MemoryRegistry → Result RegistryError Text × MemoryRegistry
  choose_entry task allowed m =
      let total = total_service_weight allowed in
      if nonpos total
      then (err not_found, m)
      else let cursor = add64 (or_zero (lookup task m.round_robin_index)) 1 in
        let m' = record m { round_robin_index = insert task cursor m.round_robin_index } in
        after_choice task m' (select_weighted_address allowed (rem64 (sub64 cursor 1) total))

  abbrev pub choose_allowed :
      Text
      → MemoryRegistry
      → Option (List ServiceEntry)
      → Result RegistryError Text × MemoryRegistry
  choose_allowed task m none = (err no_allowed_service, m)
  choose_allowed task m (some allowed) = choose_entry task allowed m

  unfoldable pub query_entries :
      Text → Ip → List ServiceEntry → MemoryRegistry → Result RegistryError Text × MemoryRegistry
  query_entries task requestor [] m = (err not_found, m)
  query_entries task requestor (e ∷ es) m =
      choose_allowed task m (allowed_entries m.firewall requestor (e ∷ es))

  unfoldable pub get_service_for_requestor :
      Text → Ip → MemoryRegistry → Result RegistryError Text × MemoryRegistry
  get_service_for_requestor task requestor m =
      let task = trim_space task in
      if task == []
      then (err invalid_task_name, m)
      else query_entries task requestor (or_nil (lookup task m.services)) m

  abbrev pub get_service : Text → MemoryRegistry → Result RegistryError Text × MemoryRegistry
  get_service task m = get_service_for_requestor task [] m

-- The loop of Cleanup over the entries of a task: those kept, the counters, and how many it removed.
unfoldable pub sweep_entries :
    Text → ℕ → ℕ → List ServiceEntry → Assoc Text ℕ → List ServiceEntry × Assoc Text ℕ × ℕ
sweep_entries task now timeout [] counters = ([], counters, 0)
sweep_entries task now timeout (e ∷ es) counters =
    let fresh = ltb now (e.last_heartbeat + timeout) in
    let rest =
      sweep_entries task now timeout es
        (if fresh then counters else delete (counter_key task e.address) counters) in
    if fresh then (e ∷ rest.0, rest.1, rest.2) else (rest.0, rest.1, rest.2 + 1)

abbrev pub keep_task : Text → List ServiceEntry → Assoc Text ℕ → MemoryRegistry → MemoryRegistry
keep_task task [] counters m = record m {
  services = delete task m.services;
  round_robin_index = delete task m.round_robin_index;
  query_counters = counters;
}
keep_task task (e ∷ es) counters m = record m {
  services = insert task (e ∷ es) m.services;
  query_counters = counters;
}

-- The loop of Cleanup over the tasks.
unfoldable pub sweep_tasks :
    ℕ → ℕ → Assoc Text (List ServiceEntry) → MemoryRegistry → MemoryRegistry × ℕ
sweep_tasks now timeout [] m = (m, 0)
sweep_tasks now timeout ((task, entries) ∷ tasks) m =
    let (kept, counters, removed) = sweep_entries task now timeout entries m.query_counters in
    let (m', later) = sweep_tasks now timeout tasks (keep_task task kept counters m) in
    (m', removed + later)

unfoldable pub cleanup : ℕ → ℕ → MemoryRegistry → MemoryRegistry × ℕ
cleanup now timeout m = sweep_tasks now timeout m.services m

abbrev with_count : Text → Assoc Text ℕ → ServiceEntry → ServiceEntry
with_count task counters e = elim (lookup (counter_key task e.address) counters) [
  | none ↦ e
  | some n ↦ record e { query_count = n }
]

unfoldable pub list_services : MemoryRegistry → Assoc Text (List ServiceEntry)
list_services m = map (λ e. (e.0, map (with_count e.0 m.query_counters) e.1)) m.services

unfoldable pub get_stats : MemoryRegistry → Stats
get_stats m = record { total_queries = m.total_queries; total_tasks = length m.services }
