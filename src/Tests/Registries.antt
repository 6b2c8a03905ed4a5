-- ===== src/Tests/Registries.antt =====
-- Queries, registrations and cleanups of small registries.
use task_discovery_service.Prelude.{
  ◌≡◌, ◌≢◌, refl, sym, subst, ◌&&◌, none, some, List, [], ◌∷◌, ◌==◌, text_eq, if◌then◌else◌, Perm,
  map, keep_if, arith, get_elem?,
}
use task_discovery_service.Prelude.Result.{ok, err}
use task_discovery_service.Assoc.{lookup, insert, delete, Distinct}
use task_discovery_service.Text.{
  codes, is_space, trim_space, has_prefix, split_host_port, finish_split,
}
use task_discovery_service.Word.{int64_half, nonpos, add64, sub64, rem64, lt64}
use task_discovery_service.Ip.{ip_equal}
use task_discovery_service.Firewall.{is_allowed}
use task_discovery_service.Registry.Destination.{destination_ip_from_address}
use task_discovery_service.Registry.{ServiceEntry, not_found}
use task_discovery_service.Registry.Weights.{
  weight_sum, weighted_pool, service_weight, total_service_weight, select_weighted_address,
  select-pool,
}
use task_discovery_service.Registry.Memory.{
  MemoryRegistry, store_entry, update_entry, load_or_store, allowed_entries, query_entries,
  is_reachable, choose_entry, count_query, or_nil, get_service_for_requestor, register,
  register_with_capacity, cleanup, new_entry,
}
use task_discovery_service.Registry.Memory.RoundRobin.{IsServing, query_times, query_times-perm}
use task_discovery_service.Registry.Memory.Queries.{Answer, get_service-permitted}
use task_discovery_service.Registry.Memory.Cleanup.{is_fresh, stale_count, cleanup-fresh}
use task_discovery_service.Registry.Memory.Entries.{
  entry_of, update_or, entry_of-register, entry_of-register_with_capacity,
}
use task_discovery_service.Registry.Memory.Overflow.{get_service-overflow}
use task_discovery_service.Registry.StoreBacked.{
  Store, StoreBackedRegistry, new_store_backed_registry, populate_entries, populate_cache_entry,
}
use task_discovery_service.Registry.StoreBacked.Query.{
  query_store_backed, should_admit_task_on_miss,
}
use task_discovery_service.Registry.StoreBacked.Firewalled.{Reaches, query_store_backed-Reaches}
use task_discovery_service.Tests.Samples.{
  one_rule, letters, gate, entry, two_entries, open_registry, guarded_registry,
}

gate-trimmed : trim_space gate ≡ gate
unfolding trim_space is_space
gate-trimmed = refl

gate-named : gate ≢ []
gate-named h = cc

gate-served : IsServing letters gate [] two_entries 0 open_registry
unfolding lookup allowed_entries
gate-served = record {
  entry = entry (codes "abcd:80") 5 2;
  entries = entry (codes "wxyz:80") 9 1 ∷ [];
  found = refl;
  allows = refl;
  cursor = refl;
}

gate-weight : weight_sum two_entries ≡ 3
unfolding service_weight nonpos
gate-weight = refl

gate-words : trim_space gate ≢ []
gate-words = subst (λ t. t ≢ []) (sym gate-trimmed) gate-named

address-words : trim_space (codes "wxyz:80") ≢ []
unfolding trim_space is_space
address-words h = cc

gate-answer :
    (get_service_for_requestor letters gate (codes "abcd") guarded_registry).0
    ≡ ok (codes "abcd:80")
unfolding get_service_for_requestor trim_space is_space query_entries lookup allowed_entries
    is_reachable destination_ip_from_address has_prefix split_host_port is_allowed ip_equal
    choose_entry nonpos total_service_weight add64 select_weighted_address lt64 insert count_query
    service_weight finish_split rem64 sub64
gate-answer = refl

query_times_example :
    Perm
      (query_times letters gate [] (weight_sum two_entries) open_registry)
      (map ok (weighted_pool two_entries))
query_times_example =
    query_times-perm letters gate [] two_entries (omega (arith, gate-weight))
      (omega (arith, gate-weight)) 0 open_registry gate-trimmed gate-named gate-served
      (omega (arith, gate-weight))

permitted_example :
    Answer letters guarded_registry.firewall
      (codes "abcd")
      (or_nil (lookup (trim_space gate) guarded_registry.services))
      (codes "abcd:80")
permitted_example =
    get_service-permitted letters gate (codes "abcd:80") (codes "abcd") guarded_registry gate-answer

select_example : select_weighted_address two_entries 2 ≡ get_elem? (weighted_pool two_entries) 2
select_example = select-pool two_entries 2 (omega (arith, gate-weight)) (omega arith)

gate-Distinct : Distinct open_registry.services
unfolding lookup
gate-Distinct = (refl, tt)

cleanup_example :
    (or_nil (lookup gate (cleanup 10 3 open_registry).0.services)
      ≡ keep_if (is_fresh 10 3) (or_nil (lookup gate open_registry.services)))
    × ((cleanup 10 3 open_registry).1 ≡ stale_count 10 3 open_registry.services)
cleanup_example = cleanup-fresh 10 3 open_registry gate gate-Distinct

register_example :
    entry_of gate (codes "wxyz:80") (register gate (codes "wxyz:80") 12 open_registry) ≡ (
      if trim_space gate == gate && trim_space (codes "wxyz:80") == codes "wxyz:80"
      then some (
          update_or
            (new_entry (trim_space (codes "wxyz:80")) 12 1)
            (λ e. record e { last_heartbeat = 12 })
            (entry_of gate (codes "wxyz:80") open_registry))
      else entry_of gate (codes "wxyz:80") open_registry)
register_example =
    entry_of-register gate (codes "wxyz:80") gate (codes "wxyz:80") 12 open_registry gate-words
      address-words

register_with_capacity_example :
    entry_of gate
      (codes "wxyz:80")
      (register_with_capacity gate (codes "wxyz:80") 4 12 open_registry)
    ≡ (if trim_space gate == gate && trim_space (codes "wxyz:80") == codes "wxyz:80"
        then some (
            update_or
              (new_entry (trim_space (codes "wxyz:80")) 12 (if nonpos 4 then 1 else 4))
              (λ e. record e { last_heartbeat = 12; capacity = if nonpos 4 then 1 else 4 })
              (entry_of gate (codes "wxyz:80") open_registry))
        else entry_of gate (codes "wxyz:80") open_registry)
register_with_capacity_example =
    entry_of-register_with_capacity gate (codes "wxyz:80") gate (codes "wxyz:80") 4 12 open_registry
      gate-words address-words

-- Two entries whose clients ask for capacities of half the range each.
abbrev greedy_entries : List ServiceEntry
greedy_entries = entry (codes "abcd:80") 5 0x7fffffffffffffff ∷ entry (codes "wxyz:80") 9 1 ∷ []

abbrev greedy_registry : MemoryRegistry
greedy_registry = record open_registry { services = (gate, greedy_entries) ∷ [] }

greedy-served : IsServing letters gate [] greedy_entries 0 greedy_registry
unfolding lookup allowed_entries
greedy-served = record {
  entry = entry (codes "abcd:80") 5 0x7fffffffffffffff;
  entries = entry (codes "wxyz:80") 9 1 ∷ [];
  found = refl;
  allows = refl;
  cursor = refl;
}

greedy-weight : weight_sum greedy_entries ≡ int64_half
unfolding service_weight nonpos
greedy-weight = refl

overflow_example :
    get_service_for_requestor letters gate [] greedy_registry ≡ (err not_found, greedy_registry)
overflow_example =
    get_service-overflow letters gate [] greedy_entries 0 greedy_registry gate-trimmed gate-named
      greedy-served (omega (arith, greedy-weight)) (omega (arith, greedy-weight))

-- A store that holds the two entries.
abbrev fixed_store : Store Unit
fixed_store = record {
  register = λ task e s. (none, s);
  increment_query_count = λ task addr s. (none, s);
  list_services = λ s. ok ((gate, two_entries) ∷ []);
  list_task_services = λ task s. ok two_entries;
  list_top_tasks = λ n s. ok (gate ∷ []);
  list_services_for_tasks = λ tasks s. ok ((gate, two_entries) ∷ []);
  cleanup = λ timeout s. (0, none, s);
}

abbrev cold_registry : StoreBackedRegistry Unit
cold_registry = record (new_store_backed_registry fixed_store tt 0 0) {
  mem_cache = record open_registry { services = []; firewall = some one_rule };
}

cold-answer :
    (query_store_backed letters fixed_store gate (codes "abcd") cold_registry).0
    ≡ ok (codes "abcd:80")
unfolding query_store_backed get_service_for_requestor trim_space is_space query_entries lookup
    allowed_entries is_reachable destination_ip_from_address has_prefix split_host_port is_allowed
    ip_equal choose_entry nonpos total_service_weight add64 select_weighted_address lt64 insert
    count_query service_weight finish_split rem64 sub64 should_admit_task_on_miss populate_entries
    populate_cache_entry store_entry update_entry load_or_store delete
cold-answer = refl

store_backed_example : Reaches letters (some one_rule) (codes "abcd") (codes "abcd:80")
store_backed_example =
    query_store_backed-Reaches letters fixed_store gate (codes "abcd:80") (codes "abcd")
      cold_registry cold-answer
