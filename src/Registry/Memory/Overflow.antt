-- ===== src/Registry/Memory/Overflow.antt =====
-- The sum of the weights is an int, and clients choose the capacities.
use task_discovery_service.Prelude.{ℕ, ◌≤◌, ◌<◌, ◌≡◌, ◌≢◌, refl, ◌∙◌, true, List, [], Text, arith}
use task_discovery_service.Prelude.Result.{err}
use task_discovery_service.Text.{trim_space}
use task_discovery_service.Word.{int64_half, int64_mod, nonpos}
use task_discovery_service.Ip.{Ip, Net}
use task_discovery_service.Registry.{ServiceEntry, not_found}
use task_discovery_service.Registry.Weights.{
  weight_sum, total_service_weight, total_service_weight-mod,
}
use task_discovery_service.Registry.Memory.{MemoryRegistry, choose_entry, get_service_for_requestor}
use task_discovery_service.Registry.Memory.RoundRobin.{IsServing, query_entries-choose}

wrapped_total :
    (allowed : List ServiceEntry)
    → int64_half ≤ weight_sum allowed
    → weight_sum allowed < int64_mod
    → nonpos (total_service_weight allowed) ≡ true
unfolding nonpos
wrapped_total allowed h k = ground (arith, total_service_weight-mod allowed)

-- If the weights of the allowed entries of a task, its name trimmed and not empty, add up to 2 ^
-- 63 or more, and to less than 2 ^ 64, every query of the task fails with the error for a task
-- that has no service, and changes nothing.
pub get_service-overflow :
    (net : Net) (task : Text) (requestor : Ip) (allowed : List ServiceEntry) (c : ℕ)
    (m : MemoryRegistry)
    → trim_space task ≡ task
    → task ≢ []
    → IsServing net task requestor allowed c m
    → int64_half ≤ weight_sum allowed
    → weight_sum allowed < int64_mod
    → get_service_for_requestor net task requestor m ≡ (err not_found, m)
unfolding choose_entry
get_service-overflow net task requestor allowed c m t n s h k =
    query_entries-choose net task requestor allowed c m t n s
    ∙ rw (wrapped_total allowed h k, choose_entry) refl
