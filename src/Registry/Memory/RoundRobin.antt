-- ===== src/Registry/Memory/RoundRobin.antt =====
-- The weighted round robin: over as many queries as the weights add up to, each allowed address is
-- served as often as its weight says.
use mathlib.Core.List.{map-map}
use mathlib.Core.List.Perm
use task_discovery_service.Prelude.{
  ℕ, zero, suc, ◌+◌, ◌%◌, ◌<◌, ◌≡◌, ◌≢◌, refl, sym, ap, ap₂, subst, ◌∙◌, Option, none, some, List,
  [], ◌∷◌, map, Text, text_eq, beq_refl, beq_false, arith, get_elem?, Perm,
}
use task_discovery_service.Prelude.Result.{Result, ok, err}
use task_discovery_service.Prelude.Rotation.{walk, walk-perm}
use task_discovery_service.Assoc.{lookup, insert, lookup-insert}
use task_discovery_service.Text.{trim_space}
use task_discovery_service.Word.{
  int64_half, add64_small, sub64-add64_one, nonpos_small, rem64_small,
}
use task_discovery_service.Ip.{Ip, Net}
use task_discovery_service.Registry.{ServiceEntry, RegistryError, not_found}
use task_discovery_service.Registry.Weights.{
  weight_sum, weighted_pool, length-weighted_pool, total_service_weight_lem, select-pool,
}
use task_discovery_service.Registry.Memory.{
  MemoryRegistry, or_nil, or_zero, allowed_entries, choose_entry, after_choice, count_query,
  query_entries, get_service_for_requestor,
}

abbrev pub served : Option Text → Result RegistryError Text
served none = err not_found
served (some addr) = ok addr

module _ (net : Net) (task : Text) (requestor : Ip) where
  -- The answers to so many queries, one after the other.
  abbrev pub query_times : ℕ → MemoryRegistry → List (Result RegistryError Text)
  query_times zero m = []
  query_times (suc k) m =
      let r = get_service_for_requestor net task requestor m in r.0 ∷ query_times k r.1

  -- The task has entries, of which these are allowed, and its cursor stands at `c`.
  pub record IsServing (allowed : List ServiceEntry) (c : ℕ) (m : MemoryRegistry) : Type 0 where
    pub entry : ServiceEntry
    pub entries : List ServiceEntry
    pub found : or_nil (lookup task m.services) ≡ entry ∷ entries
    pub allows : allowed_entries net m.firewall requestor (entry ∷ entries) ≡ some allowed
    pub cursor : or_zero (lookup task m.round_robin_index) ≡ c

  pub query_entries-choose :
      (allowed : List ServiceEntry) (c : ℕ) (m : MemoryRegistry)
      → trim_space task ≡ task
      → task ≢ []
      → IsServing allowed c m
      → get_service_for_requestor net task requestor m ≡ choose_entry net task allowed m
  unfolding get_service_for_requestor query_entries
  query_entries-choose allowed c m t n s =
      rw (t, beq_false task [] n, s.found, query_entries) (rw s.allows (rw t))

  module _ (allowed : List ServiceEntry) (pos : 0 < weight_sum allowed)
      (small : weight_sum allowed < int64_half) where
    choose_entry-after :
        (c : ℕ) (m : MemoryRegistry)
        → or_zero (lookup task m.round_robin_index) ≡ c
        → c + 1 < int64_half
        → choose_entry net task allowed m
          ≡ after_choice net task
              (record m { round_robin_index = insert task (c + 1) m.round_robin_index })
              (get_elem? (weighted_pool allowed) (c % weight_sum allowed))
    unfolding choose_entry
    choose_entry-after c m e h =
        rw
          (
            total_service_weight_lem allowed small,
            nonpos_small (weight_sum allowed) pos small,
            e,
            sub64-add64_one c (omega arith),
            add64_small c 1 h,
            rem64_small c (weight_sum allowed) (omega arith) small,
            select-pool allowed (c % weight_sum allowed) small (omega arith),
          )
          refl

    after_choice-served :
        (c : ℕ) (m : MemoryRegistry) (o : Option Text)
        → IsServing allowed c m
        → ((after_choice net task m o).0 ≡ served o)
          × IsServing allowed c (after_choice net task m o).1
    unfolding count_query
    after_choice-served c m none s = (refl, s)
    after_choice-served c m (some addr) s = (
      refl,
      record {
        entry = s.entry;
        entries = s.entries;
        found = s.found;
        allows = s.allows;
        cursor = s.cursor;
      },
    )

    moved :
        (c : ℕ) (m : MemoryRegistry)
        → IsServing allowed c m
        → IsServing allowed
            (c + 1)
            (record m { round_robin_index = insert task (c + 1) m.round_robin_index })
    moved c m s = record {
      entry = s.entry;
      entries = s.entries;
      found = s.found;
      allows = s.allows;
      cursor = rw (lookup-insert task task (c + 1) m.round_robin_index, beq_refl task) refl;
    }

    query_times-walk :
        (k c : ℕ) (m : MemoryRegistry)
        → trim_space task ≡ task
        → task ≢ []
        → IsServing allowed c m
        → c + k < int64_half
        → query_times k m ≡ map served (walk (weighted_pool allowed) k c)
    query_times-walk zero c m t n s h = refl
    query_times-walk (suc k) c m t n s h =
        let pool = weighted_pool allowed in
        let m' : MemoryRegistry = record m {
          round_robin_index = insert task (c + 1) m.round_robin_index;
        } in
        let (answer, next) =
          after_choice-served (c + 1) m' (get_elem? pool (c % weight_sum allowed)) (moved c m s) in
        rw (query_entries-choose allowed c m t n s ∙ choose_entry-after c m s.cursor (omega arith))
          (ap₂ ◌∷◌
            (answer
              ∙ ap (λ i. served (get_elem? pool (c % i))) (sym (length-weighted_pool allowed)))
            (query_times-walk k (c + 1) _ t n next (omega arith)))

    -- Over as many queries of a task as the weights of its allowed entries add up to, with no
    -- other call between them, the name of the task trimmed and not empty, that sum positive and
    -- no cursor past the range of an int64, every query succeeds, and each allowed address is
    -- served exactly as often as the weights of its entries say, whatever the cursor stood at.
    pub query_times-perm :
        (c : ℕ) (m : MemoryRegistry)
        → trim_space task ≡ task
        → task ≢ []
        → IsServing allowed c m
        → c + weight_sum allowed < int64_half
        → Perm (query_times (weight_sum allowed) m) (map ok (weighted_pool allowed))
    query_times-perm c m t n s h =
        let pool = weighted_pool allowed in
        let e = length-weighted_pool allowed in
        let around : Perm (walk pool (weight_sum allowed) c) (map some pool) =
          subst (λ i. Perm (walk pool i c) (map some pool)) e (walk-perm pool c (omega arith)) in
        rw (query_times-walk (weight_sum allowed) c m t n s h) (
          subst (λ l. Perm (map served (walk pool (weight_sum allowed) c)) l)
            (map-map served some pool) (Perm.map served around))
