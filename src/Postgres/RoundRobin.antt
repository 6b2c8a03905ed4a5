-- ===== src/Postgres/RoundRobin.antt =====
-- The weighted round robin of the persistent store: it serves as that of the registry in memory does,
-- with a cursor that stays below the sum of the weights.
use task_discovery_service.Prelude.{
  ℕ, suc, ◌+◌, ◌-◌, ◌%◌, ◌<◌, ◌≡◌, refl, sym, ap, ap₂, subst, ◌∙◌, Bool, Option, none, some, List,
  [], ◌∷◌, map, Text, text_eq, beq_refl, ltb, arith, length, get_elem?, keep_if, Perm, Bool-cases,
  inl, inr,
}
use task_discovery_service.Prelude.Result.{Result, ok, err}
use task_discovery_service.Prelude.Rotation.{walk, walk-perm, mod_suc, mod_wrap}
use task_discovery_service.Prelude.Sorting.{sort_by, sort_by-map}
use task_discovery_service.Assoc.{Assoc, lookup, insert, lookup-insert}
use task_discovery_service.Word.{int64_half, add64, lt64, add64_small, nonpos_small, rem64_small}
use task_discovery_service.Registry.{ServiceEntry}
use task_discovery_service.Registry.Weights.{
  service_weight, total_from, total_service_weight, select_from, select_weighted_address,
  weight_sum, weighted_pool, length-weighted_pool, total_service_weight_lem, select-pool,
}
use task_discovery_service.Postgres.{
  Row, PostgresStore, PgError, normalized_capacity, total_store_from, total_store_weight,
  next_place, select_entry_from, select_weighted_entry_index, is_row_of, counted_row, scanned,
  is_active_of, pg_list_task_services, entry_at, pg_selected, or_cursor, pg_query_entries,
  pg_get_service,
}

total_from-same :
    (total : ℕ) (entries : List ServiceEntry)
    → total_store_from total entries ≡ total_from total entries
unfolding normalized_capacity service_weight
total_from-same total [] = refl
total_from-same total (entry ∷ entries) =
    total_from-same (add64 total (service_weight entry)) entries

total-same :
    (entries : List ServiceEntry) → total_store_weight entries ≡ total_service_weight entries
unfolding total_store_weight total_service_weight
total-same entries = total_from-same 0 entries

abbrev entry_address : Option ServiceEntry → Option Text
entry_address none = none
entry_address (some entry) = some entry.address

address_later :
    (rank : Text → ℕ) (entry : ServiceEntry) (entries : List ServiceEntry) (o : Option ℕ)
    → entry_address (entry_at rank (entry ∷ entries) (next_place o))
      ≡ entry_address (entry_at rank entries o)
address_later rank entry entries none = refl
address_later rank entry entries (some i) = refl

select-same :
    (rank : Text → ℕ) (running : ℕ) (entries : List ServiceEntry) (slot : ℕ)
    → entry_address (entry_at rank entries (select_entry_from running entries slot))
      ≡ select_from running entries slot
unfolding normalized_capacity service_weight
select-same rank running [] slot = refl
select-same rank running (entry ∷ entries) slot =
    let running' = add64 running (service_weight entry) in
    elim (Bool-cases (lt64 slot running')) [
      | inl e ↦ rw e refl
      | inr e ↦ rw e (
          address_later rank entry entries (select_entry_from running' entries slot)
          ∙ select-same rank running' entries slot)
    ]

selected-same :
    (rank : Text → ℕ) (entries : List ServiceEntry) (slot : ℕ)
    → entry_address (entry_at rank entries (select_weighted_entry_index entries slot))
      ≡ select_weighted_address entries slot
unfolding select_weighted_entry_index select_weighted_address
selected-same rank entries slot = select-same rank 0 entries slot

module _ {ℓ} {A : Type ℓ} where
  keep_if-map :
      (p : A → Bool) (f : A → A) (xs : List A)
      → ((x : A) → p (f x) ≡ p x)
      → keep_if p (map f xs) ≡ map f (keep_if p xs)
  keep_if-map p f [] h = refl
  keep_if-map p f (x ∷ xs) h = elim (Bool-cases (p x)) [
    | inl e ↦ rw (h x, e) (ap (◌∷◌ (f x)) (keep_if-map p f xs h))
    | inr e ↦ rw (h x, e) (keep_if-map p f xs h)
  ]

weighted_pool-counted :
    (test : Row → Bool) (now : ℕ) (rows : List Row)
    → weighted_pool (map scanned (map (counted_row test now) rows))
      ≡ weighted_pool (map scanned rows)
unfolding service_weight
weighted_pool-counted test now [] = refl
weighted_pool-counted test now (r ∷ rows) = rw (weighted_pool-counted test now rows) refl

mod_below : (m n : ℕ) → m < n → m % n ≡ m
mod_below m n h = grind arith

mod_self : (n : ℕ) → 0 < n → n % n ≡ 0
mod_self n h = grind arith

mod_next : (v c n : ℕ) → 0 < n → v % n ≡ c % n → ((v % n + 1) % n) % n ≡ (c + 1) % n
mod_next v c n p e =
    let r = c % n in
    rw e (elim (Bool-cases (ltb (suc r) n)) [
      | inl b ↦
          let small : suc r < n = ground arith in
          let once : (r + 1) % n ≡ suc r = mod_below (r + 1) n (omega arith) ∙ omega arith in
          rw (once, mod_below (suc r) n small, mod_suc c n r refl small) refl
      | inr b ↦
          let full : r + 1 ≡ n = ground arith in
          rw (full, mod_self n p)
            (mod_below 0 n p
              ∙ sym (subst (λ k. (c + k) % n ≡ 0) (last full) (mod_wrap c n r p refl)))
    ])
  where
    last : c % n + 1 ≡ n → n - c % n ≡ 1
    last h = omega arith

-- The addresses that are returned.
abbrev pub returned_address : Result PgError ServiceEntry → Option Text
returned_address (err e) = none
returned_address (ok entry) = some entry.address

module _ (rank : Text → ℕ) (task : Text) where
  -- The answers to queries at these times, none of which fails for the connection.
  abbrev pub pg_query_times : List ℕ → PostgresStore → List (Option Text)
  pg_query_times [] ps = []
  pg_query_times (now ∷ nows) ps =
      let r = pg_get_service rank none none task now ps in
      returned_address r.0 ∷ pg_query_times nows r.1

  list-counted :
      (address : Text) (now : ℕ) (ps : PostgresStore) (cursors : Assoc Text ℕ)
      → weighted_pool (
          pg_list_task_services rank task (record {
            rows = map (counted_row (is_row_of task address) now) ps.rows;
            round_robin_index = cursors;
          }))
        ≡ weighted_pool (pg_list_task_services rank task ps)
  unfolding pg_list_task_services
  list-counted address now ps cursors =
      let f = counted_row (is_row_of task address) now in
      let key : Row → ℕ = λ r. rank r.address in
      let kept = keep_if (is_active_of task) ps.rows in
      let moved : sort_by key (keep_if (is_active_of task) (map f ps.rows))
          ≡ map f (sort_by key kept) =
        ap (sort_by key) (keep_if-map (is_active_of task) f ps.rows (λ r. refl))
        ∙ sort_by-map f key kept in
      ap (λ rows. weighted_pool (map scanned rows)) moved
      ∙ weighted_pool-counted (is_row_of task address) now (sort_by key kept)

  module _ (pool : List Text) (pos : 0 < length pool) (small : length pool < int64_half) where
    -- The active rows of the task give this pool, and the cursor stands, around it, at `c`.
    record IsAt (c : ℕ) (ps : PostgresStore) : Type 0 where
      offers : weighted_pool (pg_list_task_services rank task ps) ≡ pool
      in_range : or_cursor rank (lookup task ps.round_robin_index) < int64_half
      cursor : or_cursor rank (lookup task ps.round_robin_index) % length pool ≡ c % length pool

    selected-IsAt :
        (now c : ℕ) (ps : PostgresStore) (o : Option ServiceEntry)
        → IsAt (c + 1) ps
        → (returned_address (pg_selected rank none task now o ps).0 ≡ entry_address o)
          × IsAt (c + 1) (pg_selected rank none task now o ps).1
    selected-IsAt now c ps none i = (refl, i)
    selected-IsAt now c ps (some entry) i = (
      refl,
      record {
        offers = list-counted entry.address now ps ps.round_robin_index ∙ i.offers;
        in_range = i.in_range;
        cursor = i.cursor;
      },
    )

    query_entries-IsAt :
        (now c : ℕ) (ps : PostgresStore) (entries : List ServiceEntry)
        → weighted_pool entries ≡ pool
        → IsAt c ps
        → (returned_address (pg_query_entries rank none task now entries ps).0
            ≡ get_elem? pool (c % length pool))
          × IsAt (c + 1) (pg_query_entries rank none task now entries ps).1
    unfolding pg_list_task_services
    query_entries-IsAt now c ps [] e i = absurd (omega (arith, pos, ap length e))
    query_entries-IsAt now c ps (entry ∷ entries) e i =
        let v = or_cursor rank (lookup task ps.round_robin_index) in
        let n = length pool in
        let all = entry ∷ entries in
        let sum : weight_sum all ≡ n = sym (length-weighted_pool all) ∙ ap length e in
        let total : total_store_weight all ≡ n =
          total-same all ∙ total_service_weight_lem all (rw sum small) ∙ sum in
        let slot : entry_address (entry_at rank all (select_weighted_entry_index all (v % n)))
            ≡ get_elem? pool (c % n) =
          selected-same rank all (v % n)
          ∙ select-pool all (v % n) (rw sum small) (omega arith)
          ∙ ap₂ get_elem? e i.cursor in
        let next = ((v % n) + 1) % n in
        let ps' : PostgresStore = record ps {
          round_robin_index = insert task next ps.round_robin_index;
        } in
        let stored : or_cursor rank (lookup task ps'.round_robin_index) ≡ next =
          rw (lookup-insert task task next ps.round_robin_index, beq_refl task) refl in
        let moved : IsAt (c + 1) ps' = record {
          offers = i.offers;
          in_range = rw stored (omega arith);
          cursor = rw stored (mod_next v c n pos i.cursor);
        } in
        let (answer, after) =
          selected-IsAt now c ps' (entry_at rank all (select_weighted_entry_index all (v % n)))
            moved in
        rw
          (
            total,
            nonpos_small n pos small,
            rem64_small v n i.in_range small,
            add64_small (v % n) 1 (omega arith),
            rem64_small (v % n + 1) n (omega arith) small,
          )
          (answer ∙ slot, after)

    get_service-IsAt :
        (now c : ℕ) (ps : PostgresStore)
        → IsAt c ps
        → (returned_address (pg_get_service rank none none task now ps).0
            ≡ get_elem? pool (c % length pool))
          × IsAt (c + 1) (pg_get_service rank none none task now ps).1
    unfolding pg_get_service
    get_service-IsAt now c ps i =
        query_entries-IsAt now c ps (pg_list_task_services rank task ps) i.offers i

    query_times-walk :
        (nows : List ℕ) (c : ℕ) (ps : PostgresStore)
        → IsAt c ps
        → pg_query_times nows ps ≡ walk pool (length nows) c
    query_times-walk [] c ps i = refl
    query_times-walk (now ∷ nows) c ps i =
        let (answer, next) = get_service-IsAt now c ps i in
        ap₂ ◌∷◌ answer (query_times-walk nows (c + 1) _ next)

  -- Over as many queries of a task as the weights of its active rows add up to, at any times, with no
  -- other call between them and no failing statement, that sum positive and below 2 ^ 63 and the
  -- cursor below 2 ^ 63, every query succeeds and each address is returned exactly as often as the
  -- weight of its row says, whatever the cursor stood at.
  pub pg_query_times-perm :
      (nows : List ℕ) (ps : PostgresStore)
      → let pool = weighted_pool (pg_list_task_services rank task ps) in
        0 < length pool
        → length pool < int64_half
        → or_cursor rank (lookup task ps.round_robin_index) < int64_half
        → length nows ≡ length pool
        → Perm (pg_query_times nows ps) (map some pool)
  pg_query_times-perm nows ps pos small range e =
      let pool = weighted_pool (pg_list_task_services rank task ps) in
      let c = or_cursor rank (lookup task ps.round_robin_index) in
      let start : IsAt pool pos small c ps = record {
        offers = refl;
        in_range = range;
        cursor = refl;
      } in
      rw (query_times-walk pool pos small nows c ps start, e) (walk-perm pool c pos)
