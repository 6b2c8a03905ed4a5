-- ===== src/Postgres.antt =====
-- pkg/store/postgres/postgres.go: the persistent store, with its SQL statements read as operations on
-- the rows of the table `services`. A statement that fails gives its error and changes nothing. The
-- columns `id` and `created_at`, which the code never reads, and the migration are left out.
pub mod RoundRobin
pub mod Reactivation
use task_discovery_service.Prelude.{
  ℕ, zero, suc, ◌+◌, ◌-◌, ◌^◌, Bool, true, false, not, ◌&&◌, Option, none, some, List, [], ◌∷◌,
  ◌++◌, map, Text, ◌==◌, text_eq, if◌then◌else◌, ltb, leb, length, get_elem?, take, keep_if, any,
  nat_beq,
}
use task_discovery_service.Prelude.Result.{Result, ok, err}
use task_discovery_service.Prelude.Sorting.{sort_by}
use task_discovery_service.Assoc.{Assoc, lookup, insert}
use task_discovery_service.Word.{add64, nonpos, lt64, rem64}
use task_discovery_service.Registry.{ServiceEntry}

pub record Row : Type 0 where
  pub task : Text
  pub address : Text
  pub last_heartbeat : ℕ
  pub query_count : ℕ
  pub capacity : ℕ
  pub is_active : Bool
  pub updated_at : ℕ

pub record PostgresStore : Type 0 where
  pub rows : List Row
  pub round_robin_index : Assoc Text ℕ

pub data PgError : Type 0 where
  pg_not_found : PgError
  pg_failed : Text → PgError

unfoldable pub normalized_capacity : ℕ → ℕ
normalized_capacity capacity = if nonpos capacity then 1 else capacity

abbrev pub store_service_weight : ServiceEntry → ℕ
store_service_weight entry = normalized_capacity entry.capacity

abbrev pub total_store_from : ℕ → List ServiceEntry → ℕ
total_store_from total [] = total
total_store_from total (entry ∷ entries) =
    total_store_from (add64 total (store_service_weight entry)) entries

unfoldable pub total_store_weight : List ServiceEntry → ℕ
total_store_weight entries = total_store_from 0 entries

abbrev pub next_place : Option ℕ → Option ℕ
next_place none = none
next_place (some i) = some (suc i)

abbrev pub select_entry_from : ℕ → List ServiceEntry → ℕ → Option ℕ
select_entry_from running [] slot = none
select_entry_from running (entry ∷ entries) slot =
    let running' = add64 running (store_service_weight entry) in
    let later = next_place (select_entry_from running' entries slot) in
    if lt64 slot running' then some 0 else later

unfoldable pub select_weighted_entry_index : List ServiceEntry → ℕ → Option ℕ
select_weighted_entry_index entries slot = select_entry_from 0 entries slot

abbrev pub is_row_of : Text → Text → Row → Bool
is_row_of task address r = r.task == task && r.address == address

-- The largest value of a column of type INTEGER.
abbrev pub int4_max : ℕ
int4_max = 2 ^ 31 - 1

-- What ON CONFLICT makes of a row of the same task and address.
unfoldable pub refreshed_row : ServiceEntry → ℕ → Row → Row
refreshed_row entry now r = record r {
  last_heartbeat = entry.last_heartbeat;
  query_count =
      if lt64 0 entry.query_count
      then entry.query_count
      else if r.is_active
      then r.query_count
      else 0;
  capacity = normalized_capacity entry.capacity;
  is_active = true;
  updated_at = now;
}

unfoldable pub new_row : Text → ServiceEntry → ℕ → Row
new_row task entry now = record {
  task = task;
  address = entry.address;
  last_heartbeat = entry.last_heartbeat;
  query_count = if lt64 0 entry.query_count then entry.query_count else 0;
  capacity = normalized_capacity entry.capacity;
  is_active = true;
  updated_at = now;
}

unfoldable pub upsert : Text → ServiceEntry → ℕ → List Row → List Row
upsert task entry now [] = new_row task entry now ∷ []
upsert task entry now (r ∷ rows) =
    let rest = upsert task entry now rows in
    if is_row_of task entry.address r then refreshed_row entry now r ∷ rows else r ∷ rest

-- `fault` is the error of the connection, if there is one.
unfoldable pub pg_register :
    (ℕ → Text)
    → Option Text
    → Text
    → ServiceEntry
    → ℕ
    → PostgresStore
    → Option PgError × PostgresStore
pg_register out_of_range (some e) task entry now ps = (some (pg_failed e), ps)
pg_register out_of_range none task entry now ps =
    let capacity = normalized_capacity entry.capacity in
    if ltb int4_max capacity
    then (some (pg_failed (out_of_range capacity)), ps)
    else (none, record ps { rows = upsert task entry now ps.rows })

-- query_count + 1 for the rows of a test.
abbrev pub counted_row : (Row → Bool) → ℕ → Row → Row
counted_row test now r = record r {
  query_count = if test r then r.query_count + 1 else r.query_count;
  updated_at = if test r then now else r.updated_at;
}

abbrev pub is_active_row_of : Text → Text → Row → Bool
is_active_row_of task address r = is_row_of task address r && r.is_active

unfoldable pub pg_increment_query_count :
    Option Text → Text → Text → ℕ → PostgresStore → Option PgError × PostgresStore
pg_increment_query_count (some e) task address now ps = (some (pg_failed e), ps)
pg_increment_query_count none task address now ps =
    if any (is_active_row_of task address) ps.rows
    then (none, record ps { rows = map (counted_row (is_active_row_of task address) now) ps.rows })
    else (some pg_not_found, ps)

-- A row as it is scanned, its capacity normalised.
abbrev pub scanned : Row → ServiceEntry
scanned r = record {
  address = r.address;
  last_heartbeat = r.last_heartbeat;
  query_count = r.query_count;
  capacity = normalized_capacity r.capacity;
}

abbrev pub is_active_of : Text → Row → Bool
is_active_of task r = r.task == task && r.is_active

-- result[task] = append(result[task], e), for each row in turn.
abbrev pub or_no_entries : Option (List ServiceEntry) → List ServiceEntry
or_no_entries none = []
or_no_entries (some entries) = entries

abbrev pub grouped : List Row → Assoc Text (List ServiceEntry) → Assoc Text (List ServiceEntry)
grouped [] result = result
grouped (r ∷ rows) result =
    grouped rows (insert r.task (or_no_entries (lookup r.task result) ++ (scanned r ∷ [])) result)

-- `rank` is the collation of texts, and an ORDER BY by several columns sorts by the last one first.
module _ (rank : Text → ℕ) where
  unfoldable pub pg_list_task_services : Text → PostgresStore → List ServiceEntry
  pg_list_task_services task ps =
      map scanned (sort_by (λ r. rank r.address) (keep_if (is_active_of task) ps.rows))

  abbrev pub by_task_and_address : List Row → List Row
  by_task_and_address rows = sort_by (λ r. rank r.task) (sort_by (λ r. rank r.address) rows)

  unfoldable pub pg_list_services : PostgresStore → Assoc Text (List ServiceEntry)
  pg_list_services ps = grouped (by_task_and_address (keep_if (λ r. r.is_active) ps.rows)) []

  unfoldable pub pg_list_services_for_tasks :
      List Text → PostgresStore → Assoc Text (List ServiceEntry)
  pg_list_services_for_tasks tasks ps =
      grouped
        (by_task_and_address
          (keep_if (λ r. r.is_active && any (λ task. r.task == task) tasks) ps.rows))
        []

  -- SUM(query_count) of each task's rows.
  abbrev pub added_count : Option ℕ → ℕ → ℕ
  added_count none n = n
  added_count (some sum) n = sum + n

  abbrev pub task_sums : List Row → Assoc Text ℕ → Assoc Text ℕ
  task_sums [] sums = sums
  task_sums (r ∷ rows) sums =
      task_sums rows (insert r.task (added_count (lookup r.task sums) r.query_count) sums)

  -- Descending orders are by the distance from a number that no value of the column passes.
  unfoldable pub pg_list_top_tasks : ℕ → ℕ → PostgresStore → List Text
  pg_list_top_tasks most limit ps =
      let sums = task_sums (keep_if (λ r. r.is_active) ps.rows) [] in
      if nonpos limit
      then []
      else map (λ e. e.0) (take limit (sort_by (λ e. most - e.1) (sort_by (λ e. rank e.0) sums)))

  unfoldable pub pg_list_inactive_services : ℕ → PostgresStore → Assoc Text (List ServiceEntry)
  pg_list_inactive_services last ps =
      grouped
        (sort_by (λ r. last - r.updated_at)
          (by_task_and_address (keep_if (λ r. not r.is_active) ps.rows)))
        []

  unfoldable pub pg_get_service_history : ℕ → Text → PostgresStore → List ServiceEntry
  pg_get_service_history last task ps = map scanned (
      sort_by (λ r. if r.is_active then 0 else 1)
        (sort_by (λ r. last - r.last_heartbeat) (keep_if (λ r. r.task == task) ps.rows)))

  abbrev pub entry_at : List ServiceEntry → Option ℕ → Option ServiceEntry
  entry_at entries none = none
  entry_at entries (some i) = get_elem? entries i

  -- The second statement, and the entry that is returned.
  abbrev pub pg_selected :
      Option Text
      → Text
      → ℕ
      → Option ServiceEntry
      → PostgresStore
      → Result PgError ServiceEntry × PostgresStore
  pg_selected fault task now none ps = (err pg_not_found, ps)
  pg_selected (some e) task now (some entry) ps = (err (pg_failed e), ps)
  pg_selected none task now (some entry) ps = (
    ok (record entry { query_count = entry.query_count + 1 }),
    record ps { rows = map (counted_row (is_row_of task entry.address) now) ps.rows },
  )

  abbrev pub or_cursor : Option ℕ → ℕ
  or_cursor none = 0
  or_cursor (some cursor) = cursor

  abbrev pub pg_choose :
      Option Text
      → Text
      → ℕ
      → List ServiceEntry
      → PostgresStore
      → Result PgError ServiceEntry × PostgresStore
  pg_choose fault task now entries ps =
      let total = total_store_weight entries in
      let slot = rem64 (or_cursor (lookup task ps.round_robin_index)) total in
      let ps' : PostgresStore = record ps {
        round_robin_index = insert task (rem64 (add64 slot 1) total) ps.round_robin_index;
      } in
      if nonpos total
      then (err pg_not_found, ps)
      else pg_selected fault task now (entry_at entries (select_weighted_entry_index entries slot))
          ps'

  abbrev pub pg_query_entries :
      Option Text
      → Text
      → ℕ
      → List ServiceEntry
      → PostgresStore
      → Result PgError ServiceEntry × PostgresStore
  pg_query_entries fault task now [] ps = (err pg_not_found, ps)
  pg_query_entries fault task now (entry ∷ entries) ps =
      pg_choose fault task now (entry ∷ entries) ps

  -- The faults are those of the query and of the update.
  unfoldable pub pg_get_service :
      Option Text
      → Option Text
      → Text
      → ℕ
      → PostgresStore
      → Result PgError ServiceEntry × PostgresStore
  pg_get_service (some e) fault task now ps = (err (pg_failed e), ps)
  pg_get_service none fault task now ps =
      pg_query_entries fault task now (pg_list_task_services task ps) ps

abbrev pub expired_row : ℕ → Row → Bool
expired_row cutoff r = ltb r.last_heartbeat cutoff && r.is_active

abbrev pub deactivated : ℕ → ℕ → Row → Row
deactivated cutoff now r =
    if expired_row cutoff r then record r { is_active = false; updated_at = now } else r

unfoldable pub pg_cleanup : ℕ → ℕ → PostgresStore → ℕ × PostgresStore
pg_cleanup timeout now ps =
    let cutoff = now - timeout in
    (
      length (keep_if (expired_row cutoff) ps.rows),
      record ps { rows = map (deactivated cutoff now) ps.rows },
    )
