-- ===== src/Tests/Stations.antt =====
-- A station that fills a batch of two, and rows of the persistent store.
use task_discovery_service.Prelude.{
  ℕ, ◌+◌, ◌≡◌, refl, Bool, true, false, Option, none, some, List, [], ◌∷◌, map, Text, text_eq, All,
  Perm, arith, length, ltb,
}
use task_discovery_service.Prelude.Result.{Result, ok}
use task_discovery_service.Assoc.{lookup}
use task_discovery_service.Text.{codes}
use task_discovery_service.Word.{nonpos, lt64}
use task_discovery_service.Registry.Weights.{service_weight, weighted_pool}
use task_discovery_service.Postgres.{
  Row, PostgresStore, normalized_capacity, int4_max, pg_list_task_services, pg_register, pg_cleanup,
  or_cursor,
}
use task_discovery_service.Postgres.RoundRobin.{pg_query_times, pg_query_times-perm}
use task_discovery_service.Postgres.Reactivation.{
  row_of, cleaned, kept_count, pg_register-after_cleanup,
}
use task_discovery_service.Simulation.{Transaction}
use task_discovery_service.Simulation.Station.{
  StationEvent, arrives, settles, Station, new_station, station_run,
}
use task_discovery_service.Simulation.Station.Conservation.{
  count_txs, count_buffered, count_batches, station_run-conserves,
}
use task_discovery_service.Simulation.Station.Batches.{
  Answered, IsBatch, IsDelivery, station_run-batches,
}
use task_discovery_service.Tests.Samples.{gate, entry}

abbrev tap : Text → Transaction
tap card = record {
  transaction_id = [];
  card_type = codes " oy ";
  card_id = card;
  token = [];
  gate_id = gate;
  station_id = [];
  tap_time = [];
  allowed = true;
  reason = codes "ok";
}

abbrev arriving : Text → StationEvent
arriving card =
    arrives
      (record { is_post = true; body = some (tap card); unix_nano = codes "17"; now = codes "t" })

abbrev found_at : Text → Result Text Text
found_at task = ok (codes "cs:9300")

abbrev takes_all : Text → List Transaction → Option Text
takes_all url batch = none

abbrev day : List StationEvent
day =
    arriving (codes "1")
    ∷ arriving (codes "2")
    ∷ arriving (codes "3")
    ∷ settles 0 found_at takes_all
    ∷ []

abbrev evening : Station
evening = station_run 2 (codes "7") (codes "sim.cs") (codes "sim.pctrbo") day new_station

abbrev any_tap : Transaction → Bool
any_tap tx = true

conserves_example :
    count_txs any_tap evening.accepted
    ≡ count_buffered any_tap evening.buffers
      + count_batches any_tap evening.in_flight
      + count_batches any_tap evening.delivered
conserves_example =
    station_run-conserves any_tap 2 (codes "7") (codes "sim.cs") (codes "sim.pctrbo") day

batches_example :
    All (IsBatch 2 (codes "7") (codes "sim.cs") (codes "sim.pctrbo")) evening.in_flight
    × All
        (IsDelivery 2 (codes "7") (codes "sim.cs") (codes "sim.pctrbo") (Answered day))
        evening.delivered
batches_example = station_run-batches 2 (codes "7") (codes "sim.cs") (codes "sim.pctrbo") day

abbrev row : Text → ℕ → ℕ → Bool → Row
row addr heartbeat capacity active = record {
  task = gate;
  address = addr;
  last_heartbeat = heartbeat;
  query_count = 4;
  capacity = capacity;
  is_active = active;
  updated_at = heartbeat;
}

abbrev table : PostgresStore
table = record {
  rows =
      row (codes "b:1") 30 2 true ∷ row (codes "a:1") 10 1 true ∷ row (codes "c:1") 30 5 false ∷ [];
  round_robin_index = [];
}

abbrev first_code : Text → ℕ
first_code [] = 0
first_code (c ∷ s) = c

abbrev table_pool : List Text
table_pool = weighted_pool (pg_list_task_services first_code gate table)

pool-three : length table_pool ≡ 3
unfolding pg_list_task_services service_weight nonpos normalized_capacity
pool-three = refl

no-cursor-yet : or_cursor first_code (lookup gate table.round_robin_index) ≡ 0
unfolding lookup
no-cursor-yet = refl

pg_query_times_example :
    Perm (pg_query_times first_code gate (40 ∷ 41 ∷ 42 ∷ []) table) (map some table_pool)
pg_query_times_example =
    pg_query_times-perm first_code gate (40 ∷ 41 ∷ 42 ∷ []) table (rw pool-three (omega arith))
      (rw pool-three (omega arith)) (rw no-cursor-yet (omega arith)) (rw pool-three refl)

abbrev no_text : ℕ → Text
no_text n = []

is_plain : lt64 0 (entry (codes "a:1") 50 3).query_count ≡ false
unfolding lt64
is_plain = refl

is_small : ltb int4_max (normalized_capacity (entry (codes "a:1") 50 3).capacity) ≡ false
unfolding normalized_capacity nonpos
is_small = refl

after_cleanup_example :
    let new = entry (codes "a:1") 50 3 in
    let after = (pg_cleanup 20 40 table).1 in
    let r = pg_register no_text none gate new 50 after in
    (r.0 ≡ none)
    × (row_of gate new.address r.1.rows
        ≡ some (record {
          task = gate;
          address = new.address;
          last_heartbeat = new.last_heartbeat;
          query_count = kept_count 20 (row_of gate new.address table.rows);
          capacity = normalized_capacity new.capacity;
          is_active = true;
          updated_at = 50;
        }))
    × ((t a : Text)
        → ((gate ≡ t) → (new.address ≡ a) → ⊥)
        → row_of t a r.1.rows ≡ cleaned 20 40 (row_of t a table.rows))
after_cleanup_example =
    pg_register-after_cleanup no_text gate (entry (codes "a:1") 50 3) 20 40 50 table is_plain
      is_small
