-- ===== src/Tests/Gates.antt =====
-- A tap at a gate whose back office takes every card, and whose station keeps batches of two.
use task_discovery_service.Prelude.{length, refl, ℕ, ◌≡◌, ◌⊎◌, true, false, none, [], Text}
use task_discovery_service.Prelude.Result.{Result, ok, err}
use task_discovery_service.Text.{codes, trim_space, is_space, to_upper, has_prefix}
use task_discovery_service.Simulation.Proxy.{ensure_http_base}
use task_discovery_service.Simulation.Station.{
  Station, new_station, station_step, handle_transaction, is_refused, kept_transaction,
}
use task_discovery_service.Simulation.Tap.{parse_tap}
use task_discovery_service.Simulation.Resolve.{CachedAddr, resolve_base, resolve_attempts}
use task_discovery_service.Simulation.Gate.{
  GateConfig, GateState, Surroundings, handle_tap, check_oyster, transaction_of,
}
use task_discovery_service.Simulation.Gate.Opening.{
  Exchange, answer_lost, IsLost, station_send, to_station, Enters, verdict_of, gate_opens-accepted,
}

abbrev north : GateConfig
north = record {
  gate_id = codes "gate-1";
  station_id = codes "station-7";
  station_fallback = [];
  oybo_fallback = [];
  pa_fallback = [];
}

abbrev answers_at : Text → ℕ → Result Text Text
answers_at addr n = ok addr

abbrev arrival : Text × Text
arrival = (codes "18", codes "t2")

-- The answer of the station is late.
abbrev late : Exchange
late = answer_lost (codes "timeout")

abbrev friendly : Surroundings Station
friendly = record {
  station_answers = answers_at (codes "station:9100");
  oybo_answers = answers_at (codes "cs:9300");
  pa_answers = answers_at (codes "pa:9400");
  encrypt = none;
  validate = λ url card_id tap_time. ok (true, codes "ok");
  tokenize = λ url cipher. err (codes "http error");
  send = station_send 2 (codes "7") (codes "sim.cs") (codes "sim.pctrbo") arrival late;
}

abbrev never : CachedAddr
never = record { value = []; at = 0 }

abbrev closed_gate : GateState Station
closed_gate = record {
  station_cache = never;
  oybo_cache = never;
  pa_cache = never;
  world = new_station;
}

abbrev surrounded : Exchange → Surroundings Station
surrounded exchange =
    to_station 2 (codes "7") (codes "sim.cs") (codes "sim.pctrbo") arrival exchange north friendly 9
      (codes "t") (codes "17")

-- What is stated of a tap of an Oyster card.
abbrev IsTapped : Exchange → Type 0
IsTapped exchange =
    let r =
      handle_tap north (surrounded exchange) 9 (codes "t") (codes "17") (codes "oy: 1001")
        closed_gate in
    let verdict =
      verdict_of 2 (codes "7") (codes "sim.cs") (codes "sim.pctrbo") arrival exchange north friendly
        9 (codes "t") (codes "17") in
    let enters =
      Enters 2 (codes "7") (codes "sim.cs") (codes "sim.pctrbo") arrival exchange north friendly 9
        (codes "t") (codes "17") in
    ((r.0.0 ≡ true)
      × (card_type : Text) × (card_id : Text) × (parse_tap (codes "oy: 1001")
          ≡ ok (card_type, card_id))
      × ((verdict card_type card_id closed_gate).allowed ≡ true)
      × enters card_type card_id (verdict card_type card_id closed_gate) closed_gate.world.accepted
          r.1.world.accepted)
    ⊎ ((r.0.0 ≡ false)
        × ((r.1.world.accepted ≡ closed_gate.world.accepted)
            ⊎ (IsLost exchange
                × (card_type : Text) × (card_id : Text) × (parse_tap (codes "oy: 1001")
                    ≡ ok (card_type, card_id))
                × ((verdict card_type card_id closed_gate).allowed ≡ true)
                × enters card_type card_id (verdict card_type card_id closed_gate)
                    closed_gate.world.accepted r.1.world.accepted)))

gate_opens_example : IsTapped late
gate_opens_example =
    gate_opens-accepted 2 (codes "7") (codes "sim.cs") (codes "sim.pctrbo") arrival late north
      friendly 9 (codes "t") (codes "17") (codes "oy: 1001") closed_gate

-- The gate stays closed, and the station has one transaction.
tap_lost :
    let r =
      handle_tap north
        (surrounded late)
        9
        (codes "t")
        (codes "17")
        (codes "oy: 1001")
        closed_gate in
    (r.0.0 ≡ false) × (length r.1.world.accepted ≡ 1)
unfolding handle_tap parse_tap trim_space is_space to_upper check_oyster resolve_base
    resolve_attempts ensure_http_base has_prefix station_step handle_transaction is_refused
    kept_transaction transaction_of
tap_lost = (refl, refl)
