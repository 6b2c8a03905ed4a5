-- ===== src/Tests/Billing.antt =====
-- Taps that become journeys, and debts that go to the PA, also when its answer is lost.
use task_discovery_service.Prelude.{
  ℕ, ◌≤◌, ◌≡◌, inl, refl, true, Option, none, some, List, [], ◌∷◌, Text, length, arith, text_eq,
  nat_eq, inr,
}
use task_discovery_service.Prelude.Result.{ok}
use task_discovery_service.Text.{
  codes, to_upper, trim_space, is_space, has_prefix, trim_left, trim_right,
}
use task_discovery_service.Simulation.Proxy.{ensure_http_base, trim_slashes}
use task_discovery_service.Simulation.{Transaction}
use task_discovery_service.Simulation.Pctr.{
  PctrStore, handle_batch, run_pctr_journey_construction, rows_of_transactions, row_of_transaction,
  insert_transactions, construct_token, construct_tokens, paired_tokens, pair_taps,
  get_station_cost_cents,
}
use task_discovery_service.Simulation.Pctr.Pairs.{open_count}
use task_discovery_service.Simulation.Pctr.Journeys.{listed, run-settles}
use task_discovery_service.Simulation.Pctr.Debts.{
  PaStore, RoundSetting, insert_debts, report_round, get_unreported_debts, mark_debts_reported,
}
use task_discovery_service.Simulation.Pctr.Debts.Amounts.{debts_where, received}
use task_discovery_service.Simulation.Pctr.Debts.Reports.{report_round-received}

abbrev empty_store : PctrStore
empty_store = record {
  transactions = [];
  station_costs =
      record { from_station = codes "1"; to_station = codes "2"; cost_cents = 150 }
      ∷ record { from_station = codes "2"; to_station = codes "3"; cost_cents = 200 }
      ∷ [];
  debts = [];
  next_debt_id = 1;
}

abbrev tap_at : Text → Text → Text → Transaction
tap_at transaction_id station_id tap_time = record {
  transaction_id = transaction_id;
  card_type = codes "pctr";
  card_id = [];
  token = codes "t";
  gate_id = codes "g";
  station_id = station_id;
  tap_time = tap_time;
  allowed = true;
  reason = codes "ok";
}

-- The taps of two journeys, out of order, and an odd one.
abbrev five_taps : List Transaction
five_taps =
    tap_at (codes "a") (codes "2") (codes "bb")
    ∷ tap_at (codes "b") (codes "1") (codes "a")
    ∷ tap_at (codes "c") (codes "3") (codes "ccc")
    ∷ tap_at (codes "d") (codes "2") (codes "dddd")
    ∷ tap_at (codes "e") (codes "1") (codes "eeeee")
    ∷ []

abbrev tapped : PctrStore
tapped = (handle_batch (λ t. some (length t)) five_taps empty_store).1

batch_taken : (handle_batch (λ t. some (length t)) five_taps empty_store).0 ≡ (200, 5)
unfolding handle_batch rows_of_transactions row_of_transaction to_upper trim_space is_space
batch_taken = refl

abbrev works : Text → Option Text
works token = none

two_journeys : (run_pctr_journey_construction length none works tapped).0 ≡ ok 2
unfolding handle_batch rows_of_transactions row_of_transaction to_upper trim_space is_space
    run_pctr_journey_construction construct_tokens paired_tokens insert_transactions construct_token
    pair_taps get_station_cost_cents
two_journeys = refl

run_settles_example :
    let (result, s') = run_pctr_journey_construction length none works tapped in
    ((n : ℕ) × (result ≡ ok n))
    × ((token : Text) → open_count token s' ≤ 1)
    × (run_pctr_journey_construction length (some (codes "down")) works s'
        ≡ (listed (some (codes "down")), s'))
run_settles_example = run-settles length works works (some (codes "down")) tapped (λ token. refl)

-- A PA that inserts the debts, and answers or has its answer lost.
abbrev no_fault : ℕ → Option Text
no_fault place = none

abbrev pa_round : Option Text → RoundSetting PaStore
pa_round answer = record {
  list_fault = none;
  collation = length;
  construction_fault = works;
  debts_fault = none;
  pa_answer = ok (codes "pa:9103");
  pa_base = [];
  post = λ url debts pa. (answer, (insert_debts no_fault 0 debts pa).1);
  mark_fault = none;
}

abbrev empty_pa : PaStore
empty_pa = record { pa_debts = [] }

abbrev lost_round : PctrStore × PaStore
lost_round = report_round (pa_round (some (codes "timeout"))) tapped empty_pa

received_example :
    let (s', pa') = report_round (pa_round (some (codes "timeout"))) tapped empty_pa in
    debts_where (codes "t") true s'.debts ≤ received (codes "t") pa'
unfolding handle_batch rows_of_transactions row_of_transaction to_upper trim_space is_space
received_example =
    report_round-received (codes "t") (pa_round (some (codes "timeout"))) (λ e. cc)
      (λ url debts pa. inl (no_fault, refl, inr (codes "timeout", refl))) tapped empty_pa
      (omega arith)

billed_once : received (codes "t") (report_round (pa_round none) tapped empty_pa).1 ≡ 350
unfolding handle_batch rows_of_transactions row_of_transaction to_upper trim_space is_space
    run_pctr_journey_construction construct_tokens paired_tokens insert_transactions construct_token
    pair_taps get_station_cost_cents report_round get_unreported_debts ensure_http_base has_prefix
    insert_debts mark_debts_reported trim_slashes trim_left trim_right
billed_once = refl

-- The debts of a round whose answer is lost are billed again by the next.
billed_twice : received (codes "t") (report_round (pa_round none) lost_round.0 lost_round.1).1 ≡ 700
unfolding handle_batch rows_of_transactions row_of_transaction to_upper trim_space is_space
    run_pctr_journey_construction construct_tokens paired_tokens insert_transactions construct_token
    pair_taps get_station_cost_cents report_round get_unreported_debts ensure_http_base has_prefix
    insert_debts mark_debts_reported trim_slashes trim_left trim_right
billed_twice = refl
