-- ===== src/Simulation/Pctr.antt =====
-- Simulation/pctrbo/main.go and Simulation/carddb/pctr.go: the back office that makes journeys of
-- taps and bills them. Tables are lists of rows; amounts are cents, which the tables of costs
-- keep from being negative, and times nanoseconds. `collation` is the place of a text in the order
-- of the database. Rows that an ORDER BY does not tell apart keep the order of the table.
pub mod Debts
pub mod Pairs
pub mod Journeys
use task_discovery_service.Prelude.{
  ℕ, ◌+◌, Bool, true, false, not, ◌&&◌, ◌||◌, Option, none, some, List, [], ◌∷◌, ◌++◌, map, Text,
  ◌==◌, text_eq, text_beq, nat_eq, if◌then◌else◌, any, ltb, leb, length, keep_if,
}
use task_discovery_service.Prelude.Result.{Result, ok, err}
use task_discovery_service.Prelude.Sorting.{sort_by}
use task_discovery_service.Text.{codes, trim_space, to_upper}
use task_discovery_service.Simulation.{Transaction}

-- A row of pctr_transactions.
pub record TapRow : Type 0 where
  pub transaction_id : Text
  pub token : Text
  pub gate_id : Text
  pub station_id : Text
  pub tap_time : ℕ
  pub allowed : Bool
  pub reason : Text
  pub processed : Bool
  pub journey_cost_cents : Option ℕ
  pub error_reason : Option Text

-- A row of pctr_debts.
pub record DebtRow : Type 0 where
  pub id : ℕ
  pub token : Text
  pub amount_cents : ℕ
  pub reported : Bool

pub record StationCost : Type 0 where
  pub from_station : Text
  pub to_station : Text
  pub cost_cents : ℕ

pub record PctrStore : Type 0 where
  pub transactions : List TapRow
  pub station_costs : List StationCost
  pub debts : List DebtRow
  pub next_debt_id : ℕ

-- What /batch makes of a transaction, with time.Parse for the time of the tap.
unfoldable pub row_of_transaction : (Text → Option ℕ) → Transaction → Option TapRow
row_of_transaction parse_time tx = elim (parse_time (trim_space tx.tap_time)) [
  | none ↦ none
  | some time ↦
      if not (to_upper (trim_space tx.card_type) == codes "PCTR")
      then none
      else if trim_space tx.token == []
      then none
      else some (record {
        transaction_id = trim_space tx.transaction_id;
        token = trim_space tx.token;
        gate_id = trim_space tx.gate_id;
        station_id = trim_space tx.station_id;
        tap_time = time;
        allowed = tx.allowed;
        reason = trim_space tx.reason;
        processed = false;
        journey_cost_cents = none;
        error_reason = none;
      })
]

unfoldable pub rows_of_transactions : (Text → Option ℕ) → List Transaction → Option (List TapRow)
rows_of_transactions parse_time [] = some []
rows_of_transactions parse_time (tx ∷ txs) = elim (row_of_transaction parse_time tx) [
  | none ↦ none
  | some row ↦ elim (rows_of_transactions parse_time txs) [
    | none ↦ none
    | some rows ↦ some (row ∷ rows)
  ]
]

-- A row without one of these fields is skipped; time 0 is the zero time.
abbrev pub is_blank : TapRow → Bool
is_blank r =
    r.transaction_id == []
    || r.token == []
    || r.gate_id == []
    || r.station_id == []
    || r.tap_time == 0

abbrev pub is_recorded : Text → List TapRow → Bool
is_recorded transaction_id rows = any (λ r. r.transaction_id == transaction_id) rows

unfoldable pub insert_transactions : List TapRow → List TapRow → List TapRow
insert_transactions [] rows = rows
insert_transactions (r ∷ more) rows =
    insert_transactions more
      (if is_blank r || is_recorded r.transaction_id rows then rows else rows ++ (r ∷ []))

-- The handler of /batch for a POST whose body decodes to transactions: the status and how many were
-- received.
unfoldable pub handle_batch : (Text → Option ℕ) → List Transaction → PctrStore → (ℕ × ℕ) × PctrStore
handle_batch parse_time [] s = ((400, 0), s)
handle_batch parse_time (tx ∷ txs) s = elim (rows_of_transactions parse_time (tx ∷ txs)) [
  | none ↦ ((400, 0), s)
  | some rows ↦
      ((200, length rows), record s { transactions = insert_transactions rows s.transactions })
]

-- Either direction of a journey is found, in the first row that there is.
unfoldable pub get_station_cost_cents : Text → Text → List StationCost → Option ℕ
get_station_cost_cents a b [] = none
get_station_cost_cents a b (c ∷ costs) =
    if (c.from_station == a && c.to_station == b) || (c.from_station == b && c.to_station == a)
    then some c.cost_cents
    else get_station_cost_cents a b costs

abbrev pub is_open : Text → TapRow → Bool
is_open token r = r.token == token && not r.processed

abbrev pub is_one_of : TapRow → TapRow → TapRow → Bool
is_one_of from to r =
    r.transaction_id == from.transaction_id || r.transaction_id == to.transaction_id

-- The UPDATE of the two rows of a journey.
abbrev pub closed_row : TapRow → TapRow → ℕ → Option Text → TapRow → TapRow
closed_row from to cost error r =
    if is_one_of from to r
    then record r { processed = true; journey_cost_cents = some cost; error_reason = error }
    else r

abbrev pub close_journey : Text → TapRow → TapRow → Option ℕ → PctrStore → ℕ × PctrStore
close_journey token from to none s = (
  0,
  record s {
    transactions = map (closed_row from to 0 (some (codes "missing cost"))) s.transactions;
  },
)
close_journey token from to (some cost) s = (
  1,
  record s {
    transactions = map (closed_row from to cost none) s.transactions;
    debts =
        s.debts
        ++ (record { id = s.next_debt_id; token = token; amount_cents = cost; reported = false }
            ∷ []);
    next_debt_id = s.next_debt_id + 1;
  },
)

-- The taps of a token, two by two; an odd one is left for later.
unfoldable pub pair_taps : Text → List TapRow → PctrStore → ℕ × PctrStore
pair_taps token [] s = (0, s)
pair_taps token (tap ∷ []) s = (0, s)
pair_taps token (from ∷ to ∷ taps) s =
    let cost = get_station_cost_cents from.station_id to.station_id s.station_costs in
    let (journeys, s') = close_journey token from to cost s in
    let (more, s'') = pair_taps token taps s' in (journeys + more, s'')

abbrev pub open_taps : Text → PctrStore → List TapRow
open_taps token s = sort_by (λ r. r.tap_time) (keep_if (is_open token) s.transactions)

unfoldable pub construct_token : Text → PctrStore → ℕ × PctrStore
construct_token token s =
    if ltb (length (open_taps token s)) 2 then (0, s) else pair_taps token (open_taps token s) s

abbrev pub add_token : Text → List Text → List Text
add_token token tokens = if any (text_beq token) tokens then tokens else token ∷ tokens

abbrev pub open_tokens : List TapRow → List Text
open_tokens [] = []
open_tokens (r ∷ rows) =
    let rest = open_tokens rows in if r.processed then rest else add_token r.token rest

abbrev pub has_two : PctrStore → Text → Bool
has_two s token = leb 2 (length (keep_if (is_open token) s.transactions))

unfoldable pub paired_tokens : (Text → ℕ) → PctrStore → List Text
paired_tokens collation s = sort_by collation (keep_if (has_two s) (open_tokens s.transactions))

abbrev pub add_journeys : ℕ → Result Text ℕ × PctrStore → Result Text ℕ × PctrStore
add_journeys n (err e, s) = (err e, s)
add_journeys n (ok m, s) = (ok (n + m), s)

-- One transaction of the database for each token: `fault` is its error, which rolls it back and ends
-- the run. What the run has counted until then goes with the error and is not read.
abbrev pub committed :
    Option Text → PctrStore → Result Text ℕ × PctrStore → Result Text ℕ × PctrStore
committed none s after = after
committed (some e) s after = (err e, s)

unfoldable pub construct_tokens :
    (Text → Option Text) → List Text → PctrStore → Result Text ℕ × PctrStore
construct_tokens fault [] s = (ok 0, s)
construct_tokens fault (token ∷ tokens) s =
    let (n, s') = construct_token token s in
    committed (fault token) s (add_journeys n (construct_tokens fault tokens s'))

-- `list_fault` is the error of the statement that lists the tokens, or of reading its rows.
unfoldable pub run_pctr_journey_construction :
    (Text → ℕ) → Option Text → (Text → Option Text) → PctrStore → Result Text ℕ × PctrStore
run_pctr_journey_construction collation (some e) fault s = (err e, s)
run_pctr_journey_construction collation none fault s =
    construct_tokens fault (paired_tokens collation s) s
