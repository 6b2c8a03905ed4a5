-- ===== src/Simulation/Station.antt =====
-- Simulation/station_computer/main.go: the transactions that a station takes from its gates, buffers
-- for each card type, and forwards in batches.
pub mod Conservation
pub mod Filing
pub mod Batches
use task_discovery_service.Prelude.{
  ℕ, zero, suc, Bool, true, false, not, ◌&&◌, ◌||◌, Option, none, some, List, [], ◌∷◌, ◌++◌, Text,
  ◌==◌, text_eq, if◌then◌else◌, ltb, length, take, drop,
}
use task_discovery_service.Prelude.Result.{Result, ok, err}
use task_discovery_service.Assoc.{Assoc, lookup, insert}
use task_discovery_service.Text.{codes, trim_space, to_upper}
use task_discovery_service.Simulation.{Transaction, TransactionAck}
use task_discovery_service.Simulation.Proxy.{ensure_http_base, trim_slashes}

-- PerTypeBatcher's map, its batch buffered_size being a parameter.
abbrev pub Buffers : Type 0
Buffers = Assoc Text (List Transaction)

abbrev pub or_no_transactions : Option (List Transaction) → List Transaction
or_no_transactions none = []
or_no_transactions (some txs) = txs

abbrev pub new_per_type_batcher : Buffers
new_per_type_batcher = (codes "OY", []) ∷ (codes "PCTR", []) ∷ []

abbrev buffered_size : Text → Buffers → ℕ
buffered_size card_type b = length (or_no_transactions (lookup card_type b))

-- The number that stays buffered, and a full batch if there is one.
unfoldable pub add_transaction : ℕ → Transaction → Buffers → ℕ × List Transaction × Buffers
add_transaction batch_size tx b =
    let cur = or_no_transactions (lookup tx.card_type b) ++ (tx ∷ []) in
    if ltb (length cur) batch_size then (length cur, [], insert tx.card_type cur b) else (
      length (drop batch_size cur),
      take batch_size cur,
      insert tx.card_type (drop batch_size cur) b,
    )

-- A request at /transaction: whether it is a POST, what its body decodes to, and the time as the
-- nanoseconds of an identifier and as a text.
pub record Posting : Type 0 where
  pub is_post : Bool
  pub body : Option Transaction
  pub unix_nano : Text
  pub now : Text

abbrev or_given : Text → Text → Text
or_given s instead = if s == [] then instead else s

-- The transaction as the station keeps it.
unfoldable pub kept_transaction : Text → Posting → Transaction → Transaction
kept_transaction station_id posting tx =
    let gate_id = trim_space tx.gate_id in
    record {
      transaction_id = or_given tx.transaction_id (gate_id ++ codes "-" ++ posting.unix_nano);
      card_type = to_upper (trim_space tx.card_type);
      card_id = trim_space tx.card_id;
      token = trim_space tx.token;
      gate_id = gate_id;
      station_id = station_id;
      tap_time = or_given tx.tap_time posting.now;
      allowed = tx.allowed;
      reason = tx.reason;
    }

-- The guards of the handler.
unfoldable pub is_refused : Transaction → Bool
is_refused tx =
    if tx.card_type == [] || tx.gate_id == []
    then true
    else if not (tx.card_type == codes "OY") && not (tx.card_type == codes "PCTR")
    then true
    else if tx.card_type == codes "OY" && trim_space tx.card_id == []
    then true
    else if tx.card_type == codes "PCTR" && trim_space tx.token == []
    then true
    else not tx.allowed

abbrev pub refusal : ℕ → Buffers → ℕ × TransactionAck × List Transaction × Buffers
refusal status b = (status, record { accepted = false; batch_size = 0 }, [], b)

abbrev pub handle_received :
    ℕ → Transaction → Buffers → ℕ × TransactionAck × List Transaction × Buffers
handle_received batch_size tx b =
    let (remaining, batch, b') = add_transaction batch_size tx b in
    if is_refused tx
    then refusal 400 b
    else (200, record { accepted = true; batch_size = remaining }, batch, b')

abbrev pub handle_body :
    ℕ
    → Text
    → Posting
    → Option Transaction
    → Buffers
    → ℕ × TransactionAck × List Transaction × Buffers
handle_body batch_size station_id posting none b = refusal 400 b
handle_body batch_size station_id posting (some tx) b =
    handle_received batch_size (kept_transaction station_id posting tx) b

-- The handler of /transaction: the status, the body of the answer, the batch to forward, if any, and
-- the buffers.
unfoldable pub handle_transaction :
    ℕ → Text → Posting → Buffers → ℕ × TransactionAck × List Transaction × Buffers
handle_transaction batch_size station_id posting b =
    if posting.is_post
    then handle_body batch_size station_id posting posting.body b
    else refusal 405 b

-- The back office of a card type.
unfoldable pub bo_task : Text → Text → Text → Text
bo_task oybo_task pctrbo_task card_type =
    if card_type == codes "PCTR" then pctrbo_task else oybo_task

-- A batch that could not be forwarded is put back in front.
unfoldable pub requeue : List Transaction → Buffers → Buffers
requeue [] b = b
requeue (tx ∷ txs) b =
    insert tx.card_type ((tx ∷ txs) ++ or_no_transactions (lookup tx.card_type b)) b

-- What becomes of a batch: the URL that it was posted to, or the error. `query` asks the proxy,
-- `post` is httpPostJSON.
abbrev pub posted :
    (Text → List Transaction → Option Text) → List Transaction → Result Text Text → Result Text Text
posted post batch (err e) = err e
posted post batch (ok addr) =
    let url = trim_slashes (ensure_http_base addr) ++ codes "/batch" in
    elim (post url batch) [ none ↦ ok url | some e ↦ err e ]

abbrev pub settled : List Transaction → Result Text Text → Buffers → Option Text × Buffers
settled batch (err e) b = (none, requeue batch b)
settled batch (ok url) b = (some url, b)

unfoldable pub forward_batch :
    (Text → Result Text Text)
    → (Text → List Transaction → Option Text)
    → Text
    → List Transaction
    → Buffers
    → Option Text × Buffers
forward_batch query post task batch b = settled batch (posted post batch (query task)) b

-- A station with its batches on the way, and what it answered and delivered since its start: the
-- transactions that it accepted, and the batches with their URLs.
pub record Station : Type 0 where
  pub buffers : Buffers
  pub in_flight : List (Text × List Transaction)
  pub accepted : List Transaction
  pub delivered : List (Text × List Transaction)

pub data StationEvent : Type 0 where
  arrives : Posting → StationEvent
  settles : ℕ → (Text → Result Text Text) → (Text → List Transaction → Option Text) → StationEvent

abbrev pub new_station : Station
new_station = record {
  buffers = new_per_type_batcher;
  in_flight = [];
  accepted = [];
  delivered = [];
}

abbrev pub remove_at {ℓ} : {A : Type ℓ} → ℕ → List A → Option (A × List A)
remove_at n [] = none
remove_at zero (x ∷ xs) = some (x, xs)
remove_at (suc n) (x ∷ xs) = elim (remove_at n xs) [ none ↦ none | some (y, ys) ↦ some (y, x ∷ ys) ]

abbrev pub with_batch :
    Text → List Transaction → List (Text × List Transaction) → List (Text × List Transaction)
with_batch task [] flying = flying
with_batch task (tx ∷ txs) flying = flying ++ ((task, tx ∷ txs) ∷ [])

abbrev pub with_delivery :
    Option Text → List Transaction → List (Text × List Transaction) → List (Text × List Transaction)
with_delivery none batch delivered = delivered
with_delivery (some url) batch delivered = (url, batch) ∷ delivered

abbrev pub with_accepted : Bool → Option Transaction → List Transaction → List Transaction
with_accepted true (some tx) accepted = tx ∷ accepted
with_accepted answered body accepted = accepted

module _ (batch_size : ℕ) (station_id oybo_task pctrbo_task : Text) where
  abbrev pub kept_body : Posting → Option Transaction → Option Transaction
  kept_body posting none = none
  kept_body posting (some tx) = some (kept_transaction station_id posting tx)

  -- The back office is that of the transaction which filled the batch.
  abbrev pub batch_task : Option Transaction → Text
  batch_task none = oybo_task
  batch_task (some tx) = bo_task oybo_task pctrbo_task tx.card_type

  abbrev pub settle :
      (Text → Result Text Text)
      → (Text → List Transaction → Option Text)
      → Option ((Text × List Transaction) × List (Text × List Transaction))
      → Station
      → Station
  settle query post none s = s
  settle query post (some ((task, batch), others)) s =
      let (url, buffers') = forward_batch query post task batch s.buffers in
      record s {
        buffers = buffers';
        in_flight = others;
        delivered = with_delivery url batch s.delivered;
      }

  -- One handler, or one end of a batch that is on the way: the lock makes each a step.
  unfoldable pub station_step : StationEvent → Station → Station
  station_step (arrives posting) s =
      let (status, ack, batch, buffers') =
        handle_transaction batch_size station_id posting s.buffers in
      let kept = kept_body posting posting.body in
      record {
        buffers = buffers';
        in_flight = with_batch (batch_task kept) batch s.in_flight;
        accepted = with_accepted ack.accepted kept s.accepted;
        delivered = s.delivered;
      }
  station_step (settles n query post) s = settle query post (remove_at n s.in_flight) s

  unfoldable pub station_run : List StationEvent → Station → Station
  station_run [] s = s
  station_run (event ∷ events) s = station_run events (station_step event s)
