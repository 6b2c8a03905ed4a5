-- ===== src/Simulation/Gate.antt =====
-- Simulation/gate/main.go: what a gate does with a tap. It has the card
-- checked, and opens once the station has accepted the transaction.
pub mod Opening
use task_discovery_service.Prelude.{
  ℕ, zero, suc, ◌+◌, ◌-◌, ◌*◌, ◌^◌, Bool, true, false, not, ◌&&◌, ◌||◌, Option, none, some, List,
  [], ◌∷◌, ◌++◌, Text, ◌==◌, text_eq, if◌then◌else◌, ltb, leb, nat_beq, take, drop, any,
}
use task_discovery_service.Prelude.Result.{Result, ok, err}
use task_discovery_service.Text.{
  codes, trim_space, to_lower, to_upper, has_prefix, index, contains_text,
}
use task_discovery_service.Simulation.{Transaction}
use task_discovery_service.Simulation.Proxy.{ensure_http_base, trim_slashes}
use task_discovery_service.Simulation.Tap.{parse_tap, TapPosting, tap_of_posting}
use task_discovery_service.Simulation.Resolve.{CachedAddr, resolve_base, base_or_empty}

pub record GateConfig : Type 0 where
  pub gate_id : Text
  pub station_id : Text
  pub station_fallback : Text
  pub oybo_fallback : Text
  pub pa_fallback : Text

-- One tap's surroundings: the answers of the proxy for the three tasks, package pctrcrypto with the
-- key, if it is loaded, and httpPostJSON of the three requests, the last over the state of the
-- station. An answer of /validate is its verdict and reason, one of /tokenize has the token too.
pub record Surroundings (W : Type 0) : Type 0 where
  pub station_answers : ℕ → Result Text Text
  pub oybo_answers : ℕ → Result Text Text
  pub pa_answers : ℕ → Result Text Text
  pub encrypt : Option (Text → Result Text Text)
  pub validate : Text → Text → Text → Result Text (Bool × Text)
  pub tokenize : Text → Text → Result Text (Bool × Text × Text)
  pub send : Text → Transaction → W → Result Text Bool × W

pub record GateState (W : Type 0) : Type 0 where
  pub station_cache : CachedAddr
  pub oybo_cache : CachedAddr
  pub pa_cache : CachedAddr
  pub world : W

-- Whether a card is allowed, the reason, and the token.
pub record Verdict : Type 0 where
  pub allowed : Bool
  pub reason : Text
  pub token : Text

abbrev pub denied : Text → Verdict
denied reason = record { allowed = false; reason = reason; token = [] }

abbrev pub of_validation : Result Text (Bool × Text) → Verdict
of_validation (err e) = denied (codes "backend error")
of_validation (ok (valid, reason)) = record { allowed = valid; reason = reason; token = [] }

abbrev pub of_tokenization : Result Text (Bool × Text × Text) → Verdict
of_tokenization (err e) = denied (codes "PA error")
of_tokenization (ok (good, token, reason)) =
    if good then record { allowed = true; reason = codes "ok"; token = token } else denied reason

abbrev pub of_ack : Result Text Bool → Bool × Text
of_ack (err e) = (false, codes "station send failed")
of_ack (ok accepted) = if accepted then (true, codes "ok") else (false, codes "station rejected")

module _ {W : Type 0} (config : GateConfig) (net : Surroundings W) (now : ℕ)
    (tap_time unix_nano : Text) where
  unfoldable pub check_oyster : Text → GateState W → Verdict × GateState W
  check_oyster card_id g =
      let (found, cache) = resolve_base net.oybo_answers config.oybo_fallback now g.oybo_cache in
      let base = base_or_empty found in
      (
        (if base == []
            then denied (codes "backend not found")
            else of_validation
                (net.validate (trim_slashes base ++ codes "/validate") card_id tap_time)),
        record g { oybo_cache = cache },
      )

  abbrev pub of_cipher : Text → Result Text Text → Verdict
  of_cipher base (err e) = denied (codes "encrypt failed")
  of_cipher base (ok cipher) =
      of_tokenization (net.tokenize (trim_slashes base ++ codes "/tokenize") cipher)

  abbrev pub check_with_key :
      Option (Text → Result Text Text) → Text → GateState W → Verdict × GateState W
  check_with_key none card_id g = (denied (codes "missing PCTR public key"), g)
  check_with_key (some encrypt) card_id g =
      let (found, cache) = resolve_base net.pa_answers config.pa_fallback now g.pa_cache in
      let base = base_or_empty found in
      (
        (if base == [] then denied (codes "PA not found") else of_cipher base (encrypt card_id)),
        record g { pa_cache = cache },
      )

  abbrev pub check_card : Text → Text → GateState W → Verdict × GateState W
  check_card card_type card_id g =
      if card_type == codes "OY"
      then check_oyster card_id g
      else check_with_key net.encrypt card_id g

  unfoldable pub transaction_of : Text → Text → Verdict → Transaction
  transaction_of card_type card_id v = record {
    transaction_id = config.gate_id ++ codes "-" ++ unix_nano;
    card_type = card_type;
    card_id = if card_type == codes "OY" then card_id else [];
    token = v.token;
    gate_id = config.gate_id;
    station_id = config.station_id;
    tap_time = tap_time;
    allowed = v.allowed;
    reason = v.reason;
  }

  abbrev pub send_transaction : Transaction → GateState W → (Bool × Text) × GateState W
  send_transaction tx g =
      let (found, cache) =
        resolve_base net.station_answers config.station_fallback now g.station_cache in
      let base = base_or_empty found in
      let g' : GateState W = record g { station_cache = cache } in
      let (ack, w) = net.send (trim_slashes base ++ codes "/transaction") tx g.world in
      if base == []
      then ((false, codes "station not found"), g')
      else (of_ack ack, record g' { world = w })

  abbrev pub after_check : Text → Text → Verdict × GateState W → (Bool × Text) × GateState W
  after_check card_type card_id (v, g) =
      if v.allowed
      then send_transaction (transaction_of card_type card_id v) g
      else ((false, v.reason), g)

  abbrev pub after_parse : Result Text (Text × Text) → GateState W → (Bool × Text) × GateState W
  after_parse (err e) g = ((false, codes "invalid tap"), g)
  after_parse (ok (card_type, card_id)) g =
      after_check card_type card_id (check_card card_type card_id g)

  -- Whether the gate opens, and the reason.
  unfoldable pub handle_tap : Text → GateState W → (Bool × Text) × GateState W
  handle_tap tap_line g = after_parse (parse_tap tap_line) g

module _ {W : Type 0} (config : GateConfig) (net : Surroundings W) (now : ℕ)
    (tap_time unix_nano : Text) where
  abbrev pub answer_tap : Result (ℕ × Text) Text → GateState W → (ℕ × Bool × Text) × GateState W
  answer_tap (err (status, reason)) g = ((status, false, reason), g)
  answer_tap (ok tap_line) g =
      let (answer, g') = handle_tap config net now tap_time unix_nano tap_line g in
      ((200, answer.0, answer.1), g')

  -- The handler of /tap: the status, and whether the gate opens, with the reason.
  unfoldable pub handle_tap_request : TapPosting → GateState W → (ℕ × Bool × Text) × GateState W
  handle_tap_request posting g = answer_tap (tap_of_posting posting) g
