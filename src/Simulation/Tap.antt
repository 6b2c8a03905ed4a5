-- ===== src/Simulation/Tap.antt =====
-- Simulation/gate/main.go: how a tap is read, from a line and from a request at /tap.
use task_discovery_service.Prelude.{
  ℕ, suc, Bool, not, ◌&&◌, Option, none, some, [], ◌++◌, Text, ◌==◌, text_eq, if◌then◌else◌, take,
  drop,
}
use task_discovery_service.Prelude.Result.{Result, ok, err}
use task_discovery_service.Text.{codes, trim_space, to_lower, to_upper, index, contains_text}

abbrev pub checked_tap : Text → Text → Result Text (Text × Text)
checked_tap card_type card_id =
    if not (card_type == codes "OY") && not (card_type == codes "PCTR")
    then err (codes "card type must be OY or PCTR")
    else if card_id == []
    then err (codes "missing card id")
    else ok (card_type, card_id)

abbrev pub split_tap : Text → Option ℕ → Result Text (Text × Text)
split_tap tap none = err (codes "expected format <OY|PCTR>:<card_id>")
split_tap tap (some i) =
    checked_tap (to_upper (trim_space (take i tap))) (trim_space (drop (suc i) tap))

unfoldable pub parse_tap : Text → Result Text (Text × Text)
parse_tap input =
    let tap = trim_space input in
    if tap == [] then err (codes "empty tap") else split_tap tap (index b':' tap)

pub record TapRequest : Type 0 where
  pub tap : Text
  pub card_type : Text
  pub card_id : Text

-- A request at /tap: whether it is a POST, its content type, what its body decodes to as JSON, and
-- the first 256 bytes of the body.
pub record TapPosting : Type 0 where
  pub is_post : Bool
  pub content_type : Text
  pub json_body : Option TapRequest
  pub text_body : Text

-- The tap of a request, or the status and the reason of its refusal.
abbrev pub tap_of_json : Option TapRequest → Result (ℕ × Text) Text
tap_of_json none = err (400, codes "invalid json")
tap_of_json (some req) =
    if not (trim_space req.tap == [])
    then ok req.tap
    else if not (trim_space req.card_type == []) && not (trim_space req.card_id == [])
    then ok (req.card_type ++ codes ":" ++ req.card_id)
    else err (400, codes "missing tap")

unfoldable pub tap_of_posting : TapPosting → Result (ℕ × Text) Text
tap_of_posting posting =
    let plain = trim_space posting.text_body in
    if not posting.is_post
    then err (405, codes "method not allowed")
    else if contains_text (to_lower (trim_space posting.content_type)) (codes "application/json")
    then tap_of_json posting.json_body
    else if plain == []
    then err (400, codes "missing tap")
    else ok plain
