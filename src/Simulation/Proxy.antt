-- ===== src/Simulation/Proxy.antt =====
-- Simulation/simproxy/proxy.go: how the programs ask the client proxy, over `round_trip`, which gives
-- the trimmed text that the proxy answers a payload.
use task_discovery_service.Prelude.{
  Bool, ◌||◌, Option, none, some, [], ◌∷◌, ◌++◌, Text, ◌==◌, text_eq, nat_beq, if◌then◌else◌, drop,
}
use task_discovery_service.Prelude.Result.{Result, ok, err}
use task_discovery_service.Text.{codes, trim_space, to_upper, has_prefix}

unfoldable pub ensure_http_base : Text → Text
ensure_http_base addr =
    let trimmed = trim_space addr in
    if trimmed == []
    then []
    else if has_prefix trimmed (codes "http://") || has_prefix trimmed (codes "https://")
    then trimmed
    else codes "http://" ++ trimmed

-- strings.TrimRight of the slashes at the end.
unfoldable pub trim_slashes : Text → Text
trim_slashes [] = []
trim_slashes (c ∷ s) = elim (trim_slashes s) [
  | [] ↦ if nat_beq c b'/' then [] else c ∷ []
  | d ∷ t ↦ c ∷ d ∷ t
]

pub record SimRequest : Type 0 where
  pub command : Text
  pub task : Text
  pub address : Text

pub record SimResponse : Type 0 where
  pub status : Text
  pub address : Text
  pub error : Text

-- encoding/json for them, the verb %q of package fmt, and the connection to the proxy.
pub record ProxyLink : Type 0 where
  pub marshal_request : SimRequest → Result Text Text
  pub unmarshal_response : Text → Option SimResponse
  pub quote : Text → Text
  pub round_trip : Text → Result Text Text

abbrev pub status_response : Text → SimResponse
status_response status = record { status = status; address = []; error = [] }

-- The fallback for a proxy that answers plain text; `fold` is strings.EqualFold.
abbrev pub plain_response : (Text → Text → Bool) → Text → SimResponse
plain_response fold trimmed =
    if fold trimmed (codes "OK")
    then status_response (codes "OK")
    else if fold trimmed (codes "NOTFOUND")
    then status_response (codes "NOTFOUND")
    else if has_prefix (to_upper trimmed) (codes "ERR")
    then record {
      status = codes "ERR";
      address = [];
      error = trim_space (if has_prefix trimmed (codes "ERR") then drop 3 trimmed else trimmed);
    }
    else record { status = codes "OK"; address = trimmed; error = [] }

abbrev pub read_or_plain : (Text → Text → Bool) → Text → Option SimResponse → SimResponse
read_or_plain fold raw none = plain_response fold (trim_space raw)
read_or_plain fold raw (some resp) = resp

abbrev pub or_proxy_error : Text → Text
or_proxy_error s = if s == [] then codes "proxy error" else s

module _ (fold : Text → Text → Bool) (link : ProxyLink) where
  abbrev pub unexpected : {A : Type 0} → SimResponse → Result Text A
  unexpected resp = err (
      codes "unexpected proxy response: status="
      ++ link.quote resp.status
      ++ codes " error="
      ++ link.quote resp.error)

  abbrev pub answered : Result Text Text → Result Text SimResponse
  answered (err e) = err e
  answered (ok raw) = ok (read_or_plain fold raw (link.unmarshal_response raw))

  abbrev pub carried : Result Text Text → Result Text SimResponse
  carried (err e) = err (codes "marshal request: " ++ e)
  carried (ok payload) = answered (link.round_trip payload)

  unfoldable pub round_trip_json : SimRequest → Result Text SimResponse
  round_trip_json req = carried (link.marshal_request req)

  abbrev pub register_answer : Result Text SimResponse → Result Text Unit
  register_answer (err e) = err e
  register_answer (ok resp) =
      if fold resp.status (codes "OK")
      then ok tt
      else if fold resp.status (codes "ERR")
      then err (or_proxy_error (trim_space resp.error))
      else unexpected resp

  unfoldable pub sim_register : Text → Text → Result Text Unit
  sim_register task address =
      let task' = trim_space task in
      let address' = trim_space address in
      let answer =
        round_trip_json (record { command = codes "REGISTER"; task = task'; address = address' }) in
      if task' == [] || address' == []
      then err (codes "missing task or address")
      else register_answer answer

  abbrev pub query_answer : Result Text SimResponse → Result Text Text
  query_answer (err e) = err e
  query_answer (ok resp) =
      if fold resp.status (codes "NOTFOUND")
      then err (codes "service not found")
      else if fold resp.status (codes "ERR")
      then err (or_proxy_error (trim_space resp.error))
      else if fold resp.status (codes "OK")
      then ok (trim_space resp.address)
      else unexpected resp

  unfoldable pub sim_query : Text → Result Text Text
  sim_query task =
      let task' = trim_space task in
      let answer =
        round_trip_json (record { command = codes "QUERY"; task = task'; address = [] }) in
      if task' == [] then err (codes "missing task") else query_answer answer
