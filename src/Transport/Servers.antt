-- ===== src/Transport/Servers.antt =====
-- pkg/transport/udp_server.go, handleUDPRequest, and pkg/transport/tcp_server.go, handleTCPConn: the
-- texts that carry the messages of the centralised protocol. The events that are logged are left out.
use task_discovery_service.Prelude.{ℕ, zero, suc, Option, none, some, List, [], ◌∷◌, ◌++◌, Text}
use task_discovery_service.Prelude.Result.{Result, ok, err}
use task_discovery_service.Text.{codes}
use task_discovery_service.Ip.{Ip}
use task_discovery_service.Transport.{
  Service, CentralizedMessage, CentralizedResponse, failure, handle_message,
}

-- encoding/json for the messages of the protocol.
pub record Wire : Type 0 where
  pub marshal_message : CentralizedMessage → Result Text Text
  pub unmarshal_message : Text → Result Text CentralizedMessage
  pub marshal_response : CentralizedResponse → Result Text Text
  pub unmarshal_response : Text → Result Text CentralizedResponse

module _ (wire : Wire) {R : Type 0} (reg : Service R) where
  -- What is answered to the outcome of json.Unmarshal.
  abbrev pub respond : Result Text CentralizedMessage → Ip → R → CentralizedResponse × R
  respond (err e) requestor r = (failure (codes "invalid JSON: " ++ e), r)
  respond (ok msg) requestor r = handle_message reg msg requestor r

  abbrev pub marshalled_reply : Result Text Text × R → Option Text × R
  marshalled_reply (err e, r) = (none, r)
  marshalled_reply (ok raw, r) = (some raw, r)

  -- The datagram that is marshalled_reply back, if there is one.
  unfoldable pub handle_udp_request : Text → Ip → R → Option Text × R
  handle_udp_request raw requestor r =
      let (resp, r') = respond (wire.unmarshal_message raw) requestor r in
      marshalled_reply (wire.marshal_response resp, r')

  -- The loop over the lines, with the number of responses that can be marshalled_reply: the first that cannot
  -- be ends the connection, its message handled.
  unfoldable pub handle_tcp_conn : List Text → Ip → ℕ → R → List CentralizedResponse × R
  handle_tcp_conn [] requestor writable r = ([], r)
  handle_tcp_conn (line ∷ lines) requestor zero r =
      ([], (respond (wire.unmarshal_message line) requestor r).1)
  handle_tcp_conn (line ∷ lines) requestor (suc writable) r =
      let (resp, r') = respond (wire.unmarshal_message line) requestor r in
      let (later, last) = handle_tcp_conn lines requestor writable r' in (resp ∷ later, last)
