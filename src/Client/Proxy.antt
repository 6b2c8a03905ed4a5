-- ===== src/Client/Proxy.antt =====
-- pkg/client/clientProxy.go: the proxy that forwards the requests of local programs, to a server in the
-- centralised mode and to a node of the hash table in the other. Logging is left out.
use task_discovery_service.Prelude.{
  ℕ, Bool, true, not, ◌||◌, Option, none, some, List, [], ◌∷◌, ◌++◌, Text, ◌==◌, text_eq,
  if◌then◌else◌,
}
use task_discovery_service.Prelude.Result.{Result, ok, err}
use task_discovery_service.Text.{codes, trim_space, to_lower, to_upper, has_prefix}
use task_discovery_service.Word.{add64, lt64}
use task_discovery_service.Transport.{CentralizedMessage, CentralizedResponse}
use task_discovery_service.Transport.Servers.{Wire}
use task_discovery_service.Client.{
  Network, register_udp_with_capacity, register_tcp_with_capacity, register_tls, query_udp,
  query_tcp, query_tls,
}

pub record ProxyRequest : Type 0 where
  pub command : Text
  pub task : Text
  pub address : Text
  pub capacity : ℕ
  pub json : Bool

pub record ProxyResult : Type 0 where
  pub status : Text
  pub address : Text
  pub error : Text

-- The counters of the proxy, and what is at the other end of its connections.
pub record ProxyState (W : Type 0) : Type 0 where
  pub reg_count : ℕ
  pub query_count : ℕ
  pub error_count : ℕ
  pub world : W

-- A registry of the hash table, at the time of the request.
pub record DhtBackend (W : Type 0) : Type 0 where
  pub register : Text → Text → W → Option Text × W
  pub query : Text → W → Result Text Text × W

abbrev pub proxy_failure : Text → ProxyResult
proxy_failure error = record { status = codes "ERR"; address = []; error = error }

abbrev pub no_request : ProxyRequest
no_request = record { command = []; task = []; address = []; capacity = 1; json = true }

abbrev pub trimmed_request : CentralizedMessage → ℕ → ProxyRequest
trimmed_request msg capacity = record {
  command = to_upper (trim_space msg.command);
  task = trim_space msg.task;
  address = trim_space msg.address;
  capacity = capacity;
  json = true;
}

abbrev pub request_of : Result Text CentralizedMessage → ProxyRequest × Option Text
request_of (err e) = (no_request, some (codes "invalid JSON: " ++ e))
request_of (ok msg) =
    if lt64 msg.capacity 0
    then (trimmed_request msg 1, some (codes "capacity must be a positive integer"))
    else (trimmed_request msg (if lt64 0 msg.capacity then msg.capacity else 1), none)

unfoldable pub parse_proxy_request : Wire → Text → ProxyRequest × Option Text
parse_proxy_request wire text =
    let trimmed = trim_space text in
    if trimmed == []
    then (no_request, some (codes "empty command"))
    else if not (has_prefix trimmed (codes "{"))
    then (no_request, some (codes "JSON required"))
    else request_of (wire.unmarshal_message trimmed)

abbrev default_to : Text → Text → Text
default_to s t = if s == [] then t else s

-- The files of the certificates, from the environment.
unfoldable pub tls_client_files_from_env : (Text → Text) → Text × Text × Text
tls_client_files_from_env getenv = (
  default_to (trim_space (getenv (codes "TDS_TLS_CERT_FILE"))) (codes "certs/client.crt"),
  default_to (trim_space (getenv (codes "TDS_TLS_KEY_FILE"))) (codes "certs/client.key"),
  default_to (trim_space (getenv (codes "TDS_TLS_CA_FILE"))) (codes "certs/ca.crt"),
)

abbrev pub ok_or_not_found : Text → ProxyResult
ok_or_not_found addr =
    if addr == []
    then record { status = codes "NOTFOUND"; address = []; error = [] }
    else record { status = codes "OK"; address = addr; error = [] }

module _ {W : Type 0} where
  abbrev pub registered : Result Text Unit × W → ProxyState W → ProxyResult × ProxyState W
  registered (err e, w) p = (proxy_failure e, record p { world = w })
  registered (ok u, w) p = (
    record { status = codes "OK"; address = []; error = [] },
    record p { reg_count = add64 p.reg_count 1; world = w },
  )

  abbrev pub queried : Result Text Text × W → ProxyState W → ProxyResult × ProxyState W
  queried (err e, w) p = (proxy_failure e, record p { world = w })
  queried (ok addr, w) p =
      (ok_or_not_found addr, record p { query_count = add64 p.query_count 1; world = w })

  -- The switch on the command, with the calls that the two modes make.
  abbrev pub handle_command :
      (ProxyRequest → W → Result Text Unit × W)
      → (ProxyRequest → W → Result Text Text × W)
      → ProxyRequest
      → ProxyState W
      → ProxyResult × ProxyState W
  handle_command register query req p =
      if req.command == codes "REGISTER"
      then if req.task == [] || req.address == []
        then (proxy_failure (codes "task and address required"), p)
        else registered (register req p.world) p
      else if req.command == codes "QUERY"
      then if req.task == []
        then (proxy_failure (codes "task required"), p)
        else queried (query req p.world) p
      else (proxy_failure (codes "unknown command"), p)

  abbrev of_error : Option Text × W → Result Text Unit × W
  of_error (none, w) = (ok tt, w)
  of_error (some e, w) = (err e, w)

  unfoldable pub handle_p2p_request :
      DhtBackend W → ProxyRequest → ProxyState W → ProxyResult × ProxyState W
  handle_p2p_request dht =
      handle_command (λ req w. of_error (dht.register req.task req.address w))
        (λ req. dht.query req.task)

module _ (wire : Wire) {W : Type 0} (network : Network W) (getenv : Text → Text) where
  abbrev pub backend_register : Text → Text → ProxyRequest → W → Result Text Unit × W
  backend_register server_addr backend_proto req w =
      let (cert_file, key_file, ca_file) = tls_client_files_from_env getenv in
      if backend_proto == codes "tcp"
      then register_tcp_with_capacity wire network server_addr req.task req.address req.capacity w
      else if backend_proto == codes "tls"
      then register_tls wire network server_addr req.task req.address cert_file key_file ca_file w
      else register_udp_with_capacity wire network server_addr req.task req.address req.capacity w

  abbrev pub backend_query : Text → Text → ProxyRequest → W → Result Text Text × W
  backend_query server_addr backend_proto req w =
      let (cert_file, key_file, ca_file) = tls_client_files_from_env getenv in
      if backend_proto == codes "tcp"
      then query_tcp wire network server_addr req.task w
      else if backend_proto == codes "tls"
      then query_tls wire network server_addr req.task cert_file key_file ca_file w
      else query_udp wire network server_addr req.task w

  unfoldable pub handle_centralized_request :
      Text → Text → ProxyRequest → ProxyState W → ProxyResult × ProxyState W
  handle_centralized_request server_addr backend_proto =
      handle_command (backend_register server_addr backend_proto)
        (backend_query server_addr backend_proto)

  -- The address of the server and the protocol that RunProxy reads from the environment.
  abbrev pub proxy_handler : ProxyRequest → ProxyState W → ProxyResult × ProxyState W
  proxy_handler =
      handle_centralized_request
        (default_to (getenv (codes "TDS_SERVER_ADDR")) (codes "127.0.0.1:5000"))
        (default_to (to_lower (trim_space (getenv (codes "TDS_SERVER_PROTO")))) (codes "udp"))

module _ {W : Type 0} where
  abbrev pub count_error : ProxyState W → ProxyState W
  count_error p = record p { error_count = add64 p.error_count 1 }

  abbrev pub count_failure : ProxyResult × ProxyState W → ProxyResult × ProxyState W
  count_failure (result, p) =
      if result.status == codes "ERR" then (result, count_error p) else (result, p)

  -- A text is parsed and given to the handler; what comes out is written.
  abbrev pub handle_parsed :
      (ProxyRequest → ProxyState W → ProxyResult × ProxyState W)
      → ProxyRequest × Option Text
      → ProxyState W
      → ProxyResult × ProxyState W
  handle_parsed handler (req, some e) p = (proxy_failure e, count_error p)
  handle_parsed handler (req, none) p = count_failure (handler req p)

  abbrev proxy_stats : ProxyState W → ℕ × ℕ × ℕ
  proxy_stats p = (p.reg_count, p.query_count, p.error_count)

abbrev pub response_of : ProxyResult → CentralizedResponse
response_of result = record {
  status = result.status;
  address = result.address;
  error = result.error;
}

-- The text that is not JSON.
unfoldable pub plain_result : ProxyResult → Text
plain_result result =
    if result.status == codes "OK"
    then default_to result.address (codes "OK")
    else if result.status == codes "NOTFOUND"
    then codes "NOTFOUND"
    else codes "ERR " ++ result.error

module _ {W : Type 0} where
  abbrev marshalled : Text → Result Text Text → ProxyState W → Text × ProxyState W
  marshalled instead (err e) p = (instead, count_error p)
  marshalled instead (ok raw) p = (raw, p)

  -- The datagram that writeResult hands to writeUDP.
  unfoldable pub write_result : Wire → Bool → ProxyResult × ProxyState W → Text × ProxyState W
  write_result wire json_mode (result, p) =
      if json_mode
      then marshalled (codes "ERR marshal response") (wire.marshal_response (response_of result)) p
      else (plain_result result, p)

  -- The line that writeTCPResultGeneric writes.
  unfoldable pub write_tcp_result_generic :
      Wire → Bool → ProxyResult × ProxyState W → Text × ProxyState W
  write_tcp_result_generic wire json_mode (result, p) =
      if json_mode
      then marshalled (codes "{\"status\":\"ERR\",\"error\":\"marshal response\"}")
          (wire.marshal_response (response_of result)) p
      else (plain_result result, p)

module _ (wire : Wire) {W : Type 0}
    (handler : ProxyRequest → ProxyState W → ProxyResult × ProxyState W) where
  unfoldable pub handle_packet_generic : Text → ProxyState W → Text × ProxyState W
  handle_packet_generic text p =
      let parsed = parse_proxy_request wire text in
      write_result wire parsed.0.json (handle_parsed handler parsed p)

  -- The loop over the lines of a connection, with the lines that are written.
  unfoldable pub handle_tcp_proxy_conn : List Text → ProxyState W → List Text × ProxyState W
  handle_tcp_proxy_conn [] p = ([], p)
  handle_tcp_proxy_conn (text ∷ lines) p =
      let skipped = handle_tcp_proxy_conn lines p in
      let parsed = parse_proxy_request wire (trim_space text) in
      let (answer, p') =
        write_tcp_result_generic wire parsed.0.json (handle_parsed handler parsed p) in
      let (answers, last) = handle_tcp_proxy_conn lines p' in
      if trim_space text == [] then skipped else (answer ∷ answers, last)
