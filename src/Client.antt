-- ===== src/Client.antt =====
-- pkg/client/client.go: the requests of a client, over a network that carries them. `W` is the state
-- of what is at the other end. Errors are their texts.
pub mod Proxy
pub mod Parsing
pub mod Telling
pub mod EndToEnd
use task_discovery_service.Prelude.{
  ℕ, Bool, true, false, ◌||◌, Option, none, some, List, [], ◌∷◌, ◌++◌, Text, ◌==◌, text_eq,
  if◌then◌else◌,
}
use task_discovery_service.Prelude.Result.{Result, ok, err}
use task_discovery_service.Text.{codes, trim_space, to_lower, has_prefix, split_host_port}
use task_discovery_service.Word.{nonpos}
use task_discovery_service.Transport.{CentralizedMessage, CentralizedResponse}
use task_discovery_service.Transport.Servers.{Wire}

pub data Fault : Type 0 where
  write_failed : Text → Fault
  read_failed : Text → Fault

-- Packages net, crypto/tls and os: the errors of dialling, of the handshake and of the certificates,
-- and what is read on a connection when a text was written.
pub record Network (W : Type 0) : Type 0 where
  pub dial_error : Text → Text → Option Text
  pub handshake_error : Text → Option Text
  pub load_tls_config_error : Text → Text → Text → Text → Option Text
  pub exchange : Text → Text → Text → W → Result Fault Text × W

-- What an error text of a step begins with, and what ends a request.
pub record Wording : Type 0 where
  pub dialling : Text
  pub marshalling : Text
  pub writing : Text
  pub reading : Text
  pub unmarshalling : Text
  pub line_end : Text

abbrev pub datagram : Wording
datagram = record {
  dialling = [];
  marshalling = codes "marshal request: ";
  writing = [];
  reading = [];
  unmarshalling = codes "unmarshal response: ";
  line_end = [];
}

abbrev pub line : Wording
line = record datagram { line_end = 10 ∷ [] }

abbrev pub tls_line : Wording
tls_line = record {
  dialling = codes "tls dial: ";
  marshalling = codes "encode request: ";
  writing = codes "encode request: ";
  reading = codes "decode response: ";
  unmarshalling = codes "decode response: ";
  line_end = 10 ∷ [];
}

abbrev pub positive_capacity : ℕ → ℕ
positive_capacity capacity = if nonpos capacity then 1 else capacity

abbrev pub register_message : Text → Text → ℕ → CentralizedMessage
register_message task address capacity = record {
  command = codes "REGISTER";
  task = task;
  address = address;
  capacity = capacity;
}

abbrev pub query_message : Text → CentralizedMessage
query_message task = record { command = codes "QUERY"; task = task; address = []; capacity = 0 }

abbrev pub server_error : {A : Type 0} → Text → Result Text A
server_error text = err (codes "server error: " ++ text)

-- How a client reads the response to a REGISTER, to a QUERY, and to each of them over TLS.
abbrev pub register_status : CentralizedResponse → Result Text Unit
register_status resp = if resp.status == codes "OK" then ok tt else server_error resp.error

abbrev pub query_status : CentralizedResponse → Result Text Text
query_status resp =
    if resp.status == codes "NOTFOUND"
    then ok []
    else if resp.status == codes "ERR"
    then server_error resp.error
    else ok resp.address

abbrev pub register_tls_status : CentralizedResponse → Result Text Unit
register_tls_status resp =
    if resp.status == codes "OK"
    then ok tt
    else if resp.error == []
    then server_error resp.status
    else server_error resp.error

abbrev pub query_tls_status : CentralizedResponse → Result Text Text
query_tls_status resp =
    if resp.status == codes "NOTFOUND"
    then ok []
    else if resp.status == codes "ERR"
    then server_error resp.error
    else if resp.status == codes "OK"
    then ok resp.address
    else server_error resp.status

module _ {A : Type 0} {W : Type 0} where
  abbrev pub parsed :
      Wording
      → (CentralizedResponse → Result Text A)
      → Result Text CentralizedResponse
      → W
      → Result Text A × W
  parsed wording status (err e) w = (err (wording.unmarshalling ++ e), w)
  parsed wording status (ok resp) w = (status resp, w)

module _ (wire : Wire) {A : Type 0} {W : Type 0} where
  abbrev pub received :
      Wording → (CentralizedResponse → Result Text A) → Result Fault Text × W → Result Text A × W
  received wording status (err (write_failed e), w) = (err (wording.writing ++ e), w)
  received wording status (err (read_failed e), w) = (err (wording.reading ++ e), w)
  received wording status (ok raw, w) = parsed wording status (wire.unmarshal_response raw) w

module _ (wire : Wire) {W : Type 0} (network : Network W) {A : Type 0} where
  abbrev pub sent :
      Wording
      → (CentralizedResponse → Result Text A)
      → Text
      → Text
      → Result Text Text
      → W
      → Result Text A × W
  sent wording status proto server_addr (err e) w = (err (wording.marshalling ++ e), w)
  sent wording status proto server_addr (ok raw) w =
      received wire wording status (network.exchange proto server_addr (raw ++ wording.line_end) w)

  abbrev pub dialled :
      Wording
      → (CentralizedResponse → Result Text A)
      → Text
      → Text
      → CentralizedMessage
      → Option Text
      → W
      → Result Text A × W
  dialled wording status proto server_addr msg (some e) w = (err (wording.dialling ++ e), w)
  dialled wording status proto server_addr msg none w =
      sent wording status proto server_addr (wire.marshal_message msg) w

  -- Dial, write the message, read the response.
  abbrev pub request :
      Wording
      → (CentralizedResponse → Result Text A)
      → Text
      → Text
      → CentralizedMessage
      → W
      → Result Text A × W
  request wording status proto server_addr msg w =
      dialled wording status proto server_addr msg (network.dial_error proto server_addr) w

  abbrev pub shaken :
      (CentralizedResponse → Result Text A)
      → Text
      → CentralizedMessage
      → Option Text
      → W
      → Result Text A × W
  shaken status server_addr msg (some e) w = (err (codes "tls handshake: " ++ e), w)
  shaken status server_addr msg none w =
      sent tls_line status (codes "tls") server_addr (wire.marshal_message msg) w

  abbrev pub tls_dialled :
      (CentralizedResponse → Result Text A)
      → Text
      → CentralizedMessage
      → Option Text
      → W
      → Result Text A × W
  tls_dialled status server_addr msg (some e) w = (err (codes "tls dial: " ++ e), w)
  tls_dialled status server_addr msg none w =
      shaken status server_addr msg (network.handshake_error server_addr) w

  abbrev pub tls_request :
      (CentralizedResponse → Result Text A)
      → Text
      → CentralizedMessage
      → Option Text
      → W
      → Result Text A × W
  tls_request status server_addr msg (some e) w = (err e, w)
  tls_request status server_addr msg none w =
      tls_dialled status server_addr msg (network.dial_error (codes "tls") server_addr) w

module _ (wire : Wire) {W : Type 0} (network : Network W) where
  unfoldable pub register_udp_with_capacity : Text → Text → Text → ℕ → W → Result Text Unit × W
  register_udp_with_capacity server_addr task address capacity w =
      let msg = register_message task address (positive_capacity capacity) in
      request wire network datagram register_status (codes "udp") server_addr msg w

  unfoldable pub register_tcp_with_capacity : Text → Text → Text → ℕ → W → Result Text Unit × W
  register_tcp_with_capacity server_addr task address capacity w =
      let msg = register_message task address (positive_capacity capacity) in
      request wire network line register_status (codes "tcp") server_addr msg w

  abbrev register_udp : Text → Text → Text → W → Result Text Unit × W
  register_udp server_addr task address w = register_udp_with_capacity server_addr task address 1 w

  abbrev register_tcp : Text → Text → Text → W → Result Text Unit × W
  register_tcp server_addr task address w = register_tcp_with_capacity server_addr task address 1 w

  unfoldable pub query_udp : Text → Text → W → Result Text Text × W
  query_udp server_addr task w =
      request wire network datagram query_status (codes "udp") server_addr (query_message task) w

  unfoldable pub query_tcp : Text → Text → W → Result Text Text × W
  query_tcp server_addr task w =
      request wire network line query_status (codes "tcp") server_addr (query_message task) w

  -- A registration over TLS has no capacity of its own.
  unfoldable pub register_tls : Text → Text → Text → Text → Text → Text → W → Result Text Unit × W
  register_tls server_addr task address cert_file key_file ca_file w =
      tls_request wire network register_tls_status server_addr (register_message task address 1)
        (network.load_tls_config_error cert_file key_file ca_file server_addr) w

  unfoldable pub query_tls : Text → Text → Text → Text → Text → W → Result Text Text × W
  query_tls server_addr task cert_file key_file ca_file w =
      tls_request wire network query_tls_status server_addr (query_message task)
        (network.load_tls_config_error cert_file key_file ca_file server_addr) w

  -- `proto` is the variable TDS_SERVER_PROTO of the environment.
  unfoldable pub register_by_proto : Text → Text → Text → Text → ℕ → W → Result Text Unit × W
  register_by_proto proto server_addr task address capacity w =
      let capacity' = positive_capacity capacity in
      if to_lower proto == codes "tcp"
      then register_tcp_with_capacity server_addr task address capacity' w
      else register_udp_with_capacity server_addr task address capacity' w

  abbrev register_once : Text → Text → Text → Text → W → Result Text Unit × W
  register_once proto server_addr task address w =
      register_by_proto proto server_addr task address 1 w

  abbrev query_by_proto : Text → Text → Text → W → Result Text Text × W
  query_by_proto proto server_addr task w =
      if to_lower proto == codes "tcp"
      then query_tcp server_addr task w
      else query_udp server_addr task w
