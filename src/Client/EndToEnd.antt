-- ===== src/Client/EndToEnd.antt =====
-- A packet of a local program on its way through the proxy and the client to the UDP server and its
-- registry, and back.
use task_discovery_service.Prelude.{
  ℕ, ◌<◌, ◌≡◌, ◌≢◌, refl, sym, ap, ◌∙◌, subst, false, Option, none, some, [], ◌++◌, append-nil,
  Text, ◌==◌, text_eq, beq_false,
}
use task_discovery_service.Prelude.Result.{Result, ok, err}
use task_discovery_service.Text.{codes, trim_space}
use task_discovery_service.Word.{nonpos, add64, int64_mod}
use task_discovery_service.Ip.{Ip}
use task_discovery_service.Transport.{
  Service, CentralizedMessage, CentralizedResponse, response, of_outcome, handle_message,
  handle_register, handle_query,
}
use task_discovery_service.Transport.Servers.{Wire, handle_udp_request}
use task_discovery_service.Client.{
  Fault, read_failed, Network, positive_capacity, register_message, query_message, query_status,
  register_status, register_udp_with_capacity, query_udp,
}
use task_discovery_service.Client.Proxy.{
  ProxyRequest, ProxyResult, ProxyState, parse_proxy_request, registered, queried,
  handle_centralized_request, handle_parsed, count_failure,
}
use task_discovery_service.Client.Parsing.{IsNormal, parse-IsNormal}
use task_discovery_service.Client.Telling.{
  client_view, told, told_error, after_told, queried-told, query_status-of_outcome,
}

-- The message is encoded, fits into the buffer of the other side, of which `cut` says what it keeps
-- of a text, and decodes to itself.
abbrev pub Carries : Wire → (Text → Text) → CentralizedMessage → Type 0
Carries wire cut msg =
    (raw : Text) × (wire.marshal_message msg ≡ ok raw)
    × (cut raw ≡ raw)
    × (wire.unmarshal_message raw ≡ ok msg)

abbrev pub CarriesBack : Wire → (Text → Text) → CentralizedResponse → Type 0
CarriesBack wire cut resp =
    (raw : Text) × (wire.marshal_response resp ≡ ok raw)
    × (cut raw ≡ raw)
    × (wire.unmarshal_response raw ≡ ok resp)

module _ {R : Type 0} where
  abbrev pub reply_read : (Text → Text) → Option Text × R → Result Fault Text × R
  reply_read cut (none, r) = (err (read_failed (codes "timeout")), r)
  reply_read cut (some raw, r) = (ok (cut raw), r)

module _ (wire : Wire) {R : Type 0} (reg : Service R) (requestor : Ip) (cut : Text → Text) where
  -- A network whose one server answers datagrams of the proxy, which has the address `requestor`. The
  -- server and the client read into buffers of 4096 bytes; `cut` is what package net puts there.
  abbrev pub server_network : Network R
  server_network = record {
    dial_error = λ proto server_addr. none;
    handshake_error = λ server_addr. none;
    load_tls_config_error = λ cert_file key_file ca_file server_addr. none;
    exchange = λ proto server_addr raw r.
        reply_read cut (handle_udp_request wire reg (cut raw) requestor r);
  }

  exchange-served :
      (msg : CentralizedMessage) (raw : Text) (r : R)
      → cut raw ≡ raw
      → wire.unmarshal_message raw ≡ ok msg
      → let answer = handle_message reg msg requestor r in
        (back : CarriesBack wire cut answer.0)
        → reply_read cut (handle_udp_request wire reg (cut (raw ++ [])) requestor r)
          ≡ (ok back.0, answer.1)
  unfolding handle_udp_request
  exchange-served msg raw r fits e (reply, out, short, back) =
      rw (append-nil raw, fits, e, out, short) refl

  register-served :
      (server_addr task address : Text) (capacity : ℕ) (r : R)
      → let msg = register_message task address (positive_capacity capacity) in
        let answer = handle_message reg msg requestor r in
        Carries wire cut msg
        → CarriesBack wire cut answer.0
        → register_udp_with_capacity wire server_network server_addr task address capacity r
          ≡ (register_status answer.0, answer.1)
  unfolding register_udp_with_capacity
  register-served server_addr task address capacity r (raw, out, fits, into) back =
      rw (out, exchange-served _ raw r fits into back, back.3) refl

  query-served :
      (server_addr task : Text) (r : R)
      → let answer = handle_message reg (query_message task) requestor r in
        Carries wire cut (query_message task)
        → CarriesBack wire cut answer.0
        → query_udp wire server_network server_addr task r ≡ (query_status answer.0, answer.1)
  unfolding query_udp
  query-served server_addr task r (raw, out, fits, into) back =
      rw (out, exchange-served _ raw r fits into back, back.3) refl

  served_register :
      (task address : Text) (capacity : ℕ) (r : R)
      → trim_space task ≡ task
      → trim_space address ≡ address
      → nonpos capacity ≡ false
      → task ≢ []
      → address ≢ []
      → handle_message reg (register_message task address (positive_capacity capacity)) requestor r
        ≡ (response (codes "OK"), reg.register_with_capacity task address capacity r)
  unfolding handle_message handle_register
  served_register task address capacity r t a c n m =
      rw (c, c, t, a, beq_false task [] n, beq_false address [] m) refl

  served_query :
      (task : Text) (r : R)
      → trim_space task ≡ task
      → task ≢ []
      → let found = reg.get_service_for_requestor task requestor r in
        handle_message reg (query_message task) requestor r ≡ (of_outcome found.0 found.1, found.2)
  unfolding handle_message handle_query
  served_query task r t n = rw (t, beq_false task [] n) refl

  udp_register :
      (server_addr : Text) (req : ProxyRequest) (r : R)
      → IsNormal req
      → nonpos req.capacity ≡ false
      → req.task ≢ []
      → req.address ≢ []
      → Carries wire cut (register_message req.task req.address req.capacity)
      → CarriesBack wire cut (response (codes "OK"))
      → register_udp_with_capacity wire server_network server_addr req.task req.address req.capacity
          r
        ≡ (ok tt, reg.register_with_capacity req.task req.address req.capacity r)
  udp_register server_addr req r i c n m into back =
      let same : positive_capacity req.capacity ≡ req.capacity = rw c refl in
      let served =
        served_register req.task req.address req.capacity r i.task_trimmed i.address_trimmed c n
          m in
      register-served server_addr req.task req.address req.capacity r
        (subst (λ k. Carries wire cut (register_message req.task req.address k)) (sym same) into)
        (subst (λ a. CarriesBack wire cut a.0) (sym served) back)
      ∙ ap (λ a. (register_status a.0, a.1)) served

  udp_query :
      (server_addr : Text) (req : ProxyRequest) (r : R)
      → IsNormal req
      → req.task ≢ []
      → let found = reg.get_service_for_requestor req.task requestor r in
        Carries wire cut (query_message req.task)
        → CarriesBack wire cut (of_outcome found.0 found.1)
        → query_udp wire server_network server_addr req.task r
          ≡ (client_view found.0 found.1, found.2)
  udp_query server_addr req r i n into back =
      let found = reg.get_service_for_requestor req.task requestor r in
      let served = served_query req.task r i.task_trimmed n in
      query-served server_addr req.task r into
        (subst (λ a. CarriesBack wire cut a.0) (sym served) back)
      ∙ ap (λ a. (query_status a.0, a.1)) served
      ∙ ap (λ v. (v, found.2)) (query_status-of_outcome found.0 found.1)

  module _ (getenv : Text → Text) (server_addr backend_proto : Text) where
    abbrev pub through_server : ProxyRequest → ProxyState R → ProxyResult × ProxyState R
    through_server = handle_centralized_request wire server_network getenv server_addr backend_proto

    -- A packet that parses to a REGISTER with a task and an address, given to the proxy of a server
    -- that it reaches over UDP, is answered OK and registers exactly the task, the address and the
    -- capacity that were parsed, in any registry, if JSON carries the two messages and they fit into
    -- the buffers.
    pub proxy_register-registers :
        (text : Text) (req : ProxyRequest) (p : ProxyState R)
        → parse_proxy_request wire text ≡ (req, none)
        → req.command ≡ codes "REGISTER"
        → req.task ≢ []
        → req.address ≢ []
        → req.capacity < int64_mod
        → (backend_proto == codes "tcp") ≡ false
        → (backend_proto == codes "tls") ≡ false
        → Carries wire cut (register_message req.task req.address req.capacity)
        → CarriesBack wire cut (response (codes "OK"))
        → handle_parsed through_server (parse_proxy_request wire text) p ≡ (
          record { status = codes "OK"; address = []; error = [] },
          record p {
            reg_count = add64 p.reg_count 1;
            world = reg.register_with_capacity req.task req.address req.capacity p.world;
          },
        )
    unfolding handle_centralized_request
    proxy_register-registers text req p e command n m c tcp tls into back =
        let i = parse-IsNormal wire text req e in
        rw (e, command, beq_false req.task [] n, beq_false req.address [] m, tcp, tls)
          (ap (λ x. count_failure (registered x p))
            (udp_register server_addr req p.world i (i.capacity_positive c) n m into back))

    -- A packet that parses to a QUERY with a task, given to the proxy of a server that it reaches
    -- over UDP, makes one query of the registry for that task on behalf of the proxy's address, if
    -- JSON carries the two messages and they fit into the buffers. The program is told OK with the
    -- address that the registry returns without an error; NOTFOUND if it returns none, finds no
    -- service, or has one that the firewall forbids; and the text of any other error only if an
    -- address comes with it, else NOTFOUND. An answer but ERR counts as a query, and ERR as an error.
    pub proxy_query-answers :
        (text : Text) (req : ProxyRequest) (p : ProxyState R)
        → parse_proxy_request wire text ≡ (req, none)
        → req.command ≡ codes "QUERY"
        → req.task ≢ []
        → (backend_proto == codes "tcp") ≡ false
        → (backend_proto == codes "tls") ≡ false
        → let (addr, e, world) = reg.get_service_for_requestor req.task requestor p.world in
          Carries wire cut (query_message req.task)
          → CarriesBack wire cut (of_outcome addr e)
          → handle_parsed through_server (parse_proxy_request wire text) p
            ≡ (told addr e, after_told (told_error addr e) world p)
    unfolding handle_centralized_request
    proxy_query-answers text req p e command n tcp tls into back =
        let i = parse-IsNormal wire text req e in
        let found = reg.get_service_for_requestor req.task requestor p.world in
        rw (e, command, beq_false req.task [] n, tcp, tls)
          (ap (λ x. count_failure (queried x p)) (udp_query server_addr req p.world i n into back)
            ∙ queried-told found.0 found.1 found.2 p)
