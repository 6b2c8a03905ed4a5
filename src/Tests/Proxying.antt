-- ===== src/Tests/Proxying.antt =====
-- A REGISTER and a QUERY that go through the proxy to a server with a registry in memory. The texts on
-- the wire are lists of texts, each behind its length.
use task_discovery_service.Prelude.{
  ℕ, ◌≡◌, refl, sym, subst, true, Option, none, [], ◌∷◌, ◌++◌, Text, take, drop, length, arith,
}
use task_discovery_service.Prelude.Result.{Result, ok, err, ◌>>=◌}
use task_discovery_service.Text.{codes, trim_space, is_space, has_prefix, to_upper}
use task_discovery_service.Word.{lt64, add64, nonpos, rem64, sub64}
use task_discovery_service.Assoc.{lookup}
use task_discovery_service.Registry.Weights.{total_service_weight, select_weighted_address}
use task_discovery_service.Registry.{RegistryError}
use task_discovery_service.Registry.Memory.{
  MemoryRegistry, new_memory_registry, register_with_capacity, get_service_for_requestor,
  query_entries, allowed_entries, choose_entry,
}
use task_discovery_service.Transport.{
  CentralizedMessage, CentralizedResponse, memory_service, as_pair, of_outcome,
}
use task_discovery_service.Transport.Servers.{Wire}
use task_discovery_service.Client.Proxy.{
  ProxyRequest, ProxyState, parse_proxy_request, handle_parsed,
}
use task_discovery_service.Client.EndToEnd.{
  CarriesBack, through_server, proxy_register-registers, proxy_query-answers,
}
use task_discovery_service.Client.Telling.{told, told_error, after_told}
use task_discovery_service.Tests.Samples.{letters, gate, entry}

abbrev put : Text → Text → Text
put s rest = length s ∷ (s ++ rest)

abbrev take_text : Text → Result Text (Text × Text)
take_text [] = err (codes "end of text")
take_text (n ∷ s) = ok (take n s, drop n s)

abbrev take_number : Text → Result Text ℕ
take_number [] = err (codes "end of text")
take_number (n ∷ s) = ok n

abbrev read_message : Text → Result Text CentralizedMessage
read_message s = take_text (drop 1 s) >>= λ command. take_text command.1 >>= λ task.
    take_text task.1 >>= λ address. take_number address.1 >>= λ capacity.
    ok (record { command = command.0; task = task.0; address = address.0; capacity = capacity })

abbrev read_response : Text → Result Text CentralizedResponse
read_response s = take_text s >>= λ status. take_text status.1 >>= λ address.
    take_text address.1 >>= λ error.
    ok (record { status = status.0; address = address.0; error = error.0 })

abbrev texts : Wire
texts = record {
  marshal_message = λ m. ok (123 ∷ put m.command (put m.task (put m.address (m.capacity ∷ []))));
  unmarshal_message = read_message;
  marshal_response = λ r. ok (put r.status (put r.address (put r.error [])));
  unmarshal_response = read_response;
}

abbrev no_env : Text → Text
no_env key = []

abbrev proxied : ProxyState MemoryRegistry
proxied = record { reg_count = 0; query_count = 0; error_count = 0; world = new_memory_registry }

abbrev register_packet : Text
register_packet = 123 ∷ put (codes "register") (put gate (put (codes "wxyz:80") (3 ∷ [])))

abbrev register_request : ProxyRequest
register_request = record {
  command = codes "REGISTER";
  task = gate;
  address = codes "wxyz:80";
  capacity = 3;
  json = true;
}

register-parses : parse_proxy_request texts register_packet ≡ (register_request, none)
unfolding parse_proxy_request trim_space has_prefix to_upper lt64 is_space
register-parses = refl

proxy_register_example :
    handle_parsed
      (through_server texts (memory_service letters 7) [] (take 4096) no_env [] (codes "udp"))
      (parse_proxy_request texts register_packet)
      proxied
    ≡ (
      record { status = codes "OK"; address = []; error = [] },
      record proxied {
        reg_count = add64 0 1;
        world = register_with_capacity gate (codes "wxyz:80") 3 7 new_memory_registry;
      },
    )
proxy_register_example =
    proxy_register-registers texts (memory_service letters 7) [] (take 4096) no_env [] (codes "udp")
      register_packet register_request proxied register-parses refl (ground arith) (ground arith)
      (omega arith) refl refl (_, refl, refl, refl) (_, refl, refl, refl)

abbrev query_packet : Text
query_packet = 123 ∷ put (codes "QUERY") (put gate (put [] (0 ∷ [])))

abbrev query_request : ProxyRequest
query_request = record {
  command = codes "QUERY";
  task = gate;
  address = [];
  capacity = 1;
  json = true;
}

query-parses : parse_proxy_request texts query_packet ≡ (query_request, none)
unfolding parse_proxy_request trim_space has_prefix to_upper lt64 is_space
query-parses = refl

-- A registry with one entry.
abbrev stocked : MemoryRegistry
stocked = record new_memory_registry { services = (gate, entry (codes "wxyz:80") 5 1 ∷ []) ∷ [] }

abbrev found : Text × Option RegistryError × MemoryRegistry
found = as_pair (get_service_for_requestor letters gate [] stocked)

abbrev found_response : CentralizedResponse
found_response = record { status = codes "OK"; address = codes "wxyz:80"; error = [] }

outcome_found : of_outcome found.0 found.1 ≡ found_response
unfolding get_service_for_requestor trim_space is_space query_entries lookup allowed_entries
    choose_entry nonpos total_service_weight add64 select_weighted_address lt64 rem64 sub64
outcome_found = refl

told_found :
    told found.0 found.1 ≡ record { status = codes "OK"; address = codes "wxyz:80"; error = [] }
unfolding get_service_for_requestor trim_space is_space query_entries lookup allowed_entries
    choose_entry nonpos total_service_weight add64 select_weighted_address lt64 rem64 sub64
told_found = refl

carried_back : CarriesBack texts (take 4096) found_response
carried_back = (_, refl, refl, refl)

proxy_query_example :
    handle_parsed
      (through_server texts (memory_service letters 7) [] (take 4096) no_env [] (codes "udp"))
      (parse_proxy_request texts query_packet)
      (record proxied { world = stocked })
    ≡ (
      told found.0 found.1,
      after_told (told_error found.0 found.1) found.2 (record proxied { world = stocked }),
    )
proxy_query_example =
    proxy_query-answers texts (memory_service letters 7) [] (take 4096) no_env [] (codes "udp")
      query_packet query_request (record proxied { world = stocked }) query-parses refl
      (ground arith) refl refl (_, refl, refl, refl)
      (subst (CarriesBack texts (take 4096)) (sym outcome_found) carried_back)
