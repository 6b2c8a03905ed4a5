-- ===== src/Client/Telling.antt =====
-- What a client and the proxy make of the registry's answer to a query.
use task_discovery_service.Prelude.{
  ◌≡◌, refl, Bool, true, false, Option, none, some, [], ◌∷◌, ◌++◌, Text, ◌==◌, text_eq,
  if◌then◌else◌,
}
use task_discovery_service.Prelude.Result.{Result, ok}
use task_discovery_service.Text.{codes}
use task_discovery_service.Word.{add64}
use task_discovery_service.Registry.{
  RegistryError, not_found, no_allowed_service, invalid_task_name, other,
}
use task_discovery_service.Transport.{of_outcome, error_text}
use task_discovery_service.Client.{server_error, query_status}
use task_discovery_service.Client.Proxy.{ProxyResult, ProxyState, queried, count_failure}

-- What a client sees of the registry's answer: an empty address for no service, and also for a
-- service that the firewall forbids.
abbrev pub client_view : Text → Option RegistryError → Result Text Text
client_view addr none = ok addr
client_view addr (some not_found) = ok []
client_view addr (some no_allowed_service) = ok []
client_view addr (some invalid_task_name) =
    if addr == [] then ok [] else server_error (error_text invalid_task_name)
client_view addr (some (other text)) = if addr == [] then ok [] else server_error text

-- What the proxy tells a program of the registry's answer. An error that comes without an address
-- reads as no service, and so does a service that the firewall forbids.
abbrev pub told : Text → Option RegistryError → ProxyResult
told [] none = record { status = codes "NOTFOUND"; address = []; error = [] }
told (c ∷ cs) none = record { status = codes "OK"; address = c ∷ cs; error = [] }
told addr (some not_found) = record { status = codes "NOTFOUND"; address = []; error = [] }
told addr (some no_allowed_service) = record { status = codes "NOTFOUND"; address = []; error = [] }
told [] (some invalid_task_name) = record { status = codes "NOTFOUND"; address = []; error = [] }
told (c ∷ cs) (some invalid_task_name) = record {
  status = codes "ERR";
  address = [];
  error = codes "server error: invalid task name";
}
told [] (some (other text)) = record { status = codes "NOTFOUND"; address = []; error = [] }
told (c ∷ cs) (some (other text)) = record {
  status = codes "ERR";
  address = [];
  error = codes "server error: " ++ text;
}

-- Whether that is an error, which the proxy counts in the place of a query.
abbrev pub told_error : Text → Option RegistryError → Bool
told_error addr none = false
told_error addr (some not_found) = false
told_error addr (some no_allowed_service) = false
told_error [] (some e) = false
told_error (c ∷ cs) (some invalid_task_name) = true
told_error (c ∷ cs) (some (other text)) = true

abbrev pub after_told : {W : Type 0} → Bool → W → ProxyState W → ProxyState W
after_told true w p = record p { error_count = add64 p.error_count 1; world = w }
after_told false w p = record p { query_count = add64 p.query_count 1; world = w }

pub queried-told :
    {W : Type 0} (addr : Text) (e : Option RegistryError) (w : W) (p : ProxyState W)
    → count_failure (queried (client_view addr e, w) p)
      ≡ (told addr e, after_told (told_error addr e) w p)
queried-told [] none w p = refl
queried-told (c ∷ cs) none w p = refl
queried-told [] (some not_found) w p = refl
queried-told (c ∷ cs) (some not_found) w p = refl
queried-told [] (some no_allowed_service) w p = refl
queried-told (c ∷ cs) (some no_allowed_service) w p = refl
queried-told [] (some invalid_task_name) w p = refl
queried-told (c ∷ cs) (some invalid_task_name) w p = refl
queried-told [] (some (other text)) w p = refl
queried-told (c ∷ cs) (some (other text)) w p = refl

pub query_status-of_outcome :
    (addr : Text) (e : Option RegistryError) → query_status (of_outcome addr e) ≡ client_view addr e
query_status-of_outcome [] none = refl
query_status-of_outcome (c ∷ cs) none = refl
query_status-of_outcome addr (some not_found) = refl
query_status-of_outcome addr (some no_allowed_service) = refl
query_status-of_outcome [] (some invalid_task_name) = refl
query_status-of_outcome (c ∷ cs) (some invalid_task_name) = refl
query_status-of_outcome [] (some (other text)) = refl
query_status-of_outcome (c ∷ cs) (some (other text)) = refl
