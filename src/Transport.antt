-- ===== src/Transport.antt =====
-- pkg/transport/messages.go: the protocol of the centralised mode, over any registry. The events
-- that are logged are left out.
pub mod Status
pub mod Servers
use task_discovery_service.Prelude.{
  ℕ, Bool, true, false, ◌||◌, not, [], ◌∷◌, ◌++◌, Text, ◌==◌, text_eq, Option, none, some,
  if◌then◌else◌, List,
}
use task_discovery_service.Prelude.Result.{Result, ok, err}
use task_discovery_service.Text.{codes, trim_space}
use task_discovery_service.Word.{nonpos}
use task_discovery_service.Ip.{Ip, Net}
use task_discovery_service.Registry.{
  RegistryError, not_found, no_allowed_service, invalid_task_name, other,
}
use task_discovery_service.Registry.Memory.{
  MemoryRegistry, register_with_capacity, get_service_for_requestor,
}

-- The methods of a registry that the handler calls, at the time of the message: all registries of
-- the program take a capacity.
pub record Service (R : Type 0) : Type 0 where
  pub register_with_capacity : Text → Text → ℕ → R → R
  pub get_service_for_requestor : Text → Ip → R → Text × Option RegistryError × R

-- The registries return an empty address beside every error.
abbrev pub as_pair {ℓ} :
    {R : Type ℓ} → Result RegistryError Text × R → Text × Option RegistryError × R
as_pair (ok addr, r) = (addr, none, r)
as_pair (err e, r) = ([], some e, r)

-- The registry in memory, at a time.
abbrev pub memory_service : Net → ℕ → Service MemoryRegistry
memory_service net now = record {
  register_with_capacity = λ task addr capacity. register_with_capacity task addr capacity now;
  get_service_for_requestor =
      λ task requestor m. as_pair (get_service_for_requestor net task requestor m);
}

pub record CentralizedMessage : Type 0 where
  pub command : Text
  pub task : Text
  pub address : Text
  pub capacity : ℕ

pub record CentralizedResponse : Type 0 where
  pub status : Text
  pub address : Text
  pub error : Text

abbrev pub response : Text → CentralizedResponse
response status = record { status = status; address = []; error = [] }

abbrev pub failure : Text → CentralizedResponse
failure error = record { status = codes "ERR"; address = []; error = error }

-- The texts of the errors of the registry.
abbrev pub error_text : RegistryError → Text
error_text not_found = codes "service not found"
error_text no_allowed_service = codes "no service allowed by firewall"
error_text invalid_task_name = codes "invalid task name"
error_text (other text) = text

abbrev is_nil : Text → Bool
is_nil [] = true
is_nil (c ∷ cs) = false

-- The switch of handleQuery.
abbrev pub of_outcome : Text → Option RegistryError → CentralizedResponse
of_outcome addr none =
    if is_nil addr
    then response (codes "NOTFOUND")
    else record { status = codes "OK"; address = addr; error = [] }
of_outcome addr (some no_allowed_service) = response (codes "FORBIDDEN")
of_outcome addr (some not_found) = response (codes "NOTFOUND")
of_outcome addr (some invalid_task_name) =
    if is_nil addr then response (codes "NOTFOUND") else failure (error_text invalid_task_name)
of_outcome addr (some (other text)) =
    if is_nil addr then response (codes "NOTFOUND") else failure text

module _ {R : Type 0} (reg : Service R) where
  unfoldable pub handle_register : CentralizedMessage → R → CentralizedResponse × R
  handle_register msg r =
      let task = trim_space msg.task in
      let addr = trim_space msg.address in
      let capacity = if nonpos msg.capacity then 1 else msg.capacity in
      if task == [] || addr == []
      then (failure (codes "task and address required"), r)
      else (response (codes "OK"), reg.register_with_capacity task addr capacity r)

  unfoldable pub handle_query : CentralizedMessage → Ip → R → CentralizedResponse × R
  handle_query msg requestor r =
      let task = trim_space msg.task in
      let found = reg.get_service_for_requestor task requestor r in
      if task == []
      then (failure (codes "task required"), r)
      else (of_outcome found.0 found.1, found.2)

  unfoldable pub handle_message : CentralizedMessage → Ip → R → CentralizedResponse × R
  handle_message msg requestor r =
      if msg.command == codes "REGISTER"
      then handle_register msg r
      else if msg.command == codes "QUERY"
      then handle_query msg requestor r
      else (failure (codes "unknown command: " ++ msg.command), r)
