-- ===== src/Transport/Status.antt =====
-- What the messages of the centralised mode do to the registry in memory, and what they answer.
use task_discovery_service.Prelude.{
  ℕ, ◌≡◌, ◌≢◌, refl, subst, ◌∙◌, ap, Bool, true, false, ◌&&◌, ◌||◌, some, [], ◌∷◌, Text, ◌==◌,
  text_eq, if◌then◌else◌, arith, beq_false,
}
use task_discovery_service.Prelude.Result.{Result, ok, err}
use task_discovery_service.Assoc.{lookup}
use task_discovery_service.Text.{codes, trim_space}
use task_discovery_service.Text.Trim.{trim_space_idem}
use task_discovery_service.Word.{nonpos}
use task_discovery_service.Ip.{Ip, Net}
use task_discovery_service.Registry.{
  RegistryError, not_found, no_allowed_service, invalid_task_name, other,
}
use task_discovery_service.Registry.Memory.{
  MemoryRegistry, or_nil, new_entry, register_with_capacity, get_service_for_requestor,
}
use task_discovery_service.Registry.Memory.Entries.{
  entry_of, update_or, entry_of-register_with_capacity,
}
use task_discovery_service.Registry.Memory.Queries.{Answer, get_service-permitted}
use task_discovery_service.Transport.{
  memory_service, as_pair, CentralizedMessage, CentralizedResponse, response, failure, of_outcome,
  handle_message, handle_query, handle_register,
}

abbrev pub message : Text → Text → Text → ℕ → CentralizedMessage
message command task addr capacity = record {
  command = command;
  task = task;
  address = addr;
  capacity = capacity;
}

pub nonpos-default :
    (c : ℕ)
    → (if nonpos (if nonpos c then 1 else c) then 1 else (if nonpos c then 1 else c))
      ≡ (if nonpos c then 1 else c)
unfolding nonpos
nonpos-default c = ground arith

abbrev pub is_bad : CentralizedMessage → Bool
is_bad msg =
    if msg.command == codes "REGISTER"
    then trim_space msg.task == [] || trim_space msg.address == []
    else if msg.command == codes "QUERY"
    then trim_space msg.task == []
    else true

-- A status of OK comes with the address that the registry returned.
of_outcome-ok :
    (r : Result RegistryError Text × MemoryRegistry)
    → (of_outcome (as_pair r).0 (as_pair r).1).status ≡ codes "OK"
    → r.0 ≡ ok (of_outcome (as_pair r).0 (as_pair r).1).address
of_outcome-ok (ok [], m) h = ground arith
of_outcome-ok (ok (c ∷ cs), m) h = refl
of_outcome-ok (err not_found, m) h = ground arith
of_outcome-ok (err no_allowed_service, m) h = ground arith
of_outcome-ok (err invalid_task_name, m) h = ground arith
of_outcome-ok (err (other text), m) h = ground arith

-- A query without a task is answered ERR.
query-ok :
    (b : Bool) (r : Result RegistryError Text × MemoryRegistry) (m : MemoryRegistry)
    → let answer : CentralizedResponse × MemoryRegistry =
        if b
        then (failure (codes "task required"), m)
        else (of_outcome (as_pair r).0 (as_pair r).1, (as_pair r).2) in
      answer.0.status ≡ codes "OK" → r.0 ≡ ok answer.0.address
query-ok true r m h = ground arith
query-ok false r m h = of_outcome-ok r h

module _ (net : Net) (now : ℕ) where
  -- The registry trims and defaults again what the handler has trimmed and defaulted.
  register-normal :
      (task addr : Text) (capacity : ℕ) (m : MemoryRegistry)
      → register_with_capacity
          (trim_space task)
          (trim_space addr)
          (if nonpos capacity then 1 else capacity)
          now
          m
        ≡ register_with_capacity task addr capacity now m
  unfolding register_with_capacity
  register-normal task addr capacity m =
      rw (trim_space_idem task, trim_space_idem addr, nonpos-default capacity) refl

  -- A REGISTER message whose task and address are more than spaces is answered OK, and then the
  -- entry of the trimmed task and address has the present time and the capacity of the message, or
  -- 1 if that is not positive; every other entry is as it was.
  pub register_message-entry :
      (task addr t a : Text) (capacity : ℕ) (requestor : Ip) (m : MemoryRegistry)
      → trim_space task ≢ []
      → trim_space addr ≢ []
      → let r =
          handle_message
            (memory_service net now)
            (message (codes "REGISTER") task addr capacity)
            requestor
            m in
        let c : ℕ = if nonpos capacity then 1 else capacity in
        (r.0 ≡ response (codes "OK"))
        × (entry_of t a r.1 ≡ (
            if trim_space task == t && trim_space addr == a
            then some (
                update_or
                  (new_entry (trim_space addr) now c)
                  (λ e. record e { last_heartbeat = now; capacity = c })
                  (entry_of t a m))
            else entry_of t a m))
  unfolding handle_message handle_register
  register_message-entry task addr t a capacity requestor m h k =
      rw (beq_false _ _ h, beq_false _ _ k)
        (
          refl,
          ap (entry_of t a) (register-normal task addr capacity m)
              ∙ entry_of-register_with_capacity task addr t a capacity now m h k,
        )

  -- An address that a QUERY is answered, whatever its address and capacity, is that of an entry of the trimmed task, and the firewall,
  -- if one is set and the requestor known, lets the requestor reach it.
  pub query_message-permitted :
      (task addr : Text) (capacity : ℕ) (requestor : Ip) (m : MemoryRegistry)
      → let r =
          (handle_message
            (memory_service net now)
            (message (codes "QUERY") task addr capacity)
            requestor
            m).0 in
        r.status ≡ codes "OK"
        → Answer net m.firewall requestor (or_nil (lookup (trim_space task) m.services)) r.address
  unfolding handle_message handle_query
  query_message-permitted task addr capacity requestor m h =
      subst
        (λ t.
          Answer net m.firewall requestor (or_nil (lookup t m.services))
            (handle_query (memory_service net now) (message (codes "QUERY") task addr capacity)
              requestor m).0.address)
        (trim_space_idem task)
        (get_service-permitted net (trim_space task) _ requestor m (
          query-ok (trim_space task == [])
            (get_service_for_requestor net (trim_space task) requestor m) m h))
