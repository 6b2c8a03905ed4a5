-- ===== src/Tests/Requests.antt =====
-- Messages of the centralised mode to a small registry.
use task_discovery_service.Prelude.{◌≡◌, ◌≢◌, refl, ◌&&◌, some, [], ◌==◌, text_eq, if◌then◌else◌}
use task_discovery_service.Assoc.{lookup, insert}
use task_discovery_service.Text.{
  codes, is_space, trim_space, has_prefix, split_host_port, finish_split,
}
use task_discovery_service.Word.{nonpos, add64, sub64, rem64, lt64}
use task_discovery_service.Ip.{ip_equal}
use task_discovery_service.Firewall.{is_allowed}
use task_discovery_service.Registry.Destination.{destination_ip_from_address}
use task_discovery_service.Registry.Weights.{
  service_weight, total_service_weight, select_weighted_address,
}
use task_discovery_service.Registry.Memory.{
  allowed_entries, query_entries, is_reachable, choose_entry, count_query, or_nil,
  get_service_for_requestor, new_entry,
}
use task_discovery_service.Registry.Memory.Entries.{entry_of, update_or}
use task_discovery_service.Registry.Memory.Queries.{Answer}
use task_discovery_service.Transport.{
  memory_service, CentralizedMessage, response, handle_message, handle_query,
}
use task_discovery_service.Transport.Status.{
  message, register_message-entry, query_message-permitted,
}
use task_discovery_service.Tests.Samples.{letters, gate, open_registry, guarded_registry}

spaced-gate : trim_space (codes " gate") ≢ []
unfolding trim_space is_space
spaced-gate h = cc

address-words : trim_space (codes "wxyz:80") ≢ []
unfolding trim_space is_space
address-words h = cc

register_message_example :
    ((handle_message
        (memory_service letters 12)
        (message (codes "REGISTER") (codes " gate") (codes "wxyz:80") 4)
        []
        open_registry).0
      ≡ response (codes "OK"))
    × (entry_of gate
          (codes "wxyz:80")
          (handle_message
            (memory_service letters 12)
            (message (codes "REGISTER") (codes " gate") (codes "wxyz:80") 4)
            []
            open_registry).1
        ≡ (if trim_space (codes " gate") == gate && trim_space (codes "wxyz:80") == codes "wxyz:80"
            then some (
                update_or
                  (new_entry (trim_space (codes "wxyz:80")) 12 (if nonpos 4 then 1 else 4))
                  (λ e. record e { last_heartbeat = 12; capacity = if nonpos 4 then 1 else 4 })
                  (entry_of gate (codes "wxyz:80") open_registry))
            else entry_of gate (codes "wxyz:80") open_registry))
register_message_example =
    register_message-entry letters 12 (codes " gate") (codes "wxyz:80") gate (codes "wxyz:80") 4 []
      open_registry spaced-gate address-words

abbrev lost : CentralizedMessage
lost = message (codes "REGISTER") (codes " ") (codes "wxyz:80") 1

gate-ok :
    (handle_message
      (memory_service letters 12)
      (message (codes "QUERY") gate (codes "x") 5)
      (codes "abcd")
      guarded_registry).0.status
    ≡ codes "OK"
unfolding handle_message handle_query get_service_for_requestor trim_space is_space query_entries
    lookup allowed_entries is_reachable destination_ip_from_address has_prefix split_host_port
    is_allowed ip_equal choose_entry nonpos total_service_weight add64 select_weighted_address lt64
    insert count_query service_weight finish_split rem64 sub64
gate-ok = refl

query_message_example :
    Answer letters guarded_registry.firewall
      (codes "abcd")
      (or_nil (lookup (trim_space gate) guarded_registry.services))
      (handle_message
        (memory_service letters 12)
        (message (codes "QUERY") gate (codes "x") 5)
        (codes "abcd")
        guarded_registry).0.address
query_message_example =
    query_message-permitted letters 12 gate (codes "x") 5 (codes "abcd") guarded_registry gate-ok
