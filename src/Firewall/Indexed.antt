-- ===== src/Firewall/Indexed.antt =====
-- pkg/firewall/indexed_firewall.go: rules grouped by the text of their source network. The order in
-- which a range meets the keys of the index is that of the list.
pub mod Agreement
use task_discovery_service.Prelude.{
  ℕ, ◌+◌, Bool, true, false, ◌&&◌, Option, none, some, List, [], ◌∷◌, ◌++◌, Text, if◌then◌else◌,
  any, keep_if, text_eq,
}
use task_discovery_service.Assoc.{Assoc, lookup, insert}
use task_discovery_service.Ip.{Ip, IpNet, Net, contains_ip}
use task_discovery_service.Ip.Single.{ip_to_network}
use task_discovery_service.Firewall.{FirewallRule, host_part}

pub record FirewallStats : Type 0 where
  pub total_checks : ℕ
  pub total_allowed : ℕ
  pub total_blocked : ℕ
  pub last_reload_time : ℕ

pub record IndexedFirewall : Type 0 where
  pub index : Assoc Text (List IpNet)
  pub stats : FirewallStats

abbrev pub network_or_single : Option IpNet → Ip → IpNet
network_or_single (some network) ip = network
network_or_single none ip = ip_to_network ip

abbrev pub or_nil : Option (List IpNet) → List IpNet
or_nil none = []
or_nil (some nets) = nets

module _ (net : Net) where
  unfoldable pub get_source_key : FirewallRule → Text
  get_source_key rule = net.net_string (network_or_single rule.source_network rule.source_ip)

  -- newIndex[sourceKey] = append(newIndex[sourceKey], destNet)
  unfoldable pub add_rule : FirewallRule → Assoc Text (List IpNet) → Assoc Text (List IpNet)
  unfolding get_source_key
  add_rule rule index =
      let key = get_source_key rule in
      insert key
        (or_nil (lookup key index) ++ (network_or_single rule.dest_network rule.dest_ip ∷ [])) index

  unfoldable pub build_index : List FirewallRule → Assoc Text (List IpNet) → Assoc Text (List IpNet)
  build_index [] index = index
  build_index (rule ∷ rules) index = build_index rules (add_rule rule index)

  -- `none` is a provider that fails; the index stays as it was.
  unfoldable pub rebuild_index :
      Option (List FirewallRule) → IndexedFirewall → Option IndexedFirewall
  unfolding build_index
  rebuild_index none ifw = none
  rebuild_index (some rules) ifw = some (record ifw { index = build_index rules [] })

  unfoldable pub new_indexed_firewall : Option (List FirewallRule) → Option IndexedFirewall
  unfolding rebuild_index
  new_indexed_firewall rules = rebuild_index rules (record {
    index = [];
    stats = record { total_checks = 0; total_allowed = 0; total_blocked = 0; last_reload_time = 0 };
  })

  -- The state after Reload, and whether it succeeded.
  unfoldable pub reload : Option (List FirewallRule) → ℕ → IndexedFirewall → IndexedFirewall × Bool
  unfolding rebuild_index
  reload rules now ifw = elim (rebuild_index rules ifw) [
    | none ↦ (ifw, false)
    | some new ↦ (record new { stats = record new.stats { last_reload_time = now } }, true)
  ]

  unfoldable pub source_matches : Text → Ip → Bool
  source_matches key source = elim (net.parse_cidr key) [
    | none ↦ false
    | some network ↦ contains_ip network source
  ]

  -- The loops over the index and over the destinations of a key.
  unfoldable pub search_index : Assoc Text (List IpNet) → Ip → Ip → Bool
  unfolding source_matches
  search_index index source dest =
      any (λ e. source_matches e.0 source && any (λ n. contains_ip n dest) e.1) index

  abbrev pub count : Bool → FirewallStats → FirewallStats
  count allowed stats =
      if allowed
      then record stats {
        total_checks = stats.total_checks + 1;
        total_allowed = stats.total_allowed + 1;
      }
      else record stats {
        total_checks = stats.total_checks + 1;
        total_blocked = stats.total_blocked + 1;
      }

  abbrev pub decide_index : Assoc Text (List IpNet) → Ip → Ip → Bool
  decide_index [] source dest = true
  decide_index (e ∷ index) source dest = search_index (e ∷ index) source dest

  unfoldable pub indexed_is_allowed : IndexedFirewall → Ip → Ip → Bool × IndexedFirewall
  unfolding search_index
  indexed_is_allowed ifw source dest =
      let allowed = decide_index ifw.index source dest in
      (allowed, record ifw { stats = count allowed ifw.stats })

  -- filterAddressHelper, as a test of one address
  indexed_reachable : Assoc Text (List IpNet) → Ip → Text → Bool
  unfolding search_index
  indexed_reachable index source addr = elim (net.parse_ip (host_part addr)) [
    | none ↦ false
    | some dest ↦ search_index index source dest
  ]

  unfoldable pub indexed_filter_addresses : IndexedFirewall → Ip → List Text → List Text
  unfolding indexed_reachable
  indexed_filter_addresses ifw source addresses = elim ifw.index [
    | [] ↦ addresses
    | _ ↦ keep_if (indexed_reachable ifw.index source) addresses
  ]

abbrev get_firewall_stats : IndexedFirewall → FirewallStats
get_firewall_stats ifw = ifw.stats
