-- ===== src/Firewall.antt =====
-- pkg/firewall/firewall.go: rules, the decision and the filter of addresses.
pub mod Load
pub mod Indexed
use task_discovery_service.Prelude.{
  ℕ, Bool, true, false, ◌&&◌, Option, none, some, List, [], ◌∷◌, Text, ◌==◌, if◌then◌else◌, any,
  keep_if, length,
}
use task_discovery_service.Ip.{Ip, IpNet, Net, ip_equal, contains_ip}
use task_discovery_service.Text.{split_host_port}

-- An empty `source_ip` or `dest_ip` is nil.
pub record FirewallRule : Type 0 where
  pub source_ip : Ip
  pub source_network : Option IpNet
  pub dest_ip : Ip
  pub dest_network : Option IpNet

pub record Firewall : Type 0 where
  pub rules : List FirewallRule

abbrev pub matches : Option IpNet → Ip → Ip → Bool
matches (some network) ip x = contains_ip network x
matches none ip x = ip_equal ip x

unfoldable pub matches_source : FirewallRule → Ip → Bool
matches_source rule ip = matches rule.source_network rule.source_ip ip

unfoldable pub matches_dest : FirewallRule → Ip → Bool
matches_dest rule ip = matches rule.dest_network rule.dest_ip ip

unfoldable pub is_allowed : Firewall → Ip → Ip → Bool
unfolding matches_source matches_dest
is_allowed fw source dest = elim fw.rules [
  | [] ↦ true
  | r ∷ rs ↦ any (λ rule. matches_source rule source && matches_dest rule dest) (r ∷ rs)
]

-- The host part of "host:port", or the whole text where it has no such form.
unfoldable pub host_part : Text → Text
host_part addr = elim (split_host_port addr) [ some (host, _) ↦ host | none ↦ addr ]

module _ (net : Net) where
  -- The test of one address: its host must be an address, and allowed.
  reachable : (Ip → Bool) → Text → Bool
  reachable allowed addr = elim (net.parse_ip (host_part addr)) [
    | none ↦ false
    | some ip ↦ allowed ip
  ]

  unfoldable pub filter_addresses : Firewall → Ip → List Text → List Text
  unfolding reachable
  filter_addresses fw source addresses = elim fw.rules [
    | [] ↦ addresses
    | _ ↦ keep_if (reachable (is_allowed fw source)) addresses
  ]

unfoldable pub rule_count : Firewall → ℕ
rule_count fw = length fw.rules

-- LoadFromProvider, with the rules that the provider gives; `none` is its error.
abbrev load_from_provider : Option (List FirewallRule) → Option Firewall
load_from_provider none = none
load_from_provider (some rules) = some (record { rules = rules })
