-- ===== src/Firewall/Indexed/Agreement.antt =====
-- The indexed firewall decides as the list of rules does.
use task_discovery_service.Prelude.{
  ◌≡◌, refl, ◌∙◌, ◌≢◌, Bool, ◌&&◌, ◌||◌, Option, none, some, List, [], ◌∷◌, ◌++◌, Text, arith, any,
  All, text_eq, text_beq_iff,
}
use task_discovery_service.Assoc.{Assoc, lookup, insert}
use task_discovery_service.Ip.{Ip, IpNet, Net, contains_ip}
use task_discovery_service.Ip.Single.{IsIp, contains-ip_to_network}
use task_discovery_service.Firewall.{
  matches, FirewallRule, is_allowed, matches_source, matches_dest,
}
use task_discovery_service.Firewall.Indexed.{
  IndexedFirewall, decide_index, or_nil, network_or_single, get_source_key, add_rule, build_index,
  source_matches, search_index, indexed_is_allowed, new_indexed_firewall,
}

-- A side of a rule: a network, or an address.
abbrev pub IsSide : Option IpNet → Ip → Type 0
IsSide (some network) ip = Unit
IsSide none ip = IsIp ip

pub record IsRule (rule : FirewallRule) : Type 0 where
  pub source : IsSide rule.source_network rule.source_ip
  pub dest : IsSide rule.dest_network rule.dest_ip

-- The text of a network is parsed to a network with the same addresses.
abbrev pub PrintsBack : Net → IpNet → Type 0
PrintsBack net n =
    (m : IpNet) × (net.parse_cidr (net.net_string n) ≡ some m)
    × ((ip : Ip) → contains_ip m ip ≡ contains_ip n ip)

-- The network whose text is the key of a rule's source.
abbrev pub source_net : FirewallRule → IpNet
source_net rule = network_or_single rule.source_network rule.source_ip

any-append {ℓ} :
    {A : Type ℓ} (p : A → Bool) (xs ys : List A) → any p (xs ++ ys) ≡ (any p xs || any p ys)
any-append p [] ys = refl
any-append p (x ∷ xs) ys = ground (arith, any-append p xs ys)

module _ (net : Net) (source dest : Ip) where
  abbrev search : Assoc Text (List IpNet) → Bool
  search index = search_index net index source dest

  search-insert :
      (key : Text) (n : IpNet) (index : Assoc Text (List IpNet))
      → search (insert key (or_nil (lookup key index) ++ (n ∷ [])) index)
        ≡ (search index || (source_matches net key source && contains_ip n dest))
  unfolding search_index insert lookup
  search-insert key n [] = ground arith
  search-insert key n ((j, w) ∷ index) = ground (
    arith,
    text_beq_iff j key,
    any-append (λ m. contains_ip m dest) w (n ∷ []),
    search-insert key n index,
  )

  module _ (s : IsIp source) (d : IsIp dest) where
    key_matches :
        (n : IpNet)
        → PrintsBack net n
        → source_matches net (net.net_string n) source ≡ contains_ip n source
    unfolding source_matches
    key_matches n (m, parsed, same) = rw (parsed, source_matches) (same source)

    side :
        (o : Option IpNet) (ip x : Ip)
        → IsSide o ip
        → IsIp x
        → contains_ip (network_or_single o ip) x ≡ matches o ip x
    side (some n) ip x h k = refl
    side none ip x h k = contains-ip_to_network ip x h k

    abbrev allows : FirewallRule → Bool
    allows rule = matches_source rule source && matches_dest rule dest

    search-add_rule :
        (rule : FirewallRule) (index : Assoc Text (List IpNet))
        → PrintsBack net (source_net rule)
        → IsRule rule
        → search (add_rule net rule index) ≡ (search index || allows rule)
    unfolding add_rule matches_source matches_dest
    search-add_rule rule index p h = rw (
      search-insert (get_source_key net rule) (network_or_single rule.dest_network rule.dest_ip)
          index,
      key_matches (source_net rule) p,
      side rule.source_network rule.source_ip source h.source s,
      side rule.dest_network rule.dest_ip dest h.dest d,
    )

    search-build_index :
        (rules : List FirewallRule) (index : Assoc Text (List IpNet))
        → All (λ rule. PrintsBack net (source_net rule)) rules
        → All IsRule rules
        → search (build_index net rules index) ≡ (search index || any allows rules)
    unfolding build_index
    search-build_index [] index p h = ground arith
    search-build_index (rule ∷ rules) index p h = ground (
      arith,
      search-build_index rules (add_rule net rule index) p.1 h.1,
      search-add_rule rule index p.0 h.0,
    )

insert-ne-nil : (k : Text) (v : List IpNet) (m : Assoc Text (List IpNet)) → insert k v m ≢ []
unfolding insert
insert-ne-nil k v [] = λ e. cc
insert-ne-nil k v ((j, w) ∷ m) = λ e. ground arith

add_rule-ne-nil : (net : Net) (rule : FirewallRule) → add_rule net rule [] ≢ []
unfolding add_rule
add_rule-ne-nil net rule = insert-ne-nil _ _ []

build_index-ne-nil :
    (net : Net) (rules : List FirewallRule) (index : Assoc Text (List IpNet))
    → index ≢ []
    → build_index net rules index ≢ []
unfolding build_index add_rule
build_index-ne-nil net [] index h = h
build_index-ne-nil net (rule ∷ rules) index h =
    build_index-ne-nil net rules (add_rule net rule index) (insert-ne-nil _ _ index)

decide-search :
    (net : Net) (index : Assoc Text (List IpNet)) (source dest : Ip)
    → index ≢ []
    → decide_index net index source dest ≡ search_index net index source dest
decide-search net [] source dest h = absurd (h refl)
decide-search net (e ∷ index) source dest h = refl

decide-build_index :
    (net : Net) (rules : List FirewallRule) (source dest : Ip)
    → All (λ rule. PrintsBack net (source_net rule)) rules
    → All IsRule rules
    → IsIp source
    → IsIp dest
    → decide_index net (build_index net rules []) source dest
      ≡ is_allowed (record { rules = rules }) source dest
unfolding build_index is_allowed search_index
decide-build_index net [] source dest p h s d = refl
decide-build_index net (r ∷ rules) source dest p h s d =
    decide-search net _ source dest
      (build_index-ne-nil net rules (add_rule net r []) (add_rule-ne-nil net r))
    ∙ search-build_index net source dest s d (r ∷ rules) [] p h

-- An indexed firewall built from well-formed rules, whose own sources, as networks, are read back
-- from their texts, allows a source and a destination, both addresses of 4 or 16 bytes, exactly if the
-- firewall with the list of these rules does.
pub indexed_is_allowed-is_allowed :
    (net : Net) (rules : List FirewallRule) (ifw : IndexedFirewall) (source dest : Ip)
    → All (λ rule. PrintsBack net (source_net rule)) rules
    → All IsRule rules
    → IsIp source
    → IsIp dest
    → new_indexed_firewall net (some rules) ≡ some ifw
    → (indexed_is_allowed net ifw source dest).0 ≡ is_allowed (record { rules = rules }) source dest
unfolding new_indexed_firewall indexed_is_allowed
indexed_is_allowed-is_allowed net rules ifw source dest p h s d e =
    ground (arith, decide-build_index net rules source dest p h s d)
