-- ===== src/Tests/Firewalls.antt =====
-- Rules that are loaded, and decisions of the two firewalls.
use task_discovery_service.Prelude.{
  ◌+◌, ◌≡◌, refl, false, none, some, List, [], ◌∷◌, ◌++◌, Text, All, arith, length, inl,
}
use task_discovery_service.Prelude.Result.{ok, err}
use task_discovery_service.Assoc.{lookup, insert}
use task_discovery_service.Text.{codes, is_space, trim_space, has_prefix}
use task_discovery_service.Ip.Single.{IsIp, ip_to_network}
use task_discovery_service.Firewall.{FirewallRule, is_allowed}
use task_discovery_service.Firewall.Load.{
  field_count, at_line, parse_line, load_from_file, fields, parse_rule,
}
use task_discovery_service.Firewall.Load.Lines.{
  IsGood, rules_of, load_from_file-good, load_from_file-bad,
}
use task_discovery_service.Firewall.Indexed.{
  IndexedFirewall, new_indexed_firewall, add_rule, indexed_is_allowed,
}
use task_discovery_service.Firewall.Indexed.Agreement.{IsRule, indexed_is_allowed-is_allowed}
use task_discovery_service.Tests.Samples.{letters, letters-PrintsBack, one_rule}

abcd-IsIp : IsIp (codes "abcd")
abcd-IsIp = record { size = inl refl; bytes = ground arith }

abbrev good_lines : List Text
good_lines = codes "abcd wxyz" ∷ codes "# all" ∷ []

abbrev parsed_rule : FirewallRule
parsed_rule = record {
  source_ip = codes "abcd";
  source_network = none;
  dest_ip = codes "wxyz";
  dest_network = none;
}

good_lines-IsGood : All (IsGood letters) good_lines
unfolding parse_line trim_space is_space has_prefix fields parse_rule
good_lines-IsGood = ((some parsed_rule, refl), ((none, refl), tt))

load_example :
    load_from_file letters (some (record { lines = good_lines; scan_error = false }))
    ≡ ok (record { rules = rules_of letters good_lines good_lines-IsGood })
load_example = load_from_file-good letters good_lines good_lines-IsGood

three-words : parse_line letters (codes "a b c") ≡ err (field_count 3)
unfolding parse_line trim_space is_space has_prefix fields parse_rule
three-words = refl

bad_line_example :
    load_from_file letters
      (some (record { lines = good_lines ++ (codes "a b c" ∷ []); scan_error = false }))
    ≡ err (at_line (length good_lines + 1) (field_count 3))
bad_line_example =
    load_from_file-bad letters good_lines [] (codes "a b c") (field_count 3) false good_lines-IsGood
      three-words

-- The index of the one rule.
abbrev index_of_one : IndexedFirewall
index_of_one = record {
  index =
      (letters.net_string (ip_to_network (codes "abcd")), ip_to_network (codes "abcd") ∷ []) ∷ [];
  stats = record { total_checks = 0; total_allowed = 0; total_blocked = 0; last_reload_time = 0 };
}

rules-IsRule : All IsRule one_rule.rules
rules-IsRule = (record { source = abcd-IsIp; dest = abcd-IsIp }, tt)

one_rule-index : new_indexed_firewall letters (some one_rule.rules) ≡ some index_of_one
unfolding new_indexed_firewall add_rule insert lookup
one_rule-index = refl

indexed_example :
    (indexed_is_allowed letters index_of_one (codes "abcd") (codes "abcd")).0
    ≡ is_allowed one_rule (codes "abcd") (codes "abcd")
indexed_example =
    indexed_is_allowed-is_allowed letters one_rule.rules index_of_one (codes "abcd") (codes "abcd")
      (letters-PrintsBack _, tt) rules-IsRule abcd-IsIp abcd-IsIp one_rule-index
