-- ===== src/Firewall/Load.antt =====
-- pkg/firewall/firewall.go, LoadFromFile and parseRule. The file is its lines as the scanner gives
-- them, with whether the scan stopped with an error; `none` is a file that does not open.
pub mod Lines
use task_discovery_service.Prelude.{
  ℕ, suc, ◌+◌, Bool, true, false, ◌||◌, Option, none, some, List, [], ◌∷◌, ◌++◌, Text, ◌==◌,
  text_eq, if◌then◌else◌, length,
}
use task_discovery_service.Prelude.Result.{Result, ok, err, ◌>>=◌}
use task_discovery_service.Text.{is_space, trim_space, has_prefix, contains}
use task_discovery_service.Ip.{Ip, IpNet, Net}
use task_discovery_service.Firewall.{Firewall, FirewallRule}

pub data RuleError : Type 0 where
  invalid_source_cidr invalid_source_ip invalid_dest_cidr invalid_dest_ip : Text → RuleError

pub data LineError : Type 0 where
  field_count : ℕ → LineError
  bad_rule : RuleError → LineError

pub data LoadError : Type 0 where
  open_failed scan_failed : LoadError
  at_line : ℕ → LineError → LoadError

pub record RulesFile : Type 0 where
  pub lines : List Text
  pub scan_error : Bool

abbrev pub push_word : Text → List Text → List Text
push_word [] ws = ws
push_word (c ∷ w) ws = (c ∷ w) ∷ ws

-- The word that a text begins with, and the words behind it.
abbrev pub split_words : Text → Text × List Text
split_words [] = ([], [])
split_words (c ∷ s) =
    let rest = split_words s in
    if is_space c then ([], push_word rest.0 rest.1) else (c ∷ rest.0, rest.1)

-- strings.Fields
unfoldable pub fields : Text → List Text
fields s = let rest = split_words s in push_word rest.0 rest.1

abbrev or_error {ℓ} : {A E : Type ℓ} → Option A → E → Result E A
or_error none e = err e
or_error (some a) e = ok a

module _ (net : Net) where
  -- One side of a rule: its network, or its address with no network.
  parse_side : Text → RuleError → RuleError → Result RuleError (Ip × Option IpNet)
  parse_side s bad_cidr bad_ip =
      if contains b'/' s
      then (do network ← or_error (net.parse_cidr s) bad_cidr; ok ([], some network))
      else (do ip ← or_error (net.parse_ip s) bad_ip; ok (ip, none))

  unfoldable pub parse_rule : Text → Text → Result RuleError FirewallRule
  unfolding parse_side
  parse_rule source dest = do
    (source_ip, source_network) ←
        parse_side source (invalid_source_cidr source) (invalid_source_ip source)
    (dest_ip, dest_network) ← parse_side dest (invalid_dest_cidr dest) (invalid_dest_ip dest)
    ok (record {
      source_ip = source_ip;
      source_network = source_network;
      dest_ip = dest_ip;
      dest_network = dest_network;
    })

  abbrev pub rule_of_result : Result RuleError FirewallRule → Result LineError (Option FirewallRule)
  rule_of_result (ok rule) = ok (some rule)
  rule_of_result (err e) = err (bad_rule e)

  abbrev pub rule_of_parts : List Text → Result LineError (Option FirewallRule)
  rule_of_parts (source ∷ dest ∷ []) = rule_of_result (parse_rule source dest)
  rule_of_parts parts = err (field_count (length parts))

  -- One line: `none` is an empty line or a comment.
  unfoldable pub parse_line : Text → Result LineError (Option FirewallRule)
  unfolding parse_rule fields
  parse_line text =
      let line = trim_space text in
      if line == [] || has_prefix line (b'#' ∷ []) then ok none else rule_of_parts (fields line)

  abbrev add_parsed : Option FirewallRule → List FirewallRule → List FirewallRule
  add_parsed none rules = rules
  add_parsed (some rule) rules = rules ++ (rule ∷ [])

  -- The loop over the lines; `n` is the number of the last line that was read.
  unfoldable pub load_lines :
      ℕ → List Text → List FirewallRule → Result LoadError (List FirewallRule)
  load_lines n [] rules = ok rules
  load_lines n (text ∷ texts) rules = elim (parse_line text) [
    | err e ↦ err (at_line (suc n) e)
    | ok parsed ↦ load_lines (suc n) texts (add_parsed parsed rules)
  ]

  unfoldable pub load_from_file : Option RulesFile → Result LoadError Firewall
  unfolding load_lines
  load_from_file none = err open_failed
  load_from_file (some file) = do
    rules ← load_lines 0 file.lines []
    if file.scan_error then err scan_failed else ok (record { rules = rules })
