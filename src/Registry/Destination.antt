-- ===== src/Registry/Destination.antt =====
-- pkg/registry/memory.go, destinationIPFromAddress: the address that a registered text leads to.
use task_discovery_service.Prelude.{
  ℕ, Bool, ◌||◌, Option, none, some, [], ◌∷◌, Text, ◌==◌, text_eq, nat_beq, if◌then◌else◌,
}
use task_discovery_service.Text.{trim_space, has_prefix, codes, split_host_port}
use task_discovery_service.Ip.{Ip, Net}

-- strings.Contains
has_infix : Text → Text → Bool
has_infix [] p = has_prefix [] p
has_infix (c ∷ s) p = has_prefix (c ∷ s) p || has_infix s p

is_bracket : ℕ → Bool
is_bracket c = nat_beq c b'[' || nat_beq c b']'

-- strings.Trim(s, "[]")
trim_brackets_left : Text → Text
unfolding is_bracket
trim_brackets_left [] = []
trim_brackets_left (c ∷ s) = let rest = trim_brackets_left s in if is_bracket c then rest else c ∷ s

abbrev put_back : ℕ → Text → Text
put_back c [] = if is_bracket c then [] else c ∷ []
put_back c (d ∷ t) = c ∷ d ∷ t

trim_brackets_right : Text → Text
unfolding is_bracket
trim_brackets_right [] = []
trim_brackets_right (c ∷ s) = put_back c (trim_brackets_right s)

module _ (net : Net) where
  abbrev ip_of_name : Option Text → Option Ip
  ip_of_name none = none
  ip_of_name (some name) =
      let host = trim_space name in if host == [] then none else net.parse_ip host

  -- The host of a URL; `none` goes on with the next form.
  ip_of_url : Text → Option Ip
  unfolding has_infix
  ip_of_url addr = if has_infix addr (codes "://") then ip_of_name (net.url_hostname addr) else none

  ip_of_pair : Option (Text × Text) → Option Ip
  unfolding trim_brackets_left trim_brackets_right
  ip_of_pair none = none
  ip_of_pair (some (host, _)) = net.parse_ip (trim_brackets_right (trim_brackets_left host))

  abbrev or_else {ℓ} : {A : Type ℓ} → Option A → Option A → Option A
  or_else none other = other
  or_else (some a) other = some a

  unfoldable pub destination_ip_from_address : Text → Option Ip
  unfolding ip_of_url ip_of_pair
  destination_ip_from_address address =
      let addr = trim_space address in
      if addr == []
      then none
      else or_else (ip_of_url addr)
          (or_else (ip_of_pair (split_host_port addr)) (net.parse_ip addr))
