-- ===== src/Ip.antt =====
-- The functions of Go's `net` package on addresses and networks that the firewall calls: IP.To4,
-- IP.Equal, CIDRMask and IPNet.Contains. An address is its bytes, and nil is the empty list.
-- Parsing and printing of addresses are fields of `Net`, a parameter of what uses them.
pub mod Single
use Prim.Native.Nat.{bit_and}
use task_discovery_service.Prelude.{
  drop, text_eq, ℕ, Bool, true, false, ◌&&◌, Option, none, some, List, [], ◌∷◌, Text, ◌==◌,
  if◌then◌else◌, nat_beq, length, take, replicate,
}

abbrev pub Ip : Type 0
Ip = List ℕ

pub record IpNet : Type 0 where
  pub ip : Ip
  pub mask : List ℕ

-- What the program calls and the kernel cannot run: ParseIP, the network of ParseCIDR, the host
-- name of a parsed URL, and IPNet.String. `none` is a failure.
pub record Net : Type 0 where
  pub parse_ip : Text → Option Ip
  pub parse_cidr : Text → Option IpNet
  pub url_hostname : Text → Option Text
  pub net_string : IpNet → Text

abbrev v4_in_v6_prefix : List ℕ
v4_in_v6_prefix = 0 ∷ 0 ∷ 0 ∷ 0 ∷ 0 ∷ 0 ∷ 0 ∷ 0 ∷ 0 ∷ 0 ∷ 0xff ∷ 0xff ∷ []

unfoldable pub to4 : Ip → Option Ip
to4 ip =
    if nat_beq (length ip) 4
    then some ip
    else if nat_beq (length ip) 16 && take 12 ip == v4_in_v6_prefix
    then some (drop 12 ip)
    else none

unfoldable pub ip_equal : Ip → Ip → Bool
ip_equal ip x =
    if nat_beq (length ip) (length x)
    then ip == x
    else if nat_beq (length ip) 4 && nat_beq (length x) 16
    then take 12 x == v4_in_v6_prefix && ip == drop 12 x
    else if nat_beq (length ip) 16 && nat_beq (length x) 4
    then take 12 ip == v4_in_v6_prefix && drop 12 ip == x
    else false

abbrev number_with_mask : Ip → List ℕ → Option (Ip × List ℕ)
number_with_mask ip m =
    if nat_beq (length m) 4
    then (if nat_beq (length ip) 4 then some (ip, m) else none)
    else if nat_beq (length m) 16
    then (if nat_beq (length ip) 4 then some (ip, drop 12 m) else some (ip, m))
    else none

-- networkNumberAndMask
network_number_and_mask : IpNet → Option (Ip × List ℕ)
network_number_and_mask n = elim (to4 n.ip) [
  | some ip ↦ number_with_mask ip n.mask
  | none ↦ if nat_beq (length n.ip) 16 then number_with_mask n.ip n.mask else none
]

abbrev masked_equal : List ℕ → List ℕ → List ℕ → Bool
masked_equal (a ∷ nn) (m ∷ ms) (x ∷ ip) =
    nat_beq (bit_and a m) (bit_and x m) && masked_equal nn ms ip
masked_equal nn ms ip = true

abbrev shortest : Ip → Ip
shortest ip = elim (to4 ip) [ some four ↦ four | none ↦ ip ]

abbrev contains_masked : Option (Ip × List ℕ) → Ip → Bool
contains_masked none ip = nat_beq (length ip) 0
contains_masked (some (nn, m)) ip =
    if nat_beq (length ip) (length nn) then masked_equal nn m ip else false

-- IPNet.Contains. For a network whose number and mask do not fit, both are nil.
unfoldable pub contains_ip : IpNet → Ip → Bool
unfolding network_number_and_mask
contains_ip n ip = contains_masked (network_number_and_mask n) (shortest ip)

-- CIDRMask(8 * n, 8 * n)
abbrev pub full_mask : ℕ → List ℕ
full_mask n = replicate n 0xff
