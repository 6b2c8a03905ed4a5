-- ===== src/Tests/Samples.antt =====
-- Functions for the parameters of the models, and small states.
use task_discovery_service.Prelude.{
  ℕ, ◌+◌, ◌%◌, ◌≡◌, refl, ap, Option, none, some, List, [], ◌∷◌, ◌++◌, Text, nat_beq, if◌then◌else◌,
  length, take, drop,
}
use task_discovery_service.Text.{codes}
use task_discovery_service.Ip.{IpNet, Net}
use task_discovery_service.Firewall.{Firewall}
use task_discovery_service.Firewall.Indexed.Agreement.{PrintsBack}
use task_discovery_service.Registry.{ServiceEntry}
use task_discovery_service.Registry.Memory.{MemoryRegistry}
use task_discovery_service.Dht.{NodeId}

-- A text of four letters is an address, a network is its length, its number and its mask.
abbrev read_network : Text → Option IpNet
read_network [] = none
read_network (n ∷ s) = some (record { ip = take n s; mask = drop n s })

abbrev pub letters : Net
letters = record {
  parse_ip = λ s. if nat_beq (length s) 4 then some s else none;
  parse_cidr = read_network;
  url_hostname = λ s. none;
  net_string = λ n. length n.ip ∷ (n.ip ++ n.mask);
}

pub take-all : (s t : Text) → take (length s) (s ++ t) ≡ s
take-all [] t = refl
take-all (c ∷ s) t = ap (◌∷◌ c) (take-all s t)

pub drop-all : (s t : Text) → drop (length s) (s ++ t) ≡ t
drop-all [] t = refl
drop-all (c ∷ s) t = drop-all s t

pub letters-PrintsBack : (n : IpNet) → PrintsBack letters n
letters-PrintsBack n = (
  record { ip = take (length n.ip) (n.ip ++ n.mask); mask = drop (length n.ip) (n.ip ++ n.mask) },
  refl,
  λ ip. rw (take-all n.ip n.mask, drop-all n.ip n.mask) refl,
)

-- A hash with values below 100.
abbrev pub digest : Text → NodeId
digest [] = 7
digest (c ∷ s) = (c + digest s) % 100

abbrev pub gate : Text
gate = codes "gate"

abbrev pub entry : Text → ℕ → ℕ → ServiceEntry
entry addr now capacity = record {
  address = addr;
  last_heartbeat = now;
  query_count = 0;
  capacity = capacity;
}

abbrev pub two_entries : List ServiceEntry
two_entries = entry (codes "abcd:80") 5 2 ∷ entry (codes "wxyz:80") 9 1 ∷ []

-- Only letters from abcd may reach abcd.
abbrev pub one_rule : Firewall
one_rule = record {
  rules =
      record {
        source_ip = codes "abcd";
        source_network = none;
        dest_ip = codes "abcd";
        dest_network = none;
      }
      ∷ [];
}

abbrev pub open_registry : MemoryRegistry
open_registry = record {
  services = (gate, two_entries) ∷ [];
  round_robin_index = [];
  query_counters = [];
  total_queries = 0;
  firewall = none;
}

abbrev pub guarded_registry : MemoryRegistry
guarded_registry = record open_registry { firewall = some one_rule }
