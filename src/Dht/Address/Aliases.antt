-- ===== src/Dht/Address/Aliases.antt =====
-- The spellings of the local host, and all others, under canonicalAddressForHash.
use task_discovery_service.Prelude.{◌≡◌, refl, ap, sym, ◌∙◌, Text, if◌then◌else◌}
use task_discovery_service.Text.{trim_space, to_lower, join_host_port}
use task_discovery_service.Text.Trim.{IsSolid, trim_space_solid, trim_space_idem}
use task_discovery_service.Text.HostPort.{IsHost, IsPort, split-join}
use task_discovery_service.Dht.{NodeId}
use task_discovery_service.Dht.Address.{
  loopback, is_local, canonical_address_for_hash, hash_address,
}

-- A host and a port that join to an address without spaces.
abbrev pub IsAddress : Text → Text → Type 0
IsAddress h p = IsHost h × IsPort p × IsSolid (join_host_port h p)

canonical-join :
    (h p : Text)
    → IsAddress h p
    → canonical_address_for_hash (join_host_port h p)
      ≡ join_host_port (if is_local (to_lower (trim_space h)) then loopback else h) p
unfolding canonical_address_for_hash
canonical-join h p (host, port, solid) =
    rw (trim_space_solid (join_host_port h p) solid, split-join h p host port) refl

canonical-spaces :
    (s : Text) → canonical_address_for_hash (trim_space s) ≡ canonical_address_for_hash s
unfolding canonical_address_for_hash
canonical-spaces s = rw (trim_space_idem s) refl

module _ (sha256 : Text → NodeId) where
  -- If a text, trimmed, is a host and a port joined, without spaces, brackets or colons in the
  -- port, and without brackets in the host, its hash is that of the two joined, with 127.0.0.1
  -- for the host where it names the local host in any case of letters.
  hash_address-join :
      (s h p : Text)
      → IsAddress h p
      → trim_space s ≡ join_host_port h p
      → hash_address sha256 s
        ≡ sha256 (join_host_port (if is_local (to_lower (trim_space h)) then loopback else h) p)
  unfolding hash_address
  hash_address-join s h p a e =
      ap sha256 (sym (canonical-spaces s) ∙ ap canonical_address_for_hash e ∙ canonical-join h p a)
