-- ===== src/Dht/Registry/ListenAddr.antt =====
-- What NewDHTRegistry makes of a listen address.
use task_discovery_service.Prelude.{
  ◌≡◌, refl, true, [], ◌∷◌, Text, arith, if◌then◌else◌, Bool-cases, inl, inr, ◌==◌, text_eq,
}
use task_discovery_service.Text.{is_space, trim_space}
use task_discovery_service.Text.Trim.{IsSolid, trim_space_solid, trim_space_idem}
use task_discovery_service.Dht.Registry.{all_digits, normalize_listen_addr}

digits-IsSolid : (s : Text) → all_digits s ≡ true → IsSolid s
unfolding is_space
digits-IsSolid [] h = tt
digits-IsSolid (c ∷ s) h = ground (arith, digits-IsSolid s)

abbrev normal : Text → Text
normal addr = if addr == [] then addr else if all_digits addr then b':' ∷ addr else addr

port-solid : (t : Text) → all_digits t ≡ true → trim_space (b':' ∷ t) ≡ b':' ∷ t
unfolding is_space
port-solid t h = trim_space_solid (b':' ∷ t) (refl, digits-IsSolid t h)

normal-again : (t : Text) → trim_space t ≡ t → normalize_listen_addr (normal t) ≡ normal t
unfolding normalize_listen_addr
normal-again [] e = rw e refl
normal-again (c ∷ s) e = elim (Bool-cases (all_digits (c ∷ s))) [
  | inl h ↦ rw (h, port-solid (c ∷ s) h) refl
  | inr h ↦ rw (h, e, h) refl
]

-- Normalising a second time changes nothing, whatever was given.
normalize-normalize :
    (s : Text) → normalize_listen_addr (normalize_listen_addr s) ≡ normalize_listen_addr s
unfolding normalize_listen_addr
normalize-normalize s = normal-again (trim_space s) (trim_space_idem s)
