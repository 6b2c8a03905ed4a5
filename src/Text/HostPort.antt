-- ===== src/Text/HostPort.antt =====
-- SplitHostPort undoes JoinHostPort, for hosts and ports that hold no separator of their own.
use task_discovery_service.Prelude.{
  drop, ℕ, suc, ◌≡◌, refl, ap, false, none, some, [], ◌∷◌, ◌++◌, Text, arith, Bool-cases, take,
  length, length-append, inl, inr,
}
use task_discovery_service.Text.{
  split_bracketed, contains, index, last_index, split_host_port, join_host_port, has_prefix,
}

module _ (c : ℕ) where
  last_index_absent : (s : Text) → contains c s ≡ false → last_index c s ≡ none
  last_index_absent [] h = refl
  last_index_absent (d ∷ s) h = ground (arith, last_index_absent s)

  last_index-append :
      (s t : Text) → contains c t ≡ false → last_index c (s ++ (c ∷ t)) ≡ some (length s)
  last_index-append [] t h = ground (arith, last_index_absent t h)
  last_index-append (d ∷ s) t h = rw (last_index-append s t h)

  index-append : (s t : Text) → contains c s ≡ false → index c (s ++ (c ∷ t)) ≡ some (length s)
  index-append [] t h = ground arith
  index-append (d ∷ s) t h = ground (arith, index-append s t)

  contains-append :
      (s t : Text) → contains c s ≡ false → contains c t ≡ false → contains c (s ++ t) ≡ false
  contains-append [] t h k = k
  contains-append (d ∷ s) t h k = ground (arith, contains-append s t)

take-length : (s t : Text) → take (length s) (s ++ t) ≡ s
take-length [] t = refl
take-length (c ∷ s) t = ap (◌∷◌ c) (take-length s t)

drop-length : (s t : Text) → drop (length s) (s ++ t) ≡ t
drop-length [] t = refl
drop-length (c ∷ s) t = drop-length s t

-- A host of an address: no bracket in it.
abbrev pub IsHost : Text → Type 0
IsHost h = (contains b'[' h ≡ false) × (contains b']' h ≡ false)

abbrev pub IsPort : Text → Type 0
IsPort p = (contains b':' p ≡ false) × (contains b'[' p ≡ false) × (contains b']' p ≡ false)

not_bracket :
    (h t : Text) → contains b'[' h ≡ false → has_prefix (h ++ (b':' ∷ t)) (b'[' ∷ []) ≡ false
unfolding has_prefix
not_bracket [] t e = refl
not_bracket (c ∷ h) t e = ground arith

drop-suc : (s t : Text) (c : ℕ) → drop (suc (length s)) (s ++ (c ∷ t)) ≡ t
drop-suc [] t c = refl
drop-suc (d ∷ s) t c = drop-suc s t c

split-join_plain :
    (h p : Text)
    → contains b':' h ≡ false
    → IsHost h
    → IsPort p
    → split_host_port (h ++ (b':' ∷ p)) ≡ some (h, p)
unfolding split_host_port
split-join_plain h p e k q =
    rw (last_index-append b':' h p q.0, split_host_port)
      (rw (not_bracket h p k.0) (
        ground (
          arith,
          take-length h (b':' ∷ p),
          contains-append b'[' h (b':' ∷ p) k.0 q.1,
          contains-append b']' h (b':' ∷ p) k.1 q.2,
          drop-suc h p b':',
        )))

drop-suc-suc : (h p : Text) → drop (suc (suc (length h))) (h ++ (b']' ∷ b':' ∷ p)) ≡ p
drop-suc-suc [] p = refl
drop-suc-suc (c ∷ h) p = drop-suc-suc h p

last_index_inner :
    (h p : Text)
    → contains b':' p ≡ false
    → last_index b':' (h ++ (b']' ∷ b':' ∷ p)) ≡ some (suc (length h))
last_index_inner [] p e = ground (arith, last_index_absent b':' p e)
last_index_inner (c ∷ h) p e = rw (last_index_inner h p e)

split-join_bracketed :
    (h p : Text)
    → IsHost h
    → IsPort p
    → split_host_port (b'[' ∷ (h ++ (b']' ∷ b':' ∷ p))) ≡ some (h, p)
unfolding split_host_port has_prefix
split-join_bracketed h p k q =
    rw (last_index_inner h p q.0, split_host_port)
      (rw (index-append b']' h (b':' ∷ p) k.1, split_bracketed)
        (ground (
          arith,
          length-append h (b']' ∷ b':' ∷ p),
          take-length h (b']' ∷ b':' ∷ p),
          contains-append b'[' h (b']' ∷ b':' ∷ p) k.0 q.1,
          drop-suc h (b':' ∷ p) b']',
          drop-suc-suc h p,
        )))

-- SplitHostPort gives back the host and the port that JoinHostPort was given.
pub split-join :
    (h p : Text) → IsHost h → IsPort p → split_host_port (join_host_port h p) ≡ some (h, p)
unfolding join_host_port
split-join h p k q = elim (Bool-cases (contains b':' h)) [
  | inr e ↦ rw e (split-join_plain h p e k q)
  | inl e ↦ rw e (split-join_bracketed h p k q)
]
