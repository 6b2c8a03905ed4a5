-- ===== src/Dht/Network/Store/Queue.antt =====
-- The queue of the loop of Store: how it grows when the suggestions of a peer are followed.
use task_discovery_service.Prelude.{
  ℕ, suc, ◌+◌, ◌≤◌, ◌≡◌, ◌⊎◌, refl, sym, ap, subst, true, false, not, List, [], ◌∷◌, ◌++◌, Text,
  text_eq, text_beq, text_beq_iff, if_both, ltb, arith, length, keep_if, All, length-append,
  All-append, Bool-cases, inl, inr,
}
use task_discovery_service.Dht.{NodeId, Dht}
use task_discovery_service.Dht.Address.{hash_address}
use task_discovery_service.Dht.Ring.{distance, add_peer}
use task_discovery_service.Dht.Network.Store.{is_attempted, queue_closer}

abbrev pub IsIn : List Text → Text → Type 0
IsIn known addr = is_attempted addr known ≡ true

-- The addresses of a list that are not yet attempted.
abbrev pub unseen : List Text → List Text → ℕ
unseen known attempted = length (keep_if (λ addr. not (is_attempted addr attempted)) known)

pub unseen_le :
    (known attempted : List Text) (addr : Text)
    → unseen known (addr ∷ attempted) ≤ unseen known attempted
unseen_le [] attempted addr = omega arith
unseen_le (u ∷ known) attempted addr = ground (arith, unseen_le known attempted addr)

pub unseen_lt :
    (known attempted : List Text) (addr : Text)
    → IsIn known addr
    → is_attempted addr attempted ≡ false
    → suc (unseen known (addr ∷ attempted)) ≤ unseen known attempted
unseen_lt [] attempted addr h s = absurd (ground arith)
unseen_lt (u ∷ known) attempted addr h s = ground (
  arith,
  unseen_le known attempted addr,
  unseen_lt known attempted addr,
  text_beq_iff addr u,
  text_beq_iff u addr,
)

pub unseen_nil : (known : List Text) → unseen known [] ≡ length known
unseen_nil [] = refl
unseen_nil (u ∷ known) = ap suc (unseen_nil known)

IsIn-append_left : (queue more : List Text) (a : Text) → IsIn queue a → IsIn (queue ++ more) a
IsIn-append_left [] more a h = absurd (ground arith)
IsIn-append_left (q ∷ queue) more a h = ground (arith, IsIn-append_left queue more a)

IsIn-cons :
    (addr : Text) (queue : List Text) (a : Text) → IsIn (addr ∷ queue) a → (a ≡ addr) ⊎ IsIn queue a
IsIn-cons addr queue a h = elim (Bool-cases (text_beq a addr)) [
  | inl e ↦ inl ((text_beq_iff a addr).0 e)
  | inr e ↦ inr (ground arith)
]

pub IsIn-head : (addr : Text) (queue : List Text) → IsIn (addr ∷ queue) addr
IsIn-head addr queue = ground (arith, text_beq_iff addr addr)

pub IsIn-tail : (addr : Text) (queue : List Text) (a : Text) → IsIn queue a → IsIn (addr ∷ queue) a
IsIn-tail addr queue a h = ground arith

pub IsIn-seen :
    (addr : Text) (queue attempted : List Text)
    → IsIn attempted addr
    → (a : Text) → (IsIn (addr ∷ queue) a ⊎ IsIn attempted a)
    → (IsIn queue a ⊎ IsIn attempted a)
IsIn-seen addr queue attempted i a (inr w) = inr w
IsIn-seen addr queue attempted i a (inl w) = elim (IsIn-cons addr queue a w) [
  | inl e ↦ inr (rw e i)
  | inr w' ↦ inl w'
]

pub ended : (attempted : List Text) (a : Text) → (IsIn [] a ⊎ IsIn attempted a) → IsIn attempted a
ended attempted a (inl w) = absurd (ground arith)
ended attempted a (inr w) = w

pub IsIn-new :
    (addr : Text) (queue queue' attempted : List Text)
    → ((a : Text) → IsIn queue a → IsIn queue' a)
    → (a : Text) → (IsIn (addr ∷ queue) a ⊎ IsIn attempted a)
    → (IsIn queue' a ⊎ IsIn (addr ∷ attempted) a)
IsIn-new addr queue queue' attempted f a (inr w) = inr (IsIn-tail addr attempted a w)
IsIn-new addr queue queue' attempted f a (inl w) = elim (IsIn-cons addr queue a w) [
  | inl e ↦ inr (subst (IsIn (addr ∷ attempted)) (sym e) (IsIn-head addr attempted))
  | inr w' ↦ inl (f a w')
]

-- What becomes of the queue when an address is contacted: it grows by the addresses of the list
-- `known`, by at most `limit` of them.
pub record Grows (known : List Text) (limit : ℕ) (queue queue' : List Text) : Type 0 where
  pub within : All (IsIn known) queue → All (IsIn known) queue'
  pub bounded : length queue' ≤ length queue + limit
  pub kept : (a : Text) → IsIn queue a → IsIn queue' a

pub Grows-same : (known : List Text) (limit : ℕ) (queue : List Text) → Grows known limit queue queue
Grows-same known limit queue = record { within = λ h. h; bounded = omega arith; kept = λ a h. h }

Grows-by :
    (known : List Text) (limit : ℕ) (queue queue' : List Text) (addr : Text)
    → IsIn known addr
    → Grows known limit (queue ++ (addr ∷ [])) queue'
    → Grows known (suc limit) queue queue'
Grows-by known limit queue queue' addr i g = record {
  within = λ h. g.within (All-append (IsIn known) queue (addr ∷ []) h (i, tt));
  bounded = omega (arith, g.bounded, length-append queue (addr ∷ []));
  kept = λ a h. g.kept a (IsIn-append_left queue (addr ∷ []) a h);
}

pub Grows-more :
    (known : List Text) (limit more : ℕ) (queue queue' : List Text)
    → limit ≤ more
    → Grows known limit queue queue'
    → Grows known more queue queue'
Grows-more known limit more queue queue' h g = record {
  within = g.within;
  bounded = omega (arith, g.bounded);
  kept = g.kept;
}

module _ (sha256 : Text → NodeId) (known : List Text) where
  pub queue_closer-Grows :
      (task_hash : NodeId) (farthest now : ℕ) (attempted suggested queue : List Text) (d : Dht)
      → All (IsIn known) suggested
      → Grows known
          (length suggested)
          queue
          (queue_closer sha256 task_hash farthest now attempted suggested queue d).0
  unfolding queue_closer
  queue_closer-Grows task_hash farthest now attempted [] queue d h = Grows-same known 0 queue
  queue_closer-Grows task_hash farthest now attempted (addr ∷ suggested) queue d h =
      let n = length suggested in
      let d' = add_peer sha256 addr now d in
      let after : List Text → List Text =
        λ q. (queue_closer sha256 task_hash farthest now attempted suggested q d').0 in
      let next : (q : List Text) → Grows known n q (after q) =
        λ q. queue_closer-Grows task_hash farthest now attempted suggested q d' h.1 in
      let same = Grows-more known n (suc n) queue _ (omega arith) (next queue) in
      let IsNext : List Text → Type 0 = λ q. Grows known (suc n) queue (after q) in
      if_both IsNext (is_attempted addr attempted) queue _ same (
        if_both IsNext (ltb (distance task_hash (hash_address sha256 addr)) farthest) _ queue
          (Grows-by known n queue _ addr h.0 (next (queue ++ (addr ∷ [])))) same)
