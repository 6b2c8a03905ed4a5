-- ===== src/Registry/Weights.antt =====
-- pkg/registry/memory.go: the weights of entries and the choice of one by a slot.
use task_discovery_service.Prelude.{
  ℕ, ◌+◌, ◌-◌, ◌<◌, ◌%◌, ◌≡◌, refl, sym, ap, Option, none, some, List, [], ◌∷◌, ◌++◌, Text, arith,
  if◌then◌else◌, ltb, length, get_elem?, replicate, length-append, length-replicate,
  get_elem?-append_left, get_elem?-append_right, get_elem?-replicate, Bool-cases, inl, inr, ◌∙◌,
}
use task_discovery_service.Word.{
  int64_mod, int64_half, add64, nonpos, lt64, add64_small, lt64_small,
}
use task_discovery_service.Registry.{ServiceEntry}

unfoldable pub service_weight : ServiceEntry → ℕ
service_weight entry = if nonpos entry.capacity then 1 else entry.capacity

abbrev pub total_from : ℕ → List ServiceEntry → ℕ
total_from total [] = total
total_from total (entry ∷ entries) = total_from (add64 total (service_weight entry)) entries

unfoldable pub total_service_weight : List ServiceEntry → ℕ
unfolding service_weight
total_service_weight entries = total_from 0 entries

-- The loop of selectWeightedAddress.
abbrev pub select_from : ℕ → List ServiceEntry → ℕ → Option Text
select_from running [] slot = none
select_from running (entry ∷ entries) slot =
    let running' = add64 running (service_weight entry) in
    let rest = select_from running' entries slot in
    if lt64 slot running' then some entry.address else rest

unfoldable pub select_weighted_address : List ServiceEntry → ℕ → Option Text
unfolding service_weight
select_weighted_address entries slot = select_from 0 entries slot

-- The plain sum of the weights, and the pool that the code does not build: each address as often
-- as its weight says.
abbrev pub weight_sum : List ServiceEntry → ℕ
weight_sum [] = 0
weight_sum (entry ∷ entries) = service_weight entry + weight_sum entries

abbrev pub weighted_pool : List ServiceEntry → List Text
weighted_pool [] = []
weighted_pool (entry ∷ entries) =
    replicate (service_weight entry) entry.address ++ weighted_pool entries

-- Every weight is at least one.
pub service_weight_pos : (entry : ServiceEntry) → 0 < service_weight entry
unfolding service_weight nonpos
service_weight_pos entry = ground arith

pub length-weighted_pool :
    (entries : List ServiceEntry) → length (weighted_pool entries) ≡ weight_sum entries
length-weighted_pool [] = refl
length-weighted_pool (entry ∷ entries) = omega (
  arith,
  length-append (replicate (service_weight entry) entry.address) (weighted_pool entries),
  length-replicate (service_weight entry) entry.address,
  length-weighted_pool entries,
)

total_from-add :
    (total : ℕ) (entries : List ServiceEntry)
    → total + weight_sum entries < int64_half
    → total_from total entries ≡ total + weight_sum entries
total_from-add total [] h = omega arith
total_from-add total (entry ∷ entries) h =
    rw (add64_small total (service_weight entry) (omega arith))
      (omega (arith, total_from-add (total + service_weight entry) entries (omega arith)))

total_from-mod :
    (total : ℕ) (entries : List ServiceEntry)
    → total < int64_mod
    → total_from total entries ≡ (total + weight_sum entries) % int64_mod
unfolding add64
total_from-mod total [] h = omega arith
total_from-mod total (entry ∷ entries) h =
    let w = service_weight entry in
    omega (arith, total_from-mod ((total + w) % int64_mod) entries (omega arith))

-- In general the total is the sum, wrapped.
pub total_service_weight-mod :
    (entries : List ServiceEntry) → total_service_weight entries ≡ weight_sum entries % int64_mod
unfolding total_service_weight
total_service_weight-mod entries = omega (arith, total_from-mod 0 entries (omega arith))

-- Without an overflow the total is the sum.
pub total_service_weight_lem :
    (entries : List ServiceEntry)
    → weight_sum entries < int64_half
    → total_service_weight entries ≡ weight_sum entries
unfolding total_service_weight
total_service_weight_lem entries h = omega (arith, total_from-add 0 entries (omega arith))

get_elem?-offset {ℓ} :
    {A : Type ℓ} (xs ys : List A) (n i : ℕ)
    → length xs ≡ n
    → get_elem? (xs ++ ys) (n + i) ≡ get_elem? ys i
get_elem?-offset xs ys n i e = rw (← e) (get_elem?-append_right xs ys i)

select_from-pool :
    (running : ℕ) (entries : List ServiceEntry) (slot : ℕ)
    → running + weight_sum entries < int64_half
    → running + slot < int64_half
    → select_from running entries (running + slot) ≡ get_elem? (weighted_pool entries) slot
select_from-pool running [] slot h k = refl
select_from-pool running (entry ∷ entries) slot h k =
    rw
      (
        add64_small running (service_weight entry) (omega arith),
        lt64_small (running + slot) (running + service_weight entry) (omega arith) (omega arith),
      )
      (elim (Bool-cases (ltb (running + slot) (running + service_weight entry))) [
        | inl e ↦
            let at : slot < service_weight entry = ground arith in
            rw e (
              sym (
                get_elem?-append_left (replicate (service_weight entry) entry.address)
                  (weighted_pool entries) slot
                  (omega (arith, length-replicate (service_weight entry) entry.address))
                ∙ get_elem?-replicate (service_weight entry) entry.address slot at))
        | inr e ↦
            let i = slot - service_weight entry in
            let f : slot ≡ service_weight entry + i = ground arith in
            rw e (
              later i (omega arith) f (
                select_from-pool (running + service_weight entry) entries i (omega arith)
                  (omega arith)))
      ])
  where
    later :
        (i : ℕ)
        → running + slot ≡ running + service_weight entry + i
        → slot ≡ service_weight entry + i
        → select_from (running + service_weight entry) entries (running + service_weight entry + i)
          ≡ get_elem? (weighted_pool entries) i
        → select_from (running + service_weight entry) entries (running + slot)
          ≡ get_elem? (weighted_pool (entry ∷ entries)) slot
    later i e f r =
        rw (e, f)
          (r
            ∙ sym (
                get_elem?-offset (replicate (service_weight entry) entry.address)
                  (weighted_pool entries) (service_weight entry) i
                  (length-replicate (service_weight entry) entry.address)))

-- If the weights add up to less than 2 ^ 63 and the slot is below 2 ^ 63, choosing by the slot
-- reads its place in the list that has each address as often as its weight says, and fails
-- behind the end of that list.
pub select-pool :
    (entries : List ServiceEntry) (slot : ℕ)
    → weight_sum entries < int64_half
    → slot < int64_half
    → select_weighted_address entries slot ≡ get_elem? (weighted_pool entries) slot
unfolding select_weighted_address
select-pool entries slot h k =
    ap (select_from 0 entries) (omega arith)
    ∙ select_from-pool 0 entries slot (omega arith) (omega arith)
