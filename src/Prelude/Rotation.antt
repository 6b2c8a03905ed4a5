-- ===== src/Prelude/Rotation.antt =====
-- A cursor that runs once around a list meets each of its elements once.
use mathlib.Core.List.Perm
use task_discovery_service.Prelude.Lists.{length, get_elem?, take, drop, take_all, take-append-drop}
use Prim.Native.Nat.{ℕ, zero, suc, ◌+◌, ◌-◌, ◌%◌, ◌≤◌, ◌<◌}
use mathlib.Core.Path.{◌≡◌, refl, ap, ap₂, ◌∙◌}
use mathlib.Core.List.{List, [], ◌∷◌, ◌++◌, map, map-append, Perm, perm_append_comm}
use mathlib.Core.Option.{Option, some}
use native.Mathlib.Omega.{arith}

suc_add : (j k : ℕ) → suc j + k ≡ suc (j + k)
suc_add j k = omega arith

pub mod_suc : (c n r : ℕ) → c % n ≡ r → suc r < n → (c + 1) % n ≡ suc r
mod_suc c n r e h = grind arith

pub mod_wrap : (c n r : ℕ) → 0 < n → c % n ≡ r → (c + (n - r)) % n ≡ 0
mod_wrap c n r h e = grind arith

module _ {ℓ} {A : Type ℓ} where
  -- What a cursor reads that stands at `c` and moves `k` times.
  abbrev pub walk : List A → ℕ → ℕ → List (Option A)
  walk pool zero c = []
  walk pool (suc k) c = get_elem? pool (c % length pool) ∷ walk pool k (c + 1)

  drop_get :
      (r : ℕ) (pool : List A)
      → r < length pool
      → (x : A) × (get_elem? pool r ≡ some x) × (drop r pool ≡ x ∷ drop (suc r) pool)
  drop_get r [] h = absurd (omega arith)
  drop_get zero (x ∷ pool) h = (x, refl, refl)
  drop_get (suc r) (x ∷ pool) h = drop_get r pool (omega arith)

  slice_cons :
      (pool : List A) (r : ℕ) (x : A) (k : ℕ) (later : List (Option A))
      → get_elem? pool r ≡ some x
      → drop r pool ≡ x ∷ drop (suc r) pool
      → later ≡ map some (take k (drop (suc r) pool))
      → get_elem? pool r ∷ later ≡ map some (take (suc k) (drop r pool))
  slice_cons pool r x k later at rest e = rw (rest, at) (ap (◌∷◌ (some x)) e)

  walk-slice :
      (pool : List A) (k c r : ℕ)
      → c % length pool ≡ r
      → 0 < length pool
      → r + k ≤ length pool
      → walk pool k c ≡ map some (take k (drop r pool))
  walk-slice pool zero c r e p h = refl
  walk-slice pool (suc zero) c r e p h =
      let (x, at, rest) = drop_get r pool (omega arith) in
      ap (λ i. get_elem? pool i ∷ []) e ∙ slice_cons pool r x zero [] at rest refl
  walk-slice pool (suc (suc k)) c r e p h =
      let (x, at, rest) = drop_get r pool (omega arith) in
      let later = walk pool (suc k) (c + 1) in
      ap (λ i. get_elem? pool i ∷ later) e
      ∙ slice_cons pool r x (suc k) later at rest (
          walk-slice pool (suc k) (c + 1) (suc r) (mod_suc c (length pool) r e (omega arith)) p
            (omega arith))

  walk-append :
      (pool : List A) (j k c : ℕ) → walk pool (j + k) c ≡ walk pool j c ++ walk pool k (c + j)
  walk-append pool zero k c = ap₂ (walk pool) (omega arith) (omega arith)
  walk-append pool (suc j) k c =
      ap (λ i. walk pool i c) (suc_add j k)
      ∙ ap (◌∷◌ (get_elem? pool (c % length pool))) (
          walk-append pool j k (c + 1)
          ∙ ap (λ i. walk pool j (c + 1) ++ walk pool k i) (omega arith))

  length-drop : (n : ℕ) (xs : List A) → length (drop n xs) ≡ length xs - n
  length-drop zero xs = omega arith
  length-drop (suc n) [] = omega arith
  length-drop (suc n) (x ∷ xs) = omega (arith, length-drop n xs)

  walk-split :
      (pool : List A) (c r : ℕ)
      → c % length pool ≡ r
      → 0 < length pool
      → r < length pool
      → walk pool (length pool) c ≡ map some (drop r pool) ++ map some (take r pool)
  walk-split pool c r e p h =
      let n = length pool in
      ap (λ i. walk pool i c) (omega arith)
      ∙ walk-append pool (n - r) r c
      ∙ ap₂ ◌++◌
          (walk-slice pool (n - r) c r e p (omega arith)
            ∙ ap (map some) (take_all (n - r) (drop r pool) (omega (arith, length-drop r pool))))
          (walk-slice pool r (c + (n - r)) 0 (mod_wrap c n r p e) p (omega arith))

  -- From any place, as many steps as the list is long read each element as often as it stands in
  -- the list.
  pub walk-perm :
      (pool : List A) (c : ℕ) → 0 < length pool → Perm (walk pool (length pool) c) (map some pool)
  walk-perm pool c p =
      let r = c % length pool in
      rw (walk-split pool c r refl p (omega arith)) (
        Perm.trans (perm_append_comm (map some (drop r pool)) (map some (take r pool)))
          (rw (← map-append some (take r pool) (drop r pool), take-append-drop r pool) Perm.rfl))
