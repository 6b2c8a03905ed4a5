-- ===== src/Simulation/Station/Filing.antt =====
-- What stands in the buffers of a station: under each card type, transactions of that type.
use task_discovery_service.Prelude.{
  ℕ, zero, suc, ◌≡◌, sym, subst, false, Option, none, some, List, [], ◌∷◌, Text, ◌==◌, text_eq,
  if_both, ltb, arith, length, take, drop, length-take, All, All-append, beq→eq, Bool-cases, inl,
  inr,
}
use task_discovery_service.Assoc.{lookup, insert}
use task_discovery_service.Simulation.{Transaction}
use task_discovery_service.Simulation.Station.{
  Buffers, or_no_transactions, is_refused, requeue, remove_at,
}

-- A transaction of the card type that passes the guards of the station.
abbrev pub IsOf : Text → Transaction → Type 0
IsOf card_type tx = (tx.card_type ≡ card_type) × (is_refused tx ≡ false)

abbrev pub IsFiled : Buffers → Type 0
IsFiled = All (λ e. All (IsOf e.0) e.1)

module _ {ℓ} {A : Type ℓ} (P : A → Type 0) where
  pub All-take-drop : (n : ℕ) (xs : List A) → All P xs → All P (take n xs) × All P (drop n xs)
  All-take-drop zero xs h = (tt, h)
  All-take-drop (suc n) [] h = (tt, tt)
  All-take-drop (suc n) (x ∷ xs) h =
      let (front, back) = All-take-drop n xs h.1 in ((h.0, front), back)

  abbrev pub IsTaken : Option (A × List A) → Type 0
  IsTaken none = Unit
  IsTaken (some (y, ys)) = P y × All P ys

  IsTaken-later :
      (x : A) (o : Option (A × List A))
      → P x
      → IsTaken o
      → IsTaken (elim o [ none ↦ none | some (y, ys) ↦ some (y, x ∷ ys) ])
  IsTaken-later x none h t = tt
  IsTaken-later x (some (y, ys)) h t = (t.0, (h, t.1))

  pub remove_at-IsTaken : (n : ℕ) (xs : List A) → All P xs → IsTaken (remove_at n xs)
  remove_at-IsTaken n [] h = tt
  remove_at-IsTaken zero (x ∷ xs) h = h
  remove_at-IsTaken (suc n) (x ∷ xs) h =
      IsTaken-later x (remove_at n xs) h.0 (remove_at-IsTaken n xs h.1)

pub lookup-IsOf :
    (card_type : Text) (b : Buffers)
    → IsFiled b
    → All (IsOf card_type) (or_no_transactions (lookup card_type b))
unfolding lookup
lookup-IsOf card_type [] h = tt
lookup-IsOf card_type ((other, txs) ∷ b) h = elim (Bool-cases (other == card_type)) [
  | inl e ↦ rw e (subst (λ t. All (IsOf t) txs) (beq→eq other card_type e) h.0)
  | inr e ↦ rw e (lookup-IsOf card_type b h.1)
]

pub insert-IsFiled :
    (card_type : Text) (txs : List Transaction) (b : Buffers)
    → All (IsOf card_type) txs
    → IsFiled b
    → IsFiled (insert card_type txs b)
unfolding insert
insert-IsFiled card_type txs [] h f = (h, tt)
insert-IsFiled card_type txs ((other, old) ∷ b) h f =
    if_both IsFiled (other == card_type) _ _ (h, f.1) (f.0, insert-IsFiled card_type txs b h f.1)

pub requeue-IsFiled :
    (card_type : Text) (batch : List Transaction) (b : Buffers)
    → All (IsOf card_type) batch
    → IsFiled b
    → IsFiled (requeue batch b)
unfolding requeue
requeue-IsFiled card_type [] b h f = f
requeue-IsFiled card_type (tx ∷ txs) b h f =
    let own : All (IsOf tx.card_type) (tx ∷ txs) =
      subst (λ t. All (IsOf t) (tx ∷ txs)) (sym h.0.0) h in
    insert-IsFiled tx.card_type _ b
      (All-append (IsOf tx.card_type) (tx ∷ txs) _ own (lookup-IsOf tx.card_type b f)) f

pub taken_length :
    (n : ℕ) (txs : List Transaction) → ltb (length txs) n ≡ false → length (take n txs) ≡ n
taken_length n txs h = ground (arith, length-take n txs)
