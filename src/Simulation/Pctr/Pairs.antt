-- ===== src/Simulation/Pctr/Pairs.antt =====
-- What the journeys of one token leave of its taps, and of those of the others.
use task_discovery_service.Prelude.{
  ℕ, ◌≤◌, ◌≡◌, inl, inr, refl, sym, ap, ◌∙◌, Bool, true, false, not, ◌&&◌, Option, none, some, List,
  [], ◌∷◌, map, Text, text_eq, text_beq, if◌then◌else◌, if_both, ltb, length, keep_if,
  length-keep_if-le, arith, Bool-cases, beq_refl,
}
use task_discovery_service.Prelude.Result.{Result, ok, err}
use task_discovery_service.Prelude.Sorting.{sort_by, insert_by, length-sort_by}
use task_discovery_service.Simulation.Pctr.{
  TapRow, PctrStore, is_open, is_one_of, closed_row, close_journey, get_station_cost_cents,
  pair_taps, open_taps, construct_token, add_journeys,
}

module _ {ℓ} {A : Type ℓ} where
  keep_if-keep_if :
      (p q : A → Bool) (xs : List A) → keep_if q (keep_if p xs) ≡ keep_if (λ x. p x && q x) xs
  keep_if-keep_if p q [] = refl
  keep_if-keep_if p q (x ∷ xs) = elim (Bool-cases (p x)) [
    | inl e ↦ rw e (ap (λ rest. if q x then x ∷ rest else rest) (keep_if-keep_if p q xs))
    | inr e ↦ rw e (keep_if-keep_if p q xs)
  ]

  length-keep_if-and :
      (p q : A → Bool) (xs : List A) → length (keep_if (λ x. p x && q x) xs) ≤ length (keep_if q xs)
  length-keep_if-and p q [] = omega arith
  length-keep_if-and p q (x ∷ xs) = ground (arith, length-keep_if-and p q xs)

  length-keep_if-insert_by :
      (key : A → ℕ) (p : A → Bool) (x : A) (ys : List A)
      → length (keep_if p (insert_by key x ys)) ≡ length (keep_if p (x ∷ ys))
  length-keep_if-insert_by key p x [] = refl
  length-keep_if-insert_by key p x (y ∷ ys) = ground (arith, length-keep_if-insert_by key p x ys)

  length-keep_if-sort_by :
      (key : A → ℕ) (p : A → Bool) (xs : List A)
      → length (keep_if p (sort_by key xs)) ≡ length (keep_if p xs)
  length-keep_if-sort_by key p [] = refl
  length-keep_if-sort_by key p (x ∷ xs) =
      length-keep_if-insert_by key p x (sort_by key xs)
      ∙ ground (arith, length-keep_if-sort_by key p xs)

  pub keep_none : (p : A → Bool) (xs : List A) → ((x : A) → p x ≡ false) → keep_if p xs ≡ []
  keep_none p [] h = refl
  keep_none p (x ∷ xs) h = rw (h x) (keep_none p xs h)

if_when {ℓ} :
    {A : Type ℓ} (P : A → Type 0) (b : Bool) (x y : A)
    → (b ≡ true → P x)
    → P y
    → P (if b then x else y)
if_when P true x y p q = p refl
if_when P false x y p q = q

abbrev pub open_count : Text → PctrStore → ℕ
open_count token s = length (keep_if (is_open token) s.transactions)

pub store-add_journeys : (n : ℕ) (r : Result Text ℕ × PctrStore) → (add_journeys n r).1 ≡ r.1
store-add_journeys n (err e, s) = refl
store-add_journeys n (ok m, s) = refl

-- Whether a row is in none of the pairs of taps.
abbrev survives : List TapRow → TapRow → Bool
survives [] r = true
survives (tap ∷ []) r = true
survives (from ∷ to ∷ taps) r = not (is_one_of from to r) && survives taps r

module _ (token : Text) where
  step-closed_row :
      (one : Bool) (r closed : TapRow) (rest later : List TapRow)
      → closed.processed ≡ true
      → rest ≡ later
      → (if is_open token (if one then closed else r)
          then (if one then closed else r) ∷ rest
          else rest)
        ≡ (let kept = later in if is_open token r && not one then r ∷ kept else kept)
  step-closed_row true r closed rest later done e = rw done (ground arith)
  step-closed_row false r closed rest later done e = ground arith

  open-closed_row :
      (from to : TapRow) (cost : ℕ) (error : Option Text) (rows : List TapRow)
      → keep_if (is_open token) (map (closed_row from to cost error) rows)
        ≡ keep_if (λ r. is_open token r && not (is_one_of from to r)) rows
  open-closed_row from to cost error [] = refl
  open-closed_row from to cost error (r ∷ rows) =
      step-closed_row (is_one_of from to r) r
        (record r { processed = true; journey_cost_cents = some cost; error_reason = error })
        (keep_if (is_open token) (map (closed_row from to cost error) rows))
        (keep_if (λ r. is_open token r && not (is_one_of from to r)) rows) refl
        (open-closed_row from to cost error rows)

  open-close_journey :
      (name : Text) (from to : TapRow) (cost : Option ℕ) (s : PctrStore)
      → keep_if (is_open token) (close_journey name from to cost s).1.transactions
        ≡ keep_if (λ r. not (is_one_of from to r)) (keep_if (is_open token) s.transactions)
  open-close_journey name from to none s =
      open-closed_row from to 0 _ s.transactions
      ∙ sym (keep_if-keep_if (is_open token) (λ r. not (is_one_of from to r)) s.transactions)
  open-close_journey name from to (some cost) s =
      open-closed_row from to cost none s.transactions
      ∙ sym (keep_if-keep_if (is_open token) (λ r. not (is_one_of from to r)) s.transactions)

  keep_all : (rows : List TapRow) → rows ≡ keep_if (λ r. true) rows
  keep_all [] = refl
  keep_all (r ∷ rows) = ap (◌∷◌ r) (keep_all rows)

  -- What the journeys of a list of taps leave open.
  open-pair_taps :
      (name : Text) (taps : List TapRow) (s : PctrStore)
      → keep_if (is_open token) (pair_taps name taps s).1.transactions
        ≡ keep_if (survives taps) (keep_if (is_open token) s.transactions)
  unfolding pair_taps
  open-pair_taps name [] s = keep_all (keep_if (is_open token) s.transactions)
  open-pair_taps name (tap ∷ []) s = keep_all (keep_if (is_open token) s.transactions)
  open-pair_taps name (from ∷ to ∷ taps) s =
      let cost = get_station_cost_cents from.station_id to.station_id s.station_costs in
      open-pair_taps name taps (close_journey name from to cost s).1
      ∙ ap (keep_if (survives taps)) (open-close_journey name from to cost s)
      ∙ keep_if-keep_if (λ r. not (is_one_of from to r)) (survives taps)
          (keep_if (is_open token) s.transactions)

  -- Of the taps themselves at most an odd one survives.
  one_survives : (taps : List TapRow) → length (keep_if (survives taps) taps) ≤ 1
  one_survives [] = omega arith
  one_survives (tap ∷ []) = omega arith
  one_survives (from ∷ to ∷ taps) =
      let a : text_beq from.transaction_id from.transaction_id ≡ true =
        beq_refl from.transaction_id in
      let b : text_beq to.transaction_id to.transaction_id ≡ true = beq_refl to.transaction_id in
      let le = length-keep_if-and (λ r. not (is_one_of from to r)) (survives taps) taps in
      ground (arith, one_survives taps)

  pub count-construct_token :
      (name : Text) (s : PctrStore)
      → open_count token (construct_token name s).1 ≤ open_count token s
  unfolding construct_token
  count-construct_token name s =
      if_both (λ (r : ℕ × PctrStore). open_count token r.1 ≤ open_count token s)
        (ltb (length (open_taps name s)) 2) (0, s) (pair_taps name (open_taps name s) s)
        (omega arith)
        (omega (
          arith,
          ap length (open-pair_taps name (open_taps name s) s),
          length-keep_if-le (survives (open_taps name s)) (keep_if (is_open token) s.transactions),
        ))

  pub settled-construct_token : (s : PctrStore) → open_count token (construct_token token s).1 ≤ 1
  unfolding construct_token
  settled-construct_token s =
      let taps = open_taps token s in
      let opened = keep_if (is_open token) s.transactions in
      if_when (λ (r : ℕ × PctrStore). open_count token r.1 ≤ 1) (ltb (length taps) 2) (0, s)
        (pair_taps token taps s)
        (λ e. ground (arith, length-sort_by (λ (r : TapRow). r.tap_time) opened))
        (omega (
          arith,
          ap length (open-pair_taps token taps s),
          length-keep_if-sort_by (λ (r : TapRow). r.tap_time) (survives taps) opened,
          one_survives taps,
        ))
