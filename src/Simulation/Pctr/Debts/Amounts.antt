-- ===== src/Simulation/Pctr/Debts/Amounts.antt =====
-- The amounts of one token in the books of the back office and of the PA, through each operation.
use task_discovery_service.Prelude.{
  ℕ, ◌+◌, ◌≤◌, ◌≡◌, ◌≢◌, inl, inr, refl, sym, ap, ◌∙◌, Bool, true, false, not, ◌||◌, Option, none,
  some, List, [], ◌∷◌, ◌++◌, map, Text, ◌==◌, text_eq, text_beq, nat_eq, if◌then◌else◌, if_both,
  ltb, length, keep_if, arith, Bool-cases, beq_false, beq→eq,
}
use task_discovery_service.Prelude.Result.{Result}
use task_discovery_service.Prelude.Sorting.{sort_by, insert_by}
use task_discovery_service.Simulation.Pctr.{
  TapRow, DebtRow, PctrStore, close_journey, get_station_cost_cents, pair_taps, construct_token,
  construct_tokens, add_journeys, committed, run_pctr_journey_construction, open_taps,
  paired_tokens,
}
use task_discovery_service.Simulation.Pctr.Pairs.{store-add_journeys}
use task_discovery_service.Simulation.Pctr.Debts.{
  PaStore, add_owed, owed_groups, get_unreported_debts, mark_debts_reported, reported_debt,
  insert_debts, unless_fault,
}

module _ (token : Text) where
  -- The amounts of the token: of a list, of the debts that are reported, and of the others.
  abbrev pub owed_by : List (Text × ℕ) → ℕ
  owed_by [] = 0
  owed_by ((other, amount) ∷ debts) = (if other == token then amount else 0) + owed_by debts

  abbrev pub debts_where : Bool → List DebtRow → ℕ
  debts_where reported [] = 0
  debts_where true (d ∷ debts) =
      (if d.reported then (if d.token == token then d.amount_cents else 0) else 0)
      + debts_where true debts
  debts_where false (d ∷ debts) =
      (if d.reported then 0 else (if d.token == token then d.amount_cents else 0))
      + debts_where false debts

  owed_by-append : (xs ys : List (Text × ℕ)) → owed_by (xs ++ ys) ≡ owed_by xs + owed_by ys
  owed_by-append [] ys = omega arith
  owed_by-append (x ∷ xs) ys = omega (arith, owed_by-append xs ys)

  owed_by-add_owed :
      (other : Text) (amount : ℕ) (groups : List (Text × ℕ))
      → owed_by (add_owed other amount groups)
        ≡ (if other == token then amount else 0) + owed_by groups
  owed_by-add_owed other amount [] = refl
  owed_by-add_owed other amount ((name, owed) ∷ groups) = elim (Bool-cases (name == other)) [
    | inl e ↦ rw (e, beq→eq name other e) (ground arith)
    | inr e ↦ rw e (omega (arith, owed_by-add_owed other amount groups))
  ]

  owed_by-owed_groups :
      (debts : List DebtRow) → owed_by (owed_groups debts) ≡ debts_where false debts
  owed_by-owed_groups [] = refl
  owed_by-owed_groups (d ∷ debts) = elim (Bool-cases d.reported) [
    | inl e ↦ rw e (omega (arith, owed_by-owed_groups debts))
    | inr e ↦ rw e (
        owed_by-add_owed d.token d.amount_cents (owed_groups debts)
        ∙ ap (◌+◌ (if d.token == token then d.amount_cents else 0)) (owed_by-owed_groups debts))
  ]

  owed_by-insert_by :
      (key : (Text × ℕ) → ℕ) (x : Text × ℕ) (ys : List (Text × ℕ))
      → owed_by (insert_by key x ys) ≡ owed_by (x ∷ ys)
  owed_by-insert_by key x [] = refl
  owed_by-insert_by key x (y ∷ ys) = ground (arith, owed_by-insert_by key x ys)

  owed_by-sort_by :
      (key : (Text × ℕ) → ℕ) (xs : List (Text × ℕ)) → owed_by (sort_by key xs) ≡ owed_by xs
  owed_by-sort_by key [] = refl
  owed_by-sort_by key (x ∷ xs) =
      owed_by-insert_by key x (sort_by key xs) ∙ omega (arith, owed_by-sort_by key xs)

  pub owed_by-get_unreported_debts :
      (collation : Text → ℕ) (s : PctrStore)
      → owed_by (get_unreported_debts collation s).0 ≡ debts_where false s.debts
  unfolding get_unreported_debts
  owed_by-get_unreported_debts collation s =
      owed_by-sort_by (λ o. collation o.0) (owed_groups s.debts) ∙ owed_by-owed_groups s.debts

  abbrev pub received : PaStore → ℕ
  received pa = owed_by pa.pa_debts

  -- What the INSERTs of a list that went through add.
  abbrev pub IsInserted : PaStore → ℕ → Option Text × PaStore → Type 0
  IsInserted pa owed (none, pa') = received pa' ≡ received pa + owed
  IsInserted pa owed (some e, pa') = received pa ≤ received pa'

  IsInserted-skip :
      (pa : PaStore) (amount owed : ℕ) (r : Option Text × PaStore)
      → amount ≡ 0
      → IsInserted pa owed r
      → IsInserted pa (amount + owed) r
  IsInserted-skip pa amount owed (none, pa') e h = omega arith
  IsInserted-skip pa amount owed (some f, pa') e h = h

  IsInserted-one :
      (pa pa' : PaStore) (amount owed : ℕ) (fault : Option Text) (r : Option Text × PaStore)
      → received pa' ≡ received pa + amount
      → IsInserted pa' owed r
      → IsInserted pa (amount + owed) (unless_fault fault pa r)
  IsInserted-one pa pa' amount owed (some f) r e h = omega arith
  IsInserted-one pa pa' amount owed none (none, pa'') e h = omega arith
  IsInserted-one pa pa' amount owed none (some f, pa'') e h = omega arith

  skipped :
      (other : Text) (amount : ℕ)
      → token ≢ []
      → (other == [] || amount == 0) ≡ true
      → (if other == token then amount else 0) ≡ 0
  skipped other amount named e = elim (Bool-cases (other == [])) [
    | inl q ↦
        let n : text_beq [] token ≡ false = beq_false [] token (λ q. named (sym q)) in
        rw (beq→eq other [] q, n) refl
    | inr q ↦ ground (arith, e, q)
  ]

  pub received-insert_debts :
      (fault : ℕ → Option Text) (place : ℕ) (debts : List (Text × ℕ)) (pa : PaStore)
      → token ≢ []
      → IsInserted pa (owed_by debts) (insert_debts fault place debts pa)
  unfolding insert_debts
  received-insert_debts fault place [] pa named = omega arith
  received-insert_debts fault place ((other, amount) ∷ debts) pa named =
      let paid : ℕ = if other == token then amount else 0 in
      let pa' : PaStore = record pa { pa_debts = pa.pa_debts ++ ((other, amount) ∷ []) } in
      elim (Bool-cases (other == [] || amount == 0)) [
        | inl e ↦ rw e (
            IsInserted-skip pa paid (owed_by debts) _ (skipped other amount named e)
              (received-insert_debts fault (place + 1) debts pa named))
        | inr e ↦ rw e (
            IsInserted-one pa pa' paid (owed_by debts) (fault place) _
              (owed_by-append pa.pa_debts ((other, amount) ∷ []) ∙ omega arith)
              (received-insert_debts fault (place + 1) debts pa' named))
      ]

  pub received-le :
      (pa : PaStore) (owed : ℕ) (r : Option Text × PaStore)
      → IsInserted pa owed r
      → received pa ≤ received r.1
  received-le pa owed (none, pa') h = omega (arith, h)
  received-le pa owed (some e, pa') h = h

  pub received-all :
      (pa : PaStore) (owed : ℕ) (r : Option Text × PaStore)
      → IsInserted pa owed r
      → r.0 ≡ none
      → received r.1 ≡ received pa + owed
  received-all pa owed (none, pa') h e = h
  received-all pa owed (some f, pa') h e = cc

  debts_where-marked :
      (debts : List DebtRow)
      → debts_where true (map reported_debt debts)
        ≡ debts_where true debts + debts_where false debts
  debts_where-marked [] = omega arith
  debts_where-marked (d ∷ debts) = ground (arith, debts_where-marked debts)

  no_ids :
      (b : Bool) (d : DebtRow) (rest : List DebtRow) (amount owed : ℕ)
      → map (λ (d : DebtRow). d.id) (if not b then d ∷ rest else rest) ≡ []
      → (map (λ (d : DebtRow). d.id) rest ≡ [] → owed ≡ 0)
      → (if b then 0 else amount) + owed ≡ 0
  no_ids true d rest amount owed e h = omega (arith, h e)
  no_ids false d rest amount owed e h = cc

  pub nothing_unreported :
      (debts : List DebtRow)
      → map (λ (d : DebtRow). d.id) (keep_if (λ d. not d.reported) debts) ≡ []
      → debts_where false debts ≡ 0
  nothing_unreported [] e = refl
  nothing_unreported (d ∷ debts) e =
      no_ids d.reported d (keep_if (λ d. not d.reported) debts)
        (if d.token == token then d.amount_cents else 0) (debts_where false debts) e
        (nothing_unreported debts)

  pub marked_debts :
      (ids : List ℕ) (s : PctrStore)
      → (ids ≡ [] → debts_where false s.debts ≡ 0)
      → debts_where true (mark_debts_reported ids s).debts
        ≡ debts_where true s.debts + debts_where false s.debts
  unfolding mark_debts_reported
  marked_debts [] s none_left = omega (arith, none_left refl)
  marked_debts (id ∷ ids) s none_left = debts_where-marked s.debts

  -- Making journeys adds debts that are not reported.
  reported-append_new :
      (debts : List DebtRow) (id amount : ℕ) (name : Text)
      → debts_where true (
          debts ++ (record { id = id; token = name; amount_cents = amount; reported = false } ∷ []))
        ≡ debts_where true debts
  reported-append_new [] id amount name = refl
  reported-append_new (d ∷ debts) id amount name =
      omega (arith, reported-append_new debts id amount name)

  reported-close_journey :
      (name : Text) (from to : TapRow) (cost : Option ℕ) (s : PctrStore)
      → debts_where true (close_journey name from to cost s).1.debts ≡ debts_where true s.debts
  reported-close_journey name from to none s = refl
  reported-close_journey name from to (some cost) s =
      reported-append_new s.debts s.next_debt_id cost name

  reported-pair_taps :
      (name : Text) (taps : List TapRow) (s : PctrStore)
      → debts_where true (pair_taps name taps s).1.debts ≡ debts_where true s.debts
  unfolding pair_taps
  reported-pair_taps name [] s = refl
  reported-pair_taps name (tap ∷ []) s = refl
  reported-pair_taps name (from ∷ to ∷ taps) s =
      let cost = get_station_cost_cents from.station_id to.station_id s.station_costs in
      reported-pair_taps name taps (close_journey name from to cost s).1
      ∙ reported-close_journey name from to cost s

  reported-construct_token :
      (name : Text) (s : PctrStore)
      → debts_where true (construct_token name s).1.debts ≡ debts_where true s.debts
  unfolding construct_token
  reported-construct_token name s =
      if_both (λ (r : ℕ × PctrStore). debts_where true r.1.debts ≡ debts_where true s.debts)
        (ltb (length (open_taps name s)) 2) (0, s) (pair_taps name (open_taps name s) s) refl
        (reported-pair_taps name (open_taps name s) s)

  reported-committed :
      (fault : Option Text) (s : PctrStore) (after : Result Text ℕ × PctrStore)
      → debts_where true after.1.debts ≡ debts_where true s.debts
      → debts_where true (committed fault s after).1.debts ≡ debts_where true s.debts
  reported-committed none s after e = e
  reported-committed (some fault) s after e = refl

  reported-construct_tokens :
      (fault : Text → Option Text) (names : List Text) (s : PctrStore)
      → debts_where true (construct_tokens fault names s).1.debts ≡ debts_where true s.debts
  unfolding construct_tokens
  reported-construct_tokens fault [] s = refl
  reported-construct_tokens fault (name ∷ names) s =
      let s' = (construct_token name s).1 in
      reported-committed (fault name) s
        (add_journeys (construct_token name s).0 (construct_tokens fault names s'))
        (ap (λ (x : PctrStore). debts_where true x.debts)
            (store-add_journeys (construct_token name s).0 (construct_tokens fault names s'))
          ∙ reported-construct_tokens fault names s'
          ∙ reported-construct_token name s)

  pub reported-run :
      (collation : Text → ℕ) (list_fault : Option Text) (fault : Text → Option Text) (s : PctrStore)
      → debts_where true (run_pctr_journey_construction collation list_fault fault s).1.debts
        ≡ debts_where true s.debts
  unfolding run_pctr_journey_construction
  reported-run collation (some e) fault s = refl
  reported-run collation none fault s =
      reported-construct_tokens fault (paired_tokens collation s) s
