-- ===== src/Simulation/Pctr/Debts/Reports.antt =====
-- What the PA has received of a token's debts, and what the back office has marked as reported.
use task_discovery_service.Prelude.{
  ℕ, ◌+◌, ◌≤◌, ◌≡◌, ◌≢◌, ◌⊎◌, inl, inr, sym, ap, subst, true, false, Option, none, some, List, [],
  ◌∷◌, ◌++◌, Text, ◌==◌, text_eq, nat_eq, if_both, arith,
}
use task_discovery_service.Prelude.Result.{Result, ok, err}
use task_discovery_service.Text.{codes}
use task_discovery_service.Simulation.Proxy.{trim_slashes}
use task_discovery_service.Simulation.Pctr.{PctrStore, run_pctr_journey_construction}
use task_discovery_service.Simulation.Pctr.Debts.{
  PaStore, get_unreported_debts, mark_debts_reported, insert_debts, RoundSetting, resolve_pa,
  after_marking, after_post, report_to, report_owed, report_debts, after_construction, report_round,
}
use task_discovery_service.Simulation.Pctr.Debts.Amounts.{
  debts_where, received, owed_by-get_unreported_debts, received-insert_debts, received-le,
  received-all, IsInserted, nothing_unreported, marked_debts, reported-run,
}

module _ (token : Text) (env : RoundSetting PaStore) where
  abbrev pub IsFailed : Option Text → Type 0
  IsFailed answer = (e : Text) × (answer ≡ some e)

  -- What httpPostJSON to the handler of /debts can do: the PA runs its INSERTs, and if one of them
  -- fails or the answer is lost, the post fails; or the post fails before it arrives.
  abbrev pub IsPosted : List (Text × ℕ) → PaStore → Option Text × PaStore → Type 0
  IsPosted debts pa (answer, pa') =
      ((fault : ℕ → Option Text) × (pa' ≡ (insert_debts fault 0 debts pa).1)
        × (((insert_debts fault 0 debts pa).0 ≡ none) ⊎ IsFailed answer))
      ⊎ ((pa' ≡ pa) × IsFailed answer)

  -- A post that fails has inserted nothing, not a part of the debts either.
  abbrev pub IsAllOrNothing : List (Text × ℕ) → PaStore → Option Text × PaStore → Type 0
  IsAllOrNothing debts pa answer =
      ((fault : ℕ → Option Text) × ((insert_debts fault 0 debts pa).0 ≡ none)
        × (answer ≡ (none, (insert_debts fault 0 debts pa).1)))
      ⊎ ((e : Text) × (answer ≡ (some e, pa)))

  -- What holds of the books is kept by a round if it is kept by a post and what follows.
  module _ (R : ℕ → ℕ → Type 0) where
    abbrev InBooks : PctrStore × PaStore → Type 0
    InBooks (s, pa) = R (debts_where token true s.debts) (received token pa)

    abbrev IsKeptByPost : Type 0
    IsKeptByPost =
        (url : Text) (s : PctrStore) (pa : PaStore)
        → let (owed, ids) = get_unreported_debts env.collation s in
          InBooks (s, pa) → InBooks (after_post env.mark_fault ids s (env.post url owed pa))

    report_to-InBooks :
        (base : Result Text Text) (s : PctrStore) (pa : PaStore)
        → IsKeptByPost
        → InBooks (s, pa)
        → let (owed, ids) = get_unreported_debts env.collation s in
          InBooks (report_to env base owed ids s pa)
    report_to-InBooks (err e) s pa kept h = h
    report_to-InBooks (ok base) s pa kept h =
        let (owed, ids) = get_unreported_debts env.collation s in
        let url = trim_slashes base ++ codes "/debts" in
        if_both InBooks (base == []) (s, pa)
          (after_post env.mark_fault ids s (env.post url owed pa)) h (kept url s pa h)

    report_owed-InBooks :
        (owed : List (Text × ℕ)) (ids : List ℕ) (s : PctrStore) (pa : PaStore)
        → InBooks (s, pa)
        → InBooks (report_to env (resolve_pa env.pa_answer env.pa_base) owed ids s pa)
        → InBooks (report_owed env owed ids s pa)
    report_owed-InBooks [] ids s pa h k = h
    report_owed-InBooks (o ∷ owed) ids s pa h k = k

    report_debts-InBooks :
        (fault : Option Text) (s : PctrStore) (pa : PaStore)
        → IsKeptByPost
        → InBooks (s, pa)
        → InBooks (report_debts env fault s pa)
    report_debts-InBooks (some e) s pa kept h = h
    report_debts-InBooks none s pa kept h =
        let (owed, ids) = get_unreported_debts env.collation s in
        report_owed-InBooks owed ids s pa h
          (report_to-InBooks (resolve_pa env.pa_answer env.pa_base) s pa kept h)

    after_construction-InBooks :
        (made : Result Text ℕ × PctrStore) (pa : PaStore)
        → IsKeptByPost
        → InBooks (made.1, pa)
        → InBooks (after_construction env made pa)
    after_construction-InBooks (err e, s) pa kept h = h
    after_construction-InBooks (ok n, s) pa kept h =
        report_debts-InBooks env.debts_fault s pa kept h

    report_round-InBooks :
        (s : PctrStore) (pa : PaStore)
        → IsKeptByPost
        → InBooks (s, pa)
        → InBooks (report_round env s pa)
    unfolding report_round
    report_round-InBooks s pa kept h =
        after_construction-InBooks
          (run_pctr_journey_construction env.collation env.list_fault env.construction_fault s) pa
          kept
          (subst (λ n. R n (received token pa))
            (sym (reported-run token env.collation env.list_fault env.construction_fault s)) h)

  marked_ids :
      (s : PctrStore)
      → debts_where token true
          (mark_debts_reported (get_unreported_debts env.collation s).1 s).debts
        ≡ debts_where token true s.debts + debts_where token false s.debts
  unfolding get_unreported_debts
  marked_ids s =
      marked_debts token (get_unreported_debts env.collation s).1 s
        (nothing_unreported token s.debts)

  -- What the INSERTs of the debts of a round make of the PA's book.
  IsInserted-owed :
      (fault : ℕ → Option Text) (s : PctrStore) (pa : PaStore)
      → token ≢ []
      → IsInserted token pa
          (debts_where token false s.debts)
          (insert_debts fault 0 (get_unreported_debts env.collation s).0 pa)
  IsInserted-owed fault s pa named =
      let owed = (get_unreported_debts env.collation s).0 in
      subst (λ n. IsInserted token pa n (insert_debts fault 0 owed pa))
        (owed_by-get_unreported_debts token env.collation s)
        (received-insert_debts token fault 0 owed pa named)

  marking-le :
      (fault : Option Text) (s : PctrStore) (got : ℕ)
      → debts_where token true s.debts + debts_where token false s.debts ≤ got
      → debts_where token true
          (after_marking fault (get_unreported_debts env.collation s).1 s).debts
        ≤ got
  marking-le none s got h = omega (arith, marked_ids s)
  marking-le (some e) s got h = omega arith

  post-le :
      (s : PctrStore) (pa : PaStore) (answer : Option Text × PaStore)
      → token ≢ []
      → IsPosted (get_unreported_debts env.collation s).0 pa answer
      → InBooks (λ reported got. reported ≤ got) (s, pa)
      → InBooks
          (λ reported got. reported ≤ got)
          (after_post env.mark_fault (get_unreported_debts env.collation s).1 s answer)
  post-le s pa (some e, w) named (inl (fault, same, _)) h = omega (
    arith,
    ap (received token) same,
    received-le token pa (debts_where token false s.debts) _ (IsInserted-owed fault s pa named),
  )
  post-le s pa (some e, w) named (inr (same, _)) h = omega (arith, ap (received token) same)
  post-le s pa (none, w) named (inl (fault, same, inl done)) h =
      marking-le env.mark_fault s (received token w) (
        omega (
          arith,
          ap (received token) same,
          received-all token pa (debts_where token false s.debts) _
              (IsInserted-owed fault s pa named) done,
        ))
  post-le s pa (none, w) named (inl (fault, same, inr (e, failed))) h = cc
  post-le s pa (none, w) named (inr (same, (e, failed))) h = cc

  -- If, for a token that is not empty, the PA has received at least what the back office has marked
  -- as reported, then so it is after a round, whatever fails in it: a statement of either database,
  -- between the INSERTs of the PA too, the query of the proxy, or the post before or after it arrives.
  pub report_round-received :
      token ≢ []
      → ((url : Text) (debts : List (Text × ℕ)) (pa : PaStore)
          → IsPosted debts pa (env.post url debts pa))
      → (s : PctrStore) (pa : PaStore) → debts_where token true s.debts ≤ received token pa
      → let (s', pa') = report_round env s pa in
        debts_where token true s'.debts ≤ received token pa'
  report_round-received named posting s pa =
      report_round-InBooks (λ reported got. reported ≤ got) s pa
        (λ url s pa.
          post-le s pa (env.post url (get_unreported_debts env.collation s).0 pa) named
            (posting url (get_unreported_debts env.collation s).0 pa))
