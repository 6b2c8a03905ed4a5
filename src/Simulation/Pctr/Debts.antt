-- ===== src/Simulation/Pctr/Debts.antt =====
-- Simulation/pctrbo/main.go and Simulation/carddb/pctr.go: the report of debts every five minutes;
-- and InsertDebts of Simulation/carddb/pa.go, which keeps them.
pub mod Amounts
pub mod Reports
use task_discovery_service.Prelude.{
  ℕ, ◌+◌, Bool, true, false, not, ◌||◌, Option, none, some, List, [], ◌∷◌, ◌++◌, map, Text, ◌==◌,
  text_eq, nat_eq, if◌then◌else◌, keep_if, length,
}
use task_discovery_service.Prelude.Result.{Result, ok, err}
use task_discovery_service.Prelude.Sorting.{sort_by}
use task_discovery_service.Text.{codes, trim_space}
use task_discovery_service.Simulation.Proxy.{ensure_http_base, trim_slashes}
use task_discovery_service.Simulation.Pctr.{DebtRow, PctrStore, run_pctr_journey_construction}

-- Table pa_debts, as tokens with amounts.
pub record PaStore : Type 0 where
  pub pa_debts : List (Text × ℕ)

-- SUM and GROUP BY of amounts by token.
abbrev pub add_owed : Text → ℕ → List (Text × ℕ) → List (Text × ℕ)
add_owed token amount [] = (token, amount) ∷ []
add_owed token amount ((other, owed) ∷ groups) =
    let rest = add_owed token amount groups in
    if other == token then (other, owed + amount) ∷ groups else (other, owed) ∷ rest

abbrev pub owed_groups : List DebtRow → List (Text × ℕ)
owed_groups [] = []
owed_groups (d ∷ debts) =
    let rest = owed_groups debts in
    if d.reported then rest else add_owed d.token d.amount_cents rest

unfoldable pub get_unreported_debts : (Text → ℕ) → PctrStore → List (Text × ℕ) × List ℕ
get_unreported_debts collation s = (
  sort_by (λ o. collation o.0) (owed_groups s.debts),
  map (λ d. d.id) (keep_if (λ d. not d.reported) s.debts),
)

abbrev pub reported_debt : DebtRow → DebtRow
reported_debt d = record d { reported = true }

-- The update is of every debt that is not yet reported; `ids` says only whether there is one.
unfoldable pub mark_debts_reported : List ℕ → PctrStore → PctrStore
mark_debts_reported [] s = s
mark_debts_reported (id ∷ ids) s = record s { debts = map reported_debt s.debts }

abbrev pub unless_fault : Option Text → PaStore → Option Text × PaStore → Option Text × PaStore
unless_fault none pa rest = rest
unless_fault (some e) pa rest = (some e, pa)

-- One INSERT for each debt, and none for a debt without a token or an amount. `fault` is the error of
-- the INSERT of a debt by its place in the list; it ends the loop, and what is inserted stays.
unfoldable pub insert_debts :
    (ℕ → Option Text) → ℕ → List (Text × ℕ) → PaStore → Option Text × PaStore
insert_debts fault place [] pa = (none, pa)
insert_debts fault place ((token, amount) ∷ debts) pa =
    if token == [] || amount == 0
    then insert_debts fault (place + 1) debts pa
    else unless_fault (fault place) pa (
        insert_debts fault (place + 1) debts
          (record pa { pa_debts = pa.pa_debts ++ ((token, amount) ∷ []) }))

-- The handler of /debts for a POST whose body decodes: the status, and whether the debts are accepted,
-- with their number.
abbrev pub debts_response : ℕ → Option Text × PaStore → (ℕ × Bool × ℕ) × PaStore
debts_response received (none, pa) = ((200, true, received), pa)
debts_response received (some e, pa) = ((503, false, 0), pa)

unfoldable pub handle_debts :
    (ℕ → Option Text) → List (Text × ℕ) → PaStore → (ℕ × Bool × ℕ) × PaStore
handle_debts fault debts pa = debts_response (length debts) (insert_debts fault 0 debts pa)

-- The surroundings of one round: errors of the database, the proxy's answer for the PA, its fallback,
-- and httpPostJSON, over the state of what it posts to.
pub record RoundSetting (W : Type 0) : Type 0 where
  pub collation : Text → ℕ
  pub list_fault : Option Text
  pub construction_fault : Text → Option Text
  pub debts_fault : Option Text
  pub pa_answer : Result Text Text
  pub pa_base : Text
  pub post : Text → List (Text × ℕ) → W → Option Text × W
  pub mark_fault : Option Text

abbrev pub resolve_pa : Result Text Text → Text → Result Text Text
resolve_pa (ok addr) pa_base = ok (ensure_http_base addr)
resolve_pa (err e) pa_base =
    if trim_space pa_base == [] then err e else ok (ensure_http_base pa_base)

abbrev pub after_marking : Option Text → List ℕ → PctrStore → PctrStore
after_marking none ids s = mark_debts_reported ids s
after_marking (some e) ids s = s

abbrev pub after_post :
    {W : Type 0} → Option Text → List ℕ → PctrStore → Option Text × W → PctrStore × W
after_post mark_fault ids s (some e, w) = (s, w)
after_post mark_fault ids s (none, w) = (after_marking mark_fault ids s, w)

module _ {W : Type 0} (env : RoundSetting W) where
  abbrev pub report_to : Result Text Text → List (Text × ℕ) → List ℕ → PctrStore → W → PctrStore × W
  report_to (err e) owed ids s w = (s, w)
  report_to (ok pa) owed ids s w =
      if pa == []
      then (s, w)
      else after_post env.mark_fault ids s (env.post (trim_slashes pa ++ codes "/debts") owed w)

  abbrev pub report_owed : List (Text × ℕ) → List ℕ → PctrStore → W → PctrStore × W
  report_owed [] ids s w = (s, w)
  report_owed (o ∷ owed) ids s w =
      report_to (resolve_pa env.pa_answer env.pa_base) (o ∷ owed) ids s w

  abbrev pub report_debts : Option Text → PctrStore → W → PctrStore × W
  report_debts (some e) s w = (s, w)
  report_debts none s w =
      let (owed, ids) = get_unreported_debts env.collation s in report_owed owed ids s w

  abbrev pub after_construction : Result Text ℕ × PctrStore → W → PctrStore × W
  after_construction (err e, s) w = (s, w)
  after_construction (ok journeys, s) w = report_debts env.debts_fault s w

  -- What the back office does every five minutes.
  unfoldable pub report_round : PctrStore → W → PctrStore × W
  report_round s w =
      after_construction
        (run_pctr_journey_construction env.collation env.list_fault env.construction_fault s) w
