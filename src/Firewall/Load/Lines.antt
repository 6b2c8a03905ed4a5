-- ===== src/Firewall/Load/Lines.antt =====
-- What loading gives: the rules of all lines in order, or the number of the first bad line.
use mathlib.Core.Path.{ap₂}
use task_discovery_service.Prelude.{
  ℕ, suc, ◌+◌, ◌≡◌, refl, sym, ap, ◌∙◌, Bool, false, Option, none, some, List, [], ◌∷◌, ◌++◌, Text,
  arith, append-nil, append_assoc, length, All,
}
use task_discovery_service.Prelude.Result.{ok, err}
use task_discovery_service.Ip.{Net}
use task_discovery_service.Firewall.{FirewallRule}
use task_discovery_service.Firewall.Load.{
  LineError, at_line, parse_line, load_lines, load_from_file,
}

module _ (net : Net) where
  -- A line that is skipped, or holds a rule.
  abbrev pub IsGood : Text → Type 0
  IsGood text = (parsed : Option FirewallRule) × (parse_line net text ≡ ok parsed)

  abbrev pub rules_of : (texts : List Text) → All IsGood texts → List FirewallRule
  rules_of [] h = []
  rules_of (text ∷ texts) h = elim h.0.0 [
    | none ↦ rules_of texts h.1
    | some rule ↦ rule ∷ rules_of texts h.1
  ]

  load_lines-good :
      (n : ℕ) (texts more : List Text) (rules : List FirewallRule) (h : All IsGood texts)
      → load_lines net n (texts ++ more) rules
        ≡ load_lines net (n + length texts) more (rules ++ rules_of texts h)
  unfolding load_lines
  load_lines-good n [] more rules h =
      rw (append-nil rules) (ap (λ k. load_lines net k more rules) (omega arith))
  load_lines-good n (text ∷ texts) more rules ((none, e), h) =
      rw (e, load_lines)
        (load_lines-good (suc n) texts more rules h
          ∙ ap (λ k. load_lines net k more (rules ++ rules_of texts h)) (omega arith))
  load_lines-good n (text ∷ texts) more rules ((some rule, e), h) =
      rw (e, load_lines)
        (load_lines-good (suc n) texts more (rules ++ (rule ∷ [])) h
          ∙ ap₂ (λ k r. load_lines net k more r) (omega arith)
              (append_assoc rules (rule ∷ []) (rules_of texts h)))

  -- If every line is good and the scan ends without an error, loading gives the rules of the lines,
  -- in order.
  pub load_from_file-good :
      (texts : List Text) (h : All IsGood texts)
      → load_from_file net (some (record { lines = texts; scan_error = false }))
        ≡ ok (record { rules = rules_of texts h })
  unfolding load_from_file load_lines
  load_from_file-good texts h =
      let e = load_lines-good 0 texts [] [] h in
      rw ((ap (λ t. load_lines net 0 t []) (sym (append-nil texts))) ∙ e) refl

  -- A bad line behind good ones stops the loading with its number, counted from 1, whatever follows.
  pub load_from_file-bad :
      (texts more : List Text) (text : Text) (e : LineError) (scan : Bool)
      → All IsGood texts
      → parse_line net text ≡ err e
      → load_from_file net (some (record { lines = texts ++ (text ∷ more); scan_error = scan }))
        ≡ err (at_line (length texts + 1) e)
  unfolding load_from_file load_lines
  load_from_file-bad texts more text e scan h bad =
      rw (load_lines-good 0 texts (text ∷ more) [] h, load_lines, bad) (ground arith)
