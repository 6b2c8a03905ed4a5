-- ===== src/Tests/Tokens.antt =====
-- A card that asks for a token, while another request gives a token to another card.
use task_discovery_service.Prelude.{◌≡◌, refl, true, false, Option, some, [], ◌∷◌, Text, ℕ, none}
use task_discovery_service.Prelude.Result.{ok}
use task_discovery_service.Text.{codes, trim_space, is_space}
use task_discovery_service.Word.{lt64}
use task_discovery_service.Assoc.{lookup, insert}
use task_discovery_service.Simulation.Pa.{
  PaTables, handle_tokenize, card_has_min_funds, get_or_create_token, insert_token, insert_others,
}
use task_discovery_service.Simulation.Pa.Tokens.{IsUnambiguous}
use task_discovery_service.Simulation.Pa.Tokenize.{IsTokenized, handle_tokenize-token}

abbrev two_cards : PaTables
two_cards = record {
  cards =
      (codes "2001", record { active = true; blocked = false; balance_cents = 300 })
      ∷ (codes "2999", record { active = true; blocked = true; balance_cents = 999 })
      ∷ [];
  tokens = [];
}

two_cards-IsUnambiguous : IsUnambiguous two_cards.tokens
unfolding lookup
two_cards-IsUnambiguous = λ c d token e. cc

abbrev no_fault : ℕ → Option Text
no_fault statement = none

abbrev plain : Text → Option Text
plain s = some s

tokenize_example :
    IsTokenized 1 none no_fault
      (ok (codes "ab"))
      ((codes "cd", codes "2002") ∷ [])
      plain
      plain
      (codes "2001")
      two_cards
      (handle_tokenize 1 none no_fault
        (ok (codes "ab"))
        ((codes "cd", codes "2002") ∷ [])
        plain
        plain
        (codes "2001")
        two_cards)
tokenize_example =
    handle_tokenize-token 1 none no_fault (ok (codes "ab")) ((codes "cd", codes "2002") ∷ []) plain
      plain (codes "2001") two_cards two_cards-IsUnambiguous

accepted_token :
    (handle_tokenize 1 none no_fault
      (ok (codes "ab"))
      []
      plain
      plain
      (codes "2001")
      two_cards).0.token
    ≡ codes "ab"
unfolding handle_tokenize trim_space is_space card_has_min_funds lookup lt64 get_or_create_token
    insert_token insert_others insert
accepted_token = refl

blocked_card :
    (handle_tokenize 1 none no_fault
      (ok (codes "ab"))
      []
      plain
      plain
      (codes "2999")
      two_cards).0.reason
    ≡ codes "blocked"
unfolding handle_tokenize trim_space is_space card_has_min_funds lookup
blocked_card = refl
