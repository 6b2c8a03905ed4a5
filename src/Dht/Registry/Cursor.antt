-- ===== src/Dht/Registry/Cursor.antt =====
-- The cursor serves the addresses that were found in turn.
use task_discovery_service.Prelude.{ℕ, zero, suc, Option, List, [], ◌∷◌, Text, text_eq, Perm}
use mathlib.Core.List.Perm
use task_discovery_service.Prelude.Result.{Result, ok}
use task_discovery_service.Dht.Registry.{DhtRegistry, query}

module _ (task first : Text) (others : List Text) where
  abbrev addrs : List Text
  addrs = first ∷ others

  -- The answers to so many queries that find the same addresses.
  abbrev pub query_times : ℕ → DhtRegistry → List (Option (Result Text Text))
  query_times zero r = []
  query_times (suc k) r = let answer = query task (ok addrs) r in answer.0 ∷ query_times k answer.1
